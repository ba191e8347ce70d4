-- ===== src/Persist.antt =====
-- The durable mirror of the queue, src/mq_persist.h and src/mq_persist.c. The file system is a
-- function from paths to contents; what its calls answer is a parameter (`SaveIo`, `LoadIo`), since
-- any of them may fail. `mq_sync_parent_dir` has no effect that the rest of the program can see.
pub mod Records
pub mod Load
pub mod Save
pub mod Refusals
mod Tests
use tox_relayer.Prelude.{
  ℕ, zero, suc, ◌+◌, ◌-◌, ◌*◌, ◌/◌, ◌%◌, ◌^◌, Bool, true, false, not, ◌&&◌, ◌||◌, Option, none,
  some, List, [], ◌∷◌, ◌++◌, if◌then◌else◌, ltb, leb, ◌==◌, length, take, drop, get_or,
}
use tox_relayer.Prelude.Int.{ℤ, pos, negsuc, ltb_ℤ}
use tox_relayer.Text.{codes, str_eq, to_int}
use tox_relayer.Queue.{
  Config, Queue, Status, ok, err_range, err_full, err_notfound, enqueue, foreach,
}

abbrev pub magic : List ℕ
magic = codes "MQPQUEUE"

abbrev pub version : ℕ
version = 1

abbrev pub header_size : ℕ
header_size = 20

abbrev pub record_head : ℕ
record_head = 8

-- MQ_PERSIST_ERR_PATH, MQ_PERSIST_ERR_IO, MQ_PERSIST_ERR_FORMAT, MQ_PERSIST_ERR_FULL and
-- MQ_PERSIST_ERR_NOFILE; an answer of zero or more is MQ_PERSIST_OK or a number of messages.
abbrev pub err_path : ℤ
err_path = negsuc 0

abbrev pub err_io : ℤ
err_io = negsuc 1

abbrev pub err_format : ℤ
err_format = negsuc 2

abbrev pub err_noroom : ℤ
err_noroom = negsuc 3

abbrev pub err_nofile : ℤ
err_nofile = negsuc 4

unfoldable pub le_put_u32 : ℕ → List ℕ
le_put_u32 v = v % 256 ∷ v / 2 ^ 8 % 256 ∷ v / 2 ^ 16 % 256 ∷ v / 2 ^ 24 % 256 ∷ []

unfoldable pub le_get_u32 : List ℕ → ℕ
le_get_u32 bs =
    get_or bs 0 0 + get_or bs 1 0 * 2 ^ 8 + get_or bs 2 0 * 2 ^ 16 + get_or bs 3 0 * 2 ^ 24

-- `(uint32_t) value`.
unfoldable pub to_u32 : ℤ → ℕ
to_u32 (pos n) = n % 2 ^ 32
to_u32 (negsuc n) = 2 ^ 32 - 1 - n % 2 ^ 32

unfoldable pub le_put_i32 : ℤ → List ℕ
le_put_i32 v = le_put_u32 (to_u32 v)

unfoldable pub le_get_i32 : List ℕ → ℤ
le_get_i32 bs = to_int (pos (le_get_u32 bs))

-- What a save writes before the records.
unfoldable pub header : ℕ → List ℕ
header count = magic ++ (le_put_u32 version ++ (le_put_u32 (count % 2 ^ 32) ++ le_put_u32 0))

-- What `mq_save_visit` writes before a payload.
unfoldable pub head_of : ℤ → List ℕ → List ℕ
head_of friendnum payload = le_put_i32 friendnum ++ le_put_u32 (length payload % 2 ^ 32)

-- The stream of a save: what was written, how many writes were tried, and whether one fell short.
pub record Sink : Type 0 where
  pub text : List ℕ
  pub writes : ℕ
  pub failed : Bool

abbrev pub Files : Type 0
Files = List ℕ → Option (List ℕ)

unfoldable pub store : Files → List ℕ → Option (List ℕ) → Files
store files path content other = if str_eq other path then content else files other

-- What the calls of a save answer: `wrote k` for the k-th `fwrite`; `partial` is what a failed save
-- leaves in the temporary file where `unlink` fails.
pub record SaveIo : Type 0 where
  pub path_max : ℕ
  pub opened : Bool
  pub wrote : ℕ → Bool
  pub flushed : Bool
  pub synced : Bool
  pub closed : Bool
  pub renamed : Bool
  pub unlinked : Bool
  pub partial : List ℕ

-- What the calls of a load answer.
pub record LoadIo : Type 0 where
  pub opened : Bool
  pub sized : Bool
  pub allocated : Bool
  pub read : Bool
  pub closed : Bool

unfoldable pub write : (ℕ → Bool) → Sink → List ℕ → Sink
write wrote s bytes =
    if wrote s.writes
    then record s { text = s.text ++ bytes; writes = s.writes + 1 }
    else record s { writes = s.writes + 1; failed = true }

unfoldable pub save_visit : (ℕ → Bool) → Sink → ℤ → List ℕ → Sink
save_visit wrote s friendnum payload =
    if s.failed
    then s
    else let s' = write wrote s (head_of friendnum payload) in
      if s'.failed then s' else write wrote s' payload

unfoldable pub save_all : (ℕ → Bool) → Sink → List (ℤ × List ℕ) → Sink
save_all wrote s [] = s
save_all wrote s ((friendnum, payload) ∷ ms) =
    save_all wrote (save_visit wrote s friendnum payload) ms

-- What stands in the temporary file when all is well, before it is flushed.
unfoldable pub written : Config → (ℕ → Bool) → Queue → Sink
written c wrote q =
    let s = write wrote (record { text = []; writes = 0; failed = false }) (header q.count) in
    if s.failed then s else save_all wrote s (foreach c q)

abbrev pub tmp_of : List ℕ → List ℕ
tmp_of path = path ++ codes ".tmp"

unfoldable pub unlink : SaveIo → Files → List ℕ → Files
unlink io files path = if io.unlinked then store files path none else files

-- `mq_persist_save` with a path that it accepts.
unfoldable pub save_to : Config → SaveIo → Files → List ℕ → Queue → Files × ℤ
save_to c io files path q =
    let tmp = tmp_of path in
    let s = written c io.wrote q in
    if not io.opened
    then (files, err_io)
    else if s.failed || (not io.flushed || (not io.synced || not io.closed))
    then (unlink io (store files tmp (some io.partial)) tmp, err_io)
    else if not io.renamed
    then (unlink io (store files tmp (some s.text)) tmp, err_io)
    else (store (store files tmp none) path (some s.text), pos 0)

-- The path is `none` for NULL.
unfoldable pub save : Config → SaveIo → Files → Option (List ℕ) → Queue → Files × ℤ
save c io files none q = (files, err_path)
save c io files (some path) q =
    if length path == 0 || leb io.path_max (length path + 4)
    then (files, err_path)
    else save_to c io files path q

-- `mq_read_all` of the file's bytes.
unfoldable pub read_all : LoadIo → Option (List ℕ) → Option (List ℕ) × ℤ
read_all io none = (none, if io.opened then err_nofile else err_io)
read_all io (some bytes) =
    if not io.opened || not io.sized
    then (none, err_io)
    else if ltb (length bytes) header_size
    then (none, err_format)
    else if not io.allocated || (not io.read || not io.closed)
    then (none, err_io)
    else (some bytes, pos 0)

-- What is left of `buf` behind the record at its start.
unfoldable pub behind : List ℕ → List ℕ
behind buf = drop (le_get_u32 (drop 4 buf)) (drop record_head buf)

module _ (c : Config) where
  -- A record that `mq_validate_records` accepts at the start of `buf`.
  unfoldable pub record_ok : List ℕ → Bool
  record_ok buf =
      let friendnum = le_get_i32 buf in
      let len = le_get_u32 (drop 4 buf) in
      if ltb (length buf) record_head
      then false
      else if ltb_ℤ friendnum (pos 0) || (len == 0 || leb c.payload_max len)
      then false
      else not (ltb (length (drop record_head buf)) len)

  -- The loop of `mq_validate_records` over the bytes from `off` on.
  unfoldable pub validate_records : ℕ → List ℕ → Bool
  validate_records zero buf = true
  validate_records (suc n) buf =
      let rest = validate_records n (behind buf) in if record_ok buf then rest else false

  -- The import loop of `mq_persist_load`.
  unfoldable pub import_records : ℕ → List ℕ → ℕ → ℤ → Queue → Queue × ℤ
  import_records zero buf loaded now q = (q, pos loaded)
  import_records (suc n) buf loaded now q =
      let (q', status) =
        enqueue c q (le_get_i32 buf) (some (drop record_head buf)) (le_get_u32 (drop 4 buf)) now in
      let rest = import_records n (behind buf) (loaded + 1) now q' in
      elim status [
        | ok ↦ rest
        | err_full ↦ (q', err_noroom)
        | err_range ↦ (q', err_format)
        | err_notfound ↦ (q', err_format)
      ]

  -- `mq_persist_load` once the file is in memory.
  unfoldable pub load_bytes : List ℕ → ℤ → Queue → Queue × ℤ
  load_bytes buf now q =
      let count = le_get_u32 (drop 12 buf) in
      let records = drop header_size buf in
      if not (str_eq (take 8 buf) magic) || not (le_get_u32 (drop 8 buf) == version)
      then (q, err_format)
      else if ltb c.capacity count || not (validate_records count records)
      then (q, err_format)
      else import_records count records 0 now q

  unfoldable pub load : LoadIo → Files → Option (List ℕ) → ℤ → Queue → Queue × ℤ
  load io files none now q = (q, err_path)
  load io files (some path) now q =
      if length path == 0
      then (q, err_path)
      else let (buf, rc) = read_all io (files path) in
        elim buf [ none ↦ (q, rc) | some bytes ↦ load_bytes bytes now q ]
