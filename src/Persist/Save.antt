-- ===== src/Persist/Save.antt =====
-- `mq_persist_save`: the file is replaced as a whole or not at all, and a load reads it back.
use tox_relayer.Prelude.{
  ℕ, ◌+◌, ◌^◌, ◌%◌, ◌≤◌, ◌<◌, ◌≡◌, refl, ap, sym, ◌∙◌, ◌⊎◌, inl, inr, Bool, true, false, not, ◌||◌,
  some, List, [], ◌∷◌, ◌++◌, arith, length, take, drop, ltb, leb, ◌==◌, if-elim, if◌then◌else◌,
  Bool-cases, length-append,
}
use mathlib.Core.List.{append_assoc, append-nil}
use tox_relayer.Prelude.Int.{ℤ, pos, negsuc}
use tox_relayer.Text.{codes, str_eq}
use tox_relayer.Text.Bytes.{str_eq_iff}
use tox_relayer.Queue.{Config, Queue, foreach}
use tox_relayer.Queue.Bag.{Weight, bag}
use tox_relayer.Queue.Foreach.{visits, foreach-bag}
use tox_relayer.Queue.Invariant.{IsConfig, IsQueue}
use tox_relayer.Persist.{
  Files, SaveIo, LoadIo, Sink, header, head_of, write, save_visit, save_all, written, tmp_of, store,
  unlink, save_to, save, load, load_bytes, read_all, le_get_u32, le_put_u32, header_size, magic,
  version, validate_records, import_records,
}
use tox_relayer.Persist.Records.{
  AllStorable, records, record_of, le_get_u32-le_put_u32, validate_records-records,
}
use tox_relayer.Persist.Load.{Imported, import_records-records}

save_visit-failed :
    (wrote : ℕ → Bool) (s : Sink) (friendnum : ℤ) (payload : List ℕ)
    → s.failed ≡ true
    → (save_visit wrote s friendnum payload).failed ≡ true
unfolding save_visit
save_visit-failed wrote s friendnum payload h = ground arith

save_all-failed :
    (wrote : ℕ → Bool) (ms : List (ℤ × List ℕ)) (s : Sink)
    → s.failed ≡ true
    → (save_all wrote s ms).failed ≡ true
unfolding save_all
save_all-failed wrote [] s h = h
save_all-failed wrote ((friendnum, payload) ∷ ms) s h =
    save_all-failed wrote ms (save_visit wrote s friendnum payload)
      (save_visit-failed wrote s friendnum payload h)

-- A visit whose writes succeed appends one record.
save_visit-record_of :
    (wrote : ℕ → Bool) (s : Sink) (friendnum : ℤ) (payload : List ℕ)
    → s.failed ≡ false
    → let s' = save_visit wrote s friendnum payload in
      s'.failed ≡ false → s'.text ≡ s.text ++ record_of friendnum payload
unfolding save_visit write record_of
save_visit-record_of wrote s friendnum payload g h =
    ground (arith, g, h, append_assoc s.text (head_of friendnum payload) payload)

save_all-records :
    (wrote : ℕ → Bool) (ms : List (ℤ × List ℕ)) (s : Sink)
    → s.failed ≡ false
    → (save_all wrote s ms).failed ≡ false
    → (save_all wrote s ms).text ≡ s.text ++ records ms
unfolding save_all records
save_all-records wrote [] s g h = sym (append-nil s.text)
save_all-records wrote ((friendnum, payload) ∷ ms) s g h =
    elim (Bool-cases (save_visit wrote s friendnum payload).failed) [
      | inl bad ↦ absurd (
          ground
            (arith, bad, h, save_all-failed wrote ms (save_visit wrote s friendnum payload) bad))
      | inr good ↦
          save_all-records wrote ms (save_visit wrote s friendnum payload) good h
          ∙ ap (λ t. t ++ records ms) (save_visit-record_of wrote s friendnum payload g good)
          ∙ append_assoc s.text (record_of friendnum payload) (records ms)
    ]

-- The file that stands for a queue.
unfoldable pub image : Config → Queue → List ℕ
image c q = header q.count ++ records (foreach c q)

pub written-image :
    (c : Config) (wrote : ℕ → Bool) (q : Queue)
    → (written c wrote q).failed ≡ false
    → (written c wrote q).text ≡ image c q
unfolding written image write
written-image c wrote q h = elim (Bool-cases (wrote 0)) [
  | inl e ↦ ground (
    arith,
    e,
    h,
    save_all-records wrote (foreach c q)
        (record { text = header q.count; writes = 1; failed = false }) refl,
  )
  | inr e ↦ absurd (ground (arith, e))
]

-- What a save may do to the file system: replace the file by the queue's image and take the
-- temporary file away, or report an error and leave every file but the temporary one alone.
abbrev pub Atomic : Config → Queue → List ℕ → Files → Files × ℤ → Type 0
Atomic c q path files (files', rc) =
    ((rc ≡ pos 0)
      × ((other : List ℕ)
          → str_eq other (tmp_of path) ≡ false
          → files' other ≡ (if str_eq other path then some (image c q) else files other)))
    ⊎ (((n : ℕ) × (rc ≡ negsuc n))
        × ((other : List ℕ) → str_eq other (tmp_of path) ≡ false → files' other ≡ files other))

-- A save replaces the file as a whole or leaves it as it was, whichever of the system's calls fail.
-- It answers MQ_PERSIST_OK exactly when the file was replaced.
pub save-Atomic :
    (c : Config) (io : SaveIo) (files : Files) (path : List ℕ) (q : Queue)
    → Atomic c q path files (save c io files (some path) q)
unfolding save save_to unlink store
save-Atomic c io files path q =
    if-elim P (length path == 0 || leb io.path_max (length path + 4))
      (λ _. inr ((0, refl), λ _ _. refl))
      (λ _.
        if-elim P (not io.opened) (λ _. inr ((1, refl), λ _ _. refl))
          (λ _.
            if-elim P
              ((written c io.wrote q).failed
                || (not io.flushed || (not io.synced || not io.closed)))
              (λ _. inr ((1, refl), λ other e. ground (arith, e)))
              (λ g.
                if-elim P (not io.renamed) (λ _. inr ((1, refl), λ other e. ground (arith, e)))
                  (λ _. inl (
                    refl,
                    λ other e. ground (arith, e, written-image c io.wrote q (ground (arith, g))),
                  )))))
  where
    P : Files × ℤ → Type 0
    P = Atomic c q path files

header-parts :
    (n : ℕ) (rest : List ℕ)
    → header n ++ rest
      ≡ magic ++ (le_put_u32 version ++ (le_put_u32 (n % 2 ^ 32) ++ (le_put_u32 0 ++ rest)))
unfolding header le_put_u32
header-parts n rest = refl

-- The image of a queue, parsed by a load.
module _ (c : Config) (q : Queue) (small : q.count < 2 ^ 32) where
  image-magic : take 8 (image c q) ≡ magic
  unfolding image header
  image-magic = refl

  image-version : le_get_u32 (drop 8 (image c q)) ≡ version
  unfolding image header le_put_u32 le_get_u32
  image-version = refl

  image-count : le_get_u32 (drop 12 (image c q)) ≡ q.count
  unfolding image header le_put_u32
  image-count = le_get_u32-le_put_u32 (q.count % 2 ^ 32) _ (omega arith) ∙ omega (arith, small)

  image-records : drop header_size (image c q) ≡ records (foreach c q)
  unfolding image header le_put_u32
  image-records = refl

  image-long : 20 ≤ length (image c q)
  unfolding image header le_put_u32
  image-long = omega arith

length-visits : (ms : List (ℤ × List ℕ)) → visits (λ _ _. 1) ms ≡ length ms
unfolding visits
length-visits [] = refl
length-visits (m ∷ ms) = omega (arith, length-visits ms)

-- A visit of all messages sees as many as are counted.
pub length-foreach : (c : Config) (q : Queue) → IsQueue c q → length (foreach c q) ≡ q.count
length-foreach c q v =
    sym (length-visits (foreach c q)) ∙ foreach-bag c q (λ _ _. 1) v ∙ v.is_ring.counted

load_bytes-import :
    (c : Config) (buf recs : List ℕ) (n : ℕ) (now : ℤ) (q : Queue)
    → take 8 buf ≡ magic
    → le_get_u32 (drop 8 buf) ≡ version
    → le_get_u32 (drop 12 buf) ≡ n
    → drop header_size buf ≡ recs
    → n ≤ c.capacity
    → validate_records c n recs ≡ true
    → load_bytes c buf now q ≡ import_records c n recs 0 now q
unfolding load_bytes
load_bytes-import c buf recs n now q em ev en er h v =
    rw (em, ev, en, er, v, (str_eq_iff magic magic).1 refl) (ground (arith, h))

load_bytes-image :
    (c : Config) (ok_c : IsConfig c) (q q' : Queue) (now : ℤ)
    → IsQueue c q
    → IsQueue c q'
    → AllStorable c (foreach c q)
    → c.capacity < 2 ^ 32
    → q'.count + q.count ≤ c.capacity
    → Imported c q' (foreach c q) 0 (load_bytes c (image c q) now q')
load_bytes-image c ok_c q q' now v v' s small room =
    rw
      (
        load_bytes-import c (image c q) (records ms) (length ms) now q' (image-magic c q fits)
            (image-version c q fits) (image-count c q fits ∙ sym counted) (image-records c q fits)
            (omega (arith, counted, room)) valid,
        sym (append-nil (records ms)),
      )
      (import_records-records c ok_c ms [] 0 now q' v' s (omega (arith, counted, room)))
  where
    ms : List (ℤ × List ℕ)
    ms = foreach c q

    counted : length ms ≡ q.count
    counted = length-foreach c q v

    fits : q.count < 2 ^ 32
    fits = omega (arith, room, small)

    valid : validate_records c (length ms) (records ms) ≡ true
    valid =
        ap (validate_records c (length ms)) (sym (append-nil (records ms)))
        ∙ validate_records-records c ms [] s

-- Every call of a load succeeds.
abbrev pub all_well : LoadIo
all_well = record { opened = true; sized = true; allocated = true; read = true; closed = true }

load-readable :
    (c : Config) (files : Files) (path bytes : List ℕ) (now : ℤ) (q : Queue)
    → files path ≡ some bytes
    → 20 ≤ length bytes
    → 0 < length path
    → load c all_well files (some path) now q ≡ load_bytes c bytes now q
unfolding load read_all
load-readable c files path bytes now q e long h = rw (e, nonempty, whole) refl
  where
    nonempty : (length path == 0) ≡ false
    nonempty = ground (arith, h)

    whole : ltb (length bytes) 20 ≡ false
    whole = ground (arith, long)

path-ne-tmp : (path : List ℕ) → str_eq path (tmp_of path) ≡ false
path-ne-tmp path = elim (Bool-cases (str_eq path (tmp_of path))) [
  | inl e ↦ absurd (
      omega
        (arith, ap length ((str_eq_iff path (tmp_of path)).0 e), length-append path (codes ".tmp")))
  | inr e ↦ e
]

-- A save of a well-formed queue that answers MQ_PERSIST_OK, followed by a load of the same
-- non-empty path whose system calls all succeed, into a well-formed queue with room, where the
-- capacity is below 2 ^ 32 and every message has a payload within the bounds and a friend number
-- of the C type: the load answers the number of messages that were saved and adds
-- exactly these messages to the bag, and the queue stays well formed.
pub load-save :
    (c : Config) (io : SaveIo) (files : Files) (path : List ℕ) (q q' : Queue) (now : ℤ)
    → IsConfig c
    → c.capacity < 2 ^ 32
    → IsQueue c q
    → IsQueue c q'
    → AllStorable c (foreach c q)
    → q'.count + q.count ≤ c.capacity
    → let (files', rc) = save c io files (some path) q in
      rc ≡ pos 0
      → 0 < length path
      → let (loaded, answer) = load c all_well files' (some path) now q' in
        (answer ≡ pos q.count)
        × IsQueue c loaded
        × ((f : Weight) → bag f loaded.ring ≡ bag f q'.ring + bag f q.ring)
load-save c io files path q q' now ok_c small v v' s room e h =
    elim (save-Atomic c io files path q) [
      | inl (_, saved) ↦
          rw
            (load-readable c (save c io files (some path) q).0 path (image c q) now q'
              (saved path (path-ne-tmp path) ∙ rw ((str_eq_iff path path).1 refl) refl)
              (image-long c q fits) h)
            (let r = load_bytes-image c ok_c q q' now v v' s small room in
              (
                r.rc_eq ∙ ap pos (omega (arith, length-foreach c q v)),
                r.valid,
                λ f. r.added f ∙ ap (λ k. bag f q'.ring + k) (foreach-bag c q f v),
              ))
      | inr ((n, bad), _) ↦ absurd (ground (arith, e, bad))
    ]
  where
    fits : q.count < 2 ^ 32
    fits = omega (arith, room, small)
