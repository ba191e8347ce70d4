-- ===== src/Persist/Records.antt =====
-- The records of a saved queue: little-endian numbers read back, and a record parsed after it was
-- written.
use tox_relayer.Prelude.{
  ℕ, ◌+◌, ◌%◌, ◌^◌, ◌<◌, ◌≡◌, refl, ap, sym, ◌∙◌, true, List, [], ◌∷◌, ◌++◌, arith, length, drop,
  length-append,
}
use mathlib.Core.List.{append_assoc}
use tox_relayer.Prelude.Int.{ℤ, pos}
use tox_relayer.Text.{to_int}
use tox_relayer.Text.Bytes.{drop-append}
use tox_relayer.Queue.{Config}
use tox_relayer.Persist.{
  le_put_u32, le_get_u32, le_put_i32, le_get_i32, to_u32, head_of, record_ok, behind,
  validate_records, record_head,
}

-- A 32-bit number that was written is read back, whatever follows it.
pub le_get_u32-le_put_u32 :
    (v : ℕ) (rest : List ℕ) → v < 2 ^ 32 → le_get_u32 (le_put_u32 v ++ rest) ≡ v
unfolding le_get_u32 le_put_u32
le_get_u32-le_put_u32 v rest h = omega arith

pub le_get_i32-le_put_i32 :
    (n : ℕ) (rest : List ℕ) → n < 2 ^ 31 → le_get_i32 (le_put_i32 (pos n) ++ rest) ≡ pos n
unfolding le_get_i32 le_put_i32 to_int to_u32
le_get_i32-le_put_i32 n rest h =
    ground (arith, le_get_u32-le_put_u32 (n % 2 ^ 32) rest (omega arith))

pub length-le_put_u32 : (v : ℕ) → length (le_put_u32 v) ≡ 4
unfolding le_put_u32
length-le_put_u32 v = refl

pub length-head_of : (friendnum : ℤ) (payload : List ℕ) → length (head_of friendnum payload) ≡ 8
unfolding head_of le_put_i32 le_put_u32
length-head_of friendnum payload = refl

-- A message that a queue can hold, with a friend number of the C type.
pub record Storable (c : Config) (friendnum : ℤ) (payload : List ℕ) : Type 0 where
  pub friend : ℕ
  pub friend_eq : friendnum ≡ pos friend
  pub small : friend < 2 ^ 31
  pub some_bytes : 0 < length payload
  pub fits : length payload < c.payload_max
  pub short : length payload < 2 ^ 32

-- A record, and the records of a list of messages.
unfoldable pub record_of : ℤ → List ℕ → List ℕ
record_of friendnum payload = head_of friendnum payload ++ payload

unfoldable pub records : List (ℤ × List ℕ) → List ℕ
records [] = []
records ((friendnum, payload) ∷ ms) = record_of friendnum payload ++ records ms

module _ (c : Config) (friendnum : ℤ) (payload rest : List ℕ)
    (s : Storable c friendnum payload) where
  abbrev buf : List ℕ
  buf = record_of friendnum payload ++ rest

  pub friendnum-record : le_get_i32 buf ≡ friendnum
  unfolding record_of head_of
  friendnum-record = rw s.friend_eq (
      ap le_get_i32 (
        append_assoc (le_put_i32 (pos s.friend) ++ le_put_u32 (length payload % 2 ^ 32)) payload
          rest
        ∙ append_assoc (le_put_i32 (pos s.friend)) (le_put_u32 (length payload % 2 ^ 32))
            (payload ++ rest))
      ∙ le_get_i32-le_put_i32 s.friend _ s.small)

  pub drop4-record : drop 4 buf ≡ le_put_u32 (length payload % 2 ^ 32) ++ (payload ++ rest)
  unfolding record_of head_of le_put_i32
  drop4-record =
      ap (drop 4) (
        append_assoc (le_put_i32 friendnum ++ le_put_u32 (length payload % 2 ^ 32)) payload rest
        ∙ append_assoc (le_put_i32 friendnum) (le_put_u32 (length payload % 2 ^ 32))
            (payload ++ rest))
      ∙ drop-append (le_put_i32 friendnum) _ 4 (sym (length-le_put_u32 (to_u32 friendnum)))

  pub len-record : le_get_u32 (drop 4 buf) ≡ length payload
  len-record =
      ap le_get_u32 drop4-record
      ∙ le_get_u32-le_put_u32 (length payload % 2 ^ 32) _ (omega arith)
      ∙ omega (arith, s.short)

  pub drop-record : drop record_head buf ≡ payload ++ rest
  unfolding record_of
  drop-record =
      ap (drop 8) (append_assoc (head_of friendnum payload) payload rest)
      ∙ drop-append (head_of friendnum payload) _ 8 (sym (length-head_of friendnum payload))

  pub behind-record : behind buf ≡ rest
  unfolding behind
  behind-record = rw (len-record, drop-record) (drop-append payload rest (length payload) refl)

  pub record_ok-record : record_ok c buf ≡ true
  unfolding record_ok record_of head_of le_put_i32 le_put_u32
  record_ok-record =
      rw (friendnum-record, len-record, drop-record, s.friend_eq)
        (ground (arith, whole, length-append payload rest, s.some_bytes, s.fits))
    where
      whole : length buf ≡ 8 + length (payload ++ rest)
      whole =
          ap length (append_assoc (head_of friendnum payload) payload rest)
          ∙ length-append (head_of friendnum payload) (payload ++ rest)

abbrev pub AllStorable : Config → List (ℤ × List ℕ) → Type 0
AllStorable c [] = Unit {0}
AllStorable c ((friendnum, payload) ∷ ms) = Storable c friendnum payload × AllStorable c ms

pub cons-records :
    (friendnum : ℤ) (payload : List ℕ) (ms : List (ℤ × List ℕ)) (rest : List ℕ)
    → records ((friendnum, payload) ∷ ms) ++ rest
      ≡ record_of friendnum payload ++ (records ms ++ rest)
unfolding records
cons-records friendnum payload ms rest =
    append_assoc (record_of friendnum payload) (records ms) rest

-- The records that a save writes are well formed for a load.
pub validate_records-records :
    (c : Config) (ms : List (ℤ × List ℕ)) (rest : List ℕ)
    → AllStorable c ms
    → validate_records c (length ms) (records ms ++ rest) ≡ true
unfolding validate_records
validate_records-records c [] rest s = refl
validate_records-records c ((friendnum, payload) ∷ ms) rest (s, ss) =
    rw
      (
        cons-records friendnum payload ms rest,
        record_ok-record c friendnum payload (records ms ++ rest) s,
        behind-record c friendnum payload (records ms ++ rest) s,
      )
      (validate_records-records c ms rest ss)
