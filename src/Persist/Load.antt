-- ===== src/Persist/Load.antt =====
-- `mq_persist_load`: whatever the file holds, the queue stays well formed; a malformed file changes
-- nothing; and the records of a list of messages put these messages into the queue.
use tox_relayer.Prelude.{
  ℕ, zero, suc, ◌+◌, ◌≤◌, ◌<◌, ◌≡◌, refl, ap, ◌∙◌, inl, inr, false, not, ◌||◌, Option, none, some,
  List, [], ◌∷◌, ◌++◌, arith, length, take, drop, length-append, ltb, leb, ◌==◌, if-elim,
}
use tox_relayer.Prelude.Int.{ℤ, pos, ltb_ℤ}
use tox_relayer.Text.{str_eq}
use tox_relayer.Text.Bytes.{take-append}
use tox_relayer.Queue.{Config, Queue, Status, ok, err_range, err_full, err_notfound, enqueue}
use tox_relayer.Queue.Bag.{Weight, bag}
use tox_relayer.Queue.Foreach.{visits}
use tox_relayer.Queue.Invariant.{IsConfig, IsQueue}
use tox_relayer.Queue.Enqueue.{enqueue-IsQueue, enqueue_lem}
use tox_relayer.Persist.{
  Files, LoadIo, le_get_i32, le_get_u32, behind, validate_records, import_records, load_bytes, load,
  read_all, err_format, err_noroom, header_size, magic, version, record_head,
}
use tox_relayer.Persist.Records.{
  Storable, AllStorable, record_of, records, cons-records, friendnum-record, len-record,
  drop-record, behind-record,
}

-- The state after an import of a list of messages that fits.
pub record Imported (c : Config) (q : Queue) (ms : List (ℤ × List ℕ)) (loaded : ℕ) (r : Queue × ℤ)
    : Type 0 where
  pub rc_eq : r.1 ≡ pos (loaded + length ms)
  pub valid : IsQueue c r.0
  pub added : (f : Weight) → bag f r.0.ring ≡ bag f q.ring + visits f ms

module _ (c : Config) (ok_c : IsConfig c) where
  import_records-IsQueue :
      (n : ℕ) (buf : List ℕ) (loaded : ℕ) (now : ℤ) (q : Queue)
      → IsQueue c q
      → IsQueue c (import_records c n buf loaded now q).0
  unfolding import_records
  import_records-IsQueue zero buf loaded now q v = v
  import_records-IsQueue (suc n) buf loaded now q v =
      go (enqueue c q (le_get_i32 buf) (some (drop record_head buf)) (le_get_u32 (drop 4 buf)) now)
        (enqueue-IsQueue c ok_c q (le_get_i32 buf) (some (drop record_head buf))
          (le_get_u32 (drop 4 buf)) now v)
        (λ q' w. import_records-IsQueue n (behind buf) (loaded + 1) now q' w)
    where
      go :
          (r : Queue × Status)
          → IsQueue c r.0
          → ((q' : Queue)
              → IsQueue c q'
              → IsQueue c (import_records c n (behind buf) (loaded + 1) now q').0)
          → IsQueue c
              (elim r.1 as (λ _. Queue × ℤ) [
                | ok ↦ import_records c n (behind buf) (loaded + 1) now r.0
                | err_full ↦ (r.0, err_noroom)
                | err_range ↦ (r.0, err_format)
                | err_notfound ↦ (r.0, err_format)
              ]).0
      go (q', ok) w more = more q' w
      go (q', err_full) w more = w
      go (q', err_range) w more = w
      go (q', err_notfound) w more = w

  -- A load keeps the invariant of the queue for every file, every failure of the system and every
  -- path, well formed or not.
  pub load-IsQueue :
      (io : LoadIo) (files : Files) (path : Option (List ℕ)) (now : ℤ) (q : Queue)
      → IsQueue c q
      → IsQueue c (load c io files path now q).0
  unfolding load load_bytes
  load-IsQueue io files none now q v = v
  load-IsQueue io files (some path) now q v =
      if-elim P (length path == 0) (λ _. v) (λ _. go (read_all io (files path)))
    where
      P : Queue × ℤ → Type 0
      P r = IsQueue c r.0

      go :
          (r : Option (List ℕ) × ℤ)
          → P (elim r.0 as (λ _. Queue × ℤ) [
            | none ↦ (q, r.1)
            | some bytes ↦ load_bytes c bytes now q
          ])
      go (none, rc) = v
      go (some buf, rc) =
          if-elim P (not (str_eq (take 8 buf) magic) || not (le_get_u32 (drop 8 buf) == version))
            (λ _. v)
            (λ _.
              if-elim P
                (ltb c.capacity (le_get_u32 (drop 12 buf))
                  || not (validate_records c (le_get_u32 (drop 12 buf)) (drop header_size buf)))
                (λ _. v)
                (λ _.
                  import_records-IsQueue (le_get_u32 (drop 12 buf)) (drop header_size buf) 0 now q
                    v))

  -- A message that can be stored is stored where there is room.
  module _ (friendnum : ℤ) (payload rest : List ℕ) (now : ℤ) (q : Queue) (v : IsQueue c q)
      (s : Storable c friendnum payload) (room : q.count < c.capacity) where
    abbrev after : Queue × Status
    after = enqueue c q friendnum (some (payload ++ rest)) (length payload) now

    stored-after :
        (after.1 ≡ ok)
        × (after.0.count ≡ q.count + 1)
        × ((f : Weight) → bag f after.0.ring ≡ bag f q.ring + f friendnum payload)
    stored-after =
        elim (enqueue_lem c ok_c q friendnum (payload ++ rest) (length payload) now v acceptable
          (omega (arith, length-append payload rest))) [
            | inl (_, e, n, added) ↦ (
              e,
              n,
              λ f.
                  added f
                  ∙ ap (λ p. bag f q.ring + f friendnum p)
                      (take-append payload rest (length payload) refl),
            )
            | inr (full, _, _, _) ↦ absurd (omega (arith, full, room))
          ]
      where
        acceptable :
            ltb_ℤ friendnum (pos 0) || (length payload == 0 || leb c.payload_max (length payload))
            ≡ false
        acceptable = rw s.friend_eq (ground (arith, s.some_bytes, s.fits))

  -- One round of the import, when the queue takes the message.
  import_step :
      (n : ℕ) (buf payload : List ℕ) (loaded len : ℕ) (friendnum now : ℤ) (q : Queue)
      → le_get_i32 buf ≡ friendnum
      → le_get_u32 (drop 4 buf) ≡ len
      → drop record_head buf ≡ payload
      → (enqueue c q friendnum (some payload) len now).1 ≡ ok
      → import_records c (suc n) buf loaded now q
        ≡ import_records c n
            (behind buf)
            (loaded + 1)
            now
            (enqueue c q friendnum (some payload) len now).0
  unfolding import_records
  import_step n buf payload loaded len friendnum now q ef el ep es =
      rw (ef, el, ep, es, import_records) (rw (ef, el, ep) refl)

  pub import_records-records :
      (ms : List (ℤ × List ℕ)) (rest : List ℕ) (loaded : ℕ) (now : ℤ) (q : Queue)
      → IsQueue c q
      → AllStorable c ms
      → q.count + length ms ≤ c.capacity
      → Imported c q ms loaded (import_records c (length ms) (records ms ++ rest) loaded now q)
  unfolding visits import_records
  import_records-records [] rest loaded now q v s room = record {
    rc_eq = ap pos (omega arith);
    valid = v;
    added = λ f. omega arith;
  }
  import_records-records ((friendnum, payload) ∷ ms) rest loaded now q v (s, ss) room =
      rw
        (
          cons-records friendnum payload ms rest,
          import_step (length ms) (record_of friendnum payload ++ tail) (payload ++ tail) loaded
              (length payload) friendnum now q (friendnum-record c friendnum payload tail s)
              (len-record c friendnum payload tail s) (drop-record c friendnum payload tail s) e,
          behind-record c friendnum payload tail s,
        )
        (let ih =
            import_records-records ms rest (loaded + 1) now
              (after friendnum payload tail now q v s (omega arith)).0
              (enqueue-IsQueue c ok_c q friendnum (some (payload ++ tail)) (length payload) now v)
              ss (omega (arith, counted)) in
          record {
            rc_eq = ih.rc_eq ∙ ap pos (omega arith);
            valid = ih.valid;
            added = λ f. omega (arith, ih.added f, grown f);
          })
    where
      tail : List ℕ
      tail = records ms ++ rest

      e : (after friendnum payload tail now q v s (omega arith)).1 ≡ ok
      e = (stored-after friendnum payload tail now q v s (omega arith)).0

      counted : (after friendnum payload tail now q v s (omega arith)).0.count ≡ q.count + 1
      counted = (stored-after friendnum payload tail now q v s (omega arith)).1

      grown :
          (f : Weight)
          → bag f (after friendnum payload tail now q v s (omega arith)).0.ring
            ≡ bag f q.ring + f friendnum payload
      grown f = (stored-after friendnum payload tail now q v s (omega arith)).2 f
