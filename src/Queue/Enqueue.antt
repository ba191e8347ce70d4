-- ===== src/Queue/Enqueue.antt =====
-- `mq_enqueue`: it keeps the invariant, and what it does to the bag of messages.
use tox_relayer.Prelude.{
  total-le-length, total-set, ℕ, zero, suc, ◌+◌, ◌≤◌, ◌<◌, ◌≡◌, refl, ap, true, false, ◌||◌, ◌⊎◌,
  inl, inr, Option, none, some, List, arith, if-elim, leb, ◌==◌, length, length-set, take, set,
  Bool-cases,
}
use tox_relayer.Prelude.Int.{ℤ, pos, ltb_ℤ}
use tox_relayer.Queue.{
  Config, pending, Entry, Queue, Status, ok, err_full, slot_at, is_free, as_one, next_index,
  find_free, enqueue, insert_at, filled, blank,
}
use tox_relayer.Queue.Rounds.{walk, walk-total}
use tox_relayer.Queue.Bag.{weight, Added, bytes-filled}
use tox_relayer.Queue.Invariant.{
  IsConfig, IsQueue, stored, set-IsRing, next_index-lt, notify_change-IsQueue, ring-notify_change,
  count-notify_change,
}

module _ (c : Config) (ok_c : IsConfig c) where
  -- What the search of a free slot finds: a free slot, where it leaves the tail, or no free slot in
  -- the whole round.
  record Found (n : ℕ) (ring : List Entry) (tail : ℕ) (out : Option ℕ × ℕ) : Type 0 where
    tail_lt : out.1 < c.capacity
    result :
        ((out.0 ≡ some (out.1)) × (is_free (slot_at ring out.1).state ≡ true))
        ⊎ ((out.0 ≡ none) × (walk c (λ e. as_one (stored e)) ring n tail ≡ n))

  find_free-Found :
      (n : ℕ) (ring : List Entry) (tail : ℕ)
      → tail < c.capacity
      → Found n ring tail (find_free c n ring tail)
  unfolding find_free walk
  find_free-Found zero ring tail h = record { tail_lt = h; result = inr (refl, refl) }
  find_free-Found (suc n) ring tail h =
      let occupied_one = λ (e : is_free (slot_at ring tail).state ≡ false).
        let one : as_one (stored (slot_at ring tail)) ≡ 1 = rw e refl in one in
      let ih = find_free-Found n ring (next_index c tail) (next_index-lt c ok_c tail) in
      elim (Bool-cases (is_free (slot_at ring tail).state)) [
        | inl e ↦ rw (e, find_free) (record { tail_lt = h; result = inl (refl, e) })
        | inr e ↦
            rw (e, find_free)
              (record {
                tail_lt = ih.tail_lt;
                result = elim ih.result [
                  | inl r ↦ inl r
                  | inr (r, w) ↦ inr (r, omega (arith, w, occupied_one e))
                ];
              })
      ]

  -- A queue with its ring, count and flight unchanged.
  insert_at-IsQueue :
      (q : Queue) (slot : ℕ) (friendnum : ℤ) (payload : List ℕ) (len : ℕ) (now : ℤ)
      → IsQueue c q
      → slot < c.capacity
      → is_free (slot_at q.ring slot).state ≡ true
      → ltb_ℤ friendnum (pos 0) || (len == 0 || leb c.payload_max len) ≡ false
      → IsQueue c (insert_at c q slot friendnum payload len now)
  unfolding insert_at filled
  insert_at-IsQueue q slot friendnum payload len now v h e g =
      notify_change-IsQueue c ok_c _ (record {
        is_ring =
            set-IsRing c q.ring q.count q.in_flight (q.count + 1) q.in_flight slot _ v.is_ring h
              (rw e (omega arith)) (ground arith) (ground (arith, ok_c.some_attempt));
        head_in = if-elim (λ i. i < c.capacity) (q.count + 1 == 1) (λ _. h) (λ _. v.head_in);
        tail_in = next_index-lt c ok_c slot;
      })

  with_tail-IsQueue :
      (q : Queue) (tail : ℕ)
      → IsQueue c q
      → tail < c.capacity
      → IsQueue c (record q { tail = tail })
  with_tail-IsQueue q tail v h = record { is_ring = v.is_ring; head_in = v.head_in; tail_in = h }

  -- `mq_enqueue` keeps the invariant on every branch, for every argument.
  pub enqueue-IsQueue :
      (q : Queue) (friendnum : ℤ) (payload : Option (List ℕ)) (len : ℕ) (now : ℤ)
      → IsQueue c q
      → IsQueue c (enqueue c q friendnum payload len now).0
  unfolding enqueue
  enqueue-IsQueue q friendnum none len now v = v
  enqueue-IsQueue q friendnum (some payload) len now v =
      if-elim (λ (r : Queue × Status). IsQueue c r.0)
        (ltb_ℤ friendnum (pos 0) || (len == 0 || leb c.payload_max len)) (λ _. v)
        (λ g.
          let s = find_free-Found c.capacity q.ring q.tail v.tail_in in
          elim s.result [
            | inl (o, e) ↦ rw o (
                insert_at-IsQueue (record q { tail = (find_free c c.capacity q.ring q.tail).1 }) _
                  friendnum payload len now (with_tail-IsQueue q _ v s.tail_lt) s.tail_lt e g)
            | inr (o, w) ↦
                rw o (record { is_ring = v.is_ring; head_in = v.head_in; tail_in = s.tail_lt })
          ])

  insert_at-Added :
      (q : Queue) (slot : ℕ) (friendnum : ℤ) (payload : List ℕ) (len : ℕ) (now : ℤ)
      → IsQueue c q
      → slot < c.capacity
      → is_free (slot_at q.ring slot).state ≡ true
      → len ≤ length payload
      → Added q (insert_at c q slot friendnum payload len now) friendnum (take len payload)
  unfolding insert_at filled
  insert_at-Added q slot friendnum payload len now v h e g f = rw (ring-notify_change c ok_c _) (
      omega (
        arith,
        total-set blank (weight f) q.ring slot
            (filled c (slot_at q.ring slot) friendnum payload len now)
            (omega (arith, v.is_ring.slots)),
        empty,
        written,
      ))
    where
      empty : weight f (slot_at q.ring slot) ≡ 0
      empty = rw e refl

      written :
          weight f (filled c (slot_at q.ring slot) friendnum payload len now)
          ≡ f friendnum (take len payload)
      written = ap (f friendnum) (bytes-filled c (slot_at q.ring slot) friendnum payload len now g)

  count-insert_at :
      (q : Queue) (slot : ℕ) (friendnum : ℤ) (payload : List ℕ) (len : ℕ) (now : ℤ)
      → (insert_at c q slot friendnum payload len now).count ≡ q.count + 1
  unfolding insert_at
  count-insert_at q slot friendnum payload len now = count-notify_change c ok_c _

  free-room :
      (q : Queue) (slot : ℕ)
      → IsQueue c q
      → slot < c.capacity
      → is_free (slot_at q.ring slot).state ≡ true
      → q.count < c.capacity
  free-room q slot v h e = omega (
    arith,
    total-set blank one q.ring slot used (omega (arith, v.is_ring.slots)),
    total-le-length one (set q.ring slot used) (λ e. ground arith),
    length-set q.ring slot used,
    v.is_ring.slots,
    v.is_ring.counted,
    empty,
  )
    where
      one : Entry → ℕ
      one e = as_one (stored e)

      empty : one (slot_at q.ring slot) ≡ 0
      empty = rw e refl

      used : Entry
      used = record (slot_at q.ring slot) { state = pending }

  -- An acceptable message is stored exactly when the queue is not full: the bag gains this message
  -- and nothing else, and the count goes up by one. On a full queue nothing stored changes, and the
  -- refusal is reported.
  pub enqueue_lem :
      (q : Queue) (friendnum : ℤ) (payload : List ℕ) (len : ℕ) (now : ℤ)
      → IsQueue c q
      → ltb_ℤ friendnum (pos 0) || (len == 0 || leb c.payload_max len) ≡ false
      → len ≤ length payload
      → let (q', status) = enqueue c q friendnum (some payload) len now in
        ((q.count < c.capacity)
          × (status ≡ ok)
          × (q'.count ≡ q.count + 1)
          × Added q q' friendnum (take len payload))
        ⊎ ((q.count ≡ c.capacity) × (status ≡ err_full) × (q'.count ≡ q.count) × (q'.ring ≡ q.ring))
  unfolding enqueue
  enqueue_lem q friendnum payload len now v g h =
      let s = find_free-Found c.capacity q.ring q.tail v.tail_in in
      let tail = (find_free c c.capacity q.ring q.tail).1 in
      elim s.result [
        | inl (o, e) ↦
            rw (g, o)
              (inl (
                free-room q tail v s.tail_lt e,
                refl,
                count-insert_at (record q { tail = tail }) tail friendnum payload len now,
                insert_at-Added (record q { tail = tail }) tail friendnum payload len now
                    (with_tail-IsQueue q tail v s.tail_lt) s.tail_lt e h,
              ))
        | inr (o, w) ↦
            rw (g, o)
              (inr (
                omega (
                  arith,
                  w,
                  walk-total c (λ e. as_one (stored e)) q.ring q.tail v.is_ring.slots v.tail_in,
                  v.is_ring.counted,
                ),
                refl,
                refl,
                refl,
              ))
      ]
