-- ===== src/Queue/Confirm.antt =====
-- `mq_confirm` and the release of a slot: they keep the invariant, and take one message out.
use tox_relayer.Prelude.{
  get_or-le-total, total, total-set, ℕ, zero, suc, ◌+◌, ◌<◌, ◌≡◌, refl, Bool, true, false, ◌&&◌,
  ◌||◌, ◌⊎◌, inl, inr, none, some, List, [], ◌∷◌, arith, if-elim, length, Bool-cases, Option-cases,
}
use tox_relayer.Prelude.Int.{ℤ, pos, ltb_ℤ, eqb_ℤ}
use tox_relayer.Queue.{
  Config, Entry, Queue, Status, ok, err_notfound, slot_at, is_awaiting, as_one, released,
  release_slot, confirm, confirm_at, find_awaiting, blank,
}
use tox_relayer.Queue.Bag.{Weight, weight, bytes, bag}
use tox_relayer.Queue.Invariant.{
  IsConfig, IsQueue, stored, set-IsRing, advance_head-IsQueue, notify_change-IsQueue,
  ring-notify_change, count-notify_change, ring-advance_head, count-advance_head,
}

-- The entry is in flight to that friend under that receipt.
abbrev pub matches : ℤ → ℤ → Entry → Bool
matches friendnum receipt e =
    is_awaiting e.state && (eqb_ℤ e.friendnum friendnum && eqb_ℤ e.receipt receipt)

find_awaiting-found :
    (friendnum receipt : ℤ) (ring : List Entry) (i : ℕ)
    → find_awaiting friendnum receipt ring ≡ some i
    → (i < length ring) × (matches friendnum receipt (slot_at ring i) ≡ true)
unfolding find_awaiting
find_awaiting-found friendnum receipt [] i h = ground arith
find_awaiting-found friendnum receipt (e ∷ es) zero h =
    elim (Bool-cases (matches friendnum receipt e)) [
      | inl y ↦ (omega arith, y)
      | inr n ↦ ground (arith, Option-cases (find_awaiting friendnum receipt es))
    ]
find_awaiting-found friendnum receipt (e ∷ es) (suc i) h =
    elim (Bool-cases (matches friendnum receipt e)) [
      | inl y ↦ ground arith
      | inr n ↦
          let ih =
            find_awaiting-found friendnum receipt es i
              (ground (arith, Option-cases (find_awaiting friendnum receipt es))) in
          (omega (arith, ih.0), ih.1)
    ]

find_awaiting-none :
    (friendnum receipt : ℤ) (ring : List Entry)
    → find_awaiting friendnum receipt ring ≡ none
    → total (λ e. as_one (matches friendnum receipt e)) ring ≡ 0
unfolding find_awaiting total
find_awaiting-none friendnum receipt [] h = refl
find_awaiting-none friendnum receipt (e ∷ es) h = elim (Bool-cases (matches friendnum receipt e)) [
  | inl y ↦ ground arith
  | inr n ↦ rw n (
      omega (
        arith,
        find_awaiting-none friendnum receipt es
            (ground (arith, Option-cases (find_awaiting friendnum receipt es))),
      ))
]

module _ (c : Config) (ok_c : IsConfig c) where
  -- Giving a slot free that holds a message.
  pub release_slot-IsQueue :
      (q : Queue) (i : ℕ)
      → IsQueue c q
      → i < c.capacity
      → stored (slot_at q.ring i) ≡ true
      → IsQueue c (release_slot q i (slot_at q.ring i))
  unfolding release_slot released
  release_slot-IsQueue q i v h e = record {
    is_ring =
        set-IsRing c q.ring q.count q.in_flight _ _ i _ v.is_ring h
          (ground (
            arith,
            get_or-le-total blank (λ e. as_one (stored e)) q.ring i
                (omega (arith, v.is_ring.slots)),
            v.is_ring.counted,
          ))
          (ground (
            arith,
            get_or-le-total blank (λ e. as_one (is_awaiting e.state)) q.ring i
                (omega (arith, v.is_ring.slots)),
            v.is_ring.flying,
          ))
          refl;
    head_in = v.head_in;
    tail_in = v.tail_in;
  }

  pub bag-release_slot :
      (f : Weight) (q : Queue) (i : ℕ)
      → IsQueue c q
      → i < c.capacity
      → stored (slot_at q.ring i) ≡ true
      → let e = slot_at q.ring i in
        bag f (release_slot q i e).ring + f e.friendnum (bytes e) ≡ bag f q.ring
  unfolding release_slot released
  bag-release_slot f q i v h e = omega (
    arith,
    total-set blank (weight f) q.ring i (released (slot_at q.ring i))
        (omega (arith, v.is_ring.slots)),
    held,
  )
    where
      held : weight f (slot_at q.ring i) ≡ f (slot_at q.ring i).friendnum (bytes (slot_at q.ring i))
      held = rw e refl

  matches-stored :
      (friendnum receipt : ℤ) (e : Entry) → matches friendnum receipt e ≡ true → stored e ≡ true
  matches-stored friendnum receipt e h = ground arith

  confirm_at-IsQueue :
      (q : Queue) (i : ℕ)
      → IsQueue c q
      → i < c.capacity
      → stored (slot_at q.ring i) ≡ true
      → IsQueue c (confirm_at c q i)
  unfolding confirm_at
  confirm_at-IsQueue q i v h e =
      let r = release_slot-IsQueue q i v h e in
      notify_change-IsQueue c ok_c _ (
        advance_head-IsQueue c ok_c _
          (record { is_ring = r.is_ring; head_in = r.head_in; tail_in = r.tail_in }))

  count_down :
      (q : Queue) (i : ℕ)
      → IsQueue c q
      → i < c.capacity
      → stored (slot_at q.ring i) ≡ true
      → (confirm_at c q i).count + 1 ≡ q.count
  unfolding confirm_at release_slot
  count_down q i v h e =
      rw (count-notify_change c ok_c _, count-advance_head c ok_c _)
        (ground (
          arith,
          get_or-le-total blank (λ e. as_one (stored e)) q.ring i (omega (arith, v.is_ring.slots)),
          v.is_ring.counted,
        ))

  bag_down :
      (q : Queue) (i : ℕ)
      → IsQueue c q
      → i < c.capacity
      → stored (slot_at q.ring i) ≡ true
      → (f : Weight)
      → bag f (confirm_at c q i).ring + f (slot_at q.ring i).friendnum (bytes (slot_at q.ring i))
        ≡ bag f q.ring
  unfolding confirm_at
  bag_down q i v h e f =
      rw (ring-notify_change c ok_c _, ring-advance_head c ok_c _) (bag-release_slot f q i v h e)

  -- `mq_confirm` keeps the invariant on every branch.
  pub confirm-IsQueue :
      (q : Queue) (friendnum receipt : ℤ)
      → IsQueue c q
      → IsQueue c (confirm c q friendnum receipt).0
  unfolding confirm
  confirm-IsQueue q friendnum receipt v =
      if-elim (λ (r : Queue × Status). IsQueue c r.0)
        (ltb_ℤ friendnum (pos 0) || ltb_ℤ receipt (pos 0)) (λ _. v)
        (λ _. elim (Option-cases (find_awaiting friendnum receipt q.ring)) [
          | inl e ↦ rw e v
          | inr (i, e) ↦ rw e (
              let m = find_awaiting-found friendnum receipt q.ring i e in
              confirm_at-IsQueue q i v (omega (arith, v.is_ring.slots))
                (matches-stored friendnum receipt (slot_at q.ring i) m.1))
        ])

  -- A confirmation with a friend number and a receipt that are not negative takes out of the bag
  -- exactly one message, one that was in flight to that friend under that receipt, and the count
  -- goes down by one; it is refused, and nothing changes, exactly when no slot holds such a message.
  pub confirm_lem :
      (q : Queue) (friendnum receipt : ℤ)
      → IsQueue c q
      → ltb_ℤ friendnum (pos 0) || ltb_ℤ receipt (pos 0) ≡ false
      → let (q', status) = confirm c q friendnum receipt in
        ((status ≡ ok)
          × ((i : ℕ) × (matches friendnum receipt (slot_at q.ring i) ≡ true)
              × (q'.count + 1 ≡ q.count)
              × ((f : Weight)
                  → bag f q'.ring + f (slot_at q.ring i).friendnum (bytes (slot_at q.ring i))
                    ≡ bag f q.ring)))
        ⊎ ((status ≡ err_notfound)
            × (q' ≡ q)
            × (total (λ e. as_one (matches friendnum receipt e)) q.ring ≡ 0))
  unfolding confirm
  confirm_lem q friendnum receipt v g =
      elim (Option-cases (find_awaiting friendnum receipt q.ring)) [
        | inl e ↦ rw (g, e) (inr (refl, refl, find_awaiting-none friendnum receipt q.ring e))
        | inr (i, e) ↦
            rw (g, e)
              (let m = find_awaiting-found friendnum receipt q.ring i e in
                let h : i < c.capacity = omega (arith, v.is_ring.slots, m.0) in
                let s = matches-stored friendnum receipt (slot_at q.ring i) m.1 in
                inl (refl, (i, m.1, count_down q i v h s, bag_down q i v h s)))
      ]
