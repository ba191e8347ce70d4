-- ===== src/Queue/Foreach.antt =====
-- `mq_foreach` visits every stored message exactly once.
use tox_relayer.Prelude.{
  ℕ, zero, suc, ◌+◌, ◌-◌, ◌≤◌, ◌≡◌, refl, sym, ◌∙◌, false, List, [], ◌∷◌, arith, ◌==◌, Bool-cases,
  inl, inr,
}
use tox_relayer.Prelude.Int.{ℤ}
use tox_relayer.Queue.{
  Config, Entry, Queue, slot_at, is_free, as_one, next_index, foreach_loop, foreach,
}
use tox_relayer.Queue.Rounds.{walk, walk-total}
use tox_relayer.Queue.Bag.{Weight, weight, bag}
use tox_relayer.Queue.Invariant.{IsQueue, stored}

-- The weight of what a visitor was handed.
unfoldable pub visits : Weight → List (ℤ × List ℕ) → ℕ
visits f [] = 0
visits f ((friendnum, payload) ∷ ms) = f friendnum payload + visits f ms

module _ (c : Config) where
  -- Slots that hold nothing weigh nothing.
  walk-none :
      (f : Weight) (n i : ℕ) (ring : List Entry)
      → walk c (λ e. as_one (stored e)) ring n i ≡ 0
      → walk c (weight f) ring n i ≡ 0
  unfolding walk
  walk-none f zero i ring h = refl
  walk-none f (suc n) i ring h = elim (Bool-cases (is_free (slot_at ring i).state)) [
    | inl e ↦ rw e (omega (arith, walk-none f n (next_index c i) ring (omega arith)))
    | inr e ↦ absurd (omega (arith, one_of e))
  ]
    where
      one_of : is_free (slot_at ring i).state ≡ false → as_one (stored (slot_at ring i)) ≡ 1
      one_of e = rw e refl

  foreach_loop-walk :
      (f : Weight) (n i left : ℕ) (ring : List Entry)
      → walk c (λ e. as_one (stored e)) ring n i ≤ left
      → visits f (foreach_loop c n i left ring) ≡ walk c (weight f) ring n i
  unfolding foreach_loop walk visits
  foreach_loop-walk f zero i left ring h = refl
  foreach_loop-walk f (suc n) i zero ring h = sym (walk-none f (suc n) i ring (omega (arith, h)))
  foreach_loop-walk f (suc n) i (suc left) ring h =
      rw more (elim (Bool-cases (is_free (slot_at ring i).state)) [
        | inl e ↦ rw e (
            omega
              (arith, foreach_loop-walk f n (next_index c i) (suc left) ring (omega (arith, h))))
        | inr e ↦
            rw (e, less)
              (omega (
                arith,
                foreach_loop-walk f n (next_index c i) left ring (omega (arith, h, one_of e)),
              ))
      ])
    where
      one_of : is_free (slot_at ring i).state ≡ false → as_one (stored (slot_at ring i)) ≡ 1
      one_of e = rw e refl

      more : (suc left == 0) ≡ false
      more = ground arith

      less : suc left - 1 ≡ left
      less = omega arith

  -- The visitor is handed exactly the messages of the bag, each as often as it is stored.
  pub foreach-bag : (q : Queue) (f : Weight) → IsQueue c q → visits f (foreach c q) ≡ bag f q.ring
  unfolding foreach
  foreach-bag q f v =
      foreach_loop-walk f c.capacity q.head q.count q.ring (
        omega (
          arith,
          walk-total c (λ e. as_one (stored e)) q.ring q.head v.is_ring.slots v.head_in,
          v.is_ring.counted,
        ))
      ∙ walk-total c (weight f) q.ring q.head v.is_ring.slots v.head_in
