-- ===== src/Queue/Rounds.antt =====
-- One round of the ring from any slot meets every slot exactly once.
use tox_relayer.Prelude.{
  total, ℕ, zero, suc, ◌+◌, ◌-◌, ◌%◌, ◌≤◌, ◌<◌, ◌≡◌, refl, ap, ◌∙◌, List, [], ◌∷◌, arith, length,
}
use native.Mathlib.Nat.{mod-eq_of_lt, mod_self}
use tox_relayer.Queue.{Config, Entry, slot_at, next_index}

-- The sum over `n` slots from `i` on, without and with going round.
pub range_sum : (Entry → ℕ) → List Entry → ℕ → ℕ → ℕ
range_sum f ring zero i = 0
range_sum f ring (suc n) i = f (slot_at ring i) + range_sum f ring n (i + 1)

range_sum-append :
    (f : Entry → ℕ) (ring : List Entry) (m n i : ℕ)
    → range_sum f ring (m + n) i ≡ range_sum f ring m i + range_sum f ring n (i + m)
unfolding range_sum
range_sum-append f ring zero n i = omega (
  arith,
  ap (λ k. range_sum f ring k i) (let e : 0 + n ≡ n = omega arith in e),
  ap (λ k. range_sum f ring n k) (let e : i + 0 ≡ i = omega arith in e),
)
range_sum-append f ring (suc m) n i =
    let e : suc m + n ≡ suc (m + n) = omega arith in
    rw e (
      omega (
        arith,
        range_sum-append f ring m n (i + 1),
        ap (λ k. range_sum f ring n k) (let e : i + 1 + m ≡ i + suc m = omega arith in e),
      ))

range_sum-cons :
    (f : Entry → ℕ) (x : Entry) (xs : List Entry) (n i : ℕ)
    → range_sum f (x ∷ xs) n (i + 1) ≡ range_sum f xs n i
unfolding range_sum
range_sum-cons f x xs zero i = refl
range_sum-cons f x xs (suc n) i =
    let e : i + 1 ≡ suc i = omega arith in
    omega (arith, ap (λ k. f (slot_at (x ∷ xs) k)) e, range_sum-cons f x xs n (i + 1))

range_sum-total :
    (f : Entry → ℕ) (ring : List Entry) → range_sum f ring (length ring) 0 ≡ total f ring
unfolding range_sum total
range_sum-total f [] = refl
range_sum-total f (x ∷ xs) =
    omega (arith, range_sum-cons f x xs (length xs) 0, range_sum-total f xs)

module _ (c : Config) where
  unfoldable pub walk : (Entry → ℕ) → List Entry → ℕ → ℕ → ℕ
  walk f ring zero i = 0
  walk f ring (suc n) i = f (slot_at ring i) + walk f ring n (next_index c i)

  next_index-below : (i : ℕ) → i + 1 < c.capacity → next_index c i ≡ i + 1
  next_index-below i h = mod-eq_of_lt h

  next_index-end : (i : ℕ) → i + 1 ≡ c.capacity → next_index c i ≡ 0
  next_index-end i h = ap (λ k. k % c.capacity) h ∙ mod_self c.capacity

  -- Within the ring the walk is a plain range.
  walk-below :
      (f : Entry → ℕ) (ring : List Entry) (n i : ℕ)
      → i + n ≤ c.capacity
      → walk f ring n i ≡ range_sum f ring n i
  unfolding walk range_sum
  walk-below f ring zero i h = refl
  walk-below f ring (suc zero) i h = refl
  walk-below f ring (suc (suc n)) i h =
      rw (next_index-below i (omega arith))
        (ap (λ k. f (slot_at ring i) + k) (walk-below f ring (suc n) (i + 1) (omega arith)))

  -- From the end of the ring it goes on at slot 0.
  walk-split :
      (f : Entry → ℕ) (ring : List Entry) (m n i : ℕ)
      → i + suc m ≡ c.capacity
      → walk f ring (suc (m + n)) i ≡ range_sum f ring (suc m) i + walk f ring n 0
  unfolding walk range_sum
  walk-split f ring zero n i h =
      let e : zero + n ≡ n = omega arith in rw (e, next_index-end i (omega arith)) (omega arith)
  walk-split f ring (suc m) n i h =
      let e : suc m + n ≡ suc (m + n) = omega arith in
      rw (e, next_index-below i (omega arith))
        (omega (arith, walk-split f ring m n (i + 1) (omega arith)))

  -- A full round sums every slot once, wherever it starts.
  pub walk-total :
      (f : Entry → ℕ) (ring : List Entry) (i : ℕ)
      → length ring ≡ c.capacity
      → i < c.capacity
      → walk f ring c.capacity i ≡ total f ring
  walk-total f ring i e h = omega (
    arith,
    ap (λ n. walk f ring n i) whole,
    walk-split f ring m i i (omega arith),
    walk-below f ring i 0 (omega arith),
    range_sum-append f ring i (suc m) 0,
    ap (λ n. range_sum f ring n 0) (let q : i + suc m ≡ length ring = omega arith in q),
    ap (λ n. range_sum f ring (suc m) n) (let q : 0 + i ≡ i = omega arith in q),
    range_sum-total f ring,
  )
    where
      m : ℕ
      m = c.capacity - i - 1

      whole : c.capacity ≡ suc (m + i)
      whole = omega arith
