-- ===== src/Prelude/Sums.antt =====
-- Sums of a measure over a list, and what writing one element does to them.
use Prim.Native.Nat.{ℕ, zero, suc, ◌+◌, ◌≤◌, ◌<◌}
use mathlib.Core.Path.{◌≡◌, refl, ap}
use mathlib.Core.List.{List, [], ◌∷◌, ◌++◌}
use native.Mathlib.Omega.{arith}
use tox_relayer.Prelude.Lists.{length, set, get_or, replicate}

module _ {ℓ} {A : Type ℓ} where
  unfoldable pub total : (A → ℕ) → List A → ℕ
  total f [] = 0
  total f (x ∷ xs) = f x + total f xs

  pub total-append : (f : A → ℕ) (xs ys : List A) → total f (xs ++ ys) ≡ total f xs + total f ys
  unfolding total
  total-append f [] ys = omega arith
  total-append f (x ∷ xs) ys = omega (arith, total-append f xs ys)

  pub total-set :
      (d : A) (f : A → ℕ) (xs : List A) (i : ℕ) (e : A)
      → i < length xs
      → total f (set xs i e) + f (get_or xs i d) ≡ total f xs + f e
  unfolding total
  total-set d f [] i e h = absurd (omega arith)
  total-set d f (x ∷ xs) zero e h = omega arith
  total-set d f (x ∷ xs) (suc i) e h = omega (arith, total-set d f xs i e (omega arith))

  pub get_or-le-total :
      (d : A) (f : A → ℕ) (xs : List A) (i : ℕ) → i < length xs → f (get_or xs i d) ≤ total f xs
  unfolding total
  get_or-le-total d f [] i h = absurd (omega arith)
  get_or-le-total d f (x ∷ xs) zero h = omega arith
  get_or-le-total d f (x ∷ xs) (suc i) h = omega (arith, get_or-le-total d f xs i (omega arith))

  pub set-set : (xs : List A) (i : ℕ) (b e : A) → set (set xs i b) i e ≡ set xs i e
  set-set [] i b e = refl
  set-set (x ∷ xs) zero b e = refl
  set-set (x ∷ xs) (suc i) b e = ap (◌∷◌ x) (set-set xs i b e)

  pub get_or-set_self :
      (d : A) (xs : List A) (i : ℕ) (e : A) → i < length xs → get_or (set xs i e) i d ≡ e
  get_or-set_self d [] i e h = absurd (omega arith)
  get_or-set_self d (x ∷ xs) zero e h = refl
  get_or-set_self d (x ∷ xs) (suc i) e h = get_or-set_self d xs i e (omega arith)

  -- A sum of measures of at most 1 is at most the number of slots.
  pub total-le-length : (f : A → ℕ) (xs : List A) → ((e : A) → f e ≤ 1) → total f xs ≤ length xs
  unfolding total
  total-le-length f [] h = omega arith
  total-le-length f (x ∷ xs) h = omega (arith, h x, total-le-length f xs h)

  pub total-replicate : (f : A → ℕ) (n : ℕ) (e : A) → f e ≡ 0 → total f (replicate n e) ≡ 0
  unfolding total
  total-replicate f zero e h = refl
  total-replicate f (suc n) e h = omega (arith, total-replicate f n e h)
