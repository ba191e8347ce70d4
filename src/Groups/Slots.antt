-- ===== src/Groups/Slots.antt =====
-- Arrays that grow and shrink: what `realloc_groupchats` and a write do to the groups in the table.
use tox_relayer.Prelude.{
  ℕ, zero, suc, ◌+◌, ◌-◌, ◌≤◌, ◌<◌, ◌≡◌, ◌≢◌, refl, ap, sym, ◌∙◌, List, [], ◌∷◌, ◌++◌, arith,
  length, take, drop, set, replicate, total, total-append, total-replicate, take-append-drop,
  length-append, length-take, length-replicate,
}
use tox_relayer.Groups.{Group, cleared, group_at, realloc_groupchats}

module _ (f : Group → ℕ) (blank : f cleared ≡ 0) where
  pub total-drop :
      (slots : List Group) (i : ℕ)
      → total f (drop i slots) ≡ f (group_at slots i) + total f (drop (suc i) slots)
  unfolding total
  total-drop [] zero = omega (arith, blank)
  total-drop [] (suc i) = omega (arith, blank)
  total-drop (s ∷ ss) zero = refl
  total-drop (s ∷ ss) (suc i) = total-drop ss i

  pub total-take-drop :
      (slots : List Group) (n : ℕ) → total f (take n slots) + total f (drop n slots) ≡ total f slots
  total-take-drop slots n =
      sym (total-append f (take n slots) (drop n slots)) ∙ ap (total f) (take-append-drop n slots)

  pub total-realloc_groupchats :
      (slots : List Group) (n : ℕ)
      → total f (realloc_groupchats slots n) + total f (drop n slots) ≡ total f slots
  unfolding realloc_groupchats
  total-realloc_groupchats slots n = omega (
    arith,
    total-append f (take n slots) (replicate (n - length slots) cleared),
    total-replicate f (n - length slots) cleared blank,
    total-take-drop slots n,
  )

pub length-realloc_groupchats :
    (slots : List Group) (n : ℕ) → length (realloc_groupchats slots n) ≡ n
unfolding realloc_groupchats
length-realloc_groupchats slots n = omega (
  arith,
  length-append (take n slots) (replicate (n - length slots) cleared),
  length-take n slots,
  length-replicate (n - length slots) cleared,
)

group_at-replicate : (n i : ℕ) → group_at (replicate n cleared) i ≡ cleared
group_at-replicate zero i = refl
group_at-replicate (suc n) zero = refl
group_at-replicate (suc n) (suc i) = group_at-replicate n i

group_at-padded :
    (slots : List Group) (n k i : ℕ)
    → i < n
    → group_at (take n slots ++ replicate k cleared) i ≡ group_at slots i
group_at-padded slots zero k i h = absurd (omega (arith, h))
group_at-padded [] (suc n) k i h = group_at-replicate k i
group_at-padded (s ∷ ss) (suc n) k zero h = refl
group_at-padded (s ∷ ss) (suc n) k (suc i) h = group_at-padded ss n k i (omega (arith, h))

pub group_at-realloc_groupchats :
    (slots : List Group) (n i : ℕ)
    → i < n
    → group_at (realloc_groupchats slots n) i ≡ group_at slots i
unfolding realloc_groupchats
group_at-realloc_groupchats slots n i h = group_at-padded slots n (n - length slots) i h

pub group_at-set_ne :
    (slots : List Group) (i j : ℕ) (s : Group)
    → i ≢ j
    → group_at (set slots i s) j ≡ group_at slots j
group_at-set_ne [] i j s h = refl
group_at-set_ne (x ∷ xs) zero zero s h = absurd (h refl)
group_at-set_ne (x ∷ xs) zero (suc j) s h = refl
group_at-set_ne (x ∷ xs) (suc i) zero s h = refl
group_at-set_ne (x ∷ xs) (suc i) (suc j) s h = group_at-set_ne xs i j s (λ e. h (ap suc e))

pub drop-set :
    (slots : List Group) (i n : ℕ) (s : Group) → i < n → drop n (set slots i s) ≡ drop n slots
drop-set slots i zero s h = absurd (omega (arith, h))
drop-set [] i (suc n) s h = refl
drop-set (x ∷ xs) zero (suc n) s h = refl
drop-set (x ∷ xs) (suc i) (suc n) s h = drop-set xs i n s (omega (arith, h))

pub drop_all : (slots : List Group) (n : ℕ) → length slots ≤ n → drop n slots ≡ []
drop_all [] zero h = refl
drop_all [] (suc n) h = refl
drop_all (x ∷ xs) zero h = absurd (omega (arith, h))
drop_all (x ∷ xs) (suc n) h = drop_all xs n (omega (arith, h))
