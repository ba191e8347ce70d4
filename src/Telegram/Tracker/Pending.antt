-- ===== src/Telegram/Tracker/Pending.antt =====
-- The outstanding set of a tracker as a multiset: what `sn_pending_take` and
-- `sn_pending_add_range` do to the number of times that a serial stands in it.
use tox_relayer.Prelude.{
  ℕ, zero, suc, ◌+◌, ◌-◌, ◌≤◌, ◌<◌, ◌≡◌, refl, ap, ◌↔◌, Bool, inl, inr, true, false, none, some,
  List, [], ◌∷◌, ◌++◌, arith, Option-cases, if◌then◌else◌, length, take, set, get_or, length-take,
}
use tox_relayer.Prelude.Int.{ℤ, pos, eqb_ℤ, eqb_ℤ_iff}
use tox_relayer.Telegram.Tracker.{find_index, swap_remove, pending_take}

abbrev pub same : ℤ → ℤ → ℕ
same a b = if eqb_ℤ a b then 1 else 0

pub same_self : (a : ℤ) → same a a ≡ 1
same_self a = ground arith

-- How often a serial stands in a list.
unfoldable pub count : ℤ → List ℤ → ℕ
count a [] = 0
count a (x ∷ xs) = same a x + count a xs

pub count-append : (a : ℤ) (xs ys : List ℤ) → count a (xs ++ ys) ≡ count a xs + count a ys
unfolding count
count-append a [] ys = omega arith
count-append a (x ∷ xs) ys = omega (arith, count-append a xs ys)

count-set :
    (a v : ℤ) (xs : List ℤ) (i : ℕ)
    → i < length xs
    → count a (set xs i v) + same a (get_or xs i (pos 0)) ≡ count a xs + same a v
unfolding count
count-set a v [] i h = absurd (omega arith)
count-set a v (x ∷ xs) zero h = omega arith
count-set a v (x ∷ xs) (suc i) h = omega (arith, count-set a v xs i (omega arith))

count-take_last :
    (a : ℤ) (n : ℕ) (ys : List ℤ)
    → length ys ≡ suc n
    → count a (take n ys) + same a (get_or ys n (pos 0)) ≡ count a ys
unfolding count
count-take_last a n [] e = absurd (omega arith)
count-take_last a zero (y ∷ []) e = omega arith
count-take_last a zero (y ∷ z ∷ zs) e = absurd (omega arith)
count-take_last a (suc n) (y ∷ ys) e = omega (arith, count-take_last a n ys (omega arith))

get_or-set_last :
    (x : ℤ) (xs : List ℤ) (i : ℕ)
    → get_or (set (x ∷ xs) i (get_or (x ∷ xs) (length xs) (pos 0))) (length xs) (pos 0)
      ≡ get_or (x ∷ xs) (length xs) (pos 0)
get_or-set_last x [] zero = refl
get_or-set_last x [] (suc i) = refl
get_or-set_last x (y ∷ ys) zero = refl
get_or-set_last x (y ∷ ys) (suc i) = get_or-set_last y ys i

length-set_same : (xs : List ℤ) (i : ℕ) (v : ℤ) → length (set xs i v) ≡ length xs
length-set_same [] i v = refl
length-set_same (x ∷ xs) zero v = refl
length-set_same (x ∷ xs) (suc i) v = ap suc (length-set_same xs i v)

find_index-found :
    (sn : ℤ) (xs : List ℤ) (i : ℕ)
    → find_index sn xs ≡ some i
    → (i < length xs) × (get_or xs i (pos 0) ≡ sn)
unfolding find_index
find_index-found sn [] i e = ground arith
find_index-found sn (x ∷ xs) zero e =
    ground (arith, eqb_ℤ_iff x sn, Option-cases (find_index sn xs))
find_index-found sn (x ∷ xs) (suc i) e =
    ground (arith, find_index-found sn xs i, Option-cases (find_index sn xs))

find_index-none : (sn : ℤ) (xs : List ℤ) → find_index sn xs ≡ none → count sn xs ≡ 0
unfolding find_index count
find_index-none sn [] e = refl
find_index-none sn (x ∷ xs) e = ground (arith, find_index-none sn xs)

-- `pending[i] = pending[--pending_count]` takes out the element at `i`, once.
swap_remove-count :
    (a : ℤ) (xs : List ℤ) (i : ℕ)
    → i < length xs
    → count a (swap_remove xs i) + same a (get_or xs i (pos 0)) ≡ count a xs
unfolding swap_remove
swap_remove-count a [] i h = absurd (omega arith)
swap_remove-count a (x ∷ xs) i h = rw last_index (
    omega (
      arith,
      count-take_last a (length xs) (set (x ∷ xs) i v) (length-set_same (x ∷ xs) i v),
      ap (same a) (get_or-set_last x xs i),
      count-set a v (x ∷ xs) i h,
    ))
  where
    v : ℤ
    v = get_or (x ∷ xs) (length xs) (pos 0)

    last_index : suc (length xs) - 1 ≡ length xs
    last_index = omega arith

-- The answer of `sn_pending_take` on the set `pending`.
pub record Taken (pending : List ℤ) (sn : ℤ) (out : List ℤ × Bool) : Type 0 where
  pub found : (out.1 ≡ true) ↔ (1 ≤ count sn pending)
  pub missing : out.1 ≡ false → out.0 ≡ pending
  pub removed : out.1 ≡ true → (a : ℤ) → count a out.0 + same a sn ≡ count a pending

-- `sn_pending_take` finds a serial exactly when the set holds it. It then takes the serial out once
-- and leaves all else as often as before; otherwise the set stays as it was.
pub pending_take-Taken : (pending : List ℤ) (sn : ℤ) → Taken pending sn (pending_take pending sn)
unfolding pending_take
pending_take-Taken pending sn = elim (Option-cases (find_index sn pending)) [
  | inl e ↦
      rw (e, pending_take)
        (record {
          found = (λ h. cc, λ h. absurd (omega (arith, find_index-none sn pending e)));
          missing = λ _. refl;
          removed = λ h. cc;
        })
  | inr (i, e) ↦
      let at = find_index-found sn pending i e in
      rw (e, pending_take)
        (record {
          found = (
            λ _.
                omega (arith, swap_remove-count sn pending i at.0, ap (same sn) at.1, same_self sn),
            λ _. refl,
          );
          missing = λ h. cc;
          removed = λ _ a. omega (arith, swap_remove-count a pending i at.0, ap (same a) at.1);
        })
]

pub length-swap_remove : (xs : List ℤ) (i : ℕ) → length (swap_remove xs i) ≤ length xs
unfolding swap_remove
length-swap_remove xs i = omega (
  arith,
  length-take (length xs - 1) (set xs i (get_or xs (length xs - 1) (pos 0))),
  length-set_same xs i (get_or xs (length xs - 1) (pos 0)),
)

pub length-pending_take :
    (pending : List ℤ) (sn : ℤ) → length (pending_take pending sn).0 ≤ length pending
unfolding pending_take
length-pending_take pending sn = elim (Option-cases (find_index sn pending)) [
  | inl e ↦ rw (e, pending_take) (omega arith)
  | inr (i, e) ↦ rw (e, pending_take) (length-swap_remove pending i)
]
