-- ===== src/Telegram/Tracker/Ranges.antt =====
-- `sn_pending_add_range` adds the serials of a range in order, or reports that they do not fit.
use tox_relayer.Prelude.{
  ℕ, zero, suc, ◌+◌, ◌-◌, ◌≤◌, ◌<◌, ◌≡◌, refl, ap, ◌∙◌, true, false, List, [], ◌∷◌, ◌++◌, arith,
  inl, inr, Bool-cases, length,
}
use mathlib.Core.List.{append_assoc}
use tox_relayer.Prelude.Int.{ℤ, eqb_ℤ, eqb_ℤ_iff}
use tox_relayer.Telegram.Serial.{sn_next, sn_valid}
use tox_relayer.Telegram.Serial.Laws.{advance, sn_next-valid}
use tox_relayer.Telegram.Tracker.Pending.{count}
use tox_relayer.Telegram.Tracker.{add_loop, pending_add_range, max_pending}

-- `k` consecutive serials from `s` on.
unfoldable pub span : ℕ → ℤ → List ℤ
span zero s = []
span (suc k) s = s ∷ span k (sn_next s)

pub length-span : (k : ℕ) (s : ℤ) → length (span k s) ≡ k
unfolding span
length-span zero s = refl
length-span (suc k) s = ap suc (length-span k (sn_next s))

add_loop-fits :
    (d room : ℕ) (pending : List ℤ) (from to : ℤ)
    → d < room
    → advance d from ≡ to
    → ((k : ℕ) → advance k from ≡ to → d ≤ k)
    → add_loop room pending from to ≡ (pending ++ span (suc d) from, true)
unfolding add_loop span advance
add_loop-fits d zero pending from to h e least = absurd (omega arith)
add_loop-fits zero (suc room) pending from to h e least = rw ((eqb_ℤ_iff from to).1 e)
add_loop-fits (suc d) (suc room) pending from to h e least = elim (Bool-cases (eqb_ℤ from to)) [
  | inl hit ↦ absurd (omega (arith, least 0 ((eqb_ℤ_iff from to).0 hit)))
  | inr miss ↦ rw miss (
      add_loop-fits d room (pending ++ (from ∷ [])) (sn_next from) to (omega arith) e
        (λ k q. omega (arith, least (suc k) q))
      ∙ ap (λ xs. (xs, true)) (append_assoc pending (from ∷ []) (span (suc d) (sn_next from))))
]

add_loop-full :
    (d room : ℕ) (pending : List ℤ) (from to : ℤ)
    → room ≤ d
    → ((k : ℕ) → advance k from ≡ to → d ≤ k)
    → (add_loop room pending from to).1 ≡ false
unfolding add_loop advance
add_loop-full d zero pending from to h least = refl
add_loop-full d (suc room) pending from to h least = elim (Bool-cases (eqb_ℤ from to)) [
  | inl hit ↦ absurd (omega (arith, least 0 ((eqb_ℤ_iff from to).0 hit)))
  | inr miss ↦ rw miss (
      add_loop-full (d - 1) room (pending ++ (from ∷ [])) (sn_next from) to (omega arith)
        (λ k q. omega (arith, least (suc k) q)))
]

-- The range that starts at `from` and ends `d` steps later.
module _ (d : ℕ) (pending : List ℤ) (from to : ℤ) (reaches : advance d from ≡ to)
    (least : (k : ℕ) → advance k from ≡ to → d ≤ k) where
  pub pending_add_range-fits :
      length pending + suc d ≤ max_pending
      → pending_add_range pending from to ≡ (pending ++ span (suc d) from, true)
  unfolding pending_add_range
  pending_add_range-fits h = ground (
    arith,
    add_loop-fits d (max_pending - length pending) pending from to (omega arith) reaches least,
  )

  pub pending_add_range-full :
      max_pending < length pending + suc d → (pending_add_range pending from to).1 ≡ false
  unfolding pending_add_range
  pending_add_range-full h =
      ground
        (arith, add_loop-full d (max_pending - length pending) pending from to (omega arith) least)

-- Every serial of a span is valid.
pub count-span-valid :
    (k : ℕ) (s a : ℤ) → sn_valid s ≡ true → 1 ≤ count a (span k s) → sn_valid a ≡ true
unfolding span count
count-span-valid zero s a h c = absurd (omega arith)
count-span-valid (suc k) s a h c =
    ground (arith, eqb_ℤ_iff a s, count-span-valid k (sn_next s) a (sn_next-valid s))
