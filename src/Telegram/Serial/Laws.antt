-- ===== src/Telegram/Serial/Laws.antt =====
-- The laws of the serial numbers: `tg_sn_next`, `tg_sn_prev` and `tg_sn_distance`.
use tox_relayer.Prelude.{
  ℕ, zero, suc, ◌+◌, ◌-◌, ◌%◌, ◌≤◌, ◌<◌, ◌≡◌, refl, ap, sym, ◌∙◌, true, arith,
}
use tox_relayer.Prelude.Int.{ℤ, pos, pos_part}
use tox_relayer.Telegram.Serial.{sn_min, sn_valid, sn_next, sn_prev, sn_distance, sn_range}

-- What the test of a serial says of its number.
pub record Serial (s : ℤ) : Type 0 where
  pub value : ℕ
  pub value_eq : s ≡ pos value
  pub above : 1 ≤ value
  pub below : value ≤ 999

pub sn_valid-Serial : (s : ℤ) → sn_valid s ≡ true → Serial s
unfolding sn_valid
sn_valid-Serial (pos n) h = record {
  value = n;
  value_eq = refl;
  above = ground arith;
  below = ground arith;
}
sn_valid-Serial (ℤ.negsuc n) h = ground arith

pub Serial-sn_valid : {s : ℤ} → Serial s → sn_valid s ≡ true
unfolding sn_valid
Serial-sn_valid v = rw v.value_eq (ground arith)

pub sn_next-valid : (s : ℤ) → sn_valid (sn_next s) ≡ true
unfolding sn_next
sn_next-valid s = ground arith

pub sn_min-valid : sn_valid (pos sn_min) ≡ true
unfolding sn_valid
sn_min-valid = refl

pub sn_prev-valid : (s : ℤ) → sn_valid (sn_prev s) ≡ true
unfolding sn_prev
sn_prev-valid s = ground arith

pub sn_prev-sn_next : (s : ℤ) → sn_valid s ≡ true → sn_prev (sn_next s) ≡ s
unfolding sn_prev sn_next
sn_prev-sn_next s h = ground arith

pub sn_next-sn_prev : (s : ℤ) → sn_valid s ≡ true → sn_next (sn_prev s) ≡ s
unfolding sn_prev sn_next
sn_next-sn_prev s h = ground arith

-- `k` steps of `tg_sn_next`.
unfoldable pub advance : ℕ → ℤ → ℤ
advance zero s = s
advance (suc k) s = advance k (sn_next s)

sn_next-pos : (n : ℕ) → 1 ≤ n → n ≤ 999 → sn_next (pos n) ≡ pos (n % 999 + 1)
unfolding sn_next
sn_next-pos n h g = ground arith

-- A serial stands `value - 1` steps after 1, counted modulo 999.
pub advance_lem : (k n : ℕ) → 1 ≤ n → n ≤ 999 → advance k (pos n) ≡ pos ((n - 1 + k) % 999 + 1)
unfolding advance
advance_lem zero n h g = ap pos (omega arith)
advance_lem (suc k) n h g =
    rw (sn_next-pos n h g)
      (advance_lem k (n % 999 + 1) (omega arith) (omega arith) ∙ ap pos (omega arith))

pub sn_distance_lem :
    (m n : ℕ)
    → 1 ≤ m
    → m ≤ 999
    → 1 ≤ n
    → n ≤ 999
    → sn_distance (pos m) (pos n) ≡ pos ((n + 999 - m) % 999)
unfolding sn_distance
sn_distance_lem m n h g h' g' = ground arith

-- What it is for `d` to be the number of forward steps from one serial to another.
pub record IsStepCount (from to : ℤ) (d : ℕ) : Type 0 where
  pub measured : sn_distance from to ≡ pos d
  pub in_range : d < sn_range
  pub reaches : advance d from ≡ to
  pub least : (k : ℕ) → advance k from ≡ to → d ≤ k

pub pos_IsStepCount :
    (m n : ℕ)
    → 1 ≤ m
    → m ≤ 999
    → 1 ≤ n
    → n ≤ 999
    → IsStepCount (pos m) (pos n) ((n + 999 - m) % 999)
pos_IsStepCount m n h g h' g' = record {
  measured = sn_distance_lem m n h g h' g';
  in_range = omega arith;
  reaches = advance_lem ((n + 999 - m) % 999) m h g ∙ ap pos (omega arith);
  least = λ k e. least_at k (ap pos_part (sym (advance_lem k m h g) ∙ e));
}
  where
    least_at : (k : ℕ) → (m - 1 + k) % 999 + 1 ≡ n → (n + 999 - m) % 999 ≤ k
    least_at k e = omega arith

-- `tg_sn_distance` counts the forward steps between two serials: it lies in 0 .. 998, that many
-- steps of `tg_sn_next` lead from `from` to `to`, and no smaller number of steps does.
pub sn_distance-IsStepCount :
    (from to : ℤ) → sn_valid from ≡ true → sn_valid to ≡ true → (d : ℕ) × IsStepCount from to d
unfolding sn_valid
sn_distance-IsStepCount (pos m) (pos n) hf ht = (
  (n + 999 - m) % 999,
  pos_IsStepCount m n (ground arith) (ground arith) (ground arith) (ground arith),
)
sn_distance-IsStepCount (pos m) (ℤ.negsuc n) hf ht = ground arith
sn_distance-IsStepCount (ℤ.negsuc m) to hf ht = ground arith

pub advance-valid : (k : ℕ) (s : ℤ) → sn_valid s ≡ true → sn_valid (advance k s) ≡ true
unfolding advance
advance-valid zero s h = h
advance-valid (suc k) s h = advance-valid k (sn_next s) (sn_next-valid s)

pub advance-suc : (k : ℕ) (s : ℤ) → advance (suc k) s ≡ sn_next (advance k s)
unfolding advance
advance-suc zero s = refl
advance-suc (suc k) s = advance-suc k (sn_next s)

-- The serial before the end of a range is one step nearer.
module _ (from to : ℤ) (d : ℕ) (from_valid : sn_valid from ≡ true)
    (p : IsStepCount from to (suc d)) where
  pub sn_prev-reaches : advance d from ≡ sn_prev to
  sn_prev-reaches =
      sym (sn_prev-sn_next (advance d from) (advance-valid d from from_valid))
      ∙ ap sn_prev (sym (advance-suc d from) ∙ p.reaches)

  pub sn_prev-least : sn_valid to ≡ true → (k : ℕ) → advance k from ≡ sn_prev to → d ≤ k
  sn_prev-least h k e =
      omega (arith, p.least (suc k) (advance-suc k from ∙ ap sn_next e ∙ sn_next-sn_prev to h))

pub IsStepCount-self : (s : ℤ) → sn_valid s ≡ true → IsStepCount s s 0
unfolding sn_distance sn_valid advance
IsStepCount-self s h = record {
  measured = ground arith;
  in_range = omega arith;
  reaches = refl;
  least = λ k _. omega arith;
}

pub IsStepCount-behind : (s : ℤ) → sn_valid s ≡ true → IsStepCount (sn_next s) s 998
unfolding sn_valid
IsStepCount-behind (ℤ.negsuc n) h = ground arith
IsStepCount-behind (pos n) h = rw (sn_next-pos n (ground arith) (ground arith)) (
    let p =
      pos_IsStepCount (n % 999 + 1) n (omega arith) (omega arith) (ground arith) (ground arith) in
    let e : (n + 999 - (n % 999 + 1)) % 999 ≡ 998 = ground arith in rw e at p)
