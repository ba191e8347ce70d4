-- ===== src/Telegram/Tracker/Accept.antt =====
-- `sn_tracker_accept`, branch by branch.
use tox_relayer.Prelude.{
  ℕ, zero, suc, ◌+◌, ◌≤◌, ◌≡◌, refl, Bool, true, false, not, [], ◌++◌, arith, inl, inr, Bool-cases,
  if-elim, if◌then◌else◌, ltb, leb, length, ◌&&◌, ◌==◌, length-append,
}
use tox_relayer.Prelude.Int.{ℤ, pos, leb_ℤ}
use tox_relayer.Telegram.Serial.{sn_valid, sn_next, sn_prev}
use tox_relayer.Telegram.Serial.Laws.{
  IsStepCount, sn_next-valid, sn_min-valid, sn_distance-IsStepCount, sn_prev-reaches, sn_prev-least,
}
use tox_relayer.Telegram.Tracker.{
  Tracker, Accepted, in_order, duplicate, gap, resync, recovered, no_gap, max_pending, pending_take,
  accept_ahead, accept_synced, tracker_accept, tracker_init,
}
use tox_relayer.Telegram.Tracker.Pending.{
  count, count-append, pending_take-Taken, length-pending_take,
}
use tox_relayer.Telegram.Tracker.Ranges.{
  span, length-span, count-span-valid, pending_add_range-fits, pending_add_range-full,
}

-- What `sn_tracker_accept` must answer to a serial that is `d` steps ahead of the expected one and
-- was not asked for: no loop, only the number of steps.
unfoldable pub spec_ahead : Tracker → ℤ → ℤ → ℕ → Accepted
spec_ahead t sn max_gap d =
    if d == 0
    then no_gap (record t { expected = sn_next sn }) in_order
    else if ltb 499 d
    then no_gap t duplicate
    else if leb_ℤ (pos d) max_gap && leb (length t.pending + d) max_pending
    then record {
      tracker = record t { pending = t.pending ++ span d t.expected; expected = sn_next sn };
      result = gap;
      gap_from = t.expected;
      gap_to = sn_prev sn;
    }
    else no_gap (record t { pending = []; expected = sn_next sn }) resync

accept_synced-eq-spec_ahead :
    (t : Tracker) (sn max_gap : ℤ) (d : ℕ)
    → sn_valid t.expected ≡ true
    → sn_valid sn ≡ true
    → IsStepCount t.expected sn d
    → accept_synced t sn max_gap ≡ spec_ahead t sn max_gap d
unfolding accept_synced spec_ahead accept_ahead
accept_synced-eq-spec_ahead t sn max_gap zero he hs p = ground (arith, p.measured)
accept_synced-eq-spec_ahead t sn max_gap (suc d) he hs p = ground (
  arith,
  p.measured,
  pending_add_range-fits d t.pending t.expected (sn_prev sn) (sn_prev-reaches t.expected sn d he p)
      (sn_prev-least t.expected sn d he p hs),
  pending_add_range-full d t.pending t.expected (sn_prev sn) (sn_prev-reaches t.expected sn d he p)
      (sn_prev-least t.expected sn d he p hs),
)

-- The serial is outstanding: it is taken out of the set once, and nothing else changes.
pub accept-recovered :
    (t : Tracker) (sn max_gap : ℤ)
    → sn_valid sn ≡ true
    → 1 ≤ count sn t.pending
    → tracker_accept t sn max_gap
      ≡ no_gap (record t { pending = (pending_take t.pending sn).0 }) recovered
unfolding tracker_accept
accept-recovered t sn max_gap hs c = rw (hs, (pending_take-Taken t.pending sn).found.1 c) refl

not-found :
    (t : Tracker) (sn : ℤ) → count sn t.pending ≡ 0 → pending_take t.pending sn ≡ (t.pending, false)
not-found t sn c = elim (Bool-cases (pending_take t.pending sn).1) [
  | inl e ↦ absurd (omega (arith, (pending_take-Taken t.pending sn).found.0 e))
  | inr e ↦ ground (arith, (pending_take-Taken t.pending sn).missing e)
]

-- When a synced tracker with a valid expected serial gets a valid serial that is not outstanding
-- and that is `d` steps ahead, it answers as the specification says.
pub accept-eq-spec_ahead :
    (t : Tracker) (sn max_gap : ℤ) (d : ℕ)
    → sn_valid t.expected ≡ true
    → sn_valid sn ≡ true
    → t.synced ≡ true
    → count sn t.pending ≡ 0
    → IsStepCount t.expected sn d
    → tracker_accept t sn max_gap ≡ spec_ahead t sn max_gap d
unfolding tracker_accept
accept-eq-spec_ahead t sn max_gap d he hs hy c p =
    simp (hs, not-found t sn c, hy) (accept_synced-eq-spec_ahead t sn max_gap d he hs p)

accept-unsynced :
    (t : Tracker) (sn max_gap : ℤ)
    → sn_valid sn ≡ true
    → t.synced ≡ false
    → count sn t.pending ≡ 0
    → tracker_accept t sn max_gap
      ≡ no_gap (record t { synced = true; expected = sn_next sn }) in_order
unfolding tracker_accept
accept-unsynced t sn max_gap hs hy c = simp (hs, not-found t sn c, hy)

-- The representation invariant of `sn_tracker`.
pub record IsTracker (t : Tracker) : Type 0 where
  pub expected_valid : sn_valid t.expected ≡ true
  pub pending_valid : (a : ℤ) → 1 ≤ count a t.pending → sn_valid a ≡ true
  pub bounded : length t.pending ≤ max_pending

pub tracker_init-IsTracker : (first : ℤ) → IsTracker (tracker_init first)
unfolding tracker_init count
tracker_init-IsTracker first = record {
  expected_valid = if-elim (λ s. sn_valid s ≡ true) (sn_valid first) (λ e. e) (λ _. sn_min-valid);
  pending_valid = λ a h. absurd (omega arith);
  bounded = omega arith;
}

not-false : (b : Bool) → not b ≡ false → b ≡ true
not-false b h = ground arith

moved-IsTracker :
    (t : Tracker) (sn : ℤ) (fresh : Bool)
    → IsTracker t
    → IsTracker (record t { synced = fresh; expected = sn_next sn })
moved-IsTracker t sn fresh v = record {
  expected_valid = sn_next-valid sn;
  pending_valid = v.pending_valid;
  bounded = v.bounded;
}

cleared-IsTracker :
    (t : Tracker) (sn : ℤ) → IsTracker (record t { pending = []; expected = sn_next sn })
unfolding count
cleared-IsTracker t sn = record {
  expected_valid = sn_next-valid sn;
  pending_valid = λ a h. absurd (omega arith);
  bounded = omega arith;
}

widened-IsTracker :
    (t : Tracker) (sn : ℤ) (d : ℕ)
    → IsTracker t
    → length t.pending + d ≤ max_pending
    → IsTracker (record t { pending = t.pending ++ span d t.expected; expected = sn_next sn })
widened-IsTracker t sn d v h = record {
  expected_valid = sn_next-valid sn;
  pending_valid = λ a c. valid a c;
  bounded = omega (arith, length-append t.pending (span d t.expected), length-span d t.expected);
}
  where
    valid : (a : ℤ) → 1 ≤ count a (t.pending ++ span d t.expected) → sn_valid a ≡ true
    valid a c = ground (
      arith,
      count-append a t.pending (span d t.expected),
      v.pending_valid a,
      count-span-valid d t.expected a v.expected_valid,
    )

spec_ahead-IsTracker :
    (t : Tracker) (sn max_gap : ℤ) (d : ℕ)
    → IsTracker t
    → IsTracker (spec_ahead t sn max_gap d).tracker
unfolding spec_ahead
spec_ahead-IsTracker t sn max_gap d v =
    if-elim P (d == 0) (λ _. moved-IsTracker t sn t.synced v)
      (λ _.
        if-elim P (ltb 499 d) (λ _. v)
          (λ _.
            if-elim P (leb_ℤ (pos d) max_gap && leb (length t.pending + d) max_pending)
              (λ e. widened-IsTracker t sn d v (ground arith)) (λ _. cleared-IsTracker t sn)))
  where
    P : Accepted → Type 0
    P r = IsTracker r.tracker

taken-IsTracker :
    (t : Tracker) (sn : ℤ)
    → IsTracker t
    → (pending_take t.pending sn).1 ≡ true
    → IsTracker (record t { pending = (pending_take t.pending sn).0 })
taken-IsTracker t sn v e = record {
  expected_valid = v.expected_valid;
  pending_valid =
      λ a c. v.pending_valid a (omega (arith, (pending_take-Taken t.pending sn).removed e a));
  bounded = omega (arith, length-pending_take t.pending sn, v.bounded);
}

-- `sn_tracker_accept` keeps the invariant whatever serial arrives, valid or not, and whatever the
-- caller's budget: `expected` stays a serial, every outstanding number is a serial, and the
-- outstanding set stays within its array.
pub tracker_accept-IsTracker :
    (t : Tracker) (sn max_gap : ℤ) → IsTracker t → IsTracker (tracker_accept t sn max_gap).tracker
unfolding tracker_accept
tracker_accept-IsTracker t sn max_gap v =
    if-elim P (not (sn_valid sn)) (λ _. v)
      (λ hs.
        if-elim P (pending_take t.pending sn).1 (λ e. taken-IsTracker t sn v e)
          (λ _.
            if-elim P (not t.synced) (λ _. moved-IsTracker t sn true v)
              (λ _. ahead (not-false (sn_valid sn) hs))))
  where
    P : Accepted → Type 0
    P r = IsTracker r.tracker

    ahead : sn_valid sn ≡ true → P (accept_synced t sn max_gap)
    ahead hs =
        let (d, p) = sn_distance-IsStepCount t.expected sn v.expected_valid hs in
        rw (accept_synced-eq-spec_ahead t sn max_gap d v.expected_valid hs p)
          (spec_ahead-IsTracker t sn max_gap d v)
