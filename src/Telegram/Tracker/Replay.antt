-- ===== src/Telegram/Tracker/Replay.antt =====
-- Sequences of arrivals at a tracker: an uninterrupted run, a replay in any order, and what a serial
-- that was never replayed does after the numbers have gone round.
use tox_relayer.Prelude.{
  ℕ, zero, suc, ◌+◌, ◌≤◌, ◌≡◌, refl, ap, ap₂, ◌∙◌, true, List, [], ◌∷◌, arith,
}
use tox_relayer.Prelude.Int.{ℤ}
use tox_relayer.Telegram.Serial.{sn_valid, sn_next}
use tox_relayer.Telegram.Serial.Laws.{
  advance, sn_next-valid, IsStepCount-self, IsStepCount-behind, advance-valid,
}
use tox_relayer.Telegram.Tracker.{
  Tracker, SnResult, in_order, recovered, duplicate, no_gap, tracker_accept, pending_take,
}
use tox_relayer.Telegram.Tracker.Pending.{count, same_self, pending_take-Taken}
use tox_relayer.Telegram.Tracker.Ranges.{span}
use tox_relayer.Telegram.Tracker.Accept.{
  IsTracker, spec_ahead, accept-recovered, accept-eq-spec_ahead, tracker_accept-IsTracker,
}

-- Serials that arrive one after another: the classifications, and the tracker at the end.
pub receive : Tracker → ℤ → List ℤ → List SnResult × Tracker
receive t max_gap [] = ([], t)
receive t max_gap (sn ∷ sns) =
    let a = tracker_accept t sn max_gap in
    let (results, t') = receive a.tracker max_gap sns in (a.result ∷ results, t')

pub all_same : SnResult → List ℤ → List SnResult
all_same r [] = []
all_same r (_ ∷ sns) = r ∷ all_same r sns

-- The expected serial, when it is not outstanding, is taken in order and nothing else changes.
pub accept-expected :
    (t : Tracker) (max_gap : ℤ)
    → sn_valid t.expected ≡ true
    → t.synced ≡ true
    → count t.expected t.pending ≡ 0
    → tracker_accept t t.expected max_gap
      ≡ no_gap (record t { expected = sn_next t.expected }) in_order
unfolding spec_ahead
accept-expected t max_gap he hy c =
    accept-eq-spec_ahead t t.expected max_gap 0 he he hy c (IsStepCount-self t.expected he)

-- A telegram that carries exactly the expected serial, which was asked for earlier and never
-- replayed, is taken for the replay: it is reported as recovered and the expected serial stays.
pub stale_recovered :
    (t : Tracker) (max_gap : ℤ)
    → sn_valid t.expected ≡ true
    → 1 ≤ count t.expected t.pending
    → ((tracker_accept t t.expected max_gap).result ≡ recovered)
      × ((tracker_accept t t.expected max_gap).tracker.expected ≡ t.expected)
stale_recovered t max_gap he c =
    let e = accept-recovered t t.expected max_gap he c in
    (ap (λ a. a.result) e, ap (λ a. a.tracker.expected) e)

-- A replay closes its gap in whatever order it arrives: if the outstanding set holds the serials
-- `sns` beside `rest`, all of them are reported as recovered, `rest` stays outstanding, and the
-- expected serial does not move.
pub receive-replay :
    (sns rest : List ℤ) (t : Tracker) (max_gap : ℤ)
    → IsTracker t
    → ((a : ℤ) → count a t.pending ≡ count a sns + count a rest)
    → let (results, t') = receive t max_gap sns in
      (results ≡ all_same recovered sns)
      × (t'.expected ≡ t.expected)
      × ((a : ℤ) → count a t'.pending ≡ count a rest)
unfolding receive all_same count
receive-replay [] rest t max_gap v h = (refl, refl, λ a. omega (arith, h a))
receive-replay (sn ∷ sns) rest t max_gap v h =
    let ih =
      receive-replay sns rest (tracker_accept t sn max_gap).tracker max_gap
        (tracker_accept-IsTracker t sn max_gap v) left in
    (ap₂ ◌∷◌ (ap (λ a. a.result) step) ih.0, ih.1 ∙ ap (λ a. a.tracker.expected) step, ih.2)
  where
    outstanding : 1 ≤ count sn t.pending
    outstanding = omega (arith, h sn, same_self sn)

    step :
        tracker_accept t sn max_gap
        ≡ no_gap (record t { pending = (pending_take t.pending sn).0 }) recovered
    step = accept-recovered t sn max_gap (v.pending_valid sn outstanding) outstanding

    left :
        (a : ℤ) → count a (tracker_accept t sn max_gap).tracker.pending ≡ count a sns + count a rest
    left a = omega (
      arith,
      ap (λ r. count a r.tracker.pending) step,
      (pending_take-Taken t.pending sn).removed
          ((pending_take-Taken t.pending sn).found.1 outstanding) a,
      h a,
    )

-- An uninterrupted run of any length at a synced tracker with a valid expected serial, round the
-- end of the numbers too: when none of its serials is outstanding, every one is taken in order, the expected serial moves on by their number, and
-- the outstanding set is left alone.
pub receive-span :
    (k : ℕ) (t : Tracker) (max_gap : ℤ)
    → sn_valid t.expected ≡ true
    → t.synced ≡ true
    → ((a : ℤ) → 1 ≤ count a (span k t.expected) → count a t.pending ≡ 0)
    → receive t max_gap (span k t.expected)
      ≡ (all_same in_order (span k t.expected), record t { expected = advance k t.expected })
unfolding receive all_same span advance count
receive-span zero t max_gap he hy h = refl
receive-span (suc k) t max_gap he hy h = rw step (
    rw
      (receive-span k (record t { expected = sn_next t.expected }) max_gap
        (sn_next-valid t.expected) hy (λ a c. h a (omega arith)))
      refl)
  where
    step :
        tracker_accept t t.expected max_gap
        ≡ no_gap (record t { expected = sn_next t.expected }) in_order
    step = accept-expected t max_gap he hy (h t.expected (omega (arith, same_self t.expected)))

-- At a well-formed synced tracker, a serial that was asked for and never replayed meets the run
-- again after `k` telegrams in order whose serials are not outstanding: the run's own telegram with that serial is reported as recovered, and the expected serial
-- stays behind it.
pub receive-stale :
    (k : ℕ) (t : Tracker) (max_gap : ℤ)
    → IsTracker t
    → t.synced ≡ true
    → ((a : ℤ) → 1 ≤ count a (span k t.expected) → count a t.pending ≡ 0)
    → 1 ≤ count (advance k t.expected) t.pending
    → let t' = (receive t max_gap (span k t.expected)).1 in
      let a = tracker_accept t' (advance k t.expected) max_gap in
      (t'.expected ≡ advance k t.expected)
      × (a.result ≡ recovered)
      × (a.tracker.expected ≡ advance k t.expected)
receive-stale k t max_gap v hy h c = rw (receive-span k t max_gap v.expected_valid hy h) (
    let e =
      stale_recovered (record t { expected = advance k t.expected }) max_gap
        (advance-valid k t.expected v.expected_valid) c in
    (refl, e.0, e.1))

-- At a synced tracker, a telegram with the expected serial, valid and not outstanding, is refused
-- as a duplicate when it comes again, and the second arrival changes nothing.
pub accept_twice :
    (t : Tracker) (max_gap : ℤ)
    → sn_valid t.expected ≡ true
    → t.synced ≡ true
    → count t.expected t.pending ≡ 0
    → let t' = (tracker_accept t t.expected max_gap).tracker in
      tracker_accept t' t.expected max_gap ≡ no_gap t' duplicate
unfolding spec_ahead
accept_twice t max_gap he hy c = rw (accept-expected t max_gap he hy c) (
    accept-eq-spec_ahead (record t { expected = sn_next t.expected }) t.expected max_gap 998
      (sn_next-valid t.expected) he hy c (IsStepCount-behind t.expected he))
