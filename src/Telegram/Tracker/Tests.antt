-- ===== src/Telegram/Tracker/Tests.antt =====
-- Runs of the tracker at fixed inputs, and the theorems applied there.
use tox_relayer.Prelude.{◌≡◌, ◌≤◌, Bool-cases, inl, inr, refl, true, [], ◌∷◌, arith, ap}
use tox_relayer.Prelude.Int.{ℤ, pos, eqb_ℤ, eqb_ℤ_iff}
use tox_relayer.Telegram.Serial.{sn_valid, sn_next}
use tox_relayer.Telegram.Serial.Laws.{advance, IsStepCount, pos_IsStepCount}
use tox_relayer.Telegram.Tracker.{Tracker, in_order, recovered, tracker_accept}
use tox_relayer.Telegram.Tracker.Pending.{count}
use tox_relayer.Telegram.Tracker.Ranges.{span, count-span-valid}
use tox_relayer.Telegram.Tracker.Accept.{
  IsTracker, spec_ahead, accept-eq-spec_ahead, tracker_accept-IsTracker,
}
use tox_relayer.Telegram.Tracker.Replay.{
  receive, all_same, receive-replay, receive-span, receive-stale,
}

-- At the end of the numbers, with nothing outstanding.
abbrev quiet : Tracker
quiet = record { expected = pos 998; synced = true; pending = [] }

-- Two serials were asked for.
abbrev waiting : Tracker
waiting = record { expected = pos 1; synced = true; pending = pos 998 ∷ pos 999 ∷ [] }

-- Serial 3 was asked for, and the numbers have gone round.
abbrev stale : Tracker
stale = record { expected = pos 1; synced = true; pending = pos 3 ∷ [] }

two_ahead : IsStepCount (pos 998) (pos 1) 2
two_ahead = pos_IsStepCount 998 1 (omega arith) (omega arith) (omega arith) (omega arith)

waiting-IsTracker : IsTracker waiting
unfolding sn_valid sn_next span
waiting-IsTracker = record {
  expected_valid = refl;
  pending_valid = λ a. count-span-valid 2 (pos 998) a refl;
  bounded = omega arith;
}

stale-IsTracker : IsTracker stale
unfolding sn_valid sn_next span
stale-IsTracker = record {
  expected_valid = refl;
  pending_valid = λ a. count-span-valid 1 (pos 3) a refl;
  bounded = omega arith;
}

-- Neither 1 nor 2 is outstanding.
stale_fresh : (a : ℤ) → 1 ≤ count a (span 2 (pos 1)) → count a (pos 3 ∷ []) ≡ 0
unfolding count span sn_next sn_valid
stale_fresh a c = elim (Bool-cases (eqb_ℤ a (pos 3))) [
  | inl e ↦
      absurd
        (omega (arith, not_there, ap (λ x. count x (span 2 (pos 1))) ((eqb_ℤ_iff a (pos 3)).0 e)))
  | inr e ↦ rw e refl
]
  where
    not_there : count (pos 3) (span 2 (pos 1)) ≡ 0
    not_there = refl

accept-eq-spec_ahead_example :
    tracker_accept quiet (pos 1) (pos 64) ≡ spec_ahead quiet (pos 1) (pos 64) 2
unfolding sn_valid count
accept-eq-spec_ahead_example =
    accept-eq-spec_ahead quiet (pos 1) (pos 64) 2 refl refl refl refl two_ahead

tracker_accept-IsTracker_example : IsTracker (tracker_accept waiting (pos 40) (pos 64)).tracker
tracker_accept-IsTracker_example =
    tracker_accept-IsTracker waiting (pos 40) (pos 64) waiting-IsTracker

-- The replay arrives in the other order.
receive-replay_example :
    let (results, t') = receive waiting (pos 64) (pos 999 ∷ pos 998 ∷ []) in
    (results ≡ all_same recovered (pos 999 ∷ pos 998 ∷ []))
    × (t'.expected ≡ pos 1)
    × ((a : ℤ) → count a t'.pending ≡ count a [])
unfolding count
receive-replay_example =
    receive-replay (pos 999 ∷ pos 998 ∷ []) [] waiting (pos 64) waiting-IsTracker (λ a. omega arith)

receive-span_example :
    receive quiet (pos 64) (span 4 (pos 998))
    ≡ (all_same in_order (span 4 (pos 998)), record quiet { expected = advance 4 (pos 998) })
unfolding sn_valid count
receive-span_example = receive-span 4 quiet (pos 64) refl refl (λ a c. refl)

receive-stale_example :
    let t' = (receive stale (pos 64) (span 2 (pos 1))).1 in
    let a = tracker_accept t' (advance 2 (pos 1)) (pos 64) in
    (t'.expected ≡ advance 2 (pos 1))
    × (a.result ≡ recovered)
    × (a.tracker.expected ≡ advance 2 (pos 1))
unfolding count advance sn_next sn_valid
receive-stale_example =
    receive-stale 2 stale (pos 64) stale-IsTracker refl stale_fresh (omega arith)
