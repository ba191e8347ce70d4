-- ===== src/Telegram/Tracker.antt =====
-- Receive-sequence tracking of src/telegram.c: `sn_tracker` and its operations. The caller passes
-- a tracker, never NULL; the out-parameters `gap_from` and `gap_to` are fields of the result.
pub mod Pending
pub mod Ranges
pub mod Accept
pub mod Replay
mod Tests
use tox_relayer.Prelude.{
  ℕ, zero, suc, ◌+◌, ◌-◌, ◌/◌, Bool, true, false, not, ◌&&◌, Option, none, some, List, [], ◌∷◌,
  ◌++◌, if◌then◌else◌, leb, length, take, set, get_or,
}
use tox_relayer.Prelude.Int.{ℤ, pos, leb_ℤ, ltb_ℤ, eqb_ℤ}
use tox_relayer.Telegram.Serial.{sn_valid, sn_next, sn_prev, sn_distance, sn_min, sn_range}
use mathlib.Core.Option

pub data SnResult : Type 0 where
  in_order duplicate gap resync recovered : SnResult

abbrev pub max_pending : ℕ
max_pending = 256

-- `pending` is the array's first `pending_count` elements.
pub record Tracker : Type 0 where
  pub expected : ℤ
  pub synced : Bool
  pub pending : List ℤ

pub tracker_init : ℤ → Tracker
tracker_init first_expected = record {
  expected = if sn_valid first_expected then first_expected else pos sn_min;
  synced = false;
  pending = [];
}

pub tracker_resume : ℤ → Tracker
unfolding tracker_init
tracker_resume last_received =
    if not (sn_valid last_received)
    then tracker_init (pos sn_min)
    else record (tracker_init (sn_next last_received)) { synced = true }

-- The index at which the loop of `sn_pending_take` stops.
pub find_index : ℤ → List ℤ → Option ℕ
find_index sn [] = none
find_index sn (x ∷ xs) = if eqb_ℤ x sn then some 0 else Option.map suc (find_index sn xs)

-- `pending[i] = pending[--pending_count]`.
pub swap_remove : List ℤ → ℕ → List ℤ
swap_remove xs i = let last = length xs - 1 in take last (set xs i (get_or xs last (pos 0)))

pub pending_take : List ℤ → ℤ → List ℤ × Bool
pending_take pending sn = elim (find_index sn pending) [
  | none ↦ (pending, false)
  | some i ↦ (swap_remove pending i, true)
]

-- The loop of `sn_pending_add_range`, by recursion on the free places of the array.
pub add_loop : ℕ → List ℤ → ℤ → ℤ → List ℤ × Bool
add_loop zero pending sn to = (pending, false)
add_loop (suc room) pending sn to =
    let pending' = pending ++ (sn ∷ []) in
    let rest = add_loop room pending' (sn_next sn) to in
    if eqb_ℤ sn to then (pending', true) else rest

pub pending_add_range : List ℤ → ℤ → ℤ → List ℤ × Bool
pending_add_range pending from to =
    if leb max_pending (length pending)
    then (pending, false)
    else add_loop (max_pending - length pending) pending from to

pub record Accepted : Type 0 where
  pub tracker : Tracker
  pub result : SnResult
  pub gap_from : ℤ
  pub gap_to : ℤ

-- A result that reports no gap.
abbrev pub no_gap : Tracker → SnResult → Accepted
no_gap t r = record { tracker = t; result = r; gap_from = pos 0; gap_to = pos 0 }

-- The arrival of a serial that is `dist` steps ahead of the expected one.
pub accept_ahead : Tracker → ℤ → ℤ → ℤ → Accepted
accept_ahead t sn max_gap dist =
    let (added, fits) = pending_add_range t.pending t.expected (sn_prev sn) in
    if leb_ℤ dist max_gap && fits
    then record {
      tracker = record t { pending = added; expected = sn_next sn };
      result = gap;
      gap_from = t.expected;
      gap_to = sn_prev sn;
    }
    else no_gap (record t { pending = []; expected = sn_next sn }) resync

pub accept_synced : Tracker → ℤ → ℤ → Accepted
accept_synced t sn max_gap =
    let dist = sn_distance t.expected sn in
    if eqb_ℤ dist (pos 0)
    then no_gap (record t { expected = sn_next sn }) in_order
    else if ltb_ℤ (pos (sn_range / 2)) dist
    then no_gap t duplicate
    else accept_ahead t sn max_gap dist

pub tracker_accept : Tracker → ℤ → ℤ → Accepted
tracker_accept t sn max_gap =
    if not (sn_valid sn)
    then no_gap t resync
    else let (left, taken) = pending_take t.pending sn in
      if taken
      then no_gap (record t { pending = left }) recovered
      else if not t.synced
      then no_gap (record t { synced = true; expected = sn_next sn }) in_order
      else accept_synced t sn max_gap
