-- ===== src/Relay.antt =====
-- Routing and store-and-forward policy, src/relay.h and src/relay.c. The callbacks of `relay_env` are
-- a parameter, `none` or `false` for NULL; a callback that acts on the outside is a recorded event,
-- and what the queue answers may depend on all events so far. The trackers are the relay's own state.
pub mod Deliver
pub mod Others
pub mod Gap
pub mod Storing
pub mod Serving
mod Tests
use tox_relayer.Prelude.{
  ℕ, zero, suc, ◌+◌, Bool, true, false, not, ◌&&◌, ◌||◌, Option, none, some, List, [], ◌∷◌, ◌++◌,
  if◌then◌else◌, ◌==◌, length,
}
use tox_relayer.Prelude.Int.{ℤ, pos, negsuc, ltb_ℤ, leb_ℤ, eqb_ℤ}
use tox_relayer.Text.{c_str, str_eq}
use tox_relayer.Telegram.Serial.{sn_valid, sn_min}
use tox_relayer.Telegram.Tracker.{
  Tracker, SnResult, in_order, gap, resync, tracker_accept, tracker_init, tracker_resume,
}
use tox_relayer.Telegram.Encode.{Encoded, encode_text, encode_cmd}
use tox_relayer.Telegram.Decode.{Kind, text, cmd, Message, decode}

abbrev pub wire_max : ℕ
wire_max = 1400

abbrev pub max_gap : ℤ
max_gap = pos 64

abbrev pub max_replay : ℕ
max_replay = 64

-- `relay_record`.
pub record Stored : Type 0 where
  pub sn : ℤ
  pub timestamp : ℤ
  pub body : List ℕ

pub data Outcome : Type 0 where
  stored duplicate gap_requested recovered resynced relayed no_route no_peer served nothing_stored
        discarded :
      Outcome

-- The calls of `store`, `remember_serial` and `enqueue`, the last with its answer.
pub data Event : Type 0 where
  store_called : ℤ → ℤ → ℤ → List ℕ → List ℕ → Event
  remember_called : ℤ → ℤ → Event
  enqueue_called : ℤ → List ℕ → ℤ → Event

-- `fetch_range` gives the records that it wrote, none of them where it answers zero or less.
pub record Env : Type 0 where
  pub self_public_key : Option (List ℕ)
  pub resolve_peer : Option (List ℕ → ℤ)
  pub peer_key : Option (ℤ → Option (List ℕ))
  pub peer_is_metacom : Option (ℤ → Bool)
  pub has_store : Bool
  pub has_remember_serial : Bool
  pub enqueue : Option (List Event → ℤ → List ℕ → ℤ)
  pub fetch_range : Option (ℤ → ℤ → ℤ → ℕ → List Stored)
  pub channel_known : Option (ℤ → Bool)

-- `trackers` is `none` where `tracker` is NULL or answers NULL.
pub record Relay : Type 0 where
  pub trackers : ℤ → Option Tracker
  pub events : List Event

unfoldable pub log : Relay → Event → Relay
log r e = record r { events = r.events ++ (e ∷ []) }

unfoldable pub set_tracker : Relay → ℤ → Tracker → Relay
set_tracker r channel t = record r {
  trackers = λ other. if eqb_ℤ other channel then some t else r.trackers other;
}

-- A call of `enqueue`, with its answer.
unfoldable pub send : (List Event → ℤ → List ℕ → ℤ) → Relay → ℤ → List ℕ → Relay × ℤ
send enqueue r channel payload =
    let rc = enqueue r.events channel payload in (log r (enqueue_called channel payload rc), rc)

unfoldable pub store_if : Bool → Relay → Event → Relay
store_if installed r e = if installed then log r e else r

abbrev pub is_zero : ℤ → Bool
is_zero rc = eqb_ℤ rc (pos 0)

-- The outcome of a record that was handed to the queue.
unfoldable pub sent_or : Outcome → Relay × ℤ → Relay × Outcome
sent_or good (r, rc) = (r, if is_zero rc then good else discarded)

module _ (env : Env) where
  -- `relay_request_gap` to a known peer.
  unfoldable pub request_from :
      (List Event → ℤ → List ℕ → ℤ) → Relay → ℤ → List ℕ → ℤ → ℤ → Relay × Outcome
  request_from enqueue r channel peer from to =
      let wire = encode_cmd (some wire_max) (some peer) env.self_public_key from to in
      if leb_ℤ wire.rc (pos 0)
      then (r, discarded)
      else sent_or gap_requested (send enqueue r channel wire.out)

  unfoldable pub request_gap : Relay → ℤ → ℤ → ℤ → Relay × Outcome
  request_gap r channel from to = elim env.enqueue [
    | none ↦ (r, discarded)
    | some enqueue ↦ elim env.peer_key [
      | none ↦ (r, discarded)
      | some peer_key ↦ elim (peer_key channel) [
        | none ↦ (r, no_peer)
        | some peer ↦ request_from enqueue r channel peer from to
      ]
    ]
  ]

  abbrev pub is_gap_requested : Outcome → Bool
  is_gap_requested gap_requested = true
  is_gap_requested _ = false

  -- The switch at the end of `relay_deliver`.
  unfoldable pub conclude : SnResult → Relay → ℤ → ℤ → ℤ → Relay × Outcome
  conclude gap r channel from to =
      let (r', outcome) = request_gap r channel from to in
      (r', if is_gap_requested outcome then gap_requested else stored)
  conclude SnResult.recovered r channel from to = (r, recovered)
  conclude resync r channel from to = (r, resynced)
  conclude in_order r channel from to = (r, stored)
  conclude SnResult.duplicate r channel from to = (r, stored)

  -- `relay_deliver` once the serial is accounted for.
  unfoldable pub deliver_as : SnResult → Relay → ℤ → Message → ℤ → ℤ → Relay × Outcome
  deliver_as SnResult.duplicate r channel tg from to = (r, duplicate)
  deliver_as state r channel tg from to =
      let r' =
        store_if env.has_store r (store_called channel tg.sn tg.timestamp tg.sender tg.body) in
      let r'' = store_if env.has_remember_serial r' (remember_called channel tg.sn) in
      conclude state r'' channel from to

  unfoldable pub deliver : Relay → ℤ → Message → Relay × Outcome
  deliver r channel tg = elim (r.trackers channel) [
    | none ↦ deliver_as in_order r channel tg (pos 0) (pos 0)
    | some t ↦
        let a = tracker_accept t tg.sn max_gap in
        deliver_as a.result (set_tracker r channel a.tracker) channel tg a.gap_from a.gap_to
  ]

  -- The test is on the channel that the record came from.
  unfoldable pub from_metacom : ℤ → Bool
  from_metacom channel = elim env.peer_is_metacom [
    | none ↦ false
    | some is_metacom ↦ is_metacom channel
  ]

  unfoldable pub forward_to :
      (List Event → ℤ → List ℕ → ℤ) → Relay → ℤ → ℤ → List ℕ → Message → Relay × Outcome
  forward_to enqueue r channel destination raw tg =
      let payload = if from_metacom channel then c_str raw else c_str tg.body in
      if ltb_ℤ destination (pos 0)
      then (r, no_route)
      else sent_or relayed (send enqueue r destination payload)

  unfoldable pub forward : Relay → ℤ → List ℕ → Message → Relay × Outcome
  forward r channel raw tg = elim env.resolve_peer [
    | none ↦ (r, discarded)
    | some resolve_peer ↦ elim env.enqueue [
      | none ↦ (r, discarded)
      | some enqueue ↦ forward_to enqueue r channel (resolve_peer tg.receiver) raw tg
    ]
  ]

  -- The loop of `relay_serve_replay`, with the number of records that were queued.
  unfoldable pub replay_loop :
      (List Event → ℤ → List ℕ → ℤ) → Relay → ℤ → List ℕ → List Stored → ℕ → Relay × ℕ
  replay_loop enqueue r channel peer [] queued = (r, queued)
  replay_loop enqueue r channel peer (s ∷ ss) queued =
      let wire =
        encode_text (some wire_max) (some peer) env.self_public_key s.sn s.timestamp
          (some s.body) in
      let skipped = replay_loop enqueue r channel peer ss queued in
      let (r', rc) = send enqueue r channel wire.out in
      let more =
        replay_loop enqueue r' channel peer ss (if is_zero rc then queued + 1 else queued) in
      if leb_ℤ wire.rc (pos 0) then skipped else more

  unfoldable pub serve_from :
      (List Event → ℤ → List ℕ → ℤ) → Relay → ℤ → List ℕ → List Stored → Relay × Outcome
  serve_from enqueue r channel peer [] = (r, nothing_stored)
  serve_from enqueue r channel peer (s ∷ ss) =
      let (r', queued) = replay_loop enqueue r channel peer (s ∷ ss) 0 in
      (r', if queued == 0 then nothing_stored else served)

  unfoldable pub serve_replay : Relay → ℤ → Message → Relay × Outcome
  serve_replay r channel tg = elim env.fetch_range [
    | none ↦ (r, discarded)
    | some fetch_range ↦ elim env.enqueue [
      | none ↦ (r, discarded)
      | some enqueue ↦ elim env.peer_key [
        | none ↦ (r, discarded)
        | some peer_key ↦ elim (peer_key channel) [
          | none ↦ (r, no_peer)
          | some peer ↦
              serve_from enqueue r channel peer (fetch_range channel tg.sn tg.sn_to max_replay)
        ]
      ]
    ]
  ]

  unfoldable pub route : Kind → List ℕ → Relay → ℤ → List ℕ → Message → Relay × Outcome
  route text self r channel raw tg =
      if str_eq tg.receiver self then deliver r channel tg else forward r channel raw tg
  route cmd self r channel raw tg =
      if not (str_eq tg.receiver self) then (r, discarded) else serve_replay r channel tg

  -- `relay_receive` of the first `len` bytes, `none` for NULL.
  unfoldable pub receive : Relay → ℤ → Option (List ℕ) → Relay × Outcome
  receive r channel none = (r, discarded)
  receive r channel (some raw) = elim env.self_public_key [
    | none ↦ (r, discarded)
    | some self ↦
        if length raw == 0 || ltb_ℤ channel (pos 0)
        then (r, discarded)
        else elim (decode (some raw)) [
          | none ↦ (r, discarded)
          | some tg ↦ route tg.kind self r channel raw tg
        ]
  ]

  -- One channel of `relay_recover_trackers`, with the serial that the database knows.
  unfoldable pub recover_channel : (ℤ → Option ℤ) → Relay → ℤ → Relay × ℕ
  recover_channel last_sn r channel = elim (r.trackers channel) [
    | none ↦ (r, 0)
    | some t ↦ elim (last_sn channel) [
      | none ↦ (set_tracker r channel (tracker_init (pos sn_min)), 0)
      | some sn ↦ (set_tracker r channel (tracker_resume sn), if sn_valid sn then 1 else 0)
    ]
  ]

  unfoldable pub is_known : ℤ → Bool
  is_known channel = elim env.channel_known [
    | none ↦ true
    | some channel_known ↦ channel_known channel
  ]

  -- The loop from `channel` on, over `left` channels.
  unfoldable pub recover_loop : (ℤ → Option ℤ) → ℕ → ℕ → Relay → ℕ → Relay × ℕ
  recover_loop last_sn zero channel r found = (r, found)
  recover_loop last_sn (suc left) channel r found =
      let (r', one) = recover_channel last_sn r (pos channel) in
      let known = recover_loop last_sn left (channel + 1) r' (found + one) in
      let skipped = recover_loop last_sn left (channel + 1) r found in
      if is_known (pos channel) then known else skipped

  -- `relay_recover_trackers` with a `last_sn` that answers `none` for an error.
  unfoldable pub recover_trackers : (ℤ → Option ℤ) → ℤ → Relay → Relay × ℕ
  recover_trackers last_sn (pos channels) r = recover_loop last_sn channels 0 r 0
  recover_trackers last_sn (negsuc _) r = (r, 0)
