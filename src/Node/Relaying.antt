-- ===== src/Node/Relaying.antt =====
-- The relay of src/relay.c filled with the callbacks of src/toxrelayer.c: the relay's environment, and
-- what the callbacks that act do to the program's state.
use tox_relayer.Prelude.{
  ℕ, Bool, true, false, Option, none, some, List, [], ◌∷◌, ◌++◌, if◌then◌else◌, length,
}
use tox_relayer.Prelude.Int.{ℤ, pos, negsuc, pos_part}
use tox_relayer.Text.{codes, print_04d}
use tox_relayer.Queue.{Config, Queue, Status, ok, err_range, err_full, err_notfound, enqueue}
use tox_relayer.Database.{Database, Sqlite}
use tox_relayer.Friends.{
  relay_resolve_peer, relay_peer_key, relay_peer_is_metacom, relay_channel_known, relay_store,
  relay_fetch_range, to_uint32, friend_number_valid,
}
use tox_relayer.Telegram.Tracker.{Tracker}
use tox_relayer.Relay.{
  Event, store_called, remember_called, enqueue_called, Env, Relay, Outcome, receive,
}
use tox_relayer.Node.{Node, Effect, ini_put, act, print_03d, with_queue}

abbrev pub is_ok : Status → Bool
is_ok ok = true
is_ok err_range = false
is_ok err_full = false
is_ok err_notfound = false

-- The queue, the database and the effects after the calls that the relay made, in order.
unfoldable pub queue_after : Config → ℤ → Queue → List Event → Queue
queue_after c now q [] = q
queue_after c now q (store_called channel sn timestamp sender body ∷ es) = queue_after c now q es
queue_after c now q (remember_called channel sn ∷ es) = queue_after c now q es
queue_after c now q (enqueue_called channel payload rc ∷ es) =
    queue_after c now (enqueue c q channel (some payload) (length payload) now).0 es

unfoldable pub db_after : Sqlite → Database → List Event → Database
db_after s db [] = db
db_after s db (store_called channel sn timestamp sender body ∷ es) =
    db_after s (relay_store s channel sn timestamp (some sender) (some body) db).0 es
db_after s db (remember_called channel sn ∷ es) = db_after s db es
db_after s db (enqueue_called channel payload rc ∷ es) = db_after s db es

unfoldable pub relay_remember_serial : ℤ → ℤ → Effect
relay_remember_serial channel sn =
    ini_put (codes "incoming_sn") (codes "recev" ++ print_03d (pos_part channel)) (print_04d sn)

unfoldable pub remember_all : List Event → Node → Node
remember_all [] n = n
remember_all (store_called channel sn timestamp sender body ∷ es) n = remember_all es n
remember_all (remember_called channel sn ∷ es) n =
    remember_all es (act (relay_remember_serial channel sn) n)
remember_all (enqueue_called channel payload rc ∷ es) n = remember_all es n

-- `relay_enqueue` after the calls `es`.
unfoldable pub relay_enqueue : Config → ℤ → Queue → List Event → ℤ → List ℕ → ℤ
relay_enqueue c now q es channel payload =
    let (q', status) =
      enqueue c (queue_after c now q es) channel (some payload) (length payload) now in
    if is_ok status then pos 0 else negsuc 0

-- `relay_tracker`: no tracker for a channel out of range.
unfoldable pub relay_tracker : (ℤ → Option Tracker) → ℤ → Option Tracker
relay_tracker trackers channel =
    if friend_number_valid (to_uint32 channel) then trackers channel else none

-- What `relay_init` installs. A telegram that is stored is never asked for by the same record, so
-- `fetch_range` reads the database as it was.
unfoldable pub relay_init : Config → Sqlite → ℤ → Node → Env
relay_init c s now n = record {
  self_public_key = some n.self_public_key_str;
  resolve_peer = some (relay_resolve_peer n.contacts);
  peer_key = some (relay_peer_key n.contacts);
  peer_is_metacom = some (relay_peer_is_metacom n.contacts);
  has_store = true;
  has_remember_serial = true;
  enqueue = some (relay_enqueue c now n.queue);
  fetch_range = some (relay_fetch_range s n.db);
  channel_known = some (relay_channel_known n.contacts);
}

-- What a run of the relay left behind, carried over to the program.
unfoldable pub carry : Config → Sqlite → ℤ → Relay → Node → Node
carry c s now r n = remember_all r.events (
    with_queue (queue_after c now n.queue r.events)
      (record n { trackers = r.trackers; db = db_after s n.db r.events }))

-- A call of `relay_receive` on the first bytes of a record.
unfoldable pub relayed : Config → Sqlite → ℤ → ℤ → List ℕ → Node → Node × Outcome
relayed c s now channel raw n =
    let (r, outcome) =
      receive (relay_init c s now n) (record { trackers = relay_tracker n.trackers; events = [] })
        channel (some raw) in
    (carry c s now r n, outcome)
