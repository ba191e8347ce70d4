-- ===== src/Relay/Tests.antt =====
-- A relay with one metaCom peer, and the theorems applied there.
use tox_relayer.Prelude.{ℕ, ◌≡◌, ◌≢◌, ◌⊎◌, refl, true, Option, none, some, List, [], some_inj, sym}
use tox_relayer.Prelude.Int.{ℤ, pos}
use tox_relayer.Text.{codes, has_byte, print_long, digits_loop}
use tox_relayer.Telegram.Serial.{sn_valid}
use tox_relayer.Telegram.Tracker.{SnResult, tracker_accept, tracker_init}
use tox_relayer.Telegram.Tracker.Accept.{tracker_init-IsTracker}
use tox_relayer.Telegram.Encode.{
  encode_cmd, write_cmd, buf_init, buf_put, put_keys, finish, field_ok, cmd_request,
}
use tox_relayer.Telegram.Decode.{Message, text}
use tox_relayer.Relay.{
  Relay, Env, Outcome, receive, deliver, request_gap, request_from, sent_or, send, log, max_gap,
}
use tox_relayer.Relay.Deliver.{AllTrackers, receive-AllTrackers}
use tox_relayer.Relay.Gap.{Asked, request_gap-Asked}
use tox_relayer.Relay.Storing.{StoredOnce, deliver_lem}

abbrev own_key : List ℕ
own_key = codes "AA"

abbrev peer_name : List ℕ
peer_name = codes "BB"

abbrev directory : ℤ → Option (List ℕ)
directory channel = some peer_name

abbrev env : Env
env = record {
  self_public_key = some own_key;
  resolve_peer = some (λ key. pos 1);
  peer_key = some directory;
  peer_is_metacom = some (λ channel. true);
  has_store = true;
  has_remember_serial = true;
  enqueue = some (λ events channel payload. pos 0);
  fetch_range = some (λ channel from to max. []);
  channel_known = none;
}

abbrev fresh : Relay
fresh = record { trackers = λ channel. some (tracker_init (pos 1)); events = [] }

abbrev telegram : Message
telegram = record {
  kind = text;
  receiver = own_key;
  sender = peer_name;
  sn = pos 5;
  sn_to = pos 0;
  timestamp = pos 100;
  body = codes "hi";
}

fresh-AllTrackers : AllTrackers fresh
fresh-AllTrackers channel t e =
    rw (sym (some_inj (tracker_init (pos 1)) t e)) (tracker_init-IsTracker (pos 1))

receive-AllTrackers_example :
    AllTrackers (receive env fresh (pos 3) (some (codes "ZCZC TEXT\nAA\nBB\n0005 100\nhiNNNN\n"))).0
receive-AllTrackers_example =
    receive-AllTrackers env fresh (pos 3) (some (codes "ZCZC TEXT\nAA\nBB\n0005 100\nhiNNNN\n"))
      fresh-AllTrackers

request_gap-Asked_example :
    Asked fresh
      (request_gap env fresh (pos 3) (pos 2) (pos 4)).0
      (pos 3)
      peer_name
      own_key
      (pos 2)
      (pos 4)
unfolding request_gap request_from sent_or send log encode_cmd write_cmd buf_init buf_put put_keys
    finish field_ok cmd_request sn_valid has_byte print_long digits_loop
request_gap-Asked_example =
    request_gap-Asked env fresh (pos 3) own_key peer_name directory (pos 2) (pos 4) refl refl refl
      refl refl refl

deliver_lem_example :
    let s = (tracker_accept (tracker_init (pos 1)) (pos 5) max_gap).result in
    let (r', outcome) = deliver env fresh (pos 3) telegram in
    ((s ≡ SnResult.duplicate) × (outcome ≡ Outcome.duplicate) × (r'.events ≡ []))
    ⊎ ((s ≢ SnResult.duplicate) × StoredOnce s fresh r' (pos 3) telegram)
deliver_lem_example = deliver_lem env refl refl fresh (pos 3) telegram (tracker_init (pos 1)) refl
