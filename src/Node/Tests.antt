-- ===== src/Node/Tests.antt =====
-- A program with two friends, and the theorems applied to what it does.
use tox_relayer.Prelude.{
  ℕ, ◌≡◌, refl, ◌==◌, true, Option, none, some, List, [], ◌∷◌, ◌++◌, arith, if◌then◌else◌,
  replicate,
}
use tox_relayer.Prelude.Int.{pos}
use tox_relayer.Text.{codes, str_eq, has_byte, print_long, print_04d, digits, digits_loop}
use tox_relayer.Telegram.Tracker.{tracker_init}
use tox_relayer.Telegram.Serial.{sn_valid, sn_next}
use tox_relayer.Telegram.Encode.{
  encode_text, write_text, buf_init, buf_put, put_keys, put_body, finish, field_ok, body_ok,
  scan_body, ends_record, text_meta,
}
use tox_relayer.Telegram.Codec.Lines.{fits}
use tox_relayer.Telegram.Decode.{text, decode}
use tox_relayer.Queue.{Config, Queue, init, set_change_hook}
use tox_relayer.Queue.Bag.{Added}
use tox_relayer.Queue.Invariant.{IsConfig, IsQueue, init-IsQueue}
use tox_relayer.Database.{Sqlite, new_row}
use tox_relayer.Database.Store.{row_at}
use tox_relayer.Groups.{no_groups}
use tox_relayer.Bot.{Answers, not_opened}
use tox_relayer.Friends.{friend_number_valid, Contact, no_contact, occurs, is_prefix}
use tox_relayer.Node.{Node, no_chat_tx}
use tox_relayer.Node.Messages.{World, cb_friend_message}
use tox_relayer.Node.Messages.Apart.{Apart, cb_friend_message-Apart}
use tox_relayer.Node.Console.{evaluate_input, send_line}
use tox_relayer.Node.Console.Channel.{evaluate_input-channel}
use tox_relayer.Node.Console.Sending.{wire, send_line_lem}

abbrev pub two_slots : Config
two_slots = record {
  capacity = 2;
  payload_max = 200;
  ack_timeout = 25;
  retry_backoff = 1;
  max_attempts = 8;
}

pub two_slots-IsConfig : IsConfig two_slots
two_slots-IsConfig = record {
  some_slot = omega arith;
  some_attempt = omega arith;
  small_attempts = omega arith;
}

abbrev pub sqlite : Sqlite
sqlite = record { opened = true; schema = true; prepared = true; bound = true; failing_step = none }

abbrev pub world : World
world = record {
  config = two_slots;
  sqlite = sqlite;
  blocklist_io = record { created = true; opened = true; allocated = true };
  now = pos 100;
}

abbrev pub queue : Queue
queue = set_change_hook (init two_slots) true

abbrev friend : ℕ → List ℕ → Contact
friend i key = record no_contact {
  friend_number = i;
  public_key_str = key;
  meta_chat_flag = true;
  send_sn = pos 7;
}

abbrev pub node : Node
node = record {
  bot = record {
    start_time = 0;
    inactive_limit = 157680000;
    default_groupnum = 0;
    num_online_friends = 0;
    groups = no_groups;
    masters = none;
    events = [];
  };
  last_connected = pos 0;
  last_bootstrap = pos 0;
  blocklist = none;
  contacts = friend 0 (codes "AB") ∷ friend 1 (codes "CD") ∷ [];
  chat_tx = no_chat_tx ∷ no_chat_tx ∷ [];
  max_friend = 2;
  queue = queue;
  queue_dirty = true;
  db = record { ready = true; rows = [] };
  trackers = λ _. some (tracker_init (pos 1));
  pre_friendnumber = 1;
  relay_number = pos 0;
  self_public_key_str = codes "EF";
  hello_selfname_msg = codes "EF  METACOM";
  kept_receipt = 0;
  token = replicate 128 0;
  effects = [];
}

pub queue-IsQueue : IsQueue two_slots queue
unfolding set_change_hook
queue-IsQueue =
    let v = init-IsQueue two_slots two_slots-IsConfig in
    record { is_ring = v.is_ring; head_in = v.head_in; tail_in = v.tail_in }

abbrev pub line : List ℕ
line = codes "hi" ++ (10 ∷ [])

abbrev pub wire_size : ℕ
wire_size = 1373

-- The line is sent to friend 1 under the serial 8.
send_line_lem_example :
    let n' = send_line world wire_size line node in
    Added queue n'.queue (pos 1) (wire world two_slots-IsConfig wire_size 33 line node).out
    × (decode (some (wire world two_slots-IsConfig wire_size 33 line node).out)
        ≡ some (record {
          kind = text;
          receiver = codes "CD";
          sender = codes "EF";
          sn = sn_next (pos 7);
          sn_to = pos 0;
          timestamp = pos 100;
          body = line;
        }))
    × (row_at (pos 100) n'.db.rows
        ≡ some (
            new_row
              (pos 1)
              (sn_next (pos 7))
              (pos 100)
              (some (codes "EF"))
              (codes "outgoing")
              (some line)))
unfolding encode_text write_text buf_init buf_put put_keys put_body finish field_ok body_ok
    scan_body ends_record text_meta sn_valid sn_next has_byte str_eq print_long print_04d digits
    digits_loop fits set_change_hook init
send_line_lem_example =
    send_line_lem world two_slots-IsConfig wire_size 33 line node refl refl refl refl (omega arith)
      refl (omega arith) queue-IsQueue (omega arith) refl refl refl refl

evaluate_input-channel_example : evaluate_input 38 true (codes "/#1" ++ (10 ∷ [])) node ≡ node
unfolding occurs is_prefix
evaluate_input-channel_example =
    evaluate_input-channel 38 true (codes "/#1") node refl (omega arith)

abbrev pub peers : ℕ → Option ℕ
peers room = if room == 5 then some 3 else some 1

abbrev pub answers : Answers
answers = record {
  max_length = 1372;
  max_name_length = 128;
  key_size = 2;
  type_text = 0;
  type_av = 1;
  public_key = λ f. some (7 ∷ 8 ∷ []);
  address = 4 ∷ 5 ∷ 6 ∷ [];
  new_text_conference = some 3;
  new_av_conference = some 4;
  delete_conference = λ n. true;
  send_conference_message = λ n text. none;
  invite_to_conference = λ f n. none;
  set_conference_title = λ n text. none;
  num_chats = 0;
  chatlist = [];
  peer_count = λ n. none;
  conference_type = λ n. 0;
  friend_list_size = 2;
  curtime = 100;
  io = record { created = true; opened = true; allocated = true };
  append = not_opened;
}

cb_friend_message-Apart_example :
    Apart 1 node (cb_friend_message world answers true 0 (codes "/HELLO-0001  METACOM") 20 node)
unfolding friend_number_valid
cb_friend_message-Apart_example =
    cb_friend_message-Apart 1 world 0 (λ e. absurd (omega (arith, e))) refl answers true
      (codes "/HELLO-0001  METACOM") 20 node
