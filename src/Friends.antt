-- ===== src/Friends.antt =====
-- The half of src/toxrelayer.c that serves the relay and the queue: the table of friends, the
-- callbacks of src/relay.h, the transport, and the checks around them. A C string that may be NULL is an
-- option; what toxcore and the file system answer is a parameter.
pub mod Lookup
mod Tests
use tox_relayer.Prelude.{
  ℕ, zero, suc, ◌+◌, ◌-◌, ◌*◌, ◌%◌, ◌^◌, Bool, true, false, not, ◌&&◌, ◌||◌, Option, none, some,
  List, [], ◌∷◌, ◌++◌, map, if◌then◌else◌, ltb, leb, ◌==◌, length, take, get_or,
}
use tox_relayer.Prelude.Int.{ℤ, pos, negsuc, leb_ℤ, ltb_ℤ, eqb_ℤ, pos_part}
use tox_relayer.Text.{codes, to_int}
use tox_relayer.Misc.{timed_out}
use tox_relayer.Misc.KeyFile.{FileIo, file_contains_key}
use tox_relayer.Queue.Service.{send_fatal}
use tox_relayer.Database.{
  Database, Sqlite, ChatMsgRecord, msg_database_add, msg_database_range, msg_database_last_sn,
}
use tox_relayer.Relay.{Stored, max_replay}

abbrev pub max_friend_num : ℕ
max_friend_num = 4096

-- An entry of `relay_name_list`.
pub record Contact : Type 0 where
  pub friend_number : ℕ
  pub public_key_str : List ℕ
  pub nick_name : List ℕ
  pub line_connect : Bool
  pub meta_chat_flag : Bool
  pub send_sn : ℤ
  pub receive_sn : ℤ

-- An entry that was never written.
abbrev pub no_contact : Contact
no_contact = record {
  friend_number = 0;
  public_key_str = [];
  nick_name = [];
  line_connect = false;
  meta_chat_flag = false;
  send_sn = pos 0;
  receive_sn = pos 0;
}

-- `(uint32_t)` of an `int`.
abbrev pub to_uint32 : ℤ → ℕ
to_uint32 (pos n) = n % 2 ^ 32
to_uint32 (negsuc n) = 2 ^ 32 - 1 - n % 2 ^ 32

unfoldable pub friend_number_valid : ℕ → Bool
friend_number_valid friendnumber = ltb friendnumber max_friend_num

unfoldable pub is_prefix : List ℕ → List ℕ → Bool
is_prefix [] s = true
is_prefix (_ ∷ _) [] = false
is_prefix (a ∷ as') (c ∷ cs) = a == c && is_prefix as' cs

-- `strstr(s, text) != NULL`.
unfoldable pub occurs : List ℕ → List ℕ → Bool
occurs text [] = is_prefix text []
occurs text (c ∷ cs) = is_prefix text (c ∷ cs) || occurs text cs

-- The loop of `lookup_ch_num` from entry `i` on.
unfoldable pub lookup_from : ℕ → List Contact → List ℕ → ℤ
lookup_from i [] public_key = negsuc 0
lookup_from i (c ∷ cs) public_key =
    let rest = lookup_from (suc i) cs public_key in
    if occurs c.public_key_str public_key then pos i else rest

unfoldable pub lookup_ch_num : List Contact → List ℕ → ℤ
lookup_ch_num contacts public_key = lookup_from 0 contacts public_key

abbrev pub contact_at : List Contact → ℤ → Contact
contact_at contacts channel = get_or contacts (to_uint32 channel) no_contact

unfoldable pub relay_resolve_peer : List Contact → List ℕ → ℤ
relay_resolve_peer contacts public_key_hex = lookup_ch_num contacts public_key_hex

unfoldable pub relay_peer_key : List Contact → ℤ → Option (List ℕ)
relay_peer_key contacts channel =
    if not (friend_number_valid (to_uint32 channel))
    then none
    else some (contact_at contacts channel).public_key_str

unfoldable pub relay_peer_is_metacom : List Contact → ℤ → Bool
relay_peer_is_metacom contacts channel =
    friend_number_valid (to_uint32 channel) && (contact_at contacts channel).meta_chat_flag

unfoldable pub relay_channel_known : List Contact → ℤ → Bool
relay_channel_known contacts channel =
    friend_number_valid (to_uint32 channel)
    && not (length (contact_at contacts channel).public_key_str == 0)

unfoldable pub relay_store :
    Sqlite → ℤ → ℤ → ℤ → Option (List ℕ) → Option (List ℕ) → Database → Database × ℤ
relay_store s channel sn timestamp sender body db =
    msg_database_add s channel sn timestamp sender (some (codes "incoming")) body db

abbrev pub relay_body_max : ℕ
relay_body_max = 1024

unfoldable pub as_stored : ChatMsgRecord → Stored
as_stored r = record {
  sn = pos r.msg_sn;
  timestamp = r.datetime;
  body = take (relay_body_max - 1) r.message;
}

-- The records; none where the code is not positive.
unfoldable pub relay_fetch_range : Sqlite → Database → ℤ → ℤ → ℤ → ℕ → List Stored
relay_fetch_range s db channel from to max =
    let (records, n) =
      msg_database_range s channel (some (codes "outgoing")) from to
        (pos (if ltb max max_replay then max else max_replay)) db in
    if leb_ℤ n (pos 0) then [] else map as_stored records

-- The value and the answer 0 or -1.
unfoldable pub relay_last_stored_sn : Sqlite → ℤ → Database → Option ℕ × ℤ
relay_last_stored_sn s channel db =
    let (value, code) = msg_database_last_sn s channel (some (codes "incoming")) db in
    (value, if eqb_ℤ code (pos 0) then pos 0 else negsuc 0)

-- What toxcore answers the transport: whether the friend is connected, and the receipt of a message.
pub record Network : Type 0 where
  pub connected : ℕ → Bool
  pub send : ℕ → List ℕ → Option ℕ

unfoldable pub tox_transport : Network → ℤ → Option (List ℕ) → ℤ
tox_transport m friendnum none = send_fatal
tox_transport m friendnum (some payload) =
    if ltb_ℤ friendnum (pos 0) || not (friend_number_valid (to_uint32 friendnum))
    then send_fatal
    else if not (m.connected (to_uint32 friendnum))
    then negsuc 1
    else elim (m.send (to_uint32 friendnum) payload) [
      | none ↦ negsuc 1
      | some receipt ↦ to_int (pos receipt)
    ]

-- `public_key_is_blocked`, with the blocklist file afterwards.
unfoldable pub public_key_is_blocked :
    ℕ → FileIo → List ℕ → Option (List ℕ) → Option (List ℕ) × Bool
public_key_is_blocked key_size io public_key file = file_contains_key key_size io public_key file

abbrev group_purge_interval : ℕ
group_purge_interval = 60 * 10

abbrev group_purge_connect_timeout : ℕ
group_purge_connect_timeout = 60 * 60

unfoldable pub check_group_purge : ℤ → ℤ → Bool → ℤ → Bool
check_group_purge last_group_purge cur_time connected last_connected =
    if not (timed_out last_group_purge cur_time group_purge_interval)
    then false
    else if not connected
    then false
    else if not (timed_out last_connected cur_time group_purge_connect_timeout)
    then false
    else true

-- Which of the two files are there, and the answer; `renamed` is what `rename` would answer.
pub record SaveFiles : Type 0 where
  pub legacy : Bool
  pub current : Bool

unfoldable pub legacy_data_file_rename : Bool → SaveFiles → SaveFiles × ℤ
legacy_data_file_rename renamed files =
    if not files.legacy
    then (files, pos 0)
    else if files.current
    then (files, negsuc 0)
    else if not renamed
    then (files, negsuc 1)
    else (record { legacy = false; current = true }, pos 0)
