-- ===== src/Node.antt =====
-- The running program of src/toxrelayer.c: its static variables as one record, and the helpers that
-- its callbacks share. What toxcore, the clock and minIni answer is a parameter; what a callback
-- makes them do is a recorded effect. A command's own effects are the events of its `Bot`.
pub mod Relaying
pub mod Messages
pub mod Contacts
pub mod Rooms
pub mod Profile
pub mod Console
pub mod Options
pub mod Loop
pub mod Peers
mod Tests
use tox_relayer.Prelude.{
  ℕ, zero, suc, ◌+◌, ◌-◌, ◌*◌, ◌%◌, ◌^◌, Bool, true, false, not, ◌&&◌, ◌||◌, Option, none, some,
  List, [], ◌∷◌, ◌++◌, if◌then◌else◌, ltb, ◌==◌, length, take, set, get_or, replicate,
}
use tox_relayer.Prelude.Int.{ℤ, pos, negsuc}
use tox_relayer.Text.{codes, digits}
use tox_relayer.Queue.{Event, drop_called, change_called, Queue}
use tox_relayer.Telegram.Tracker.{Tracker}
use tox_relayer.Database.{Database}
use tox_relayer.Bot.{Bot}
use tox_relayer.Friends.{Contact}

-- The fields of `struct Chat_TX_Control` that the program uses.
pub record ChatTxControl : Type 0 where
  pub last_msg_tx : ℤ
  pub hello_counter : ℕ

-- What a callback makes toxcore and minIni do, in order.
pub data Effect : Type 0 where
  friend_message_sent : (friendnum : ℕ) (text : List ℕ) → Effect
  friend_deleted : (friendnum : ℕ) → Effect
  friend_added : (public_key : List ℕ) → Effect
  friend_requested : (address : Option (List ℕ)) (message : List ℕ) → Effect
  conference_deleted : (groupnum : ℕ) → Effect
  ini_put : (section key value : List ℕ) → Effect
  name_set : (name : List ℕ) → Effect
  data_saved : Effect
  bootstrapped : Effect

-- The static variables. `blocklist` is the blocklist file, `none` where there is none; a tracker is
-- `none` where a channel is out of range.
pub record Node : Type 0 where
  pub bot : Bot
  pub last_connected : ℤ
  pub last_bootstrap : ℤ
  pub blocklist : Option (List ℕ)
  pub contacts : List Contact
  pub chat_tx : List ChatTxControl
  pub max_friend : ℕ
  pub queue : Queue
  pub queue_dirty : Bool
  pub db : Database
  pub trackers : ℤ → Option Tracker
  pub pre_friendnumber : ℕ
  pub relay_number : ℤ
  pub self_public_key_str : List ℕ
  pub hello_selfname_msg : List ℕ
  pub kept_receipt : ℕ
  pub token : List ℕ
  pub effects : List Effect

unfoldable pub act : Effect → Node → Node
act e n = record n { effects = n.effects ++ (e ∷ []) }

-- `%03d` of an `int` that is not negative.
unfoldable pub print_03d : ℕ → List ℕ
print_03d n = let d = digits n in replicate (3 - length d) b'0' ++ d

-- The text and the answer of `copy_tox_str`; `length` is a `uint16_t` there, and `size` is not 0.
unfoldable pub copy_tox_str : ℕ → List ℕ → ℕ → List ℕ × ℕ
copy_tox_str size src_data length =
    let len = if ltb (length % 2 ^ 16) (size - 1) then length % 2 ^ 16 else size - 1 in
    (take len src_data, len)

-- Whether the change hook was called.
unfoldable pub has_change : List Event → Bool
has_change [] = false
has_change (drop_called friendnum attempts ∷ es) = has_change es
has_change (change_called ∷ es) = true

-- The queue that an operation left behind: `on_queue_changed` has set `g_queue_dirty` where the hook
-- was called.
unfoldable pub with_queue : Queue → Node → Node
with_queue q n = record n {
  queue = record q { events = [] };
  queue_dirty = n.queue_dirty || has_change q.events;
}

abbrev pub no_chat_tx : ChatTxControl
no_chat_tx = record { last_msg_tx = pos 0; hello_counter = 0 }

abbrev pub chat_tx_at : List ChatTxControl → ℕ → ChatTxControl
chat_tx_at txs i = get_or txs i no_chat_tx

-- `chat_tx_Control[friendnum].last_msg_tx = now`; the index is in range where the source writes.
unfoldable pub touch : ℕ → ℤ → Node → Node
touch friendnum now n = record n {
  chat_tx = set n.chat_tx friendnum (record (chat_tx_at n.chat_tx friendnum) { last_msg_tx = now });
}

-- The loop of `cb_self_connection_change`.
unfoldable pub touch_all : ℕ → ℤ → Node → Node
touch_all zero now n = n
touch_all (suc i) now n = touch i now (touch_all i now n)
