-- ===== src/Node/Messages.antt =====
-- The callbacks of src/toxrelayer.c for friends: messages, receipts, requests and connections.
pub mod Apart
use tox_relayer.Prelude.{
  ℕ, Bool, true, false, not, ◌&&◌, Option, none, some, List, [], ◌∷◌, ◌++◌, if◌then◌else◌, ◌==◌,
  ◌+◌, length, set, get_or,
}
use tox_relayer.Prelude.Int.{ℤ, pos, negsuc, eqb_ℤ}
use tox_relayer.Text.{codes, c_str, to_int}
use tox_relayer.Misc.{starts_with}
use tox_relayer.Misc.KeyFile.{FileIo}
use tox_relayer.Queue.{Config, confirm}
use tox_relayer.Database.{Sqlite, msg_database_add}
use tox_relayer.Bot.{Answers, Bot, say}
use tox_relayer.Bot.Execute.{execute}
use tox_relayer.Friends.{
  Contact, no_contact, contact_at, friend_number_valid, occurs, public_key_is_blocked,
}
use tox_relayer.Node.{
  Node, Effect, friend_deleted, friend_added, friend_message_sent, data_saved, ini_put, act,
  copy_tox_str, print_03d, touch, touch_all, with_queue,
}
use tox_relayer.Node.Relaying.{relayed}

-- What does not change while the program runs, or is answered to every callback alike: the queue's
-- configuration, SQLite, the blocklist's calls, the time.
pub record World : Type 0 where
  pub config : Config
  pub sqlite : Sqlite
  pub blocklist_io : FileIo
  pub now : ℤ

-- A peer that says it speaks metaCom.
unfoldable pub meta_hello : ℕ → Node → Node
meta_hello friendnumber n =
    act (ini_put (codes "meta_chat_flag") (codes "meta" ++ print_03d friendnumber) (codes "1"))
      (record n {
        contacts =
            set n.contacts friendnumber
              (record (contact_at n.contacts (pos friendnumber)) { meta_chat_flag = true });
      })

abbrev pub is_hello : List ℕ → Bool
is_hello message = occurs (codes "/HELLO") message && occurs (codes "METACOM") message

-- A message that starts with `/`.
unfoldable pub command_message : Answers → ℕ → List ℕ → ℕ → Node → Node
command_message m friendnumber message length n =
    let (bot, rc) = execute m friendnumber message length n.bot in
    if is_hello message
    then meta_hello friendnumber n
    else if length == 0
    then n
    else if eqb_ℤ rc (negsuc 0)
    then record n {
      bot =
          say friendnumber (codes ">> Invalid command to server. Type help for a list of commands")
            bot;
    }
    else record n { bot = bot }

-- Any other message: a telegram goes to the relay, a text without "ZCZC" to the database.
unfoldable pub text_message : World → ℕ → List ℕ → Node → Node
text_message w friendnumber message n =
    if not (occurs (codes "ZCZC") message)
    then record n {
      db =
          (msg_database_add w.sqlite (pos friendnumber) (pos 0) w.now
            (some (contact_at n.contacts (pos friendnumber)).public_key_str)
            (some (codes "incoming")) (some message) n.db).0;
    }
    else (relayed w.config w.sqlite w.now (pos friendnumber) message n).0

-- `cb_friend_message` of a message that is not dropped.
unfoldable pub friend_message : World → Answers → ℕ → List ℕ → ℕ → Node → Node
friend_message w m friendnumber string length n =
    let (bytes, len) = copy_tox_str m.max_length string length in
    let n' = touch friendnumber w.now (record n { pre_friendnumber = friendnumber }) in
    if starts_with 47 bytes
    then command_message m friendnumber (c_str bytes) len n'
    else text_message w friendnumber (c_str bytes) n'

-- `normal` is whether the type is TOX_MESSAGE_TYPE_NORMAL.
unfoldable pub cb_friend_message : World → Answers → Bool → ℕ → List ℕ → ℕ → Node → Node
cb_friend_message w m normal friendnumber string length n =
    if not normal
    then n
    else if not (friend_number_valid friendnumber)
    then n
    else elim (m.public_key friendnumber) [
      | none ↦ n
      | some public_key ↦
          let (file, blocked) =
            public_key_is_blocked m.key_size w.blocklist_io public_key n.blocklist in
          let n' = record n { blocklist = file } in
          if blocked
          then act (friend_deleted friendnumber) n'
          else friend_message w m friendnumber string length n'
    ]

-- `receipt_display`.
unfoldable pub receipt_display : ℕ → Node → Node
receipt_display receipt n = if n.kept_receipt == receipt then record n { kept_receipt = 0 } else n

unfoldable pub cb_friend_read_receipt : World → ℕ → ℕ → Node → Node
cb_friend_read_receipt w friendnumber receipt n =
    receipt_display receipt
      (with_queue (confirm w.config n.queue (to_int (pos friendnumber)) (to_int (pos receipt))).0 n)

-- `TOX_CONNECTION`.
pub data Connection : Type 0 where
  connection_none connection_tcp connection_udp : Connection

unfoldable pub cb_self_connection_change : ℤ → Connection → Node → Node
cb_self_connection_change now connection_none n = record n { last_bootstrap = now }
cb_self_connection_change now connection_tcp n =
    touch_all n.max_friend now (record n { last_connected = now })
cb_self_connection_change now connection_udp n =
    touch_all n.max_friend now (record n { last_connected = now })

unfoldable pub count_online : (ℕ → Bool) → List ℕ → ℕ
count_online online [] = 0
count_online online (f ∷ fs) =
    let rest = count_online online fs in if online f then rest + 1 else rest

-- `friends` is toxcore's list of friends, `online` whether one is connected.
unfoldable pub cb_friend_connection_change : (ℕ → Bool) → List ℕ → ℕ → Node → Node
cb_friend_connection_change online friends friendnumber n =
    let count =
      if length friends == 0
      then 0
      else if not (friend_number_valid friendnumber)
      then 0
      else count_online online friends in
    record n { bot = record (n.bot) { num_online_friends = count } }
