-- ===== src/Bot.antt =====
-- The bot that the commands act on: `Tox_Bot` of src/toxrelayer.h, the masters file, what a command
-- makes toxcore do, and the helpers at the top of src/commands.c. Calls of the log are left out.
pub mod Rooms
pub mod Profile
pub mod Info
pub mod Execute
pub mod Rights
pub mod Invites
pub mod Masters
mod Tests
use tox_relayer.Prelude.{
  ℕ, zero, suc, ◌+◌, ◌-◌, Bool, true, false, not, ◌&&◌, Option, none, some, List, [], ◌∷◌, ◌++◌,
  map, if◌then◌else◌, ltb, leb, ◌==◌, length, take, get_or,
}
use tox_relayer.Prelude.Int.{ℤ, pos, negsuc, pos_part}
use tox_relayer.Text.{codes, print_long, str_eq}
use tox_relayer.Misc.{parse_int_range}
use tox_relayer.Misc.KeyFile.{FileIo, file_contains_key}
use tox_relayer.Groups.{Groups}
use mathlib.Core.Option

-- `TOX_USER_STATUS`, as far as the commands use it.
pub data UserStatus : Type 0 where
  status_none : UserStatus
  status_away : UserStatus
  status_busy : UserStatus

-- What a command makes toxcore and the file system do, in order.
pub data Event : Type 0 where
  message_sent : (friendnum : ℕ) (text : List ℕ) → Event
  conference_message_sent : (groupnum : ℕ) (text : List ℕ) → Event
  conference_invited : (friendnum groupnum : ℕ) → Event
  conference_created : (groupnum : ℕ) → Event
  conference_deleted : (groupnum : ℕ) → Event
  title_set : (groupnum : ℕ) (text : List ℕ) → Event
  name_set : (text : List ℕ) → Event
  status_set : UserStatus → Event
  status_message_set : (text : List ℕ) → Event
  data_saved : Event

-- What became of the masters file when a line was appended to it.
pub data Appended : Type 0 where
  not_opened : Appended
  not_written : (masters : Option (List ℕ)) → Appended
  written : Appended

-- What toxcore and the system answer while a command runs. An error is the number of its
-- `TOX_ERR_...`; `none` is success there.
pub record Answers : Type 0 where
  pub max_length : ℕ
  pub max_name_length : ℕ
  pub key_size : ℕ
  pub type_text : ℕ
  pub type_av : ℕ
  pub public_key : ℕ → Option (List ℕ)
  pub address : List ℕ
  pub new_text_conference : Option ℕ
  pub new_av_conference : Option ℕ
  pub delete_conference : ℕ → Bool
  pub send_conference_message : ℕ → List ℕ → Option ℕ
  pub invite_to_conference : ℕ → ℕ → Option ℕ
  pub set_conference_title : ℕ → List ℕ → Option ℕ
  pub num_chats : ℕ
  pub chatlist : List ℕ
  pub peer_count : ℕ → Option ℕ
  pub conference_type : ℕ → ℕ
  pub friend_list_size : ℕ
  pub curtime : ℕ
  pub io : FileIo
  pub append : Appended

-- The parts of `Tox_Bot` that the commands read or write, the masters file (`none` where there is
-- none), and what was done so far.
pub record Bot : Type 0 where
  pub start_time : ℕ
  pub inactive_limit : ℕ
  pub default_groupnum : ℕ
  pub num_online_friends : ℕ
  pub groups : Groups
  pub masters : Option (List ℕ)
  pub events : List Event

-- A handler sees the answers, the friend, `argc`, `argv` and the bot.
abbrev pub Handler : Type 0
Handler = Answers → ℕ → ℕ → List (List ℕ) → Bot → Bot

abbrev pub arg : List (List ℕ) → ℕ → List ℕ
arg argv i = get_or argv i []

unfoldable pub emit : Event → Bot → Bot
emit e bot = record bot { events = bot.events ++ (e ∷ []) }

-- `tox_friend_send_message` of a text that is sent as it is.
unfoldable pub say : ℕ → List ℕ → Bot → Bot
say friendnum text bot = emit (message_sent friendnum text) bot

-- The text that `snprintf` leaves in a buffer of that size.
abbrev pub cut_to : ℕ → List ℕ → List ℕ
cut_to size text = take (size - 1) text

unfoldable pub authent_failed : ℕ → Bot → Bot
authent_failed friendnum bot =
    say friendnum (codes "You do not have permission to use this command.") bot

unfoldable pub send_error : Answers → ℕ → List ℕ → ℕ → Bot → Bot
send_error m friendnum message err bot =
    say friendnum
      (cut_to m.max_length (message ++ (codes " (error " ++ (print_long (pos err) ++ codes ")"))))
      bot

abbrev int_max : ℤ
int_max = pos 2147483647

unfoldable pub parse_group_number : List ℕ → Option ℕ
parse_group_number text = Option.map pos_part (parse_int_range (some text) (pos 0) int_max)

-- The masters file is read, and is created where there is none.
unfoldable pub friend_is_master : Answers → ℕ → Bot → Bot × Bool
friend_is_master m friendnum bot = elim (m.public_key friendnum) [
  | none ↦ (bot, false)
  | some key ↦
      let (masters, found) = file_contains_key m.key_size m.io key bot.masters in
      (record bot { masters = masters }, found)
]
