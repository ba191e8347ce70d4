-- ===== src/Bot/Profile.antt =====
-- The commands of src/commands.c on the bot's own settings.
use tox_relayer.Prelude.{
  ℕ, ◌*◌, ◌%◌, ◌^◌, not, Option, none, some, List, [], ◌∷◌, ◌++◌, if◌then◌else◌, ltb, ◌==◌, length,
}
use tox_relayer.Prelude.Int.{pos, pos_part}
use tox_relayer.Text.{codes, digits}
use tox_relayer.Misc.{starts_with, parse_int_range}
use tox_relayer.Misc.Strings.{unquote_str}
use tox_relayer.Commands.{quote}
use tox_relayer.Bot.{
  Handler, UserStatus, arg, emit, say, cut_to, authent_failed, friend_is_master, name_set,
  status_set, status_message_set, data_saved, status_none, status_away, status_busy, not_opened,
  not_written, written,
}
use tox_relayer.Bot.Rooms.{str_case_eq}

-- The bytes of a file that may not be there yet.
abbrev pub bytes_of : Option (List ℕ) → List ℕ
bytes_of none = []
bytes_of (some bytes) = bytes

unfoldable pub cmd_master : Handler
cmd_master m friendnum argc argv bot₀ =
    let (bot, master) = friend_is_master m friendnum bot₀ in
    let id = arg argv 1 in
    if not master
    then authent_failed friendnum bot
    else if ltb argc 1
    then say friendnum (codes "Error: Tox ID required") bot
    else if not (length id == length m.address * 2)
    then say friendnum (codes "Error: Invalid Tox ID") bot
    else elim m.append [
      | not_opened ↦ say friendnum (codes "Error: could not find masterkeys file") bot
      | not_written masters ↦
          say friendnum (codes "Error: could not write to masterkeys file")
            (record bot { masters = masters })
      | written ↦
          say friendnum (codes "ID added to masterkeys list")
            (record bot { masters = some (bytes_of bot.masters ++ (id ++ (10 ∷ []))) })
    ]

unfoldable pub cmd_name : Handler
cmd_name m friendnum argc argv bot₀ =
    let (bot, master) = friend_is_master m friendnum bot₀ in
    let name =
      if starts_with quote (arg argv 1)
      then unquote_str (some (arg argv 1)) m.max_name_length
      else cut_to m.max_name_length (arg argv 1) in
    if not master
    then authent_failed friendnum bot
    else if ltb argc 1
    then say friendnum (codes "Error: Name required") bot
    else emit data_saved (emit (name_set name) bot)

abbrev pub purge_days_max : ℕ
purge_days_max = 365000

abbrev pub seconds_in_day : ℕ
seconds_in_day = 86400

unfoldable pub cmd_purge : Handler
cmd_purge m friendnum argc argv bot₀ =
    let (bot, master) = friend_is_master m friendnum bot₀ in
    if not master
    then authent_failed friendnum bot
    else if ltb argc 1
    then say friendnum (codes "Error: number > 0 required") bot
    else elim (parse_int_range (some (arg argv 1)) (pos 1) (pos purge_days_max)) [
      | none ↦ say friendnum (codes "Error: number > 0 required") bot
      | some parsed_days ↦
          let days = pos_part parsed_days in
          say friendnum
            (cut_to m.max_length (codes "Purge time set to " ++ (digits days ++ codes " days")))
            (record bot { inactive_limit = days * seconds_in_day % 2 ^ 64 })
    ]

unfoldable pub user_status : List ℕ → Option UserStatus
user_status status =
    if str_case_eq status (codes "online")
    then some status_none
    else if str_case_eq status (codes "away")
    then some status_away
    else if str_case_eq status (codes "busy")
    then some status_busy
    else none

unfoldable pub cmd_status : Handler
cmd_status m friendnum argc argv bot₀ =
    let (bot, master) = friend_is_master m friendnum bot₀ in
    if not master
    then authent_failed friendnum bot
    else if ltb argc 1
    then say friendnum (codes "Error: status required") bot
    else elim (user_status (arg argv 1)) [
      | none ↦
          say friendnum (codes "Invalid status. Valid statuses are: online, busy and away.") bot
      | some status ↦ emit data_saved (emit (status_set status) bot)
    ]

unfoldable pub cmd_statusmessage : Handler
cmd_statusmessage m friendnum argc argv bot₀ =
    let (bot, master) = friend_is_master m friendnum bot₀ in
    if not master
    then authent_failed friendnum bot
    else if ltb argc 1
    then say friendnum (codes "Error: message required") bot
    else if not (starts_with quote (arg argv 1))
    then say friendnum (codes "Error: message must be enclosed in quotes") bot
    else emit data_saved
        (emit (status_message_set (unquote_str (some (arg argv 1)) m.max_length)) bot)
