-- ===== src/Bot/Rooms.antt =====
-- The commands on group chats, of src/commands.c.
use tox_relayer.Prelude.{
  ℕ, ◌+◌, ◌-◌, Bool, true, false, not, ◌&&◌, ◌||◌, Option, none, some, List, [], ◌∷◌, ◌++◌,
  if◌then◌else◌, ltb, leb, ◌==◌, length, take, set,
}
use tox_relayer.Prelude.Int.{ℤ, pos}
use tox_relayer.Text.{codes, digits, print_long, to_int, str_eq}
use tox_relayer.Misc.{starts_with}
use tox_relayer.Misc.Strings.{unquote_str}
use tox_relayer.Commands.{quote}
use tox_relayer.Groups.{
  Group, group_at, group_add, group_leave, group_index, max_password_size, is_some,
}
use tox_relayer.Bot.{
  Answers, Bot, Handler, arg, emit, say, cut_to, authent_failed, send_error, parse_group_number,
  friend_is_master, conference_message_sent, conference_invited, conference_created,
  conference_deleted, title_set,
}

abbrev pub lower : ℕ → ℕ
lower c = if leb 65 c && leb c 90 then c + 32 else c

-- `strcasecmp(a, b) == 0`.
unfoldable pub str_case_eq : List ℕ → List ℕ → Bool
str_case_eq [] [] = true
str_case_eq [] (_ ∷ _) = false
str_case_eq (_ ∷ _) [] = false
str_case_eq (a ∷ as') (b ∷ bs) = lower a == lower b && str_case_eq as' bs

unfoldable pub cmd_default : Handler
cmd_default m friendnum argc argv bot₀ =
    let (bot, master) = friend_is_master m friendnum bot₀ in
    if not master
    then authent_failed friendnum bot
    else if ltb argc 1
    then say friendnum (codes "Error: Room number required") bot
    else elim (parse_group_number (arg argv 1)) [
      | none ↦ say friendnum (codes "Error: Invalid room number") bot
      | some groupnum ↦
          say friendnum
            (cut_to m.max_length (codes "Default room number set to " ++ digits groupnum))
            (record bot { default_groupnum = groupnum })
    ]

unfoldable pub cmd_gmessage : Handler
cmd_gmessage m friendnum argc argv bot₀ =
    let (bot, master) = friend_is_master m friendnum bot₀ in
    if not master
    then authent_failed friendnum bot
    else if ltb argc 1
    then say friendnum (codes "Error: Group number required") bot
    else if ltb argc 2
    then say friendnum (codes "Error: Message required") bot
    else elim (parse_group_number (arg argv 1)) [
      | none ↦ say friendnum (codes "Error: Invalid group number") bot
      | some groupnum ↦
          let msg = unquote_str (some (arg argv 2)) m.max_length in
          if not (is_some (group_index bot.groups groupnum))
          then say friendnum (codes "Error: Invalid group number") bot
          else if not (starts_with quote (arg argv 2))
          then say friendnum (codes "Error: Message must be enclosed in quotes") bot
          else elim (m.send_conference_message groupnum msg) [
            | some err ↦ send_error m friendnum (codes "Error: Failed to send message.") err bot
            | none ↦
                say friendnum (codes "Message sent.")
                  (emit (conference_message_sent groupnum msg) bot)
          ]
    ]

-- The answer -1 of `group_add`.
abbrev pub failed : ℤ → Bool
failed (ℤ.pos n) = false
failed (ℤ.negsuc n) = true

unfoldable pub created_group : Answers → ℕ → ℕ → ℕ → Option (List ℕ) → Bot → Bot
created_group m friendnum groupnum kind password bot =
    let (groups, answer) = group_add bot.groups groupnum kind password in
    let pw = if is_some password then codes " (Password protected)" else [] in
    let added = record bot { groups = groups } in
    if failed answer
    then emit (conference_deleted groupnum)
        (say friendnum (codes "Group chat creation failed") added)
    else say friendnum
        (cut_to m.max_length
          (codes "Group chat " ++ (print_long (to_int (pos groupnum)) ++ (codes " created" ++ pw))))
        added

-- The checks of `cmd_group` on the password, once the conference is there.
unfoldable pub checked_group : Answers → ℕ → ℕ → ℕ → Option (List ℕ) → Bot → Bot
checked_group m friendnum groupnum kind none bot = created_group m friendnum groupnum kind none bot
checked_group m friendnum groupnum kind (some password) bot =
    if leb max_password_size (length password)
    then say friendnum (codes "Group chat instance failed to initialize: Password too long") bot
    else created_group m friendnum groupnum kind (some password) bot

-- The type that `cmd_group` asks for; `!strcasecmp` is 1 or 0.
abbrev pub group_type : Answers → List ℕ → ℕ
group_type m text =
    if m.type_av == 0 then m.type_text else if str_case_eq text (codes "audio") then 1 else 0

-- The number of the new conference, as a `uint32_t`; `none` where toxcore could not make it.
abbrev pub new_conference : Answers → ℕ → Option ℕ
new_conference m kind =
    if kind == m.type_text
    then m.new_text_conference
    else if kind == m.type_av
    then m.new_av_conference
    else some 4294967295

-- Whether toxcore is asked for a conference of that type.
abbrev pub is_made : Answers → ℕ → Bool
is_made m kind = kind == m.type_text || kind == m.type_av

-- The bot once toxcore has made the conference.
unfoldable pub made : Answers → ℕ → ℕ → Bot → Bot
made m kind groupnum bot = if is_made m kind then emit (conference_created groupnum) bot else bot

unfoldable pub cmd_group : Handler
cmd_group m friendnum argc argv bot =
    let kind = group_type m (arg argv 1) in
    let password = if leb 2 argc then some (arg argv 2) else none in
    if ltb argc 1
    then say friendnum (codes "Please specify the group type: audio or text") bot
    else elim (new_conference m kind) [
      | none ↦ say friendnum (codes "Group chat instance failed to initialize.") bot
      | some groupnum ↦ checked_group m friendnum groupnum kind password (made m kind groupnum bot)
    ]

-- Whether the password test of `cmd_invite` refuses.
abbrev pub wrong_password : Group → ℕ → List (List ℕ) → Bool
wrong_password g argc argv = g.has_pass && (ltb argc 2 || not (str_eq (arg argv 2) g.password))

unfoldable pub invite_to : Answers → ℕ → ℕ → List (List ℕ) → ℕ → Bot → Bot
invite_to m friendnum argc argv groupnum bot = elim (group_index bot.groups groupnum) [
  | none ↦ say friendnum (codes "Group doesn't exist.") bot
  | some idx ↦
      if wrong_password (group_at bot.groups.slots idx) argc argv
      then say friendnum (codes "Invalid password.") bot
      else elim (m.invite_to_conference friendnum groupnum) [
        | some err ↦ send_error m friendnum (codes "Invite failed") err bot
        | none ↦ emit (conference_invited friendnum groupnum) bot
      ]
]

unfoldable pub cmd_invite : Handler
cmd_invite m friendnum argc argv bot =
    let default = invite_to m friendnum argc argv bot.default_groupnum bot in
    if leb 1 argc
    then elim (parse_group_number (arg argv 1)) [
      | none ↦ say friendnum (codes "Error: Invalid group number") bot
      | some groupnum ↦ invite_to m friendnum argc argv groupnum bot
    ]
    else default

unfoldable pub cmd_leave : Handler
cmd_leave m friendnum argc argv bot₀ =
    let (bot, master) = friend_is_master m friendnum bot₀ in
    if not master
    then authent_failed friendnum bot
    else if ltb argc 1
    then say friendnum (codes "Error: Group number required") bot
    else elim (parse_group_number (arg argv 1)) [
      | none ↦ say friendnum (codes "Error: Invalid group number") bot
      | some groupnum ↦
          if not (m.delete_conference groupnum)
          then say friendnum (codes "Error: Invalid group number") bot
          else say friendnum (cut_to m.max_length (codes "Left group " ++ digits groupnum)) (
              emit (conference_deleted groupnum)
                (record bot { groups = group_leave bot.groups groupnum }))
    ]

-- A write to the group at an index.
abbrev pub with_group : ℕ → Group → Bot → Bot
with_group idx g bot = record bot {
  groups = record bot.groups { slots = set bot.groups.slots idx g };
}

unfoldable pub cmd_passwd : Handler
cmd_passwd m friendnum argc argv bot₀ =
    let (bot, master) = friend_is_master m friendnum bot₀ in
    if not master
    then authent_failed friendnum bot
    else if ltb argc 1
    then say friendnum (codes "Error: group number required") bot
    else elim (parse_group_number (arg argv 1)) [
      | none ↦ say friendnum (codes "Error: Invalid group number") bot
      | some groupnum ↦ elim (group_index bot.groups groupnum) [
        | none ↦ say friendnum (codes "Error: Invalid group number") bot
        | some idx ↦
            let g = group_at bot.groups.slots idx in
            if ltb argc 2
            then say friendnum (codes "No password set")
                (with_group idx (record g { has_pass = false; password = [] }) bot)
            else if leb max_password_size (length (arg argv 2))
            then say friendnum (codes "Password too long") bot
            else say friendnum (codes "Password set") (
                with_group idx
                  (record g { has_pass = true; password = cut_to max_password_size (arg argv 2) })
                  bot)
      ]
    ]

-- The title that `cmd_title_set` copies into the group, where the bot knows it.
unfoldable pub with_title : Answers → ℕ → List ℕ → Bot → Bot
with_title m groupnum title bot = elim (group_index bot.groups groupnum) [
  | none ↦ bot
  | some idx ↦
      let copied = take (m.max_name_length - 1) title in
      with_group idx
        (record (group_at bot.groups.slots idx) { title = copied; title_len = length copied }) bot
]

unfoldable pub cmd_title_set : Handler
cmd_title_set m friendnum argc argv bot₀ =
    let (bot, master) = friend_is_master m friendnum bot₀ in
    if not master
    then authent_failed friendnum bot
    else if ltb argc 2
    then say friendnum (codes "Error: Two arguments are required") bot
    else if not (starts_with quote (arg argv 2))
    then say friendnum (codes "Error: title must be enclosed in quotes") bot
    else elim (parse_group_number (arg argv 1)) [
      | none ↦ say friendnum (codes "Error: Invalid group number") bot
      | some groupnum ↦
          let title = unquote_str (some (arg argv 2)) m.max_length in
          elim (m.set_conference_title groupnum title) [
            | some err ↦
                send_error m friendnum
                  (codes
                    "Failed to set title. This may be caused by an invalid group number or an empty room")
                  err bot
            | none ↦
                say friendnum (codes "Group title set")
                  (with_title m groupnum title (emit (title_set groupnum title) bot))
          ]
    ]
