-- ===== src/Bot/Info.antt =====
-- The commands of src/commands.c that only report: help, id and info.
use tox_relayer.Prelude.{
  ℕ, ◌+◌, ◌-◌, ◌/◌, ◌%◌, ◌^◌, none, some, List, [], ◌∷◌, ◌++◌, if◌then◌else◌, ltb, ◌==◌, take,
}
use tox_relayer.Prelude.Int.{pos}
use tox_relayer.Text.{codes, digits, print_long, to_int}
use tox_relayer.Misc.Strings.{elapsed_time_str}
use tox_relayer.Groups.{Group, Groups, group_at, group_index, max_num_groups}
use tox_relayer.Bot.{Answers, Bot, Handler, say, cut_to, friend_is_master}
use tox_relayer.Bot.Profile.{seconds_in_day}

abbrev pub help_lines : List (List ℕ)
help_lines =
    codes ">> Web3 IM-Relayer in Metaverse Cyber"
    ∷ codes "/info          - Dump current status and list active group chats"
    ∷ codes "/list         - List all the channels that"
    ∷ codes "/join <ch>    - Join the msg channel"
    ∷ codes "/part <ch>    - Leave the channel"
    ∷ codes "/id           - Dump arkMeta ID"
    ∷ codes "/default <n>  - Sets default groupchat room to n"
    ∷ codes "/invite       - Request invite to default group chat"
    ∷ codes "/invite <n> <p>       - Request invite to group chat n (with password p if protected)"
    ∷ codes
        "/group <type> <pass>  - Creates a new groupchat with type: text | audio (optional password)"
    ∷ []

-- Messages sent one after the other.
unfoldable pub say_all : ℕ → List (List ℕ) → Bot → Bot
say_all friendnum [] bot = bot
say_all friendnum (t ∷ ts) bot = say_all friendnum ts (say friendnum t bot)

unfoldable pub cmd_help : Handler
cmd_help m friendnum argc argv bot₀ =
    let (bot, master) = friend_is_master m friendnum (say_all friendnum help_lines bot₀) in
    if master
    then say friendnum (codes "For a list of master commands see the commands.txt file") bot
    else bot

abbrev upper_digit : ℕ → ℕ
upper_digit n = if ltb n 10 then 48 + n else 55 + n

-- `%02X` of each byte.
unfoldable pub upper_hex : List ℕ → List ℕ
upper_hex [] = []
upper_hex (c ∷ cs) = upper_digit (c / 16) ∷ upper_digit (c % 16) ∷ upper_hex cs

unfoldable pub cmd_id : Handler
cmd_id m friendnum argc argv bot =
    say friendnum (upper_hex m.address) (say friendnum (codes "arkMeta ID :\n") bot)

-- `%d` of a `uint32_t`.
abbrev print_uint32 : ℕ → List ℕ
print_uint32 n = print_long (to_int (pos n))

abbrev title_of : Group → List ℕ
title_of g = if g.title_len == 0 then codes "None" else g.title

unfoldable pub group_title : Groups → ℕ → List ℕ
group_title t groupnum = elim (group_index t groupnum) [
  | none ↦ codes "None"
  | some idx ↦ title_of (group_at t.slots idx)
]

-- The loop over the conferences.
unfoldable pub say_groups : Answers → ℕ → List ℕ → Bot → Bot
say_groups m friendnum [] bot = bot
say_groups m friendnum (groupnum ∷ rest) bot =
    let type = if m.conference_type groupnum == m.type_av then codes "Audio" else codes "Text" in
    say_groups m friendnum rest (elim (m.peer_count groupnum) [
      | none ↦ bot
      | some num_peers ↦
          say friendnum
            (cut_to m.max_length (
              codes "Group "
              ++ (print_uint32 groupnum
                  ++ (codes " | "
                      ++ (type
                          ++ (codes " | peers: "
                              ++ (print_uint32 num_peers
                                  ++ (codes " | Title: " ++ group_title bot.groups groupnum))))))))
            bot
    ])

-- The first lines of `cmd_info`. The uptime is a `uint64_t`, in a buffer of 64 bytes.
abbrev pub info_lines : Answers → Bot → List (List ℕ)
info_lines m bot =
    let uptime = cut_to 64 (elapsed_time_str ((m.curtime + 2 ^ 64 - bot.start_time) % 2 ^ 64)) in
    cut_to m.max_length (codes "Uptime: " ++ uptime)
    ∷ cut_to m.max_length (
        codes "Friends: "
        ++ (print_uint32 m.friend_list_size
            ++ (codes " (" ++ (digits bot.num_online_friends ++ codes " online)"))))
    ∷ cut_to m.max_length (
        codes "Inactive friends are purged after "
        ++ (digits (bot.inactive_limit / seconds_in_day) ++ codes " days"))
    ∷ []

-- The numbers that the loop reads. The list that toxcore fills has room for `max_num_groups` of them.
abbrev pub listed_groups : Answers → List ℕ
listed_groups m =
    take (if ltb max_num_groups m.num_chats then max_num_groups else m.num_chats) m.chatlist

unfoldable pub cmd_info : Handler
cmd_info m friendnum argc argv bot₀ =
    let bot = say_all friendnum (info_lines m bot₀) bot₀ in
    if m.num_chats == 0
    then say friendnum (codes "No active groupchats") bot
    else say_groups m friendnum (listed_groups m) bot
