-- ===== src/Bot/Execute.antt =====
-- The command table of src/commands.c, and `execute`.
use tox_relayer.Prelude.{ℕ, ◌-◌, none, some, List, [], ◌∷◌, if◌then◌else◌, leb, length}
use tox_relayer.Prelude.Int.{ℤ, pos, negsuc}
use tox_relayer.Text.{codes, str_eq}
use tox_relayer.Commands.{commands_parse}
use tox_relayer.Bot.{Answers, Bot, Handler, arg}
use tox_relayer.Bot.Rooms.{
  cmd_default, cmd_gmessage, cmd_group, cmd_invite, cmd_leave, cmd_passwd, cmd_title_set,
}
use tox_relayer.Bot.Profile.{cmd_master, cmd_name, cmd_purge, cmd_status, cmd_statusmessage}
use tox_relayer.Bot.Info.{cmd_help, cmd_id, cmd_info}

pub record Command : Type 0 where
  pub name : List ℕ
  pub func : Handler

abbrev pub commands : List Command
commands =
    record { name = codes "/default"; func = cmd_default }
    ∷ record { name = codes "/group"; func = cmd_group }
    ∷ record { name = codes "/gmessage"; func = cmd_gmessage }
    ∷ record { name = codes "/help"; func = cmd_help }
    ∷ record { name = codes "/id"; func = cmd_id }
    ∷ record { name = codes "/info"; func = cmd_info }
    ∷ record { name = codes "/invite"; func = cmd_invite }
    ∷ record { name = codes "/leave"; func = cmd_leave }
    ∷ record { name = codes "/master"; func = cmd_master }
    ∷ record { name = codes "/name"; func = cmd_name }
    ∷ record { name = codes "/passwd"; func = cmd_passwd }
    ∷ record { name = codes "/purge"; func = cmd_purge }
    ∷ record { name = codes "/status"; func = cmd_status }
    ∷ record { name = codes "/statusmessage"; func = cmd_statusmessage }
    ∷ record { name = codes "/title"; func = cmd_title_set }
    ∷ []

-- The loop of `do_command` over what is left of the table. The answer is 0 or -1.
unfoldable pub run_command : List Command → Answers → ℕ → ℕ → List (List ℕ) → Bot → Bot × ℤ
run_command [] m friendnum argc args bot = (bot, negsuc 0)
run_command (c ∷ cs) m friendnum argc args bot =
    let rest = run_command cs m friendnum argc args bot in
    if str_eq (arg args 0) c.name then (c.func m friendnum argc args bot, pos 0) else rest

-- `num_args` is the number of arguments, the command's name counted.
unfoldable pub do_command : Answers → ℕ → List (List ℕ) → Bot → Bot × ℤ
do_command m friendnum args bot = run_command commands m friendnum (length args - 1) args bot

unfoldable pub execute : Answers → ℕ → List ℕ → ℕ → Bot → Bot × ℤ
execute m friendnum input_msg length bot =
    if leb m.max_length length
    then (bot, negsuc 0)
    else elim (commands_parse m.max_length input_msg) [
      | none ↦ (bot, negsuc 0)
      | some args ↦ do_command m friendnum args bot
    ]
