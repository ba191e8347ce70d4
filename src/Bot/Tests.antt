-- ===== src/Bot/Tests.antt =====
-- Runs of the commands at fixed inputs, and the theorems applied there.
use tox_relayer.Prelude.{
  inl, inr, ◌≡◌, refl, true, false, none, some, [], ◌∷◌, arith, ◌==◌, if◌then◌else◌,
}
use tox_relayer.Text.{codes, c_str, str_eq, has_byte}
use tox_relayer.Misc.{hex_string_to_bin, hex_loop, hex_byte, hex_digit_value}
use tox_relayer.Misc.KeyFile.{
  fgets, cut_line, key_matches, line_matches, search_lines, file_contains_key,
}
use tox_relayer.Groups.{
  no_groups, group_add, group_index, find_group, realloc_groupchats, find_inactive, new_group,
}
use tox_relayer.Bot.{Answers, Bot, emit, say, written, conference_invited, friend_is_master}
use tox_relayer.Bot.Rooms.{cmd_passwd, cmd_invite}
use tox_relayer.Bot.Profile.{cmd_master}
use tox_relayer.Bot.Execute.{execute}
use tox_relayer.Bot.Rights.{NoRight}
use tox_relayer.Bot.Rights.Handlers.{execute-NoRight}
use tox_relayer.Bot.Invites.{passwd-invite, passwd_args, invite_args}
use tox_relayer.Bot.Masters.{file_of, master_args, cmd_master-friend_is_master}

-- Keys of two bytes, addresses of three. Friend 0 has the key of the one master.
abbrev answers : Answers
answers = record {
  max_length = 1372;
  max_name_length = 128;
  key_size = 2;
  type_text = 0;
  type_av = 1;
  public_key =
      λ f. some (if f == 0 then 1 ∷ 2 ∷ [] else if f == 1 then 7 ∷ 8 ∷ [] else 7 ∷ 250 ∷ []);
  address = 4 ∷ 5 ∷ 6 ∷ [];
  new_text_conference = some 3;
  new_av_conference = some 4;
  delete_conference = λ n. true;
  send_conference_message = λ n text. none;
  invite_to_conference = λ f n. none;
  set_conference_title = λ n text. none;
  num_chats = 0;
  chatlist = [];
  peer_count = λ n. none;
  conference_type = λ n. 0;
  friend_list_size = 2;
  curtime = 100;
  io = record { created = true; opened = true; allocated = true };
  append = written;
}

abbrev bot : Bot
bot = record {
  start_time = 1;
  inactive_limit = 157680000;
  default_groupnum = 0;
  num_online_friends = 1;
  groups = (group_add no_groups 3 0 none).0;
  masters = some (file_of (codes "010203" ∷ []));
  events = [];
}

first_is_master : (friend_is_master answers 0 bot).1 ≡ true
unfolding friend_is_master file_contains_key search_lines line_matches key_matches cut_line c_str
    fgets hex_string_to_bin hex_loop hex_byte hex_digit_value str_eq file_of
first_is_master = refl

second_is_no_master : (friend_is_master answers 1 bot).1 ≡ false
unfolding friend_is_master file_contains_key search_lines line_matches key_matches cut_line c_str
    fgets hex_string_to_bin hex_loop hex_byte hex_digit_value str_eq file_of
second_is_no_master = refl

execute-NoRight_example :
    NoRight answers 1 bot (execute answers 1 (codes "/group text secret") 18 bot).0
execute-NoRight_example =
    execute-NoRight answers 1 bot (codes "/group text secret") 18 second_is_no_master

passwd-invite_example :
    let bot' = cmd_passwd answers 0 2 (passwd_args 3 (codes "secret")) bot in
    (cmd_invite answers 1 2 (invite_args 3 (codes "secret")) bot'
      ≡ emit (conference_invited 1 3) bot')
    × (cmd_invite answers 1 2 (invite_args 3 (codes "guess")) bot'
        ≡ say 1 (codes "Invalid password.") bot')
unfolding group_index group_add find_group realloc_groupchats find_inactive new_group
passwd-invite_example =
    passwd-invite answers 0 1 bot 3 0 (codes "secret") (omega arith) refl (omega arith)
      (codes "guess") first_is_master refl (λ e. ground (arith, e))

-- The ID 07FaCe, with digits of both cases.
cmd_master-friend_is_master_example :
    (friend_is_master answers 2 (cmd_master answers 0 1 (master_args (codes "07FaCe")) bot)).1
    ≡ true
unfolding has_byte
cmd_master-friend_is_master_example =
    cmd_master-friend_is_master answers 0 2 bot (codes "010203" ∷ []) (7 ∷ 250 ∷ [])
      (codes "07FaCe") (7 ∷ 250 ∷ 206 ∷ []) ((refl, omega arith), tt) refl refl refl refl
      (
        (omega arith, inl refl),
        (omega arith, inl refl),
        (
          (omega arith, inr refl),
          (omega arith, inl refl),
          ((omega arith, inr refl), (omega arith, inl refl), tt),
        ),
      )
      (omega arith) (omega arith) (omega arith) refl refl refl first_is_master
