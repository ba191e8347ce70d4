-- ===== src/Node/Contacts.antt =====
-- The table of friends in src/toxrelayer.c: how it is filled from toxcore and from the configuration
-- file, who is let in, and which peer is the relay.
use tox_relayer.Prelude.{
  ℕ, zero, suc, ◌+◌, Bool, false, not, ◌&&◌, ◌||◌, Option, none, some, List, ◌++◌, if◌then◌else◌,
  ltb, leb, ◌==◌, take, set, get_or,
}
use tox_relayer.Prelude.Int.{ℤ, pos, eqb_ℤ}
use tox_relayer.Text.{codes, c_str}
use tox_relayer.Misc.{parse_int_range}
use tox_relayer.Misc.KeyFile.{FileIo}
use tox_relayer.Telegram.Serial.{sn_min, sn_max}
use tox_relayer.Bot.Info.{upper_hex}
use tox_relayer.Friends.{Contact, no_contact, max_friend_num, lookup_ch_num, public_key_is_blocked}
use tox_relayer.Node.{Node, friend_added, data_saved, ini_put, act, print_03d}

-- What toxcore and minIni answer while the table is filled. `ini_gets` answers `none` for a count below
-- 1.
pub record Directory : Type 0 where
  pub numfriends : ℕ
  pub public_key : ℕ → List ℕ
  pub name : ℕ → List ℕ
  pub address : List ℕ
  pub ini_gets : (section key default : List ℕ) → Option (List ℕ)

-- A serial from the configuration file.
unfoldable pub read_sn : List ℕ → ℤ
read_sn text = elim (parse_int_range (some text) (pos sn_min) (pos sn_max)) [
  | none ↦ pos sn_min
  | some sn ↦ sn
]

unfoldable pub read_flag : List ℕ → Bool
read_flag text = elim (parse_int_range (some text) (pos 0) (pos 1)) [
  | none ↦ false
  | some flag ↦ not (eqb_ℤ flag (pos 0))
]

module _ (d : Directory) where
  -- One round of the loop, over the entry as it was.
  unfoldable pub fill_contact : ℕ → Contact → Contact
  fill_contact i c =
      let named = record c {
        friend_number = i;
        public_key_str = upper_hex (d.public_key i);
        nick_name = c_str (d.name i);
        meta_chat_flag = false;
        line_connect = false;
      } in
      elim (d.ini_gets (codes "outgoing_sn") (codes "send" ++ print_03d i) (codes "1")) [
        | none ↦ named
        | some send ↦
            elim (d.ini_gets (codes "incoming_sn") (codes "recev" ++ print_03d i) (codes "1")) [
              | none ↦ record named { send_sn = read_sn send }
              | some recev ↦
                  elim (d.ini_gets (codes "meta_chat_flag") (codes "meta" ++ print_03d i)
                    (codes "0")) [
                      | none ↦ record named { send_sn = read_sn send; receive_sn = read_sn recev }
                      | some flag ↦ record named {
                        send_sn = read_sn send;
                        receive_sn = read_sn recev;
                        meta_chat_flag = read_flag flag;
                      }
                    ]
            ]
      ]

  -- The loop, from entry `i` on over `left` friends.
  unfoldable pub fill_from : ℕ → ℕ → List Contact → List Contact
  fill_from zero i contacts = contacts
  fill_from (suc left) i contacts =
      fill_from left (suc i) (set contacts i (fill_contact i (get_or contacts i no_contact)))

  unfoldable pub relay_key_default : List ℕ
  relay_key_default =
      codes "6803B6738011AF6CEB44BC5AF0F62BFD2C99BEA32F19D8C1663164A46272465C67C517BA4E3E"

  unfoldable pub get_relay_name_list : Node → Node
  get_relay_name_list n =
      let contacts = fill_from d.numfriends 0 n.contacts in
      let id = upper_hex d.address in
      if ltb max_friend_num d.numfriends then n else record n {
        contacts = contacts;
        hello_selfname_msg = take 8 id ++ codes "  METACOM";
        self_public_key_str = id;
        relay_number =
            elim (d.ini_gets (codes "metaCom_Relayer") (codes "relay_public_key")
              relay_key_default) [ none ↦ pos 0 | some key ↦ lookup_ch_num contacts key ];
      }

  -- `key_size` is TOX_PUBLIC_KEY_SIZE.
  unfoldable pub cb_friend_request : ℕ → FileIo → List ℕ → Node → Node
  cb_friend_request key_size io public_key n =
      let (file, blocked) = public_key_is_blocked key_size io public_key n.blocklist in
      let n' = record n { blocklist = file } in
      if blocked
      then n'
      else get_relay_name_list (act data_saved (act (friend_added public_key) n'))

-- The new name itself is only copied; the account is saved.
unfoldable pub on_friend_name : Node → Node
on_friend_name n = act data_saved n

-- `token` and `lineindex`.
pub record Scan : Type 0 where
  pub token : List ℕ
  pub lineindex : ℕ

abbrev pub ends_line : ℕ → Bool
ends_line c = c == 0 || (c == 13 || c == 10)

-- The loop of `get_token`, with `i` bytes in the token. A round moves on or returns, so 127 rounds are
-- enough. What stands in memory behind the message is 0 here.
unfoldable pub token_loop : ℕ → List ℕ → ℕ → Scan → Scan
token_loop zero mess i s = s
token_loop (suc rounds) mess i s =
    let c = get_or mess s.lineindex 0 in
    let copies = not (c == 32 || (c == 13 || c == 10)) in
    let token = if copies then set s.token i c else s.token in
    let i' = if copies then i + 1 else i in
    let at = if copies then s.lineindex + 1 else s.lineindex in
    let blank = get_or mess at 0 == 32 in
    let at' = if blank then at + 1 else at in
    let rest = token_loop rounds mess i' (record { token = token; lineindex = at' }) in
    if leb 127 s.lineindex
    then s
    else if (blank && ltb 0 i') || ends_line (get_or mess at' 0)
    then record { token = set token i' 0; lineindex = at' }
    else rest

unfoldable pub get_token : List ℕ → Scan → Scan
get_token mess s = token_loop 127 mess 0 s

-- The second word of a line, from `lineindex` on: the buffer afterwards.
unfoldable pub second_token : ℕ → List ℕ → List ℕ → List ℕ
second_token lineindex mess token =
    (get_token mess (get_token mess (record { token = token; lineindex = lineindex }))).token

unfoldable pub set_relayer_public_key : List ℕ → Node → Node
set_relayer_public_key user_input_msg n =
    let token = second_token 0 user_input_msg n.token in
    record (act (ini_put (codes "metaCom_Relayer") (codes "relay_public_key") (c_str token)) n) {
      token = token;
      relay_number = lookup_ch_num n.contacts (c_str token);
    }
