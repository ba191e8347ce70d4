-- ===== src/Node/Console.antt =====
-- The console of src/toxrelayer.c: the line that is typed, the local commands of `evaluate_input`, and
-- the telegram that a line becomes. What is only printed is left out.
pub mod Channel
pub mod Sending
pub mod Stored
pub mod Replay
mod Tests
use tox_relayer.Prelude.{
  ℕ, zero, suc, ◌+◌, ◌-◌, ◌*◌, Bool, true, false, not, ◌&&◌, ◌||◌, Option, none, some, List, [],
  ◌∷◌, ◌++◌, if◌then◌else◌, ltb, leb, ◌==◌, length, take, drop, set,
}
use tox_relayer.Prelude.Int.{ℤ, pos, negsuc, ltb_ℤ, pos_part}
use tox_relayer.Text.{codes, c_str, print_04d}
use tox_relayer.Misc.{parse_int_range, hex_string_to_bin, starts_with}
use tox_relayer.Telegram.Serial.{sn_next}
use tox_relayer.Telegram.Encode.{Encoded, encode_text}
use tox_relayer.Queue.{enqueue}
use tox_relayer.Database.{msg_database_add}
use tox_relayer.Friends.{Contact, contact_at, occurs}
use tox_relayer.Node.{Node, name_set, friend_requested, ini_put, act, print_03d, touch, with_queue}
use tox_relayer.Node.Messages.{World}
use tox_relayer.Node.Contacts.{second_token, set_relayer_public_key}

abbrev pub channel_digits : ℕ
channel_digits = 15

-- `/#num`: what is behind the first two bytes, as far as `temp` has room.
unfoldable pub switch_channel : List ℕ → Node → Node
switch_channel user_input n =
    elim (parse_int_range (some (take channel_digits (drop 2 user_input))) (pos 0) (pos 1023)) [
      | none ↦ n
      | some index ↦ record n { pre_friendnumber = pos_part index }
    ]

unfoldable pub set_name : List ℕ → Node → Node
set_name user_input n =
    let token = second_token 0 user_input n.token in
    let n' = record n { token = token } in
    if ltb (length (c_str token)) 3 then n' else act (name_set (c_str token)) n'

-- `address_size` is TOX_ADDRESS_SIZE, `allocated` the answer of `malloc`.
unfoldable pub add_friend : ℕ → Bool → List ℕ → Node → Node
add_friend address_size allocated user_input n =
    let token = second_token 1 user_input n.token in
    let n' = record n { token = token } in
    if not (length (c_str token) == address_size * 2)
    then n'
    else act
        (friend_requested (hex_string_to_bin allocated (some (c_str token)))
          (codes "arkMeta ask for Cyber future..."))
        n'

unfoldable pub evaluate_input : ℕ → Bool → List ℕ → Node → Node
evaluate_input address_size allocated user_input n =
    if occurs (codes "/help") user_input
    then n
    else if occurs (codes "/id") user_input
    then n
    else if occurs (codes "/#") user_input
    then switch_channel user_input n
    else if occurs (codes "/info") user_input
    then n
    else if occurs (codes "/relay") user_input
    then set_relayer_public_key user_input n
    else if occurs (codes "/set") user_input
    then set_name user_input n
    else if occurs (codes "/cur") user_input
    then n
    else if occurs (codes "/add") user_input && ltb 5 (length user_input)
    then add_friend address_size allocated user_input n
    else n

-- The serial of the next telegram for a channel, as `relay_name_list` and the configuration file keep
-- it.
unfoldable pub next_serial : ℕ → Node → Node
next_serial channel n =
    let contact = contact_at n.contacts (pos channel) in
    let send_sn = sn_next contact.send_sn in
    act (ini_put (codes "outgoing_sn") (codes "send" ++ print_03d channel) (print_04d send_sn))
      (record n { contacts = set n.contacts channel (record contact { send_sn = send_sn }) })

-- What goes to the queue, `none` where a telegram could not be encoded for a peer that expects one.
unfoldable pub outgoing : Bool → Encoded → List ℕ → Option (List ℕ × ℕ)
outgoing true wire text = if ltb_ℤ wire.rc (pos 0) then none else some (wire.out, pos_part wire.rc)
outgoing false wire text = some (text, length text)

unfoldable pub hand_over : World → ℕ → Option (List ℕ × ℕ) → Node → Node
hand_over w channel none n = n
hand_over w channel (some (payload, len)) n =
    with_queue (enqueue w.config n.queue (pos channel) (some payload) len w.now).0 n

-- A line that is no command, sent to the friend of the last message. `wire_size` is the buffer of
-- TOX_MAX_MESSAGE_LENGTH + 1 bytes.
unfoldable pub send_line : World → ℕ → List ℕ → Node → Node
send_line w wire_size text n =
    let channel = n.pre_friendnumber in
    let contact = contact_at n.contacts (pos channel) in
    let send_sn = sn_next contact.send_sn in
    let wire =
      encode_text (some wire_size) (some contact.public_key_str) (some n.self_public_key_str)
        send_sn w.now (some text) in
    let sent =
      hand_over w channel (outgoing contact.meta_chat_flag wire text) (next_serial channel n) in
    touch channel w.now (record sent {
      db =
          (msg_database_add w.sqlite (pos channel) send_sn w.now (some n.self_public_key_str)
            (some (codes "outgoing")) (some text) sent.db).0;
    })

abbrev pub line_max : ℕ
line_max = 255

-- One key, with the line typed so far: the first `line_index` bytes of `cm_buffer`.
unfoldable pub press : World → ℕ → ℕ → Bool → ℕ → List ℕ × Node → List ℕ × Node
press w wire_size address_size allocated key (line, n) =
    let text = c_str (line ++ (key ∷ [])) in
    if key == 10 || key == 13
    then (
      [],
      if starts_with 47 text
          then evaluate_input address_size allocated text n
          else send_line w wire_size text n,
    )
    else if key == 8
    then (take (length line - 1) line, n)
    else if ltb (length line) line_max
    then (line ++ (key ∷ []), n)
    else (line, n)
