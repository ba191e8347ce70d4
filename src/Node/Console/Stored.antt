-- ===== src/Node/Console/Stored.antt =====
-- What a line that was sent leaves for a request of the peer: the peer's key, and the record that the
-- database answers with.
use tox_relayer.Prelude.{
  ℕ, zero, suc, ◌%◌, ◌^◌, ◌≡◌, refl, sym, ap, ◌∙◌, true, ◌&&◌, Option, none, some, List, [], ◌∷◌,
  arith, set, get_or,
}
use tox_relayer.Prelude.Int.{ℤ, pos, eqb_ℤ_iff}
use tox_relayer.Text.{codes}
use tox_relayer.Telegram.Serial.{sn_valid, sn_next}
use tox_relayer.Telegram.Serial.Laws.{sn_next-valid}
use tox_relayer.Telegram.Encode.{encode_text}
use tox_relayer.Queue.Invariant.{IsConfig}
use tox_relayer.Text.Bytes.{str_eq_iff}
use tox_relayer.Database.{
  insert_or_replace, Row, select_range, of_channel, in_serials, new_row, clamp_sn, replay_entry,
  sn_in_table,
}
use tox_relayer.Database.Fresh.{
  Unused, itself, rows-msg_database_add, select_range-insert_or_replace, msg_database_range-one,
}
use tox_relayer.Relay.{max_replay}
use tox_relayer.Friends.{
  Contact, no_contact, contact_at, friend_number_valid, relay_peer_key, relay_fetch_range,
  as_stored,
}
use tox_relayer.Node.{Node, act, touch, with_queue}
use tox_relayer.Node.Messages.{World}
use tox_relayer.Node.Console.{next_serial, outgoing, hand_over, send_line}
use tox_relayer.Node.Console.Sending.{clamp_sn-valid, not_negative}

-- A new serial leaves the key of a contact as it is.
key-set :
    (contacts : List Contact) (i : ℕ) (sn : ℤ)
    → (get_or
        (set contacts i (record (get_or contacts i no_contact) { send_sn = sn }))
        i
        no_contact).public_key_str
      ≡ (get_or contacts i no_contact).public_key_str
key-set [] i sn = refl
key-set (c ∷ cs) zero sn = refl
key-set (c ∷ cs) (suc i) sn = key-set cs i sn

in_table : (sn : ℕ) → sn_valid (pos sn) ≡ true → sn_in_table (pos sn) ≡ true
unfolding sn_valid
in_table sn h = ground (arith, h)

small-valid : (i : ℕ) → friend_number_valid i ≡ true → i % 2 ^ 32 ≡ i
unfolding friend_number_valid
small-valid i h = ground (arith, h)

key-relay_peer_key :
    (contacts : List Contact) (i : ℕ) (sn : ℤ)
    → friend_number_valid i ≡ true
    → let c = contact_at contacts (pos i) in
      relay_peer_key (set contacts i (record c { send_sn = sn })) (pos i) ≡ some c.public_key_str
unfolding relay_peer_key
key-relay_peer_key contacts i sn valid =
    rw (small-valid i valid, valid) (ap some (key-set contacts i sn))

-- What goes to the queue changes nothing else that a request reads.
record SameBooks (n n' : Node) : Type 0 where
  self : n'.self_public_key_str ≡ n.self_public_key_str
  contacts : n'.contacts ≡ n.contacts
  db : n'.db ≡ n.db

hand_over-SameBooks :
    (w : World) (i : ℕ) (item : Option (List ℕ × ℕ)) (n : Node) → SameBooks n (hand_over w i item n)
unfolding hand_over with_queue
hand_over-SameBooks w i none n = record { self = refl; contacts = refl; db = refl }
hand_over-SameBooks w i (some (payload, len)) n = record { self = refl; contacts = refl; db = refl }

module _ (w : World) (ok_c : IsConfig w.config) (wire_size k : ℕ) (line : List ℕ) (n : Node) where
  abbrev pub ch : ℤ
  ch = pos n.pre_friendnumber

  abbrev pub peer : Contact
  peer = contact_at n.contacts ch

  abbrev pub serial : ℤ
  serial = sn_next peer.send_sn

  abbrev pub row : Row
  row = new_row ch serial w.now (some n.self_public_key_str) (codes "outgoing") (some line)

  abbrev pub after : Node
  after = send_line w wire_size line n

  books : SameBooks (next_serial n.pre_friendnumber n) (
      hand_over w n.pre_friendnumber
        (outgoing peer.meta_chat_flag
          (encode_text
            (some wire_size)
            (some peer.public_key_str)
            (some n.self_public_key_str)
            serial
            w.now
            (some line))
          line)
        (next_serial n.pre_friendnumber n))
  books = hand_over-SameBooks w n.pre_friendnumber _ (next_serial n.pre_friendnumber n)

  pub after_self : after.self_public_key_str ≡ n.self_public_key_str
  unfolding send_line next_serial touch act
  after_self = books.self

  pub after_key :
      friend_number_valid n.pre_friendnumber ≡ true
      → relay_peer_key after.contacts ch ≡ some peer.public_key_str
  unfolding send_line next_serial touch act
  after_key valid =
      ap (λ cs. relay_peer_key cs ch) books.contacts
      ∙ key-relay_peer_key n.contacts n.pre_friendnumber serial valid

  pub after_rows :
      n.db.ready ≡ true
      → w.sqlite.bound ≡ true
      → w.sqlite.failing_step ≡ none
      → Unused ch (codes "outgoing") (clamp_sn serial) n.db.rows
      → (after.db.ready ≡ true)
        × (select_range ch (codes "outgoing") (clamp_sn serial) (clamp_sn serial) after.db.rows
            ≡ row ∷ [])
  unfolding send_line next_serial touch act new_row
  after_rows ready bound steps unused =
      let stored =
        rows-msg_database_add w.sqlite ch serial w.now (some n.self_public_key_str)
          (codes "outgoing") (some line) _ (ap (λ db. db.ready) books.db ∙ ready) bound steps
          (not_negative n.pre_friendnumber) in
      (
        stored.0,
        ap (select_range ch (codes "outgoing") (clamp_sn serial) (clamp_sn serial))
              (stored.1 ∙ ap (λ db. insert_or_replace row db.rows) books.db)
            ∙ select_range-insert_or_replace ch (codes "outgoing") (clamp_sn serial) row n.db.rows
                mine unused,
      )
    where
      mine :
          (of_channel ch (codes "outgoing") row
            && in_serials (clamp_sn serial) (clamp_sn serial) row.msg_sn)
          ≡ true
      mine =
          rw
            (
              (eqb_ℤ_iff ch ch).1 refl,
              (str_eq_iff (codes "outgoing") (codes "outgoing")).1 refl,
              itself (clamp_sn serial),
            )
            refl

  pub fetched :
      n.db.ready ≡ true
      → w.sqlite.prepared ≡ true
      → w.sqlite.bound ≡ true
      → w.sqlite.failing_step ≡ none
      → Unused ch (codes "outgoing") (clamp_sn serial) n.db.rows
      → relay_fetch_range w.sqlite after.db ch serial serial max_replay
        ≡ as_stored (replay_entry row) ∷ []
  unfolding relay_fetch_range as_stored
  fetched ready prepared bound steps unused =
      ap (λ sn. relay_fetch_range w.sqlite after.db ch sn sn max_replay) (sym number)
      ∙ rw
          (msg_database_range-one w.sqlite ch (codes "outgoing") (clamp_sn serial) 62 row after.db
            kept.0 prepared bound steps (not_negative n.pre_friendnumber)
            (in_table (clamp_sn serial) (ap sn_valid number ∙ valid)) kept.1)
          refl
    where
      kept :
          (after.db.ready ≡ true)
          × (select_range ch (codes "outgoing") (clamp_sn serial) (clamp_sn serial) after.db.rows
              ≡ row ∷ [])
      kept = after_rows ready bound steps unused

      valid : sn_valid serial ≡ true
      valid = sn_next-valid peer.send_sn

      number : pos (clamp_sn serial) ≡ serial
      number = clamp_sn-valid serial valid
