-- ===== src/Node/Console/Sending.antt =====
-- A line that is sent: what the queue, the peer and the database get of it.
use tox_relayer.Prelude.{
  ℕ, ◌+◌, ◌≤◌, ◌<◌, ◌≡◌, refl, sym, ap, ◌∙◌, ◌⊎◌, inl, inr, Bool, true, false, ◌||◌, Option, none,
  some, List, arith, leb, ◌==◌, length, take, if◌then◌else◌,
}
use tox_relayer.Prelude.Int.{ℤ, pos, negsuc, ltb_ℤ, eqb_ℤ_iff, pos_part}
use tox_relayer.Text.{codes, has_byte}
use tox_relayer.Text.Bytes.{take_all}
use tox_relayer.Text.Decimal.{IsLong}
use tox_relayer.Telegram.Serial.{sn_valid, sn_next}
use tox_relayer.Telegram.Serial.Laws.{sn_next-valid}
use tox_relayer.Telegram.Encode.{Encoded, encode_text}
use tox_relayer.Telegram.Decode.{text, decode}
use tox_relayer.Telegram.Codec.Lines.{fits}
use tox_relayer.Telegram.Codec.Contract.{encode_text-Answers, encode_text-decode}
use tox_relayer.Queue.{Queue, Status, ok, err_full, enqueue}
use tox_relayer.Queue.Bag.{Weight, bag, Added}
use tox_relayer.Queue.Invariant.{IsConfig, IsQueue}
use tox_relayer.Queue.Enqueue.{enqueue_lem}
use tox_relayer.Database.{new_row, replay_entry, clamp_sn, copy_bounded}
use tox_relayer.Database.Store.{row_at, msg_database_add_lem}
use tox_relayer.Relay.{wire_max}
use tox_relayer.Friends.{Contact, contact_at, as_stored}
use tox_relayer.Node.{Node, act, touch, with_queue}
use tox_relayer.Node.Messages.{World}
use tox_relayer.Node.Console.{next_serial, outgoing, hand_over, send_line}

no_sign : (m k : ℕ) → negsuc m ≡ pos k → ⊥
no_sign m k h = ground (arith, h)

-- The bytes of a record are as many as its code says.
pub length-encode_text :
    (size k : ℕ) (receiver sender body : Option (List ℕ)) (sn timestamp : ℤ)
    → let e = encode_text (some size) receiver sender sn timestamp body in
      e.rc ≡ pos k → length e.out ≡ k
length-encode_text size k receiver sender body sn timestamp h =
    elim (encode_text-Answers size receiver sender sn timestamp body) [
      | inl (a, room, q) ↦
          ap (λ (e : Encoded). length e.out) q
          ∙ ap pos_part (sym (ap (λ (e : Encoded). e.rc) q) ∙ h)
      | inr (refused, (m, q)) ↦ absurd (no_sign m k (sym (ap (λ (e : Encoded). e.rc) q) ∙ h))
    ]

-- A record that fits a buffer is the same in a larger one.
encode_text-room :
    (size more k : ℕ) (receiver sender body : Option (List ℕ)) (sn timestamp : ℤ)
    → (encode_text (some size) receiver sender sn timestamp body).rc ≡ pos k
    → size ≤ more
    → encode_text (some more) receiver sender sn timestamp body
      ≡ encode_text (some size) receiver sender sn timestamp body
encode_text-room size more k receiver sender body sn timestamp h le =
    elim (encode_text-Answers size receiver sender sn timestamp body) [
      | inl (a, room, q) ↦ elim (encode_text-Answers more receiver sender sn timestamp body) [
        | inl (_, _, q') ↦ q' ∙ sym q
        | inr (refused, _) ↦ absurd (refused (a, omega (arith, room, le)))
      ]
      | inr (refused, (m, q)) ↦ absurd (no_sign m k (sym (ap (λ (e : Encoded). e.rc) q) ∙ h))
    ]

pub clamp_sn-valid : (sn : ℤ) → sn_valid sn ≡ true → pos (clamp_sn sn) ≡ sn
unfolding clamp_sn sn_valid
clamp_sn-valid (pos m) h = ground (arith, h)
clamp_sn-valid (negsuc m) h = absurd (ground (arith, h))

first_choice {ℓ} : {A : Type ℓ} (b : Bool) (x y : A) → b ≡ true → (if b then x else y) ≡ x
first_choice true x y e = refl
first_choice false x y e = absurd (ground (arith, e))

pub not_negative : (m : ℕ) → ltb_ℤ (pos m) (pos 0) ≡ false
not_negative m = ground arith

module _ (w : World) (ok_c : IsConfig w.config) (wire_size k : ℕ) (line : List ℕ) (n : Node) where
  abbrev pub channel : ℕ
  channel = n.pre_friendnumber

  abbrev pub contact : Contact
  contact = contact_at n.contacts (pos channel)

  abbrev pub wire : Encoded
  wire =
      encode_text (some wire_size) (some contact.public_key_str) (some n.self_public_key_str)
        (sn_next contact.send_sn) w.now (some line)

  -- A line that fits a telegram, to a peer that speaks metaCom, while there is room in the queue and SQLite
  -- works: the queue gains exactly one message, to that peer, which decodes to the line as it was typed
  -- with the serial after the last one; and the database keeps the line under that serial.
  pub send_line_lem :
      contact.meta_chat_flag ≡ true
      → wire.rc ≡ pos k
      → has_byte 0 contact.public_key_str ≡ false
      → has_byte 0 n.self_public_key_str ≡ false
      → IsLong w.now
      → fits 0 line ≡ true
      → length line ≤ 1022
      → IsQueue w.config n.queue
      → n.queue.count < w.config.capacity
      → (k == 0 || leb w.config.payload_max k) ≡ false
      → n.db.ready ≡ true
      → w.sqlite.bound ≡ true
      → w.sqlite.failing_step ≡ none
      → let n' = send_line w wire_size line n in
        Added n.queue n'.queue (pos channel) wire.out
        × (decode (some wire.out)
            ≡ some (record {
              kind = text;
              receiver = contact.public_key_str;
              sender = n.self_public_key_str;
              sn = sn_next contact.send_sn;
              sn_to = pos 0;
              timestamp = w.now;
              body = line;
            }))
        × (row_at w.now n'.db.rows
            ≡ some (
                new_row
                  (pos channel)
                  (sn_next contact.send_sn)
                  w.now
                  (some n.self_public_key_str)
                  (codes "outgoing")
                  (some line)))
  unfolding send_line next_serial hand_over outgoing touch act with_queue
  send_line_lem meta good key self long fine short v room len ready bound steps =
      let stored =
        msg_database_add_lem w.sqlite (pos channel) (sn_next contact.send_sn) w.now
          (some n.self_public_key_str) (codes "outgoing") (some line) n.db ready bound steps
          (not_negative channel) in
      let queued =
        enqueue_lem w.config ok_c n.queue (pos channel) wire.out k w.now v
          (rw (not_negative channel) len) (omega (arith, whole_out)) in
      rw (meta, good, not_negative k)
        (
          λ f. gained f queued,
          encode_text-decode wire_size k contact.public_key_str n.self_public_key_str line
              (sn_next contact.send_sn) w.now good key self long fine short,
          stored.2 w.now ∙ first_choice _ _ _ ((eqb_ℤ_iff w.now w.now).1 refl),
        )
    where
      whole_out : length wire.out ≡ k
      whole_out =
          length-encode_text wire_size k (some contact.public_key_str) (some n.self_public_key_str)
            (some line) (sn_next contact.send_sn) w.now good

      queue_of : Queue × Status
      queue_of = enqueue w.config n.queue (pos channel) (some wire.out) k w.now

      gained :
          (f : Weight)
          → ((n.queue.count < w.config.capacity)
              × (queue_of.1 ≡ ok)
              × (queue_of.0.count ≡ n.queue.count + 1)
              × Added n.queue queue_of.0 (pos channel) (take k wire.out))
            ⊎ ((n.queue.count ≡ w.config.capacity)
                × (queue_of.1 ≡ err_full)
                × (queue_of.0.count ≡ n.queue.count)
                × (queue_of.0.ring ≡ n.queue.ring))
          → bag f queue_of.0.ring ≡ bag f n.queue.ring + f (pos channel) wire.out
      gained f (inl (_, _, _, added)) =
          added f
          ∙ ap (λ out. bag f n.queue.ring + f (pos channel) out)
              (take_all wire.out k (omega (arith, whole_out)))
      gained f (inr (full, _, _, _)) = absurd (omega (arith, full, room))

  -- The telegram of the stored row is the one of the line.
  pub encode_text-stored :
      wire.rc ≡ pos k
      → length line ≤ 1022
      → wire_size ≤ wire_max
      → let row =
          new_row
            (pos channel)
            (sn_next contact.send_sn)
            w.now
            (some n.self_public_key_str)
            (codes "outgoing")
            (some line) in
        let s = as_stored (replay_entry row) in
        encode_text
          (some wire_max)
          (some contact.public_key_str)
          (some n.self_public_key_str)
          s.sn
          s.timestamp
          (some s.body)
        ≡ wire
  unfolding as_stored replay_entry new_row clamp_sn copy_bounded
  encode_text-stored good short fits_wire =
      rw
        (
          clamp_sn-valid (sn_next contact.send_sn) (sn_next-valid contact.send_sn),
          take_all line 1023 (omega (arith, short)),
          take_all line 1023 (omega (arith, short)),
        )
        (encode_text-room wire_size wire_max k (some contact.public_key_str)
          (some n.self_public_key_str) (some line) (sn_next contact.send_sn) w.now good fits_wire)
