-- ===== src/Telegram/Codec/Contract.antt =====
-- What a caller of src/telegram.c can rely on: the answers of the encoders on every branch, the
-- round trips, and the bodies that do not survive.
use tox_relayer.Prelude.{
  ℕ, suc, ◌+◌, ◌≤◌, ◌≡◌, ◌≢◌, refl, ap, sym, ◌∙◌, ◌⊎◌, inl, inr, Bool, true, false, not, ◌||◌,
  Option, none, some, List, [], ◌∷◌, ◌++◌, arith, if◌then◌else◌, ◌==◌, leb, length, if-elim, ◌>>=◌,
}
use tox_relayer.Prelude.Int.{ℤ, pos, negsuc}
use tox_relayer.Text.{has_byte}
use tox_relayer.Text.Decimal.{IsLong}
use tox_relayer.Telegram.Serial.{sn_valid}
use tox_relayer.Telegram.Serial.Laws.{sn_valid-Serial}
use tox_relayer.Telegram.Encode.{
  Encoded, failed, field_ok, body_ok, field_text, encode_text, encode_cmd, err_toosmall,
}
use tox_relayer.Telegram.Decode.{Message, text, cmd, decode}
use tox_relayer.Telegram.Codec.{text_frame, cmd_frame}
use tox_relayer.Telegram.Codec.Building.{write_text-eq-text_frame, write_cmd-eq-cmd_frame}
use tox_relayer.Telegram.Codec.Lines.{fits}
use tox_relayer.Telegram.Codec.RoundTrip.{
  field_ok-IsKey, decode-text_frame, decode-text_frame-head, decode-cmd_frame,
}
use tox_relayer.Telegram.Codec.Losses.{body_loop-one_line}
use tox_relayer.Text.Bytes.{IsPlain}
use tox_relayer.Telegram.Decode.{body_loop}
use tox_relayer.Telegram.Encode.{terminator}
use tox_relayer.Text.{newline}

-- The arguments that `tg_encode_text` accepts.
pub record Accepts (receiver sender : Option (List ℕ)) (sn : ℤ) (body : Option (List ℕ))
    : Type 0 where
  pub receiver_ok : field_ok receiver ≡ true
  pub sender_ok : field_ok sender ≡ true
  pub sn_ok : sn_valid sn ≡ true
  pub body_fine : body_ok body ≡ true

not-false : (b : Bool) → not b ≡ false → b ≡ true
not-false b h = ground arith

-- The two answers of an encoder: the frame, when the arguments are accepted and the frame fits with
-- its NUL; else a negative code and an empty destination.
abbrev pub Answers : Type 0 → List ℕ → ℕ → Encoded → Type 0
Answers accepts t size e =
    (accepts × (length t + 1 ≤ size) × (e ≡ record { rc = pos (length t); out = t }))
    ⊎ ((¬ (accepts × (length t + 1 ≤ size))) × ((n : ℕ) × (e ≡ failed (negsuc n))))

written-Answers :
    (accepts : Type 0) (t : List ℕ) (size : ℕ)
    → accepts
    → Answers accepts t size (
        if leb (length t + 1) size
        then record { rc = pos (length t); out = t }
        else failed err_toosmall)
written-Answers accepts t size a =
    if-elim (Answers accepts t size) (leb (length t + 1) size) (λ e. inl (a, ground arith, refl))
      (λ e. inr (λ h. absurd (too_small e h.1), (2, refl)))
  where
    too_small : leb (length t + 1) size ≡ false → length t + 1 ≤ size → ⊥
    too_small e h = ground arith

-- `tg_encode_text` writes the frame and answers its length exactly when it accepts its arguments
-- and the frame fits the destination with its NUL. In every other case the code is negative and the
-- destination holds the empty string.
pub encode_text-Answers :
    (size : ℕ) (receiver sender : Option (List ℕ)) (sn timestamp : ℤ) (body : Option (List ℕ))
    → Answers
        (Accepts receiver sender sn body)
        (text_frame (field_text receiver) (field_text sender) sn timestamp (field_text body))
        size
        (encode_text (some size) receiver sender sn timestamp body)
unfolding encode_text
encode_text-Answers size receiver sender sn timestamp body =
    if-elim P (size == 0) (λ e. inr (λ h. absurd (ground arith), (0, refl)))
      (λ e₀.
        if-elim P (not (field_ok receiver) || not (field_ok sender))
          (λ e. inr (λ h. absurd (bad_field e h.0), (3, refl)))
          (λ e₁.
            if-elim P (not (sn_valid sn)) (λ e. inr (λ h. absurd (clash _ e h.0.sn_ok), (1, refl)))
              (λ e₂.
                if-elim P (not (body_ok body))
                  (λ e. inr (λ h. absurd (clash _ e h.0.body_fine), (3, refl)))
                  (λ e₃.
                    rw
                      (write_text-eq-text_frame size (field_text receiver) (field_text sender) sn
                        timestamp body (ground arith))
                      (written-Answers _ _ size (record {
                        receiver_ok = ground arith;
                        sender_ok = ground arith;
                        sn_ok = not-false _ e₂;
                        body_fine = not-false _ e₃;
                      }))))))
  where
    t : List ℕ
    t = text_frame (field_text receiver) (field_text sender) sn timestamp (field_text body)

    P : Encoded → Type 0
    P = Answers (Accepts receiver sender sn body) t size

    clash : (b : Bool) → not b ≡ true → b ≡ true → ⊥
    clash b e h = ground arith

    bad_field :
        not (field_ok receiver) || not (field_ok sender) ≡ true
        → Accepts receiver sender sn body
        → ⊥
    bad_field e a = ground (arith, a.receiver_ok, a.sender_ok)

pub record AcceptsCmd (receiver sender : Option (List ℕ)) (from to : ℤ) : Type 0 where
  pub receiver_ok : field_ok receiver ≡ true
  pub sender_ok : field_ok sender ≡ true
  pub from_ok : sn_valid from ≡ true
  pub to_ok : sn_valid to ≡ true

-- `tg_encode_cmd` writes the frame and answers its length exactly when both keys and both serials
-- are acceptable and the frame fits the destination with its NUL. In every other case the code is
-- negative and the destination holds the empty string.
pub encode_cmd-Answers :
    (size : ℕ) (receiver sender : Option (List ℕ)) (from to : ℤ)
    → Answers
        (AcceptsCmd receiver sender from to)
        (cmd_frame (field_text receiver) (field_text sender) from to)
        size
        (encode_cmd (some size) receiver sender from to)
unfolding encode_cmd
encode_cmd-Answers size receiver sender from to =
    if-elim P (size == 0) (λ e. inr (λ h. absurd (ground arith), (0, refl)))
      (λ e₀.
        if-elim P (not (field_ok receiver) || not (field_ok sender))
          (λ e. inr (λ h. absurd (ground (arith, h.0.receiver_ok, h.0.sender_ok)), (3, refl)))
          (λ e₁.
            if-elim P (not (sn_valid from) || not (sn_valid to))
              (λ e. inr (λ h. absurd (ground (arith, h.0.from_ok, h.0.to_ok)), (1, refl)))
              (λ e₂.
                rw
                  (write_cmd-eq-cmd_frame size (field_text receiver) (field_text sender) from to
                    (ground arith))
                  (written-Answers _ _ size (record {
                    receiver_ok = ground arith;
                    sender_ok = ground arith;
                    from_ok = ground arith;
                    to_ok = ground arith;
                  })))))
  where
    P : Encoded → Type 0
    P =
        Answers (AcceptsCmd receiver sender from to)
          (cmd_frame (field_text receiver) (field_text sender) from to) size

-- A TEXT telegram that was encoded is decoded to what went in, for every serial and every
-- key without a NUL that the encoder accepts, every `long` timestamp and every body of at most 1022 bytes whose bytes are no
-- NUL and no carriage return, whose last line has at most 139 bytes and whose other lines have at
-- most 143.
pub encode_text-decode :
    (size k : ℕ) (receiver sender body : List ℕ) (sn timestamp : ℤ)
    → let e = encode_text (some size) (some receiver) (some sender) sn timestamp (some body) in
      e.rc ≡ pos k
      → has_byte 0 receiver ≡ false
      → has_byte 0 sender ≡ false
      → IsLong timestamp
      → fits 0 body ≡ true
      → length body ≤ 1022
      → decode (some e.out)
        ≡ some (record {
          kind = text;
          receiver = receiver;
          sender = sender;
          sn = sn;
          sn_to = pos 0;
          timestamp = timestamp;
          body = body;
        })
unfolding body_ok
encode_text-decode size k receiver sender body sn timestamp e zr zs l f short =
    elim (encode_text-Answers size (some receiver) (some sender) sn timestamp (some body)) [
      | inl (a, _, q) ↦
          let v = sn_valid-Serial sn a.sn_ok in
          rw (q, v.value_eq)
            (decode-text_frame receiver sender body v.value timestamp
              (field_ok-IsKey receiver zr a.receiver_ok) (field_ok-IsKey sender zs a.sender_ok)
              v.above v.below l a.body_fine f short)
      | inr (_, (n, q)) ↦ absurd (ground (arith, q))
    ]

lost :
    (o : Option (List ℕ)) (message : List ℕ → Message) (m : Message) (body : List ℕ)
    → ((b : List ℕ) → (message b).body ≡ b)
    → ((b : List ℕ) → o ≡ some b → b ≢ body)
    → (o >>= λ b. some (message b)) ≡ some m
    → m.body ≢ body
lost none message m body keeps other h = absurd (cc)
lost (some b) message m body keeps other h = λ e. other b refl (cc (keeps b))

-- A one-line body of 140 bytes or more that the encoder accepted, with keys without a NUL, never
-- comes back: when the
-- decoder answers a message at all, its body is another.
pub encode_text-decode_long :
    (size k : ℕ) (receiver sender body : List ℕ) (sn timestamp : ℤ) (m : Message)
    → let e = encode_text (some size) (some receiver) (some sender) sn timestamp (some body) in
      e.rc ≡ pos k
      → has_byte 0 receiver ≡ false
      → has_byte 0 sender ≡ false
      → IsLong timestamp
      → IsPlain body
      → 140 ≤ length body
      → decode (some e.out) ≡ some m
      → m.body ≢ body
encode_text-decode_long size k receiver sender body sn timestamp m e zr zs l p long d =
    elim (encode_text-Answers size (some receiver) (some sender) sn timestamp (some body)) [
      | inl (a, _, q) ↦
          let v = sn_valid-Serial sn a.sn_ok in
          let head =
            decode-text_frame-head receiver sender body v.value timestamp
              (field_ok-IsKey receiver zr a.receiver_ok) (field_ok-IsKey sender zs a.sender_ok)
              v.above v.below l in
          lost (body_loop (suc (length rest)) rest []) _ m body (λ _. refl)
            (λ b. body_loop-one_line (length rest) body b p long)
            (sym head
              ∙ ap (λ s. decode (some (text_frame receiver sender s timestamp body)))
                  (sym v.value_eq)
              ∙ ap (λ r. decode (some r.out)) (sym q)
              ∙ d)
      | inr (_, (n, q)) ↦ absurd (ground (arith, q))
    ]
  where
    rest : List ℕ
    rest = body ++ (terminator ++ (newline ∷ []))

-- A control telegram that was encoded is decoded to what went in, when neither key holds a NUL.
pub encode_cmd-decode :
    (size k : ℕ) (receiver sender : List ℕ) (from to : ℤ)
    → let e = encode_cmd (some size) (some receiver) (some sender) from to in
      e.rc ≡ pos k
      → has_byte 0 receiver ≡ false
      → has_byte 0 sender ≡ false
      → decode (some e.out)
        ≡ some (record {
          kind = cmd;
          receiver = receiver;
          sender = sender;
          sn = from;
          sn_to = to;
          timestamp = pos 0;
          body = [];
        })
encode_cmd-decode size k receiver sender from to e zr zs =
    elim (encode_cmd-Answers size (some receiver) (some sender) from to) [
      | inl (a, _, q) ↦
          let v = sn_valid-Serial from a.from_ok in
          let w = sn_valid-Serial to a.to_ok in
          rw (q, v.value_eq, w.value_eq)
            (decode-cmd_frame receiver sender v.value w.value
              (field_ok-IsKey receiver zr a.receiver_ok) (field_ok-IsKey sender zs a.sender_ok)
              v.above v.below w.above w.below)
      | inr (_, (n, q)) ↦ absurd (ground (arith, q))
    ]
