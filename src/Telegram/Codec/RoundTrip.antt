-- ===== src/Telegram/Codec/RoundTrip.antt =====
-- The decoder on what the encoders write.
use tox_relayer.Prelude.{
  ℕ, suc, ◌≤◌, ◌≡◌, refl, ap, sym, ◌∙◌, true, false, some, List, [], ◌∷◌, ◌++◌, arith, length,
  length-append, ◌>>=◌,
}
use mathlib.Core.List.{append_assoc, append-nil}
use tox_relayer.Prelude.Int.{ℤ, pos}
use tox_relayer.Text.{codes, newline, has_byte, str_eq, print_long, print_04d, to_int}
use tox_relayer.Text.Bytes.{IsPlain, IsPlain-append, IsPlain-has_byte, take_all}
use tox_relayer.Text.Decimal.{
  IsLong, strtol-print_long, strtol-print_04d, length-print_long, length-print_04d,
  length-print_small, IsPlain-print_long, IsPlain-print_04d,
}
use tox_relayer.Telegram.Serial.{sn_valid}
use tox_relayer.Telegram.Serial.Laws.{Serial-sn_valid}
use tox_relayer.Telegram.Encode.{
  field_ok, ends_record, scan_body, terminator, text_meta, cmd_request,
}
use tox_relayer.Telegram.Decode.{
  Kind, text, cmd, Meta, header_kind, key_ok, text_line, cmd_line, meta_line, after_byte, body_loop,
  decode,
}
use tox_relayer.Telegram.Codec.{keyed, text_frame, cmd_frame}
use tox_relayer.Telegram.Codec.Lines.{whole_line-IsPlain, fits, body_loop-fits}

-- A key that the encoders accept.
pub record IsKey (key : List ℕ) : Type 0 where
  pub is_plain : IsPlain key
  pub accepted : key_ok key ≡ true
  pub short : length key ≤ 127

pub field_ok-IsKey :
    (key : List ℕ) → has_byte 0 key ≡ false → field_ok (some key) ≡ true → IsKey key
unfolding field_ok key_ok
field_ok-IsKey [] z h = ground arith
field_ok-IsKey (c ∷ cs) z h = record {
  is_plain = IsPlain-has_byte (c ∷ cs) z (ground arith) (ground arith);
  accepted = ground arith;
  short = ground arith;
}

to_int_small : (n : ℕ) → n ≤ 999 → to_int (pos n) ≡ pos n
unfolding to_int
to_int_small n h = ground arith

pos-sn_valid : (n : ℕ) → 1 ≤ n → n ≤ 999 → sn_valid (pos n) ≡ true
pos-sn_valid n h g = Serial-sn_valid (record { value = n; value_eq = refl; above = h; below = g })

-- The metadata line, without its end.
abbrev numbers_line : ℕ → ℤ → List ℕ
numbers_line n timestamp = print_04d (pos n) ++ (32 ∷ print_long timestamp)

text_meta-line :
    (n : ℕ) (timestamp : ℤ)
    → n ≤ 999
    → IsLong timestamp
    → text_meta (pos n) timestamp ≡ numbers_line n timestamp ++ (newline ∷ [])
unfolding text_meta
text_meta-line n timestamp h l =
    take_all _ 31 (
      omega (
        arith,
        length-append (print_04d (pos n)) (32 ∷ (print_long timestamp ++ (newline ∷ []))),
        length-append (print_long timestamp) (newline ∷ []),
        length-print_04d n h,
        length-print_long timestamp l,
      ))
    ∙ sym (append_assoc (print_04d (pos n)) (32 ∷ print_long timestamp) (newline ∷ []))

text_line-numbers_line :
    (n : ℕ) (timestamp : ℤ)
    → 1 ≤ n
    → n ≤ 999
    → IsLong timestamp
    → text_line (numbers_line n timestamp)
      ≡ some (record { sn = pos n; sn_to = pos 0; timestamp = timestamp })
unfolding text_line after_byte
text_line-numbers_line n timestamp h g l =
    rw
      (
        strtol-print_04d n (32 ∷ print_long timestamp) (omega arith) refl,
        sym (append-nil (print_long timestamp)),
        strtol-print_long timestamp [] l tt,
        to_int_small n g,
        pos-sn_valid n h g,
      )
      refl

-- What is left of the decoder once the header, the keys and the metadata are read.
decode_head :
    (kind : Kind) (head receiver sender line rest : List ℕ) (fields : Meta)
    → IsPlain head
    → length head ≤ 143
    → header_kind head ≡ some kind
    → IsKey receiver
    → IsKey sender
    → IsPlain line
    → length line ≤ 143
    → meta_line kind line ≡ some fields
    → decode (some (head ++ (newline ∷ keyed receiver sender (line ++ (newline ∷ rest))))) ≡ (
        body_loop (suc (length rest)) rest [] >>= λ body. some (record {
          kind = kind;
          receiver = receiver;
          sender = sender;
          sn = fields.sn;
          sn_to = fields.sn_to;
          timestamp = fields.timestamp;
          body = body;
        }))
unfolding decode keyed
decode_head kind head receiver sender line rest fields hp hl hk r s p h e =
    rw
      (
        whole_line-IsPlain head _ hp hl,
        hk,
        whole_line-IsPlain receiver _ r.is_plain (omega (arith, r.short)),
        r.accepted,
        whole_line-IsPlain sender _ s.is_plain (omega (arith, s.short)),
        s.accepted,
        whole_line-IsPlain line rest p h,
        e,
      )
      refl

header_kind-text : header_kind (codes "ZCZC TEXT") ≡ some text
unfolding header_kind str_eq
header_kind-text = refl

header_kind-cmd : header_kind (codes "ZCZC CMD") ≡ some cmd
unfolding header_kind str_eq
header_kind-cmd = refl

-- A TEXT frame reaches the body loop with its header, keys and numbers read back.
pub decode-text_frame-head :
    (receiver sender body : List ℕ) (n : ℕ) (timestamp : ℤ)
    → IsKey receiver
    → IsKey sender
    → 1 ≤ n
    → n ≤ 999
    → IsLong timestamp
    → let rest = body ++ (terminator ++ (newline ∷ [])) in
      decode (some (text_frame receiver sender (pos n) timestamp body)) ≡ (
        body_loop (suc (length rest)) rest [] >>= λ b. some (record {
          kind = text;
          receiver = receiver;
          sender = sender;
          sn = pos n;
          sn_to = pos 0;
          timestamp = timestamp;
          body = b;
        }))
unfolding text_frame meta_line
decode-text_frame-head receiver sender body n timestamp r s h g l =
    rw
      (
        text_meta-line n timestamp g l,
        append_assoc (numbers_line n timestamp) (newline ∷ [])
            (body ++ (terminator ++ (newline ∷ []))),
      )
      (decode_head text (codes "ZCZC TEXT") receiver sender (numbers_line n timestamp) _ _
        (ground arith) (omega arith) header_kind-text r s
        (IsPlain-append (print_04d (pos n)) (32 ∷ print_long timestamp) (IsPlain-print_04d n)
          (refl, IsPlain-print_long timestamp))
        (omega (
          arith,
          length-append (print_04d (pos n)) (32 ∷ print_long timestamp),
          length-print_04d n g,
          length-print_long timestamp l,
        ))
        (text_line-numbers_line n timestamp h g l))

-- The decoder gives back what stands in a TEXT frame whose body fits the decoder's buffers.
pub decode-text_frame :
    (receiver sender body : List ℕ) (n : ℕ) (timestamp : ℤ)
    → IsKey receiver
    → IsKey sender
    → 1 ≤ n
    → n ≤ 999
    → IsLong timestamp
    → scan_body [] body ≡ true
    → fits 0 body ≡ true
    → length body ≤ 1022
    → decode (some (text_frame receiver sender (pos n) timestamp body))
      ≡ some (record {
        kind = text;
        receiver = receiver;
        sender = sender;
        sn = pos n;
        sn_to = pos 0;
        timestamp = timestamp;
        body = body;
      })
decode-text_frame receiver sender body n timestamp r s h g l scanned fit short =
    rw
      (
        decode-text_frame-head receiver sender body n timestamp r s h g l,
        body_loop-fits body [] [] (suc (length (body ++ (terminator ++ (newline ∷ []))))) tt fit
            scanned (omega arith)
            (omega (arith, length-append body (terminator ++ (newline ∷ [])))),
      )
      refl

abbrev request_line : ℕ → ℕ → List ℕ
request_line m n = codes "R:" ++ (print_long (pos m) ++ (b'-' ∷ print_long (pos n)))

cmd_request-line :
    (m n : ℕ) → m ≤ 999 → n ≤ 999 → cmd_request (pos m) (pos n) ≡ request_line m n ++ (newline ∷ [])
unfolding cmd_request
cmd_request-line m n h g =
    take_all _ 31 (
      omega (
        arith,
        length-append (print_long (pos m)) (b'-' ∷ (print_long (pos n) ++ (newline ∷ []))),
        length-append (print_long (pos n)) (newline ∷ []),
        length-print_small m h,
        length-print_small n g,
      ))
    ∙ ap (λ xs. b'R' ∷ b':' ∷ xs)
        (sym (append_assoc (print_long (pos m)) (b'-' ∷ print_long (pos n)) (newline ∷ [])))

cmd_line-request_line :
    (m n : ℕ)
    → 1 ≤ m
    → m ≤ 999
    → 1 ≤ n
    → n ≤ 999
    → cmd_line (request_line m n) ≡ some (record { sn = pos m; sn_to = pos n; timestamp = pos 0 })
unfolding cmd_line after_byte
cmd_line-request_line m n h g h' g' =
    rw
      (
        strtol-print_long (pos m) (b'-' ∷ print_long (pos n)) (omega arith) refl,
        sym (append-nil (print_long (pos n))),
        strtol-print_long (pos n) [] (omega arith) tt,
        to_int_small m g,
        pos-sn_valid m h g,
        to_int_small n g',
        pos-sn_valid n h' g',
      )
      refl

-- The decoder gives back what stands in a control frame.
pub decode-cmd_frame :
    (receiver sender : List ℕ) (m n : ℕ)
    → IsKey receiver
    → IsKey sender
    → 1 ≤ m
    → m ≤ 999
    → 1 ≤ n
    → n ≤ 999
    → decode (some (cmd_frame receiver sender (pos m) (pos n)))
      ≡ some (record {
        kind = cmd;
        receiver = receiver;
        sender = sender;
        sn = pos m;
        sn_to = pos n;
        timestamp = pos 0;
        body = [];
      })
unfolding cmd_frame meta_line fits scan_body ends_record
decode-cmd_frame receiver sender m n r s h g h' g' =
    rw
      (
        cmd_request-line m n g g',
        append_assoc (request_line m n) (newline ∷ []) (terminator ++ (newline ∷ [])),
        decode_head cmd (codes "ZCZC CMD") receiver sender (request_line m n) _ _ (ground arith)
            (omega arith) header_kind-cmd r s
            (
              refl,
              (
                refl,
                IsPlain-append (print_long (pos m)) (b'-' ∷ print_long (pos n))
                    (IsPlain-print_long (pos m)) (refl, IsPlain-print_long (pos n)),
              ),
            )
            (omega (
              arith,
              length-append (print_long (pos m)) (b'-' ∷ print_long (pos n)),
              length-print_small m g,
              length-print_small n g',
            ))
            (cmd_line-request_line m n h g h' g'),
        body_loop-fits [] [] [] 6 tt refl refl (omega arith) (omega arith),
      )
      refl
