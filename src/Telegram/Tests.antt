-- ===== src/Telegram/Tests.antt =====
-- Runs of the telegram code at fixed inputs, and the theorems applied there.
use tox_relayer.Prelude.{◌≡◌, ◌≢◌, refl, false, some, List, ℕ, ◌++◌, arith, replicate}
use tox_relayer.Prelude.Int.{pos, negsuc}
use tox_relayer.Text.{
  codes, has_byte, str_eq, print_long, print_04d, digits, digits_loop, strtol, skip_spaces,
  scan_digits, clamp_long, take_sign, starts_with_digit, parsed_number, to_int, c_str,
}
use tox_relayer.Text.Bytes.{IsPlain-has_byte}
use tox_relayer.Text.Decimal.{strtol-print_long}
use tox_relayer.Telegram.Serial.{sn_valid}
use tox_relayer.Telegram.Serial.Laws.{IsStepCount, sn_distance-IsStepCount}
use tox_relayer.Telegram.Encode.{
  Encoded, encode_text, encode_cmd, write_text, buf_init, buf_put, put_keys, put_body, finish,
  field_ok, body_ok, scan_body, ends_record, text_meta,
}
use tox_relayer.Telegram.Decode.{
  decode, Message, text, whole_line, next_line, read_line, skip_byte, header_kind, key_ok,
  meta_line, text_line, after_byte, body_loop,
}
use tox_relayer.Telegram.Codec.Lines.{fits}
use tox_relayer.Telegram.Codec.{text_frame, cmd_frame}
use tox_relayer.Telegram.Codec.Contract.{
  Accepts, AcceptsCmd, Answers, encode_text-Answers, encode_cmd-Answers, encode_text-decode,
  encode_text-decode_long,
}

abbrev alice : List ℕ
alice = codes "AB"

abbrev bob : List ℕ
bob = codes "CD"

abbrev hello : List ℕ
hello = codes "hi\nyou"

abbrev sent : Encoded
sent = encode_text (some 1400) (some alice) (some bob) (pos 7) (negsuc 1699) (some hello)

encode_text-Answers_example :
    Answers
      (Accepts (some alice) (some bob) (pos 7) (some hello))
      (text_frame alice bob (pos 7) (negsuc 1699) hello)
      1400
      sent
encode_text-Answers_example =
    encode_text-Answers 1400 (some alice) (some bob) (pos 7) (negsuc 1699) (some hello)

encode_cmd-Answers_example :
    Answers
      (AcceptsCmd (some alice) (some bob) (pos 7) (pos 45))
      (cmd_frame alice bob (pos 7) (pos 45))
      1400
      (encode_cmd (some 1400) (some alice) (some bob) (pos 7) (pos 45))
encode_cmd-Answers_example = encode_cmd-Answers 1400 (some alice) (some bob) (pos 7) (pos 45)

encode_text-decode_example :
    decode (some sent.out)
    ≡ some (record {
      kind = text;
      receiver = alice;
      sender = bob;
      sn = pos 7;
      sn_to = pos 0;
      timestamp = negsuc 1699;
      body = hello;
    })
unfolding encode_text write_text buf_init buf_put put_keys put_body finish field_ok body_ok
    scan_body ends_record text_meta sn_valid has_byte str_eq print_long print_04d digits digits_loop
    fits
encode_text-decode_example =
    encode_text-decode 1400 38 alice bob hello (pos 7) (negsuc 1699) refl refl refl (omega arith)
      refl (omega arith)

abbrev asked : Encoded
asked = encode_cmd (some 1400) (some alice) (some bob) (pos 998) (pos 2)

-- One line of 144 bytes, with NNNN where the decoder's line buffer ends.
abbrev long_body : List ℕ
long_body = replicate 139 65 ++ codes "NNNNB"

abbrev sent_long : Encoded
sent_long = encode_text (some 1400) (some alice) (some bob) (pos 7) (pos 45) (some long_body)

abbrev cut_message : Message
cut_message = record {
  kind = text;
  receiver = alice;
  sender = bob;
  sn = pos 7;
  sn_to = pos 0;
  timestamp = pos 45;
  body = replicate 139 65;
}

-- The decoder answers a message with the first 139 bytes of the body.
decode-sent_long : decode (some sent_long.out) ≡ some cut_message
unfolding decode whole_line next_line read_line skip_byte header_kind key_ok meta_line text_line
    after_byte body_loop strtol skip_spaces take_sign starts_with_digit scan_digits parsed_number
    clamp_long to_int c_str encode_text write_text buf_init buf_put put_keys put_body finish
    field_ok body_ok scan_body ends_record text_meta sn_valid has_byte str_eq print_long print_04d
    digits digits_loop
decode-sent_long = refl

encode_text-decode_long_example : cut_message.body ≢ long_body
unfolding encode_text write_text buf_init buf_put put_keys put_body finish field_ok body_ok
    scan_body ends_record text_meta sn_valid has_byte str_eq print_long print_04d digits digits_loop
encode_text-decode_long_example =
    encode_text-decode_long 1400 173 alice bob long_body (pos 7) (pos 45) cut_message refl refl refl
      (omega arith) (IsPlain-has_byte long_body refl refl refl) (omega arith) decode-sent_long

sn_distance-IsStepCount_example : (d : ℕ) × IsStepCount (pos 998) (pos 2) d
unfolding sn_valid
sn_distance-IsStepCount_example = sn_distance-IsStepCount (pos 998) (pos 2) refl refl

strtol-print_long_example :
    strtol (print_long (negsuc 41) ++ codes " x")
    ≡ some (record { value = negsuc 41; rest = codes " x"; out_of_range = false })
strtol-print_long_example = strtol-print_long (negsuc 41) (codes " x") (omega arith) refl
