-- ===== src/Telegram/Encode.antt =====
-- The bounded builder, the field checks and the encoders of src/telegram.c. A C string argument is
-- an `Option` of its bytes, `none` for NULL; the destination is its capacity, `none` for NULL. An
-- encoder answers its return code with the C string that it leaves in the destination.
use tox_relayer.Prelude.{
  ℕ, ◌+◌, ◌-◌, Bool, true, false, not, ◌&&◌, ◌||◌, Option, none, some, List, [], ◌∷◌, ◌++◌,
  if◌then◌else◌, ltb, leb, ◌==◌, length, take, drop,
}
use tox_relayer.Prelude.Int.{ℤ, pos, negsuc}
use tox_relayer.Text.{codes, newline, carriage_return, str_eq, has_byte, print_long, print_04d}
use tox_relayer.Telegram.Serial.{sn_valid}

abbrev pub field_max : ℕ
field_max = 128

abbrev pub body_max : ℕ
body_max = 1024

abbrev pub terminator : List ℕ
terminator = codes "NNNN"

-- `TG_ERR_ARG`, `TG_ERR_RANGE`, `TG_ERR_TOOSMALL`, `TG_ERR_FORMAT`.
abbrev pub err_arg : ℤ
err_arg = negsuc 0

abbrev pub err_range : ℤ
err_range = negsuc 1

abbrev pub err_toosmall : ℤ
err_toosmall = negsuc 2

abbrev pub err_format : ℤ
err_format = negsuc 3

-- `tg_buf`: `text` is what stands in `buf` before the NUL, so `len` is its length.
pub record Buf : Type 0 where
  pub text : List ℕ
  pub cap : ℕ
  pub overflow : Bool

unfoldable pub buf_init : ℕ → Buf
buf_init cap = record { text = []; cap = cap; overflow = false }

unfoldable pub buf_put : Buf → List ℕ → Buf
buf_put b src =
    if b.overflow || b.cap == 0
    then b
    else if ltb b.cap (length b.text + length src + 1)
    then record b { overflow = true }
    else record b { text = b.text ++ src }

unfoldable pub field_ok : Option (List ℕ) → Bool
field_ok none = false
field_ok (some []) = false
field_ok (some (c ∷ cs)) =
    let field = c ∷ cs in
    not (leb field_max (length field))
    && (not (has_byte newline field) && not (has_byte carriage_return field))

-- A line that ends in the terminator.
unfoldable pub ends_record : List ℕ → Bool
ends_record line = let n = length line in leb 4 n && str_eq (drop (n - 4) line) terminator

-- The scan of `tg_body_ok` with the bytes of the current line so far.
unfoldable pub scan_body : List ℕ → List ℕ → Bool
scan_body line [] = not (ends_record line)
scan_body line (c ∷ cs) =
    let rest = scan_body (if c == newline then [] else line ++ (c ∷ [])) cs in
    if c == newline && ends_record line then false else rest

unfoldable pub body_ok : Option (List ℕ) → Bool
body_ok none = true
body_ok (some body) = scan_body [] body

pub record Encoded : Type 0 where
  pub rc : ℤ
  pub out : List ℕ

abbrev pub failed : ℤ → Encoded
failed e = record { rc = e; out = [] }

unfoldable pub finish : Buf → Encoded
finish b =
    if b.overflow then failed err_toosmall else record { rc = pos (length b.text); out = b.text }

-- The text of an accepted field.
abbrev pub field_text : Option (List ℕ) → List ℕ
field_text none = []
field_text (some f) = f

unfoldable pub put_keys : Buf → List ℕ → List ℕ → Buf
put_keys b receiver sender =
    buf_put (buf_put (buf_put (buf_put b receiver) (newline ∷ [])) sender) (newline ∷ [])

-- `snprintf` into `char meta[32]` and `char req[32]` keeps 31 bytes.
unfoldable pub text_meta : ℤ → ℤ → List ℕ
text_meta sn timestamp = take 31 (print_04d sn ++ (32 ∷ (print_long timestamp ++ (newline ∷ []))))

unfoldable pub cmd_request : ℤ → ℤ → List ℕ
cmd_request from to =
    take 31 (codes "R:" ++ (print_long from ++ (b'-' ∷ (print_long to ++ (newline ∷ [])))))

unfoldable pub put_body : Buf → Option (List ℕ) → Buf
put_body b none = b
put_body b (some []) = b
put_body b (some (c ∷ cs)) = buf_put b (c ∷ cs)

unfoldable pub write_text : ℕ → List ℕ → List ℕ → ℤ → ℤ → Option (List ℕ) → Encoded
write_text out_size receiver sender sn timestamp body =
    let b = put_keys (buf_put (buf_init out_size) (codes "ZCZC TEXT\n")) receiver sender in
    finish
      (buf_put (put_body (buf_put b (text_meta sn timestamp)) body) (terminator ++ (newline ∷ [])))

unfoldable pub write_cmd : ℕ → List ℕ → List ℕ → ℤ → ℤ → Encoded
write_cmd out_size receiver sender from to =
    let b = put_keys (buf_put (buf_init out_size) (codes "ZCZC CMD\n")) receiver sender in
    finish (buf_put (buf_put b (cmd_request from to)) (terminator ++ (newline ∷ [])))

-- Without a buffer, or with one of size 0, nothing is written; `out` is empty then.
unfoldable pub encode_text :
    Option ℕ → Option (List ℕ) → Option (List ℕ) → ℤ → ℤ → Option (List ℕ) → Encoded
encode_text none receiver sender sn timestamp body = failed err_arg
encode_text (some out_size) receiver sender sn timestamp body =
    if out_size == 0
    then failed err_arg
    else if not (field_ok receiver) || not (field_ok sender)
    then failed err_format
    else if not (sn_valid sn)
    then failed err_range
    else if not (body_ok body)
    then failed err_format
    else write_text out_size (field_text receiver) (field_text sender) sn timestamp body

unfoldable pub encode_cmd : Option ℕ → Option (List ℕ) → Option (List ℕ) → ℤ → ℤ → Encoded
encode_cmd none receiver sender from to = failed err_arg
encode_cmd (some out_size) receiver sender from to =
    if out_size == 0
    then failed err_arg
    else if not (field_ok receiver) || not (field_ok sender)
    then failed err_format
    else if not (sn_valid from) || not (sn_valid to)
    then failed err_range
    else write_cmd out_size (field_text receiver) (field_text sender) from to
