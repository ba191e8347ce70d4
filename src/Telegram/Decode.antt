-- ===== src/Telegram/Decode.antt =====
-- The line cursor and the decoder of src/telegram.c. The input is the list of the first `len`
-- bytes of `raw`; `none` is `TG_INVALID`, whose message is unspecified.
use tox_relayer.Prelude.{
  ℕ, zero, suc, ◌+◌, ◌-◌, Bool, true, false, not, ◌&&◌, ◌||◌, Option, none, some, List, [], ◌∷◌,
  ◌++◌, if◌then◌else◌, leb, ◌==◌, length, take, ◌>>=◌, ◌>>◌, require,
}
use tox_relayer.Prelude.Int.{ℤ, pos}
use tox_relayer.Text.{codes, newline, carriage_return, c_str, str_eq, strtol, to_int}
use tox_relayer.Telegram.Serial.{sn_valid}
use tox_relayer.Telegram.Encode.{field_max, body_max, ends_record}

pub data Kind : Type 0 where
  text cmd : Kind

pub record Message : Type 0 where
  pub kind : Kind
  pub receiver : List ℕ
  pub sender : List ℕ
  pub sn : ℤ
  pub sn_to : ℤ
  pub timestamp : ℤ
  pub body : List ℕ

-- `sizeof(line)` of `tg_decode`.
abbrev pub line_size : ℕ
line_size = field_max + 16

-- The bytes stored, whether some did not fit, and what is left at the end of the line. `room` is
-- the number of bytes that still fit before the NUL.
unfoldable pub read_line : ℕ → List ℕ → List ℕ × Bool × List ℕ
read_line room [] = ([], false, [])
read_line room (c ∷ cs) =
    let (stored, truncated, rest) = read_line (room - 1) cs in
    if c == newline || c == carriage_return
    then ([], false, c ∷ cs)
    else if room == 0
    then ([], true, rest)
    else (c ∷ stored, truncated, rest)

unfoldable pub skip_byte : ℕ → List ℕ → List ℕ
skip_byte ch [] = []
skip_byte ch (c ∷ cs) = if c == ch then cs else c ∷ cs

pub record Line : Type 0 where
  pub text : List ℕ
  pub complete : Bool
  pub rest : List ℕ

-- `tg_next_line` into a buffer of `line_size` bytes.
unfoldable pub next_line : List ℕ → Option Line
next_line [] = none
next_line (c ∷ cs) =
    let (stored, truncated, rest) = read_line (line_size - 1) (c ∷ cs) in
    some (record {
      text = c_str stored;
      complete = not truncated;
      rest = skip_byte newline (skip_byte carriage_return rest);
    })

-- A line that has to fit.
unfoldable pub whole_line : List ℕ → Option Line
whole_line s = do line ← next_line s; require line.complete; some line

unfoldable pub header_kind : List ℕ → Option Kind
header_kind line =
    if str_eq line (codes "ZCZC TEXT")
    then some text
    else if str_eq line (codes "ZCZC CMD")
    then some cmd
    else none

-- A receiver or sender line.
unfoldable pub key_ok : List ℕ → Bool
key_ok [] = false
key_ok (c ∷ cs) = not (leb field_max (length (c ∷ cs)))

-- `*end == ch` after a number: the text behind that byte.
unfoldable pub after_byte : ℕ → List ℕ → Option (List ℕ)
after_byte ch [] = none
after_byte ch (c ∷ cs) = if c == ch then some cs else none

pub record Meta : Type 0 where
  pub sn : ℤ
  pub sn_to : ℤ
  pub timestamp : ℤ

unfoldable pub text_line : List ℕ → Option Meta
text_line line = do
  sn ← strtol line
  tail ← after_byte 32 sn.rest
  ts ← strtol tail
  require (sn_valid (to_int sn.value))
  some (record { sn = to_int sn.value; sn_to = pos 0; timestamp = ts.value })

unfoldable pub cmd_line : List ℕ → Option Meta
cmd_line line = do
  colon ← after_byte b'R' line
  request ← after_byte b':' colon
  from ← strtol request
  tail ← after_byte b'-' from.rest
  to ← strtol tail
  require (sn_valid (to_int from.value) && sn_valid (to_int to.value))
  some (record { sn = to_int from.value; sn_to = to_int to.value; timestamp = pos 0 })

unfoldable pub meta_line : Kind → List ℕ → Option Meta
meta_line text line = text_line line
meta_line cmd line = cmd_line line

-- The body loop with the bytes stored so far: one round for each line. Each line takes a byte of
-- the input at least, so as many rounds as the input has bytes, and one, are enough.
unfoldable pub body_loop : ℕ → List ℕ → List ℕ → Option (List ℕ)
body_loop zero s body = none
body_loop (suc f) s body = elim (next_line s) [
  | none ↦ none
  | some line ↦
      let keep = length line.text - 4 in
      let more = body_loop f line.rest (body ++ (line.text ++ (newline ∷ []))) in
      if ends_record line.text
      then if leb body_max (length body + keep + 1)
        then none
        else some (body ++ take keep line.text)
      else if leb body_max (length body + length line.text + 1)
      then none
      else more
]

unfoldable pub decode : Option (List ℕ) → Option Message
decode none = none
decode (some raw) = do
  first ← whole_line raw
  kind ← header_kind first.text
  receiver ← whole_line first.rest
  require (key_ok receiver.text)
  sender ← whole_line receiver.rest
  require (key_ok sender.text)
  numbers ← whole_line sender.rest
  fields ← meta_line kind numbers.text
  body ← body_loop (suc (length numbers.rest)) numbers.rest []
  some (record {
    kind = kind;
    receiver = receiver.text;
    sender = sender.text;
    sn = fields.sn;
    sn_to = fields.sn_to;
    timestamp = fields.timestamp;
    body = body;
  })
