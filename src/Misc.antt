-- ===== src/Misc.antt =====
-- The helpers of src/misc.h and src/misc.c on texts and numbers. A C string is the list of its bytes
-- before the NUL, `none` for NULL; an output buffer is its size, and what is left in it the result.
pub mod Strings
pub mod KeyFile
pub mod Hex
pub mod Numbers
pub mod Names
mod Tests
use tox_relayer.Prelude.{
  ℕ, zero, suc, ◌+◌, ◌-◌, ◌*◌, ◌%◌, Bool, true, false, not, ◌&&◌, ◌||◌, Option, none, some, List,
  [], ◌∷◌, ◌++◌, if◌then◌else◌, ltb, leb, ◌==◌, length, take, ◌>>=◌,
}
use tox_relayer.Prelude.Int.{ℤ, pos, negsuc, ltb_ℤ, leb_ℤ, ◌-ℤ◌}
use tox_relayer.Text.{strtol, Parsed, is_space}

-- `timeout` is a `uint64_t`.
unfoldable pub timed_out : ℤ → ℤ → ℕ → Bool
timed_out timestamp curtime timeout =
    if leb_ℤ curtime timestamp then false else leb_ℤ (pos timeout) (curtime -ℤ timestamp)

unfoldable pub hex_digit_value : ℕ → ℤ
hex_digit_value c =
    if leb 48 c && leb c 57
    then pos (c - 48)
    else if leb 97 c && leb c 102
    then pos (c - 97 + 10)
    else if leb 65 c && leb c 70
    then pos (c - 65 + 10)
    else negsuc 0

-- The byte `(hi << 4) | lo`, `none` where a digit is negative.
unfoldable pub hex_byte : ℤ → ℤ → Option ℕ
hex_byte (pos hi) (pos lo) = some (hi * 16 + lo)
hex_byte (pos hi) (negsuc _) = none
hex_byte (negsuc _) lo = none

-- The loop of `hex_string_to_bin`, two digits at a time.
unfoldable pub hex_loop : List ℕ → Option (List ℕ)
hex_loop [] = some []
hex_loop (_ ∷ []) = none
hex_loop (hi ∷ lo ∷ s) = do
  byte ← hex_byte (hex_digit_value hi) (hex_digit_value lo)
  rest ← hex_loop s
  some (byte ∷ rest)

-- `allocated` is the answer of `malloc`.
unfoldable pub hex_string_to_bin : Bool → Option (List ℕ) → Option (List ℕ)
hex_string_to_bin allocated none = none
hex_string_to_bin allocated (some s) =
    if length s == 0 || not (length s % 2 == 0)
    then none
    else if not allocated
    then none
    else hex_loop s

-- The checks on what one `strtol` of the whole text gives.
unfoldable pub whole_number : ℤ → ℤ → Parsed → Option ℤ
whole_number min max p =
    if not (length p.rest == 0) || p.out_of_range
    then none
    else if ltb_ℤ p.value min || ltb_ℤ max p.value
    then none
    else some p.value

unfoldable pub first_is_space : List ℕ → Bool
first_is_space [] = false
first_is_space (c ∷ cs) = is_space c

-- The value goes to `*out`, which is not NULL; `none` is `false`.
unfoldable pub parse_int_range : Option (List ℕ) → ℤ → ℤ → Option ℤ
parse_int_range none min max = none
parse_int_range (some text) min max =
    if ltb_ℤ max min || length text == 0
    then none
    else if first_is_space text
    then none
    else strtol text >>= whole_number min max

abbrev pub is_valid_char : ℕ → Bool
is_valid_char ch = not (ch == 47 || (ch == 10 || (ch == 9 || (ch == 11 || ch == 13))))

-- The first `len` bytes of the buffer.
unfoldable pub filter_str : List ℕ → List ℕ
filter_str [] = []
filter_str (c ∷ cs) = (if not (is_valid_char c) || c == 0 then 32 else c) ∷ filter_str cs

unfoldable pub starts_with : ℕ → List ℕ → Bool
starts_with ch [] = false
starts_with ch (c ∷ cs) = c == ch

-- The loop of `valid_nick`.
unfoldable pub nick_loop : List ℕ → Bool
nick_loop [] = true
nick_loop (c ∷ cs) =
    let rest = nick_loop cs in
    if (c == 32 && starts_with 32 cs) || not (is_valid_char c) then false else rest

unfoldable pub valid_nick : List ℕ → Bool
valid_nick nick = if length nick == 0 || starts_with 32 nick then false else nick_loop nick
