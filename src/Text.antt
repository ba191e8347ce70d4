-- ===== src/Text.antt =====
-- Byte texts as the C code handles them, with the parts of the standard library that the source
-- calls on them: `strlen` over a buffer, `strcmp`, `snprintf` of an integer, `strtol` and the
-- conversion of a `long` to an `int`. A byte is a number below 256; a C string is the list of its
-- bytes before the NUL.
pub mod Bytes
pub mod Decimal
use tox_relayer.Prelude.{
  ℕ, zero, suc, ◌+◌, ◌-◌, ◌*◌, ◌/◌, ◌%◌, ◌^◌, Bool, true, false, not, ◌&&◌, ◌||◌, Option, none,
  some, List, [], ◌∷◌, ◌++◌, map, if◌then◌else◌, ltb, leb, ◌==◌, length, replicate,
}
use Prim.Native.Char.{code}
use Prim.Native.String.{String}
use tox_relayer.Prelude.Int.{ℤ, pos, negsuc}

-- The bytes of an ASCII literal.
abbrev pub codes : String → List ℕ
codes String.[] = []
codes (String.◌∷◌ c s) = code c ∷ codes s

abbrev pub newline : ℕ
newline = 10

abbrev pub carriage_return : ℕ
carriage_return = 13

-- The C string that a buffer holds: its bytes before the first NUL.
unfoldable pub c_str : List ℕ → List ℕ
c_str [] = []
c_str (c ∷ cs) = let rest = c_str cs in if c == 0 then [] else c ∷ rest

-- `strcmp(a, b) == 0`.
unfoldable pub str_eq : List ℕ → List ℕ → Bool
str_eq [] [] = true
str_eq [] (_ ∷ _) = false
str_eq (_ ∷ _) [] = false
str_eq (a ∷ as') (b ∷ bs) = a == b && str_eq as' bs

-- `strchr(s, ch) != NULL`.
unfoldable pub has_byte : ℕ → List ℕ → Bool
has_byte ch [] = false
has_byte ch (c ∷ cs) = c == ch || has_byte ch cs

abbrev pub long_digits : ℕ
long_digits = 20

-- The digits of `n` before `acc`; a `long` has at most `long_digits` of them.
unfoldable pub digits_loop : ℕ → ℕ → List ℕ → List ℕ
digits_loop zero n acc = acc
digits_loop (suc f) n acc =
    let acc' = (b'0' + n % 10) ∷ acc in
    let rest = digits_loop f (n / 10) acc' in if n / 10 == 0 then acc' else rest

unfoldable pub digits : ℕ → List ℕ
unfolding digits_loop
digits n = digits_loop long_digits n []

-- `%ld`, and `%d`.
unfoldable pub print_long : ℤ → List ℕ
unfolding digits
print_long (pos n) = digits n
print_long (negsuc n) = b'-' ∷ digits (suc n)

-- `%04d`.
unfoldable pub print_04d : ℤ → List ℕ
unfolding digits
print_04d (pos n) = let d = digits n in replicate (4 - length d) b'0' ++ d
print_04d (negsuc n) = let d = digits (suc n) in b'-' ∷ (replicate (3 - length d) b'0' ++ d)

abbrev pub is_digit : ℕ → Bool
is_digit c = leb b'0' c && leb c b'9'

-- `isspace` of the "C" locale.
abbrev pub is_space : ℕ → Bool
is_space c = c == 32 || (leb 9 c && leb c 13)

unfoldable pub skip_spaces : List ℕ → List ℕ
skip_spaces [] = []
skip_spaces (c ∷ cs) = let rest = skip_spaces cs in if is_space c then rest else c ∷ cs

-- The value of the leading digits on top of `n`, and what follows them.
unfoldable pub scan_digits : ℕ → List ℕ → ℕ × List ℕ
scan_digits n [] = (n, [])
scan_digits n (c ∷ cs) =
    let rest = scan_digits (n * 10 + (c - b'0')) cs in if is_digit c then rest else (n, c ∷ cs)

abbrev pub long_max : ℕ
long_max = 2 ^ 63 - 1

-- `strtol` answers LONG_MAX or LONG_MIN (and sets `errno`) where the number does not fit.
unfoldable pub clamp_long : Bool → ℕ → ℤ
clamp_long false n = if ltb long_max n then pos long_max else pos n
clamp_long true zero = pos 0
clamp_long true (suc n) = if ltb long_max n then negsuc long_max else negsuc n

-- The sign, and what follows it.
unfoldable pub take_sign : List ℕ → Bool × List ℕ
take_sign [] = (false, [])
take_sign (c ∷ cs) =
    if c == b'-' then (true, cs) else if c == b'+' then (false, cs) else (false, c ∷ cs)

unfoldable pub starts_with_digit : List ℕ → Bool
starts_with_digit [] = false
starts_with_digit (c ∷ cs) = is_digit c

-- What one call of `strtol(s, &end, 10)` gives: the value, the text at `end`, and whether the
-- number was out of range.
pub record Parsed : Type 0 where
  pub value : ℤ
  pub rest : List ℕ
  pub out_of_range : Bool

unfoldable pub parsed_number : Bool → ℕ × List ℕ → Parsed
unfolding clamp_long
parsed_number negative (n, rest) = record {
  value = clamp_long negative n;
  rest = rest;
  out_of_range = if negative then ltb (suc long_max) n else ltb long_max n;
}

-- `none` when there is no number (`end == s`).
unfoldable pub strtol : List ℕ → Option Parsed
unfolding skip_spaces take_sign starts_with_digit scan_digits parsed_number
strtol s =
    let (negative, ds) = take_sign (skip_spaces s) in
    if starts_with_digit ds then some (parsed_number negative (scan_digits 0 ds)) else none

-- `(int) value` of a `long`: the low 32 bits, read with a sign.
unfoldable pub to_int : ℤ → ℤ
to_int (pos n) = let r = n % 2 ^ 32 in if ltb r (2 ^ 31) then pos r else negsuc (2 ^ 32 - 1 - r)
to_int (negsuc n) =
    let r = 2 ^ 32 - 1 - n % 2 ^ 32 in if ltb r (2 ^ 31) then pos r else negsuc (2 ^ 32 - 1 - r)
