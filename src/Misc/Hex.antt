-- ===== src/Misc/Hex.antt =====
-- `hex_string_to_bin` against the hexadecimal text of bytes.
use tox_relayer.Prelude.{
  ℕ, ◌+◌, ◌*◌, ◌/◌, ◌%◌, ◌<◌, ◌≡◌, refl, ap, ◌⊎◌, inl, inr, true, false, ◌==◌, some, List, [], ◌∷◌,
  arith, length, if◌then◌else◌, ltb,
}
use tox_relayer.Prelude.Int.{pos}
use tox_relayer.Misc.{hex_digit_value, hex_byte, hex_loop, hex_string_to_bin}

-- The digits of a number below 16, in lower and in upper case.
abbrev pub digit : ℕ → ℕ
digit n = if ltb n 10 then 48 + n else 87 + n

abbrev pub upper_digit : ℕ → ℕ
upper_digit n = if ltb n 10 then 48 + n else 55 + n

abbrev pub IsDigit : ℕ → ℕ → Type 0
IsDigit n c = (n < 16) × ((c ≡ digit n) ⊎ (c ≡ upper_digit n))

-- A text that spells bytes in hexadecimal, each digit in either case.
abbrev pub Spells : List ℕ → List ℕ → Type 0
Spells [] [] = Unit {0}
Spells [] (_ ∷ _) = ⊥
Spells (_ ∷ []) bs = ⊥
Spells (_ ∷ _ ∷ _) [] = ⊥
Spells (hi ∷ lo ∷ text) (b ∷ bs) = IsDigit (b / 16) hi × IsDigit (b % 16) lo × Spells text bs

pub hex_digit_value-IsDigit : (n c : ℕ) → IsDigit n c → hex_digit_value c ≡ pos n
unfolding hex_digit_value
hex_digit_value-IsDigit n c (h, inl e) = ground (arith, h, e)
hex_digit_value-IsDigit n c (h, inr e) = ground (arith, h, e)

-- A digit is no end of a string or of a line.
pub IsDigit-visible :
    (n c : ℕ) → IsDigit n c → ((c == 0) ≡ false) × ((c == 10) ≡ false) × ((c == 13) ≡ false)
IsDigit-visible n c (h, inl e) = (ground (arith, h, e), ground (arith, h, e), ground (arith, h, e))
IsDigit-visible n c (h, inr e) = (ground (arith, h, e), ground (arith, h, e), ground (arith, h, e))

hex_loop-Spells : (text bs : List ℕ) → Spells text bs → hex_loop text ≡ some bs
unfolding hex_loop hex_byte
hex_loop-Spells [] [] h = refl
hex_loop-Spells [] (_ ∷ _) h = absurd h
hex_loop-Spells (_ ∷ []) bs h = absurd h
hex_loop-Spells (_ ∷ _ ∷ _) [] h = absurd h
hex_loop-Spells (hi ∷ lo ∷ text) (b ∷ bs) (h, l, rest) =
    rw
      (
        hex_digit_value-IsDigit (b / 16) hi h,
        hex_digit_value-IsDigit (b % 16) lo l,
        hex_loop-Spells text bs rest,
      )
      (ap (λ x. some (x ∷ bs)) (omega arith))

pub length-Spells : (text bs : List ℕ) → Spells text bs → length text ≡ 2 * length bs
length-Spells [] [] h = refl
length-Spells [] (_ ∷ _) h = absurd h
length-Spells (_ ∷ []) bs h = absurd h
length-Spells (_ ∷ _ ∷ _) [] h = absurd h
length-Spells (hi ∷ lo ∷ text) (b ∷ bs) (_, _, rest) = omega (arith, length-Spells text bs rest)

-- A text that spells one byte or more is converted to these bytes, when `malloc` succeeds.
pub hex_string_to_bin-Spells :
    (text bs : List ℕ)
    → Spells text bs
    → 0 < length bs
    → hex_string_to_bin true (some text) ≡ some bs
unfolding hex_string_to_bin
hex_string_to_bin-Spells text bs h g =
    ground (arith, length-Spells text bs h, hex_loop-Spells text bs h, g)
