-- ===== src/Misc/Numbers.antt =====
-- `parse_int_range` against the printed numbers.
use tox_relayer.Prelude.{
  ℕ, suc, ◌≡◌, refl, ap, sym, ◌∙◌, true, false, ◌||◌, Option, none, some, List, [], ◌∷◌, arith,
  ◌==◌, length, if-elim, ◌>>=◌,
}
use mathlib.Core.List.{append-nil}
use tox_relayer.Prelude.Int.{ℤ, pos, negsuc, ltb_ℤ, leb_ℤ}
use tox_relayer.Text.{print_long, digits_loop, long_digits, strtol, Parsed}
use tox_relayer.Text.Decimal.{IsLong, Starts, digits_loop-Starts, strtol-print_long}
use tox_relayer.Misc.{parse_int_range, whole_number, first_is_space}

whole_number-bounds :
    (min max v : ℤ) (p : Parsed)
    → whole_number min max p ≡ some v
    → (leb_ℤ min v ≡ true) × (leb_ℤ v max ≡ true)
unfolding whole_number
whole_number-bounds min max v p h = ground (arith, h)

-- A number that is accepted lies in the range that was asked for, whatever the text.
pub parse_int_range-bounds :
    (text : Option (List ℕ)) (min max v : ℤ)
    → parse_int_range text min max ≡ some v
    → (leb_ℤ min v ≡ true) × (leb_ℤ v max ≡ true)
unfolding parse_int_range
parse_int_range-bounds none min max v = λ h. absurd (ground (arith, h))
parse_int_range-bounds (some text) min max v =
    if-elim P (ltb_ℤ max min || length text == 0) (λ _ h. absurd (ground (arith, h)))
      (λ _.
        if-elim P (first_is_space text) (λ _ h. absurd (ground (arith, h)))
          (λ _. checked (strtol text)))
  where
    P : Option ℤ → Type 0
    P o = o ≡ some v → (leb_ℤ min v ≡ true) × (leb_ℤ v max ≡ true)

    checked : (o : Option Parsed) → P (o >>= whole_number min max)
    checked none = λ h. absurd (ground (arith, h))
    checked (some p) = whole_number-bounds min max v p

visible_digits :
    (ds : List ℕ) → Starts ds → (first_is_space ds ≡ false) × ((length ds == 0) ≡ false)
unfolding first_is_space
visible_digits [] s = absurd s
visible_digits (c ∷ cs) s = (ground (arith, s), ground arith)

visible_minus :
    (ds : List ℕ) → (first_is_space (b'-' ∷ ds) ≡ false) × ((length (b'-' ∷ ds) == 0) ≡ false)
unfolding first_is_space
visible_minus ds = (refl, ground arith)

visible_print_long :
    (v : ℤ) → (first_is_space (print_long v) ≡ false) × ((length (print_long v) == 0) ≡ false)
unfolding print_long first_is_space
visible_print_long (pos n) =
    visible_digits (digits_loop long_digits n []) (digits_loop-Starts 19 n [])
visible_print_long (negsuc n) = visible_minus (digits_loop long_digits (suc n) [])

-- A printed `long` is read back when it lies in the range.
pub parse_int_range-print_long :
    (v min max : ℤ)
    → IsLong v
    → leb_ℤ min v ≡ true
    → leb_ℤ v max ≡ true
    → parse_int_range (some (print_long v)) min max ≡ some v
unfolding parse_int_range whole_number
parse_int_range-print_long v min max l h g =
    rw (no_space v, strtol_all) (ground (arith, h, g, nonempty v))
  where
    strtol_all :
        strtol (print_long v) ≡ some (record { value = v; rest = []; out_of_range = false })
    strtol_all = ap strtol (sym (append-nil (print_long v))) ∙ strtol-print_long v [] l tt

    no_space : (v : ℤ) → first_is_space (print_long v) ≡ false
    no_space v = (visible_print_long v).0

    nonempty : (v : ℤ) → (length (print_long v) == 0) ≡ false
    nonempty v = (visible_print_long v).1
