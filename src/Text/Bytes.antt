-- ===== src/Text/Bytes.antt =====
-- Lines of plain bytes: none of them a NUL, a newline or a carriage return.
use tox_relayer.Prelude.{
  ℕ, zero, suc, ◌≤◌, ◌≡◌, refl, ap, Bool, true, false, not, ◌&&◌, ◌||◌, List, [], ◌∷◌, ◌++◌, arith,
  ◌==◌, ==_iff, length, take, drop, ◌↔◌,
}
use tox_relayer.Text.{newline, carriage_return, c_str, str_eq, has_byte}

abbrev pub plain : ℕ → Bool
plain c = not (c == newline || c == carriage_return) && not (c == 0)

abbrev pub IsPlain : List ℕ → Type 0
IsPlain [] = Unit {0}
IsPlain (c ∷ cs) = (plain c ≡ true) × IsPlain cs

pub IsPlain-append : (xs ys : List ℕ) → IsPlain xs → IsPlain ys → IsPlain (xs ++ ys)
IsPlain-append [] ys hx hy = hy
IsPlain-append (x ∷ xs) ys hx hy = (hx.0, IsPlain-append xs ys hx.1 hy)

pub c_str-IsPlain : (xs : List ℕ) → IsPlain xs → c_str xs ≡ xs
unfolding c_str
c_str-IsPlain [] h = refl
c_str-IsPlain (x ∷ xs) h = ground (arith, c_str-IsPlain xs h.1)

-- A C string has no NUL; without line ends it is plain.
pub IsPlain-has_byte :
    (xs : List ℕ)
    → has_byte 0 xs ≡ false
    → has_byte newline xs ≡ false
    → has_byte carriage_return xs ≡ false
    → IsPlain xs
unfolding has_byte
IsPlain-has_byte [] z n c = tt
IsPlain-has_byte (x ∷ xs) z n c =
    (ground arith, IsPlain-has_byte xs (ground arith) (ground arith) (ground arith))

pub str_eq_iff : (xs ys : List ℕ) → (str_eq xs ys ≡ true) ↔ (xs ≡ ys)
unfolding str_eq
str_eq_iff [] [] = (λ _. refl, λ _. refl)
str_eq_iff [] (y ∷ ys) = (λ h. cc, λ h. cc)
str_eq_iff (x ∷ xs) [] = (λ h. cc, λ h. cc)
str_eq_iff (x ∷ xs) (y ∷ ys) = ground (arith, ==_iff x y, str_eq_iff xs ys)

pub take-append : (xs ys : List ℕ) (n : ℕ) → n ≡ length xs → take n (xs ++ ys) ≡ xs
take-append [] ys zero e = refl
take-append [] ys (suc n) e = absurd (omega arith)
take-append (x ∷ xs) ys zero e = absurd (omega arith)
take-append (x ∷ xs) ys (suc n) e = ap (◌∷◌ x) (take-append xs ys n (omega arith))

pub drop-append : (xs ys : List ℕ) (n : ℕ) → n ≡ length xs → drop n (xs ++ ys) ≡ ys
drop-append [] ys zero e = refl
drop-append [] ys (suc n) e = absurd (omega arith)
drop-append (x ∷ xs) ys zero e = absurd (omega arith)
drop-append (x ∷ xs) ys (suc n) e = drop-append xs ys n (omega arith)

pub take_all : (xs : List ℕ) (n : ℕ) → length xs ≤ n → take n xs ≡ xs
take_all [] zero h = refl
take_all [] (suc n) h = refl
take_all (x ∷ xs) zero h = absurd (omega arith)
take_all (x ∷ xs) (suc n) h = ap (◌∷◌ x) (take_all xs n (omega arith))
