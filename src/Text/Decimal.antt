-- ===== src/Text/Decimal.antt =====
-- `strtol` reads back what `%ld` and `%04d` print.
use tox_relayer.Prelude.{
  ℕ, zero, suc, ◌+◌, ◌-◌, ◌*◌, ◌/◌, ◌%◌, ◌^◌, ◌≤◌, ◌<◌, ◌≡◌, refl, ap, ◌∙◌, true, false, some, List,
  [], ◌∷◌, ◌++◌, arith, if-elim, ◌==◌, length, replicate, length-append, length-replicate,
}
use native.Mathlib.Nat.{pow-suc}
use native.Mathlib.Decide.{dec_lt}
use tox_relayer.Text.Bytes.{plain, IsPlain, IsPlain-append}
use mathlib.Core.List.{append_assoc}
use tox_relayer.Prelude.Int.{ℤ, pos, negsuc}
use tox_relayer.Text.{
  digits_loop, long_digits, print_long, print_04d, is_digit, scan_digits, long_max, Parsed,
  parsed_number, strtol,
}

digits_loop-append :
    (f n : ℕ) (acc rest : List ℕ) → digits_loop f n acc ++ rest ≡ digits_loop f n (acc ++ rest)
unfolding digits_loop
digits_loop-append zero n acc rest = refl
digits_loop-append (suc f) n acc rest =
    ground (arith, digits_loop-append f (n / 10) ((b'0' + n % 10) ∷ acc) rest)

length-digits_loop :
    (k f n : ℕ) (acc : List ℕ) → n < 10 ^ suc k → length (digits_loop f n acc) ≤ suc k + length acc
unfolding digits_loop
length-digits_loop k zero n acc h = omega arith
length-digits_loop zero (suc f) n acc h = ground arith
length-digits_loop (suc k) (suc f) n acc h = ground (
  arith,
  length-digits_loop k f (n / 10) ((b'0' + n % 10) ∷ acc) (omega (arith, pow-suc 10 (suc k))),
)

digits_loop-last : (f n : ℕ) (acc : List ℕ) → n < 10 → digits_loop (suc f) n acc ≡ (b'0' + n) ∷ acc
unfolding digits_loop
digits_loop-last f n acc h = ground arith

digits_loop-step :
    (f n : ℕ) (acc : List ℕ)
    → 10 ≤ n
    → digits_loop (suc f) n acc ≡ digits_loop f (n / 10) ((b'0' + n % 10) ∷ acc)
unfolding digits_loop
digits_loop-step f n acc h = ground arith

scan_digits-digit :
    (m d : ℕ) (acc : List ℕ)
    → d < 10
    → scan_digits m ((b'0' + d) ∷ acc) ≡ scan_digits (m * 10 + d) acc
unfolding scan_digits
scan_digits-digit m d acc h = ground arith

-- The digits of `n` scan to `n`.
scan_digits-digits_loop :
    (f n : ℕ) (acc : List ℕ)
    → n < 10 ^ suc f
    → scan_digits 0 (digits_loop (suc f) n acc) ≡ scan_digits n acc
scan_digits-digits_loop zero n acc h =
    rw (digits_loop-last 0 n acc h)
      (scan_digits-digit 0 n acc h ∙ ap (λ m. scan_digits m acc) (omega arith))
scan_digits-digits_loop (suc f) n acc h = elim (dec_lt n 10) [
  | yes small ↦
      rw (digits_loop-last (suc f) n acc small)
        (scan_digits-digit 0 n acc small ∙ ap (λ m. scan_digits m acc) (omega arith))
  | no big ↦ rw (digits_loop-step (suc f) n acc (omega arith)) (
      scan_digits-digits_loop f (n / 10) ((b'0' + n % 10) ∷ acc) (omega (arith, pow-suc 10 (suc f)))
      ∙ scan_digits-digit (n / 10) (n % 10) acc (omega arith)
      ∙ ap (λ m. scan_digits m acc) (omega arith))
]

-- A text whose first byte, if it has one, is no digit.
abbrev pub Stops : List ℕ → Type 0
Stops [] = Unit {0}
Stops (c ∷ cs) = is_digit c ≡ false

scan_digits-Stops : (n : ℕ) (rest : List ℕ) → Stops rest → scan_digits n rest ≡ (n, rest)
unfolding scan_digits
scan_digits-Stops n [] s = refl
scan_digits-Stops n (c ∷ cs) s = rw s

-- What a text of digits starts with.
abbrev pub Starts : List ℕ → Type 0
Starts [] = ⊥
Starts (c ∷ cs) = is_digit c ≡ true

digits_loop-keeps-Starts : (f n : ℕ) (acc : List ℕ) → Starts acc → Starts (digits_loop f n acc)
unfolding digits_loop
digits_loop-keeps-Starts zero n acc s = s
digits_loop-keeps-Starts (suc f) n acc s =
    if-elim Starts (n / 10 == 0) (λ _. digit n)
      (λ _. digits_loop-keeps-Starts f (n / 10) ((b'0' + n % 10) ∷ acc) (digit n))
  where
    digit : (n : ℕ) → is_digit (b'0' + n % 10) ≡ true
    digit n = ground arith

pub digits_loop-Starts : (f n : ℕ) (acc : List ℕ) → Starts (digits_loop (suc f) n acc)
unfolding digits_loop
digits_loop-Starts f n acc =
    if-elim Starts (n / 10 == 0) (λ _. digit)
      (λ _. digits_loop-keeps-Starts f (n / 10) ((b'0' + n % 10) ∷ acc) digit)
  where
    digit : is_digit (b'0' + n % 10) ≡ true
    digit = ground arith

strtol-digits :
    (ds : List ℕ) → Starts ds → strtol ds ≡ some (parsed_number false (scan_digits 0 ds))
unfolding strtol
strtol-digits [] s = absurd s
strtol-digits (c ∷ cs) s = ground arith

strtol-minus :
    (ds : List ℕ) → Starts ds → strtol (b'-' ∷ ds) ≡ some (parsed_number true (scan_digits 0 ds))
unfolding strtol
strtol-minus [] s = absurd s
strtol-minus (c ∷ cs) s = ground arith

-- The numbers of a 64-bit `long`.
abbrev pub IsLong : ℤ → Type 0
IsLong (pos n) = n ≤ long_max
IsLong (negsuc n) = n ≤ long_max

abbrev pub read_back : ℤ → List ℕ → Parsed
read_back v rest = record { value = v; rest = rest; out_of_range = false }

parsed_number-pos :
    (n : ℕ) (rest : List ℕ) → n ≤ long_max → parsed_number false (n, rest) ≡ read_back (pos n) rest
unfolding parsed_number
parsed_number-pos n rest h = ground arith

parsed_number-negsuc :
    (n : ℕ) (rest : List ℕ)
    → n ≤ long_max
    → parsed_number true (suc n, rest) ≡ read_back (negsuc n) rest
unfolding parsed_number
parsed_number-negsuc n rest h = ground arith

scan_digits-digits :
    (n : ℕ) (rest : List ℕ)
    → n < 10 ^ long_digits
    → Stops rest
    → scan_digits 0 (digits_loop long_digits n rest) ≡ (n, rest)
scan_digits-digits n rest h s = scan_digits-digits_loop 19 n rest h ∙ scan_digits-Stops n rest s

-- `strtol` reads back what `%ld` prints, for every `long`, and stops behind it.
pub strtol-print_long :
    (v : ℤ) (rest : List ℕ)
    → IsLong v
    → Stops rest
    → strtol (print_long v ++ rest) ≡ some (read_back v rest)
unfolding print_long
strtol-print_long (pos n) rest h s =
    rw
      (
        digits_loop-append long_digits n [] rest,
        strtol-digits _ (digits_loop-Starts 19 n rest),
        scan_digits-digits n rest (omega arith) s,
      )
      (ap some (parsed_number-pos n rest h))
strtol-print_long (negsuc n) rest h s =
    rw
      (
        digits_loop-append long_digits (suc n) [] rest,
        strtol-minus _ (digits_loop-Starts 19 (suc n) rest),
        scan_digits-digits (suc n) rest (omega arith) s,
      )
      (ap some (parsed_number-negsuc n rest h))

zeros-Starts : (k : ℕ) (ds : List ℕ) → Starts ds → Starts (replicate k b'0' ++ ds)
zeros-Starts zero ds s = s
zeros-Starts (suc k) ds s = refl

scan_digits-zeros :
    (k : ℕ) (ds : List ℕ) → scan_digits 0 (replicate k b'0' ++ ds) ≡ scan_digits 0 ds
scan_digits-zeros zero ds = refl
scan_digits-zeros (suc k) ds =
    scan_digits-digit 0 0 (replicate k b'0' ++ ds) (omega arith) ∙ scan_digits-zeros k ds

-- `strtol` reads back what `%04d` prints of a natural number, padding included.
pub strtol-print_04d :
    (n : ℕ) (rest : List ℕ)
    → n ≤ long_max
    → Stops rest
    → strtol (print_04d (pos n) ++ rest) ≡ some (read_back (pos n) rest)
unfolding print_04d
strtol-print_04d n rest h s =
    let k = 4 - length (digits_loop long_digits n []) in
    rw
      (
        append_assoc (replicate k b'0') (digits_loop long_digits n []) rest,
        digits_loop-append long_digits n [] rest,
        strtol-digits _ (zeros-Starts k _ (digits_loop-Starts 19 n rest)),
        scan_digits-zeros k,
        scan_digits-digits n rest (omega arith) s,
      )
      (ap some (parsed_number-pos n rest h))

pub length-print_long : (v : ℤ) → IsLong v → length (print_long v) ≤ 21
unfolding print_long
length-print_long (pos n) h = omega (arith, length-digits_loop 19 long_digits n [] (omega arith))
length-print_long (negsuc n) h =
    omega (arith, length-digits_loop 19 long_digits (suc n) [] (omega arith))

pub length-print_04d : (n : ℕ) → n ≤ 999 → length (print_04d (pos n)) ≤ 4
unfolding print_04d
length-print_04d n h = omega (
  arith,
  length-digits_loop 2 long_digits n [] (omega arith),
  length-append (replicate (4 - length (digits_loop long_digits n [])) b'0')
      (digits_loop long_digits n []),
  length-replicate {A = ℕ} (4 - length (digits_loop long_digits n [])) b'0',
)

digits_loop-IsPlain : (f n : ℕ) (acc : List ℕ) → IsPlain acc → IsPlain (digits_loop f n acc)
unfolding digits_loop
digits_loop-IsPlain zero n acc p = p
digits_loop-IsPlain (suc f) n acc p =
    if-elim IsPlain (n / 10 == 0) (λ _. (digit, p))
      (λ _. digits_loop-IsPlain f (n / 10) ((b'0' + n % 10) ∷ acc) (digit, p))
  where
    digit : plain (b'0' + n % 10) ≡ true
    digit = ground arith

replicate-IsPlain : (k : ℕ) → IsPlain (replicate k b'0')
replicate-IsPlain zero = tt
replicate-IsPlain (suc k) = (refl, replicate-IsPlain k)

pub IsPlain-print_long : (v : ℤ) → IsPlain (print_long v)
unfolding print_long
IsPlain-print_long (pos n) = digits_loop-IsPlain long_digits n [] tt
IsPlain-print_long (negsuc n) = (refl, digits_loop-IsPlain long_digits (suc n) [] tt)

pub IsPlain-print_04d : (n : ℕ) → IsPlain (print_04d (pos n))
unfolding print_04d
IsPlain-print_04d n =
    IsPlain-append (replicate (4 - length (digits_loop long_digits n [])) b'0') _
      (replicate-IsPlain _) (digits_loop-IsPlain long_digits n [] tt)

pub length-print_small : (n : ℕ) → n ≤ 999 → length (print_long (pos n)) ≤ 3
unfolding print_long
length-print_small n h = omega (arith, length-digits_loop 2 long_digits n [] (omega arith))
