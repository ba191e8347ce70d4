-- ===== src/Node/Console/Channel.antt =====
-- The command that switches the channel, on the line that the console hands over: with its line end.
use tox_relayer.Prelude.{
  ℕ, ◌+◌, ◌-◌, ◌*◌, ◌≤◌, ◌<◌, ◌≡◌, refl, Bool, true, false, ◌||◌, Option, none, some, List, [], ◌∷◌,
  ◌++◌, arith, length, length-append, ◌==◌, if◌then◌else◌, if-elim, ◌>>=◌,
}
use tox_relayer.Prelude.Int.{ℤ, pos, ltb_ℤ}
use tox_relayer.Text.{
  codes, strtol, skip_spaces, take_sign, Parsed, starts_with_digit, scan_digits, parsed_number,
  is_digit, is_space,
}
use tox_relayer.Text.Bytes.{take_all}
use tox_relayer.Misc.{parse_int_range, whole_number, first_is_space}
use tox_relayer.Friends.{occurs}
use tox_relayer.Node.{Node}
use tox_relayer.Node.Console.{switch_channel, evaluate_input, channel_digits}

-- A byte that is no digit stays behind every number.
scan_digits-end :
    (n c : ℕ) (xs : List ℕ) → is_digit c ≡ false → 0 < length (scan_digits n (xs ++ (c ∷ []))).1
unfolding scan_digits
scan_digits-end n c [] e = ground (arith, e)
scan_digits-end n c (x ∷ xs) e =
    if-elim (λ (r : ℕ × List ℕ). 0 < length r.1) (is_digit x)
      (λ _. scan_digits-end (n * 10 + (x - b'0')) c xs e) (λ _. omega arith)

-- The line end is left over, so the text is no number.
number-end :
    (negative : Bool) (min max : ℤ) (ys : List ℕ)
    → (if starts_with_digit (ys ++ (10 ∷ []))
          then some (parsed_number negative (scan_digits 0 (ys ++ (10 ∷ []))))
          else none)
        >>= whole_number min max
      ≡ none
unfolding parsed_number whole_number
number-end negative min max ys =
    if-elim (λ (o : Option Parsed). (o >>= whole_number min max) ≡ none)
      (starts_with_digit (ys ++ (10 ∷ []))) (λ _. ground (arith, scan_digits-end 0 10 ys refl))
      (λ _. refl)

parse_int_range-end :
    (xs : List ℕ) (min max : ℤ) → parse_int_range (some (xs ++ (10 ∷ []))) min max ≡ none
unfolding parse_int_range strtol first_is_space skip_spaces take_sign
parse_int_range-end [] min max =
    if-elim (λ (o : Option ℤ). o ≡ none) (ltb_ℤ max min || false) (λ _. refl) (λ _. refl)
parse_int_range-end (x ∷ xs) min max =
    if-elim None (ltb_ℤ max min || length (x ∷ (xs ++ (10 ∷ []))) == 0) (λ _. refl)
      (λ _.
        if-elim None (is_space x) (λ _. refl)
          (λ dark. rw dark (
            if-elim Nothing (x == b'-') (λ _. number-end true min max xs)
              (λ _.
                if-elim Nothing (x == b'+') (λ _. number-end false min max xs)
                  (λ _. number-end false min max (x ∷ xs))))))
  where
    None : Option ℤ → Type 0
    None o = o ≡ none

    Nothing : Bool × List ℕ → Type 0
    Nothing r =
        (if starts_with_digit r.1 then some (parsed_number r.0 (scan_digits 0 r.1)) else none)
          >>= whole_number min max
        ≡ none

switch_channel-end :
    (typed : List ℕ) (n : Node) → length typed ≤ 16 → switch_channel (typed ++ (10 ∷ [])) n ≡ n
unfolding switch_channel parse_int_range
switch_channel-end [] n short = refl
switch_channel-end (a ∷ []) n short = refl
switch_channel-end (a ∷ b ∷ ys) n short =
    rw
      (
        switch_channel,
        take_all (ys ++ (10 ∷ [])) channel_digits
            (omega (arith, short, length-append ys (10 ∷ []))),
        parse_int_range-end ys (pos 0) (pos 1023),
      )
      refl

-- The console keeps the line end behind what is typed, so a line of at most 16 bytes with `/#` in it
-- never switches the channel: whatever number it names, everything stays as it was.
pub evaluate_input-channel :
    (address_size : ℕ) (allocated : Bool) (typed : List ℕ) (n : Node)
    → occurs (codes "/#") (typed ++ (10 ∷ [])) ≡ true
    → length typed ≤ 16
    → evaluate_input address_size allocated (typed ++ (10 ∷ [])) n ≡ n
unfolding evaluate_input switch_channel
evaluate_input-channel address_size allocated typed n hash short =
    let line = typed ++ (10 ∷ []) in
    if-elim Same (occurs (codes "/help") line) (λ _. refl)
      (λ _.
        if-elim Same (occurs (codes "/id") line) (λ _. refl)
          (λ _. rw hash (switch_channel-end typed n short)))
  where
    Same : Node → Type 0
    Same n' = n' ≡ n
