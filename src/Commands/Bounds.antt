-- ===== src/Commands/Bounds.antt =====
-- How many arguments `commands_parse` finds and how long they are, for any text.
use tox_relayer.Prelude.{
  ℕ, zero, suc, ◌+◌, ◌-◌, ◌≤◌, ◌<◌, ◌≡◌, ◌&&◌, Option, none, some, List, [], ◌∷◌, ◌++◌, arith, ◌==◌,
  length, take, drop, leb, length-append, length-take, if-elim,
}
use Prim.Native.Nat.{min}
use tox_relayer.Misc.{starts_with}
use tox_relayer.Commands.{
  max_num_args, quote, skip_blanks, end_of_arg, copied_arg, parse_args, commands_parse,
}

module _ (max_length : ℕ) where
  -- Every argument fits its buffer with the NUL.
  abbrev pub AllFit : List (List ℕ) → Type 0
  AllFit [] = Unit {0}
  AllFit (a ∷ as') = (length a < max_length) × AllFit as'

  AllFit-append :
      (xs : List (List ℕ)) (a : List ℕ)
      → AllFit xs
      → length a < max_length
      → AllFit (xs ++ (a ∷ []))
  AllFit-append [] a h g = (g, tt)
  AllFit-append (x ∷ xs) a h g = (h.0, AllFit-append xs a h.1 g)

  copied_arg-fits :
      (line : List ℕ) (i : ℕ) → 0 < max_length → length (copied_arg max_length line i) < max_length
  unfolding copied_arg
  copied_arg-fits line i h =
      ground
        (arith, h, length-take (max_length - 1) line, length-take (i + 1) line, length-take i line)

  -- An answer that is absent, or has at least `low` and at most `high` arguments that fit.
  abbrev Fits : ℕ → ℕ → Option (List (List ℕ)) → Type 0
  Fits low high none = Unit {0}
  Fits low high (some args) = (low ≤ length args) × (length args ≤ high) × AllFit args

  one_more :
      (line : List ℕ) (i : ℕ) (args : List (List ℕ)) (low high : ℕ)
      → 0 < max_length
      → AllFit args
      → low ≤ length args + 1
      → length args + 1 ≤ high
      → Fits low high (some (args ++ (copied_arg max_length line i ∷ [])))
  one_more line i args low high h a l k = (
    omega (arith, length-append args (copied_arg max_length line i ∷ [])),
    omega (arith, length-append args (copied_arg max_length line i ∷ [])),
    AllFit-append args (copied_arg max_length line i) a (copied_arg-fits line i h),
  )

  parse_args-Fits :
      (left : ℕ) (line : List ℕ) (args : List (List ℕ)) (low high : ℕ)
      → 0 < max_length
      → AllFit args
      → low ≤ length args + min left 1
      → length args + left ≤ high
      → Fits low high (parse_args max_length left line args)
  unfolding parse_args
  parse_args-Fits zero line args low high h a l k = (omega arith, omega arith, a)
  parse_args-Fits (suc left) line args low high h a l k =
      let i = end_of_arg line in
      let args' = args ++ (copied_arg max_length line i ∷ []) in
      let rest = skip_blanks (drop (i + 1) line) in
      let one = one_more line i args low high h a (omega arith) (omega arith) in
      let more =
        parse_args-Fits left (take (max_length - 1) rest) args' low high h one.2
          (omega (arith, one.0))
          (omega (arith, length-append args (copied_arg max_length line i ∷ []))) in
      if-elim (Fits low high) (starts_with quote line && leb (length line) i) (λ _. tt)
        (λ _.
          if-elim (Fits low high) (leb (length line) i) (λ _. one)
            (λ _. if-elim (Fits low high) (length rest == 0) (λ _. one) (λ _. more)))

  -- `commands_parse` yields no more than four arguments, one at least, and each fits its buffer.
  pub commands_parse-bounds :
      (input : List ℕ) (args : List (List ℕ))
      → 0 < max_length
      → commands_parse max_length input ≡ some args
      → (1 ≤ length args) × (length args ≤ max_num_args) × AllFit args
  unfolding commands_parse
  commands_parse-bounds input args h e =
      rw e at
        (parse_args-Fits max_num_args input [] 1 max_num_args h tt (omega arith) (omega arith))
