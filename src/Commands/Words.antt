-- ===== src/Commands/Words.antt =====
-- `commands_parse` reads back the arguments of a command line: words without a space, and texts in
-- double quotes.
use tox_relayer.Prelude.{
  ℕ, zero, suc, ◌+◌, ◌-◌, ◌≤◌, ◌<◌, ◌≡◌, refl, ap, sym, ◌∙◌, ◌⊎◌, inl, inr, Bool, true, false, not,
  ◌&&◌, some, List, [], ◌∷◌, ◌++◌, arith, ◌==◌, length, drop, leb, length-append,
}
use mathlib.Core.List.{append_assoc, append-nil}
use tox_relayer.Text.{has_byte}
use tox_relayer.Text.Bytes.{take-append, drop-append, take_all}
use tox_relayer.Misc.{starts_with}
use tox_relayer.Misc.Strings.{char_find, position}
use tox_relayer.Commands.{
  max_num_args, space, quote, skip_blanks, end_of_arg, copied_arg, parse_args, commands_parse,
}

-- An argument without a space that does not start with a quote.
abbrev pub plain_word : List ℕ → Bool
plain_word w = not (length w == 0) && (not (has_byte space w) && not (starts_with quote w))

abbrev pub quoted : List ℕ → List ℕ
quoted t = quote ∷ (t ++ (quote ∷ []))

-- An argument that the parser can read back.
abbrev pub IsWord : List ℕ → Type 0
IsWord w = (plain_word w ≡ true) ⊎ ((t : List ℕ) × (w ≡ quoted t) × (has_byte quote t ≡ false))

abbrev pub AllWords : List (List ℕ) → Type 0
AllWords [] = Unit {0}
AllWords (w ∷ ws) = IsWord w × AllWords ws

-- The command line: the arguments with a space between them.
unfoldable pub line_of : List (List ℕ) → List ℕ
line_of [] = []
line_of (w ∷ []) = w
line_of (w ∷ v ∷ ws) = w ++ (space ∷ line_of (v ∷ ws))

position-append :
    (ch : ℕ) (xs ys : List ℕ)
    → has_byte ch xs ≡ false
    → position ch (xs ++ ys) ≡ length xs + position ch ys
unfolding position has_byte
position-append ch [] ys h = omega arith
position-append ch (x ∷ xs) ys h = ground (arith, h, position-append ch xs ys)

-- What follows an argument: nothing, or a space.
abbrev IsTail : List ℕ → Type 0
IsTail [] = Unit {0}
IsTail (c ∷ cs) = c ≡ space

position-IsTail : (tail : List ℕ) → IsTail tail → position space tail ≡ 0
unfolding position
position-IsTail [] h = refl
position-IsTail (c ∷ cs) h = ground (arith, h)

-- How the parser sees an argument with what follows it.
record Read (w tail : List ℕ) : Type 0 where
  i : ℕ
  at : end_of_arg (w ++ tail) ≡ i
  copied : (max_length : ℕ) → length w < max_length → copied_arg max_length (w ++ tail) i ≡ w
  closed : starts_with quote (w ++ tail) && leb (length (w ++ tail)) i ≡ false
  inside : i ≤ length w
  rest : skip_blanks (drop (i + 1) (w ++ tail)) ≡ skip_blanks tail

drop_space : (tail : List ℕ) → IsTail tail → skip_blanks (drop 1 tail) ≡ skip_blanks tail
unfolding skip_blanks
drop_space [] h = refl
drop_space (c ∷ cs) h = ground (arith, h)

drop_more : (xs ys : List ℕ) (n : ℕ) → n ≡ length xs + 1 → drop n (xs ++ ys) ≡ drop 1 ys
drop_more [] ys n e = ap (λ m. drop m ys) e
drop_more (x ∷ xs) ys zero e = absurd (omega arith)
drop_more (x ∷ xs) ys (suc n) e = drop_more xs ys n (omega arith)

starts_with-append :
    (w tail : List ℕ)
    → not (length w == 0) ≡ true
    → starts_with quote (w ++ tail) ≡ starts_with quote w
unfolding starts_with
starts_with-append [] tail h = absurd (ground (arith, h))
starts_with-append (c ∷ cs) tail h = refl

length-ne-zero : (w : List ℕ) → not (length w == 0) ≡ true → 1 ≤ length w
length-ne-zero [] h = absurd (ground (arith, h))
length-ne-zero (c ∷ cs) h = omega arith

first_space :
    (w tail : List ℕ)
    → has_byte space w ≡ false
    → IsTail tail
    → position space (w ++ tail) ≡ length w
first_space w tail h t = omega (arith, position-append space w tail h, position-IsTail tail t)

plain_word-Read : (w tail : List ℕ) → plain_word w ≡ true → IsTail tail → Read w tail
unfolding end_of_arg char_find copied_arg
plain_word-Read w tail h t = record {
  i = length w;
  at = rw open_quote (
      ground
        (arith, length-append w tail, length-ne-zero w nonempty, first_space w tail no_space t));
  copied = λ max_length g. rw open_quote (ground (arith, g, take-append w tail (length w) refl));
  closed = rw open_quote refl;
  inside = omega arith;
  rest = ap skip_blanks (drop_more w tail (length w + 1) refl) ∙ drop_space tail t;
}
  where
    nonempty : not (length w == 0) ≡ true
    nonempty = ground (arith, h)

    no_space : has_byte space w ≡ false
    no_space = ground (arith, h)

    open_quote : starts_with quote (w ++ tail) ≡ false
    open_quote = starts_with-append w tail nonempty ∙ ground (arith, h)

first_quote :
    (t tail : List ℕ) → has_byte quote t ≡ false → position quote (t ++ (quote ∷ tail)) ≡ length t
unfolding position
first_quote t tail h = omega (arith, position-append quote t (quote ∷ tail) h)

quoted-Read : (t tail : List ℕ) → has_byte quote t ≡ false → IsTail tail → Read (quoted t) tail
unfolding end_of_arg char_find copied_arg starts_with
quoted-Read t tail h k = record {
  i = 1 + length t;
  at =
      rw (append_assoc t (quote ∷ []) tail)
        (ground (arith, first_quote t tail h, length-append t (quote ∷ tail)));
  copied = λ max_length g. ground (
    arith,
    g,
    length-append t (quote ∷ []),
    take-append (quoted t) tail (1 + length t + 1) (omega (arith, length-append t (quote ∷ []))),
  );
  closed = rw (append_assoc t (quote ∷ []) tail) (ground (arith, length-append t (quote ∷ tail)));
  inside = omega (arith, length-append t (quote ∷ []));
  rest = ap skip_blanks (
      drop-append (quoted t) tail (1 + length t + 1) (omega (arith, length-append t (quote ∷ []))));
}

word-Read : (w tail : List ℕ) → IsWord w → IsTail tail → Read w tail
word-Read w tail (inl h) k = plain_word-Read w tail h k
word-Read w tail (inr (t, e, h)) k = rw e (quoted-Read t tail h k)

-- An argument is not blank at its start.
plain-skip_blanks : (w tail : List ℕ) → plain_word w ≡ true → skip_blanks (w ++ tail) ≡ w ++ tail
unfolding skip_blanks has_byte
plain-skip_blanks [] tail h = absurd (ground (arith, h))
plain-skip_blanks (c ∷ cs) tail h = ground (arith, h)

word-skip_blanks : (w tail : List ℕ) → IsWord w → skip_blanks (w ++ tail) ≡ w ++ tail
unfolding skip_blanks
word-skip_blanks w tail (inl h) = plain-skip_blanks w tail h
word-skip_blanks w tail (inr (t, e, h)) = rw e refl

word-length : (w : List ℕ) → IsWord w → 1 ≤ length w
word-length w (inl h) = length-ne-zero w (ground (arith, h))
word-length w (inr (t, e, h)) = rw e (omega arith)

line-skip_blanks :
    (w : List ℕ) (ws : List (List ℕ)) → IsWord w → skip_blanks (line_of (w ∷ ws)) ≡ line_of (w ∷ ws)
unfolding line_of
line-skip_blanks w [] h = rw (sym (append-nil w)) (word-skip_blanks w [] h)
line-skip_blanks w (v ∷ ws) h = word-skip_blanks w (space ∷ line_of (v ∷ ws)) h

line-length : (w : List ℕ) (ws : List (List ℕ)) → IsWord w → 1 ≤ length (line_of (w ∷ ws))
unfolding line_of
line-length w [] h = word-length w h
line-length w (v ∷ ws) h =
    omega (arith, length-append w (space ∷ line_of (v ∷ ws)), word-length w h)

module _ (max_length : ℕ) where
  last_word :
      (w : List ℕ) (left : ℕ) (args : List (List ℕ))
      → Read w []
      → length w < max_length
      → parse_args max_length (suc left) (w ++ []) args ≡ some (args ++ (w ∷ []))
  unfolding parse_args skip_blanks
  last_word w left args r g = rw (r.at, r.copied max_length g, r.closed, r.rest) (ground arith)

  next_word :
      (w line : List ℕ) (left : ℕ) (args : List (List ℕ))
      → Read w (space ∷ line)
      → skip_blanks line ≡ line
      → 1 ≤ length line
      → length (w ++ (space ∷ line)) < max_length
      → parse_args max_length (suc left) (w ++ (space ∷ line)) args
        ≡ parse_args max_length left line (args ++ (w ∷ []))
  unfolding parse_args skip_blanks
  next_word w line left args r e h g =
      rw
        (
          r.at,
          r.copied max_length (omega (arith, length-append w (space ∷ line))),
          r.closed,
          r.rest,
          e,
          take_all line (max_length - 1) (omega (arith, length-append w (space ∷ line))),
        )
        (ground (arith, h, r.inside, length-append w (space ∷ line)))

  parse_args-line_of :
      (w : List ℕ) (ws : List (List ℕ)) (left : ℕ) (args : List (List ℕ))
      → AllWords (w ∷ ws)
      → length ws < left
      → length (line_of (w ∷ ws)) < max_length
      → parse_args max_length left (line_of (w ∷ ws)) args ≡ some (args ++ (w ∷ ws))
  unfolding line_of
  parse_args-line_of w ws zero args a h g = absurd (omega arith)
  parse_args-line_of w [] (suc left) args a h g =
      ap (λ l. parse_args max_length (suc left) l args) (sym (append-nil w))
      ∙ last_word w left args (word-Read w [] a.0 tt) g
  parse_args-line_of w (v ∷ ws) (suc left) args a h g =
      next_word w (line_of (v ∷ ws)) left args (word-Read w (space ∷ line_of (v ∷ ws)) a.0 refl)
        (line-skip_blanks v ws a.1.0) (line-length v ws a.1.0) g
      ∙ parse_args-line_of v ws left (args ++ (w ∷ [])) a.1 (omega arith)
          (omega (arith, length-append w (space ∷ line_of (v ∷ ws))))
      ∙ ap some (append_assoc args (w ∷ []) (v ∷ ws))

  -- One to four arguments, written on one line that fits the buffer, are parsed to themselves.
  pub commands_parse-line_of :
      (w : List ℕ) (ws : List (List ℕ))
      → AllWords (w ∷ ws)
      → length ws < max_num_args
      → length (line_of (w ∷ ws)) < max_length
      → commands_parse max_length (line_of (w ∷ ws)) ≡ some (w ∷ ws)
  unfolding commands_parse
  commands_parse-line_of w ws a h g = parse_args-line_of w ws max_num_args [] a h g
