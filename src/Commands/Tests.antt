-- ===== src/Commands/Tests.antt =====
-- Runs of the command line parser at fixed inputs, and the theorems applied there.
use tox_relayer.Prelude.{◌≡◌, refl, none, some, [], ◌∷◌, arith, inl, inr}
use tox_relayer.Text.{codes, has_byte}
use tox_relayer.Misc.{starts_with}
use tox_relayer.Misc.Strings.{char_find, position}
use tox_relayer.Commands.{commands_parse, parse_args, end_of_arg, copied_arg, skip_blanks}
use tox_relayer.Commands.Words.{commands_parse-line_of, line_of}

commands_parse-line_of_example :
    commands_parse 1372 (line_of (codes "/title" ∷ codes "3" ∷ codes "\"the relay\"" ∷ []))
    ≡ some (codes "/title" ∷ codes "3" ∷ codes "\"the relay\"" ∷ [])
unfolding line_of has_byte starts_with
commands_parse-line_of_example =
    commands_parse-line_of 1372 (codes "/title") (codes "3" ∷ codes "\"the relay\"" ∷ [])
      (inl refl, (inl refl, (inr (codes "the relay", refl, refl), tt))) (omega arith) (omega arith)

-- A text that is not closed is refused.
unclosed : commands_parse 1372 (codes "/name \"bot") ≡ none
unfolding commands_parse parse_args end_of_arg copied_arg skip_blanks starts_with char_find position
unclosed = refl

-- Spaces at the end are skipped; those at the start make an empty argument.
blanks : commands_parse 1372 (codes " /id  ") ≡ some ([] ∷ codes "/id" ∷ [])
unfolding commands_parse parse_args end_of_arg copied_arg skip_blanks starts_with char_find position
blanks = refl
