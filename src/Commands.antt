-- ===== src/Commands.antt =====
-- The command line parser of src/commands.h and src/commands.c. An argument array holds C strings;
-- the size MAX_COMMAND_LENGTH of an argument is TOX_MAX_MESSAGE_LENGTH, which belongs to toxcore.
pub mod Words
pub mod Bounds
mod Tests
use tox_relayer.Prelude.{
  ℕ, zero, suc, ◌+◌, ◌-◌, Bool, true, false, not, ◌&&◌, Option, none, some, List, [], ◌∷◌, ◌++◌,
  if◌then◌else◌, ltb, leb, ◌==◌, length, take, drop,
}
use tox_relayer.Misc.{starts_with}
use tox_relayer.Misc.Strings.{char_find}

abbrev pub max_num_args : ℕ
max_num_args = 4

abbrev pub space : ℕ
space = 32

abbrev pub quote : ℕ
quote = 34

unfoldable pub skip_blanks : List ℕ → List ℕ
skip_blanks [] = []
skip_blanks (c ∷ cs) = let rest = skip_blanks cs in if c == space then rest else c ∷ cs

-- Where the argument at the start of the text ends: at its closing quote, or at a space.
unfoldable pub end_of_arg : List ℕ → ℕ
end_of_arg line = if starts_with quote line then char_find 1 line quote else char_find 0 line space

module _ (max_length : ℕ) where
  -- `args[num_args]` for an argument that ends at `i`.
  unfoldable pub copied_arg : List ℕ → ℕ → List ℕ
  copied_arg line i =
      let copy_len = if starts_with quote line then i + 1 else i in
      take (if ltb (max_length - 1) copy_len then max_length - 1 else copy_len) line

  -- The loop with room for that many arguments more; `none` is -1.
  unfoldable pub parse_args : ℕ → List ℕ → List (List ℕ) → Option (List (List ℕ))
  parse_args zero line args = some args
  parse_args (suc left) line args =
      let i = end_of_arg line in
      let args' = args ++ (copied_arg line i ∷ []) in
      let rest = skip_blanks (drop (i + 1) line) in
      let more = parse_args left (take (max_length - 1) rest) args' in
      if starts_with quote line && leb (length line) i
      then none
      else if leb (length line) i
      then some args'
      else if length rest == 0
      then some args'
      else more

  unfoldable pub commands_parse : List ℕ → Option (List (List ℕ))
  commands_parse input = parse_args max_num_args input []
