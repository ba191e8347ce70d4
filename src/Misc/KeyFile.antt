-- ===== src/Misc/KeyFile.antt =====
-- `file_contains_key` of src/misc.c, on the bytes of a file. A file that does not exist is `none`, and
-- is created empty.
use tox_relayer.Prelude.{
  ℕ, zero, suc, ◌*◌, Bool, true, false, not, ◌||◌, Option, none, some, List, [], ◌∷◌, if◌then◌else◌,
  ltb, ◌==◌, length, take,
}
use tox_relayer.Text.{c_str, str_eq}
use tox_relayer.Misc.{hex_string_to_bin}

-- `fgets` into a buffer with room for that many bytes before the NUL: the bytes read, and the rest.
unfoldable pub fgets : ℕ → List ℕ → List ℕ × List ℕ
fgets zero s = ([], s)
fgets (suc room) [] = ([], [])
fgets (suc room) (c ∷ cs) =
    let (bytes, rest) = fgets room cs in if c == 10 then (c ∷ [], cs) else (c ∷ bytes, rest)

-- The text before the first line end.
unfoldable pub cut_line : List ℕ → List ℕ
cut_line [] = []
cut_line (c ∷ cs) = let rest = cut_line cs in if c == 10 || c == 13 then [] else c ∷ rest

-- What the system answers: whether a missing file could be created, whether the file could be opened,
-- and whether `malloc` succeeds.
pub record FileIo : Type 0 where
  pub created : Bool
  pub opened : Bool
  pub allocated : Bool

-- The size TOX_PUBLIC_KEY_SIZE belongs to toxcore.
module _ (key_size : ℕ) (io : FileIo) (key : List ℕ) where
  unfoldable pub key_matches : Option (List ℕ) → Bool
  key_matches none = false
  key_matches (some bin) = str_eq (take key_size bin) (take key_size key)

  -- One line of the file.
  unfoldable pub line_matches : List ℕ → Bool
  line_matches chunk =
      let id = cut_line (c_str chunk) in
      if ltb (length id) (key_size * 2)
      then false
      else key_matches (hex_string_to_bin io.allocated (some id))

  -- The loop over the lines. Each round reads a byte at least, so as many rounds as there are bytes,
  -- and one, are enough.
  unfoldable pub search_lines : ℕ → List ℕ → Bool
  search_lines zero s = false
  search_lines (suc f) [] = false
  search_lines (suc f) (c ∷ cs) =
      let (chunk, rest) = fgets 255 (c ∷ cs) in
      let more = search_lines f rest in if line_matches chunk then true else more

  -- The file afterwards, and whether the answer is 1.
  unfoldable pub file_contains_key : Option (List ℕ) → Option (List ℕ) × Bool
  file_contains_key none = (if io.created then some [] else none, false)
  file_contains_key (some bytes) =
      if not io.opened
      then (some bytes, false)
      else (some bytes, search_lines (suc (length bytes)) bytes)
