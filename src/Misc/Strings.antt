-- ===== src/Misc/Strings.antt =====
-- `char_find`, `unquote_str` and `get_elapsed_time_str` of src/misc.c.
use tox_relayer.Prelude.{
  ℕ, suc, ◌+◌, ◌-◌, ◌/◌, ◌%◌, Option, none, some, List, [], ◌∷◌, ◌++◌, if◌then◌else◌, leb, ◌==◌,
  length, take, drop,
}
use tox_relayer.Text.{codes, digits}

-- The position of the first `ch`, or the length of the text.
unfoldable pub position : ℕ → List ℕ → ℕ
position ch [] = 0
position ch (c ∷ cs) = let rest = suc (position ch cs) in if c == ch then 0 else rest

-- `char_find` of a text from an index that is not negative.
unfoldable pub char_find : ℕ → List ℕ → ℕ → ℕ
char_find idx s ch = if leb (length s) idx then length s else idx + position ch (drop idx s)

unfoldable pub without_last_quote : List ℕ → List ℕ
without_last_quote [] = []
without_last_quote (c ∷ []) = if c == 34 then [] else c ∷ []
without_last_quote (c ∷ d ∷ cs) = c ∷ without_last_quote (d ∷ cs)

unfoldable pub without_first_quote : List ℕ → List ℕ
without_first_quote [] = []
without_first_quote (c ∷ cs) = if c == 34 then cs else c ∷ cs

-- What is left in a buffer of `out_size` bytes, which is not 0.
unfoldable pub unquote_str : Option (List ℕ) → ℕ → List ℕ
unquote_str none out_size = []
unquote_str (some arg) out_size = take (out_size - 1) (without_last_quote (without_first_quote arg))

-- `get_elapsed_time_str`, before `snprintf` cuts it.
unfoldable pub elapsed_time_str : ℕ → List ℕ
elapsed_time_str secs =
    digits (secs / 3600 / 24)
    ++ (codes "d "
        ++ (digits (secs / 3600 % 24) ++ (codes "h " ++ (digits (secs % 3600 / 60) ++ codes "m"))))
