-- ===== src/Bot/Masters.antt =====
-- The masters file: the friend whose Tox ID a master adds with `/master` is a master.
use tox_relayer.Prelude.{
  ℕ, zero, suc, ◌*◌, ◌/◌, ◌%◌, ◌≤◌, ◌<◌, ◌≡◌, refl, ap, ◌∙◌, Bool, true, false, not, Option, some,
  List, [], ◌∷◌, ◌++◌, arith, length, take, if◌then◌else◌, if-elim, Option-elim, ltb, ◌==◌,
  length-append,
}
use mathlib.Core.List.{append_assoc}
use tox_relayer.Text.{codes, has_byte, c_str}
use tox_relayer.Text.Bytes.{str_eq_iff}
use tox_relayer.Misc.Hex.{Spells, IsDigit-visible, hex_string_to_bin-Spells, length-Spells}
use tox_relayer.Misc.KeyFile.{
  FileIo, fgets, cut_line, key_matches, line_matches, search_lines, file_contains_key,
}
use tox_relayer.Bot.{Answers, Bot, written, emit, say, friend_is_master}
use tox_relayer.Bot.Profile.{cmd_master}

-- A line that one `fgets` reads whole.
abbrev pub IsLine : List ℕ → Type 0
IsLine l = (has_byte 10 l ≡ false) × (length l < 255)

abbrev pub AllLines : List (List ℕ) → Type 0
AllLines [] = Unit {0}
AllLines (l ∷ ls) = IsLine l × AllLines ls

-- The bytes of a file of such lines.
unfoldable pub file_of : List (List ℕ) → List ℕ
file_of [] = []
file_of (l ∷ ls) = l ++ (10 ∷ file_of ls)

file_of-append :
    (ls : List (List ℕ)) (l : List ℕ) → file_of ls ++ (l ++ (10 ∷ [])) ≡ file_of (ls ++ (l ∷ []))
unfolding file_of
file_of-append [] l = refl
file_of-append (x ∷ ls) l =
    append_assoc x (10 ∷ file_of ls) (l ++ (10 ∷ []))
    ∙ ap (λ r. x ++ (10 ∷ r)) (file_of-append ls l)

length-file_of : (ls : List (List ℕ)) → length ls ≤ length (file_of ls)
unfolding file_of
length-file_of [] = omega arith
length-file_of (l ∷ ls) = omega (arith, length-append l (10 ∷ file_of ls), length-file_of ls)

fgets-line :
    (room : ℕ) (l rest : List ℕ)
    → has_byte 10 l ≡ false
    → length l < room
    → fgets room (l ++ (10 ∷ rest)) ≡ (l ++ (10 ∷ []), rest)
unfolding fgets has_byte
fgets-line zero l rest h g = absurd (omega arith)
fgets-line (suc room) [] rest h g = refl
fgets-line (suc room) (c ∷ cs) rest h g =
    rw (fgets-line room cs rest (ground (arith, h)) (omega arith)) (ground (arith, h))

-- A text that spells bytes is read back from its line.
module _ (rest : List ℕ) where
  c_str-Spells : (text bs : List ℕ) → Spells text bs → c_str (text ++ rest) ≡ text ++ c_str rest
  unfolding c_str
  c_str-Spells [] [] h = refl
  c_str-Spells [] (_ ∷ _) h = absurd h
  c_str-Spells (_ ∷ []) bs h = absurd h
  c_str-Spells (_ ∷ _ ∷ _) [] h = absurd h
  c_str-Spells (hi ∷ lo ∷ text) (b ∷ bs) (h, l, more) =
      rw
        (
          (IsDigit-visible (b / 16) hi h).0,
          (IsDigit-visible (b % 16) lo l).0,
          c_str-Spells text bs more,
        )
        refl

  cut_line-Spells' : (text bs : List ℕ) → Spells text bs → cut_line (text ++ (10 ∷ rest)) ≡ text
  unfolding cut_line
  cut_line-Spells' [] [] h = refl
  cut_line-Spells' [] (_ ∷ _) h = absurd h
  cut_line-Spells' (_ ∷ []) bs h = absurd h
  cut_line-Spells' (_ ∷ _ ∷ _) [] h = absurd h
  cut_line-Spells' (hi ∷ lo ∷ text) (b ∷ bs) (h, l, more) =
      rw
        (
          (IsDigit-visible (b / 16) hi h).1,
          (IsDigit-visible (b / 16) hi h).2,
          (IsDigit-visible (b % 16) lo l).1,
          (IsDigit-visible (b % 16) lo l).2,
          cut_line-Spells' text bs more,
        )
        refl

cut_line-Spells : (text bs : List ℕ) → Spells text bs → cut_line (c_str (text ++ (10 ∷ []))) ≡ text
unfolding c_str
cut_line-Spells text bs h = rw (c_str-Spells (10 ∷ []) text bs h) (cut_line-Spells' [] text bs h)

has_byte-Spells : (text bs : List ℕ) → Spells text bs → has_byte 10 text ≡ false
unfolding has_byte
has_byte-Spells [] [] h = refl
has_byte-Spells [] (_ ∷ _) h = absurd h
has_byte-Spells (_ ∷ []) bs h = absurd h
has_byte-Spells (_ ∷ _ ∷ _) [] h = absurd h
has_byte-Spells (hi ∷ lo ∷ text) (b ∷ bs) (h, l, more) =
    rw
      (
        (IsDigit-visible (b / 16) hi h).1,
        (IsDigit-visible (b % 16) lo l).1,
        has_byte-Spells text bs more,
      )
      refl

module _ (key_size : ℕ) (io : FileIo) (key : List ℕ) where
  search_lines-line :
      (f : ℕ) (l rest : List ℕ)
      → IsLine l
      → search_lines key_size io key (suc f) (l ++ (10 ∷ rest)) ≡ (
          if line_matches key_size io key (l ++ (10 ∷ []))
          then true
          else search_lines key_size io key f rest)
  unfolding search_lines
  search_lines-line f [] rest h = rw (fgets-line 255 [] rest h.0 h.1) refl
  search_lines-line f (c ∷ cs) rest h = rw (fgets-line 255 (c ∷ cs) rest h.0 h.1) refl

  search_lines-last :
      (f : ℕ) (ls : List (List ℕ)) (l : List ℕ)
      → AllLines ls
      → IsLine l
      → length ls < f
      → line_matches key_size io key (l ++ (10 ∷ [])) ≡ true
      → search_lines key_size io key f (file_of (ls ++ (l ∷ []))) ≡ true
  unfolding file_of
  search_lines-last zero ls l a h g e = absurd (omega arith)
  search_lines-last (suc f) [] l a h g e = search_lines-line f l [] h ∙ rw e refl
  search_lines-last (suc f) (x ∷ ls) l a h g e =
      let rest = search_lines-last f ls l a.1 h (omega arith) e in
      search_lines-line f x (file_of (ls ++ (l ∷ []))) a.0
      ∙ if-elim (λ r. r ≡ true) (line_matches key_size io key (x ++ (10 ∷ []))) (λ _. refl)
          (λ _. rest)

-- A Tox ID starts with the public key; `text` spells it.
module _ (io : FileIo) (key_size : ℕ) (key text address : List ℕ) (spells : Spells text address)
    (size : 1 ≤ key_size) (long : key_size ≤ length address) (short : length address ≤ 126) where
  id-IsLine : IsLine text
  id-IsLine =
      (has_byte-Spells text address spells, omega (arith, length-Spells text address spells))

  line_matches-id :
      io.allocated ≡ true
      → take key_size address ≡ take key_size key
      → line_matches key_size io key (text ++ (10 ∷ [])) ≡ true
  unfolding line_matches key_matches
  line_matches-id a e =
      rw
        (
          cut_line-Spells text address spells,
          a,
          hex_string_to_bin-Spells text address spells (omega arith),
          enough,
        )
        ((str_eq_iff _ _).1 e)
    where
      enough : ltb (length text) (key_size * 2) ≡ false
      enough = ground (arith, length-Spells text address spells, long)

  file_contains_key-added :
      (ls : List (List ℕ))
      → AllLines ls
      → io.opened ≡ true
      → io.allocated ≡ true
      → take key_size address ≡ take key_size key
      → (file_contains_key key_size io key (some (file_of (ls ++ (text ∷ []))))).1 ≡ true
  unfolding file_contains_key
  file_contains_key-added ls a o l e =
      if-elim (λ (r : Option (List ℕ) × Bool). r.1 ≡ true) (not io.opened)
        (λ h. absurd (ground (arith, h, o)))
        (λ _.
          search_lines-last key_size io key (suc (length (file_of (ls ++ (text ∷ []))))) ls (text) a
            id-IsLine
            (omega (arith, length-file_of (ls ++ (text ∷ [])), length-append ls (text ∷ [])))
            (line_matches-id l e))

masters-read :
    (m : Answers) (f : ℕ) (b : Bot) (bytes : List ℕ)
    → b.masters ≡ some bytes
    → (friend_is_master m f b).0.masters ≡ some bytes
unfolding friend_is_master file_contains_key
masters-read m f b bytes e =
    Option-elim (λ (r : Bot × Bool). r.0.masters ≡ some bytes) (m.public_key f) (λ _. e)
      (λ key _. rw e (
        if-elim (λ (r : Option (List ℕ) × Bool). r.0 ≡ some bytes) (not m.io.opened) (λ _. refl)
          (λ _. refl)))

is_master-key :
    (m : Answers) (g : ℕ) (b : Bot) (key : List ℕ) (file : Option (List ℕ))
    → m.public_key g ≡ some key
    → b.masters ≡ file
    → (friend_is_master m g b).1 ≡ (file_contains_key m.key_size m.io key file).1
unfolding friend_is_master
is_master-key m g b key file answer e = rw (answer, e, friend_is_master) refl

abbrev pub master_args : List ℕ → List (List ℕ)
master_args text = codes "/master" ∷ text ∷ []

module _ (m : Answers) (f g : ℕ) (b : Bot) (ls : List (List ℕ)) (key text address : List ℕ)
    (lines : AllLines ls) (file : b.masters ≡ some (file_of ls)) (opened : m.io.opened ≡ true)
    (allocated : m.io.allocated ≡ true) (appended : m.append ≡ written)
    (spells : Spells text address) (size : 1 ≤ m.key_size) (long : m.key_size ≤ length address)
    (short : length address ≤ 126) (same_size : length address ≡ length m.address)
    (answer : m.public_key g ≡ some key)
    (same_key : take m.key_size address ≡ take m.key_size key) where
  added-masters :
      (friend_is_master m f b).1 ≡ true
      → (cmd_master m f 1 (master_args text) b).masters ≡ some (file_of (ls ++ (text ∷ [])))
  unfolding cmd_master say emit
  added-masters master =
      rw (master, right_length, appended, masters-read m f b (file_of ls) file)
        (ap some (file_of-append ls text))
    where
      right_length : (length text == length m.address * 2) ≡ true
      right_length = ground (arith, length-Spells text address spells, same_size)

  -- After a master has added a Tox ID with `/master`, in hexadecimal digits of either case, the friend with
  -- that ID is a master: the masters file has lines that `fgets` reads whole, the system calls succeed,
  -- the ID has the size of the bot's own and at most 126 bytes, and starts with the friend's public key.
  pub cmd_master-friend_is_master :
      (friend_is_master m f b).1 ≡ true
      → (friend_is_master m g (cmd_master m f 1 (master_args text) b)).1 ≡ true
  cmd_master-friend_is_master master =
      is_master-key m g (cmd_master m f 1 (master_args text) b) key
        (some (file_of (ls ++ (text ∷ [])))) answer (added-masters master)
      ∙ file_contains_key-added m.io m.key_size key text address spells size long short ls lines
          opened allocated same_key
