-- ===== src/Telegram/Codec/Lines.antt =====
-- Reading back lines that were written: `tg_next_line` on a plain line that fits.
use tox_relayer.Prelude.{
  ℕ, zero, suc, ◌+◌, ◌-◌, ◌≤◌, ◌<◌, ◌≡◌, refl, ap, sym, ◌∙◌, Bool, true, false, ◌&&◌, some, List,
  [], ◌∷◌, ◌++◌, arith, if◌then◌else◌, ◌==◌, leb, length, length-append, Bool-cases, inl, inr,
  ==_iff,
}
use mathlib.Core.List.{append_assoc, append-nil}
use tox_relayer.Text.{newline}
use tox_relayer.Text.Bytes.{
  plain, IsPlain, IsPlain-append, c_str-IsPlain, str_eq_iff, take-append, drop-append,
}
use tox_relayer.Telegram.Encode.{ends_record, scan_body, terminator}
use tox_relayer.Telegram.Decode.{read_line, skip_byte, next_line, whole_line, body_loop}

read_line-IsPlain :
    (room : ℕ) (line rest : List ℕ)
    → IsPlain line
    → length line ≤ room
    → read_line room (line ++ (newline ∷ rest)) ≡ (line, false, newline ∷ rest)
unfolding read_line
read_line-IsPlain room [] rest p h = refl
read_line-IsPlain room (c ∷ cs) rest p h =
    ground (arith, read_line-IsPlain (room - 1) cs rest p.1 (omega arith))

pub next_line-IsPlain :
    (line rest : List ℕ)
    → IsPlain line
    → length line ≤ 143
    → next_line (line ++ (newline ∷ rest))
      ≡ some (record { text = line; complete = true; rest = rest })
unfolding next_line skip_byte
next_line-IsPlain [] rest p h = rw (read_line-IsPlain 143 [] rest p h, c_str-IsPlain [] p) refl
next_line-IsPlain (c ∷ cs) rest p h =
    rw (read_line-IsPlain 143 (c ∷ cs) rest p h, c_str-IsPlain (c ∷ cs) p) refl

pub whole_line-IsPlain :
    (line rest : List ℕ)
    → IsPlain line
    → length line ≤ 143
    → whole_line (line ++ (newline ∷ rest))
      ≡ some (record { text = line; complete = true; rest = rest })
unfolding whole_line
whole_line-IsPlain line rest p h = rw (next_line-IsPlain line rest p h) refl

ends_record-terminator : (line : List ℕ) → ends_record (line ++ terminator) ≡ true
unfolding ends_record
ends_record-terminator line = ground (
  arith,
  length-append line terminator,
  drop-append line terminator (length (line ++ terminator) - 4)
      (omega (arith, length-append line terminator)),
  str_eq_iff terminator terminator,
)

-- A body of plain lines that the decoder's line buffer can hold: at most 143 bytes on each, and on
-- the last, which the terminator follows, at most 139. `n` is the length of the current line so far.
unfoldable pub fits : ℕ → List ℕ → Bool
fits n [] = leb n 139
fits n (c ∷ cs) =
    let rest = fits (if c == newline then 0 else n + 1) cs in
    (if c == newline then leb n 143 else plain c) && rest

pub IsPlain-terminator : IsPlain terminator
IsPlain-terminator = ground arith

-- The last line, with the terminator.
body_loop-last :
    (f : ℕ) (line acc : List ℕ)
    → IsPlain line
    → length line ≤ 139
    → length acc + length line ≤ 1022
    → body_loop (suc f) (line ++ (terminator ++ (newline ∷ []))) acc ≡ some (acc ++ line)
unfolding body_loop
body_loop-last f line acc p h t =
    rw
      (
        sym (append_assoc line terminator (newline ∷ [])),
        next_line-IsPlain (line ++ terminator) []
            (IsPlain-append line terminator p IsPlain-terminator)
            (omega (arith, length-append line terminator)),
        ends_record-terminator line,
        body_loop,
      )
      (ground (
        arith,
        length-append line terminator,
        take-append line terminator (length (line ++ terminator) - 4)
            (omega (arith, length-append line terminator)),
      ))

-- A line before the last.
body_loop-line :
    (f : ℕ) (line rest acc : List ℕ)
    → IsPlain line
    → length line ≤ 143
    → ends_record line ≡ false
    → length acc + length line + 1 ≤ 1022
    → body_loop (suc f) (line ++ (newline ∷ rest)) acc
      ≡ body_loop f rest (acc ++ (line ++ (newline ∷ [])))
unfolding body_loop
body_loop-line f line rest acc p h e t =
    rw (next_line-IsPlain line rest p h, e, body_loop) (ground arith)

-- The decoder's body loop gives back the body that stands before the terminator.
pub body_loop-fits :
    (cs line acc : List ℕ) (f : ℕ)
    → IsPlain line
    → fits (length line) cs ≡ true
    → scan_body line cs ≡ true
    → length acc + length line + length cs ≤ 1022
    → length cs < f
    → body_loop f (line ++ (cs ++ (terminator ++ (newline ∷ [])))) acc ≡ some (acc ++ (line ++ cs))
unfolding fits scan_body
body_loop-fits cs line acc zero p g s t h = absurd (omega arith)
body_loop-fits [] line acc (suc f) p g s t h =
    rw append-nil (body_loop-last f line acc p (ground arith) (omega arith))
body_loop-fits (c ∷ cs) line acc (suc f) p g s t h = elim (Bool-cases (c == newline)) [
  | inl e ↦ rw ((==_iff c newline).0 e) (
      body_loop-line f line (cs ++ (terminator ++ (newline ∷ []))) acc p (ground arith)
        (ground arith) (omega arith)
      ∙ body_loop-fits cs [] (acc ++ (line ++ (newline ∷ []))) f tt (ground arith) (ground arith)
          (omega
            (arith, length-append acc (line ++ (newline ∷ [])), length-append line (newline ∷ [])))
          (omega arith)
      ∙ ap some (simp append_assoc))
  | inr e ↦ rw (sym (append_assoc line (c ∷ []) (cs ++ (terminator ++ (newline ∷ []))))) (
      body_loop-fits cs (line ++ (c ∷ [])) acc (suc f)
        (IsPlain-append line (c ∷ []) p (ground arith))
        (ground (arith, length-append line (c ∷ []))) (ground arith)
        (omega (arith, length-append line (c ∷ []))) (omega arith)
      ∙ ap some (simp append_assoc))
]
