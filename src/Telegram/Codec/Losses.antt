-- ===== src/Telegram/Codec/Losses.antt =====
-- One-line bodies that the encoder accepts and the decoder's line buffer cannot hold.
use tox_relayer.Prelude.{
  ℕ, zero, suc, ◌+◌, ◌-◌, ◌≤◌, ◌≡◌, ◌≢◌, refl, ap, Bool, true, false, not, Option, none, some, List,
  [], ◌∷◌, ◌++◌, arith, if-elim, leb, length, take, length-append, length-take,
}
use mathlib.Core.List.{append_assoc}
use tox_relayer.Text.{newline}
use tox_relayer.Text.Bytes.{IsPlain, IsPlain-append, c_str-IsPlain}
use tox_relayer.Telegram.Encode.{ends_record, terminator, body_max}
use tox_relayer.Telegram.Decode.{read_line, skip_byte, Line, next_line, body_loop}
use tox_relayer.Telegram.Codec.Lines.{IsPlain-terminator}

read_line-long :
    (room : ℕ) (line rest : List ℕ)
    → IsPlain line
    → room ≤ length line
    → (truncated : Bool) × (read_line room (line ++ (newline ∷ rest))
        ≡ (take room line, truncated, newline ∷ rest))
unfolding read_line
read_line-long zero [] rest p h = (false, refl)
read_line-long (suc room) [] rest p h = absurd (omega arith)
read_line-long zero (c ∷ cs) rest p h =
    let ih = read_line-long zero cs rest p.1 (omega arith) in (true, ground (arith, ih.1))
read_line-long (suc room) (c ∷ cs) rest p h =
    let ih = read_line-long room cs rest p.1 (omega arith) in (ih.0, ground (arith, ih.1))

IsPlain-take : (n : ℕ) (xs : List ℕ) → IsPlain xs → IsPlain (take n xs)
IsPlain-take zero xs p = tt
IsPlain-take (suc n) [] p = tt
IsPlain-take (suc n) (x ∷ xs) p = (p.0, IsPlain-take n xs p.1)

-- The decoder stores the first 143 bytes of such a line and drops the others.
next_line-long :
    (c : ℕ) (cs : List ℕ)
    → IsPlain (c ∷ cs)
    → 143 ≤ length (c ∷ cs)
    → (complete : Bool) × (next_line (c ∷ (cs ++ (newline ∷ [])))
        ≡ some (record { text = take 143 (c ∷ cs); complete = complete; rest = [] }))
unfolding next_line skip_byte
next_line-long c cs p h =
    let (t, e) = read_line-long 143 (c ∷ cs) [] p h in
    (not t, rw (e, c_str-IsPlain (take 143 (c ∷ cs)) (IsPlain-take 143 (c ∷ cs) p)) refl)

body_loop-nil : (f : ℕ) (body : List ℕ) → body_loop f [] body ≡ none
unfolding body_loop next_line
body_loop-nil zero body = refl
body_loop-nil (suc f) body = refl

-- When nothing follows a line, the body is no longer than that line without the terminator.
body_loop-only :
    (f : ℕ) (s b : List ℕ) (line : Line)
    → next_line s ≡ some line
    → line.rest ≡ []
    → body_loop (suc f) s [] ≡ some b
    → length b ≤ length line.text - 4
unfolding body_loop
body_loop-only f s b line n r =
    rw (n, body_loop)
      (if-elim P (ends_record line.text)
        (λ _.
          if-elim P (leb body_max (0 + keep + 1)) (λ _ q. cc)
            (λ _ q. ground (arith, length-take keep line.text)))
        (λ _.
          if-elim P (leb body_max (0 + length line.text + 1)) (λ _ q. cc)
            (λ _ q. cc (body_loop-nil f (line.text ++ (newline ∷ [])), q))))
  where
    keep : ℕ
    keep = length line.text - 4

    P : Option (List ℕ) → Type 0
    P o = o ≡ some b → length b ≤ keep

-- So what it takes for the body has at most 139 bytes.
body_loop-long :
    (f : ℕ) (c : ℕ) (cs b : List ℕ)
    → IsPlain (c ∷ cs)
    → 143 ≤ length (c ∷ cs)
    → body_loop (suc f) (c ∷ (cs ++ (newline ∷ []))) [] ≡ some b
    → length b ≤ 139
body_loop-long f c cs b p h q =
    let (t, e) = next_line-long c cs p h in
    omega
      (arith, body_loop-only f (c ∷ (cs ++ (newline ∷ []))) b _ e refl q, length-take 143 (c ∷ cs))

pub body_loop-one_line :
    (f : ℕ) (body b : List ℕ)
    → IsPlain body
    → 140 ≤ length body
    → body_loop (suc f) (body ++ (terminator ++ (newline ∷ []))) [] ≡ some b
    → b ≢ body
body_loop-one_line f [] b p h e q = absurd (omega arith)
body_loop-one_line f (c ∷ cs) b p h e q = omega (
  arith,
  body_loop-long f c (cs ++ terminator) b (IsPlain-append (c ∷ cs) terminator p IsPlain-terminator)
      (omega (arith, length-append cs terminator))
      (rw (append_assoc cs terminator (newline ∷ [])) e),
  ap length q,
)
