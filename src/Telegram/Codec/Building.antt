-- ===== src/Telegram/Codec/Building.antt =====
-- What the encoders leave in the destination: the whole frame, or nothing.
use mathlib.Core.List.{append_assoc, append-nil}
use tox_relayer.Prelude.{
  ℕ, ◌+◌, ◌≤◌, ◌<◌, ◌≡◌, refl, ◌⊎◌, inl, true, false, Option, none, some, List, [], ◌∷◌, ◌++◌,
  arith, if◌then◌else◌, leb, length, length-append,
}
use tox_relayer.Prelude.Int.{ℤ, pos}
use tox_relayer.Text.{codes, newline}
use tox_relayer.Telegram.Encode.{
  Buf, buf_init, buf_put, failed, finish, put_keys, put_body, write_text, write_cmd, field_text,
  text_meta, cmd_request, terminator, err_toosmall,
}
use tox_relayer.Telegram.Codec.{keyed, text_frame, cmd_frame}

-- The builder after it was given the bytes `t`, whatever the pieces.
abbrev pub Holds : ℕ → Buf → List ℕ → Type 0
Holds cap b t =
    ((b ≡ record { text = t; cap = cap; overflow = false }) × (length t < cap))
    ⊎ ((b.cap ≡ cap) × (b.overflow ≡ true) × (cap ≤ length t))

buf_init-Holds : (cap : ℕ) → 0 < cap → Holds cap (buf_init cap) []
unfolding buf_init
buf_init-Holds cap h = inl (refl, h)

buf_put-Holds :
    (cap : ℕ) (b : Buf) (t src : List ℕ) → Holds cap b t → Holds cap (buf_put b src) (t ++ src)
unfolding buf_put
buf_put-Holds cap b t src h = ground (arith, length-append t src)

finish-Holds :
    (cap : ℕ) (b : Buf) (t : List ℕ)
    → Holds cap b t
    → finish b ≡ (
        if leb (length t + 1) cap
        then record { rc = pos (length t); out = t }
        else failed err_toosmall)
unfolding finish
finish-Holds cap b t h = ground arith

put_keys-Holds :
    (cap : ℕ) (b : Buf) (t receiver sender : List ℕ)
    → Holds cap b t
    → Holds cap
        (put_keys b receiver sender)
        ((((t ++ receiver) ++ (newline ∷ [])) ++ sender) ++ (newline ∷ []))
unfolding put_keys
put_keys-Holds cap b t receiver sender h = buf_put-Holds cap _ _ (newline ∷ []) (
    buf_put-Holds cap _ _ sender
      (buf_put-Holds cap _ _ (newline ∷ []) (buf_put-Holds cap b t receiver h)))

put_body-Holds :
    (cap : ℕ) (b : Buf) (t : List ℕ) (body : Option (List ℕ))
    → Holds cap b t
    → Holds cap (put_body b body) (t ++ field_text body)
unfolding put_body
put_body-Holds cap b t none h = rw append-nil h
put_body-Holds cap b t (some []) h = rw append-nil h
put_body-Holds cap b t (some (c ∷ cs)) h = buf_put-Holds cap b t (c ∷ cs) h

-- The builder writes the whole frame, or reports that it does not fit and leaves nothing.
pub write_text-eq-text_frame :
    (cap : ℕ) (receiver sender : List ℕ) (sn timestamp : ℤ) (body : Option (List ℕ))
    → 0 < cap
    → let t = text_frame receiver sender sn timestamp (field_text body) in
      write_text cap receiver sender sn timestamp body ≡ (
        if leb (length t + 1) cap
        then record { rc = pos (length t); out = t }
        else failed err_toosmall)
unfolding write_text text_frame keyed
write_text-eq-text_frame cap receiver sender sn timestamp body h =
    finish-Holds cap _ (text_frame receiver sender sn timestamp (field_text body)) (
      simp append_assoc at (
        buf_put-Holds cap _ _ (terminator ++ (newline ∷ [])) (
          put_body-Holds cap _ _ body (
            buf_put-Holds cap _ _ (text_meta sn timestamp) (
              put_keys-Holds cap _ _ receiver sender
                (buf_put-Holds cap _ _ (codes "ZCZC TEXT\n") (buf_init-Holds cap h)))))))

pub write_cmd-eq-cmd_frame :
    (cap : ℕ) (receiver sender : List ℕ) (from to : ℤ)
    → 0 < cap
    → let t = cmd_frame receiver sender from to in
      write_cmd cap receiver sender from to ≡ (
        if leb (length t + 1) cap
        then record { rc = pos (length t); out = t }
        else failed err_toosmall)
unfolding write_cmd cmd_frame keyed
write_cmd-eq-cmd_frame cap receiver sender from to h =
    finish-Holds cap _ (cmd_frame receiver sender from to) (
      simp append_assoc at (
        buf_put-Holds cap _ _ (terminator ++ (newline ∷ [])) (
          buf_put-Holds cap _ _ (cmd_request from to) (
            put_keys-Holds cap _ _ receiver sender
              (buf_put-Holds cap _ _ (codes "ZCZC CMD\n") (buf_init-Holds cap h))))))
