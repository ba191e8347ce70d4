-- ===== src/Relay/Serving.antt =====
-- What `relay_serve_replay` of src/relay.c does for a request that one stored record answers, and how a
-- request comes to it.
use tox_relayer.Prelude.{
  ℕ, ◌≡◌, refl, sym, ◌∙◌, false, ◌||◌, none, some, Option, List, [], ◌∷◌, ◌++◌, arith, length, ◌==◌,
  if-elim, Option-elim, some_inj,
}
use tox_relayer.Prelude.Int.{ℤ, pos, leb_ℤ, ltb_ℤ}
use tox_relayer.Text.Bytes.{str_eq_iff}
use tox_relayer.Telegram.Encode.{Encoded, encode_text}
use tox_relayer.Telegram.Decode.{Message, cmd, decode, whole_line, next_line}
use tox_relayer.Relay.{
  Env, Relay, Outcome, Event, Stored, enqueue_called, wire_max, max_replay, serve_replay,
  serve_from, replay_loop, send, log, route, receive,
}

module _ (env : Env) (fetch : ℤ → ℤ → ℤ → ℕ → List Stored) (enqueue : List Event → ℤ → List ℕ → ℤ)
    (peer_key : ℤ → Option (List ℕ)) (fetches : env.fetch_range ≡ some fetch)
    (enqueues : env.enqueue ≡ some enqueue) (knows : env.peer_key ≡ some peer_key) (channel : ℤ)
    (peer : List ℕ) (known : peer_key channel ≡ some peer) (s : Stored) where
  abbrev replayed : Encoded
  replayed =
      encode_text (some wire_max) (some peer) env.self_public_key s.sn s.timestamp (some s.body)

  pub serve_replay-one :
      (r : Relay) (tg : Message)
      → fetch channel tg.sn tg.sn_to max_replay ≡ s ∷ []
      → leb_ℤ replayed.rc (pos 0) ≡ false
      → (serve_replay env r channel tg).0.events
        ≡ r.events
          ++ (enqueue_called channel replayed.out (enqueue r.events channel replayed.out) ∷ [])
  unfolding serve_replay serve_from replay_loop send log
  serve_replay-one r tg one good =
      rw (fetches, serve_replay)
        (rw (enqueues, serve_replay)
          (rw (knows, serve_replay)
            (rw (known, serve_replay) (rw (one, serve_replay) (rw good refl)))))

abbrev pub request : (self sender : List ℕ) → (from to : ℤ) → Message
request self sender from to = record {
  kind = cmd;
  receiver = self;
  sender = sender;
  sn = from;
  sn_to = to;
  timestamp = pos 0;
  body = [];
}

decode-nil : decode (some []) ≡ none
unfolding decode whole_line next_line
decode-nil = refl

-- A record that is a request to this relay.
pub receive-request :
    (env : Env) (self sender raw : List ℕ) (r : Relay) (channel from to : ℤ)
    → env.self_public_key ≡ some self
    → ltb_ℤ channel (pos 0) ≡ false
    → decode (some raw) ≡ some (request self sender from to)
    → receive env r channel (some raw) ≡ serve_replay env r channel (request self sender from to)
unfolding receive route
receive-request env self sender [] r channel from to own channel_ok decoded =
    absurd (ground (arith, sym decode-nil ∙ decoded))
receive-request env self sender (b ∷ bs) r channel from to own channel_ok decoded =
    Option-elim P env.self_public_key (λ e. absurd (ground (arith, sym e ∙ own)))
      (λ self' e.
        if-elim P (length (b ∷ bs) == 0 || ltb_ℤ channel (pos 0))
          (λ h. absurd (ground (arith, h, channel_ok)))
          (λ _.
            Option-elim P (decode (some (b ∷ bs))) (λ h. absurd (ground (arith, sym h ∙ decoded)))
              (λ tg h.
                routed self' (some_inj self' self (sym e ∙ own)) tg
                  (some_inj tg (request self sender from to) (sym h ∙ decoded)))))
  where
    P : Relay × Outcome → Type 0
    P x = x ≡ serve_replay env r channel (request self sender from to)

    routed :
        (self' : List ℕ)
        → self' ≡ self
        → (tg : Message) → tg ≡ request self sender from to
        → P (route env tg.kind self' r channel (b ∷ bs) tg)
    routed self' e tg h = rw (e, h) (rw ((str_eq_iff self self).1 refl) refl)
