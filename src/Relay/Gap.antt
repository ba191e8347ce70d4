-- ===== src/Relay/Gap.antt =====
-- What the relay asks of a peer when telegrams are missing, and what it stores.
use tox_relayer.Prelude.{
  ℕ, ◌≡◌, refl, ap, sym, ◌∙◌, false, Option, some, List, [], ◌∷◌, ◌++◌, arith, if-elim, Option-elim,
  some_inj,
}
use tox_relayer.Prelude.Int.{ℤ, pos, negsuc, leb_ℤ, eqb_ℤ_iff}
use tox_relayer.Text.{has_byte}
use tox_relayer.Telegram.Encode.{Encoded, encode_cmd}
use tox_relayer.Telegram.Decode.{cmd, decode}
use tox_relayer.Telegram.Codec.Contract.{encode_cmd-decode}
use tox_relayer.Relay.{
  Relay, Env, Event, Outcome, enqueue_called, log, send, sent_or, is_zero, request_from,
  request_gap, wire_max,
}

-- What stands in the queue's log after a request for the serials `from` to `to`.
abbrev pub Asked : Relay → Relay → ℤ → List ℕ → List ℕ → ℤ → ℤ → Type 0
Asked r r' channel peer self from to =
    (payload : List ℕ) × (r'.events ≡ r.events ++ (enqueue_called channel payload (pos 0) ∷ []))
    × (decode (some payload)
        ≡ some (record {
          kind = cmd;
          receiver = peer;
          sender = self;
          sn = from;
          sn_to = to;
          timestamp = pos 0;
          body = [];
        }))

pos_of : (v : ℤ) → leb_ℤ v (pos 0) ≡ false → (n : ℕ) × (v ≡ pos n)
pos_of (pos n) h = (n, refl)
pos_of (negsuc n) h = absurd (ground (arith, h))

request_from-Asked :
    (env : Env) (f : List Event → ℤ → List ℕ → ℤ) (r : Relay) (channel : ℤ) (self peer : List ℕ)
    (from to : ℤ)
    → env.self_public_key ≡ some self
    → has_byte 0 self ≡ false
    → has_byte 0 peer ≡ false
    → (request_from env f r channel peer from to).1 ≡ Outcome.gap_requested
    → Asked r (request_from env f r channel peer from to).0 channel peer self from to
unfolding request_from sent_or send log
request_from-Asked env f r channel self peer from to es zs zp =
    if-elim P (leb_ℤ wire.rc (pos 0)) (λ _ h. absurd (ground (arith, h)))
      (λ g.
        if-elim Q (is_zero answer)
          (λ z _. (
            wire.out,
            ap (λ rc. r.events ++ (enqueue_called channel wire.out rc ∷ []))
                ((eqb_ℤ_iff answer (pos 0)).0 z),
            decoded g,
          ))
          (λ _ h. absurd (ground (arith, h))))
  where
    wire : Encoded
    wire = encode_cmd (some wire_max) (some peer) env.self_public_key from to

    answer : ℤ
    answer = f r.events channel wire.out

    P : Relay × Outcome → Type 0
    P x = x.1 ≡ Outcome.gap_requested → Asked r x.0 channel peer self from to

    Q : Outcome → Type 0
    Q o = P (log r (enqueue_called channel wire.out answer), o)

    decoded :
        leb_ℤ wire.rc (pos 0) ≡ false
        → decode (some wire.out)
          ≡ some (record {
            kind = cmd;
            receiver = peer;
            sender = self;
            sn = from;
            sn_to = to;
            timestamp = pos 0;
            body = [];
          })
    decoded g =
        let (k, e) = pos_of wire.rc g in
        rw es (encode_cmd-decode wire_max k peer self from to (rw (sym es) e) zp zs)

-- When the relay reports that it asked for a gap, exactly one record went to the queue, for the
-- channel of the peer; and it decodes to a control telegram from the relay to that peer that asks
-- for exactly the range of the gap. The keys are C strings.
pub request_gap-Asked :
    (env : Env) (r : Relay) (channel : ℤ) (self peer : List ℕ) (peer_key : ℤ → Option (List ℕ))
    (from to : ℤ)
    → env.self_public_key ≡ some self
    → env.peer_key ≡ some peer_key
    → peer_key channel ≡ some peer
    → has_byte 0 self ≡ false
    → has_byte 0 peer ≡ false
    → (request_gap env r channel from to).1 ≡ Outcome.gap_requested
    → Asked r (request_gap env r channel from to).0 channel peer self from to
unfolding request_gap request_from sent_or send log
request_gap-Asked env r channel self peer peer_key from to es ek ep zs zp =
    Option-elim P env.enqueue (λ _ h. absurd (ground (arith, h)))
      (λ f _.
        Option-elim P env.peer_key (λ _ h. absurd (ground (arith, h)))
          (λ k e.
            Option-elim P (k channel) (λ _ h. absurd (ground (arith, h)))
              (λ p g.
                rw
                  (sym (
                    some_inj peer p
                      (sym ep ∙ ap (λ k. k channel) (some_inj peer_key k (sym ek ∙ e)) ∙ g)))
                  (asked f))))
  where
    P : Relay × Outcome → Type 0
    P x = x.1 ≡ Outcome.gap_requested → Asked r x.0 channel peer self from to

    asked : (f : List Event → ℤ → List ℕ → ℤ) → P (request_from env f r channel peer from to)
    asked f = request_from-Asked env f r channel self peer from to es zs zp
