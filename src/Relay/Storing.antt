-- ===== src/Relay/Storing.antt =====
-- A telegram for the relay itself is stored exactly when it is no duplicate.
use tox_relayer.Prelude.{
  ℕ, ◌≡◌, ◌≢◌, refl, sym, ◌∙◌, ◌⊎◌, inl, inr, true, none, some, List, [], ◌∷◌, ◌++◌, arith, if-elim,
  Option-elim, some_inj,
}
use mathlib.Core.List.{append_assoc, append-nil}
use tox_relayer.Prelude.Int.{ℤ, pos, leb_ℤ}
use tox_relayer.Telegram.Tracker.{Tracker, SnResult, in_order, gap, resync, tracker_accept}
use tox_relayer.Telegram.Encode.{encode_cmd}
use tox_relayer.Telegram.Decode.{Message}
use tox_relayer.Relay.{
  Relay, Env, Event, Outcome, gap_requested, store_called, remember_called, enqueue_called, log,
  set_tracker, send, store_if, sent_or, request_from, request_gap, conclude, deliver_as, deliver,
  max_gap, wire_max,
}

-- What may be called after a telegram was stored: nothing, or where telegrams are missing one call of
-- the queue for the same channel.
abbrev pub Follows : SnResult → ℤ → List Event → Type 0
Follows s channel extra =
    (extra ≡ [])
    ⊎ ((s ≡ gap)
        × ((payload : List ℕ) × (rc : ℤ) × (extra ≡ enqueue_called channel payload rc ∷ [])))

-- The events of `r'` are those of `r` and what may follow.
abbrev Extends : SnResult → ℤ → Relay → Relay → Type 0
Extends s channel r r' =
    (extra : List Event) × (r'.events ≡ r.events ++ extra) × Follows s channel extra

-- The telegram was stored and its serial remembered, in this order and before what may follow.
abbrev pub StoredOnce : SnResult → Relay → Relay → ℤ → Message → Type 0
StoredOnce s r r' channel tg =
    (extra : List Event) × (r'.events
      ≡ r.events
        ++ (store_called channel tg.sn tg.timestamp tg.sender tg.body
            ∷ remember_called channel tg.sn
            ∷ extra))
    × Follows s channel extra

module _ (env : Env) where
  request_gap-Extends :
      (r : Relay) (channel from to : ℤ)
      → Extends gap channel r (request_gap env r channel from to).0
  unfolding request_gap request_from sent_or send log
  request_gap-Extends r channel from to =
      Option-elim P env.enqueue (λ _. none_more)
        (λ f _.
          Option-elim P env.peer_key (λ _. none_more)
            (λ k _.
              Option-elim P (k channel) (λ _. none_more)
                (λ peer _.
                  if-elim P
                    (leb_ℤ (encode_cmd (some wire_max) (some peer) env.self_public_key from to).rc
                      (pos 0))
                    (λ _. none_more) (λ _. asked f peer))))
    where
      P : Relay × Outcome → Type 0
      P x = Extends gap channel r x.0

      none_more : Extends gap channel r r
      none_more = ([], sym (append-nil r.events), inl refl)

      asked :
          (f : List Event → ℤ → List ℕ → ℤ) (peer : List ℕ)
          → let wire = encode_cmd (some wire_max) (some peer) env.self_public_key from to in
            P (sent_or gap_requested (send f r channel wire.out))
      asked f peer =
          let wire = encode_cmd (some wire_max) (some peer) env.self_public_key from to in
          let rc = f r.events channel wire.out in
          (enqueue_called channel wire.out rc ∷ [], refl, inr (refl, (wire.out, rc, refl)))

  conclude-Extends :
      (s : SnResult) (r : Relay) (channel from to : ℤ)
      → Extends s channel r (conclude env s r channel from to).0
  unfolding conclude
  conclude-Extends gap r channel from to = request_gap-Extends r channel from to
  conclude-Extends SnResult.recovered r channel from to = ([], sym (append-nil r.events), inl refl)
  conclude-Extends resync r channel from to = ([], sym (append-nil r.events), inl refl)
  conclude-Extends in_order r channel from to = ([], sym (append-nil r.events), inl refl)
  conclude-Extends SnResult.duplicate r channel from to = ([], sym (append-nil r.events), inl refl)

  module _ (has_store : env.has_store ≡ true) (has_mirror : env.has_remember_serial ≡ true) where
    stored-StoredOnce :
        (s : SnResult) (r : Relay) (channel : ℤ) (tg : Message) (from to : ℤ)
        → StoredOnce s r
            (conclude env s
              (store_if env.has_remember_serial
                (store_if env.has_store r
                  (store_called channel tg.sn tg.timestamp tg.sender tg.body))
                (remember_called channel tg.sn))
              channel
              from
              to).0
            channel
            tg
    unfolding store_if log conclude request_gap request_from
    stored-StoredOnce s r channel tg from to =
        rw (has_store, has_mirror)
          (let (extra, e, follows) = conclude-Extends s both channel from to in
            (
              extra,
              e
                  ∙ append_assoc
                      (r.events ++ (store_called channel tg.sn tg.timestamp tg.sender tg.body ∷ []))
                      (remember_called channel tg.sn ∷ []) extra
                  ∙ append_assoc r.events
                      (store_called channel tg.sn tg.timestamp tg.sender tg.body ∷ [])
                      (remember_called channel tg.sn ∷ extra),
              follows,
            ))
      where
        both : Relay
        both =
            log (log r (store_called channel tg.sn tg.timestamp tg.sender tg.body))
              (remember_called channel tg.sn)

    abbrev Answered : SnResult → Relay → ℤ → Message → Relay × Outcome → Type 0
    Answered s r channel tg (r', outcome) =
        ((s ≡ SnResult.duplicate) × (outcome ≡ Outcome.duplicate) × (r'.events ≡ r.events))
        ⊎ ((s ≢ SnResult.duplicate) × StoredOnce s r r' channel tg)

    deliver_as-Answered :
        (s : SnResult) (r : Relay) (channel : ℤ) (tg : Message) (from to : ℤ)
        → Answered s r channel tg (deliver_as env s r channel tg from to)
    unfolding deliver_as
    deliver_as-Answered SnResult.duplicate r channel tg from to = inl (refl, refl, refl)
    deliver_as-Answered gap r channel tg from to =
        inr (λ e. absurd (ground (arith, e)), stored-StoredOnce gap r channel tg from to)
    deliver_as-Answered SnResult.recovered r channel tg from to =
        inr (
          λ e. absurd (ground (arith, e)),
          stored-StoredOnce SnResult.recovered r channel tg from to,
        )
    deliver_as-Answered resync r channel tg from to =
        inr (λ e. absurd (ground (arith, e)), stored-StoredOnce resync r channel tg from to)
    deliver_as-Answered in_order r channel tg from to =
        inr (λ e. absurd (ground (arith, e)), stored-StoredOnce in_order r channel tg from to)

    -- With a store and a serial mirror, a telegram for the relay on a channel that has a tracker is
    -- reported as a duplicate, and nothing is called, when the tracker says so; in every other case
    -- it is stored once and its serial remembered; what is called after these two is at most one record
    -- for the queue, on the same channel and only when the tracker has found a gap.
    pub deliver_lem :
        (r : Relay) (channel : ℤ) (tg : Message) (t : Tracker)
        → r.trackers channel ≡ some t
        → let s = (tracker_accept t tg.sn max_gap).result in
          let (r', outcome) = deliver env r channel tg in
          ((s ≡ SnResult.duplicate) × (outcome ≡ Outcome.duplicate) × (r'.events ≡ r.events))
          ⊎ ((s ≢ SnResult.duplicate) × StoredOnce s r r' channel tg)
    unfolding deliver set_tracker
    deliver_lem r channel tg t e =
        Option-elim P (r.trackers channel) (λ n. absurd (none_some (sym n ∙ e)))
          (λ t' e'. at t' (some_inj t' t (sym e' ∙ e)))
      where
        P : Relay × Outcome → Type 0
        P = Answered (tracker_accept t tg.sn max_gap).result r channel tg

        none_some : (none ≡ some t) → ⊥
        none_some n = ground (arith, n)

        at :
            (t' : Tracker)
            → t' ≡ t
            → let a = tracker_accept t' tg.sn max_gap in
              P (
                deliver_as env a.result
                  (set_tracker r channel a.tracker)
                  channel
                  tg
                  a.gap_from
                  a.gap_to)
        at t' same = rw same (
            let a = tracker_accept t tg.sn max_gap in
            deliver_as-Answered a.result (set_tracker r channel a.tracker) channel tg a.gap_from
              a.gap_to)
