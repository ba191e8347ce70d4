-- ===== src/Relay/Deliver.antt =====
-- The relay's trackers stay well formed, and a telegram is stored exactly when it is new.
use tox_relayer.Prelude.{
  ℕ, ◌+◌, ◌≡◌, refl, ap, sym, ◌∙◌, inl, inr, Bool, true, false, not, ◌||◌, Option, none, some, List,
  [], ◌∷◌, length, if◌then◌else◌, if-elim, Bool-cases, Option-elim, some_inj, ◌==◌,
}
use tox_relayer.Prelude.Int.{ℤ, pos, ltb_ℤ, leb_ℤ, eqb_ℤ}
use tox_relayer.Text.{str_eq}
use tox_relayer.Telegram.Tracker.{Tracker, SnResult, in_order, gap, resync, tracker_accept}
use tox_relayer.Telegram.Tracker.Accept.{IsTracker, tracker_accept-IsTracker}
use tox_relayer.Telegram.Encode.{Encoded, encode_text, encode_cmd}
use tox_relayer.Telegram.Decode.{Kind, text, cmd, Message, decode}
use tox_relayer.Relay.{
  Relay, Env, Event, Stored, Outcome, store_called, remember_called, enqueue_called, log,
  set_tracker, send, store_if, sent_or, is_zero, request_from, request_gap, conclude, deliver_as,
  deliver, forward_to, forward, replay_loop, serve_from, serve_replay, route, receive, max_gap,
  wire_max, max_replay,
}

-- Every tracker that a channel has is well formed.
abbrev pub AllTrackers : Relay → Type 0
AllTrackers r = (channel : ℤ) (t : Tracker) → r.trackers channel ≡ some t → IsTracker t

-- The part of the state that only an accepted telegram changes.
abbrev pub Same : Relay → Relay → Type 0
Same r r' = r'.trackers ≡ r.trackers

store_if-Same : (b : Bool) (r : Relay) (e : Event) → Same r (store_if b r e)
unfolding store_if log
store_if-Same b r e = if-elim (Same r) b (λ _. refl) (λ _. refl)

sent-Same :
    (good : Outcome) (enqueue : List Event → ℤ → List ℕ → ℤ) (r : Relay) (channel : ℤ)
    (payload : List ℕ)
    → Same r (sent_or good (send enqueue r channel payload)).0
unfolding sent_or send log
sent-Same good enqueue r channel payload = refl

module _ (env : Env) where
  request_gap-Same :
      (r : Relay) (channel from to : ℤ) → Same r (request_gap env r channel from to).0
  unfolding request_gap request_from
  request_gap-Same r channel from to =
      Option-elim P env.enqueue (λ _. refl)
        (λ f _.
          Option-elim P env.peer_key (λ _. refl)
            (λ k _.
              Option-elim P (k channel) (λ _. refl)
                (λ peer _.
                  if-elim P
                    (leb_ℤ (encode_cmd (some wire_max) (some peer) env.self_public_key from to).rc
                      (pos 0))
                    (λ _. refl)
                    (λ _.
                      sent-Same Outcome.gap_requested f r channel
                        (encode_cmd (some wire_max) (some peer) env.self_public_key from to).out))))
    where
      P : Relay × Outcome → Type 0
      P x = Same r x.0

  conclude-Same :
      (s : SnResult) (r : Relay) (channel from to : ℤ) → Same r (conclude env s r channel from to).0
  unfolding conclude
  conclude-Same gap r channel from to = request_gap-Same r channel from to
  conclude-Same SnResult.recovered r channel from to = refl
  conclude-Same resync r channel from to = refl
  conclude-Same in_order r channel from to = refl
  conclude-Same SnResult.duplicate r channel from to = refl

  stored-Same :
      (s : SnResult) (r : Relay) (channel : ℤ) (tg : Message) (from to : ℤ)
      → Same r
          (conclude env s
            (store_if env.has_remember_serial
              (store_if env.has_store r (store_called channel tg.sn tg.timestamp tg.sender tg.body))
              (remember_called channel tg.sn))
            channel
            from
            to).0
  stored-Same s r channel tg from to =
      conclude-Same s _ channel from to
      ∙ store_if-Same env.has_remember_serial _ _
      ∙ store_if-Same env.has_store r _

  pub deliver_as-Same :
      (s : SnResult) (r : Relay) (channel : ℤ) (tg : Message) (from to : ℤ)
      → Same r (deliver_as env s r channel tg from to).0
  unfolding deliver_as
  deliver_as-Same SnResult.duplicate r channel tg from to = refl
  deliver_as-Same gap r channel tg from to = stored-Same gap r channel tg from to
  deliver_as-Same SnResult.recovered r channel tg from to =
      stored-Same SnResult.recovered r channel tg from to
  deliver_as-Same resync r channel tg from to = stored-Same resync r channel tg from to
  deliver_as-Same in_order r channel tg from to = stored-Same in_order r channel tg from to

  pub forward-Same :
      (r : Relay) (channel : ℤ) (raw : List ℕ) (tg : Message)
      → Same r (forward env r channel raw tg).0
  unfolding forward forward_to
  forward-Same r channel raw tg =
      Option-elim P env.resolve_peer (λ _. refl)
        (λ resolve _.
          Option-elim P env.enqueue (λ _. refl)
            (λ f _.
              if-elim P (ltb_ℤ (resolve tg.receiver) (pos 0)) (λ _. refl)
                (λ _. sent-Same Outcome.relayed f r (resolve tg.receiver) _)))
    where
      P : Relay × Outcome → Type 0
      P x = Same r x.0

  replay_loop-Same :
      (f : List Event → ℤ → List ℕ → ℤ) (channel : ℤ) (peer : List ℕ) (ss : List Stored) (r : Relay)
      (queued : ℕ)
      → Same r (replay_loop env f r channel peer ss queued).0
  unfolding replay_loop send log
  replay_loop-Same f channel peer [] r queued = refl
  replay_loop-Same f channel peer (s ∷ ss) r queued =
      if-elim P (leb_ℤ (wire s).rc (pos 0)) (λ _. replay_loop-Same f channel peer ss r queued)
        (λ _.
          replay_loop-Same f channel peer ss (log r (called s))
            (if is_zero (f r.events channel (wire s).out) then queued + 1 else queued))
    where
      P : Relay × ℕ → Type 0
      P x = Same r x.0

      wire : Stored → Encoded
      wire s =
          encode_text (some wire_max) (some peer) env.self_public_key s.sn s.timestamp (some s.body)

      called : Stored → Event
      called s = enqueue_called channel (wire s).out (f r.events channel (wire s).out)

  pub serve_replay-Same :
      (r : Relay) (channel : ℤ) (tg : Message) → Same r (serve_replay env r channel tg).0
  unfolding serve_replay serve_from
  serve_replay-Same r channel tg =
      Option-elim P env.fetch_range (λ _. refl)
        (λ fetch _.
          Option-elim P env.enqueue (λ _. refl)
            (λ f _.
              Option-elim P env.peer_key (λ _. refl)
                (λ k _.
                  Option-elim P (k channel) (λ _. refl)
                    (λ peer _. served f peer (fetch channel tg.sn tg.sn_to max_replay)))))
    where
      P : Relay × Outcome → Type 0
      P x = Same r x.0

      served :
          (f : List Event → ℤ → List ℕ → ℤ) (peer : List ℕ) (ss : List Stored)
          → P (serve_from env f r channel peer ss)
      served f peer [] = refl
      served f peer (s ∷ ss) = replay_loop-Same f channel peer (s ∷ ss) r 0

  moved-AllTrackers :
      (r : Relay) (channel : ℤ) (t : Tracker)
      → AllTrackers r
      → IsTracker t
      → AllTrackers (set_tracker r channel t)
  unfolding set_tracker
  moved-AllTrackers r channel t v w other t' e = elim (Bool-cases (eqb_ℤ other channel)) [
    | inl y ↦ rw (sym (some_inj t t' (hit y ∙ e))) w
    | inr n ↦ v other t' (miss n ∙ e)
  ]
    where
      hit : eqb_ℤ other channel ≡ true → some t ≡ (set_tracker r channel t).trackers other
      hit y = rw y refl

      miss :
          eqb_ℤ other channel ≡ false → r.trackers other ≡ (set_tracker r channel t).trackers other
      miss n = rw n refl

  Same-AllTrackers : (r r' : Relay) → Same r r' → AllTrackers r → AllTrackers r'
  Same-AllTrackers r r' e v channel t h = v channel t (ap (λ f. f channel) (sym e) ∙ h)

  deliver-AllTrackers :
      (r : Relay) (channel : ℤ) (tg : Message)
      → AllTrackers r
      → AllTrackers (deliver env r channel tg).0
  unfolding deliver
  deliver-AllTrackers r channel tg v =
      Option-elim P (r.trackers channel)
        (λ _.
          Same-AllTrackers r (deliver_as env in_order r channel tg (pos 0) (pos 0)).0
            (deliver_as-Same in_order r channel tg (pos 0) (pos 0)) v)
        (λ t e.
          let a = tracker_accept t tg.sn max_gap in
          let moved = set_tracker r channel a.tracker in
          Same-AllTrackers moved (deliver_as env a.result moved channel tg a.gap_from a.gap_to).0
            (deliver_as-Same a.result moved channel tg a.gap_from a.gap_to)
            (moved-AllTrackers r channel a.tracker v
              (tracker_accept-IsTracker t tg.sn max_gap (v channel t e))))
    where
      P : Relay × Outcome → Type 0
      P x = AllTrackers x.0

  route-AllTrackers :
      (k : Kind) (self : List ℕ) (r : Relay) (channel : ℤ) (raw : List ℕ) (tg : Message)
      → AllTrackers r
      → AllTrackers (route env k self r channel raw tg).0
  unfolding route
  route-AllTrackers text self r channel raw tg v =
      if-elim (λ (x : Relay × Outcome). AllTrackers x.0) (str_eq tg.receiver self)
        (λ _. deliver-AllTrackers r channel tg v)
        (λ _. Same-AllTrackers r (forward env r channel raw tg).0 (forward-Same r channel raw tg) v)
  route-AllTrackers cmd self r channel raw tg v =
      if-elim (λ (x : Relay × Outcome). AllTrackers x.0) (not (str_eq tg.receiver self)) (λ _. v)
        (λ _.
          Same-AllTrackers r (serve_replay env r channel tg).0 (serve_replay-Same r channel tg) v)

  -- Whatever bytes arrive from whatever channel, and whatever the environment answers, every
  -- tracker stays well formed.
  pub receive-AllTrackers :
      (r : Relay) (channel : ℤ) (raw : Option (List ℕ))
      → AllTrackers r
      → AllTrackers (receive env r channel raw).0
  unfolding receive
  receive-AllTrackers r channel none v = v
  receive-AllTrackers r channel (some raw) v =
      Option-elim P env.self_public_key (λ _. v)
        (λ self _.
          if-elim P (length raw == 0 || ltb_ℤ channel (pos 0)) (λ _. v)
            (λ _. Option-elim P (decode (some raw)) (λ _. v) (λ tg _. routed tg.kind self tg)))
    where
      P : Relay × Outcome → Type 0
      P x = AllTrackers x.0

      routed : (k : Kind) (self : List ℕ) (tg : Message) → P (route env k self r channel raw tg)
      routed k self tg = route-AllTrackers k self r channel raw tg v
