-- ===== src/Relay/Others.antt =====
-- What a record does to the trackers of other channels: nothing.
use tox_relayer.Prelude.{
  ℕ, ◌≡◌, refl, ap, ◌∙◌, false, not, ◌||◌, Option, none, some, List, length, ◌==◌, if-elim,
  Option-elim,
}
use tox_relayer.Prelude.Int.{ℤ, pos, ltb_ℤ, eqb_ℤ}
use tox_relayer.Text.{str_eq}
use tox_relayer.Telegram.Tracker.{Tracker, in_order, tracker_accept}
use tox_relayer.Telegram.Decode.{Kind, text, cmd, Message, decode}
use tox_relayer.Relay.{
  Relay, Env, Outcome, set_tracker, deliver_as, deliver, forward, serve_replay, route, receive,
  max_gap,
}
use tox_relayer.Relay.Deliver.{Same, deliver_as-Same, forward-Same, serve_replay-Same}

module _ (env : Env) (channel other : ℤ) (ne : eqb_ℤ other channel ≡ false) where
  abbrev Kept : Relay → Relay × Outcome → Type 0
  Kept r x = x.0.trackers other ≡ r.trackers other

  Same-Kept : (r r' : Relay) → Same r r' → r'.trackers other ≡ r.trackers other
  Same-Kept r r' e = ap (λ f. f other) e

  deliver-Kept : (r : Relay) (tg : Message) → Kept r (deliver env r channel tg)
  unfolding deliver set_tracker
  deliver-Kept r tg =
      Option-elim (Kept r) (r.trackers channel)
        (λ _.
          Same-Kept r (deliver_as env in_order r channel tg (pos 0) (pos 0)).0
            (deliver_as-Same env in_order r channel tg (pos 0) (pos 0)))
        (λ t _.
          let a = tracker_accept t tg.sn max_gap in
          let moved = set_tracker r channel a.tracker in
          Same-Kept moved (deliver_as env a.result moved channel tg a.gap_from a.gap_to).0
            (deliver_as-Same env a.result moved channel tg a.gap_from a.gap_to)
          ∙ aside r a.tracker)
    where
      aside :
          (r : Relay) (t : Tracker) → (set_tracker r channel t).trackers other ≡ r.trackers other
      aside r t = rw ne refl

  route-Kept :
      (k : Kind) (self : List ℕ) (r : Relay) (raw : List ℕ) (tg : Message)
      → Kept r (route env k self r channel raw tg)
  unfolding route
  route-Kept text self r raw tg =
      if-elim (Kept r) (str_eq tg.receiver self) (λ _. deliver-Kept r tg)
        (λ _. Same-Kept r (forward env r channel raw tg).0 (forward-Same env r channel raw tg))
  route-Kept cmd self r raw tg =
      if-elim (Kept r) (not (str_eq tg.receiver self)) (λ _. refl)
        (λ _. Same-Kept r (serve_replay env r channel tg).0 (serve_replay-Same env r channel tg))

  pub receive-Kept :
      (r : Relay) (raw : Option (List ℕ))
      → (receive env r channel raw).0.trackers other ≡ r.trackers other
  unfolding receive
  receive-Kept r none = refl
  receive-Kept r (some raw) =
      Option-elim (Kept r) env.self_public_key (λ _. refl)
        (λ self _.
          if-elim (Kept r) (length raw == 0 || ltb_ℤ channel (pos 0)) (λ _. refl)
            (λ _.
              Option-elim (Kept r) (decode (some raw)) (λ _. refl)
                (λ tg _. route-Kept tg.kind self r raw tg)))
