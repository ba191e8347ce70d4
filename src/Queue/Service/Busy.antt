-- ===== src/Queue/Service/Busy.antt =====
-- A pass of `mq_service` acts when a message is stored and every message was left alone long enough.
use tox_relayer.Prelude.{
  get_or-le-total, total, ℕ, zero, suc, ◌≤◌, ◌<◌, ◌≡◌, refl, ap, ◌∙◌, inl, inr, true, false, not,
  ◌&&◌, ◌||◌, Option, none, some, List, arith, if-elim, leb, ◌==◌, length, Bool-cases,
}
use tox_relayer.Prelude.Int.{ℤ, pos, ltb_ℤ, eqb_ℤ, ◌-ℤ◌, ◌+ℤ◌, ◌≤ℤ◌, +ℤ_parts, -ℤ_parts}
use tox_relayer.Queue.{
  Config, SlotState, free, pending, awaiting_ack, Entry, Queue, Outcome, bump32, slot_at, as_one,
  next_index, advance_head, blank, is_free,
}
use tox_relayer.Queue.Bag.{bytes}
use tox_relayer.Queue.Rounds.{walk, walk-total}
use tox_relayer.Queue.Invariant.{
  IsConfig, IsQueue, stored, next_index-lt, advance_head-IsQueue, ring-advance_head,
}
use tox_relayer.Queue.Service.{
  send_fatal, drop_entry, accepted, refused, deliver, expire, visit_in, visit, scan, service,
}
use tox_relayer.Queue.Service.Effort.{acts, in_ring}
use tox_relayer.Queue.Service.Quiet.{fresh, IsQuiet}

module _ (c : Config) (ok_c : IsConfig c) (tx : ℤ → List ℕ → ℕ → ℤ) (now : ℤ) where
  -- What a visit answers: something was done.
  abbrev Busy : Option Outcome → Type 0
  Busy none = ⊥
  Busy (some o) = acts o ≡ 1

  deliver-Busy :
      (q : Queue) (i : ℕ) (e : Entry)
      → ltb_ℤ (now -ℤ e.last_attempt) (pos c.retry_backoff) ≡ false
      → Busy (deliver c tx now q i e).1
  unfolding deliver refused accepted drop_entry
  deliver-Busy q i e h =
      if-elim (λ (r : Queue × Option Outcome). Busy r.1)
        (e.attempted && ltb_ℤ (now -ℤ e.last_attempt) (pos c.retry_backoff))
        (λ g. absurd (ground (arith, h, g)))
        (λ _.
          if-elim (λ (r : Queue × Option Outcome). Busy r.1)
            (ltb_ℤ (tx e.friendnum (bytes e) e.len) (pos 0))
            (λ _.
              if-elim (λ (r : Queue × Option Outcome). Busy r.1)
                (eqb_ℤ (tx e.friendnum (bytes e) e.len) send_fatal
                  || leb c.max_attempts (bump32 e.attempts))
                (λ _. refl) (λ _. refl))
            (λ _. refl))

  visit_in-Busy :
      (st : SlotState) (q : Queue) (i : ℕ) (e : Entry)
      → not (is_free st) ≡ true
      → ltb_ℤ (now -ℤ e.last_attempt) (pos c.retry_backoff) ≡ false
      → ltb_ℤ (now -ℤ e.last_attempt) (pos c.ack_timeout) ≡ false
      → Busy (visit_in c tx now st q i e).1
  unfolding visit_in expire drop_entry
  visit_in-Busy free q i e s h g = absurd (ground (arith, s))
  visit_in-Busy pending q i e s h g = deliver-Busy q i e h
  visit_in-Busy awaiting_ack q i e s h g =
      if-elim (λ (r : Queue × Option Outcome). Busy r.1)
        (ltb_ℤ (now -ℤ e.last_attempt) (pos c.ack_timeout)) (λ w. absurd (ground (arith, g, w)))
        (λ _.
          if-elim (λ (r : Queue × Option Outcome). Busy r.1)
            (leb c.max_attempts (bump32 e.attempts)) (λ _. refl) (λ _. deliver-Busy _ i _ h))

  visit_in-free :
      (st : SlotState) (q : Queue) (i : ℕ) (e : Entry)
      → not (is_free st) ≡ false
      → visit_in c tx now st q i e ≡ (q, none)
  unfolding visit_in
  visit_in-free free q i e s = refl
  visit_in-free pending q i e s = absurd (ground (arith, s))
  visit_in-free awaiting_ack q i e s = absurd (ground (arith, s))

  -- Long enough after the last attempts.
  module _ (t : ℤ) (later : t +ℤ pos c.ack_timeout ≤ℤ now)
      (backoff : c.retry_backoff ≤ c.ack_timeout) where
    due :
        (e : Entry)
        → stored e ≡ true
        → as_one (fresh t e) ≡ 0
        → (n : ℕ) → n ≤ c.ack_timeout
        → ltb_ℤ (now -ℤ e.last_attempt) (pos n) ≡ false
    due e s k n g =
        ground (arith, s, k, g, later, -ℤ_parts now e.last_attempt, +ℤ_parts t (pos c.ack_timeout))

    visit-Busy :
        (q : Queue) (i : ℕ)
        → i < length q.ring
        → IsQuiet t q.ring
        → stored (slot_at q.ring i) ≡ true
        → Busy (visit c tx now q i).1
    unfolding visit
    visit-Busy q i h k s =
        let e = slot_at q.ring i in
        let old : as_one (fresh t e) ≡ 0 =
          omega (arith, k, get_or-le-total blank (λ e. as_one (fresh t e)) q.ring i h) in
        visit_in-Busy e.state q i e s (due e s old c.retry_backoff backoff)
          (due e s old c.ack_timeout (omega arith))

    scan-Busy :
        (n i : ℕ) (q : Queue)
        → IsQueue c q
        → i < c.capacity
        → IsQuiet t q.ring
        → 1 ≤ walk c (λ e. as_one (stored e)) q.ring n i
        → acts (scan c tx now n i q).1 ≡ 1
    unfolding scan walk visit
    scan-Busy zero i q v h k w = absurd (omega (arith, w))
    scan-Busy (suc n) i q v h k w = elim (Bool-cases (stored (slot_at q.ring i))) [
      | inl s ↦ go (visit c tx now q i) (visit-Busy q i (in_ring c ok_c q i v h) k s)
      | inr s ↦
          skip (visit c tx now q i)
            (visit_in-free (slot_at q.ring i).state q i (slot_at q.ring i) s)
            (scan-Busy n (next_index c i) q v (next_index-lt c ok_c i) k
              (omega (arith, w, ap as_one s)))
    ]
      where
        go :
            (r : Queue × Option Outcome)
            → Busy r.1
            → acts
                (elim r.1 as (λ _. Queue × Outcome) [
                  | none ↦ scan c tx now n (next_index c i) r.0
                  | some o ↦ (r.0, o)
                ]).1
              ≡ 1
        go (q', none) b = absurd b
        go (q', some o) b = b

        skip :
            (r : Queue × Option Outcome)
            → r ≡ (q, none)
            → acts (scan c tx now n (next_index c i) q).1 ≡ 1
            → acts
                (elim r.1 as (λ _. Queue × Outcome) [
                  | none ↦ scan c tx now n (next_index c i) r.0
                  | some o ↦ (r.0, o)
                ]).1
              ≡ 1
        skip (q', none) e p =
            let same : q' ≡ q = ap (λ (r : Queue × Option Outcome). r.0) e in rw same p
        skip (q', some o) e p = absurd (
            let no : some o ≡ none = ap (λ (r : Queue × Option Outcome). r.1) e in
            ground (arith, no))

    -- A pass over a queue that is not empty acts.
    pub service-Busy :
        (q : Queue) → IsQueue c q → IsQuiet t q.ring → 1 ≤ q.count → acts (service c tx now q).1 ≡ 1
    unfolding service
    service-Busy q v k n =
        let w = advance_head-IsQueue c ok_c q v in
        let a = advance_head c q in
        if-elim (λ (r : Queue × Outcome). acts r.1 ≡ 1) (q.count == 0)
          (λ z. absurd (ground (arith, z, n)))
          (λ _.
            scan-Busy c.capacity a.head a w w.head_in
              (ap (total (λ e. as_one (fresh t e))) (ring-advance_head c ok_c q) ∙ k)
              (omega (
                arith,
                walk-total c (λ e. as_one (stored e)) a.ring a.head w.is_ring.slots w.head_in,
                ap (total (λ e. as_one (stored e))) (ring-advance_head c ok_c q),
                v.is_ring.counted,
                n,
              )))
