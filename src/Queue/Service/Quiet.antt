-- ===== src/Queue/Service/Quiet.antt =====
-- Passes of `mq_service` note the time of the last attempt: no stored message was tried later.
use tox_relayer.Prelude.{
  get_or-le-total, set-set, total, total-set, ℕ, zero, suc, ◌-◌, ◌<◌, ◌≡◌, refl, ap, sym, ◌∙◌, true,
  not, Bool, ◌&&◌, ◌||◌, Option, none, some, List, [], ◌∷◌, arith, if-elim, leb, ◌==◌, length, set,
  length-set,
}
use tox_relayer.Prelude.Int.{ℤ, pos, negsuc, ltb_ℤ, eqb_ℤ, ◌-ℤ◌, ◌≤ℤ◌}
use tox_relayer.Queue.{
  Config, SlotState, free, pending, awaiting_ack, Entry, Queue, Outcome, bump32, slot_at, as_one,
  next_index, advance_head, released, blank, is_free,
}
use tox_relayer.Queue.Bag.{bytes}
use tox_relayer.Queue.Invariant.{
  IsConfig, IsQueue, stored, next_index-lt, advance_head-IsQueue, ring-advance_head,
}
use tox_relayer.Queue.Service.{
  send_fatal, drop_entry, accepted, refused, deliver, expire, visit_in, visit, scan, service,
}
use tox_relayer.Queue.Service.Laws.{visit-Passed}
use tox_relayer.Queue.Service.Effort.{ring-drop_entry, in_ring}

-- A stored message that was tried after `t`.
abbrev pub fresh : ℤ → Entry → Bool
fresh t e = stored e && ltb_ℤ t e.last_attempt

-- No stored message was tried after `t`.
abbrev pub IsQuiet : ℤ → List Entry → Type 0
IsQuiet t ring = total (λ e. as_one (fresh t e)) ring ≡ 0

pub IsQuiet-mono : (t t' : ℤ) (ring : List Entry) → t ≤ℤ t' → IsQuiet t ring → IsQuiet t' ring
unfolding total
IsQuiet-mono t t' [] h k = refl
IsQuiet-mono t t' (e ∷ es) h k =
    let rest = IsQuiet-mono t t' es h (omega (arith, k)) in
    let this : as_one (fresh t e) ≡ 0 = omega (arith, k) in omega (arith, rest, older e this)
  where
    older : (e : Entry) → as_one (fresh t e) ≡ 0 → as_one (fresh t' e) ≡ 0
    older e this = ground (arith, this, h)

module _ (c : Config) (ok_c : IsConfig c) (tx : ℤ → List ℕ → ℕ → ℤ) (now : ℤ) where
  module _ (q : Queue) (i : ℕ) (h : i < length q.ring) (k : IsQuiet now q.ring) where
    write-IsQuiet : (e' : Entry) → as_one (fresh now e') ≡ 0 → IsQuiet now (set q.ring i e')
    write-IsQuiet e' z =
        omega (arith, total-set blank (λ e. as_one (fresh now e)) q.ring i e' h, k, z)

    -- Dropping what stands in the slot.
    drop-IsQuiet :
        (e' : Entry) (q' : Queue)
        → q'.ring ≡ set q.ring i e'
        → IsQuiet now (drop_entry c q' i e').0.ring
    unfolding released
    drop-IsQuiet e' q' r =
        ap (total (λ e. as_one (fresh now e))) (
          ring-drop_entry c ok_c q' i e'
          ∙ ap (λ ring. set ring i (released e')) r
          ∙ set-set q.ring i e' (released e'))
        ∙ write-IsQuiet (released e') refl

    deliver-IsQuiet : (e : Entry) → IsQuiet now (deliver c tx now q i e).0.ring
    unfolding deliver refused accepted
    deliver-IsQuiet e =
        let tried = record e { last_attempt = now; attempted = true } in
        let again = record tried { attempts = bump32 e.attempts } in
        if-elim (λ (r : Queue × Option Outcome). IsQuiet now r.0.ring)
          (e.attempted && ltb_ℤ (now -ℤ e.last_attempt) (pos c.retry_backoff)) (λ _. k)
          (λ _.
            if-elim (λ (r : Queue × Option Outcome). IsQuiet now r.0.ring)
              (ltb_ℤ (tx e.friendnum (bytes e) e.len) (pos 0))
              (λ _.
                if-elim (λ (r : Queue × Option Outcome). IsQuiet now r.0.ring)
                  (eqb_ℤ (tx e.friendnum (bytes e) e.len) send_fatal
                    || leb c.max_attempts (bump32 e.attempts))
                  (λ _. drop-IsQuiet again (record q { ring = set q.ring i again }) refl)
                  (λ _. write-IsQuiet again (ground arith)))
              (λ _.
                write-IsQuiet
                  (record tried { receipt = tx e.friendnum (bytes e) e.len; state = awaiting_ack })
                  (ground arith)))

  expire-IsQuiet :
      (q : Queue) (i : ℕ) (e : Entry)
      → i < length q.ring
      → slot_at q.ring i ≡ e
      → e.state ≡ awaiting_ack
      → IsQuiet now q.ring
      → IsQuiet now (expire c tx now q i e).0.ring
  unfolding expire
  expire-IsQuiet q i e h at s k =
      let late = record e { receipt = negsuc 0; state = pending; attempts = bump32 e.attempts } in
      let again = record q { in_flight = q.in_flight - 1; ring = set q.ring i late } in
      if-elim (λ (r : Queue × Option Outcome). IsQuiet now r.0.ring)
        (leb c.max_attempts (bump32 e.attempts)) (λ _. drop-IsQuiet q i h k late again refl)
        (λ _.
          deliver-IsQuiet again i (omega (arith, h, length-set q.ring i late))
            (write-IsQuiet q i h k late (tried_before ∙ refl)) late)
    where
      tried_before : as_one (ltb_ℤ now e.last_attempt) ≡ 0
      tried_before =
          ap (λ st. as_one (not (is_free st) && ltb_ℤ now e.last_attempt)) (sym s)
          ∙ omega (
            arith,
            k,
            get_or-le-total blank (λ e. as_one (fresh now e)) q.ring i h,
            ap (λ x. as_one (fresh now x)) at,
          )

  visit_in-IsQuiet :
      (st : SlotState) (q : Queue) (i : ℕ) (e : Entry)
      → i < length q.ring
      → slot_at q.ring i ≡ e
      → e.state ≡ st
      → IsQuiet now q.ring
      → IsQuiet now (visit_in c tx now st q i e).0.ring
  unfolding visit_in
  visit_in-IsQuiet free q i e h at s k = k
  visit_in-IsQuiet pending q i e h at s k = deliver-IsQuiet q i h k e
  visit_in-IsQuiet awaiting_ack q i e h at s k =
      if-elim (λ (r : Queue × Option Outcome). IsQuiet now r.0.ring)
        (ltb_ℤ (now -ℤ e.last_attempt) (pos c.ack_timeout)) (λ _. k)
        (λ _. expire-IsQuiet q i e h at s k)

  scan-IsQuiet :
      (n i : ℕ) (q : Queue)
      → IsQueue c q
      → i < c.capacity
      → IsQuiet now q.ring
      → IsQuiet now (scan c tx now n i q).0.ring
  unfolding scan visit
  scan-IsQuiet zero i q v h k = k
  scan-IsQuiet (suc n) i q v h k =
      go (visit c tx now q i) (visit-Passed c ok_c tx now q i v h).valid
        (visit_in-IsQuiet (slot_at q.ring i).state q i (slot_at q.ring i) (in_ring c ok_c q i v h)
          refl refl k)
        (λ q' v'. scan-IsQuiet n (next_index c i) q' v' (next_index-lt c ok_c i))
    where
      go :
          (r : Queue × Option Outcome)
          → IsQueue c r.0
          → IsQuiet now r.0.ring
          → ((q' : Queue)
              → IsQueue c q'
              → IsQuiet now q'.ring
              → IsQuiet now (scan c tx now n (next_index c i) q').0.ring)
          → IsQuiet now
              (elim r.1 as (λ _. Queue × Outcome) [
                | none ↦ scan c tx now n (next_index c i) r.0
                | some o ↦ (r.0, o)
              ]).0.ring
      go (q', none) w p rest = rest q' w p
      go (q', some o) w p rest = p

  pub service-IsQuiet :
      (q : Queue) → IsQueue c q → IsQuiet now q.ring → IsQuiet now (service c tx now q).0.ring
  unfolding service
  service-IsQuiet q v k =
      if-elim (λ (r : Queue × Outcome). IsQuiet now r.0.ring) (q.count == 0) (λ _. k)
        (λ _.
          let w = advance_head-IsQueue c ok_c q v in
          scan-IsQuiet c.capacity (advance_head c q).head (advance_head c q) w w.head_in
            (ap (total (λ e. as_one (fresh now e))) (ring-advance_head c ok_c q) ∙ k))
