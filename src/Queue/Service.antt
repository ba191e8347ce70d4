-- ===== src/Queue/Service.antt =====
-- `mq_service` of src/msg_queue.c: one pass over the ring that acts on one message at most.
pub mod Laws
pub mod Effort
pub mod Quiet
pub mod Busy
pub mod Drain
use tox_relayer.Prelude.{
  ℕ, zero, suc, ◌+◌, ◌-◌, Bool, true, ◌&&◌, ◌||◌, Option, none, some, List, if◌then◌else◌, leb,
  ◌==◌, take, set,
}
use tox_relayer.Prelude.Int.{ℤ, pos, negsuc, ltb_ℤ, eqb_ℤ, ◌-ℤ◌}
use tox_relayer.Queue.{
  Config, SlotState, free, pending, awaiting_ack, Entry, Queue, Outcome, idle, sent, deferred,
  dropped, bump, bump32, slot_at, next_index, advance_head, retire,
}

-- MQ_SEND_FATAL; MQ_SEND_RETRYABLE is any other negative code.
abbrev pub send_fatal : ℤ
send_fatal = negsuc 0

module _ (c : Config) where
  -- A message that exhausted its budget, or that can never be delivered.
  unfoldable pub drop_entry : Queue → ℕ → Entry → Queue × Option Outcome
  drop_entry q i e = (advance_head c (retire q i e), some dropped)

  unfoldable pub accepted : Queue → ℕ → Entry → ℤ → Queue × Option Outcome
  accepted q i e rc = (
    record q {
      ring = set q.ring i (record e { receipt = rc; state = awaiting_ack });
      in_flight = q.in_flight + 1;
      totals = record (q.totals) { sent = bump q.totals.sent };
    },
    some sent,
  )

  unfoldable pub refused : Queue → ℕ → Entry → ℤ → Queue × Option Outcome
  refused q i e rc =
      let e' = record e { attempts = bump32 e.attempts } in
      let q' = record q { ring = set q.ring i e' } in
      if eqb_ℤ rc send_fatal || leb c.max_attempts e'.attempts
      then drop_entry q' i e'
      else (q', some deferred)

-- One call of `mq_service` with a transport that answers `tx friendnum payload len`.
module _ (c : Config) (tx : ℤ → List ℕ → ℕ → ℤ) (now : ℤ) where
  -- The pending entry `e` at `i`: `none` where the loop goes on.
  unfoldable pub deliver : Queue → ℕ → Entry → Queue × Option Outcome
  deliver q i e =
      if e.attempted && ltb_ℤ (now -ℤ e.last_attempt) (pos c.retry_backoff)
      then (q, none)
      else let rc = tx e.friendnum (take e.len e.payload) e.len in
        let e' = record e { last_attempt = now; attempted = true } in
        if ltb_ℤ rc (pos 0) then refused c q i e' rc else accepted c q i e' rc

  -- An entry whose acknowledgement did not come in time.
  unfoldable pub expire : Queue → ℕ → Entry → Queue × Option Outcome
  expire q i e =
      let e' = record e { receipt = negsuc 0; state = pending; attempts = bump32 e.attempts } in
      let q' = record q { in_flight = q.in_flight - 1; ring = set q.ring i e' } in
      if leb c.max_attempts e'.attempts then drop_entry c q' i e' else deliver q' i e'

  unfoldable pub visit_in : SlotState → Queue → ℕ → Entry → Queue × Option Outcome
  visit_in free q i e = (q, none)
  visit_in pending q i e = deliver q i e
  visit_in awaiting_ack q i e =
      if ltb_ℤ (now -ℤ e.last_attempt) (pos c.ack_timeout) then (q, none) else expire q i e

  -- One round of the loop of `mq_service`.
  unfoldable pub visit : Queue → ℕ → Queue × Option Outcome
  visit q i = let e = slot_at q.ring i in visit_in e.state q i e

  unfoldable pub scan : ℕ → ℕ → Queue → Queue × Outcome
  scan zero i q = (q, idle)
  scan (suc n) i q =
      let (q', out) = visit q i in
      let rest = scan n (next_index c i) q' in elim out [ none ↦ rest | some o ↦ (q', o) ]

  unfoldable pub service : Queue → Queue × Outcome
  service q =
      if q.count == 0 then (q, idle) else let q' = advance_head c q in scan c.capacity q'.head q'
