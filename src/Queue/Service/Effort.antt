-- ===== src/Queue/Service/Effort.antt =====
-- How many passes of `mq_service` can act on the messages that are stored: each pass that acts uses up
-- an attempt of a message, sends it, or drops it.
use tox_relayer.Prelude.{
  get_or-le-total, get_or-set_self, set-set, total, total-set, ℕ, zero, suc, ◌+◌, ◌-◌, ◌*◌, ◌≤◌,
  ◌<◌, ◌≡◌, refl, ap, ◌∙◌, true, not, ◌&&◌, ◌||◌, Option, none, some, List, [], ◌∷◌, arith, if-elim,
  leb, ◌==◌, length, set, length-set,
}
use tox_relayer.Prelude.Int.{ℤ, pos, negsuc, ltb_ℤ, eqb_ℤ, ◌-ℤ◌}
use tox_relayer.Queue.{
  Config, SlotState, free, pending, awaiting_ack, Entry, Queue, Outcome, idle, sent, deferred,
  dropped, bump32, slot_at, as_one, next_index, advance_head, released, release_slot, retire, blank,
  is_free,
}
use tox_relayer.Queue.Bag.{bytes}
use tox_relayer.Queue.Invariant.{
  IsConfig, IsQueue, stored, breaks, next_index-lt, advance_head-IsQueue, ring-notify_change,
  ring-advance_head, ring-call_drop,
}
use tox_relayer.Queue.Service.{
  send_fatal, drop_entry, accepted, refused, deliver, expire, visit_in, visit, scan, service,
}
use tox_relayer.Queue.Service.Laws.{visit-Passed, service_lem}

-- What is left to be done with a message: two steps for each attempt it has, and one if it waits.
abbrev pub effort_in : Config → SlotState → ℕ → ℕ
effort_in c free attempts = 0
effort_in c pending attempts = 2 * (c.max_attempts - attempts) + 1
effort_in c awaiting_ack attempts = 2 * (c.max_attempts - attempts)

abbrev pub effort : Config → Entry → ℕ
effort c e = effort_in c e.state e.attempts

abbrev pub effort_left : Config → Queue → ℕ
effort_left c q = total (effort c) q.ring

-- A pass that acts uses up effort; `none` is a pass that goes on.
abbrev Spent : Config → ℕ → Queue × Option Outcome → Type 0
Spent c n (q, none) = effort_left c q ≤ n
Spent c n (q, some idle) = effort_left c q ≤ n
Spent c n (q, some sent) = effort_left c q < n
Spent c n (q, some deferred) = effort_left c q < n
Spent c n (q, some dropped) = effort_left c q < n

-- The state and outcome of a whole pass.
abbrev pub halted : Queue × Outcome → Queue × Option Outcome
halted r = (r.0, some r.1)

Spent-le : (c : Config) (n m : ℕ) (r : Queue × Option Outcome) → Spent c n r → n ≤ m → Spent c m r
Spent-le c n m (q, none) h g = omega (arith, h, g)
Spent-le c n m (q, some idle) h g = omega (arith, h, g)
Spent-le c n m (q, some sent) h g = omega (arith, h, g)
Spent-le c n m (q, some deferred) h g = omega (arith, h, g)
Spent-le c n m (q, some dropped) h g = omega (arith, h, g)

module _ (c : Config) (ok_c : IsConfig c) where
  pub ring-drop_entry :
      (q : Queue) (i : ℕ) (e : Entry) → (drop_entry c q i e).0.ring ≡ set q.ring i (released e)
  unfolding drop_entry retire release_slot
  ring-drop_entry q i e =
      ring-advance_head c ok_c _
      ∙ ring-notify_change c ok_c _
      ∙ ring-call_drop c ok_c _ e.friendnum e.attempts

  drop_entry-Spent :
      (n : ℕ) (q : Queue) (i : ℕ) (e : Entry)
      → effort_left c (drop_entry c q i e).0 < n
      → Spent c n (drop_entry c q i e)
  unfolding drop_entry
  drop_entry-Spent n q i e h = h

  -- A message with an attempt left, in slot `i`.
  module _ (q : Queue) (i : ℕ) (e : Entry) (h : i < length q.ring) (at : slot_at q.ring i ≡ e)
      (left : e.attempts < c.max_attempts) where
    write-effort :
        (e' : Entry)
        → total (effort c) (set q.ring i e') + effort c e ≡ effort_left c q + effort c e'
    write-effort e' = omega (arith, total-set blank (effort c) q.ring i e' h, ap (effort c) at)

    drop-effort :
        (e' : Entry) (q' : Queue)
        → q'.ring ≡ set q.ring i e'
        → effort_left c (drop_entry c q' i e').0 + effort c e ≡ effort_left c q
    unfolding released
    drop-effort e' q' r = omega (
      arith,
      ap (total (effort c)) (
          ring-drop_entry q' i e'
          ∙ ap (λ ring. set ring i (released e')) r
          ∙ set-set q.ring i e' (released e')),
      write-effort (released e'),
    )

    charged : bump32 e.attempts ≡ e.attempts + 1
    charged = omega (arith, ok_c.small_attempts)

    effort-state : (st : SlotState) → e.state ≡ st → effort c e ≡ effort_in c st e.attempts
    effort-state st s = ap (λ st. effort_in c st e.attempts) s

    module _ (now : ℤ) (s : e.state ≡ pending) where
      abbrev tried : Entry
      tried = record e { last_attempt = now; attempted = true }

      refused-Spent : (rc : ℤ) → Spent c (effort_left c q) (refused c q i tried rc)
      unfolding refused
      refused-Spent rc =
          let again = record tried { attempts = bump32 e.attempts } in
          let q' = record q { ring = set q.ring i again } in
          if-elim (Spent c (effort_left c q))
            (eqb_ℤ rc send_fatal || leb c.max_attempts (bump32 e.attempts))
            (λ _.
              drop_entry-Spent (effort_left c q) q' i again
                (omega (arith, drop-effort again q' refl, effort-state pending s)))
            (λ _. omega (
              arith,
              write-effort again,
              effort-state pending s,
              ap (λ st. effort_in c st (bump32 e.attempts)) s,
              charged,
            ))

      accepted-Spent : (rc : ℤ) → Spent c (effort_left c q) (accepted c q i tried rc)
      unfolding accepted
      accepted-Spent rc = omega (
        arith,
        write-effort (record tried { receipt = rc; state = awaiting_ack }),
        effort-state pending s,
      )

    deliver-Spent :
        (tx : ℤ → List ℕ → ℕ → ℤ) (now : ℤ)
        → e.state ≡ pending
        → Spent c (effort_left c q) (deliver c tx now q i e)
    unfolding deliver
    deliver-Spent tx now s =
        if-elim (Spent c (effort_left c q))
          (e.attempted && ltb_ℤ (now -ℤ e.last_attempt) (pos c.retry_backoff)) (λ _. omega arith)
          (λ _.
            if-elim (Spent c (effort_left c q)) (ltb_ℤ (tx e.friendnum (bytes e) e.len) (pos 0))
              (λ _. refused-Spent now s _) (λ _. accepted-Spent now s _))

  pub in_ring : (q : Queue) (i : ℕ) → IsQueue c q → i < c.capacity → i < length q.ring
  in_ring q i v h = omega (arith, h, v.is_ring.slots)

  -- The budget of a stored message is not used up.
  attempts_left :
      (q : Queue) (i : ℕ) (e : Entry)
      → IsQueue c q
      → i < c.capacity
      → slot_at q.ring i ≡ e
      → stored e ≡ true
      → e.attempts < c.max_attempts
  attempts_left q i e v h at s = ground (
    arith,
    s,
    get_or-le-total blank (λ e. as_one (breaks c e)) q.ring i (in_ring q i v h),
    v.is_ring.bounded,
    ap (λ x. as_one (breaks c x)) at,
  )

  module _ (tx : ℤ → List ℕ → ℕ → ℤ) (now : ℤ) where
    expire-Spent :
        (q : Queue) (i : ℕ) (e : Entry)
        → i < length q.ring
        → slot_at q.ring i ≡ e
        → e.attempts < c.max_attempts
        → e.state ≡ awaiting_ack
        → Spent c (effort_left c q) (expire c tx now q i e)
    unfolding expire
    expire-Spent q i e h at left s =
        let late = record e { receipt = negsuc 0; state = pending; attempts = bump32 e.attempts } in
        let again = record q { in_flight = q.in_flight - 1; ring = set q.ring i late } in
        if-elim (Spent c (effort_left c q)) (leb c.max_attempts (bump32 e.attempts))
          (λ _. drop_entry-Spent (effort_left c q) again i late (
            omega (
              arith,
              drop-effort q i e h at left late again refl,
              effort-state q i e h at left awaiting_ack s,
            )))
          (λ g.
            Spent-le c (effort_left c again) (effort_left c q) (deliver c tx now again i late)
              (deliver-Spent again i late (omega (arith, h, length-set q.ring i late))
                (get_or-set_self blank q.ring i late h) (ground (arith, g)) tx now refl)
              (omega (
                arith,
                write-effort q i e h at left late,
                effort-state q i e h at left awaiting_ack s,
                charged q i e h at left,
              )))

    visit_in-Spent :
        (st : SlotState) (q : Queue) (i : ℕ) (e : Entry)
        → IsQueue c q
        → i < c.capacity
        → slot_at q.ring i ≡ e
        → e.state ≡ st
        → Spent c (effort_left c q) (visit_in c tx now st q i e)
    unfolding visit_in
    visit_in-Spent free q i e v h at s = omega arith
    visit_in-Spent pending q i e v h at s =
        deliver-Spent q i e (in_ring q i v h) at (attempts_left q i e v h at (rw s refl)) tx now s
    visit_in-Spent awaiting_ack q i e v h at s =
        if-elim (Spent c (effort_left c q)) (ltb_ℤ (now -ℤ e.last_attempt) (pos c.ack_timeout))
          (λ _. omega arith)
          (λ _. expire-Spent q i e (in_ring q i v h) at (attempts_left q i e v h at (rw s refl)) s)

    scan-Spent :
        (n i : ℕ) (q : Queue)
        → IsQueue c q
        → i < c.capacity
        → Spent c (effort_left c q) (halted (scan c tx now n i q))
    unfolding scan visit
    scan-Spent zero i q v h = omega arith
    scan-Spent (suc n) i q v h =
        go (visit c tx now q i) (visit-Passed c ok_c tx now q i v h).valid
          (visit_in-Spent (slot_at q.ring i).state q i (slot_at q.ring i) v h refl refl)
          (λ q' v'. scan-Spent n (next_index c i) q' v' (next_index-lt c ok_c i))
      where
        go :
            (r : Queue × Option Outcome)
            → IsQueue c r.0
            → Spent c (effort_left c q) r
            → ((q' : Queue)
                → IsQueue c q'
                → Spent c (effort_left c q') (halted (scan c tx now n (next_index c i) q')))
            → Spent c (effort_left c q) (
                halted
                  (elim r.1 [ none ↦ scan c tx now n (next_index c i) r.0 | some o ↦ (r.0, o) ]))
        go (q', none) w p rest =
            Spent-le c (effort_left c q') (effort_left c q)
              (halted (scan c tx now n (next_index c i) q')) (rest q' w) p
        go (q', some o) w p rest = p

    service-Spent :
        (q : Queue) → IsQueue c q → Spent c (effort_left c q) (halted (service c tx now q))
    unfolding service
    service-Spent q v =
        if-elim (λ (r : Queue × Outcome). Spent c (effort_left c q) (halted r)) (q.count == 0)
          (λ _. omega arith)
          (λ _.
            let w = advance_head-IsQueue c ok_c q v in
            Spent-le c (effort_left c (advance_head c q)) (effort_left c q)
              (halted (scan c tx now c.capacity (advance_head c q).head (advance_head c q)))
              (scan-Spent c.capacity (advance_head c q).head (advance_head c q) w w.head_in)
              (omega (arith, ap (total (effort c)) (ring-advance_head c ok_c q))))

-- A pass that is called later: the transport's answers and the time.
pub record Pass : Type 0 where
  pub tx : ℤ → List ℕ → ℕ → ℤ
  pub now : ℤ

abbrev pub acts : Outcome → ℕ
acts idle = 0
acts sent = 1
acts deferred = 1
acts dropped = 1

-- How many passes of a sequence act.
unfoldable pub busy_passes : Config → Queue → List Pass → ℕ
busy_passes c q [] = 0
busy_passes c q (p ∷ ps) =
    let (q', outcome) = service c p.tx p.now q in acts outcome + busy_passes c q' ps

mul_succ_left : (k n : ℕ) → k * (1 + n) ≡ k + k * n
mul_succ_left k n = omega arith

module _ (c : Config) (ok_c : IsConfig c) where
  acts-Spent :
      (n : ℕ) (r : Queue × Outcome) → Spent c n (r.0, some r.1) → acts r.1 + effort_left c r.0 ≤ n
  acts-Spent n (q, idle) h = omega (arith, h)
  acts-Spent n (q, sent) h = omega (arith, h)
  acts-Spent n (q, deferred) h = omega (arith, h)
  acts-Spent n (q, dropped) h = omega (arith, h)

  busy_passes-le : (ps : List Pass) (q : Queue) → IsQueue c q → busy_passes c q ps ≤ effort_left c q
  unfolding busy_passes
  busy_passes-le [] q v = omega arith
  busy_passes-le (p ∷ ps) q v = omega (
    arith,
    acts-Spent (effort_left c q) (service c p.tx p.now q) (service-Spent c ok_c p.tx p.now q v),
    busy_passes-le ps (service c p.tx p.now q).0 (service_lem c ok_c p.tx p.now q v).0,
  )

  state-effort :
      (st : SlotState) (attempts m n : ℕ)
      → m ≤ (2 * c.max_attempts + 1) * n
      → effort_in c st attempts + m ≤ (2 * c.max_attempts + 1) * (as_one (not (is_free st)) + n)
  state-effort free attempts m n h = rw (let z : 0 + n ≡ n = omega arith in z) (omega (arith, h))
  state-effort pending attempts m n h = omega (arith, h, mul_succ_left (2 * c.max_attempts + 1) n)
  state-effort awaiting_ack attempts m n h =
      omega (arith, h, mul_succ_left (2 * c.max_attempts + 1) n)

  effort-le :
      (ring : List Entry)
      → total (effort c) ring ≤ (2 * c.max_attempts + 1) * total (λ e. as_one (stored e)) ring
  unfolding total
  effort-le [] = omega arith
  effort-le (e ∷ es) = state-effort e.state e.attempts (total (effort c) es) _ (effort-le es)

  -- Of any sequence of passes over a well-formed queue, with nothing stored or confirmed in between,
  -- and whatever the transport and the clock do, at most `2 * max_attempts + 1` for each stored
  -- message act: every other pass is idle.
  pub busy_passes-bounded :
      (ps : List Pass) (q : Queue)
      → IsQueue c q
      → busy_passes c q ps ≤ (2 * c.max_attempts + 1) * q.count
  busy_passes-bounded ps q v =
      omega (arith, busy_passes-le ps q v, rw v.is_ring.counted at (effort-le q.ring))
