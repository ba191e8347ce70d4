-- ===== src/Queue/Invariant.antt =====
-- The invariants I1 to I4 of src/msg_queue.c, with bounds on the stored messages, and that every
-- operation keeps them.
use tox_relayer.Prelude.{
  total, total-le-length, total-replicate, total-set, ℕ, zero, suc, ◌+◌, ◌^◌, ◌≤◌, ◌<◌, ◌≡◌, refl,
  ◌∙◌, Bool, true, not, ◌&&◌, ◌||◌, List, arith, if-elim, leb, ◌==◌, length, set, length-set,
  length-replicate,
}
use tox_relayer.Prelude.Int.{ℤ, pos, ltb_ℤ}
use tox_relayer.Queue.{
  Config, Entry, Queue, slot_at, is_free, is_awaiting, as_one, occupied, awaiting, next_index,
  first_occupied, advance_head, init, check_invariants, notify_change, call_drop, blank,
}

-- The static assertions of the source, and counters that the configuration cannot make wrap.
pub record IsConfig (c : Config) : Type 0 where
  pub some_slot : 0 < c.capacity
  pub some_attempt : 0 < c.max_attempts
  pub small_attempts : c.max_attempts < 2 ^ 32

abbrev pub stored : Entry → Bool
stored e = not (is_free e.state)

-- A stored message that breaks a bound: its budget is used up, its length is out of range, or its
-- friend number is negative.
abbrev pub breaks : Config → Entry → Bool
breaks c e =
    stored e
    && (leb c.max_attempts e.attempts
        || (e.len == 0 || (leb c.payload_max e.len || ltb_ℤ e.friendnum (pos 0))))

-- The ring with its two counters.
pub record IsRing (c : Config) (ring : List Entry) (count in_flight : ℕ) : Type 0 where
  pub slots : length ring ≡ c.capacity
  pub counted : occupied ring ≡ count
  pub flying : awaiting ring ≡ in_flight
  pub bounded : total (λ e. as_one (breaks c e)) ring ≡ 0

pub record IsQueue (c : Config) (q : Queue) : Type 0 where
  pub is_ring : IsRing c q.ring q.count q.in_flight
  pub head_in : q.head < c.capacity
  pub tail_in : q.tail < c.capacity

module _ (c : Config) where
  -- Writing one slot, with the counters moved by what the write changes.
  pub set-IsRing :
      (ring : List Entry) (count in_flight count' in_flight' i : ℕ) (e : Entry)
      → IsRing c ring count in_flight
      → i < c.capacity
      → count' + as_one (stored (slot_at ring i)) ≡ count + as_one (stored e)
      → in_flight' + as_one (is_awaiting (slot_at ring i).state)
        ≡ in_flight + as_one (is_awaiting e.state)
      → as_one (breaks c e) ≡ 0
      → IsRing c (set ring i e) count' in_flight'
  set-IsRing ring count in_flight count' in_flight' i e r h n k b = record {
    slots = length-set ring i e ∙ r.slots;
    counted = omega (
      arith,
      total-set blank (λ e. as_one (stored e)) ring i e (omega (arith, r.slots)),
      r.counted,
    );
    flying = omega (
      arith,
      total-set blank (λ e. as_one (is_awaiting e.state)) ring i e (omega (arith, r.slots)),
      r.flying,
    );
    bounded = omega (
      arith,
      total-set blank (λ e. as_one (breaks c e)) ring i e (omega (arith, r.slots)),
      r.bounded,
    );
  }

  pub count-le-capacity :
      (ring : List Entry) (count in_flight : ℕ) → IsRing c ring count in_flight → count ≤ c.capacity
  count-le-capacity ring count in_flight r =
      omega (
        arith,
        total-le-length (λ e. as_one (stored e)) ring (λ e. ground arith),
        r.counted,
        r.slots,
      )

  -- `mq_check_invariants` never fails where the invariant holds.
  pub IsQueue-check_invariants : (q : Queue) → IsQueue c q → check_invariants c q ≡ true
  unfolding check_invariants
  IsQueue-check_invariants q v = ground (
    arith,
    count-le-capacity q.ring q.count q.in_flight v.is_ring,
    v.is_ring.counted,
    v.is_ring.flying,
    v.head_in,
    v.tail_in,
  )

  module _ (ok_c : IsConfig c) where
    pub next_index-lt : (i : ℕ) → next_index c i < c.capacity
    next_index-lt i = grind (arith, ok_c.some_slot)

    first_occupied-lt :
        (n : ℕ) (ring : List Entry) (head : ℕ)
        → head < c.capacity
        → first_occupied c n ring head < c.capacity
    unfolding first_occupied
    first_occupied-lt zero ring head h = h
    first_occupied-lt (suc n) ring head h =
        if-elim (λ i. i < c.capacity) (is_free (slot_at ring head).state)
          (λ _. first_occupied-lt n ring (next_index c head) (next_index-lt head)) (λ _. h)

    -- `mq_init` gives a well-formed queue, for every configuration with a slot and an attempt.
    pub init-IsQueue : IsQueue c (init c)
    unfolding init
    init-IsQueue = record {
      is_ring = record {
        slots = length-replicate c.capacity _;
        counted = total-replicate _ c.capacity _ refl;
        flying = total-replicate _ c.capacity _ refl;
        bounded = total-replicate _ c.capacity _ refl;
      };
      head_in = ok_c.some_slot;
      tail_in = ok_c.some_slot;
    }

    pub advance_head-IsQueue : (q : Queue) → IsQueue c q → IsQueue c (advance_head c q)
    unfolding advance_head
    advance_head-IsQueue q v =
        if-elim (IsQueue c) (q.count == 0)
          (λ _. record { is_ring = v.is_ring; head_in = v.tail_in; tail_in = v.tail_in })
          (λ _. record {
            is_ring = v.is_ring;
            head_in = first_occupied-lt c.capacity q.ring q.head v.head_in;
            tail_in = v.tail_in;
          })

    pub notify_change-IsQueue : (q : Queue) → IsQueue c q → IsQueue c (notify_change q)
    unfolding notify_change
    notify_change-IsQueue q v =
        if-elim (IsQueue c) q.change_hook
          (λ _. record { is_ring = v.is_ring; head_in = v.head_in; tail_in = v.tail_in }) (λ _. v)

    pub call_drop-IsQueue :
        (q : Queue) (friendnum : ℤ) (n : ℕ) → IsQueue c q → IsQueue c (call_drop q friendnum n)
    unfolding call_drop
    call_drop-IsQueue q friendnum n v =
        if-elim (IsQueue c) q.drop_hook
          (λ _. record { is_ring = v.is_ring; head_in = v.head_in; tail_in = v.tail_in }) (λ _. v)

    -- Hooks and totals aside, what stays when a hook is called or the head moves.
    pub ring-notify_change : (q : Queue) → (notify_change q).ring ≡ q.ring
    unfolding notify_change
    ring-notify_change q = ground arith

    pub count-notify_change : (q : Queue) → (notify_change q).count ≡ q.count
    unfolding notify_change
    count-notify_change q = ground arith

    pub ring-advance_head : (q : Queue) → (advance_head c q).ring ≡ q.ring
    unfolding advance_head
    ring-advance_head q = ground arith

    pub count-advance_head : (q : Queue) → (advance_head c q).count ≡ q.count
    unfolding advance_head
    count-advance_head q = ground arith

    pub ring-call_drop :
        (q : Queue) (friendnum : ℤ) (n : ℕ) → (call_drop q friendnum n).ring ≡ q.ring
    unfolding call_drop
    ring-call_drop q friendnum n = ground arith
