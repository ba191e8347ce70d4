-- ===== src/Queue.antt =====
-- The store-and-forward queue of src/msg_queue.h and src/msg_queue.c. The module's static variables
-- are one record; an operation takes it and gives it back. The configuration macros are a record of
-- numbers, since a build may set them. The installed hooks and the transport belong to the caller:
-- a call of a hook is recorded, and the transport is a function of the message.
pub mod Service
pub mod Rounds
pub mod Bag
pub mod Invariant
pub mod Enqueue
pub mod Confirm
pub mod Foreach
mod Tests
use tox_relayer.Prelude.{
  total, ℕ, zero, suc, ◌+◌, ◌-◌, ◌%◌, ◌^◌, Bool, true, false, not, ◌&&◌, ◌||◌, Option, none, some,
  List, [], ◌∷◌, ◌++◌, if◌then◌else◌, ltb, leb, ◌==◌, length, take, drop, set, get_or, replicate,
}
use tox_relayer.Prelude.Int.{ℤ, pos, negsuc, ltb_ℤ, eqb_ℤ, ◌-ℤ◌}
use mathlib.Core.Option

-- The macros MQ_CAPACITY, MQ_PAYLOAD_MAX, MQ_ACK_TIMEOUT_SEC, MQ_RETRY_BACKOFF_SEC and
-- MQ_MAX_ATTEMPTS.
pub record Config : Type 0 where
  pub capacity : ℕ
  pub payload_max : ℕ
  pub ack_timeout : ℕ
  pub retry_backoff : ℕ
  pub max_attempts : ℕ

-- The values that src/msg_queue.h gives them.
abbrev pub default_config : Config
default_config = record {
  capacity = 4048;
  payload_max = 1372;
  ack_timeout = 25;
  retry_backoff = 1;
  max_attempts = 8;
}

pub data SlotState : Type 0 where
  free pending awaiting_ack : SlotState

-- `mq_entry`. `payload` is the whole buffer; times and receipts are signed.
pub record Entry : Type 0 where
  pub len : ℕ
  pub enqueued_at : ℤ
  pub last_attempt : ℤ
  pub receipt : ℤ
  pub friendnum : ℤ
  pub attempts : ℕ
  pub state : SlotState
  pub attempted : Bool
  pub payload : List ℕ

-- The counters of `mq_stats` that are kept; the others are filled in by `stats_get`.
pub record Totals : Type 0 where
  pub enqueued : ℕ
  pub sent : ℕ
  pub confirmed : ℕ
  pub dropped : ℕ
  pub full_rejections : ℕ

-- A call of an installed hook.
pub data Event : Type 0 where
  drop_called : ℤ → ℕ → Event
  change_called : Event

pub record Queue : Type 0 where
  pub ring : List Entry
  pub head : ℕ
  pub tail : ℕ
  pub count : ℕ
  pub in_flight : ℕ
  pub totals : Totals
  pub drop_hook : Bool
  pub change_hook : Bool
  pub events : List Event

pub data Outcome : Type 0 where
  idle sent deferred dropped : Outcome

-- MQ_OK, MQ_ERR_RANGE, MQ_ERR_FULL, MQ_ERR_NOTFOUND.
pub data Status : Type 0 where
  ok err_range err_full err_notfound : Status

-- A `size_t` counter.
abbrev pub bump : ℕ → ℕ
bump n = (n + 1) % 2 ^ 64

-- A `uint32_t` counter.
abbrev pub bump32 : ℕ → ℕ
bump32 n = (n + 1) % 2 ^ 32

abbrev pub blank : Entry
blank = record {
  len = 0;
  enqueued_at = pos 0;
  last_attempt = pos 0;
  receipt = negsuc 0;
  friendnum = pos 0;
  attempts = 0;
  state = free;
  attempted = false;
  payload = [];
}

abbrev pub is_free : SlotState → Bool
is_free free = true
is_free pending = false
is_free awaiting_ack = false

abbrev pub is_awaiting : SlotState → Bool
is_awaiting free = false
is_awaiting pending = false
is_awaiting awaiting_ack = true

-- `g_ring[i]`.
abbrev pub slot_at : List Entry → ℕ → Entry
slot_at ring i = get_or ring i blank

abbrev pub as_one : Bool → ℕ
as_one b = if b then 1 else 0

-- The two counts of `mq_check_invariants`.
abbrev pub occupied : List Entry → ℕ
occupied = total λ e. as_one (not (is_free e.state))

abbrev pub awaiting : List Entry → ℕ
awaiting = total λ e. as_one (is_awaiting e.state)

-- `mq_notify_change`.
unfoldable pub notify_change : Queue → Queue
notify_change q =
    if q.change_hook then record q { events = q.events ++ (change_called ∷ []) } else q

unfoldable pub released : Entry → Entry
released e = record e {
  state = free;
  receipt = negsuc 0;
  len = 0;
  attempts = 0;
  attempted = false;
  payload = set e.payload 0 0;
}

-- `mq_release_slot` of the entry `e` at `i`.
unfoldable pub release_slot : Queue → ℕ → Entry → Queue
release_slot q i e = record q {
  in_flight = if is_awaiting e.state then q.in_flight - 1 else q.in_flight;
  count = q.count - 1;
  ring = set q.ring i (released e);
}

unfoldable pub call_drop : Queue → ℤ → ℕ → Queue
call_drop q friendnum attempts =
    if q.drop_hook
    then record q { events = q.events ++ (drop_called friendnum attempts ∷ []) }
    else q

-- `mq_retire` of the entry `e` at `i`.
unfoldable pub retire : Queue → ℕ → Entry → Queue
retire q i e =
    let q' = release_slot q i e in
    let q'' = record q' { totals = record (q'.totals) { dropped = bump q'.totals.dropped } } in
    notify_change (call_drop q'' e.friendnum e.attempts)

-- The slot at which the loop of `mq_confirm` stops.
unfoldable pub find_awaiting : ℤ → ℤ → List Entry → Option ℕ
find_awaiting friendnum receipt [] = none
find_awaiting friendnum receipt (e ∷ es) =
    if is_awaiting e.state && (eqb_ℤ e.friendnum friendnum && eqb_ℤ e.receipt receipt)
    then some 0
    else Option.map suc (find_awaiting friendnum receipt es)

module _ (c : Config) where
  abbrev pub next_index : ℕ → ℕ
  next_index i = (i + 1) % c.capacity

  -- `mq_check_invariants`: true when no assertion fails.
  unfoldable pub check_invariants : Queue → Bool
  check_invariants q =
      ltb q.head c.capacity
      && (ltb q.tail c.capacity
          && (leb q.count c.capacity
              && (occupied q.ring == q.count && awaiting q.ring == q.in_flight)))

  -- The loop of `mq_find_free_slot` from `tail`: the slot, if there is one, and the new `g_tail`.
  unfoldable pub find_free : ℕ → List Entry → ℕ → Option ℕ × ℕ
  find_free zero ring tail = (none, tail)
  find_free (suc n) ring tail =
      let rest = find_free n ring (next_index tail) in
      if is_free (slot_at ring tail).state then (some tail, tail) else rest

  -- The loop of `mq_advance_head`. A full round of the ring is enough when a slot is occupied.
  unfoldable pub first_occupied : ℕ → List Entry → ℕ → ℕ
  first_occupied zero ring head = head
  first_occupied (suc n) ring head =
      let rest = first_occupied n ring (next_index head) in
      if is_free (slot_at ring head).state then rest else head

  unfoldable pub advance_head : Queue → Queue
  advance_head q =
      if q.count == 0
      then record q { head = q.tail }
      else record q { head = first_occupied c.capacity q.ring q.head }

  unfoldable pub init : Queue
  init = record {
    ring = replicate c.capacity (record blank { payload = replicate c.payload_max 0 });
    head = 0;
    tail = 0;
    count = 0;
    in_flight = 0;
    totals = record { enqueued = 0; sent = 0; confirmed = 0; dropped = 0; full_rejections = 0 };
    drop_hook = false;
    change_hook = false;
    events = [];
  }

  -- The entry that `mq_enqueue` writes over `old`.
  unfoldable pub filled : Entry → ℤ → List ℕ → ℕ → ℤ → Entry
  filled old friendnum payload len now = record {
    len = len;
    enqueued_at = now;
    last_attempt = pos 0;
    receipt = negsuc 0;
    friendnum = friendnum;
    attempts = 0;
    state = pending;
    attempted = false;
    payload = take len payload ++ (0 ∷ drop (len + 1) old.payload);
  }

  -- `mq_enqueue` once it has its slot.
  unfoldable pub insert_at : Queue → ℕ → ℤ → List ℕ → ℕ → ℤ → Queue
  insert_at q slot friendnum payload len now = notify_change (record q {
    ring = set q.ring slot (filled (slot_at q.ring slot) friendnum payload len now);
    count = q.count + 1;
    totals = record (q.totals) { enqueued = bump q.totals.enqueued };
    head = if q.count + 1 == 1 then slot else q.head;
    tail = next_index slot;
  })

  -- The payload is `none` for NULL.
  unfoldable pub enqueue : Queue → ℤ → Option (List ℕ) → ℕ → ℤ → Queue × Status
  enqueue q friendnum none len now = (q, err_range)
  enqueue q friendnum (some payload) len now =
      if ltb_ℤ friendnum (pos 0) || (len == 0 || leb c.payload_max len)
      then (q, err_range)
      else let (found, tail) = find_free c.capacity q.ring q.tail in
        elim found [
          | none ↦ (
            record q {
              tail = tail;
              totals = record (q.totals) { full_rejections = bump q.totals.full_rejections };
            },
            err_full,
          )
          | some slot ↦ (insert_at (record q { tail = tail }) slot friendnum payload len now, ok)
        ]

  unfoldable pub confirm_at : Queue → ℕ → Queue
  confirm_at q i =
      let q' = release_slot q i (slot_at q.ring i) in
      let q'' = record q' {
        totals = record (q'.totals) { confirmed = bump q'.totals.confirmed };
      } in
      notify_change (advance_head q'')

  unfoldable pub confirm : Queue → ℤ → ℤ → Queue × Status
  confirm q friendnum receipt =
      if ltb_ℤ friendnum (pos 0) || ltb_ℤ receipt (pos 0)
      then (q, err_range)
      else elim (find_awaiting friendnum receipt q.ring) [
        | none ↦ (q, err_notfound)
        | some i ↦ (confirm_at q i, ok)
      ]

  -- What `mq_foreach` hands to its visitor, in order.
  unfoldable pub foreach_loop : ℕ → ℕ → ℕ → List Entry → List (ℤ × List ℕ)
  foreach_loop zero i left ring = []
  foreach_loop (suc n) i left ring =
      let e = slot_at ring i in
      let stored = not (is_free e.state) in
      let rest = foreach_loop n (next_index i) (if stored then left - 1 else left) ring in
      if left == 0 then [] else if stored then (e.friendnum, take e.len e.payload) ∷ rest else rest

  unfoldable pub foreach : Queue → List (ℤ × List ℕ)
  foreach q = foreach_loop c.capacity q.head q.count q.ring

unfoldable pub mq_count : Queue → ℕ
mq_count q = q.count

unfoldable pub mq_in_flight : Queue → ℕ
mq_in_flight q = q.in_flight

-- `mq_stats` as `mq_stats_get` fills it in.
pub record Stats : Type 0 where
  pub totals : Totals
  pub capacity : ℕ
  pub count : ℕ
  pub in_flight : ℕ

unfoldable pub stats_get : Config → Queue → Stats
stats_get c q = record {
  totals = q.totals;
  capacity = c.capacity;
  count = q.count;
  in_flight = q.in_flight;
}

unfoldable pub is_empty : Queue → Bool
is_empty q = q.count == 0

unfoldable pub is_full : Config → Queue → Bool
is_full c q = q.count == c.capacity

unfoldable pub set_drop_hook : Queue → Bool → Queue
set_drop_hook q installed = record q { drop_hook = installed }

unfoldable pub set_change_hook : Queue → Bool → Queue
set_change_hook q installed = record q { change_hook = installed }
