-- ===== src/Queue/Tests.antt =====
-- Runs of the queue with three slots, and the theorems applied there.
use tox_relayer.Prelude.{
  total, ◌≡◌, ◌<◌, ◌≤◌, ◌*◌, zero, suc, [], ◌∷◌, ◌⊎◌, refl, true, some, List, ℕ, ◌+◌, arith, length,
  take,
}
use tox_relayer.Prelude.Int.{ℤ, pos, negsuc, int_laws}
use tox_relayer.Text.{codes}
use tox_relayer.Queue.{
  Config, Queue, ok, err_full, err_notfound, init, enqueue, insert_at, filled, find_free,
  notify_change, confirm, slot_at, as_one,
}
use tox_relayer.Queue.Service.{service}
use tox_relayer.Queue.Service.Laws.{Keeps, service_lem}
use tox_relayer.Queue.Service.Effort.{Pass, busy_passes, busy_passes-bounded}
use tox_relayer.Queue.Service.Drain.{Spaced, after_passes, after_passes-drain}
use tox_relayer.Queue.Bag.{Weight, bag, bytes, Added}
use tox_relayer.Queue.Invariant.{IsConfig, IsQueue, init-IsQueue}
use tox_relayer.Queue.Enqueue.{enqueue-IsQueue, enqueue_lem}
use tox_relayer.Queue.Confirm.{matches, confirm_lem}

abbrev three_slots : Config
three_slots = record {
  capacity = 3;
  payload_max = 8;
  ack_timeout = 25;
  retry_backoff = 1;
  max_attempts = 8;
}

three_slots-IsConfig : IsConfig three_slots
three_slots-IsConfig = record {
  some_slot = omega arith;
  some_attempt = omega arith;
  small_attempts = omega arith;
}

abbrev empty : Queue
empty = init three_slots

empty-IsQueue : IsQueue three_slots empty
empty-IsQueue = init-IsQueue three_slots three_slots-IsConfig

abbrev one : Queue
one = (enqueue three_slots empty (pos 5) (some (codes "hi")) 2 (pos 100)).0

one-IsQueue : IsQueue three_slots one
one-IsQueue =
    enqueue-IsQueue three_slots three_slots-IsConfig empty (pos 5) (some (codes "hi")) 2 (pos 100)
      empty-IsQueue

enqueue_lem_example :
    let (q', status) = enqueue three_slots one (pos 6) (some (codes "you")) 3 (pos 101) in
    ((one.count < 3)
      × (status ≡ ok)
      × (q'.count ≡ one.count + 1)
      × Added one q' (pos 6) (take 3 (codes "you")))
    ⊎ ((one.count ≡ 3) × (status ≡ err_full) × (q'.count ≡ one.count) × (q'.ring ≡ one.ring))
enqueue_lem_example =
    enqueue_lem three_slots three_slots-IsConfig one (pos 6) (codes "you") 3 (pos 101) one-IsQueue
      refl (omega arith)

-- A transport that accepts every message under the receipt 42.
abbrev transport : ℤ → List ℕ → ℕ → ℤ
transport friendnum payload len = pos 42

service_lem_example :
    let (q', outcome) = service three_slots transport (pos 101) one in
    IsQueue three_slots q' × Keeps three_slots one q' (some outcome)
service_lem_example =
    service_lem three_slots three_slots-IsConfig transport (pos 101) one one-IsQueue

abbrev flying : Queue
flying = (service three_slots transport (pos 101) one).0

flying-IsQueue : IsQueue three_slots flying
flying-IsQueue =
    (service_lem three_slots three_slots-IsConfig transport (pos 101) one one-IsQueue).0

confirm_lem_example :
    let (q', status) = confirm three_slots flying (pos 5) (pos 42) in
    ((status ≡ ok)
      × ((i : ℕ) × (matches (pos 5) (pos 42) (slot_at flying.ring i) ≡ true)
          × (q'.count + 1 ≡ flying.count)
          × ((f : Weight)
              → bag f q'.ring + f (slot_at flying.ring i).friendnum (bytes (slot_at flying.ring i))
                ≡ bag f flying.ring)))
    ⊎ ((status ≡ err_notfound)
        × (q' ≡ flying)
        × (total (λ e. as_one (matches (pos 5) (pos 42) e)) flying.ring ≡ 0))
confirm_lem_example =
    confirm_lem three_slots three_slots-IsConfig flying (pos 5) (pos 42) flying-IsQueue refl

-- The number of bytes that are stored.
abbrev byte_count : Weight
byte_count friendnum payload = length payload

-- Passes of a transport that never takes the message, 25 seconds apart.
abbrev refusing : ℕ → ℕ → List Pass
refusing zero now = []
refusing (suc n) now = record { tx = λ f p l. negsuc 5; now = pos now } ∷ refusing n (now + 25)

refusing-Spaced : (n t : ℕ) → Spaced three_slots (pos t) (refusing n (t + 25))
refusing-Spaced zero t = tt
refusing-Spaced (suc n) t = (omega int_laws, refusing-Spaced n (t + 25))

busy_passes-bounded_example : busy_passes three_slots one (refusing 2 125) ≤ 17 * one.count
busy_passes-bounded_example =
    busy_passes-bounded three_slots three_slots-IsConfig (refusing 2 125) one one-IsQueue

after_passes-drain_example : (after_passes three_slots one (refusing 18 125)).count ≡ 0
unfolding total enqueue insert_at filled find_free notify_change init
after_passes-drain_example =
    after_passes-drain three_slots three_slots-IsConfig (omega arith) (refusing 18 125) (pos 100)
      one one-IsQueue refl (refusing-Spaced 18 100) (omega arith)
