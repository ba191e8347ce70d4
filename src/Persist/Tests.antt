-- ===== src/Persist/Tests.antt =====
-- A queue with three slots that is saved and loaded again, and the theorems applied there.
use tox_relayer.Prelude.{◌≡◌, refl, true, none, some, [], ◌+◌, ◌==◌, arith}
use tox_relayer.Prelude.Int.{pos}
use tox_relayer.Text.{codes}
use tox_relayer.Queue.{
  Config, Queue, init, enqueue, foreach, foreach_loop, find_free, insert_at, filled, notify_change,
}
use tox_relayer.Queue.Bag.{Weight, bag}
use tox_relayer.Queue.Invariant.{IsConfig, IsQueue, init-IsQueue}
use tox_relayer.Queue.Enqueue.{enqueue-IsQueue}
use tox_relayer.Persist.{Files, SaveIo, save, load, written, write, save_all, save_visit, save_to}
use tox_relayer.Persist.Records.{AllStorable}
use tox_relayer.Persist.Load.{load-IsQueue}
use tox_relayer.Persist.Save.{Atomic, save-Atomic, load-save, all_well}

abbrev three_slots : Config
three_slots = record {
  capacity = 3;
  payload_max = 8;
  ack_timeout = 25;
  retry_backoff = 1;
  max_attempts = 8;
}

three_slots-IsConfig : IsConfig three_slots
three_slots-IsConfig = record {
  some_slot = omega arith;
  some_attempt = omega arith;
  small_attempts = omega arith;
}

abbrev empty : Queue
empty = init three_slots

empty-IsQueue : IsQueue three_slots empty
empty-IsQueue = init-IsQueue three_slots three_slots-IsConfig

abbrev one : Queue
one = (enqueue three_slots empty (pos 5) (some (codes "hi")) 2 (pos 100)).0

one-IsQueue : IsQueue three_slots one
one-IsQueue =
    enqueue-IsQueue three_slots three_slots-IsConfig empty (pos 5) (some (codes "hi")) 2 (pos 100)
      empty-IsQueue

-- A system on which every call of a save succeeds, and one on which the second write falls short.
abbrev healthy : SaveIo
healthy = record {
  path_max = 4096;
  opened = true;
  wrote = λ _. true;
  flushed = true;
  synced = true;
  closed = true;
  renamed = true;
  unlinked = true;
  partial = [];
}

abbrev full_disk : SaveIo
full_disk = record healthy { wrote = λ k. k == 0; partial = codes "MQPQ" }

abbrev no_files : Files
no_files path = none

one-AllStorable : AllStorable three_slots (foreach three_slots one)
unfolding foreach foreach_loop enqueue init find_free insert_at filled notify_change
one-AllStorable = (
  record {
    friend = 5;
    friend_eq = refl;
    small = omega arith;
    some_bytes = omega arith;
    fits = omega arith;
    short = omega arith;
  },
  tt,
)

save-Atomic_example :
    Atomic three_slots one
      (codes "q")
      no_files
      (save three_slots full_disk no_files (some (codes "q")) one)
save-Atomic_example = save-Atomic three_slots full_disk no_files (codes "q") one

load-save_example :
    let (files', rc) = save three_slots healthy no_files (some (codes "q")) one in
    let (loaded, answer) = load three_slots all_well files' (some (codes "q")) (pos 200) empty in
    (answer ≡ pos one.count)
    × IsQueue three_slots loaded
    × ((f : Weight) → bag f loaded.ring ≡ bag f empty.ring + bag f one.ring)
unfolding save save_to written write save_all save_visit foreach foreach_loop enqueue init find_free
    insert_at filled notify_change
load-save_example =
    load-save three_slots healthy no_files (codes "q") one empty (pos 200) three_slots-IsConfig
      (omega arith) one-IsQueue empty-IsQueue one-AllStorable (omega arith) refl (omega arith)

load-IsQueue_example :
    IsQueue three_slots
      (load three_slots all_well
        (λ _. some (codes "not a queue"))
        (some (codes "q"))
        (pos 200)
        one).0
load-IsQueue_example =
    load-IsQueue three_slots three_slots-IsConfig all_well (λ _. some (codes "not a queue"))
      (some (codes "q")) (pos 200) one one-IsQueue
