-- ===== src/Node/Loop/Tests.antt =====
-- A run of the main loop of src/toxrelayer.c with two friends, and the theorem applied to it.
use tox_relayer.Prelude.{ℕ, true, false, none, some, [], ◌∷◌}
use tox_relayer.Prelude.Int.{pos}
use tox_relayer.Text.{codes}
use tox_relayer.Persist.{Files}
use tox_relayer.Node.{Node}
use tox_relayer.Node.Messages.{cb_friend_message}
use tox_relayer.Node.Console.{press}
use tox_relayer.Node.Loop.{Loop, Round, Start, begin, round, exit_toxrelayer}
use tox_relayer.Node.Loop.Mirror.{Mirrored}
use tox_relayer.Node.Loop.Callbacks.{Callbacks, no_callback, then_callback, message_received}
use tox_relayer.Node.Loop.Runs.{Main, rounded, pressed, left, Run, done, then_step, Run-Mirrored}
use tox_relayer.Node.Tests.{
  two_slots, two_slots-IsConfig, sqlite, world, node, wire_size, peers, answers,
}

-- Friend 0 greets while toxcore iterates.
abbrev greeted : Node → Node
greeted n = cb_friend_message world answers true 0 (codes "/HELLO-0001  METACOM") 20 n

greeted-Callbacks : (n : Node) → Callbacks world n (greeted n)
greeted-Callbacks n =
    then_callback n (greeted n) no_callback
      (message_received world answers true 0 (codes "/HELLO-0001  METACOM") 20)

abbrev healthy_round : Round
healthy_round = record {
  connected = true;
  network = record { connected = λ f. true; send = λ f text. some 3 };
  iterate = greeted;
  friends = [];
  exists = λ f. true;
  last_online = λ f. none;
  peer_count = peers;
  save_io = record {
    path_max = 4096;
    opened = true;
    wrote = λ _. true;
    flushed = true;
    synced = true;
    closed = true;
    renamed = true;
    unlinked = true;
    partial = [];
  };
}

-- The start finds no saved queue.
abbrev first_start : Start
first_start = record {
  load_io = record { opened = false; sized = true; allocated = true; read = true; closed = true };
  sqlite = sqlite;
  allocated = true;
  conference_type = peers;
  chatlist = [];
  directory = record {
    numfriends = 2;
    public_key = λ f. 7 ∷ 8 ∷ [];
    name = λ f. codes "peer";
    address = 4 ∷ 5 ∷ 6 ∷ [];
    ini_gets = λ section key default. some default;
  };
}

abbrev no_files : Files
no_files path = none

abbrev begun : Loop
begun = begin two_slots first_start (pos 90) no_files node

-- A round, the key of a letter, the key that ends the line, a round that saves the queue, the exit.
abbrev one : Main
one = ([], round two_slots healthy_round (pos 100) (pos 101) begun)

abbrev pressed_at : ℕ → Main → Main
pressed_at key s =
    let (line, n) = press world wire_size 38 true key (s.0, s.1.node) in
    (line, record (s.1) { node = n })

abbrev two : Main
two = pressed_at 104 one

abbrev three : Main
three = pressed_at 10 two

abbrev four : Main
four = (three.0, round two_slots healthy_round (pos 110) (pos 111) three.1)

abbrev five : Main
five = (four.0, exit_toxrelayer two_slots healthy_round.save_io four.1)

five-Run : Run world ([], begun) five
five-Run =
    then_step four five
      (then_step three four
        (then_step two three
          (then_step one two
            (then_step ([], begun) one done
              (rounded healthy_round (pos 100) (pos 101) greeted-Callbacks))
            (pressed world wire_size 38 true 104))
          (pressed world wire_size 38 true 10))
        (rounded healthy_round (pos 110) (pos 111) greeted-Callbacks))
      (left healthy_round.save_io)

Run-Mirrored_example :
    Mirrored two_slots two_slots-IsConfig no_files begun.node.queue five.1.files five.1.node
Run-Mirrored_example =
    Run-Mirrored world two_slots-IsConfig first_start (pos 90) no_files node five five-Run
