-- ===== src/Node/Loop/Runs.antt =====
-- Main's loop in src/toxrelayer.c as a step relation: rounds with any callbacks in them, keys that are
-- pressed, and the exit, and what holds after every run.
use tox_relayer.Prelude.{ℕ, refl, inr, Bool, List, [], ◌∷◌, ◌++◌, length, if-elim, ◌==◌, ◌||◌, ltb}
use tox_relayer.Prelude.Int.{ℤ}
use tox_relayer.Text.{c_str}
use tox_relayer.Misc.{starts_with}
use tox_relayer.Queue.{Queue}
use tox_relayer.Queue.Invariant.{IsConfig}
use tox_relayer.Persist.{Files, SaveIo}
use tox_relayer.Node.{Node}
use tox_relayer.Node.Messages.{World}
use tox_relayer.Node.Console.{press, line_max}
use tox_relayer.Node.Loop.{
  Loop, Round, Start, begin, round, exit_toxrelayer, bootstrap_step, friend_purge_step,
  group_purge_step, hello_loop,
}
use tox_relayer.Node.Loop.Beside.{
  bootstrap_step-Timed, friend_purge_step-Timed, group_purge_step-Timed, hello_loop-Beside, Timed,
  evaluate_input-Beside,
}
use tox_relayer.Node.Loop.Callbacks.{configured, Callbacks, Callbacks-Mirrored, aside}
use tox_relayer.Node.Loop.Started.{start-Ready}
use tox_relayer.Node.Loop.Mirror.{
  Mirrored, save_step-Mirrored, service_step-Mirrored, exit_toxrelayer-Mirrored, send_line-Mirrored,
}

-- The loop with the line that is typed so far.
abbrev pub Main : Type 0
Main = List ℕ × Loop

abbrev typed : List ℕ × Node → Loop → Main
typed (line, n) l = (line, record l { node = n })

module _ (w : World) where
  -- A round of the loop, in which toxcore makes any callbacks; a key; the exit. The clock and what the
  -- system answers may be anything.
  pub data Step (s : Main) : Main → Type 0 where
    rounded :
        (r : Round) (before after : ℤ)
        → ((n : Node) → Callbacks w n (r.iterate n))
        → Step s (s.0, round w.config r before after s.1)
    pressed :
        (v : World) (wire_size address_size : ℕ) (allocated : Bool) (key : ℕ)
        → Step s (
            typed (press (configured w v) wire_size address_size allocated key (s.0, s.1.node)) s.1)
    left : (io : SaveIo) → Step s (s.0, exit_toxrelayer w.config io s.1)

  pub data Run (s : Main) : Main → Type 0 where
    done : Run s s
    then_step : (s' s'' : Main) → Run s s' → Step s' s'' → Run s s''

  module _ (ok_c : IsConfig w.config) (files₀ : Files) (queue₀ : Queue) where
    abbrev Kept : Loop → Type 0
    Kept l = Mirrored w.config ok_c files₀ queue₀ l.files l.node

    Timed-Mirrored : (l l' : Loop) → Timed l l' → Kept l → Kept l'
    Timed-Mirrored l l' b k =
        rw (b.files) (aside w ok_c files₀ queue₀ l.files l.node l'.node b.node k)

    round-Mirrored :
        (r : Round) (before after : ℤ) (l : Loop)
        → ((n : Node) → Callbacks w n (r.iterate n))
        → Kept l
        → Kept (round w.config r before after l)
    unfolding round
    round-Mirrored r before after l called k =
        let l₁ = bootstrap_step r before l in
        let l₂ = friend_purge_step r before l₁ in
        let l₃ = group_purge_step r before l₂ in
        let n = r.iterate l₃.node in
        let greeted = hello_loop r.connected after n.max_friend 0 n in
        let k₁ = Timed-Mirrored l l₁ (bootstrap_step-Timed r before l) k in
        let k₂ = Timed-Mirrored l₁ l₂ (friend_purge_step-Timed r before l₁) k₁ in
        let k₃ = Timed-Mirrored l₂ l₃ (group_purge_step-Timed r before l₂) k₂ in
        let k₄ = Callbacks-Mirrored w ok_c files₀ queue₀ l₃.files l₃.node n (called l₃.node) k₃ in
        let k₅ =
          aside w ok_c files₀ queue₀ l₃.files n greeted
            (hello_loop-Beside r.connected after n.max_friend 0 n) k₄ in
        save_step-Mirrored w.config ok_c files₀ queue₀ r after _ (
          service_step-Mirrored w.config ok_c files₀ queue₀ r after (record l₃ { node = greeted })
            k₅)

    press-Mirrored :
        (v : World) (wire_size address_size : ℕ) (allocated : Bool) (key : ℕ) (line : List ℕ)
        (l : Loop)
        → Kept l
        → Kept
            (typed (press (configured w v) wire_size address_size allocated key (line, l.node)) l).1
    unfolding press
    press-Mirrored v wire_size address_size allocated key line l k =
        let text = c_str (line ++ (key ∷ [])) in
        let there = λ (s : List ℕ × Node). Kept (typed s l).1 in
        if-elim there (key == 10 || key == 13)
          (λ _.
            if-elim (Mirrored w.config ok_c files₀ queue₀ l.files) (starts_with 47 text)
              (λ _.
                aside w ok_c files₀ queue₀ l.files l.node _
                  (evaluate_input-Beside address_size allocated text l.node) k)
              (λ _.
                send_line-Mirrored w.config ok_c files₀ queue₀ l.files (configured w v) wire_size
                  text l.node refl k))
          (λ _.
            if-elim there (key == 8) (λ _. k)
              (λ _. if-elim there (ltb (length line) line_max) (λ _. k) (λ _. k)))

    Step-Mirrored : (s s' : Main) → Step s s' → Kept s.1 → Kept s'.1
    Step-Mirrored s _ (rounded r before after called) k = round-Mirrored r before after s.1 called k
    Step-Mirrored s _ (pressed v wire_size address_size allocated key) k =
        press-Mirrored v wire_size address_size allocated key s.0 s.1 k
    Step-Mirrored s _ (left io) k = exit_toxrelayer-Mirrored w.config ok_c files₀ queue₀ io s.1 k

    Run-Kept : (s s' : Main) → Run s s' → Kept s.1 → Kept s'.1
    Run-Kept s _ done k = k
    Run-Kept s _ (then_step s' s'' before step) k =
        Step-Mirrored s' s'' step (Run-Kept s s' before k)

-- After every run of the program, whatever was in its files, whatever callbacks toxcore makes in its
-- rounds, whatever keys are pressed and whichever calls of the system fail, and after its exit: the
-- queue is well formed and its change hook is installed, and while `g_queue_dirty` is off the file holds
-- the image of a well-formed queue with exactly the messages of the queue, or both the file and the
-- messages are still what they were when the loop began.
pub Run-Mirrored :
    (w : World) (ok_c : IsConfig w.config) (start : Start) (now : ℤ) (files : Files) (n : Node)
    (s : Main)
    → Run w ([], begin w.config start now files n) s
    → Mirrored w.config ok_c files (begin w.config start now files n).node.queue s.1.files s.1.node
unfolding begin
Run-Mirrored w ok_c start now files n s run =
    let l = begin w.config start now files n in
    let ready = start-Ready w.config ok_c start now files n in
    Run-Kept w ok_c files l.node.queue ([], l) s run
      (record {
        valid = ready.valid;
        installed = ready.installed;
        mirrored = inr (inr (refl, λ f. refl));
      })
