-- ===== src/Node/Loop/Mirror.antt =====
-- The queue and its file: `g_queue_dirty` of src/toxrelayer.c is off only while the file holds the
-- messages of the queue, whatever the program does in between.
use tox_relayer.Prelude.{
  ℕ, ◌≡◌, refl, ◌∙◌, ◌⊎◌, inl, inr, true, false, ◌&&◌, Option, none, some, List, [], ◌∷◌, arith,
  ◌==◌, if◌then◌else◌, if-elim,
}
use tox_relayer.Prelude.Int.{ℤ, pos, ltb_ℤ, eqb_ℤ, ◌-ℤ◌}
use tox_relayer.Text.{str_eq}
use tox_relayer.Misc.{timed_out}
use tox_relayer.Queue.{Config, Queue, confirm}
use tox_relayer.Queue.Bag.{SameBag}
use tox_relayer.Queue.Invariant.{IsConfig, IsQueue}
use tox_relayer.Persist.{Files, SaveIo}
use tox_relayer.Persist.Save.{image, Atomic, save-Atomic}
use tox_relayer.Relay.{Event, store_called, remember_called, enqueue_called, Relay, receive}
use tox_relayer.Database.{Sqlite}
use tox_relayer.Node.{Node, data_saved, act, touch, with_queue}
use tox_relayer.Node.Relaying.{
  queue_after, db_after, relay_tracker, relay_init, remember_all, carry, relayed,
}
use tox_relayer.Node.Messages.{World, receipt_display}
use tox_relayer.Node.Console.{next_serial, hand_over, send_line}
use tox_relayer.Node.Loop.{
  Loop, Round, queue_file, queue_save_interval, service_step, save_step, exit_toxrelayer,
}
use tox_relayer.Node.Loop.Told.{Told, enqueue-Told, confirm-Told, service-Told, queue_after-Told}

module _ (c : Config) (ok_c : IsConfig c) (files₀ : Files) (queue₀ : Queue) where
  -- The file holds the image of a queue with the same messages; or neither the file nor the messages
  -- have changed since the start.
  abbrev pub Saved : Files → Queue → Type 0
  Saved files q =
      ((q' : Queue) × IsQueue c q' × (files queue_file ≡ some (image c q')) × SameBag q' q)
      ⊎ ((files queue_file ≡ files₀ queue_file) × SameBag queue₀ q)

  Saved-moved :
      (files files' : Files) (q q' : Queue)
      → files' queue_file ≡ files queue_file
      → SameBag q q'
      → Saved files q
      → Saved files' q'
  Saved-moved files files' q q' at same (inl (q'', v, at', same')) =
      inl (q'', v, at ∙ at', λ f. same f ∙ same' f)
  Saved-moved files files' q q' at same (inr (at', same')) = inr (at ∙ at', λ f. same f ∙ same' f)

  -- The queue is well formed, its change hook is installed, and while the flag is off its messages
  -- are saved.
  pub record Mirrored (files : Files) (n : Node) : Type 0 where
    pub valid : IsQueue c n.queue
    pub installed : n.queue.change_hook ≡ true
    pub mirrored : (n.queue_dirty ≡ true) ⊎ Saved files n.queue

  with_queue-Mirrored :
      (files : Files) (n : Node) (q : Queue)
      → Mirrored files n
      → Told c ok_c n.queue q
      → Mirrored files (with_queue q n)
  unfolding with_queue
  with_queue-Mirrored files n q m t = record {
    valid = record {
      is_ring = t.valid.is_ring;
      head_in = t.valid.head_in;
      tail_in = t.valid.tail_in;
    };
    installed = t.installed;
    mirrored = elim t.kept [
      | inl told ↦ inl (ground (arith, told))
      | inr same ↦ elim m.mirrored [
        | inl dirty ↦ inl (ground (arith, dirty))
        | inr held ↦ inr (Saved-moved files files n.queue q refl same held)
      ]
    ];
  }

  -- What the program does besides leaves the queue and the flag alone.
  pub beside-Mirrored :
      (files : Files) (n n' : Node)
      → n'.queue ≡ n.queue
      → n'.queue_dirty ≡ n.queue_dirty
      → Mirrored files n
      → Mirrored files n'
  beside-Mirrored files n n' q d m = record {
    valid = rw q m.valid;
    installed = rw q m.installed;
    mirrored = rw (q, d) m.mirrored;
  }

  saved-Mirrored :
      (files : Files) (n : Node) (r : Files × ℤ)
      → Mirrored files n
      → Atomic c n.queue queue_file files r
      → Mirrored r.0 (if eqb_ℤ r.1 (pos 0) then record n { queue_dirty = false } else n)
  unfolding str_eq
  saved-Mirrored files n (files', rc) m (inl (good, h)) = rw good (record {
    valid = m.valid;
    installed = m.installed;
    mirrored = inr (inl (n.queue, m.valid, h queue_file refl, λ f. refl));
  })
  saved-Mirrored files n (files', rc) m (inr ((k, bad), h)) =
      if-elim (Mirrored files') (eqb_ℤ rc (pos 0)) (λ e. absurd (ground (arith, e, bad)))
        (λ _. record {
          valid = m.valid;
          installed = m.installed;
          mirrored = elim m.mirrored [
            | inl dirty ↦ inl dirty
            | inr held ↦
                inr (Saved-moved files files' n.queue n.queue (h queue_file refl) (λ f. refl) held)
          ];
        })

  pub save_step-Mirrored :
      (r : Round) (t : ℤ) (l : Loop)
      → Mirrored l.files l.node
      → let l' = save_step c r t l in Mirrored l'.files l'.node
  unfolding save_step
  save_step-Mirrored r t l m =
      if-elim (λ (l' : Loop). Mirrored l'.files l'.node)
        (l.node.queue_dirty && timed_out l.last_queue_save t queue_save_interval)
        (λ _.
          saved-Mirrored l.files l.node _ m
            (save-Atomic c r.save_io l.files queue_file l.node.queue))
        (λ _. m)

  -- The save at the exit leaves the flag as it is.
  exit-Mirrored :
      (files : Files) (n : Node) (r : Files × ℤ)
      → Mirrored files n
      → Atomic c n.queue queue_file files r
      → Mirrored r.0 (act data_saved n)
  unfolding str_eq act
  exit-Mirrored files n (files', rc) m (inl (good, h)) = record {
    valid = m.valid;
    installed = m.installed;
    mirrored = inr (inl (n.queue, m.valid, h queue_file refl, λ f. refl));
  }
  exit-Mirrored files n (files', rc) m (inr (bad, h)) = record {
    valid = m.valid;
    installed = m.installed;
    mirrored = elim m.mirrored [
      | inl dirty ↦ inl dirty
      | inr held ↦
          inr (Saved-moved files files' n.queue n.queue (h queue_file refl) (λ f. refl) held)
    ];
  }

  pub exit_toxrelayer-Mirrored :
      (io : SaveIo) (l : Loop)
      → Mirrored l.files l.node
      → let l' = exit_toxrelayer c io l in Mirrored l'.files l'.node
  unfolding exit_toxrelayer
  exit_toxrelayer-Mirrored io l m =
      exit-Mirrored l.files l.node _ m (save-Atomic c io l.files queue_file l.node.queue)

  pub service_step-Mirrored :
      (r : Round) (t : ℤ) (l : Loop)
      → Mirrored l.files l.node
      → let l' = service_step c r t l in Mirrored l'.files l'.node
  unfolding service_step
  service_step-Mirrored r t l m =
      if-elim (λ (l' : Loop). Mirrored l'.files l'.node) (ltb_ℤ (pos 1) (t -ℤ l.last_queue_service))
        (λ _.
          with_queue-Mirrored l.files l.node _ m
            (service-Told c ok_c l.node.queue _ t m.valid m.installed))
        (λ _. m)

  -- What a line makes the queue do.
  hand_over-Mirrored :
      (files : Files) (w : World) (channel : ℕ) (item : Option (List ℕ × ℕ)) (n : Node)
      → w.config ≡ c
      → Mirrored files n
      → Mirrored files (hand_over w channel item n)
  unfolding hand_over
  hand_over-Mirrored files w channel none n same m = m
  hand_over-Mirrored files w channel (some (payload, len)) n same m = rw same (
      with_queue-Mirrored files n _ m
        (enqueue-Told c ok_c n.queue (pos channel) payload len w.now m.valid m.installed))

  pub send_line-Mirrored :
      (files : Files) (w : World) (wire_size : ℕ) (text : List ℕ) (n : Node)
      → w.config ≡ c
      → Mirrored files n
      → Mirrored files (send_line w wire_size text n)
  unfolding send_line next_serial touch act
  send_line-Mirrored files w wire_size text n same m = beside-Mirrored files _ _ refl refl (
      hand_over-Mirrored files w n.pre_friendnumber _ (next_serial n.pre_friendnumber n) same
        (beside-Mirrored files n _ refl refl m))

  receipt-Mirrored :
      (files : Files) (receipt : ℕ) (n : Node)
      → Mirrored files n
      → Mirrored files (receipt_display receipt n)
  unfolding receipt_display
  receipt-Mirrored files receipt n m =
      if-elim (Mirrored files) (n.kept_receipt == receipt)
        (λ _. beside-Mirrored files n _ refl refl m) (λ _. m)

  pub confirmed-Mirrored :
      (files : Files) (n : Node) (friendnum receipt : ℤ) (shown : ℕ)
      → Mirrored files n
      → Mirrored files
          (receipt_display shown (with_queue (confirm c n.queue friendnum receipt).0 n))
  confirmed-Mirrored files n friendnum receipt shown m = receipt-Mirrored files shown _ (
      with_queue-Mirrored files n _ m
        (confirm-Told c ok_c n.queue friendnum receipt m.valid m.installed))

  queue-remember_all :
      (es : List Event) (n : Node)
      → ((remember_all es n).queue ≡ n.queue) × ((remember_all es n).queue_dirty ≡ n.queue_dirty)
  unfolding remember_all act
  queue-remember_all [] n = (refl, refl)
  queue-remember_all (store_called channel sn timestamp sender body ∷ es) n =
      queue-remember_all es n
  queue-remember_all (remember_called channel sn ∷ es) n = queue-remember_all es _
  queue-remember_all (enqueue_called channel payload rc ∷ es) n = queue-remember_all es n

  pub relayed-Mirrored :
      (files : Files) (s : Sqlite) (now channel : ℤ) (raw : List ℕ) (n : Node)
      → Mirrored files n
      → Mirrored files (relayed c s now channel raw n).0
  unfolding relayed carry
  relayed-Mirrored files s now channel raw n m =
      let start : Relay = record { trackers = relay_tracker n.trackers; events = [] } in
      let r = (receive (relay_init c s now n) start channel (some raw)).0 in
      let n' = record n { trackers = r.trackers; db = db_after s n.db r.events } in
      let done =
        with_queue-Mirrored files n' (queue_after c now n.queue r.events)
          (beside-Mirrored files n n' refl refl m)
          (queue_after-Told c ok_c now r.events n.queue m.valid m.installed) in
      let same = queue-remember_all r.events (with_queue (queue_after c now n.queue r.events) n') in
      beside-Mirrored files _ _ same.0 same.1 done
