-- ===== src/Node/Loop/Told.antt =====
-- What an operation of the delivery queue tells the change hook, on_queue_changed of
-- src/toxrelayer.c.
use tox_relayer.Prelude.{
  ℕ, ◌≡◌, refl, ◌∙◌, ◌⊎◌, inl, inr, true, false, ◌||◌, some, List, [], ◌∷◌, length, leb, ◌==◌,
  if-elim, Option-cases,
}
use tox_relayer.Prelude.Int.{ℤ, pos, ltb_ℤ}
use tox_relayer.Queue.{
  Config, Queue, Outcome, idle, sent, deferred, dropped, Status, find_free, insert_at, enqueue,
  find_awaiting, confirm_at, confirm, release_slot, slot_at, bump,
}
use tox_relayer.Queue.Service.{service}
use tox_relayer.Queue.Bag.{SameBag}
use tox_relayer.Queue.Invariant.{IsConfig, IsQueue}
use tox_relayer.Queue.Enqueue.{enqueue-IsQueue}
use tox_relayer.Queue.Confirm.{confirm-IsQueue}
use tox_relayer.Queue.Service.Laws.{Keeps, service_lem}
use tox_relayer.Relay.{Event, store_called, remember_called, enqueue_called}
use tox_relayer.Node.{has_change}
use tox_relayer.Node.Relaying.{queue_after}
use tox_relayer.Node.Loop.Changes.{
  Hooked, silent, after, notify_change-Hooked, advance_head-Hooked, service-Part, is_dropped,
}

module _ (c : Config) (ok_c : IsConfig c) where
  -- An operation of the queue: the hook was told, or the bag is the same.
  pub record Told (q q' : Queue) : Type 0 where
    pub valid : IsQueue c q'
    pub installed : q'.change_hook ≡ true
    pub earlier : has_change q.events ≡ true → has_change q'.events ≡ true
    pub kept : (has_change q'.events ≡ true) ⊎ SameBag q q'

  pub quiet-Told :
      (q q' : Queue)
      → IsQueue c q'
      → q.change_hook ≡ true
      → q'.change_hook ≡ q.change_hook
      → q'.events ≡ q.events
      → q'.ring ≡ q.ring
      → Told q q'
  quiet-Told q q' v on h f r =
      let s = silent q q' on h f in
      record {
        valid = v;
        installed = s.installed;
        earlier = s.earlier;
        kept = inr (λ w. rw r refl);
      }

  hooked-Told : (q q' : Queue) → IsQueue c q' → Hooked true q q' → Told q q'
  hooked-Told q q' v h = record {
    valid = v;
    installed = h.installed;
    earlier = h.earlier;
    kept = inl (h.called refl);
  }

  pub then-Told : (q q' q'' : Queue) → Told q q' → Told q' q'' → Told q q''
  then-Told q q' q'' a b = record {
    valid = b.valid;
    installed = b.installed;
    earlier = λ h. b.earlier (a.earlier h);
    kept = elim b.kept [
      | inl h ↦ inl h
      | inr same ↦ elim a.kept [
        | inl h ↦ inl (b.earlier h)
        | inr same' ↦ inr (λ f. same f ∙ same' f)
      ]
    ];
  }

  pub enqueue-Told :
      (q : Queue) (friendnum : ℤ) (payload : List ℕ) (len : ℕ) (now : ℤ)
      → IsQueue c q
      → q.change_hook ≡ true
      → Told q (enqueue c q friendnum (some payload) len now).0
  unfolding enqueue insert_at
  enqueue-Told q friendnum payload len now v on =
      if-elim (λ (r : Queue × Status). IsQueue c r.0 → Told q r.0)
        (ltb_ℤ friendnum (pos 0) || (len == 0 || leb c.payload_max len))
        (λ _ v'. quiet-Told q q v' on refl refl refl)
        (λ _. elim (Option-cases (find_free c c.capacity q.ring q.tail).0) [
          | inl e ↦ rw e (λ v'. quiet-Told q _ v' on refl refl refl)
          | inr (slot, e) ↦ rw e (λ v'.
              hooked-Told q _ v'
                (after true q _ _ (silent q _ on refl refl) (notify_change-Hooked _ on)))
        ])
        (enqueue-IsQueue c ok_c q friendnum (some payload) len now v)

  pub confirm-Told :
      (q : Queue) (friendnum receipt : ℤ)
      → IsQueue c q
      → q.change_hook ≡ true
      → Told q (confirm c q friendnum receipt).0
  unfolding confirm confirm_at release_slot
  confirm-Told q friendnum receipt v on =
      if-elim (λ (r : Queue × Status). IsQueue c r.0 → Told q r.0)
        (ltb_ℤ friendnum (pos 0) || ltb_ℤ receipt (pos 0))
        (λ _ v'. quiet-Told q q v' on refl refl refl)
        (λ _. elim (Option-cases (find_awaiting friendnum receipt q.ring)) [
          | inl e ↦ rw e (λ v'. quiet-Told q q v' on refl refl refl)
          | inr (i, e) ↦ rw e (λ v'. hooked-Told q _ v' (told i))
        ])
        (confirm-IsQueue c ok_c q friendnum receipt v)
    where
      released_at : ℕ → Queue
      released_at i =
          let q' = release_slot q i (slot_at q.ring i) in
          record q' { totals = record (q'.totals) { confirmed = bump q'.totals.confirmed } }

      told : (i : ℕ) → Hooked true q (confirm_at c q i)
      told i =
          let ahead = advance_head-Hooked false c q _ (silent q (released_at i) on refl refl) in
          after true q _ _ ahead (notify_change-Hooked _ ahead.installed)

  pub service-Told :
      (q : Queue) (tx : ℤ → List ℕ → ℕ → ℤ) (now : ℤ)
      → IsQueue c q
      → q.change_hook ≡ true
      → Told q (service c tx now q).0
  service-Told q tx now v on =
      let law = service_lem c ok_c tx now q v in
      by_outcome (service c tx now q).1 law.0 law.1 (service-Part c tx now q on)
    where
      same_bag :
          IsQueue c (service c tx now q).0
          → SameBag q (service c tx now q).0
          → (service c tx now q).0.change_hook ≡ true
          → (has_change q.events ≡ true → has_change (service c tx now q).0.events ≡ true)
          → Told q (service c tx now q).0
      same_bag v' same on' earlier = record {
        valid = v';
        installed = on';
        earlier = earlier;
        kept = inr same;
      }

      by_outcome :
          (out : Outcome)
          → IsQueue c (service c tx now q).0
          → Keeps c q (service c tx now q).0 (some out)
          → Hooked (is_dropped c (some out)) q (service c tx now q).0
          → Told q (service c tx now q).0
      by_outcome idle v' same h = same_bag v' same h.installed h.earlier
      by_outcome sent v' same h = same_bag v' same h.installed h.earlier
      by_outcome deferred v' same h = same_bag v' same h.installed h.earlier
      by_outcome dropped v' lost h = hooked-Told q _ v' h

  -- A run of the relay is a row of such operations.
  pub queue_after-Told :
      (now : ℤ) (es : List Event) (q : Queue)
      → IsQueue c q
      → q.change_hook ≡ true
      → Told q (queue_after c now q es)
  unfolding queue_after
  queue_after-Told now [] q v on = quiet-Told q q v on refl refl refl
  queue_after-Told now (store_called channel sn timestamp sender body ∷ es) q v on =
      queue_after-Told now es q v on
  queue_after-Told now (remember_called channel sn ∷ es) q v on = queue_after-Told now es q v on
  queue_after-Told now (enqueue_called channel payload rc ∷ es) q v on =
      let one = enqueue-Told q channel payload (length payload) now v on in
      then-Told q _ _ one (queue_after-Told now es _ one.valid one.installed)
