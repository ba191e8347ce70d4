-- ===== src/Queue/Service/Laws.antt =====
-- One pass of `mq_service`: it keeps the invariant, and what its outcome says of the messages.
use tox_relayer.Prelude.{
  get_or-le-total, get_or-set_self, set-set, total-set, ℕ, zero, suc, ◌+◌, ◌-◌, ◌≤◌, ◌<◌, ◌≡◌, refl,
  ap, ◌∙◌, true, ◌&&◌, ◌||◌, Option, none, some, List, arith, if-elim, leb, ◌==◌, length, set,
}
use tox_relayer.Prelude.Int.{ℤ, pos, negsuc, ltb_ℤ, eqb_ℤ, ◌-ℤ◌}
use tox_relayer.Queue.{
  Config, SlotState, free, pending, awaiting_ack, Entry, Queue, Outcome, idle, sent, deferred,
  dropped, bump32, slot_at, is_awaiting, as_one, next_index, advance_head, released, release_slot,
  retire, blank,
}
use tox_relayer.Queue.Bag.{Weight, weight, bytes, bag, SameBag}
use tox_relayer.Queue.Invariant.{
  IsConfig, IsQueue, stored, breaks, set-IsRing, next_index-lt, advance_head-IsQueue,
  notify_change-IsQueue, call_drop-IsQueue, ring-notify_change, ring-advance_head, ring-call_drop,
}
use tox_relayer.Queue.Service.{
  send_fatal, drop_entry, accepted, refused, deliver, expire, visit_in, visit, scan, service,
}

-- One message left the bag, and it was stored in slot `i`.
pub record Lost (c : Config) (q q' : Queue) : Type 0 where
  pub friendnum : ℤ
  pub payload : List ℕ
  pub left : (f : Weight) → bag f q'.ring + f friendnum payload ≡ bag f q.ring

-- What a pass may do to the bag, by its outcome; `none` is a pass that goes on.
abbrev pub Keeps : Config → Queue → Queue → Option Outcome → Type 0
Keeps c q q' none = SameBag q q'
Keeps c q q' (some idle) = SameBag q q'
Keeps c q q' (some sent) = SameBag q q'
Keeps c q q' (some deferred) = SameBag q q'
Keeps c q q' (some dropped) = Lost c q q'

-- The state after a part of a pass: the invariant holds, and the bag is as the outcome says.
pub record Passed (c : Config) (q : Queue) (r : Queue × Option Outcome) : Type 0 where
  pub valid : IsQueue c r.0
  pub kept : Keeps c q r.0 r.1

module _ (c : Config) (ok_c : IsConfig c) where
  -- A message that a pass found in slot `i`.
  module _ (q : Queue) (i : ℕ) (e : Entry) (v : IsQueue c q) (h : i < c.capacity)
      (at : slot_at q.ring i ≡ e) where
    in_ring : i < length q.ring
    in_ring = omega (arith, v.is_ring.slots)

    sound : as_one (breaks c e) ≡ 0
    sound = omega (
      arith,
      get_or-le-total blank (λ e. as_one (breaks c e)) q.ring i in_ring,
      v.is_ring.bounded,
      ap (λ x. as_one (breaks c x)) at,
    )

    -- Writing back the same message, with another budget or time.
    rewrite-SameBag :
        (e' : Entry) (q' : Queue)
        → q'.ring ≡ set q.ring i e'
        → ((f : Weight) → weight f e' ≡ weight f e)
        → SameBag q q'
    rewrite-SameBag e' q' r w f =
        omega (
          arith,
          ap (bag f) r,
          total-set blank (weight f) q.ring i e' in_ring,
          w f,
          ap (weight f) at,
        )

    rewrite-IsQueue :
        (e' : Entry) (q' : Queue)
        → q'.ring ≡ set q.ring i e'
        → q'.count ≡ q.count
        → q'.head ≡ q.head
        → q'.tail ≡ q.tail
        → as_one (stored e') ≡ as_one (stored e)
        → q'.in_flight + as_one (is_awaiting e.state) ≡ q.in_flight + as_one (is_awaiting e'.state)
        → as_one (breaks c e') ≡ 0
        → IsQueue c q'
    rewrite-IsQueue e' q' r n hd tl s k b = record {
      is_ring = rw r (
          set-IsRing c q.ring q.count q.in_flight q'.count q'.in_flight i e' v.is_ring h
            (omega (arith, ap (λ x. as_one (stored x)) at))
            (omega (arith, ap (λ x. as_one (is_awaiting x.state)) at)) b);
      head_in = omega (arith, v.head_in);
      tail_in = omega (arith, v.tail_in);
    }

    -- Retiring the message, whose slot was rewritten before.
    module _ (e' : Entry) (k : ℕ) (was : stored e ≡ true) (waits : e'.state ≡ pending)
        (fly : k + as_one (is_awaiting e.state) ≡ q.in_flight) where
      abbrev rewritten : Queue
      rewritten = record q { in_flight = k; ring = set q.ring i e' }

      release_rewritten-IsQueue : IsQueue c (release_slot rewritten i e')
      unfolding release_slot released
      release_rewritten-IsQueue = record {
        is_ring = rw (set-set q.ring i e' (released e')) (
            set-IsRing c q.ring q.count q.in_flight _ _ i (released e') v.is_ring h
              (ground (
                arith,
                get_or-le-total blank (λ e. as_one (stored e)) q.ring i in_ring,
                v.is_ring.counted,
                ap (λ x. as_one (stored x)) at,
              ))
              (ground (arith, ap (λ x. as_one (is_awaiting x.state)) at)) refl);
        head_in = v.head_in;
        tail_in = v.tail_in;
      }

      retire-rewritten-IsQueue : IsQueue c (retire rewritten i e')
      unfolding retire
      retire-rewritten-IsQueue =
          let r = release_rewritten-IsQueue in
          notify_change-IsQueue c ok_c _ (
            call_drop-IsQueue c ok_c _ e'.friendnum e'.attempts
              (record { is_ring = r.is_ring; head_in = r.head_in; tail_in = r.tail_in }))

      ring-retire-rewritten : (retire rewritten i e').ring ≡ set q.ring i (released e')
      unfolding retire release_slot
      ring-retire-rewritten =
          rw (ring-notify_change c ok_c _, ring-call_drop c ok_c _ e'.friendnum e'.attempts)
            (set-set q.ring i e' (released e'))

      drop-Passed : Passed c q (drop_entry c rewritten i e')
      unfolding drop_entry released
      drop-Passed = record {
        valid = advance_head-IsQueue c ok_c _ retire-rewritten-IsQueue;
        kept = record {
          friendnum = e.friendnum;
          payload = bytes e;
          left = λ f. omega (
            arith,
            ap (bag f) (ring-advance_head c ok_c (retire rewritten i e') ∙ ring-retire-rewritten),
            total-set blank (weight f) q.ring i (released e') in_ring,
            ap (weight f) at,
            held f,
          );
        };
      }
        where
          held : (f : Weight) → weight f e ≡ f e.friendnum (bytes e)
          held f = rw was refl

    -- The message as it stands after an attempt at `now`.
    module _ (now : ℤ) (s : e.state ≡ pending) where
      abbrev tried : Entry
      tried = record e { last_attempt = now; attempted = true }

      accepted-Passed : (rc : ℤ) → Passed c q (accepted c q i tried rc)
      unfolding accepted
      accepted-Passed rc = record {
        valid =
            rewrite-IsQueue flying (accepted c q i tried rc).0 refl refl refl refl (rw s refl)
              (rw s (omega arith)) (ground (arith, sound));
        kept = rewrite-SameBag flying (accepted c q i tried rc).0 refl (λ f. rw s refl);
      }
        where
          flying : Entry
          flying = record tried { receipt = rc; state = awaiting_ack }

      -- The transport did not take the message: it goes on waiting, or its budget is used up.
      refused-Passed : (rc : ℤ) → Passed c q (refused c q i tried rc)
      unfolding refused
      refused-Passed rc =
          if-elim (Passed c q) (eqb_ℤ rc send_fatal || leb c.max_attempts (bump32 e.attempts))
            (λ _. drop-Passed charged q.in_flight (rw s refl) s (rw s (omega arith)))
            (λ g. record {
              valid =
                  rewrite-IsQueue charged waiting refl refl refl refl refl refl
                    (ground (arith, sound));
              kept = rewrite-SameBag charged waiting refl (λ f. refl);
            })
        where
          charged : Entry
          charged = record tried { attempts = bump32 e.attempts }

          waiting : Queue
          waiting = record q { ring = set q.ring i charged }

    deliver-Passed :
        (tx : ℤ → List ℕ → ℕ → ℤ) (now : ℤ)
        → e.state ≡ pending
        → Passed c q (deliver c tx now q i e)
    unfolding deliver
    deliver-Passed tx now s =
        if-elim (Passed c q) (e.attempted && ltb_ℤ (now -ℤ e.last_attempt) (pos c.retry_backoff))
          (λ _. record { valid = v; kept = λ f. refl })
          (λ _.
            if-elim (Passed c q) (ltb_ℤ (tx e.friendnum (bytes e) e.len) (pos 0))
              (λ _. refused-Passed now s (tx e.friendnum (bytes e) e.len))
              (λ _. accepted-Passed now s (tx e.friendnum (bytes e) e.len)))

  -- A part of a pass that starts from the same bag.
  Passed-SameBag :
      (q q' : Queue) (r : Queue × Option Outcome) → SameBag q q' → Passed c q' r → Passed c q r
  Passed-SameBag q q' (q'', none) b p = record { valid = p.valid; kept = λ f. p.kept f ∙ b f }
  Passed-SameBag q q' (q'', some idle) b p = record { valid = p.valid; kept = λ f. p.kept f ∙ b f }
  Passed-SameBag q q' (q'', some sent) b p = record { valid = p.valid; kept = λ f. p.kept f ∙ b f }
  Passed-SameBag q q' (q'', some deferred) b p = record {
    valid = p.valid;
    kept = λ f. p.kept f ∙ b f;
  }
  Passed-SameBag q q' (q'', some dropped) b p = record {
    valid = p.valid;
    kept = record {
      friendnum = p.kept.friendnum;
      payload = p.kept.payload;
      left = λ f. p.kept.left f ∙ b f;
    };
  }

  module _ (tx : ℤ → List ℕ → ℕ → ℤ) (now : ℤ) where
    expire-Passed :
        (q : Queue) (i : ℕ) (e : Entry)
        → IsQueue c q
        → i < c.capacity
        → slot_at q.ring i ≡ e
        → e.state ≡ awaiting_ack
        → Passed c q (expire c tx now q i e)
    unfolding expire
    expire-Passed q i e v h at s =
        if-elim (Passed c q) (leb c.max_attempts (bump32 e.attempts))
          (λ _.
            drop-Passed q i e v h at late (q.in_flight - 1) (rw s refl) refl
              (rw s (omega (arith, one_flies))))
          (λ g.
            Passed-SameBag q again _ (rewrite-SameBag q i e v h at late again refl (λ f. rw s refl))
              (deliver-Passed again i late
                (rewrite-IsQueue q i e v h at late again refl refl refl refl (rw s refl)
                  (rw s (omega (arith, one_flies))) (ground (arith, sound q i e v h at)))
                h (get_or-set_self blank q.ring i late (in_ring q i e v h at)) tx now refl))
      where
        late : Entry
        late = record e { receipt = negsuc 0; state = pending; attempts = bump32 e.attempts }

        again : Queue
        again = record q { in_flight = q.in_flight - 1; ring = set q.ring i late }

        one_flies : 1 ≤ q.in_flight
        one_flies = omega (
          arith,
          get_or-le-total blank (λ e. as_one (is_awaiting e.state)) q.ring i (in_ring q i e v h at),
          v.is_ring.flying,
          ap (λ x. as_one (is_awaiting x.state)) at,
          ap (λ st. as_one (is_awaiting st)) s,
        )

    visit_in-Passed :
        (st : SlotState) (q : Queue) (i : ℕ) (e : Entry)
        → IsQueue c q
        → i < c.capacity
        → slot_at q.ring i ≡ e
        → e.state ≡ st
        → Passed c q (visit_in c tx now st q i e)
    unfolding visit_in
    visit_in-Passed free q i e v h at s = record { valid = v; kept = λ f. refl }
    visit_in-Passed pending q i e v h at s = deliver-Passed q i e v h at tx now s
    visit_in-Passed awaiting_ack q i e v h at s =
        if-elim (Passed c q) (ltb_ℤ (now -ℤ e.last_attempt) (pos c.ack_timeout))
          (λ _. record { valid = v; kept = λ f. refl }) (λ _. expire-Passed q i e v h at s)

    -- One round of the loop keeps the invariant, and does to the bag what its outcome says.
    pub visit-Passed :
        (q : Queue) (i : ℕ) → IsQueue c q → i < c.capacity → Passed c q (visit c tx now q i)
    unfolding visit
    visit-Passed q i v h =
        visit_in-Passed (slot_at q.ring i).state q i (slot_at q.ring i) v h refl refl

    -- The state and outcome of a whole pass, as those of a round that stops.
    abbrev pub stopped : Queue × Outcome → Queue × Option Outcome
    stopped r = (r.0, some r.1)

    scan-Passed :
        (n i : ℕ) (q : Queue)
        → IsQueue c q
        → i < c.capacity
        → Passed c q (stopped (scan c tx now n i q))
    unfolding scan
    scan-Passed zero i q v h = record { valid = v; kept = λ f. refl }
    scan-Passed (suc n) i q v h =
        go (visit c tx now q i) (visit-Passed q i v h)
          (λ q' v'. scan-Passed n (next_index c i) q' v' (next_index-lt c ok_c i))
      where
        go :
            (r : Queue × Option Outcome)
            → Passed c q r
            → ((q' : Queue)
                → IsQueue c q'
                → Passed c q' (stopped (scan c tx now n (next_index c i) q')))
            → Passed c q (
                stopped
                  (elim r.1 [ none ↦ scan c tx now n (next_index c i) r.0 | some o ↦ (r.0, o) ]))
        go (q', none) p rest = Passed-SameBag q q' _ p.kept (rest q' p.valid)
        go (q', some o) p rest = p

    -- A pass keeps the invariant. Unless it reports a drop, it leaves the bag of messages as it was;
    -- when it does, exactly one message left the bag.
    pub service_lem :
        (q : Queue)
        → IsQueue c q
        → let (q', outcome) = service c tx now q in IsQueue c q' × Keeps c q q' (some outcome)
    unfolding service
    service_lem q v = let p = whole in (p.valid, p.kept)
      where
        ahead : Queue
        ahead = advance_head c q

        whole : Passed c q (stopped (service c tx now q))
        whole =
            if-elim (λ r. Passed c q (stopped r)) (q.count == 0)
              (λ _. record { valid = v; kept = λ f. refl })
              (λ _.
                let w = advance_head-IsQueue c ok_c q v in
                Passed-SameBag q ahead (stopped (scan c tx now c.capacity ahead.head ahead))
                  (λ f. ap (bag f) (ring-advance_head c ok_c q))
                  (scan-Passed c.capacity ahead.head ahead w w.head_in))
