-- ===== src/Node/Loop/Changes.antt =====
-- Which operations of the queue call its change hook: all that change the bag of messages.
use tox_relayer.Prelude.{
  ℕ, zero, suc, ◌≡◌, refl, ◌∙◌, Bool, true, false, ◌&&◌, ◌||◌, Option, none, some, List, [], ◌∷◌,
  ◌++◌, arith, leb, ◌==◌, take, set, if-elim,
}
use tox_relayer.Prelude.Int.{ℤ, pos, ltb_ℤ, eqb_ℤ, ◌-ℤ◌}
use tox_relayer.Queue.{
  Config, SlotState, free, pending, awaiting_ack, Entry, Event, drop_called, change_called, Queue,
  Outcome, idle, sent, deferred, dropped, bump, bump32, next_index, slot_at, notify_change,
  advance_head, retire, call_drop, release_slot,
}
use tox_relayer.Queue.Service.{
  send_fatal, drop_entry, accepted, refused, deliver, expire, visit_in, visit, scan, service,
}
use tox_relayer.Node.{has_change}

-- The hook is installed, earlier calls of it are kept, and it was called where `told` says so.
pub record Hooked (told : Bool) (q q' : Queue) : Type 0 where
  pub installed : q'.change_hook ≡ true
  pub earlier : has_change q.events ≡ true → has_change q'.events ≡ true
  pub called : told ≡ true → has_change q'.events ≡ true

has_change-append : (es fs : List Event) → has_change (es ++ fs) ≡ has_change es || has_change fs
unfolding has_change
has_change-append [] fs = refl
has_change-append (drop_called friendnum attempts ∷ es) fs = has_change-append es fs
has_change-append (change_called ∷ es) fs = refl

-- Something that leaves the hook and the calls alone.
pub silent :
    (q q' : Queue)
    → q.change_hook ≡ true
    → q'.change_hook ≡ q.change_hook
    → q'.events ≡ q.events
    → Hooked false q q'
silent q q' on e f = record {
  installed = e ∙ on;
  earlier = λ h. rw f h;
  called = λ h. absurd (ground (arith, h));
}

pub after :
    (told : Bool) (q q' q'' : Queue) → Hooked false q q' → Hooked told q' q'' → Hooked told q q''
after told q q' q'' a b = record {
  installed = b.installed;
  earlier = λ h. b.earlier (a.earlier h);
  called = b.called;
}

pub notify_change-Hooked : (q : Queue) → q.change_hook ≡ true → Hooked true q (notify_change q)
unfolding notify_change has_change
notify_change-Hooked q on = rw on (record {
  installed = refl;
  earlier = λ h. ground (arith, h, has_change-append q.events (change_called ∷ []));
  called = λ _. ground (arith, has_change-append q.events (change_called ∷ []));
})

call_drop-Hooked :
    (q : Queue) (friendnum : ℤ) (attempts : ℕ)
    → q.change_hook ≡ true
    → Hooked false q (call_drop q friendnum attempts)
unfolding call_drop has_change
call_drop-Hooked q friendnum attempts on =
    if-elim (Hooked false q) q.drop_hook
      (λ _. record {
        installed = on;
        earlier = λ h. has_change-append q.events (drop_called friendnum attempts ∷ []) ∙ rw h refl;
        called = λ h. absurd (ground (arith, h));
      })
      (λ _. silent q q on refl refl)

pub advance_head-Hooked :
    (told : Bool) (c : Config) (q q' : Queue) → Hooked told q q' → Hooked told q (advance_head c q')
unfolding advance_head
advance_head-Hooked told c q q' h =
    if-elim (Hooked told q) (q'.count == 0)
      (λ _. record { installed = h.installed; earlier = h.earlier; called = h.called })
      (λ _. record { installed = h.installed; earlier = h.earlier; called = h.called })

retire-Hooked :
    (q : Queue) (i : ℕ) (e : Entry) → q.change_hook ≡ true → Hooked true q (retire q i e)
unfolding retire release_slot
retire-Hooked q i e on =
    let released = record (release_slot q i e) {
      totals = record ((release_slot q i e).totals) {
        dropped = bump (release_slot q i e).totals.dropped;
      };
    } in
    let told = call_drop-Hooked released e.friendnum e.attempts on in
    after true q released _ (silent q released on refl refl)
      (after true released _ _ told (notify_change-Hooked _ told.installed))

module _ (c : Config) where
  -- What a part of a pass did: a drop was told to the hook.
  abbrev pub is_dropped : Option Outcome → Bool
  is_dropped none = false
  is_dropped (some idle) = false
  is_dropped (some sent) = false
  is_dropped (some deferred) = false
  is_dropped (some dropped) = true

  abbrev pub Part : Queue → Queue × Option Outcome → Type 0
  Part q r = Hooked (is_dropped r.1) q r.0

  -- A rewritten queue has the hook and the calls of the old one.
  abbrev Alike : Queue → Queue → Type 0
  Alike q q' = (q'.change_hook ≡ q.change_hook) × (q'.events ≡ q.events)

  drop_entry-Part :
      (q q' : Queue) (i : ℕ) (e : Entry)
      → q.change_hook ≡ true
      → Alike q q'
      → Part q (drop_entry c q' i e)
  unfolding drop_entry
  drop_entry-Part q q' i e on (h, f) =
      advance_head-Hooked true c q _
        (after true q q' _ (silent q q' on h f) (retire-Hooked q' i e (h ∙ on)))

  refused-Part :
      (q q' : Queue) (i : ℕ) (e : Entry) (rc : ℤ)
      → q.change_hook ≡ true
      → Alike q q'
      → Part q (refused c q' i e rc)
  unfolding refused
  refused-Part q q' i e rc on (h, f) =
      let e' = record e { attempts = bump32 e.attempts } in
      if-elim (Part q) (eqb_ℤ rc send_fatal || leb c.max_attempts e'.attempts)
        (λ _. drop_entry-Part q (record q' { ring = set q'.ring i e' }) i e' on (h, f))
        (λ _. silent q _ on h f)

  module _ (tx : ℤ → List ℕ → ℕ → ℤ) (now : ℤ) where
    deliver-Part :
        (q q' : Queue) (i : ℕ) (e : Entry)
        → q.change_hook ≡ true
        → Alike q q'
        → Part q (deliver c tx now q' i e)
    unfolding deliver accepted
    deliver-Part q q' i e on (h, f) =
        if-elim (Part q) (e.attempted && ltb_ℤ (now -ℤ e.last_attempt) (pos c.retry_backoff))
          (λ _. silent q q' on h f)
          (λ _.
            if-elim (Part q) (ltb_ℤ (tx e.friendnum (take e.len e.payload) e.len) (pos 0))
              (λ _. refused-Part q q' i _ _ on (h, f)) (λ _. silent q _ on h f))

    visit-Part : (q : Queue) (i : ℕ) → q.change_hook ≡ true → Part q (visit c tx now q i)
    unfolding visit visit_in expire
    visit-Part q i on = in_state (slot_at q.ring i).state
      where
        e : Entry
        e = slot_at q.ring i

        in_state : (st : SlotState) → Part q (visit_in c tx now st q i e)
        in_state free = silent q q on refl refl
        in_state pending = deliver-Part q q i e on (refl, refl)
        in_state awaiting_ack =
            if-elim (Part q) (ltb_ℤ (now -ℤ e.last_attempt) (pos c.ack_timeout))
              (λ _. silent q q on refl refl)
              (λ _.
                if-elim (Part q) (leb c.max_attempts (bump32 e.attempts))
                  (λ _. drop_entry-Part q _ i _ on (refl, refl))
                  (λ _. deliver-Part q _ i _ on (refl, refl)))

    scan-Part :
        (rounds i : ℕ) (q : Queue)
        → q.change_hook ≡ true
        → let (q', out) = scan c tx now rounds i q in Part q (q', some out)
    unfolding scan
    scan-Part zero i q on = silent q q on refl refl
    scan-Part (suc rounds) i q on = go (visit c tx now q i) (visit-Part q i on) (scan-Part rounds _)
      where
        go :
            (r : Queue × Option Outcome)
            → Part q r
            → ((q' : Queue)
                → q'.change_hook ≡ true
                → let (q'', out) = scan c tx now rounds (next_index c i) q' in
                  Part q' (q'', some out))
            → let (q', out) = elim r.1 as (λ _. Queue × Outcome) [
              | none ↦ scan c tx now rounds (next_index c i) r.0
              | some o ↦ (r.0, o)
            ] in
              Part q (q', some out)
        go (q', none) p rest = after _ q q' _ p (rest q' p.installed)
        go (q', some o) p rest = p

    pub service-Part :
        (q : Queue)
        → q.change_hook ≡ true
        → let (q', out) = service c tx now q in Part q (q', some out)
    unfolding service
    service-Part q on =
        if-elim (λ (r : Queue × Outcome). Part q (r.0, some r.1)) (q.count == 0)
          (λ _. silent q q on refl refl)
          (λ _.
            let ahead = advance_head-Hooked false c q q (silent q q on refl refl) in
            after _ q (advance_head c q) _ ahead (scan-Part _ _ _ ahead.installed))
