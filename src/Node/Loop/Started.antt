-- ===== src/Node/Loop/Started.antt =====
-- The queue as main of src/toxrelayer.c begins its loop with it: what was saved is read back, and the
-- rest of the start leaves it alone.
use tox_relayer.Prelude.{
  ℕ, zero, suc, ◌+◌, ◌≡◌, refl, inl, inr, Bool, true, not, ◌||◌, Option, none, some, List, [], ◌∷◌,
  take, drop, length, ltb, ◌==◌, if-elim, Option-cases,
}
use tox_relayer.Prelude.Int.{ℤ}
use tox_relayer.Text.{str_eq}
use tox_relayer.Queue.{
  Config, Queue, Status, ok, err_range, err_full, err_notfound, init, set_drop_hook,
  set_change_hook, enqueue,
}
use tox_relayer.Queue.Invariant.{IsConfig, IsQueue, init-IsQueue}
use tox_relayer.Database.{msg_database_open}
use tox_relayer.Node.Contacts.{get_relay_name_list}
use tox_relayer.Persist.{
  Files, LoadIo, le_get_i32, le_get_u32, behind, validate_records, import_records, load_bytes, load,
  read_all, err_format, err_noroom, header_size, magic, version, record_head,
}
use tox_relayer.Node.{Node, with_queue, act}
use tox_relayer.Node.Rooms.{load_one, load_loop, load_conferences}
use tox_relayer.Node.Loop.{
  Start, start_queue, start_relay, reset_chat_tx, start, init_toxrelayer_state,
}
use tox_relayer.Node.Loop.Beside.{Beside, Beside-trans, adopt-Beside, get_relay_name_list-Beside}
use tox_relayer.Node.Loop.Told.{Told, enqueue-Told, quiet-Told, then-Told}

load_one-Beside :
    (kind : ℕ → Option ℕ) (groupnumber : ℕ) (n : Node) → Beside n (load_one kind groupnumber n)
unfolding load_one act
load_one-Beside kind groupnumber n = elim (Option-cases (kind groupnumber)) [
  | inl e ↦ rw (e, load_one) (record { queue = refl; flag = refl })
  | inr (type, e) ↦ rw (e, load_one) (adopt-Beside groupnumber type n)
]

load_loop-Beside :
    (kind : ℕ → Option ℕ) (chats : List ℕ) (n : Node) → Beside n (load_loop kind chats n)
unfolding load_loop
load_loop-Beside kind [] n = record { queue = refl; flag = refl }
load_loop-Beside kind (groupnumber ∷ chats) n =
    Beside-trans n (load_one kind groupnumber n) _ (load_one-Beside kind groupnumber n)
      (load_loop-Beside kind chats _)

load_conferences-Beside :
    (allocated : Bool) (kind : ℕ → Option ℕ) (chats : List ℕ) (n : Node)
    → Beside n (load_conferences allocated kind chats n)
unfolding load_conferences
load_conferences-Beside allocated kind chats n =
    if-elim (Beside n) (length chats == 0) (λ _. record { queue = refl; flag = refl })
      (λ _.
        if-elim (Beside n) (not allocated) (λ _. record { queue = refl; flag = refl })
          (λ _. load_loop-Beside kind chats n))

reset_chat_tx-Beside : (i : ℕ) (now : ℤ) (n : Node) → Beside n (reset_chat_tx i now n)
unfolding reset_chat_tx
reset_chat_tx-Beside zero now n = record { queue = refl; flag = refl }
reset_chat_tx-Beside (suc i) now n =
    let kept = reset_chat_tx-Beside i now n in record { queue = kept.queue; flag = kept.flag }

module _ (c : Config) (ok_c : IsConfig c) where
  import_records-Told :
      (n : ℕ) (buf : List ℕ) (loaded : ℕ) (now : ℤ) (q : Queue)
      → IsQueue c q
      → q.change_hook ≡ true
      → Told c ok_c q (import_records c n buf loaded now q).0
  unfolding import_records
  import_records-Told zero buf loaded now q v on = quiet-Told c ok_c q q v on refl refl refl
  import_records-Told (suc n) buf loaded now q v on =
      go (enqueue c q (le_get_i32 buf) (some (drop record_head buf)) (le_get_u32 (drop 4 buf)) now)
        (enqueue-Told c ok_c q (le_get_i32 buf) (drop record_head buf) (le_get_u32 (drop 4 buf)) now
          v on)
        (λ q' v' on'. import_records-Told n (behind buf) (loaded + 1) now q' v' on')
    where
      go :
          (r : Queue × Status)
          → Told c ok_c q r.0
          → ((q' : Queue)
              → IsQueue c q'
              → q'.change_hook ≡ true
              → Told c ok_c q' (import_records c n (behind buf) (loaded + 1) now q').0)
          → Told c ok_c q
              (elim r.1 as (λ _. Queue × ℤ) [
                | ok ↦ import_records c n (behind buf) (loaded + 1) now r.0
                | err_full ↦ (r.0, err_noroom)
                | err_range ↦ (r.0, err_format)
                | err_notfound ↦ (r.0, err_format)
              ]).0
      go (q', ok) one more = then-Told c ok_c q q' _ one (more q' one.valid one.installed)
      go (q', err_full) one more = one
      go (q', err_range) one more = one
      go (q', err_notfound) one more = one

  load-Told :
      (io : LoadIo) (files : Files) (path : List ℕ) (now : ℤ) (q : Queue)
      → IsQueue c q
      → q.change_hook ≡ true
      → Told c ok_c q (load c io files (some path) now q).0
  unfolding load load_bytes
  load-Told io files path now q v on =
      if-elim P (length path == 0) (λ _. quiet) (λ _. go (read_all io (files path)))
    where
      P : Queue × ℤ → Type 0
      P r = Told c ok_c q r.0

      quiet : Told c ok_c q q
      quiet = quiet-Told c ok_c q q v on refl refl refl

      go :
          (r : Option (List ℕ) × ℤ)
          → P (elim r.0 as (λ _. Queue × ℤ) [
            | none ↦ (q, r.1)
            | some bytes ↦ load_bytes c bytes now q
          ])
      go (none, rc) = quiet
      go (some buf, rc) =
          if-elim P (not (str_eq (take 8 buf) magic) || not (le_get_u32 (drop 8 buf) == version))
            (λ _. quiet)
            (λ _.
              if-elim P
                (ltb c.capacity (le_get_u32 (drop 12 buf))
                  || not (validate_records c (le_get_u32 (drop 12 buf)) (drop header_size buf)))
                (λ _. quiet)
                (λ _.
                  import_records-Told (le_get_u32 (drop 12 buf)) (drop header_size buf) 0 now q v
                    on))

  -- The queue is well formed, and its change hook is installed.
  pub record Ready (n : Node) : Type 0 where
    pub valid : IsQueue c n.queue
    pub installed : n.queue.change_hook ≡ true

  Ready-moved : (n n' : Node) → Beside n n' → Ready n → Ready n'
  Ready-moved n n' b v = record {
    valid = rw (b.queue) v.valid;
    installed = rw (b.queue) v.installed;
  }

  start_queue-Ready :
      (s : Start) (now : ℤ) (files : Files) (n : Node) → Ready (start_queue c s now files n)
  unfolding start_queue with_queue set_change_hook set_drop_hook
  start_queue-Ready s now files n =
      let v = init-IsQueue c ok_c in
      let hooked : Queue = set_change_hook (set_drop_hook (init c) true) true in
      let t =
        load-Told s.load_io files _ now hooked
          (record { is_ring = v.is_ring; head_in = v.head_in; tail_in = v.tail_in }) refl in
      record {
        valid = record {
          is_ring = t.valid.is_ring;
          head_in = t.valid.head_in;
          tail_in = t.valid.tail_in;
        };
        installed = t.installed;
      }

  pub start-Ready : (s : Start) (now : ℤ) (files : Files) (n : Node) → Ready (start c s now files n)
  unfolding start start_relay init_toxrelayer_state
  start-Ready s now files n =
      let n₁ = start_queue c s now files n in
      let n₂ : Node = record n₁ { db = (msg_database_open s.sqlite n₁.db).0 } in
      let n₂' = init_toxrelayer_state now n₂ in
      let n₃ = load_conferences s.allocated s.conference_type s.chatlist n₂' in
      let n₃' : Node = record n₃ { max_friend = s.directory.numfriends } in
      let n₄ = get_relay_name_list s.directory n₃' in
      let n₅ = start_relay c s now n₄ in
      let n₆ : Node = record n₅ { kept_receipt = 0 } in
      let v₂ =
        Ready-moved n₁ n₂' (record { queue = refl; flag = refl })
          (start_queue-Ready s now files n) in
      let v₃ =
        Ready-moved n₂' n₃ (load_conferences-Beside s.allocated s.conference_type s.chatlist n₂')
          v₂ in
      let v₃' = Ready-moved n₃ n₃' (record { queue = refl; flag = refl }) v₃ in
      let v₄ = Ready-moved n₃' n₄ (get_relay_name_list-Beside s.directory n₃') v₃' in
      let v₆ = Ready-moved n₄ n₆ (record { queue = refl; flag = refl }) v₄ in
      Ready-moved n₆ _ (reset_chat_tx-Beside n₅.max_friend now n₆) v₆
