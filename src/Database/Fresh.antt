-- ===== src/Database/Fresh.antt =====
-- A record that is stored under a serial that its channel has not used yet, and a request for it.
use tox_relayer.Prelude.{
  ℕ, suc, ◌≡◌, ◌≢◌, refl, Bool, true, false, ◌&&◌, Option, none, some, List, [], ◌∷◌, arith,
  if-elim,
}
use tox_relayer.Prelude.Int.{ℤ, pos, ltb_ℤ, leb_ℤ, eqb_ℤ}
use tox_relayer.Database.{
  Row, Database, Sqlite, of_channel, in_serials, select_range, sn_in_table, read_rows, replay_entry,
  insert_or_replace, new_row, msg_database_add, msg_database_range,
}

-- No row of the channel has the serial.
abbrev pub Unused : ℤ → List ℕ → ℕ → List Row → Type 0
Unused friend_num direction sn [] = Unit {0}
Unused friend_num direction sn (r ∷ rs) =
    (of_channel friend_num direction r ≡ true → r.msg_sn ≢ sn) × Unused friend_num direction sn rs

only_itself :
    (sn m : ℕ) (mine : Bool) → (mine ≡ true → m ≢ sn) → (mine && in_serials sn sn m) ≡ false
unfolding in_serials
only_itself sn m false h = refl
only_itself sn m true h = ground (arith, h refl)

pub itself : (sn : ℕ) → in_serials sn sn sn ≡ true
unfolding in_serials
itself sn = ground arith

module _ (friend_num : ℤ) (direction : List ℕ) (sn : ℕ) where
  abbrev selected : List Row → List Row
  selected rs = select_range friend_num direction sn sn rs

  select_range-Unused : (rs : List Row) → Unused friend_num direction sn rs → selected rs ≡ []
  unfolding select_range
  select_range-Unused [] h = refl
  select_range-Unused (r ∷ rs) (other, h) =
      rw (only_itself sn r.msg_sn (of_channel friend_num direction r) other)
        (select_range-Unused rs h)

  pub select_range-insert_or_replace :
      (r : Row) (rs : List Row)
      → (of_channel friend_num direction r && in_serials sn sn r.msg_sn) ≡ true
      → Unused friend_num direction sn rs
      → selected (insert_or_replace r rs) ≡ r ∷ []
  unfolding insert_or_replace select_range
  select_range-insert_or_replace r [] mine h = rw mine refl
  select_range-insert_or_replace r (x ∷ xs) mine (other, h) =
      let rest = select_range-insert_or_replace r xs mine h in
      let skipped = only_itself sn x.msg_sn (of_channel friend_num direction x) other in
      if-elim (λ rows. selected rows ≡ r ∷ []) (ltb_ℤ r.utc_datetime x.utc_datetime)
        (λ _. rw (mine, skipped, select_range-Unused xs h) refl)
        (λ _.
          if-elim (λ rows. selected rows ≡ r ∷ []) (eqb_ℤ r.utc_datetime x.utc_datetime)
            (λ _. rw (mine, select_range-Unused xs h) refl) (λ _. rw skipped rest))

-- The rows after a record was stored.
pub rows-msg_database_add :
    (s : Sqlite) (friend_num sn datetime : ℤ) (sender : Option (List ℕ)) (direction : List ℕ)
    (chat_msg : Option (List ℕ)) (db : Database)
    → db.ready ≡ true
    → s.bound ≡ true
    → s.failing_step ≡ none
    → ltb_ℤ friend_num (pos 0) ≡ false
    → let db' = (msg_database_add s friend_num sn datetime sender (some direction) chat_msg db).0 in
      (db'.ready ≡ true)
      × (db'.rows
          ≡ insert_or_replace (new_row friend_num sn datetime sender direction chat_msg) db.rows)
unfolding msg_database_add
rows-msg_database_add s friend_num sn datetime sender direction chat_msg db ready bound steps
      friend =
    simp (ready, bound, steps, friend) (refl, refl)

-- A request for one serial that one row of the channel has.
pub msg_database_range-one :
    (s : Sqlite) (friend_num : ℤ) (direction : List ℕ) (sn room : ℕ) (r : Row) (db : Database)
    → db.ready ≡ true
    → s.prepared ≡ true
    → s.bound ≡ true
    → s.failing_step ≡ none
    → ltb_ℤ friend_num (pos 0) ≡ false
    → sn_in_table (pos sn) ≡ true
    → select_range friend_num direction sn sn db.rows ≡ r ∷ []
    → msg_database_range s friend_num (some direction) (pos sn) (pos sn) (pos (suc (suc room))) db
      ≡ (replay_entry r ∷ [], pos 1)
unfolding msg_database_range read_rows
msg_database_range-one s friend_num direction sn room r db ready prepared bound steps friend valid
      one =
    simp (steps, one) (simp (ready, prepared, bound, some_room, friend, valid) refl)
  where
    some_room : leb_ℤ (pos (suc (suc room))) (pos 0) ≡ false
    some_room = ground arith
