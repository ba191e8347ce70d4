-- ===== src/Database/Replay.antt =====
-- What a replay request gets from the store: the records whose serials lie on the way from one serial
-- to the other, as the telegram module counts.
use tox_relayer.Prelude.{
  ℕ, zero, suc, ◌+◌, ◌-◌, ◌%◌, ◌≤◌, ◌<◌, ◌≡◌, refl, Bool, true, false, ◌&&◌, none, some, List, [],
  ◌∷◌, map, if◌then◌else◌, leb, length, arith,
}
use tox_relayer.Prelude.Int.{ℤ, pos, leb_ℤ, ltb_ℤ}
use tox_relayer.Telegram.Serial.{sn_distance}
use tox_relayer.Telegram.Serial.Laws.{sn_distance_lem}
use tox_relayer.Database.{
  Row, Database, Sqlite, of_channel, in_serials, select_range, sn_in_table, read_rows, replay_entry,
  msg_database_range,
}

-- A serial that is stored: one of the telegram module.
abbrev pub IsSerial : ℕ → Type 0
IsSerial sn = (1 ≤ sn) × (sn ≤ 999)

-- A serial on the way from `from` to `to`.
abbrev pub on_the_way : ℕ → ℕ → ℕ → Bool
on_the_way from to sn = leb_ℤ (sn_distance (pos from) (pos sn)) (sn_distance (pos from) (pos to))

ring-between :
    (from to sn : ℕ)
    → IsSerial from
    → IsSerial to
    → IsSerial sn
    → leb ((sn + 999 - from) % 999) ((to + 999 - from) % 999) ≡ in_serials from to sn
unfolding in_serials
ring-between from to sn f t s = ground (arith, f, t, s)

on_the_way-in_serials :
    (from to sn : ℕ)
    → IsSerial from
    → IsSerial to
    → IsSerial sn
    → on_the_way from to sn ≡ in_serials from to sn
on_the_way-in_serials from to sn f t s =
    rw (sn_distance_lem from sn f.0 f.1 s.0 s.1, sn_distance_lem from to f.0 f.1 t.0 t.1)
      (ground (arith, ring-between from to sn f t s))

-- The rows of a channel on the way from one serial to another, in the order of the table.
abbrev pub rows_on_the_way : ℤ → List ℕ → ℕ → ℕ → List Row → List Row
rows_on_the_way friend_num direction from to [] = []
rows_on_the_way friend_num direction from to (r ∷ rs) =
    let rest = rows_on_the_way friend_num direction from to rs in
    if of_channel friend_num direction r && on_the_way from to r.msg_sn then r ∷ rest else rest

-- Every row of the channel has a serial of the telegram module; the others may have any.
abbrev pub AllSerials : ℤ → List ℕ → List Row → Type 0
AllSerials friend_num direction [] = Unit {0}
AllSerials friend_num direction (r ∷ rs) =
    (of_channel friend_num direction r ≡ true → IsSerial r.msg_sn)
    × AllSerials friend_num direction rs

on_the_way-of_channel :
    (from to sn : ℕ) (mine : Bool)
    → IsSerial from
    → IsSerial to
    → (mine ≡ true → IsSerial sn)
    → (mine && on_the_way from to sn) ≡ (mine && in_serials from to sn)
on_the_way-of_channel from to sn false f t h = refl
on_the_way-of_channel from to sn true f t h = on_the_way-in_serials from to sn f t (h refl)

select_range-rows :
    (friend_num : ℤ) (direction : List ℕ) (from to : ℕ) (rs : List Row)
    → IsSerial from
    → IsSerial to
    → AllSerials friend_num direction rs
    → select_range friend_num direction from to rs ≡ rows_on_the_way friend_num direction from to rs
unfolding select_range
select_range-rows friend_num direction from to [] f t a = refl
select_range-rows friend_num direction from to (r ∷ rs) f t a =
    rw
      (
        select_range-rows friend_num direction from to rs f t a.1,
        on_the_way-of_channel from to r.msg_sn (of_channel friend_num direction r) f t a.0,
      )
      refl

read_rows-all : (room : ℕ) (rs : List Row) → length rs ≤ room → read_rows room none rs ≡ (rs, false)
unfolding read_rows
read_rows-all zero [] h = refl
read_rows-all zero (r ∷ rs) h = absurd (omega arith)
read_rows-all (suc room) [] h = refl
read_rows-all (suc room) (r ∷ rs) h = rw (read_rows-all room rs (omega arith)) refl

-- When the calls of SQLite succeed and the caller has room, a replay request for two serials from 1 to
-- 999 gets exactly the records of the channel whose serials are met on the way from the first to the
-- second, round the end of the numbers too, each as it is stored but for the cut to its buffers, oldest
-- first, and their number: every record of the channel having a serial from 1 to 999, while records
-- of other channels may have any.
pub msg_database_range_lem :
    (s : Sqlite) (friend_num : ℤ) (direction : List ℕ) (from to max : ℕ) (db : Database)
    → db.ready ≡ true
    → s.prepared ≡ true
    → s.bound ≡ true
    → s.failing_step ≡ none
    → ltb_ℤ friend_num (pos 0) ≡ false
    → IsSerial from
    → IsSerial to
    → AllSerials friend_num direction db.rows
    → 0 < max
    → length (rows_on_the_way friend_num direction from to db.rows) ≤ max
    → let rows = rows_on_the_way friend_num direction from to db.rows in
      msg_database_range s friend_num (some direction) (pos from) (pos to) (pos max) db
      ≡ (map replay_entry rows, pos (length rows))
unfolding msg_database_range
msg_database_range_lem s friend_num direction from to max db ready prepared bound steps friend f t a
      room fits =
    let rows = rows_on_the_way friend_num direction from to db.rows in
    simp
      (
        steps,
        select_range-rows friend_num direction from to db.rows f t a,
        read_rows-all max rows fits,
      )
      (simp (ready, prepared, bound, some_room, friend, valid from f, valid to t) refl)
  where
    some_room : leb_ℤ (pos max) (pos 0) ≡ false
    some_room = ground (arith, room)

    valid : (n : ℕ) → IsSerial n → sn_in_table (pos n) ≡ true
    valid n h = ground (arith, h)
