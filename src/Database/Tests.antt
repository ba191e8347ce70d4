-- ===== src/Database/Tests.antt =====
-- A store with three records, and the theorems applied there.
use tox_relayer.Prelude.{ℕ, ◌≡◌, refl, true, some, none, [], arith, length, map, if◌then◌else◌}
use tox_relayer.Prelude.Int.{ℤ, pos, eqb_ℤ}
use tox_relayer.Text.{codes, str_eq}
use tox_relayer.Telegram.Serial.{sn_distance}
use tox_relayer.Database.{
  Database, Sqlite, msg_db_ok, msg_database_open, msg_database_add, msg_database_range,
  msg_database_last_sn, insert_or_replace, new_row, clamp_sn, max_sn, replay_entry,
}
use tox_relayer.Database.Store.{row_at, msg_database_add_lem}
use tox_relayer.Database.Replay.{rows_on_the_way, msg_database_range_lem}

-- SQLite without errors.
abbrev sqlite : Sqlite
sqlite = record { opened = true; schema = true; prepared = true; bound = true; failing_step = none }

abbrev empty : Database
empty = (msg_database_open sqlite (record { ready = true; rows = [] })).0

abbrev stored : ℕ → ℕ → Database → Database
stored sn time db =
    (msg_database_add sqlite (pos 5) (pos sn) (pos time) (some (codes "me"))
      (some (codes "outgoing")) (some (codes "hi")) db).0

-- The serials 998, 999 and 1.
abbrev three : Database
three = stored 1 102 (stored 999 101 (stored 998 100 empty))

msg_database_range_lem_example :
    let rows = rows_on_the_way (pos 5) (codes "outgoing") 999 1 three.rows in
    msg_database_range sqlite (pos 5) (some (codes "outgoing")) (pos 999) (pos 1) (pos 10) three
    ≡ (map replay_entry rows, pos (length rows))
unfolding msg_database_open msg_database_add insert_or_replace new_row clamp_sn sn_distance str_eq
msg_database_range_lem_example =
    msg_database_range_lem sqlite (pos 5) (codes "outgoing") 999 1 10 three refl refl refl refl refl
      (omega arith, omega arith) (omega arith, omega arith)
      (
        (λ _. (omega arith, omega arith)),
        ((λ _. (omega arith, omega arith)), ((λ _. (omega arith, omega arith)), tt)),
      )
      (omega arith) (omega arith)

msg_database_add_lem_example :
    let (db', code) =
      msg_database_add sqlite (pos 6) (pos 7) (pos 101) none (some (codes "incoming")) none three in
    (code ≡ msg_db_ok)
    × (db'.ready ≡ true)
    × ((t : ℤ)
        → row_at t db'.rows ≡ (
            if eqb_ℤ t (pos 101)
            then some (new_row (pos 6) (pos 7) (pos 101) none (codes "incoming") none)
            else row_at t three.rows))
unfolding msg_database_open msg_database_add
msg_database_add_lem_example =
    msg_database_add_lem sqlite (pos 6) (pos 7) (pos 101) none (codes "incoming") none three refl
      refl refl refl

-- Two records of one second: only the later one is left.
overwritten : length (stored 2 100 (stored 1 100 empty)).rows ≡ 1
unfolding msg_database_open msg_database_add insert_or_replace new_row
overwritten = refl

-- After the numbers have gone round the highest serial is not the last one.
not_the_last :
    msg_database_last_sn sqlite (pos 5) (some (codes "outgoing")) three ≡ (some 999, msg_db_ok)
unfolding msg_database_last_sn max_sn msg_database_open msg_database_add insert_or_replace new_row
    clamp_sn str_eq
not_the_last = refl
