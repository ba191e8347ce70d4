-- ===== src/Database.antt =====
-- The message store of src/msg_database.h and src/msg_database.c. The table is the list of its rows in
-- the order of the primary key, the time. The SQL statements of the source are functions on it, as
-- SQLite documents INSERT OR REPLACE, WHERE, ORDER BY, LIMIT and MAX; which calls of SQLite succeed is
-- a parameter.
pub mod Replay
pub mod Store
pub mod Fresh
mod Tests
use tox_relayer.Prelude.{
  ℕ, zero, suc, ◌+◌, ◌-◌, Bool, true, false, not, ◌&&◌, ◌||◌, Option, none, some, List, [], ◌∷◌,
  ◌++◌, map, if◌then◌else◌, ltb, leb, ◌==◌, length, take,
}
use tox_relayer.Prelude.Int.{ℤ, pos, negsuc, pos_part, ltb_ℤ, leb_ℤ, eqb_ℤ}
use tox_relayer.Text.{str_eq}

-- The codes MSG_DB_OK and MSG_DB_ERR_...
abbrev pub msg_db_ok : ℤ
msg_db_ok = pos 0

abbrev pub msg_db_err_not_ready : ℤ
msg_db_err_not_ready = negsuc 0

abbrev pub msg_db_err_open : ℤ
msg_db_err_open = negsuc 1

abbrev pub msg_db_err_schema : ℤ
msg_db_err_schema = negsuc 2

abbrev pub msg_db_err_prepare : ℤ
msg_db_err_prepare = negsuc 3

abbrev pub msg_db_err_bind : ℤ
msg_db_err_bind = negsuc 4

abbrev pub msg_db_err_step : ℤ
msg_db_err_step = negsuc 5

abbrev pub msg_db_err_range : ℤ
msg_db_err_range = negsuc 6

abbrev pub msg_db_sender_max : ℕ
msg_db_sender_max = 128

abbrev pub msg_db_message_max : ℕ
msg_db_message_max = 1024

abbrev pub msg_db_sn_min : ℕ
msg_db_sn_min = 0

abbrev pub msg_db_sn_max : ℕ
msg_db_sn_max = 999

-- A row of the table.
pub record Row : Type 0 where
  pub utc_datetime : ℤ
  pub msg_sender : List ℕ
  pub msg_sn : ℕ
  pub friend_num : ℤ
  pub send_receive : List ℕ
  pub chat_message : List ℕ

-- `struct CHAT_MSG_RECORD`, and `struct CHAT_MSG` without its first two fields.
pub record ChatMsgRecord : Type 0 where
  pub msg_sn : ℕ
  pub datetime : ℤ
  pub sender : List ℕ
  pub message : List ℕ

pub record ChatMsg : Type 0 where
  pub sender : List ℕ
  pub message : List ℕ

-- `g_ready`, with which the statements are there, and the rows.
pub record Database : Type 0 where
  pub ready : Bool
  pub rows : List Row

-- Which calls of SQLite succeed. `failing_step` is the number of rows that are read before
-- `sqlite3_step` fails.
pub record Sqlite : Type 0 where
  pub opened : Bool
  pub schema : Bool
  pub prepared : Bool
  pub bound : Bool
  pub failing_step : Option ℕ

-- What `copy_bounded` leaves in a buffer of that size.
unfoldable pub copy_bounded : ℕ → Option (List ℕ) → List ℕ
copy_bounded size none = []
copy_bounded size (some src) = take (size - 1) src

abbrev text_of : Option (List ℕ) → List ℕ
text_of none = []
text_of (some text) = text

unfoldable pub msg_database_open : Sqlite → Database → Database × ℤ
msg_database_open s db =
    if db.ready
    then (db, msg_db_ok)
    else if not s.opened
    then (db, msg_db_err_open)
    else if not s.schema
    then (db, msg_db_err_schema)
    else if not s.prepared
    then (db, msg_db_err_prepare)
    else (record db { ready = true }, msg_db_ok)

unfoldable pub msg_database_close : Database → Database
msg_database_close db = record db { ready = false }

unfoldable pub msg_database_is_ready : Database → Bool
msg_database_is_ready db = db.ready

-- INSERT OR REPLACE.
unfoldable pub insert_or_replace : Row → List Row → List Row
insert_or_replace r [] = r ∷ []
insert_or_replace r (x ∷ xs) =
    let rest = insert_or_replace r xs in
    if ltb_ℤ r.utc_datetime x.utc_datetime
    then r ∷ x ∷ xs
    else if eqb_ℤ r.utc_datetime x.utc_datetime
    then r ∷ xs
    else x ∷ rest

-- The serial clamped into the range of the table.
unfoldable pub clamp_sn : ℤ → ℕ
clamp_sn sn =
    if ltb_ℤ sn (pos msg_db_sn_min)
    then msg_db_sn_min
    else if ltb_ℤ (pos msg_db_sn_max) sn
    then msg_db_sn_max
    else pos_part sn

abbrev fails_at_once : Option ℕ → Bool
fails_at_once none = false
fails_at_once (some n) = n == 0

-- The row that is bound to the statement.
unfoldable pub new_row : ℤ → ℤ → ℤ → Option (List ℕ) → List ℕ → Option (List ℕ) → Row
new_row friend_num sn datetime sender direction chat_msg = record {
  utc_datetime = datetime;
  msg_sender = text_of sender;
  msg_sn = clamp_sn sn;
  friend_num = friend_num;
  send_receive = direction;
  chat_message = text_of chat_msg;
}

unfoldable pub msg_database_add :
    Sqlite
    → ℤ
    → ℤ
    → ℤ
    → Option (List ℕ)
    → Option (List ℕ)
    → Option (List ℕ)
    → Database
    → Database × ℤ
msg_database_add s friend_num sn datetime sender none chat_msg db =
    if not db.ready then (db, msg_db_err_not_ready) else (db, msg_db_err_range)
msg_database_add s friend_num sn datetime sender (some direction) chat_msg db =
    if not db.ready
    then (db, msg_db_err_not_ready)
    else if ltb_ℤ friend_num (pos 0)
    then (db, msg_db_err_range)
    else if not s.bound
    then (db, msg_db_err_bind)
    else if fails_at_once s.failing_step
    then (db, msg_db_err_step)
    else (
      record db {
        rows = insert_or_replace (new_row friend_num sn datetime sender direction chat_msg) db.rows;
      },
      msg_db_ok,
    )

-- The loop over the rows of a statement, with room for that many: what was copied, and whether a step
-- failed.
unfoldable pub read_rows : ℕ → Option ℕ → List Row → List Row × Bool
read_rows zero fails rs = ([], false)
read_rows (suc room) (some zero) rs = ([], true)
read_rows (suc room) none [] = ([], false)
read_rows (suc room) (some (suc n)) [] = ([], false)
read_rows (suc room) none (r ∷ rs) =
    let (copied, failed) = read_rows room none rs in (r ∷ copied, failed)
read_rows (suc room) (some (suc n)) (r ∷ rs) =
    let (copied, failed) = read_rows room (some n) rs in (r ∷ copied, failed)

-- The code of a function that reads rows.
abbrev pub row_count : List Row × Bool → ℤ
row_count (copied, failed) = if failed then msg_db_err_step else pos (length copied)

unfoldable pub reverse_rows : List Row → List Row
reverse_rows [] = []
reverse_rows (r ∷ rs) = reverse_rows rs ++ (r ∷ [])

unfoldable pub top_entry : Row → ChatMsg
top_entry r = record {
  sender = copy_bounded msg_db_sender_max (some r.msg_sender);
  message = copy_bounded msg_db_message_max (some r.chat_message);
}

-- The entries that are written to `out`, and the code. The out pointer is not NULL.
unfoldable pub msg_database_top : Sqlite → ℤ → Database → List ChatMsg × ℤ
msg_database_top s max db =
    let (copied, failed) = read_rows (pos_part max) s.failing_step (reverse_rows db.rows) in
    if not db.ready
    then ([], msg_db_err_not_ready)
    else if leb_ℤ max (pos 0)
    then ([], msg_db_err_range)
    else if not s.bound
    then ([], msg_db_err_bind)
    else (map top_entry copied, row_count (copied, failed))

-- A row of one friend in one direction.
abbrev pub of_channel : ℤ → List ℕ → Row → Bool
of_channel friend_num direction r = eqb_ℤ r.friend_num friend_num && str_eq r.send_receive direction

-- COALESCE(MAX(Msg_SN), 0) over the rows of a channel.
unfoldable pub max_sn : ℤ → List ℕ → List Row → ℕ
max_sn friend_num direction [] = 0
max_sn friend_num direction (r ∷ rs) =
    let rest = max_sn friend_num direction rs in
    if of_channel friend_num direction r && ltb rest r.msg_sn then r.msg_sn else rest

-- What `*sn_out` holds afterwards (`none` where it is not written), and the code. The pointer is not
-- NULL.
unfoldable pub msg_database_last_sn : Sqlite → ℤ → Option (List ℕ) → Database → Option ℕ × ℤ
msg_database_last_sn s friend_num none db =
    (none, if not db.ready then msg_db_err_not_ready else msg_db_err_range)
msg_database_last_sn s friend_num (some direction) db =
    if not db.ready
    then (none, msg_db_err_not_ready)
    else if ltb_ℤ friend_num (pos 0)
    then (none, msg_db_err_range)
    else if not s.bound
    then (some 0, msg_db_err_bind)
    else if fails_at_once s.failing_step
    then (some 0, msg_db_err_step)
    else (some (max_sn friend_num direction db.rows), msg_db_ok)

-- The serials that SQL_RANGE_IN or SQL_RANGE_WRAP selects.
unfoldable pub in_serials : ℕ → ℕ → ℕ → Bool
in_serials from to sn = if leb from to then leb from sn && leb sn to else leb from sn || leb sn to

-- The rows that the statement selects, oldest first.
unfoldable pub select_range : ℤ → List ℕ → ℕ → ℕ → List Row → List Row
select_range friend_num direction from to [] = []
select_range friend_num direction from to (r ∷ rs) =
    let rest = select_range friend_num direction from to rs in
    if of_channel friend_num direction r && in_serials from to r.msg_sn then r ∷ rest else rest

unfoldable pub replay_entry : Row → ChatMsgRecord
replay_entry r = record {
  msg_sn = r.msg_sn;
  datetime = r.utc_datetime;
  sender = copy_bounded msg_db_sender_max (some r.msg_sender);
  message = copy_bounded msg_db_message_max (some r.chat_message);
}

abbrev pub sn_in_table : ℤ → Bool
sn_in_table sn = leb_ℤ (pos msg_db_sn_min) sn && leb_ℤ sn (pos msg_db_sn_max)

-- The out pointer is not NULL.
unfoldable pub msg_database_range :
    Sqlite → ℤ → Option (List ℕ) → ℤ → ℤ → ℤ → Database → List ChatMsgRecord × ℤ
msg_database_range s friend_num none from to max db =
    ([], if not db.ready then msg_db_err_not_ready else msg_db_err_range)
msg_database_range s friend_num (some direction) from to max db =
    let (copied, failed) =
      read_rows (pos_part max) s.failing_step
        (select_range friend_num direction (pos_part from) (pos_part to) db.rows) in
    if not db.ready
    then ([], msg_db_err_not_ready)
    else if leb_ℤ max (pos 0) || ltb_ℤ friend_num (pos 0)
    then ([], msg_db_err_range)
    else if not (sn_in_table from && sn_in_table to)
    then ([], msg_db_err_range)
    else if not s.prepared
    then ([], msg_db_err_prepare)
    else if not s.bound
    then ([], msg_db_err_bind)
    else (map replay_entry copied, row_count (copied, failed))
