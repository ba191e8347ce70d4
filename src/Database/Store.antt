-- ===== src/Database/Store.antt =====
-- What `msg_database_add` stores, and what it takes the place of.
use tox_relayer.Prelude.{
  ℕ, ◌≡◌, refl, ap, Bool, true, false, ◌&&◌, Option, none, some, List, [], ◌∷◌, if◌then◌else◌,
  arith, if-elim,
}
use tox_relayer.Prelude.Int.{ℤ, pos, ltb_ℤ, eqb_ℤ, eqb_ℤ_iff}
use tox_relayer.Database.{
  Row, Database, Sqlite, insert_or_replace, new_row, msg_database_add, msg_db_ok,
}

-- The row with a key.
unfoldable pub row_at : ℤ → List Row → Option Row
row_at t [] = none
row_at t (r ∷ rs) = let rest = row_at t rs in if eqb_ℤ t r.utc_datetime then some r else rest

-- Two choices in a row: under one test, and under tests that exclude each other.
same_test {ℓ} :
    {A : Type ℓ} (b : Bool) (x y z : A)
    → (if b then x else z) ≡ (if b then x else (if b then y else z))
same_test true x y z = refl
same_test false x y z = refl

swap_tests {ℓ} :
    {A : Type ℓ} (b c : Bool) (x y z : A)
    → b && c ≡ false
    → (if c then y else (if b then x else z)) ≡ (if b then x else (if c then y else z))
swap_tests true true x y z h = absurd (ground (arith, h))
swap_tests true false x y z h = refl
swap_tests false true x y z h = refl
swap_tests false false x y z h = refl

not_both : (t a b : ℤ) → eqb_ℤ a b ≡ false → eqb_ℤ t a && eqb_ℤ t b ≡ false
not_both t a b h = ground (arith, h)

row_at-insert_or_replace :
    (t : ℤ) (r : Row) (rs : List Row)
    → row_at t (insert_or_replace r rs) ≡ (if eqb_ℤ t r.utc_datetime then some r else row_at t rs)
unfolding row_at insert_or_replace
row_at-insert_or_replace t r [] = refl
row_at-insert_or_replace t r (x ∷ xs) =
    let rest = row_at-insert_or_replace t r xs in
    if-elim (λ rows. row_at t rows ≡ (if eqb_ℤ t r.utc_datetime then some r else row_at t (x ∷ xs)))
      (ltb_ℤ r.utc_datetime x.utc_datetime) (λ _. refl)
      (λ _.
        if-elim
          (λ rows. row_at t rows ≡ (if eqb_ℤ t r.utc_datetime then some r else row_at t (x ∷ xs)))
          (eqb_ℤ r.utc_datetime x.utc_datetime)
          (λ e.
            rw (ap (eqb_ℤ t) ((eqb_ℤ_iff r.utc_datetime x.utc_datetime).0 e))
              (same_test (eqb_ℤ t x.utc_datetime) (some r) (some x) (row_at t xs)))
          (λ n. rw rest (
            swap_tests (eqb_ℤ t r.utc_datetime) (eqb_ℤ t x.utc_datetime) (some r) (some x)
              (row_at t xs) (not_both t r.utc_datetime x.utc_datetime n))))

-- When the calls of SQLite succeed, a record for a friend number that is not negative is stored under
-- its time. It takes the place of a record with the same time, whatever its friend, direction and
-- serial; the records of all other times stay.
pub msg_database_add_lem :
    (s : Sqlite) (friend_num sn datetime : ℤ) (sender : Option (List ℕ)) (direction : List ℕ)
    (chat_msg : Option (List ℕ)) (db : Database)
    → db.ready ≡ true
    → s.bound ≡ true
    → s.failing_step ≡ none
    → ltb_ℤ friend_num (pos 0) ≡ false
    → let (db', code) =
        msg_database_add s friend_num sn datetime sender (some direction) chat_msg db in
      (code ≡ msg_db_ok)
      × (db'.ready ≡ true)
      × ((t : ℤ)
          → row_at t db'.rows ≡ (
              if eqb_ℤ t datetime
              then some (new_row friend_num sn datetime sender direction chat_msg)
              else row_at t db.rows))
unfolding msg_database_add new_row
msg_database_add_lem s friend_num sn datetime sender direction chat_msg db ready bound steps
      friend =
    simp (ready, bound, steps, friend)
      (
        refl,
        refl,
        λ t.
            row_at-insert_or_replace t (new_row friend_num sn datetime sender direction chat_msg)
              db.rows,
      )
