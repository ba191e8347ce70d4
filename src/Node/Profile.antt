-- ===== src/Node/Profile.antt =====
-- The file that holds the account, in src/toxrelayer.c: `save_data`, `store_data` and `load_tox`. What
-- the file system and toxcore answer is a parameter.
pub mod Laws
mod Tests
use tox_relayer.Prelude.{
  ℕ, Bool, true, false, not, ◌&&◌, ◌||◌, Option, none, some, List, [], ◌∷◌, ◌++◌, if◌then◌else◌,
  ◌==◌, length,
}
use tox_relayer.Prelude.Int.{ℤ, pos, negsuc}
use tox_relayer.Text.{codes}
use tox_relayer.Persist.{Files, store}

-- What the calls of a save answer. `partial` is what a write that falls short leaves in the file, and
-- `encrypt` is `tox_pass_encrypt`, `none` for an error.
pub record WriteIo : Type 0 where
  pub opened : Bool
  pub allocated : Bool
  pub wrote : Bool
  pub closed : Bool
  pub renamed : Bool
  pub partial : List ℕ
  pub path_allocated : Bool
  pub encrypted_allocated : Bool
  pub encrypt : List ℕ → Option (List ℕ)

-- `save_data`: opening the file for writing empties it, and it holds the bytes only when both the
-- write and the close went well; else `partial` is what reached it. The path is `none` for NULL.
unfoldable pub save_data : WriteIo → Files → Option (List ℕ) → List ℕ → Files × ℤ
save_data io files none bytes = (files, negsuc 0)
save_data io files (some path) bytes =
    let written = store files path (some (if io.wrote && io.closed then bytes else io.partial)) in
    if not io.opened
    then (files, negsuc 0)
    else if not io.allocated
    then (store files path (some []), negsuc 0)
    else if not io.wrote || not io.closed
    then (written, negsuc 0)
    else (written, pos 0)

abbrev pub temp_path : List ℕ → List ℕ
temp_path path = path ++ codes ".tmp"

-- The end of `store_data`, with the bytes to write. An `fwrite` of no byte is a failure. The result of
-- `fclose` is ignored: `partial` is then what reached the file.
unfoldable pub write_profile : WriteIo → Files → List ℕ → List ℕ → Files × ℤ
write_profile io files path bytes =
    let kept = if io.closed then bytes else io.partial in
    let written = store files (temp_path path) (some kept) in
    if not io.wrote || length bytes == 0
    then (store files (temp_path path) (some io.partial), negsuc 0)
    else if not io.renamed
    then (written, negsuc 0)
    else (store (store written (temp_path path) none) path (some kept), pos 0)

-- `encrypts` is `user_password.data_is_encrypted && !arg_opts.unencrypt_data`.
unfoldable pub store_data : WriteIo → Bool → Files → Option (List ℕ) → List ℕ → Files × ℤ
store_data io encrypts files none bytes = (files, negsuc 0)
store_data io encrypts files (some path) bytes =
    let emptied = store files (temp_path path) (some []) in
    if not io.path_allocated
    then (files, negsuc 0)
    else if not io.opened
    then (files, negsuc 0)
    else if not io.allocated
    then (emptied, negsuc 0)
    else if encrypts
    then if not io.encrypted_allocated then (emptied, negsuc 0) else elim (io.encrypt bytes) [
      | none ↦ (emptied, negsuc 0)
      | some secret ↦ write_profile io files path secret
    ]
    else write_profile io files path bytes

-- What the calls of `load_tox` answer; `tox_new` makes an account from saved data, or a fresh one.
pub record LoadTox (Tox : Type 0) : Type 0 where
  pub opened : Bool
  pub allocated : Bool
  pub read : Bool
  pub tox_new : Option (List ℕ) → Option Tox
  pub savedata : Tox → List ℕ

-- A file that cannot be opened counts as missing: a fresh account is made and saved over it.
unfoldable pub load_tox :
    {Tox : Type 0} → LoadTox Tox → WriteIo → Files → List ℕ → Files × Option Tox
load_tox l io files path = elim (if l.opened then files path else none) [
  | none ↦ elim (l.tox_new none) [
    | none ↦ (files, none)
    | some m ↦ ((save_data io files (some path) (l.savedata m)).0, some m)
  ]
  | some bytes ↦
      if length bytes == 0
      then (files, none)
      else if not l.allocated || not l.read
      then (files, none)
      else (files, l.tox_new (some bytes))
]
