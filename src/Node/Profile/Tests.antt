-- ===== src/Node/Profile/Tests.antt =====
-- An account file, and the theorems on it of src/toxrelayer.c applied there.
use tox_relayer.Prelude.{ℕ, List, arith, refl, true, false, some, [], ◌∷◌}
use tox_relayer.Text.{codes}
use tox_relayer.Persist.{Files}
use tox_relayer.Node.Profile.{LoadTox, WriteIo, save_data}
use tox_relayer.Node.Profile.Laws.{Reloaded, save_data-load_tox}

-- A file system with one file, and one that refuses the rename.
abbrev files : Files
files path = some (codes "old")

abbrev no_rename : WriteIo
no_rename = record {
  opened = true;
  allocated = true;
  wrote = true;
  closed = true;
  renamed = false;
  partial = [];
  path_allocated = true;
  encrypted_allocated = true;
  encrypt = λ bytes. some (0 ∷ bytes);
}

-- Loads that go well, of accounts that are their own bytes.
abbrev loads : LoadTox (List ℕ)
loads = record {
  opened = true;
  allocated = true;
  read = true;
  tox_new = λ saved. saved;
  savedata = λ account. account;
}

save_data-load_tox_example :
    Reloaded loads no_rename no_rename files
      (codes "toxbot.tox")
      (codes "new")
      (save_data no_rename files (some (codes "toxbot.tox")) (codes "new"))
save_data-load_tox_example =
    save_data-load_tox loads no_rename no_rename files (codes "toxbot.tox") refl refl refl
      (codes "new") (omega arith)
