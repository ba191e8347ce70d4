-- ===== src/Node/Profile/Laws.antt =====
-- What a save of the account leaves in the file system, whichever calls fail.
use tox_relayer.Prelude.{
  ℕ, ◌<◌, ◌≡◌, refl, ◌∙◌, ◌⊎◌, inl, inr, Bool, true, false, not, ◌&&◌, ◌||◌, Option, none,
  Bool-cases, some, List, [], arith, length, ◌==◌, if◌then◌else◌, if-elim,
}
use tox_relayer.Prelude.Int.{ℤ, pos, negsuc}
use tox_relayer.Text.{str_eq}
use tox_relayer.Text.Bytes.{str_eq_iff}
use tox_relayer.Persist.{Files, store}
use tox_relayer.Node.Profile.{WriteIo, save_data, temp_path, LoadTox, load_tox}

-- The bytes that `store_data` writes, where there are any.
abbrev pub profile_of : WriteIo → Bool → List ℕ → Option (List ℕ)
profile_of io true bytes = io.encrypt bytes
profile_of io false bytes = some bytes

-- The file at `path` is replaced by `profile`, or all files but the temporary one are as they were.
abbrev pub Replaced : Files → List ℕ → Option (List ℕ) → Files × ℤ → Type 0
Replaced files path profile (files', rc) =
    ((rc ≡ pos 0)
      × ((bytes : List ℕ) × (profile ≡ some bytes)
          × ((other : List ℕ)
              → str_eq other (temp_path path) ≡ false
              → files' other ≡ (if str_eq other path then some bytes else files other))))
    ⊎ ((rc ≡ negsuc 0)
        × ((other : List ℕ) → str_eq other (temp_path path) ≡ false → files' other ≡ files other))

-- What a load finds after a save: the account that was saved, when the save answered 0; when it
-- answered -1, the files as they were where the account could not be opened for writing, and else no
-- account, or what toxcore makes of the part that reached the file.
abbrev pub Reloaded :
    {Tox : Type 0} → LoadTox Tox → WriteIo → WriteIo → Files → List ℕ → List ℕ → Files × ℤ → Type 0
Reloaded l io io' files path bytes (files', rc) =
    ((rc ≡ pos 0) × (load_tox l io' files' path ≡ (files', l.tox_new (some bytes))))
    ⊎ ((rc ≡ negsuc 0)
        × (((io.opened ≡ false) × (files' ≡ files))
            ⊎ ((io.opened ≡ true)
                × ((load_tox l io' files' path ≡ (files', none))
                    ⊎ (load_tox l io' files' path ≡ (files', l.tox_new (some io.partial)))))))

module _ {Tox : Type 0} (l : LoadTox Tox) (io io' : WriteIo) (files : Files) (path : List ℕ)
    (opened : l.opened ≡ true) (allocated : l.allocated ≡ true) (read : l.read ≡ true) where
  load_tox-at :
      (files' : Files) (kept : List ℕ)
      → files' path ≡ some kept
      → load_tox l io' files' path
        ≡ (if length kept == 0 then (files', none) else (files', l.tox_new (some kept)))
  unfolding load_tox
  load_tox-at files' kept at = rw (found, load_tox) (simp (allocated, read) refl)
    where
      found : (if l.opened then files' path else none) ≡ some kept
      found = rw opened at

  load_tox-stored :
      (kept : List ℕ)
      → let files' = store files path (some kept) in
        load_tox l io' files' path
        ≡ (if length kept == 0 then (files', none) else (files', l.tox_new (some kept)))
  unfolding store
  load_tox-stored kept = load_tox-at _ kept stored
    where
      stored : store files path (some kept) path ≡ some kept
      stored = rw ((str_eq_iff path path).1 refl) refl

  -- After a `save_data` of an account that is not empty, `load_tox` of the same path, whose calls
  -- succeed: when the save answered 0 the load makes its account from exactly the bytes that were saved.
  -- When it answered -1, either the file could not be opened for writing and all files are as they were,
  -- or what was there before is gone: the load makes no account, or one from what a failed write left.
  pub save_data-load_tox :
      (bytes : List ℕ)
      → 0 < length bytes
      → Reloaded l io io' files path bytes (save_data io files (some path) bytes)
  unfolding save_data
  save_data-load_tox bytes some_bytes =
      if-elim P (not io.opened) (λ e. inr (refl, inl (ground (arith, e), refl)))
        (λ o.
          let was_opened : io.opened ≡ true = ground (arith, o) in
          if-elim P (not io.allocated) (λ _. inr (refl, inr (was_opened, inl (load_tox-stored []))))
            (λ _.
              if-elim P (not io.wrote || not io.closed)
                (λ e. inr (refl, inr (was_opened, broken (ground (arith, e)))))
                (λ e. inl (refl, whole (ground (arith, e))))))
    where
      P : Files × ℤ → Type 0
      P = Reloaded l io io' files path bytes

      written : Files
      written = store files path (some (if io.wrote && io.closed then bytes else io.partial))

      whole :
          (io.wrote && io.closed) ≡ true
          → load_tox l io' written path ≡ (written, l.tox_new (some bytes))
      whole e = rw e (load_tox-stored bytes ∙ rw not_empty refl)
        where
          not_empty : (length bytes == 0) ≡ false
          not_empty = ground (arith, some_bytes)

      broken :
          (io.wrote && io.closed) ≡ false
          → (load_tox l io' written path ≡ (written, none))
            ⊎ (load_tox l io' written path ≡ (written, l.tox_new (some io.partial)))
      broken e = rw e (elim (Bool-cases (length io.partial == 0)) [
        | inl z ↦ inl (load_tox-stored io.partial ∙ rw z refl)
        | inr z ↦ inr (load_tox-stored io.partial ∙ rw z refl)
      ])
