-- ===== src/Friends/Tests.antt =====
-- Runs of the search for a friend.
use tox_relayer.Prelude.{◌≡◌, refl, [], ◌∷◌}
use tox_relayer.Prelude.Int.{pos}
use tox_relayer.Text.{codes}
use tox_relayer.Friends.{no_contact, is_prefix, occurs, lookup_from, lookup_ch_num}

-- A key that nobody has finds the first entry that was never written.
unknown_key :
    lookup_ch_num
      (record no_contact { public_key_str = codes "AB12" } ∷ no_contact ∷ [])
      (codes "FFFF")
    ≡ pos 1
unfolding lookup_ch_num lookup_from occurs is_prefix
unknown_key = refl
