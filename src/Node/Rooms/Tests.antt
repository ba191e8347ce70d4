-- ===== src/Node/Rooms/Tests.antt =====
-- A table of two rooms, and the theorems on the rooms of src/toxrelayer.c applied to it.
use tox_relayer.Prelude.{ℕ, ◌+◌, ◌≡◌, true, none, [], ◌∷◌, total}
use tox_relayer.Groups.{Group, Groups, no_groups, group_add}
use tox_relayer.Groups.Laws.{IsGroups, bag, no_groups-IsGroups, group_add_lem}
use tox_relayer.Node.{Node}
use tox_relayer.Node.Rooms.{purge_empty_groups, load_conferences}
use tox_relayer.Node.Rooms.Purge.{deleted, purge_empty_groups_lem}
use tox_relayer.Node.Rooms.Sweep.{spared, taken}
use tox_relayer.Node.Rooms.Loading.{accounted, load_conferences-accounted}
use tox_relayer.Node.Tests.{node, peers}

abbrev with_table : Groups → Node
with_table t = record node { bot = record (node.bot) { groups = t } }

-- The rooms 5 and 6, of which 6 has nobody else.
abbrev two_rooms : Groups
two_rooms = (group_add (group_add no_groups 5 0 none).0 6 0 none).0

two_rooms-IsGroups : IsGroups two_rooms
two_rooms-IsGroups =
    (group_add_lem (group_add no_groups 5 0 none).0
      (group_add_lem no_groups no_groups-IsGroups 5 0 none).0 6 0 none).0

purge_empty_groups_lem_example :
    let n' = purge_empty_groups peers (with_table two_rooms) in
    IsGroups n'.bot.groups
    × ((f : Group → ℕ) → bag f n'.bot.groups ≡ bag (spared peers f) two_rooms)
    × ((w : ℕ → ℕ)
        → total (deleted w) n'.effects ≡ total (deleted w) [] + bag (taken peers w) two_rooms)
purge_empty_groups_lem_example =
    purge_empty_groups_lem peers (with_table two_rooms) two_rooms-IsGroups

load_conferences-accounted_example :
    let n' = load_conferences true (λ room. peers room) (5 ∷ 6 ∷ []) node in
    IsGroups n'.bot.groups
    × ((w : ℕ → ℕ) → accounted w n' ≡ accounted w node + total w (5 ∷ 6 ∷ []))
load_conferences-accounted_example =
    load_conferences-accounted (λ room. peers room) (5 ∷ 6 ∷ []) node no_groups-IsGroups
