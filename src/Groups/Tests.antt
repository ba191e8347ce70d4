-- ===== src/Groups/Tests.antt =====
-- A table with two groups, and the theorems applied there.
use tox_relayer.Prelude.{ℕ, ◌≡◌, ◌<◌, ◌+◌, ◌⊎◌, true, none, some}
use tox_relayer.Prelude.Int.{pos, negsuc}
use tox_relayer.Text.{codes}
use tox_relayer.Groups.{
  Group, Groups, no_groups, max_num_groups, group_at, is_group, new_group, group_add, group_leave,
}
use tox_relayer.Groups.Laws.{IsGroups, no_groups-IsGroups, bag, group_add_lem}
use tox_relayer.Groups.Leave.{numbered, group_leave_lem}

abbrev one : Groups
one = (group_add no_groups 7 0 none).0

one-IsGroups : IsGroups one
one-IsGroups = (group_add_lem no_groups no_groups-IsGroups 7 0 none).0

group_add_lem_example :
    let (t', rc) = group_add one 9 1 (some (codes "secret")) in
    IsGroups t'
    × (((one.chats_idx < max_num_groups)
          × (rc ≡ pos 0)
          × ((f : Group → ℕ) → bag f t' ≡ bag f one + f (new_group 9 1 (some (codes "secret")))))
        ⊎ ((one.chats_idx ≡ max_num_groups) × (rc ≡ negsuc 0) × (t' ≡ one)))
group_add_lem_example = group_add_lem one one-IsGroups 9 1 (some (codes "secret"))

abbrev two : Groups
two = (group_add one 9 1 (some (codes "secret"))).0

two-IsGroups : IsGroups two
two-IsGroups = (group_add_lem one one-IsGroups 9 1 (some (codes "secret"))).0

group_leave_lem_example :
    let t' = group_leave two 7 in
    IsGroups t'
    × (((i : ℕ) × (is_group 7 (group_at two.slots i) ≡ true)
          × ((f : Group → ℕ) → bag f t' + f (group_at two.slots i) ≡ bag f two))
        ⊎ ((bag (numbered 7) two ≡ 0) × ((f : Group → ℕ) → bag f t' ≡ bag f two)))
group_leave_lem_example = group_leave_lem two two-IsGroups 7
