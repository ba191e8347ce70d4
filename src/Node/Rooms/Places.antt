-- ===== src/Node/Rooms/Places.antt =====
-- The table of groups of src/groupchats.c place by place, as the purge of src/toxrelayer.c walks it.
use tox_relayer.Prelude.{
  ℕ, zero, suc, ◌≤◌, ◌<◌, ◌≡◌, refl, inl, inr, Bool, true, false, some, List, [], ◌∷◌, arith,
  length, take, set, Bool-cases, Option-cases, some_inj, total, ==_iff,
}
use tox_relayer.Groups.{
  Group, Groups, cleared, group_at, is_group, find_group, clear_at, group_leave,
}
use tox_relayer.Groups.Slots.{total-take-drop, group_at-realloc_groupchats}
use tox_relayer.Groups.Laws.{IsGroups, live, bag}
use tox_relayer.Groups.Leave.{group_at-take, trim-le}

total-congr :
    (f g : Group → ℕ) (xs : List Group)
    → ((j : ℕ) → j < length xs → f (group_at xs j) ≡ g (group_at xs j))
    → total f xs ≡ total g xs
unfolding total
total-congr f g [] h = refl
total-congr f g (x ∷ xs) h =
    omega (arith, h 0 (omega arith), total-congr f g xs (λ j less. h (suc j) (omega (arith, less))))

-- Weights that agree on the groups in use weigh the table alike.
pub bag-congr :
    (f g : Group → ℕ) (t : Groups)
    → IsGroups t
    → ((j : ℕ)
        → j < t.chats_idx
        → (group_at t.slots j).active ≡ true
        → f (group_at t.slots j) ≡ g (group_at t.slots j))
    → bag f t ≡ bag g t
bag-congr f g t v h = omega (
  arith,
  total-take-drop (live f) refl t.slots t.chats_idx,
  total-take-drop (live g) refl t.slots t.chats_idx,
  v.rest_free f,
  v.rest_free g,
  total-congr (live f) (live g) (take t.chats_idx t.slots) same,
)
  where
    same :
        (j : ℕ)
        → j < length (take t.chats_idx t.slots)
        → live f (group_at (take t.chats_idx t.slots) j)
          ≡ live g (group_at (take t.chats_idx t.slots) j)
    same j less =
        let r = group_at-take t.slots t.chats_idx j less in
        rw (r.0) (elim (Bool-cases (group_at t.slots j).active) [
          | inl e ↦ rw e (h j r.1 e)
          | inr e ↦ rw e refl
        ])

-- A search stops at the first group with that number.
pub find_group-first :
    (groupnum : ℕ) (slots : List Group) (i j : ℕ)
    → find_group groupnum slots ≡ some i
    → j < i
    → is_group groupnum (group_at slots j) ≡ false
unfolding find_group
find_group-first groupnum [] i j found less = refl
find_group-first groupnum (s ∷ ss) i zero found less = elim (Bool-cases (is_group groupnum s)) [
  | inl e ↦ absurd (omega (arith, less, some_inj 0 i (rw e at found)))
  | inr e ↦ e
]
find_group-first groupnum (s ∷ ss) i (suc j) found less = elim (Bool-cases (is_group groupnum s)) [
  | inl e ↦ absurd (omega (arith, less, some_inj 0 i (rw e at found)))
  | inr e ↦ elim (Option-cases (find_group groupnum ss)) [
    | inl n ↦ absurd (ground (arith, rw (e, n) at found))
    | inr (k, n) ↦
        let at_k : suc k ≡ i = some_inj (suc k) i (rw (e, n) at found) in
        find_group-first groupnum ss k j n (omega (arith, less, at_k))
  ]
]

-- What a leave does to the slots that are left.
pub leave_slots :
    (t : Groups) (groupnum i : ℕ)
    → find_group groupnum (take t.chats_idx t.slots) ≡ some i
    → ((group_leave t groupnum).chats_idx ≤ t.chats_idx)
      × ((j : ℕ)
          → j < (group_leave t groupnum).chats_idx
          → group_at (group_leave t groupnum).slots j ≡ group_at (set t.slots i cleared) j)
unfolding group_leave clear_at
leave_slots t groupnum i found = rw found (
  trim-le (set t.slots i cleared) t.chats_idx,
  λ j less. group_at-realloc_groupchats (set t.slots i cleared) _ j less,
)

pub no_weight : (slots : List Group) → total (live (λ _. 0)) slots ≡ 0
unfolding total
no_weight [] = refl
no_weight (s ∷ ss) = ground (arith, no_weight ss)

pub is_group-groupnum :
    (groupnum : ℕ) (s : Group) → is_group groupnum s ≡ true → s.groupnum ≡ groupnum
is_group-groupnum groupnum s h = ground (arith, h)

pub is_group-own : (s : Group) → s.active ≡ true → is_group s.groupnum s ≡ true
is_group-own s on = rw on ((==_iff s.groupnum s.groupnum).1 refl)

pub no_both : (b : Bool) → b ≡ true → b ≡ false → ⊥
no_both b on off = ground (arith, on, off)
