-- ===== src/Groups/Laws.antt =====
-- The table as a bag of groups: what `group_add`, `group_leave` and `group_index` do to it.
use tox_relayer.Prelude.{
  ℕ, zero, suc, ◌+◌, ◌-◌, ◌≤◌, ◌<◌, ◌≡◌, refl, ap, sym, ◌∙◌, ◌⊎◌, inl, inr, true, false, Option,
  some, List, [], ◌∷◌, arith, length, drop, set, ◌==◌, leb, if◌then◌else◌, if-elim, Bool-cases,
  total, total-set, get_or-set_self, length-set, ==_iff,
}
use tox_relayer.Prelude.Int.{ℤ, pos, negsuc}
use tox_relayer.Groups.{
  Group, Groups, cleared, group_at, no_groups, max_num_groups, realloc_groupchats, find_inactive,
  new_group, group_add,
}
use tox_relayer.Groups.Slots.{
  total-drop, total-realloc_groupchats, length-realloc_groupchats, group_at-realloc_groupchats,
  group_at-set_ne, drop-set, drop_all,
}

-- The weight of a group that is in use, and the bag of groups by any weight.
abbrev pub live : (Group → ℕ) → Group → ℕ
live f s = if s.active then f s else 0

abbrev pub bag : (Group → ℕ) → Groups → ℕ
bag f t = total (live f) t.slots

-- No group stands behind `chats_idx`, the slot before it is in use, and the table is within bounds.
pub record IsGroups (t : Groups) : Type 0 where
  pub rest_free : (f : Group → ℕ) → total (live f) (drop t.chats_idx t.slots) ≡ 0
  pub last_used : 0 < t.chats_idx → (group_at t.slots (t.chats_idx - 1)).active ≡ true
  pub bounded : t.chats_idx ≤ max_num_groups

pub no_groups-IsGroups : IsGroups no_groups
unfolding total
no_groups-IsGroups = record {
  rest_free = λ f. refl;
  last_used = λ h. absurd (omega (arith, h));
  bounded = omega arith;
}

pub total-nil : (f : Group → ℕ) → total f [] ≡ 0
unfolding total
total-nil f = refl

-- Where the loop of `group_add` stops.
abbrev FirstFree : List Group → Type 0
FirstFree slots =
    ((i : ℕ) × (find_inactive slots ≡ some i)
      × (i < length slots)
      × ((group_at slots i).active ≡ false))
    ⊎ ((i : ℕ) → i < length slots → (group_at slots i).active ≡ true)

all_used :
    (s : Group) (ss : List Group)
    → s.active ≡ true
    → ((i : ℕ) → i < length ss → (group_at ss i).active ≡ true)
    → (i : ℕ) → i < suc (length ss)
    → (group_at (s ∷ ss) i).active ≡ true
all_used s ss e all zero h = e
all_used s ss e all (suc i) h = all i (omega (arith, h))

find_inactive-FirstFree : (slots : List Group) → FirstFree slots
unfolding find_inactive
find_inactive-FirstFree [] = inr (λ i h. absurd (omega (arith, h)))
find_inactive-FirstFree (s ∷ ss) = elim (Bool-cases s.active) [
  | inl e ↦ elim (find_inactive-FirstFree ss) [
    | inl (i, found, h, free) ↦ inl (suc i, rw (e, found) refl, omega (arith, h), free)
    | inr all ↦ inr (all_used s ss e all)
  ]
  | inr e ↦ inl (0, rw e refl, omega arith, e)
]

new_group-active :
    (groupnum kind : ℕ) (password : Option (List ℕ))
    → (new_group groupnum kind password).active ≡ true
unfolding new_group
new_group-active groupnum kind password = refl

-- The table after the allocation of `group_add`, before a slot is written.
module _ (t : Groups) (v : IsGroups t) where
  abbrev grown : List Group
  grown = set (realloc_groupchats t.slots (t.chats_idx + 1)) t.chats_idx cleared

  length-grown : length grown ≡ t.chats_idx + 1
  length-grown =
      length-set (realloc_groupchats t.slots (t.chats_idx + 1)) t.chats_idx cleared
      ∙ length-realloc_groupchats t.slots (t.chats_idx + 1)

  plus_one : t.chats_idx + 1 ≡ suc t.chats_idx
  plus_one = omega arith

  bag-grown : (f : Group → ℕ) → total (live f) grown ≡ bag f t
  bag-grown f = omega (
    arith,
    v.rest_free f,
    ap (λ n. total (live f) (drop n t.slots)) plus_one,
    total-drop (live f) refl t.slots t.chats_idx,
    total-realloc_groupchats (live f) refl t.slots (t.chats_idx + 1),
    total-set cleared (live f) (realloc_groupchats t.slots (t.chats_idx + 1)) t.chats_idx cleared
        (omega (arith, length-realloc_groupchats t.slots (t.chats_idx + 1))),
    ap (live f) (group_at-realloc_groupchats t.slots (t.chats_idx + 1) t.chats_idx (omega arith)),
  )

  idx_free : (group_at grown t.chats_idx).active ≡ false
  idx_free =
      ap (λ s. s.active)
        (get_or-set_self cleared (realloc_groupchats t.slots (t.chats_idx + 1)) t.chats_idx cleared
          (omega (arith, length-realloc_groupchats t.slots (t.chats_idx + 1))))

  last_grown : 0 < t.chats_idx → (group_at grown (t.chats_idx - 1)).active ≡ true
  last_grown h =
      ap (λ s. s.active)
        (group_at-set_ne (realloc_groupchats t.slots (t.chats_idx + 1)) t.chats_idx
            (t.chats_idx - 1) cleared (λ e. omega (arith, e, h))
          ∙ group_at-realloc_groupchats t.slots (t.chats_idx + 1) (t.chats_idx - 1) (omega arith))
      ∙ v.last_used h

  -- A slot that the loop found is written.
  module _ (g : Group) (on : g.active ≡ true) (i : ℕ) (h : i < t.chats_idx + 1)
      (free : (group_at grown i).active ≡ false) (room : t.chats_idx < max_num_groups) where
    abbrev added : Groups
    added = record {
      slots = set grown i g;
      chats_idx = if t.chats_idx == i then t.chats_idx + 1 else t.chats_idx;
    }

    bag-added : (f : Group → ℕ) → bag f added ≡ bag f t + f g
    bag-added f = omega (
      arith,
      bag-grown f,
      total-set cleared (live f) grown i g (omega (arith, length-grown, h)),
      old,
      new,
    )
      where
        old : live f (group_at grown i) ≡ 0
        old = rw free refl

        new : live f g ≡ f g
        new = rw on refl

    added-IsGroups : IsGroups added
    added-IsGroups = if-elim P (t.chats_idx == i) at_end in_hole
      where
        P : ℕ → Type 0
        P n = IsGroups (record { slots = set grown i g; chats_idx = n })

        at_end : (t.chats_idx == i) ≡ true → P (t.chats_idx + 1)
        at_end e =
            let same : t.chats_idx ≡ i = (==_iff t.chats_idx i).0 e in
            record {
              rest_free = λ f.
                  ap (total (live f)) (
                    drop_all (set grown i g) (t.chats_idx + 1)
                      (omega (arith, length-set grown i g, length-grown)))
                  ∙ total-nil (live f);
              last_used = λ _.
                  ap (λ n. (group_at (set grown i g) n).active) (omega (arith, same))
                  ∙ ap (λ s. s.active)
                      (get_or-set_self cleared grown i g (omega (arith, length-grown, h)))
                  ∙ on;
              bounded = omega (arith, room);
            }

        in_hole : (t.chats_idx == i) ≡ false → P t.chats_idx
        in_hole e =
            let other : i < t.chats_idx = ground (arith, h, e) in
            record {
              rest_free = λ f. ap (total (live f)) (drop-set grown i t.chats_idx g other) ∙ tail f;
              last_used = λ u. elim (Bool-cases (i == t.chats_idx - 1)) [
                | inl y ↦
                    ap (λ n. (group_at (set grown i g) n).active)
                      (sym ((==_iff i (t.chats_idx - 1)).0 y))
                    ∙ ap (λ s. s.active)
                        (get_or-set_self cleared grown i g (omega (arith, length-grown, h)))
                    ∙ on
                | inr n ↦
                    ap (λ s. s.active)
                      (group_at-set_ne grown i (t.chats_idx - 1) g
                        (λ q. absurd (ground (arith, n, q))))
                    ∙ last_grown u
              ];
              bounded = v.bounded;
            }
          where
            tail : (f : Group → ℕ) → total (live f) (drop t.chats_idx grown) ≡ 0
            tail f =
                total-drop (live f) refl grown t.chats_idx
                ∙ omega (
                  arith,
                  ap (λ b. if b then f (group_at grown t.chats_idx) else 0) idx_free,
                  ap (total (live f))
                      (drop_all grown (suc t.chats_idx) (omega (arith, length-grown))),
                  total-nil (live f),
                )

  -- To a well-formed table a group is added while `chats_idx`, the index behind the last slot in use, is
  -- below 256: the answer is 0, and the bag gains the new group and nothing else. When it is 256, even
  -- where slots below are free, the answer is -1 and nothing changes. The table stays well formed.
  pub group_add_lem :
      (groupnum kind : ℕ) (password : Option (List ℕ))
      → let (t', rc) = group_add t groupnum kind password in
        IsGroups t'
        × (((t.chats_idx < max_num_groups)
              × (rc ≡ pos 0)
              × ((f : Group → ℕ) → bag f t' ≡ bag f t + f (new_group groupnum kind password)))
            ⊎ ((t.chats_idx ≡ max_num_groups) × (rc ≡ negsuc 0) × (t' ≡ t)))
  unfolding group_add
  group_add_lem groupnum kind password =
      if-elim P (leb max_num_groups t.chats_idx)
        (λ e. (v, inr (ground (arith, e, v.bounded), refl, refl)))
        (λ e.
          let room : t.chats_idx < max_num_groups = ground (arith, e) in
          elim (find_inactive-FirstFree grown) [
            | inl (i, found, h, free) ↦ rw found (
              added-IsGroups g refl_on i (omega (arith, h, length-grown)) free room,
              inl (room, refl, bag-added g refl_on i (omega (arith, h, length-grown)) free room),
            )
            | inr all ↦
                absurd (ground (arith, idx_free, all t.chats_idx (omega (arith, length-grown))))
          ])
    where
      g : Group
      g = new_group groupnum kind password

      P : Groups × ℤ → Type 0
      P r =
          IsGroups r.0
          × (((t.chats_idx < max_num_groups)
                × (r.1 ≡ pos 0)
                × ((f : Group → ℕ) → bag f r.0 ≡ bag f t + f g))
              ⊎ ((t.chats_idx ≡ max_num_groups) × (r.1 ≡ negsuc 0) × (r.0 ≡ t)))

      refl_on : g.active ≡ true
      refl_on = new_group-active groupnum kind password
