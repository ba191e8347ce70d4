-- ===== src/Groups/Leave.antt =====
-- `group_index` and `group_leave`: the search for a group, and the table that shrinks.
use tox_relayer.Prelude.{
  ℕ, zero, suc, ◌+◌, ◌-◌, ◌≤◌, ◌<◌, ◌≡◌, refl, ap, sym, ◌∙◌, ◌⊎◌, inl, inr, true, none, some, List,
  [], ◌∷◌, arith, length, take, drop, set, ◌==◌, if◌then◌else◌, if-elim, Bool-cases, total,
  total-set,
}
use tox_relayer.Groups.{
  Group, Groups, cleared, group_at, max_num_groups, realloc_groupchats, is_group, find_group, trim,
  clear_at, group_leave, group_index,
}
use tox_relayer.Groups.Slots.{
  total-drop, total-take-drop, total-realloc_groupchats, length-realloc_groupchats,
  group_at-realloc_groupchats, drop-set, drop_all,
}
use tox_relayer.Groups.Laws.{IsGroups, live, bag, total-nil}

-- Whether a group has that number.
abbrev pub numbered : ℕ → Group → ℕ
numbered groupnum s = if s.groupnum == groupnum then 1 else 0

-- What a search of the whole array finds.
abbrev Found : ℕ → List Group → Type 0
Found groupnum slots =
    ((i : ℕ) × (find_group groupnum slots ≡ some i)
      × (i < length slots)
      × (is_group groupnum (group_at slots i) ≡ true))
    ⊎ ((find_group groupnum slots ≡ none) × (total (live (numbered groupnum)) slots ≡ 0))

find_group-Found : (groupnum : ℕ) (slots : List Group) → Found groupnum slots
unfolding find_group total
find_group-Found groupnum [] = inr (refl, refl)
find_group-Found groupnum (s ∷ ss) = elim (Bool-cases (is_group groupnum s)) [
  | inl e ↦ inl (0, rw e refl, omega arith, e)
  | inr e ↦ elim (find_group-Found groupnum ss) [
    | inl (i, found, h, g) ↦ inl (suc i, rw (e, found) refl, omega (arith, h), g)
    | inr (found, z) ↦ inr (rw (e, found) refl, ground (arith, z, e))
  ]
]

pub group_at-take :
    (slots : List Group) (n i : ℕ)
    → i < length (take n slots)
    → (group_at (take n slots) i ≡ group_at slots i) × (i < n)
group_at-take slots zero i h = absurd (omega (arith, h))
group_at-take [] (suc n) i h = absurd (omega (arith, h))
group_at-take (s ∷ ss) (suc n) zero h = (refl, omega arith)
group_at-take (s ∷ ss) (suc n) (suc i) h =
    let r = group_at-take ss n i (omega (arith, h)) in (r.0, omega (arith, r.1))

pub is_group-active : (groupnum : ℕ) (s : Group) → is_group groupnum s ≡ true → s.active ≡ true
is_group-active groupnum s h = ground (arith, h)

pub active-lt : (slots : List Group) (i : ℕ) → (group_at slots i).active ≡ true → i < length slots
active-lt [] i h = absurd (ground (arith, h))
active-lt (s ∷ ss) zero h = omega arith
active-lt (s ∷ ss) (suc i) h = omega (arith, active-lt ss i h)

module _ (t : Groups) (v : IsGroups t) (groupnum : ℕ) where
  -- `group_index` answers the index of a group in use with that number when there is one, and -1
  -- exactly when there is none.
  pub group_index_lem :
      ((i : ℕ) × (group_index t groupnum ≡ some i)
        × (i < t.chats_idx)
        × (is_group groupnum (group_at t.slots i) ≡ true))
      ⊎ ((group_index t groupnum ≡ none) × (bag (numbered groupnum) t ≡ 0))
  unfolding group_index
  group_index_lem = elim (find_group-Found groupnum (take t.chats_idx t.slots)) [
    | inl (i, found, h, g) ↦
        let r = group_at-take t.slots t.chats_idx i h in
        inl (i, found, r.1, ap (is_group groupnum) (sym r.0) ∙ g)
    | inr (found, z) ↦ inr (
      found,
      omega (
        arith,
        z,
        total-take-drop (live (numbered groupnum)) refl t.slots t.chats_idx,
        v.rest_free (numbered groupnum),
      ),
    )
  ]

pub trim-le : (slots : List Group) (i : ℕ) → trim slots i ≤ i
unfolding trim
trim-le slots zero = omega arith
trim-le slots (suc i) =
    if-elim (λ n. n ≤ suc i) (group_at slots i).active (λ _. omega arith)
      (λ _. omega (arith, trim-le slots i))

trim-used :
    (slots : List Group) (i : ℕ)
    → 0 < trim slots i
    → (group_at slots (trim slots i - 1)).active ≡ true
unfolding trim
trim-used slots zero = λ h. absurd (omega (arith, h))
trim-used slots (suc i) =
    if-elim (λ n. 0 < n → (group_at slots (n - 1)).active ≡ true) (group_at slots i).active
      (λ e h. ap (λ k. (group_at slots k).active) (omega arith) ∙ e) (λ _. trim-used slots i)

trim-free :
    (slots : List Group) (f : Group → ℕ) (i : ℕ)
    → total (live f) (drop i slots) ≡ 0
    → total (live f) (drop (trim slots i) slots) ≡ 0
unfolding trim
trim-free slots f zero h = h
trim-free slots f (suc i) h =
    if-elim (λ n. total (live f) (drop n slots) ≡ 0) (group_at slots i).active (λ _. h)
      (λ e. trim-free slots f i (
        omega (
          arith,
          h,
          total-drop (live f) refl slots i,
          ap (λ b. if b then f (group_at slots i) else 0) e,
        )))

-- What is left of an array, trimmed, as a table.
module _ (slots : List Group) (n : ℕ) (rest : (f : Group → ℕ) → total (live f) (drop n slots) ≡ 0)
    (h : n ≤ max_num_groups) where
  abbrev trimmed : Groups
  trimmed = record { slots = realloc_groupchats slots (trim slots n); chats_idx = trim slots n }

  bag-trimmed : (f : Group → ℕ) → bag f trimmed ≡ total (live f) slots
  bag-trimmed f = omega (
    arith,
    total-realloc_groupchats (live f) refl slots (trim slots n),
    trim-free slots f n (rest f),
  )

  trimmed-IsGroups : IsGroups trimmed
  trimmed-IsGroups = record {
    rest_free = λ f.
        ap (total (live f)) (
          drop_all trimmed.slots (trim slots n)
            (omega (arith, length-realloc_groupchats slots (trim slots n))))
        ∙ total-nil (live f);
    last_used = λ u.
        ap (λ s. s.active)
          (group_at-realloc_groupchats slots (trim slots n) (trim slots n - 1) (omega (arith, u)))
        ∙ trim-used slots n u;
    bounded = omega (arith, trim-le slots n, h);
  }

module _ (t : Groups) (v : IsGroups t) (groupnum : ℕ) where
  -- Leaving takes out of the bag exactly one group in use with that number, when there is one; when
  -- there is none, the bag stays. The table stays well formed.
  pub group_leave_lem :
      let t' = group_leave t groupnum in
      IsGroups t'
      × (((i : ℕ) × (is_group groupnum (group_at t.slots i) ≡ true)
            × ((f : Group → ℕ) → bag f t' + f (group_at t.slots i) ≡ bag f t))
          ⊎ ((bag (numbered groupnum) t ≡ 0) × ((f : Group → ℕ) → bag f t' ≡ bag f t)))
  unfolding group_leave clear_at group_index
  group_leave_lem = elim (group_index_lem t v groupnum) [
    | inl (i, found, h, g) ↦ rw found (
        let s' = set t.slots i cleared in
        let rest : (f : Group → ℕ) → total (live f) (drop t.chats_idx s') ≡ 0 =
          λ f. ap (total (live f)) (drop-set t.slots i t.chats_idx cleared h) ∙ v.rest_free f in
        (
          trimmed-IsGroups s' t.chats_idx rest v.bounded,
          inl (
            i,
            g,
            λ f. omega (
              arith,
              bag-trimmed s' t.chats_idx rest v.bounded f,
              total-set cleared (live f) t.slots i cleared
                  (active-lt t.slots i (is_group-active groupnum (group_at t.slots i) g)),
              ap (λ b. if b then f (group_at t.slots i) else 0)
                  (is_group-active groupnum (group_at t.slots i) g),
            ),
          ),
        ))
    | inr (found, z) ↦ rw found (
      trimmed-IsGroups t.slots t.chats_idx v.rest_free v.bounded,
      inr (z, λ f. bag-trimmed t.slots t.chats_idx v.rest_free v.bounded f),
    )
  ]
