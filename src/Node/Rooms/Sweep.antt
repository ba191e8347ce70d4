-- ===== src/Node/Rooms/Sweep.antt =====
-- The loop of purge_empty_groups of src/toxrelayer.c, which leaves the empty groups one by one.
use tox_relayer.Prelude.{
  ℕ, zero, suc, ◌+◌, ◌≤◌, ◌<◌, ◌≡◌, refl, ap, sym, ◌∙◌, inl, inr, true, false, not, Option, some,
  List, ◌∷◌, arith, length, length-take, take, set, leb, ◌==◌, if◌then◌else◌, if-elim, ltb, ltb→lt,
  Bool-cases, total, get_or-le-total, get_or-set_self, ==_iff,
}
use tox_relayer.Groups.{
  Group, Groups, cleared, group_at, is_group, find_group, group_leave, group_index,
}
use tox_relayer.Groups.Slots.{group_at-set_ne}
use tox_relayer.Groups.Laws.{IsGroups, live, bag}
use tox_relayer.Groups.Leave.{
  numbered, group_at-take, is_group-active, active-lt, group_index_lem, group_leave_lem,
}
use tox_relayer.Node.Rooms.{is_empty, purge_loop}
use tox_relayer.Node.Rooms.Places.{
  bag-congr, find_group-first, leave_slots, no_weight, is_group-groupnum, is_group-own, no_both,
}

module _ (peer_count : ℕ → Option ℕ) where
  -- The groups that a purge leaves, and those that it takes.
  abbrev pub spared : (Group → ℕ) → Group → ℕ
  spared f g = if is_empty peer_count g.groupnum then 0 else f g

  abbrev pub taken : (ℕ → ℕ) → Group → ℕ
  taken w g = if is_empty peer_count g.groupnum then w g.groupnum else 0

  -- No group in use below `i` is empty.
  abbrev Visited : ℕ → Groups → Type 0
  Visited i t =
      (j : ℕ)
      → j < i
      → j < t.chats_idx
      → (group_at t.slots j).active ≡ true
      → is_empty peer_count (group_at t.slots j).groupnum ≡ false

  -- What a purge of `t` that went on to `r` did.
  abbrev pub Purged : Groups → List ℕ → Groups × List ℕ → Type 0
  Purged t gone r =
      IsGroups r.0
      × ((f : Group → ℕ) → bag f r.0 ≡ bag (spared f) t)
      × ((w : ℕ → ℕ) → total w r.1 ≡ total w gone + bag (taken w) t)

  finished :
      (i : ℕ) (t : Groups) (gone : List ℕ)
      → IsGroups t
      → t.chats_idx ≤ i
      → Visited i t
      → Purged t gone (t, gone)
  finished i t gone v h seen = (
    v,
    λ f.
        bag-congr f (spared f) t v (λ j less on. rw (seen j (omega (arith, less, h)) less on) refl),
    λ w. omega (
      arith,
      bag-congr (taken w) (λ _. 0) t v
          (λ j less on. rw (seen j (omega (arith, less, h)) less on) refl),
      no_weight t.slots,
    ),
  )

  -- One leave of the empty group at `i`.
  module _ (i : ℕ) (t : Groups) (v : IsGroups t) (less : i < t.chats_idx) (seen : Visited i t)
      (on : (group_at t.slots i).active ≡ true)
      (e : is_empty peer_count (group_at t.slots i).groupnum ≡ true) where
    abbrev groupnum : ℕ
    groupnum = (group_at t.slots i).groupnum

    abbrev t' : Groups
    t' = group_leave t groupnum

    in_array : i < length t.slots
    in_array = active-lt t.slots i on

    none_numbered : bag (numbered groupnum) t ≡ 0 → ⊥
    none_numbered z = ground (
      arith,
      z,
      get_or-le-total cleared (live (numbered groupnum)) t.slots i in_array,
      on,
      (==_iff groupnum groupnum).1 refl,
    )

    found_here : find_group groupnum (take t.chats_idx t.slots) ≡ some i
    unfolding group_index
    found_here = elim (group_index_lem t v groupnum) [
      | inl (k, found, in_use, is) ↦ elim (Bool-cases (ltb k i)) [
        | inl before ↦
            let full =
              seen k (ltb→lt k i before) in_use
                (is_group-active groupnum (group_at t.slots k) is) in
            absurd (
              no_both (is_empty peer_count (group_at t.slots k).groupnum)
                (ap (is_empty peer_count) (is_group-groupnum groupnum (group_at t.slots k) is) ∙ e)
                full)
        | inr after ↦ elim (Bool-cases (ltb i k)) [
          | inl skipped ↦ absurd (
              no_both (is_group groupnum (group_at t.slots i))
                (is_group-own (group_at t.slots i) on)
                (ap (is_group groupnum) (
                    sym
                      (group_at-take t.slots t.chats_idx i
                        (omega (arith, length-take t.chats_idx t.slots, in_array, less))).0)
                  ∙ find_group-first groupnum (take t.chats_idx t.slots) k i found
                      (ltb→lt i k skipped)))
          | inr same ↦ found ∙ ap some (ground (arith, after, same))
        ]
      ]
      | inr (found, z) ↦ absurd (none_numbered z)
    ]

    left_idx : t'.chats_idx ≤ t.chats_idx
    left_idx = (leave_slots t groupnum i found_here).0

    left-Visited : Visited (i + 1) t'
    left-Visited j before in_use used =
        let at : group_at t'.slots j ≡ group_at (set t.slots i cleared) j =
          (leave_slots t groupnum i found_here).1 j in_use in
        elim (Bool-cases (i == j)) [
          | inl here ↦
              let same : i ≡ j = (==_iff i j).0 here in
              let freed : (group_at t'.slots j).active ≡ false =
                ap (λ s. s.active)
                  (at
                    ∙ ap (group_at (set t.slots i cleared)) (sym same)
                    ∙ get_or-set_self cleared t.slots i cleared in_array) in
              absurd (no_both (group_at t'.slots j).active used freed)
          | inr other ↦
              let kept : group_at t'.slots j ≡ group_at t.slots j =
                at ∙ group_at-set_ne t.slots i j cleared (λ q. ground (arith, other, q)) in
              ap (λ s. is_empty peer_count s.groupnum) kept
              ∙ seen j (ground (arith, before, other)) (omega (arith, in_use, left_idx))
                  (sym (ap (λ s. s.active) kept) ∙ used)
        ]

    left-bag :
        ((f : Group → ℕ) → bag (spared f) t' ≡ bag (spared f) t)
        × ((w : ℕ → ℕ) → bag (taken w) t' + w groupnum ≡ bag (taken w) t)
    left-bag = elim ((group_leave_lem t v groupnum).1) [
      | inl (k, is, out) ↦
          let number = is_group-groupnum groupnum (group_at t.slots k) is in
          let empty = ap (is_empty peer_count) number ∙ e in
          (
            λ f.
                omega
                  (arith, out (spared f), ap (λ b. if b then 0 else f (group_at t.slots k)) empty),
            λ w. omega (
              arith,
              out (taken w),
              ap (λ b. if b then w (group_at t.slots k).groupnum else 0) empty,
              ap w number,
            ),
          )
      | inr (none_left, same) ↦ absurd (none_numbered none_left)
    ]

    -- What follows the leave, counted from before it.
    after_leave :
        (gone : List ℕ) (r : Groups × List ℕ) → Purged t' (groupnum ∷ gone) r → Purged t gone r
    unfolding total
    after_leave gone r (valid, kept, deleted) =
        (valid, λ f. kept f ∙ left-bag.0 f, λ w. omega (arith, deleted w, left-bag.1 w))

  Visited-suc :
      (i : ℕ) (t : Groups)
      → Visited i t
      → ((group_at t.slots i).active ≡ true
          → is_empty peer_count (group_at t.slots i).groupnum ≡ false)
      → Visited (i + 1) t
  Visited-suc i t seen here j before in_use used = elim (Bool-cases (i == j)) [
    | inl e ↦
        let same : i ≡ j = (==_iff i j).0 e in
        ap (λ k. is_empty peer_count (group_at t.slots k).groupnum) (sym same)
        ∙ here (ap (λ k. (group_at t.slots k).active) same ∙ used)
    | inr e ↦ seen j (ground (arith, before, e)) in_use used
  ]

  pub purge_loop-Purged :
      (rounds i : ℕ) (t : Groups) (gone : List ℕ)
      → IsGroups t
      → t.chats_idx ≤ i + rounds
      → Visited i t
      → Purged t gone (purge_loop peer_count rounds i t gone)
  unfolding purge_loop
  purge_loop-Purged zero i t gone v h seen = finished i t gone v (omega (arith, h)) seen
  purge_loop-Purged (suc rounds) i t gone v h seen =
      if-elim (Purged t gone) (leb t.chats_idx i)
        (λ over. finished i t gone v (ground (arith, over)) seen)
        (λ within.
          let less : i < t.chats_idx = ground (arith, within) in
          if-elim (Purged t gone) (not (group_at t.slots i).active)
            (λ off.
              purge_loop-Purged rounds (i + 1) t gone v (omega (arith, h))
                (Visited-suc i t seen (λ on. absurd (ground (arith, on, off)))))
            (λ off.
              let on : (group_at t.slots i).active ≡ true = ground (arith, off) in
              if-elim (Purged t gone) (is_empty peer_count (group_at t.slots i).groupnum)
                (λ e.
                  let next = left-Visited i t v less seen on e in
                  let valid = (group_leave_lem t v (group_at t.slots i).groupnum).0 in
                  after_leave i t v less seen on e gone _ (
                    if-elim
                      (Purged (t' i t v less seen on e) ((group_at t.slots i).groupnum ∷ gone))
                      (leb (t' i t v less seen on e).chats_idx i)
                      (λ over. finished (i + 1) _ _ valid (ground (arith, over)) next)
                      (λ _.
                        purge_loop-Purged rounds (i + 1) _ _ valid
                          (omega (arith, h, left_idx i t v less seen on e)) next)))
                (λ e.
                  purge_loop-Purged rounds (i + 1) t gone v (omega (arith, h))
                    (Visited-suc i t seen (λ _. e)))))
