-- ===== src/Node/Rooms/Loading.antt =====
-- Conferences that toxcore knows and the table does not yet: `load_conferences` and
-- `cb_group_invite` of src/toxrelayer.c.
use tox_relayer.Prelude.{
  ℕ, ◌+◌, ◌≡◌, inl, inr, true, Option, none, List, [], ◌∷◌, arith, length, ◌==◌, if-elim,
  Option-cases, total, total-append,
}
use tox_relayer.Groups.{Group, new_group}
use tox_relayer.Groups.Laws.{IsGroups, bag, group_add_lem}
use tox_relayer.Node.{Node, act, conference_deleted}
use tox_relayer.Node.Rooms.{adopt, load_one, load_loop, load_conferences}
use tox_relayer.Node.Rooms.Purge.{deleted}

-- A weight of conference numbers, on groups.
abbrev pub numbers : (ℕ → ℕ) → Group → ℕ
numbers w g = w g.groupnum

-- What the table holds and what was deleted, weighed together.
abbrev pub accounted : (ℕ → ℕ) → Node → ℕ
accounted w n = bag (numbers w) n.bot.groups + total (deleted w) n.effects

effects-act :
    (w : ℕ → ℕ) (k : ℕ) (n : Node)
    → total (deleted w) (act (conference_deleted k) n).effects ≡ total (deleted w) n.effects + w k
unfolding act total
effects-act w k n = omega (arith, total-append (deleted w) n.effects (conference_deleted k ∷ []))

abbrev Adopted : Node → ℕ → Node → Type 0
Adopted n k n' = IsGroups n'.bot.groups × ((w : ℕ → ℕ) → accounted w n' ≡ accounted w n + w k)

deleted-Adopted :
    (n : Node) (k : ℕ) → IsGroups n.bot.groups → Adopted n k (act (conference_deleted k) n)
unfolding act
deleted-Adopted n k v = (v, λ w. omega (arith, effects-act w k n))

adopt-Adopted : (n : Node) (k kind : ℕ) → IsGroups n.bot.groups → Adopted n k (adopt k kind n)
unfolding adopt new_group
adopt-Adopted n k kind v =
    let added = group_add_lem n.bot.groups v k kind none in
    elim added.1 [
      | inl (room, rc, more) ↦ rw rc (added.0, λ w. omega (arith, more (numbers w)))
      | inr (full, rc, same) ↦ rw (rc, same) (deleted-Adopted n k v)
    ]

load_one-Adopted :
    (kind : ℕ → Option ℕ) (k : ℕ) (n : Node)
    → IsGroups n.bot.groups
    → Adopted n k (load_one kind k n)
unfolding load_one total
load_one-Adopted kind k n v = elim (Option-cases (kind k)) [
  | inl e ↦ rw (e, load_one) (deleted-Adopted n k v)
  | inr (type, e) ↦ rw (e, load_one) (adopt-Adopted n k type v)
]

load_loop-accounted :
    (kind : ℕ → Option ℕ) (chats : List ℕ) (n : Node)
    → IsGroups n.bot.groups
    → IsGroups (load_loop kind chats n).bot.groups
      × ((w : ℕ → ℕ) → accounted w (load_loop kind chats n) ≡ accounted w n + total w chats)
unfolding load_loop total
load_loop-accounted kind [] n v = (v, λ w. omega arith)
load_loop-accounted kind (k ∷ chats) n v =
    let one = load_one-Adopted kind k n v in
    let rest = load_loop-accounted kind chats (load_one kind k n) one.0 in
    (rest.0, λ w. omega (arith, rest.1 w, one.1 w))

-- When memory suffices, `load_conferences` accounts for each conference that toxcore lists, exactly
-- once: it is in the table afterwards, or it is deleted. A well-formed table stays well formed.
pub load_conferences-accounted :
    (kind : ℕ → Option ℕ) (chatlist : List ℕ) (n : Node)
    → IsGroups n.bot.groups
    → let n' = load_conferences true kind chatlist n in
      IsGroups n'.bot.groups × ((w : ℕ → ℕ) → accounted w n' ≡ accounted w n + total w chatlist)
unfolding load_conferences total
load_conferences-accounted kind [] n v = (v, λ w. omega arith)
load_conferences-accounted kind (k ∷ chats) n v =
    if-elim Loaded (length (k ∷ chats) == 0) (λ e. absurd (ground (arith, e)))
      (λ _. load_loop-accounted kind (k ∷ chats) n v)
  where
    Loaded : Node → Type 0
    Loaded n' =
        IsGroups n'.bot.groups
        × ((w : ℕ → ℕ) → accounted w n' ≡ accounted w n + total w (k ∷ chats))
