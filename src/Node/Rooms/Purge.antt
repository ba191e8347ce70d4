-- ===== src/Node/Rooms/Purge.antt =====
-- The purge of the empty groups, `purge_empty_groups` of src/toxrelayer.c, as what it does to the bag
-- of groups and to the conferences of toxcore.
use tox_relayer.Prelude.{ℕ, ◌+◌, ◌≡◌, refl, Option, List, [], ◌∷◌, arith, total, total-append}
use tox_relayer.Groups.{Group}
use tox_relayer.Groups.Laws.{IsGroups, bag}
use tox_relayer.Node.{
  Node, Effect, friend_message_sent, friend_deleted, friend_added, friend_requested,
  conference_deleted, ini_put, name_set, data_saved, bootstrapped, act,
}
use tox_relayer.Node.Rooms.{purge_loop, purge_empty_groups, act_all, with_groups}
use tox_relayer.Node.Rooms.Sweep.{spared, taken, purge_loop-Purged}

-- What the conferences weigh that an effect deletes.
abbrev pub deleted : (ℕ → ℕ) → Effect → ℕ
deleted w (conference_deleted k) = w k
deleted w (friend_message_sent _ _) = 0
deleted w (friend_deleted _) = 0
deleted w (friend_added _) = 0
deleted w (friend_requested _ _) = 0
deleted w (ini_put _ _ _) = 0
deleted w (name_set _) = 0
deleted w data_saved = 0
deleted w bootstrapped = 0

groups-act_all : (gone : List ℕ) (n : Node) → (act_all gone n).bot.groups ≡ n.bot.groups
unfolding act_all act
groups-act_all [] n = refl
groups-act_all (k ∷ gone) n = groups-act_all gone n

deleted-act_all :
    (w : ℕ → ℕ) (gone : List ℕ) (n : Node)
    → total (deleted w) (act_all gone n).effects ≡ total (deleted w) n.effects + total w gone
unfolding act_all act total
deleted-act_all w [] n = omega arith
deleted-act_all w (k ∷ gone) n = omega (
  arith,
  total-append (deleted w) (act_all gone n).effects (conference_deleted k ∷ []),
  deleted-act_all w gone n,
)

-- The purge of a well-formed table takes exactly the groups in use that toxcore does not know or
-- that have no other peer, each time with its conference, and keeps all others as they are. The
-- table stays well formed.
pub purge_empty_groups_lem :
    (peer_count : ℕ → Option ℕ) (n : Node)
    → IsGroups n.bot.groups
    → let n' = purge_empty_groups peer_count n in
      IsGroups n'.bot.groups
      × ((f : Group → ℕ) → bag f n'.bot.groups ≡ bag (spared peer_count f) n.bot.groups)
      × ((w : ℕ → ℕ)
          → total (deleted w) n'.effects
            ≡ total (deleted w) n.effects + bag (taken peer_count w) n.bot.groups)
unfolding purge_empty_groups total
purge_empty_groups_lem peer_count n v =
    let t = n.bot.groups in
    let done =
      purge_loop-Purged peer_count t.chats_idx 0 t [] v (omega arith)
        (λ j less. absurd (omega (arith, less))) in
    let (t', gone) = purge_loop peer_count t.chats_idx 0 t [] in
    let same = groups-act_all gone (with_groups t' n) in
    (
      rw same done.0,
      λ f. rw same (done.1 f),
      λ w. omega (arith, deleted-act_all w gone (with_groups t' n), done.2 w),
    )
