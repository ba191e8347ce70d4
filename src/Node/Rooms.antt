-- ===== src/Node/Rooms.antt =====
-- The callbacks and loops of src/toxrelayer.c that keep the table of groups and the friends in step
-- with toxcore.
pub mod Places
pub mod Purge
pub mod Sweep
pub mod Loading
mod Tests
use tox_relayer.Prelude.{
  ℕ, zero, suc, ◌+◌, ◌-◌, ◌%◌, ◌^◌, Bool, true, false, not, ◌||◌, Option, none, some, List, [], ◌∷◌,
  if◌then◌else◌, ltb, leb, ◌==◌, length, take, set,
}
use tox_relayer.Prelude.Int.{ℤ, pos, negsuc, eqb_ℤ}
use tox_relayer.Text.{c_str}
use tox_relayer.Groups.{Groups, group_at, group_add, group_leave, group_index}
use tox_relayer.Node.{Node, Effect, conference_deleted, friend_deleted, act, copy_tox_str}

abbrev pub with_groups : Groups → Node → Node
with_groups groups n = record n { bot = record (n.bot) { groups = groups } }

-- TOX_CONFERENCE_TYPE_TEXT, TOX_CONFERENCE_TYPE_AV, and what toxcore answers to an invitation: `none`
-- for an error. An unknown type leaves the group number at -1.
pub record Invitation : Type 0 where
  pub type_text : ℕ
  pub type_av : ℕ
  pub join_text : Option ℕ
  pub join_av : Option ℕ

unfoldable pub joined : Invitation → ℕ → Option ℕ
joined v kind =
    if kind == v.type_text
    then v.join_text
    else if kind == v.type_av
    then v.join_av
    else some 4294967295

-- A group that toxcore has, put into the table, or deleted where there is no room.
unfoldable pub adopt : ℕ → ℕ → Node → Node
adopt groupnum kind n =
    let (groups, rc) = group_add n.bot.groups groupnum kind none in
    if eqb_ℤ rc (pos 0)
    then with_groups groups n
    else act (conference_deleted groupnum) (with_groups groups n)

unfoldable pub cb_group_invite : Invitation → ℕ → Node → Node
cb_group_invite v kind n = elim (joined v kind) [ none ↦ n | some groupnum ↦ adopt groupnum kind n ]

-- `max_length` is TOX_MAX_MESSAGE_LENGTH and `max_name_length` TOX_MAX_NAME_LENGTH.
unfoldable pub cb_group_titlechange :
    (max_length max_name_length : ℕ) → ℕ → List ℕ → ℕ → Node → Node
cb_group_titlechange max_length max_name_length groupnumber title length n =
    let (message, len) = copy_tox_str max_length title length in
    let copy_len = if ltb len (max_name_length - 1) then len else max_name_length - 1 in
    let groups = n.bot.groups in
    elim (group_index groups groupnumber) [
      | none ↦ n
      | some idx ↦
          with_groups
            (record groups {
              slots = set groups.slots idx (record (group_at groups.slots idx) {
                title = c_str (take copy_len message);
                title_len = copy_len;
              });
            })
            n
    ]

-- One conference in the loop of `load_conferences`; `kind` answers its type, `none` for an error.
unfoldable pub load_one : (ℕ → Option ℕ) → ℕ → Node → Node
load_one kind groupnumber n = elim (kind groupnumber) [
  | none ↦ act (conference_deleted groupnumber) n
  | some type ↦ adopt groupnumber type n
]

unfoldable pub load_loop : (ℕ → Option ℕ) → List ℕ → Node → Node
load_loop kind [] n = n
load_loop kind (groupnumber ∷ chats) n = load_loop kind chats (load_one kind groupnumber n)

-- `allocated` is whether `malloc` succeeds.
unfoldable pub load_conferences : Bool → (ℕ → Option ℕ) → List ℕ → Node → Node
load_conferences allocated kind chatlist n =
    if length chatlist == 0 then n else if not allocated then n else load_loop kind chatlist n

-- Whether the purge takes a group: toxcore does not know its peers, or there is at most one.
abbrev pub is_empty : (ℕ → Option ℕ) → ℕ → Bool
is_empty peer_count groupnum = elim (peer_count groupnum) [ none ↦ true | some peers ↦ leb peers 1 ]

-- The loop of `purge_empty_groups` from slot `i` on, with the conferences that it deleted. The index
-- grows each round, so as many rounds as the table has are enough.
unfoldable pub purge_loop : (ℕ → Option ℕ) → ℕ → ℕ → Groups → List ℕ → Groups × List ℕ
purge_loop peer_count zero i t gone = (t, gone)
purge_loop peer_count (suc rounds) i t gone =
    let g = group_at t.slots i in
    let t' = group_leave t g.groupnum in
    let kept = purge_loop peer_count rounds (i + 1) t gone in
    let left = purge_loop peer_count rounds (i + 1) t' (g.groupnum ∷ gone) in
    if leb t.chats_idx i
    then (t, gone)
    else if not g.active
    then kept
    else if is_empty peer_count g.groupnum
    then if leb t'.chats_idx i then (t', g.groupnum ∷ gone) else left
    else kept

unfoldable pub act_all : List ℕ → Node → Node
act_all [] n = n
act_all (groupnum ∷ gone) n = act (conference_deleted groupnum) (act_all gone n)

unfoldable pub purge_empty_groups : (ℕ → Option ℕ) → Node → Node
purge_empty_groups peer_count n =
    let (t, gone) = purge_loop peer_count n.bot.groups.chats_idx 0 n.bot.groups [] in
    act_all gone (with_groups t n)

-- `get_time() - last_online` as a `uint64_t`.
unfoldable pub since : ℕ → ℕ → ℕ
since now last_online = (now + (2 ^ 64 - last_online % 2 ^ 64)) % 2 ^ 64

-- Whether the purge takes a friend; `last_online` is `none` for an error.
unfoldable pub is_inactive : ℕ → ℕ → (ℕ → Bool) → (ℕ → Option ℕ) → ℕ → Bool
is_inactive now inactive_limit exists last_online friendnum =
    if not (exists friendnum) then false else elim (last_online friendnum) [
      | none ↦ false
      | some seen ↦ ltb inactive_limit (since now seen)
    ]

unfoldable pub purge_friends : (ℕ → Bool) → List ℕ → Node → Node
purge_friends inactive [] n = n
purge_friends inactive (f ∷ fs) n =
    purge_friends inactive fs (if inactive f then act (friend_deleted f) n else n)

unfoldable pub purge_inactive_friends : ℕ → (ℕ → Bool) → (ℕ → Option ℕ) → List ℕ → Node → Node
purge_inactive_friends now exists last_online friends n =
    purge_friends (is_inactive now n.bot.inactive_limit exists last_online) friends n
