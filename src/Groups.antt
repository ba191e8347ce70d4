-- ===== src/Groups.antt =====
-- The table of group chats, src/groupchats.h and src/groupchats.c. `slots` is the allocated array;
-- an allocation that fails ends the program, so `realloc` succeeds here.
pub mod Slots
pub mod Laws
pub mod Leave
mod Tests
use tox_relayer.Prelude.{
  ℕ, zero, suc, ◌+◌, ◌-◌, Bool, true, false, not, ◌&&◌, Option, none, some, List, [], ◌∷◌, ◌++◌,
  if◌then◌else◌, leb, ◌==◌, length, take, set, get_or, replicate,
}
use tox_relayer.Prelude.Int.{ℤ, pos, negsuc}
use mathlib.Core.Option

abbrev pub max_num_groups : ℕ
max_num_groups = 256

abbrev pub max_password_size : ℕ
max_password_size = 64

-- `struct Group_Chat`; `title` and `password` are the strings in the buffers.
pub record Group : Type 0 where
  pub groupnum : ℕ
  pub active : Bool
  pub has_pass : Bool
  pub kind : ℕ
  pub title : List ℕ
  pub title_len : ℕ
  pub password : List ℕ

-- A slot that was cleared by `memset`.
abbrev pub cleared : Group
cleared = record {
  groupnum = 0;
  active = false;
  has_pass = false;
  kind = 0;
  title = [];
  title_len = 0;
  password = [];
}

-- `Tox_Bot.g_chats` and `Tox_Bot.chats_idx`.
pub record Groups : Type 0 where
  pub slots : List Group
  pub chats_idx : ℕ

abbrev pub no_groups : Groups
no_groups = record { slots = []; chats_idx = 0 }

abbrev pub group_at : List Group → ℕ → Group
group_at slots i = get_or slots i cleared

unfoldable pub realloc_groupchats : List Group → ℕ → List Group
realloc_groupchats slots n = take n slots ++ replicate (n - length slots) cleared

-- The slot at which the loop of `group_add` stops.
unfoldable pub find_inactive : List Group → Option ℕ
find_inactive [] = none
find_inactive (s ∷ ss) =
    let rest = Option.map suc (find_inactive ss) in if s.active then rest else some 0

abbrev pub password_of : Option (List ℕ) → List ℕ
password_of none = []
password_of (some password) = take (max_password_size - 1) password

abbrev pub is_some {ℓ} : {A : Type ℓ} → Option A → Bool
is_some none = false
is_some (some _) = true

-- The group that `group_add` writes.
unfoldable pub new_group : ℕ → ℕ → Option (List ℕ) → Group
new_group groupnum kind password = record cleared {
  groupnum = groupnum;
  active = true;
  kind = kind;
  has_pass = is_some password;
  password = password_of password;
}

unfoldable pub group_add : Groups → ℕ → ℕ → Option (List ℕ) → Groups × ℤ
group_add t groupnum kind password =
    let slots = set (realloc_groupchats t.slots (t.chats_idx + 1)) t.chats_idx cleared in
    if leb max_num_groups t.chats_idx then (t, negsuc 0) else elim (find_inactive slots) [
      | none ↦ (record t { slots = slots }, negsuc 0)
      | some i ↦ (
        record {
          slots = set slots i (new_group groupnum kind password);
          chats_idx = if t.chats_idx == i then t.chats_idx + 1 else t.chats_idx;
        },
        pos 0,
      )
    ]

abbrev pub is_group : ℕ → Group → Bool
is_group groupnum s = s.active && (s.groupnum == groupnum)

-- The index at which the loops of `group_leave` and `group_index` stop.
unfoldable pub find_group : ℕ → List Group → Option ℕ
find_group groupnum [] = none
find_group groupnum (s ∷ ss) =
    let rest = Option.map suc (find_group groupnum ss) in
    if is_group groupnum s then some 0 else rest

-- The second loop of `group_leave`, from `i` down.
unfoldable pub trim : List Group → ℕ → ℕ
trim slots zero = 0
trim slots (suc i) = let rest = trim slots i in if (group_at slots i).active then suc i else rest

unfoldable pub clear_at : List Group → Option ℕ → List Group
clear_at slots none = slots
clear_at slots (some i) = set slots i cleared

unfoldable pub group_leave : Groups → ℕ → Groups
group_leave t groupnum =
    let slots = clear_at t.slots (find_group groupnum (take t.chats_idx t.slots)) in
    let i = trim slots t.chats_idx in record { slots = realloc_groupchats slots i; chats_idx = i }

-- `none` is -1.
unfoldable pub group_index : Groups → ℕ → Option ℕ
group_index t groupnum = find_group groupnum (take t.chats_idx t.slots)
