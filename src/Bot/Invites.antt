-- ===== src/Bot/Invites.antt =====
-- The password of a group: what `/passwd` sets is what `/invite` asks for.
use tox_relayer.Prelude.{
  ℕ, zero, suc, ◌-◌, ◌≤◌, ◌<◌, ◌≡◌, ◌≢◌, refl, ap, ◌∙◌, Bool, true, false, not, Option, none, some,
  List, [], ◌∷◌, arith, length, take, set, get_or-set_self, if-elim, Option-elim, Bool-cases, inl,
  inr, leb,
}
use tox_relayer.Prelude.Int.{pos, pos_part}
use tox_relayer.Text.{codes, digits, print_long, str_eq}
use tox_relayer.Text.Bytes.{str_eq_iff, take_all}
use tox_relayer.Misc.Numbers.{parse_int_range-print_long}
use tox_relayer.Groups.{
  Group, Groups, cleared, group_at, is_group, find_group, group_index, max_password_size,
}
use tox_relayer.Bot.{
  Answers, Bot, emit, say, friend_is_master, parse_group_number, conference_invited,
}
use tox_relayer.Bot.Rooms.{cmd_passwd, cmd_invite, invite_to, wrong_password, with_group}
use mathlib.Core.Option

-- What the answer of a search says of the slot there: it holds the group, and writing `g` to it
-- leaves the search as it is.
abbrev Hit : ℕ → ℕ → Group → List Group → Option ℕ → Type 0
Hit n k g slots none = Unit {0}
Hit n k g slots (some i) =
    (i < length slots)
    × (is_group n (group_at slots i) ≡ true)
    × (find_group n (take k (set slots i g)) ≡ some i)

Hit-suc :
    (n k : ℕ) (g s : Group) (ss : List Group) (o : Option ℕ)
    → is_group n s ≡ false
    → Hit n k g ss o
    → Hit n (suc k) g (s ∷ ss) (Option.map suc o)
unfolding find_group
Hit-suc n k g s ss none e h = tt
Hit-suc n k g s ss (some i) e h = (omega (arith, h.0), h.1, rw (e, h.2) refl)

find_group-Hit :
    (n k : ℕ) (g : Group) (slots : List Group)
    → is_group n g ≡ true
    → Hit n k g slots (find_group n (take k slots))
unfolding find_group
find_group-Hit n zero g slots e = tt
find_group-Hit n (suc k) g [] e = tt
find_group-Hit n (suc k) g (s ∷ ss) e =
    let rest = find_group-Hit n k g ss e in
    if-elim (Hit n (suc k) g (s ∷ ss)) (is_group n s) (λ h. (omega arith, h, rw e refl))
      (λ h. Hit-suc n k g s ss (find_group n (take k ss)) h rest)

group_index-Hit :
    (t : Groups) (n i : ℕ) (g : Group)
    → group_index t n ≡ some i
    → is_group n g ≡ true
    → Hit n t.chats_idx g t.slots (some i)
unfolding group_index
group_index-Hit t n i g h e = rw h at (find_group-Hit n t.chats_idx g t.slots e)

parse_group_number-digits : (n : ℕ) → n ≤ 2147483647 → parse_group_number (digits n) ≡ some n
unfolding parse_group_number print_long
parse_group_number-digits n h = ap (Option.map pos_part) (
    parse_int_range-print_long (pos n) (pos 0) (pos 2147483647) (omega arith) (ground (arith, h))
      (ground (arith, h)))

groups-friend_is_master :
    (m : Answers) (f : ℕ) (b : Bot) → (friend_is_master m f b).0.groups ≡ b.groups
unfolding friend_is_master
groups-friend_is_master m f b =
    Option-elim (λ (r : Bot × Bool). r.0.groups ≡ b.groups) (m.public_key f) (λ _. refl)
      (λ _ _. refl)

-- A group with another password is still the group.
is_group-password :
    (n : ℕ) (g : Group) (pw : List ℕ)
    → is_group n (record g { has_pass = true; password = pw }) ≡ is_group n g
is_group-password n g pw = refl

-- The bot after `/passwd`.
module _ (b : Bot) (n idx : ℕ) (pw : List ℕ) (found : group_index b.groups n ≡ some idx) where
  abbrev protected : Group
  protected = record (group_at b.groups.slots idx) { has_pass = true; password = pw }

  protected-Hit : Hit n b.groups.chats_idx protected b.groups.slots (some idx)
  protected-Hit =
      let hit =
        group_index-Hit b.groups n idx (record cleared { active = true; groupnum = n }) found
          (ground arith) in
      group_index-Hit b.groups n idx protected found hit.1

  index-protected : group_index (with_group idx protected b).groups n ≡ some idx
  unfolding group_index
  index-protected = protected-Hit.2

  protected-at : group_at (with_group idx protected b).groups.slots idx ≡ protected
  protected-at = get_or-set_self cleared b.groups.slots idx protected protected-Hit.0

abbrev pub passwd_args : ℕ → List ℕ → List (List ℕ)
passwd_args n pw = codes "/passwd" ∷ digits n ∷ pw ∷ []

abbrev pub invite_args : ℕ → List ℕ → List (List ℕ)
invite_args n pw = codes "/invite" ∷ digits n ∷ pw ∷ []

-- `/invite` of a group that is there.
module _ (m : Answers) (g n idx : ℕ) (w : List ℕ) (bot : Bot) (small : n ≤ 2147483647)
    (found : group_index bot.groups n ≡ some idx) where
  invite_numbered : cmd_invite m g 2 (invite_args n w) bot ≡ invite_to m g 2 (invite_args n w) n bot
  unfolding cmd_invite
  invite_numbered = rw (parse_group_number-digits n small) refl

  invite_refused :
      wrong_password (group_at bot.groups.slots idx) 2 (invite_args n w) ≡ true
      → cmd_invite m g 2 (invite_args n w) bot ≡ say g (codes "Invalid password.") bot
  unfolding invite_to
  invite_refused h = invite_numbered ∙ rw (found, h, invite_to) refl

  invite_accepted :
      wrong_password (group_at bot.groups.slots idx) 2 (invite_args n w) ≡ false
      → m.invite_to_conference g n ≡ none
      → cmd_invite m g 2 (invite_args n w) bot ≡ emit (conference_invited g n) bot
  unfolding invite_to
  invite_accepted h e = invite_numbered ∙ rw (found, h, e, invite_to) refl

module _ (m : Answers) (f g : ℕ) (b : Bot) (n idx : ℕ) (pw : List ℕ) (small : n ≤ 2147483647)
    (found : group_index b.groups n ≡ some idx) (fits : length pw < max_password_size) where
  abbrev checked : Bot
  checked = (friend_is_master m f b).0

  found' : group_index checked.groups n ≡ some idx
  found' = ap (λ t. group_index t n) (groups-friend_is_master m f b) ∙ found

  cmd_passwd-protected :
      (friend_is_master m f b).1 ≡ true
      → cmd_passwd m f 2 (passwd_args n pw) b
        ≡ say f (codes "Password set") (with_group idx (protected checked n idx pw found') checked)
  unfolding cmd_passwd
  cmd_passwd-protected master =
      rw (master, parse_group_number-digits n small, found')
        (rw (take_all pw (max_password_size - 1) (omega arith), long) refl)
    where
      long : leb max_password_size (length pw) ≡ false
      long = ground (arith, fits)

  answered : Bot
  answered =
      say f (codes "Password set") (with_group idx (protected checked n idx pw found') checked)

  answered-index : group_index answered.groups n ≡ some idx
  unfolding answered say emit
  answered-index = index-protected checked n idx pw found'

  answered-password :
      (w : List ℕ)
      → wrong_password (group_at answered.groups.slots idx) 2 (invite_args n w) ≡ not (str_eq w pw)
  unfolding answered say emit
  answered-password w =
      ap (λ s. wrong_password s 2 (invite_args n w)) (protected-at checked n idx pw found')

  -- Once a master has set the password of a group in the table with `/passwd`, where the password fits its
  -- buffer and the number of the group an int, `/invite` of that group with the same
  -- text invites the friend, when toxcore does, and with any other text is refused. The texts are the
  -- arguments as they were typed: a password that was set in quotes is refused without them.
  pub passwd-invite :
      (w : List ℕ)
      → (friend_is_master m f b).1 ≡ true
      → m.invite_to_conference g n ≡ none
      → w ≢ pw
      → let bot = cmd_passwd m f 2 (passwd_args n pw) b in
        (cmd_invite m g 2 (invite_args n pw) bot ≡ emit (conference_invited g n) bot)
        × (cmd_invite m g 2 (invite_args n w) bot ≡ say g (codes "Invalid password.") bot)
  unfolding answered
  passwd-invite w master e other = rw (cmd_passwd-protected master) (
    invite_accepted m g n idx pw answered small answered-index
        (answered-password pw ∙ ap not ((str_eq_iff pw pw).1 refl)) e,
    invite_refused m g n idx w answered small answered-index
        (answered-password w ∙ ap not different),
  )
    where
      different : str_eq w pw ≡ false
      different = elim (Bool-cases (str_eq w pw)) [
        | inl h ↦ absurd (other ((str_eq_iff w pw).0 h))
        | inr h ↦ h
      ]
