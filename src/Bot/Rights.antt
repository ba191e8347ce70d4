-- ===== src/Bot/Rights.antt =====
-- What a friend who is no master can do with a command.
pub mod Handlers
use tox_relayer.Prelude.{
  ℕ, zero, suc, ◌+◌, ◌-◌, ◌≡◌, refl, ap, sym, ◌∙◌, ◌⊎◌, inl, inr, Bool, true, false, not, Option,
  none, some, List, [], ◌∷◌, ◌++◌, arith, length, take, if◌then◌else◌, if-elim, Option-elim, leb,
  ltb, Bool-cases, total, total-append, ◌≤◌,
}
use tox_relayer.Text.{codes}
use mathlib.Core.List.{append_assoc, append-nil}
use tox_relayer.Text.{str_eq}
use tox_relayer.Misc.KeyFile.{FileIo, file_contains_key}
use tox_relayer.Groups.{Groups, group_add}
use tox_relayer.Commands.{commands_parse}
use tox_relayer.Bot.{
  Answers, Bot, Event, Handler, emit, say, authent_failed, friend_is_master, message_sent,
  conference_message_sent, conference_invited, conference_created, conference_deleted, title_set,
  name_set, status_set, status_message_set, data_saved,
}
use tox_relayer.Bot.Rooms.{new_conference}

-- An event that concerns the friend alone, or a conference made for this command.
abbrev pub IsOwn : Answers → ℕ → Event → Type 0
IsOwn m f (message_sent g text) = g ≡ f
IsOwn m f (conference_message_sent n text) = ⊥
IsOwn m f (conference_invited g n) = g ≡ f
IsOwn m f (conference_created n) = (kind : ℕ) × (new_conference m kind ≡ some n)
IsOwn m f (conference_deleted n) = (kind : ℕ) × (new_conference m kind ≡ some n)
IsOwn m f (title_set n text) = ⊥
IsOwn m f (name_set text) = ⊥
IsOwn m f (status_set s) = ⊥
IsOwn m f (status_message_set text) = ⊥
IsOwn m f data_saved = ⊥

abbrev pub AllOwn : Answers → ℕ → List Event → Type 0
AllOwn m f [] = Unit {0}
AllOwn m f (e ∷ es) = IsOwn m f e × AllOwn m f es

-- Whether an event makes a conference, as 1 or 0, and how many of a list do.
abbrev pub creation : Event → ℕ
creation (conference_created n) = 1
creation (message_sent g text) = 0
creation (conference_message_sent n text) = 0
creation (conference_invited g n) = 0
creation (conference_deleted n) = 0
creation (title_set n text) = 0
creation (name_set text) = 0
creation (status_set s) = 0
creation (status_message_set text) = 0
creation data_saved = 0

-- A missing masters file may have been created empty.
abbrev pub SameMasters : Option (List ℕ) → Option (List ℕ) → Type 0
SameMasters a b = (b ≡ a) ⊎ ((a ≡ none) × (b ≡ some []))

-- The table is the same, or as one `group_add` leaves it.
abbrev pub OneMore : Groups → Groups → Type 0
OneMore t t' =
    (t' ≡ t)
    ⊎ ((groupnum kind : ℕ) × (password : Option (List ℕ)) × (t'
          ≡ (group_add t groupnum kind password).0))

-- A step that needs no right.
pub record NoRight (m : Answers) (f : ℕ) (b b' : Bot) : Type 0 where
  pub limit : b'.inactive_limit ≡ b.inactive_limit
  pub default : b'.default_groupnum ≡ b.default_groupnum
  pub masters : SameMasters b.masters b'.masters
  pub groups : OneMore b.groups b'.groups
  pub added : List Event
  pub events : b'.events ≡ b.events ++ added
  pub own : AllOwn m f added
  pub few : total creation added ≤ 1

AllOwn-append :
    (m : Answers) (f : ℕ) (xs : List Event) (e : Event)
    → AllOwn m f xs
    → IsOwn m f e
    → AllOwn m f (xs ++ (e ∷ []))
AllOwn-append m f [] e h k = (k, tt)
AllOwn-append m f (x ∷ xs) e h k = (h.0, AllOwn-append m f xs e h.1 k)

pub no_creation : total creation [] ≤ 1
unfolding total
no_creation = omega arith

pub one_creation : (n : ℕ) → total creation (conference_created n ∷ []) ≤ 1
unfolding total
one_creation n = omega arith

one_more :
    (xs : List Event) (e : Event)
    → total creation xs ≤ 1
    → creation e ≡ 0
    → total creation (xs ++ (e ∷ [])) ≤ 1
unfolding total
one_more xs e h z = omega (arith, total-append creation xs (e ∷ []), h, z)

module _ (m : Answers) (f : ℕ) (b : Bot) where
  pub NoRight-refl : NoRight m f b b
  NoRight-refl = record {
    limit = refl;
    default = refl;
    masters = inl refl;
    groups = inl refl;
    added = [];
    events = sym (append-nil b.events);
    own = tt;
    few = no_creation;
  }

  pub emit-NoRight :
      (b' : Bot) (e : Event)
      → NoRight m f b b'
      → IsOwn m f e
      → creation e ≡ 0
      → NoRight m f b (emit e b')
  unfolding emit
  emit-NoRight b' e h k z = record {
    limit = h.limit;
    default = h.default;
    masters = h.masters;
    groups = h.groups;
    added = h.added ++ (e ∷ []);
    events = ap (λ es. es ++ (e ∷ [])) h.events ∙ append_assoc b.events h.added (e ∷ []);
    own = AllOwn-append m f h.added e h.own k;
    few = one_more h.added e h.few z;
  }

  pub say-NoRight : (b' : Bot) (text : List ℕ) → NoRight m f b b' → NoRight m f b (say f text b')
  unfolding say
  say-NoRight b' text h = emit-NoRight b' (message_sent f text) h refl refl

SameMasters-read :
    (size : ℕ) (io : FileIo) (key : List ℕ) (file : Option (List ℕ))
    → SameMasters file (file_contains_key size io key file).0
unfolding file_contains_key
SameMasters-read size io key none =
    if-elim (SameMasters none) io.created (λ _. inr (refl, refl)) (λ _. inl refl)
SameMasters-read size io key (some bytes) =
    if-elim (λ (r : Option (List ℕ) × Bool). SameMasters (some bytes) r.0) (not io.opened)
      (λ _. inl refl) (λ _. inl refl)

SameMasters-trans : (a b c : Option (List ℕ)) → SameMasters a b → SameMasters b c → SameMasters a c
SameMasters-trans a b c (inl e) (inl d) = inl (d ∙ e)
SameMasters-trans a b c (inl e) (inr (d, d')) = inr (sym e ∙ d, d')
SameMasters-trans a b c (inr (e, e')) (inl d) = inr (e, d ∙ e')
SameMasters-trans a b c (inr (e, e')) (inr (d, d')) = inr (e, d')

module _ (m : Answers) (f : ℕ) (b : Bot) where
  pub check-NoRight : (b' : Bot) → NoRight m f b b' → NoRight m f b (friend_is_master m f b').0
  unfolding friend_is_master
  check-NoRight b' h =
      Option-elim (λ (r : Bot × Bool). NoRight m f b r.0) (m.public_key f) (λ _. h)
        (λ key _. record {
          limit = h.limit;
          default = h.default;
          masters =
              SameMasters-trans b.masters b'.masters
                (file_contains_key m.key_size m.io key b'.masters).0 h.masters
                (SameMasters-read m.key_size m.io key b'.masters);
          groups = h.groups;
          added = h.added;
          events = h.events;
          own = h.own;
          few = h.few;
        })

  -- A handler that refuses friends who are no masters.
  pub refused-NoRight :
      (rest : Bot)
      → (friend_is_master m f b).1 ≡ false
      → NoRight m f b (
          if not (friend_is_master m f b).1
          then authent_failed f (friend_is_master m f b).0
          else rest)
  unfolding authent_failed
  refused-NoRight rest h = rw h (say-NoRight m f b _ _ (check-NoRight b (NoRight-refl m f b)))
