-- ===== src/Bot/Rights/Handlers.antt =====
-- The handlers of the command table, for a friend who is no master.
use tox_relayer.Prelude.{
  ℕ, ◌≡◌, refl, ap, inl, inr, false, Option, none, some, List, [], ◌∷◌, length, if-elim,
  Option-elim, leb, ltb, ◌==◌, ◌-◌, if◌then◌else◌,
}
use tox_relayer.Prelude.Int.{ℤ}
use tox_relayer.Text.{str_eq}
use tox_relayer.Groups.{group_add, group_at, group_index, max_password_size}
use tox_relayer.Commands.{commands_parse}
use tox_relayer.Bot.{
  Answers, Bot, arg, emit, say, conference_created, send_error, friend_is_master,
  parse_group_number,
}
use tox_relayer.Bot.Rooms.{
  cmd_default, cmd_gmessage, cmd_group, cmd_invite, cmd_leave, cmd_passwd, cmd_title_set,
  new_conference, is_made, made, created_group, checked_group, group_type, invite_to,
  wrong_password, failed,
}
use tox_relayer.Bot.Profile.{cmd_master, cmd_name, cmd_purge, cmd_status, cmd_statusmessage}
use tox_relayer.Bot.Info.{
  cmd_help, cmd_id, cmd_info, say_all, say_groups, help_lines, info_lines, listed_groups,
}
use tox_relayer.Bot.Execute.{Command, commands, run_command, do_command, execute}
use tox_relayer.Bot.Rights.{
  NoRight, NoRight-refl, one_creation, emit-NoRight, say-NoRight, check-NoRight, refused-NoRight,
}

module _ (m : Answers) (f : ℕ) (b : Bot) where
  say_all-NoRight :
      (ts : List (List ℕ)) (b' : Bot) → NoRight m f b b' → NoRight m f b (say_all f ts b')
  unfolding say_all
  say_all-NoRight [] b' h = h
  say_all-NoRight (t ∷ ts) b' h = say_all-NoRight ts (say f t b') (say-NoRight m f b _ _ h)

  say_groups-NoRight :
      (ns : List ℕ) (b' : Bot) → NoRight m f b b' → NoRight m f b (say_groups m f ns b')
  unfolding say_groups
  say_groups-NoRight [] b' h = h
  say_groups-NoRight (n ∷ ns) b' h =
      say_groups-NoRight ns _
        (Option-elim (NoRight m f b) (m.peer_count n) (λ _. h) (λ peers _. say-NoRight m f b _ _ h))

  help-NoRight : (argc : ℕ) (argv : List (List ℕ)) → NoRight m f b (cmd_help m f argc argv b)
  unfolding cmd_help
  help-NoRight argc argv =
      let said = say_all-NoRight help_lines b (NoRight-refl m f b) in
      let checked = check-NoRight m f b (say_all f help_lines b) said in
      if-elim (NoRight m f b) (friend_is_master m f (say_all f help_lines b)).1
        (λ _. say-NoRight m f b _ _ checked) (λ _. checked)

  id-NoRight : (argc : ℕ) (argv : List (List ℕ)) → NoRight m f b (cmd_id m f argc argv b)
  unfolding cmd_id
  id-NoRight argc argv = say-NoRight m f b _ _ (say-NoRight m f b _ _ (NoRight-refl m f b))

  info-NoRight : (argc : ℕ) (argv : List (List ℕ)) → NoRight m f b (cmd_info m f argc argv b)
  unfolding cmd_info
  info-NoRight argc argv =
      let said = say_all-NoRight (info_lines m b) b (NoRight-refl m f b) in
      if-elim (NoRight m f b) (m.num_chats == 0) (λ _. say-NoRight m f b _ _ said)
        (λ _. say_groups-NoRight (listed_groups m) _ said)

  invite_to-NoRight :
      (argc : ℕ) (argv : List (List ℕ)) (n : ℕ) → NoRight m f b (invite_to m f argc argv n b)
  unfolding invite_to send_error
  invite_to-NoRight argc argv n =
      let same = NoRight-refl m f b in
      Option-elim (NoRight m f b) (group_index b.groups n) (λ _. say-NoRight m f b _ _ same)
        (λ idx _.
          if-elim (NoRight m f b) (wrong_password (group_at b.groups.slots idx) argc argv)
            (λ _. say-NoRight m f b _ _ same)
            (λ _.
              Option-elim (NoRight m f b) (m.invite_to_conference f n)
                (λ _. emit-NoRight m f b _ _ same refl refl) (λ err _. say-NoRight m f b _ _ same)))

  invite-NoRight : (argc : ℕ) (argv : List (List ℕ)) → NoRight m f b (cmd_invite m f argc argv b)
  unfolding cmd_invite
  invite-NoRight argc argv =
      if-elim (NoRight m f b) (leb 1 argc)
        (λ _.
          Option-elim (NoRight m f b) (parse_group_number (arg argv 1))
            (λ _. say-NoRight m f b _ _ (NoRight-refl m f b))
            (λ n _. invite_to-NoRight argc argv n))
        (λ _. invite_to-NoRight argc argv b.default_groupnum)

  -- What follows once toxcore has made a conference; the table is still the same.
  module _ (b' : Bot) (h : NoRight m f b b') (same : b'.groups ≡ b.groups) where
    group_add-NoRight :
        (n kind : ℕ) (password : Option (List ℕ))
        → NoRight m f b (record b' { groups = (group_add b'.groups n kind password).0 })
    group_add-NoRight n kind password = record {
      limit = h.limit;
      default = h.default;
      masters = h.masters;
      groups = inr (n, kind, password, ap (λ t. (group_add t n kind password).0) same);
      added = h.added;
      events = h.events;
      own = h.own;
      few = h.few;
    }

    created_group-NoRight :
        (n kind : ℕ) (password : Option (List ℕ))
        → new_conference m kind ≡ some n
        → NoRight m f b (created_group m f n kind password b')
    unfolding created_group
    created_group-NoRight n kind password e =
        let added = group_add-NoRight n kind password in
        if-elim (NoRight m f b) (failed (group_add b'.groups n kind password).1)
          (λ _. emit-NoRight m f b _ _ (say-NoRight m f b _ _ added) (kind, e) refl)
          (λ _. say-NoRight m f b _ _ added)

    checked_group-NoRight :
        (n kind : ℕ) (password : Option (List ℕ))
        → new_conference m kind ≡ some n
        → NoRight m f b (checked_group m f n kind password b')
    unfolding checked_group
    checked_group-NoRight n kind none e = created_group-NoRight n kind none e
    checked_group-NoRight n kind (some password) e =
        if-elim (NoRight m f b) (leb max_password_size (length password))
          (λ _. say-NoRight m f b _ _ h) (λ _. created_group-NoRight n kind (some password) e)

  created-NoRight :
      (n kind : ℕ) → new_conference m kind ≡ some n → NoRight m f b (emit (conference_created n) b)
  unfolding emit
  created-NoRight n kind e = record {
    limit = refl;
    default = refl;
    masters = inl refl;
    groups = inl refl;
    added = conference_created n ∷ [];
    events = refl;
    own = ((kind, e), tt);
    few = one_creation n;
  }

  group-NoRight : (argc : ℕ) (argv : List (List ℕ)) → NoRight m f b (cmd_group m f argc argv b)
  unfolding cmd_group made emit
  group-NoRight argc argv =
      let same = NoRight-refl m f b in
      let kind = group_type m (arg argv 1) in
      let password = if leb 2 argc then some (arg argv 2) else none in
      if-elim (NoRight m f b) (ltb argc 1) (λ _. say-NoRight m f b _ _ same)
        (λ _.
          Option-elim (NoRight m f b) (new_conference m kind) (λ _. say-NoRight m f b _ _ same)
            (λ n e.
              if-elim (λ b'. NoRight m f b (checked_group m f n kind password b')) (is_made m kind)
                (λ _.
                  checked_group-NoRight (emit (conference_created n) b) (created-NoRight n kind e)
                    refl n kind password e)
                (λ _. checked_group-NoRight b same refl n kind password e)))

  -- The handlers of a table that give no right.
  abbrev Harmless : List Command → Type 0
  Harmless [] = Unit {0}
  Harmless (c ∷ cs) =
      ((argc : ℕ) (argv : List (List ℕ)) → NoRight m f b (c.func m f argc argv b)) × Harmless cs

  commands-Harmless : (friend_is_master m f b).1 ≡ false → Harmless commands
  unfolding cmd_default cmd_gmessage cmd_leave cmd_master cmd_name cmd_passwd cmd_purge cmd_status
      cmd_statusmessage cmd_title_set
  commands-Harmless h = (
    (λ argc argv. refused-NoRight m f b _ h),
    (
      group-NoRight,
      (
        (λ argc argv. refused-NoRight m f b _ h),
        (
          help-NoRight,
          (
            id-NoRight,
            (
              info-NoRight,
              (
                invite-NoRight,
                (
                  (λ argc argv. refused-NoRight m f b _ h),
                  (
                    (λ argc argv. refused-NoRight m f b _ h),
                    (
                      (λ argc argv. refused-NoRight m f b _ h),
                      (
                        (λ argc argv. refused-NoRight m f b _ h),
                        (
                          (λ argc argv. refused-NoRight m f b _ h),
                          (
                            (λ argc argv. refused-NoRight m f b _ h),
                            (
                              (λ argc argv. refused-NoRight m f b _ h),
                              ((λ argc argv. refused-NoRight m f b _ h), tt),
                            ),
                          ),
                        ),
                      ),
                    ),
                  ),
                ),
              ),
            ),
          ),
        ),
      ),
    ),
  )

  run_command-NoRight :
      (cs : List Command) (argc : ℕ) (args : List (List ℕ))
      → Harmless cs
      → NoRight m f b (run_command cs m f argc args b).0
  unfolding run_command
  run_command-NoRight [] argc args h = NoRight-refl m f b
  run_command-NoRight (c ∷ cs) argc args h =
      let rest = run_command-NoRight cs argc args h.1 in
      if-elim (λ (r : Bot × ℤ). NoRight m f b r.0) (str_eq (arg args 0) c.name) (λ _. h.0 argc args)
        (λ _. rest)

  -- A command of a friend who is no master changes neither the purge limit, the default group nor
  -- the masters file (which is created empty where there is none), changes the table of groups by
  -- one `group_add` at most, and makes toxcore do nothing but send messages to that friend, invite
  -- that friend, make one conference at most, or delete the conference that toxcore gives for it.
  pub execute-NoRight :
      (input : List ℕ) (len : ℕ)
      → (friend_is_master m f b).1 ≡ false
      → NoRight m f b (execute m f input len b).0
  unfolding execute do_command
  execute-NoRight input len h =
      if-elim (λ (r : Bot × ℤ). NoRight m f b r.0) (leb m.max_length len) (λ _. NoRight-refl m f b)
        (λ _.
          Option-elim (λ (r : Bot × ℤ). NoRight m f b r.0) (commands_parse m.max_length input)
            (λ _. NoRight-refl m f b)
            (λ args _. run_command-NoRight commands (length args - 1) args (commands-Harmless h)))
