-- ===== src/Node/Loop/Beside.antt =====
-- What src/toxrelayer.c does besides: callbacks, timers and console commands that leave the delivery
-- queue and `g_queue_dirty` alone.
use tox_relayer.Prelude.{
  ℕ, zero, suc, ◌*◌, if◌then◌else◌, ◌≡◌, refl, ◌∙◌, inl, inr, Bool, not, ◌&&◌, none, some, List, [],
  ◌∷◌, if-elim, Option-cases, ltb, ◌==◌, length, take, drop,
}
use tox_relayer.Prelude.Int.{ℤ, pos, negsuc, eqb_ℤ, ltb_ℤ, ◌-ℤ◌}
use tox_relayer.Text.{codes, c_str}
use tox_relayer.Misc.{timed_out}
use tox_relayer.Misc.KeyFile.{FileIo}
use tox_relayer.Bot.{Answers}
use tox_relayer.Bot.Execute.{execute}
use tox_relayer.Groups.{group_add, group_index}
use tox_relayer.Friends.{public_key_is_blocked, occurs, max_friend_num, check_group_purge}
use tox_relayer.Node.{
  Node, friend_deleted, friend_added, data_saved, act, touch, touch_all, chat_tx_at,
}
use tox_relayer.Node.Messages.{
  is_hello, command_message, meta_hello, Connection, connection_none, connection_tcp,
  connection_udp, cb_self_connection_change,
}
use tox_relayer.Node.Contacts.{
  Directory, get_relay_name_list, cb_friend_request, set_relayer_public_key, second_token,
}
use tox_relayer.Node.Rooms.{
  Invitation, adopt, cb_group_invite, joined, cb_group_titlechange, act_all, purge_empty_groups,
  with_groups, purge_loop, purge_friends, purge_inactive_friends,
}
use tox_relayer.Misc.{parse_int_range}
use tox_relayer.Node.Console.{channel_digits, switch_channel, set_name, add_friend, evaluate_input}
use tox_relayer.Node.Loop.{
  Loop, Round, bootstrap_step, friend_purge_step, group_purge_step, greet, hello_loop,
  bootstrap_interval, friend_purge_interval, hell_signal_interval,
}

-- The queue and the flag are as they were.
pub record Beside (n n' : Node) : Type 0 where
  pub queue : n'.queue ≡ n.queue
  pub flag : n'.queue_dirty ≡ n.queue_dirty

-- So are the files too.
pub record Timed (l l' : Loop) : Type 0 where
  pub files : l'.files ≡ l.files
  pub node : Beside l.node l'.node

Timed-refl : (l : Loop) → Timed l l
Timed-refl l = record { files = refl; node = record { queue = refl; flag = refl } }

pub Beside-trans : (n n' n'' : Node) → Beside n n' → Beside n' n'' → Beside n n''
Beside-trans n n' n'' a b = record { queue = b.queue ∙ a.queue; flag = b.flag ∙ a.flag }

pub command_message-Beside :
    (m : Answers) (friendnumber : ℕ) (message : List ℕ) (length : ℕ) (n : Node)
    → Beside n (command_message m friendnumber message length n)
unfolding command_message meta_hello act
command_message-Beside m friendnumber message length n =
    if-elim (Beside n) (is_hello message) (λ _. (record { queue = refl; flag = refl }))
      (λ _.
        if-elim (Beside n) (length == 0) (λ _. (record { queue = refl; flag = refl }))
          (λ _.
            if-elim (Beside n) (eqb_ℤ (execute m friendnumber message length n.bot).1 (negsuc 0))
              (λ _. (record { queue = refl; flag = refl }))
              (λ _. (record { queue = refl; flag = refl }))))

touch_all-Beside : (count : ℕ) (now : ℤ) (n : Node) → Beside n (touch_all count now n)
unfolding touch_all touch
touch_all-Beside zero now n = record { queue = refl; flag = refl }
touch_all-Beside (suc i) now n =
    let kept = touch_all-Beside i now n in record { queue = kept.queue; flag = kept.flag }

pub cb_self_connection_change-Beside :
    (now : ℤ) (status : Connection) (n : Node) → Beside n (cb_self_connection_change now status n)
unfolding cb_self_connection_change
cb_self_connection_change-Beside now connection_none n = record { queue = refl; flag = refl }
cb_self_connection_change-Beside now connection_tcp n =
    let kept = touch_all-Beside n.max_friend now (record n { last_connected = now }) in
    record { queue = kept.queue; flag = kept.flag }
cb_self_connection_change-Beside now connection_udp n =
    let kept = touch_all-Beside n.max_friend now (record n { last_connected = now }) in
    record { queue = kept.queue; flag = kept.flag }

pub get_relay_name_list-Beside : (d : Directory) (n : Node) → Beside n (get_relay_name_list d n)
unfolding get_relay_name_list
get_relay_name_list-Beside d n =
    if-elim (Beside n) (ltb max_friend_num d.numfriends)
      (λ _. (record { queue = refl; flag = refl })) (λ _. (record { queue = refl; flag = refl }))

pub cb_friend_request-Beside :
    (d : Directory) (key_size : ℕ) (io : FileIo) (public_key : List ℕ) (n : Node)
    → Beside n (cb_friend_request d key_size io public_key n)
unfolding cb_friend_request act
cb_friend_request-Beside d key_size io public_key n =
    let (file, blocked) = public_key_is_blocked key_size io public_key n.blocklist in
    if-elim (Beside n) blocked (λ _. (record { queue = refl; flag = refl }))
      (λ _.
        let kept =
          get_relay_name_list-Beside d
            (act data_saved (act (friend_added public_key) (record n { blocklist = file }))) in
        record { queue = kept.queue; flag = kept.flag })

pub adopt-Beside : (groupnum kind : ℕ) (n : Node) → Beside n (adopt groupnum kind n)
unfolding adopt act
adopt-Beside groupnum kind n =
    if-elim (Beside n) (eqb_ℤ (group_add n.bot.groups groupnum kind none).1 (pos 0))
      (λ _. (record { queue = refl; flag = refl })) (λ _. (record { queue = refl; flag = refl }))

pub cb_group_invite-Beside :
    (v : Invitation) (kind : ℕ) (n : Node) → Beside n (cb_group_invite v kind n)
unfolding cb_group_invite
cb_group_invite-Beside v kind n = elim (Option-cases (joined v kind)) [
  | inl e ↦ rw (e, cb_group_invite) (record { queue = refl; flag = refl })
  | inr (groupnum, e) ↦ rw (e, cb_group_invite) (adopt-Beside groupnum kind n)
]

pub cb_group_titlechange-Beside :
    (max_length max_name_length groupnumber : ℕ) (title : List ℕ) (size : ℕ) (n : Node)
    → Beside n (cb_group_titlechange max_length max_name_length groupnumber title size n)
unfolding cb_group_titlechange
cb_group_titlechange-Beside max_length max_name_length groupnumber title size n =
    elim (Option-cases (group_index n.bot.groups groupnumber)) [
      | inl e ↦ rw (e, cb_group_titlechange) (record { queue = refl; flag = refl })
      | inr (i, e) ↦ rw (e, cb_group_titlechange) (record { queue = refl; flag = refl })
    ]

act_all-Beside : (gone : List ℕ) (n : Node) → Beside n (act_all gone n)
unfolding act_all act
act_all-Beside [] n = record { queue = refl; flag = refl }
act_all-Beside (groupnum ∷ gone) n =
    let kept = act_all-Beside gone n in record { queue = kept.queue; flag = kept.flag }

purge_friends-Beside :
    (inactive : ℕ → Bool) (friends : List ℕ) (n : Node)
    → Beside n (purge_friends inactive friends n)
unfolding purge_friends act
purge_friends-Beside inactive [] n = record { queue = refl; flag = refl }
purge_friends-Beside inactive (f ∷ fs) n =
    let n' : Node = if inactive f then act (friend_deleted f) n else n in
    Beside-trans n n' _
      (if-elim (Beside n) (inactive f) (λ _. record { queue = refl; flag = refl })
        (λ _. record { queue = refl; flag = refl }))
      (purge_friends-Beside inactive fs n')

pub bootstrap_step-Timed : (r : Round) (t : ℤ) (l : Loop) → Timed l (bootstrap_step r t l)
unfolding bootstrap_step act
bootstrap_step-Timed r t l =
    if-elim (Timed l) (not r.connected && timed_out l.node.last_bootstrap t bootstrap_interval)
      (λ _. record { files = refl; node = record { queue = refl; flag = refl } })
      (λ _. Timed-refl l)

pub friend_purge_step-Timed : (r : Round) (t : ℤ) (l : Loop) → Timed l (friend_purge_step r t l)
unfolding friend_purge_step act purge_inactive_friends
friend_purge_step-Timed r t l =
    if-elim (Timed l) (r.connected && timed_out l.last_friend_purge t friend_purge_interval)
      (λ _.
        let kept = purge_friends-Beside _ r.friends l.node in
        record { files = refl; node = record { queue = kept.queue; flag = kept.flag } })
      (λ _. Timed-refl l)

pub group_purge_step-Timed : (r : Round) (t : ℤ) (l : Loop) → Timed l (group_purge_step r t l)
unfolding group_purge_step purge_empty_groups
group_purge_step-Timed r t l =
    if-elim (Timed l) (check_group_purge l.last_group_purge t r.connected l.node.last_connected)
      (λ _.
        let (groups, gone) =
          purge_loop r.peer_count l.node.bot.groups.chats_idx 0 l.node.bot.groups [] in
        let kept = act_all-Beside gone (with_groups groups l.node) in
        record { files = refl; node = record { queue = kept.queue; flag = kept.flag } })
      (λ _. Timed-refl l)

pub hello_loop-Beside :
    (connected : Bool) (t : ℤ) (left i : ℕ) (n : Node) → Beside n (hello_loop connected t left i n)
unfolding hello_loop greet act
hello_loop-Beside connected t zero i n = record { queue = refl; flag = refl }
hello_loop-Beside connected t (suc left) i n =
    let idle = ltb_ℤ (pos hell_signal_interval) (t -ℤ (chat_tx_at n.chat_tx i).last_msg_tx) in
    let n' : Node = if idle && connected then greet i t n else n in
    Beside-trans n n' _
      (if-elim (Beside n) (idle && connected) (λ _. record { queue = refl; flag = refl })
        (λ _. record { queue = refl; flag = refl }))
      (hello_loop-Beside connected t left (suc i) n')

set_name-Beside : (user_input : List ℕ) (n : Node) → Beside n (set_name user_input n)
unfolding set_name act
set_name-Beside user_input n =
    if-elim (Beside n) (ltb (length (c_str (second_token 0 user_input n.token))) 3)
      (λ _. record { queue = refl; flag = refl }) (λ _. record { queue = refl; flag = refl })

add_friend-Beside :
    (address_size : ℕ) (allocated : Bool) (user_input : List ℕ) (n : Node)
    → Beside n (add_friend address_size allocated user_input n)
unfolding add_friend act
add_friend-Beside address_size allocated user_input n =
    if-elim (Beside n)
      (not (length (c_str (second_token 1 user_input n.token)) == address_size * 2))
      (λ _. record { queue = refl; flag = refl }) (λ _. record { queue = refl; flag = refl })

pub evaluate_input-Beside :
    (address_size : ℕ) (allocated : Bool) (user_input : List ℕ) (n : Node)
    → Beside n (evaluate_input address_size allocated user_input n)
unfolding evaluate_input switch_channel set_relayer_public_key act
evaluate_input-Beside address_size allocated user_input n = test (codes "/help") (kept n) (
    test (codes "/id") (kept n) (
      test (codes "/#") switched (
        test (codes "/info") (kept n) (
          test (codes "/relay") (record { queue = refl; flag = refl })
            (test (codes "/set") (set_name-Beside user_input n) (
              test (codes "/cur") (kept n) (
                if-elim (Beside n) (occurs (codes "/add") user_input && ltb 5 (length user_input))
                  (λ _. add_friend-Beside address_size allocated user_input n) (λ _. kept n))))))))
  where
    kept : (n : Node) → Beside n n
    kept n = record { queue = refl; flag = refl }

    test :
        (word : List ℕ) {a b : Node}
        → Beside n a
        → Beside n b
        → Beside n (if occurs word user_input then a else b)
    test word taken skipped =
        if-elim (Beside n) (occurs word user_input) (λ _. taken) (λ _. skipped)

    switched : Beside n (switch_channel user_input n)
    switched =
        elim (Option-cases
          (parse_int_range (some (take channel_digits (drop 2 user_input))) (pos 0) (pos 1023))) [
            | inl e ↦ rw (e, switch_channel) (kept n)
            | inr (index, e) ↦ rw (e, switch_channel) (record { queue = refl; flag = refl })
          ]
