-- ===== src/Node/Loop/Callbacks.antt =====
-- The callbacks of src/toxrelayer.c that toxcore may make while it iterates, in any order, and what
-- they do to the queue and to `g_queue_dirty`.
use tox_relayer.Prelude.{ℕ, refl, inl, inr, Bool, not, List, if-elim, Option-cases}
use tox_relayer.Prelude.Int.{ℤ, pos}
use tox_relayer.Text.{codes, c_str, to_int}
use tox_relayer.Misc.{starts_with}
use tox_relayer.Misc.KeyFile.{FileIo}
use tox_relayer.Queue.{Queue}
use tox_relayer.Queue.Invariant.{IsConfig}
use tox_relayer.Persist.{Files}
use tox_relayer.Bot.{Answers}
use tox_relayer.Friends.{friend_number_valid, public_key_is_blocked, occurs}
use tox_relayer.Node.{Node, friend_deleted, act, copy_tox_str, touch}
use tox_relayer.Node.Messages.{
  World, Connection, text_message, friend_message, cb_friend_message, cb_friend_read_receipt,
  cb_self_connection_change, cb_friend_connection_change,
}
use tox_relayer.Node.Contacts.{Directory, cb_friend_request, on_friend_name}
use tox_relayer.Node.Rooms.{Invitation, cb_group_invite, cb_group_titlechange}
use tox_relayer.Node.Loop.Beside.{
  Beside, command_message-Beside, cb_self_connection_change-Beside, cb_friend_request-Beside,
  cb_group_invite-Beside, cb_group_titlechange-Beside,
}
use tox_relayer.Node.Loop.Mirror.{Mirrored, beside-Mirrored, confirmed-Mirrored, relayed-Mirrored}

module _ (w : World) where
  -- Another world with the same queue.
  abbrev pub configured : World → World
  configured v = record v { config = w.config }

  -- A call of one of the callbacks that `init_tox` registers. Those of a conference's messages and
  -- members, which only print or keep the lists of members, are left out.
  pub data Callback (n : Node) : Node → Type 0 where
    message_received :
        (v : World) (m : Answers) (normal : Bool) (friendnumber : ℕ) (string : List ℕ) (size : ℕ)
        → Callback n (cb_friend_message (configured v) m normal friendnumber string size n)
    receipt_read :
        (friendnumber receipt : ℕ) → Callback n (cb_friend_read_receipt w friendnumber receipt n)
    requested :
        (d : Directory) (key_size : ℕ) (io : FileIo) (public_key : List ℕ)
        → Callback n (cb_friend_request d key_size io public_key n)
    friend_named : Callback n (on_friend_name n)
    connection_changed :
        (now : ℤ) (status : Connection) → Callback n (cb_self_connection_change now status n)
    friend_connection_changed :
        (online : ℕ → Bool) (friends : List ℕ) (friendnumber : ℕ)
        → Callback n (cb_friend_connection_change online friends friendnumber n)
    invited : (v : Invitation) (kind : ℕ) → Callback n (cb_group_invite v kind n)
    title_changed :
        (max_length max_name_length groupnumber : ℕ) (title : List ℕ) (size : ℕ)
        → Callback n (cb_group_titlechange max_length max_name_length groupnumber title size n)

  pub data Callbacks (n : Node) : Node → Type 0 where
    no_callback : Callbacks n n
    then_callback : (n' n'' : Node) → Callbacks n n' → Callback n' n'' → Callbacks n n''

  module _ (ok_c : IsConfig w.config) (files₀ : Files) (queue₀ : Queue) (files : Files) where
    abbrev Kept : Node → Type 0
    Kept = Mirrored w.config ok_c files₀ queue₀ files

    pub aside : (n n' : Node) → Beside n n' → Kept n → Kept n'
    aside n n' b k = beside-Mirrored w.config ok_c files₀ queue₀ files n n' b.queue b.flag k

    text-Kept :
        (v : World) (friendnumber : ℕ) (message : List ℕ) (n : Node)
        → Kept n
        → Kept (text_message (configured v) friendnumber message n)
    unfolding text_message
    text-Kept v friendnumber message n k =
        if-elim Kept (not (occurs (codes "ZCZC") message))
          (λ _. aside n _ (record { queue = refl; flag = refl }) k)
          (λ _.
            relayed-Mirrored w.config ok_c files₀ queue₀ files v.sqlite v.now (pos friendnumber)
              message n k)

    message-Kept :
        (v : World) (m : Answers) (normal : Bool) (friendnumber : ℕ) (string : List ℕ) (size : ℕ)
        (n : Node)
        → Kept n
        → Kept (cb_friend_message (configured v) m normal friendnumber string size n)
    unfolding cb_friend_message friend_message act touch
    message-Kept v m normal friendnumber string size n k =
        if-elim Kept (not normal) (λ _. k)
          (λ _.
            if-elim Kept (not (friend_number_valid friendnumber)) (λ _. k)
              (λ _. elim (Option-cases (m.public_key friendnumber)) [
                | inl e ↦ rw e k
                | inr (key, e) ↦ rw e (
                    let (file, blocked) =
                      public_key_is_blocked m.key_size v.blocklist_io key n.blocklist in
                    let (bytes, len) = copy_tox_str m.max_length string size in
                    let here : Node =
                      touch friendnumber v.now
                        (record n { blocklist = file; pre_friendnumber = friendnumber }) in
                    let k' = aside n here (record { queue = refl; flag = refl }) k in
                    if-elim Kept blocked
                      (λ _.
                        aside n (act (friend_deleted friendnumber) (record n { blocklist = file }))
                          (record { queue = refl; flag = refl }) k)
                      (λ _.
                        if-elim Kept (starts_with 47 bytes)
                          (λ _.
                            aside here _
                              (command_message-Beside m friendnumber (c_str bytes) len here) k')
                          (λ _. text-Kept v friendnumber (c_str bytes) here k')))
              ]))

    Callback-Mirrored : (n n' : Node) → Callback n n' → Kept n → Kept n'
    unfolding cb_friend_read_receipt cb_friend_connection_change on_friend_name act
    Callback-Mirrored n _ (message_received v m normal friendnumber string size) k =
        message-Kept v m normal friendnumber string size n k
    Callback-Mirrored n _ (receipt_read friendnumber receipt) k =
        confirmed-Mirrored w.config ok_c files₀ queue₀ files n (to_int (pos friendnumber))
          (to_int (pos receipt)) receipt k
    Callback-Mirrored n _ (requested d key_size io public_key) k =
        aside n _ (cb_friend_request-Beside d key_size io public_key n) k
    Callback-Mirrored n _ friend_named k = aside n _ (record { queue = refl; flag = refl }) k
    Callback-Mirrored n _ (connection_changed now status) k =
        aside n _ (cb_self_connection_change-Beside now status n) k
    Callback-Mirrored n _ (friend_connection_changed online friends friendnumber) k =
        aside n _ (record { queue = refl; flag = refl }) k
    Callback-Mirrored n _ (invited v kind) k = aside n _ (cb_group_invite-Beside v kind n) k
    Callback-Mirrored n _ (title_changed max_length max_name_length groupnumber title size) k =
        aside n _ (cb_group_titlechange-Beside max_length max_name_length groupnumber title size n)
          k

    pub Callbacks-Mirrored : (n n' : Node) → Callbacks n n' → Kept n → Kept n'
    Callbacks-Mirrored n _ no_callback k = k
    Callbacks-Mirrored n _ (then_callback n' n'' before call) k =
        Callback-Mirrored n' n'' call (Callbacks-Mirrored n n' before k)
