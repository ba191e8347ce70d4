-- ===== src/Node/Messages/Apart.antt =====
-- What a friend's message cannot change: what the program keeps of the other friends.
use tox_relayer.Prelude.{
  ℕ, zero, suc, ◌%◌, ◌^◌, ◌≡◌, ◌≢◌, refl, ap, ◌∙◌, inl, inr, Bool, true, false, not, Option, some,
  List, [], ◌∷◌, arith, set, get_or, ◌==◌, if-elim, Bool-cases, Option-cases,
}
use tox_relayer.Prelude.Int.{pos, negsuc, eqb_ℤ}
use tox_relayer.Text.{codes, c_str}
use tox_relayer.Misc.{starts_with}
use tox_relayer.Bot.{Answers}
use tox_relayer.Bot.Execute.{execute}
use tox_relayer.Friends.{no_contact, friend_number_valid, occurs, public_key_is_blocked}
use tox_relayer.Relay.{Relay, Event, store_called, remember_called, enqueue_called, receive}
use tox_relayer.Relay.Others.{receive-Kept}
use tox_relayer.Node.{Node, act, copy_tox_str, touch, with_queue, chat_tx_at, no_chat_tx}
use tox_relayer.Node.Relaying.{relay_init, relay_tracker, remember_all, carry, relayed}
use tox_relayer.Node.Messages.{
  World, meta_hello, is_hello, command_message, text_message, friend_message, cb_friend_message,
}

get_or-set_ne {ℓ} :
    {A : Type ℓ} (d : A) (xs : List A) (i j : ℕ) (x : A)
    → i ≢ j
    → get_or (set xs i x) j d ≡ get_or xs j d
get_or-set_ne d [] i j x h = refl
get_or-set_ne d (y ∷ ys) zero zero x h = absurd (h refl)
get_or-set_ne d (y ∷ ys) zero (suc j) x h = refl
get_or-set_ne d (y ∷ ys) (suc i) zero x h = refl
get_or-set_ne d (y ∷ ys) (suc i) (suc j) x h = get_or-set_ne d ys i j x (λ e. h (ap suc e))

-- What is kept of friend `other`: the contact with its serials, the tracker, the time of the last
-- message and the greeting's number.
pub record Apart (other : ℕ) (n n' : Node) : Type 0 where
  pub contact : get_or n'.contacts other no_contact ≡ get_or n.contacts other no_contact
  pub tracker : n'.trackers (pos other) ≡ n.trackers (pos other)
  pub chat_tx : chat_tx_at n'.chat_tx other ≡ chat_tx_at n.chat_tx other

module _ (other : ℕ) where
  -- Changes elsewhere.
  beside :
      (n n' : Node)
      → n'.contacts ≡ n.contacts
      → n'.trackers ≡ n.trackers
      → n'.chat_tx ≡ n.chat_tx
      → Apart other n n'
  beside n n' c t x = record {
    contact = ap (λ cs. get_or cs other no_contact) c;
    tracker = ap (λ f. f (pos other)) t;
    chat_tx = ap (λ txs. chat_tx_at txs other) x;
  }

  Apart-trans : (n n' n'' : Node) → Apart other n n' → Apart other n' n'' → Apart other n n''
  Apart-trans n n' n'' a b = record {
    contact = b.contact ∙ a.contact;
    tracker = b.tracker ∙ a.tracker;
    chat_tx = b.chat_tx ∙ a.chat_tx;
  }

  remember_all-beside : (es : List Event) (n : Node) → Apart other n (remember_all es n)
  unfolding remember_all act
  remember_all-beside [] n = beside n n refl refl refl
  remember_all-beside (store_called channel sn timestamp sender body ∷ es) n =
      remember_all-beside es n
  remember_all-beside (remember_called channel sn ∷ es) n =
      Apart-trans n _ _ (beside n _ refl refl refl) (remember_all-beside es _)
  remember_all-beside (enqueue_called channel payload rc ∷ es) n = remember_all-beside es n

  module _ (w : World) (friendnumber : ℕ) (ne : friendnumber ≢ other)
      (valid : friend_number_valid other ≡ true) where
    relayed-Apart :
        (raw : List ℕ) (n : Node)
        → Apart other n (relayed w.config w.sqlite w.now (pos friendnumber) raw n).0
    unfolding relayed carry with_queue relay_tracker friend_number_valid
    relayed-Apart raw n =
        let start : Relay = record { trackers = relay_tracker n.trackers; events = [] } in
        let env = relay_init w.config w.sqlite w.now n in
        let r = (receive env start (pos friendnumber) (some raw)).0 in
        Apart-trans n _ _
          (record {
            contact = refl;
            tracker =
                receive-Kept env (pos friendnumber) (pos other) apart start (some raw) ∙ in_range n;
            chat_tx = refl;
          })
          (remember_all-beside r.events _)
      where
        apart : eqb_ℤ (pos other) (pos friendnumber) ≡ false
        apart = elim (Bool-cases (eqb_ℤ (pos other) (pos friendnumber))) [
          | inl e ↦ absurd (ne (ground (arith, e)))
          | inr e ↦ e
        ]

        in_range : (n : Node) → relay_tracker n.trackers (pos other) ≡ n.trackers (pos other)
        in_range n =
            if-elim (λ o. o ≡ n.trackers (pos other)) (friend_number_valid (other % 2 ^ 32))
              (λ _. refl) (λ e. absurd (ground (arith, e, valid)))

    command-Apart :
        (m : Answers) (message : List ℕ) (length : ℕ) (n : Node)
        → Apart other n (command_message m friendnumber message length n)
    unfolding command_message meta_hello act
    command-Apart m message length n =
        if-elim (Apart other n) (is_hello message)
          (λ _. record {
            contact = get_or-set_ne no_contact n.contacts friendnumber other _ ne;
            tracker = refl;
            chat_tx = refl;
          })
          (λ _.
            if-elim (Apart other n) (length == 0) (λ _. beside n n refl refl refl)
              (λ _.
                if-elim (Apart other n)
                  (eqb_ℤ (execute m friendnumber message length n.bot).1 (negsuc 0))
                  (λ _. beside n _ refl refl refl) (λ _. beside n _ refl refl refl)))

    text-Apart :
        (message : List ℕ) (n : Node) → Apart other n (text_message w friendnumber message n)
    unfolding text_message
    text-Apart message n =
        if-elim (Apart other n) (not (occurs (codes "ZCZC") message))
          (λ _. beside n _ refl refl refl) (λ _. relayed-Apart message n)

    -- A message of one friend, whatever it says, leaves alone what is kept of every other friend: the contact
    -- with its serials and its metaCom flag, the tracker, and the times of the greetings.
    pub cb_friend_message-Apart :
        (m : Answers) (normal : Bool) (string : List ℕ) (length : ℕ) (n : Node)
        → Apart other n (cb_friend_message w m normal friendnumber string length n)
    unfolding cb_friend_message friend_message act touch
    cb_friend_message-Apart m normal string length n =
        if-elim (Apart other n) (not normal) (λ _. beside n n refl refl refl)
          (λ _.
            if-elim (Apart other n) (not (friend_number_valid friendnumber))
              (λ _. beside n n refl refl refl)
              (λ _. elim (Option-cases (m.public_key friendnumber)) [
                | inl e ↦ rw e (beside n n refl refl refl)
                | inr (key, e) ↦ rw e (
                    let (file, blocked) =
                      public_key_is_blocked m.key_size w.blocklist_io key n.blocklist in
                    if-elim (Apart other n) blocked (λ _. beside n _ refl refl refl)
                      (λ _. Apart-trans n _ _ (touched file n) (handled file n)))
              ]))
      where
        here : Option (List ℕ) → Node → Node
        here file n =
            touch friendnumber w.now
              (record n { blocklist = file; pre_friendnumber = friendnumber })

        touched : (file : Option (List ℕ)) (n : Node) → Apart other n (here file n)
        touched file n = record {
          contact = refl;
          tracker = refl;
          chat_tx = get_or-set_ne no_chat_tx n.chat_tx friendnumber other _ ne;
        }

        handled :
            (file : Option (List ℕ)) (n : Node)
            → Apart other
                (here file n)
                (friend_message w m friendnumber string length (record n { blocklist = file }))
        handled file n =
            let (bytes, len) = copy_tox_str m.max_length string length in
            if-elim (Apart other (here file n)) (starts_with 47 bytes)
              (λ _. command-Apart m (c_str bytes) len (here file n))
              (λ _. text-Apart (c_str bytes) (here file n))
