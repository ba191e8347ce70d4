-- ===== src/Node/Loop.antt =====
-- The main program of src/toxrelayer.c: what `main` sets up, a round of its loop, and the exit. The
-- callbacks that `tox_iterate` makes are a parameter; the console is read elsewhere.
pub mod Changes
pub mod Told
pub mod Beside
pub mod Mirror
pub mod Callbacks
pub mod Started
pub mod Runs
mod Tests
use tox_relayer.Prelude.{
  ℕ, zero, suc, ◌+◌, ◌*◌, Bool, true, false, not, ◌&&◌, ◌||◌, Option, none, some, List, [], ◌∷◌,
  ◌++◌, if◌then◌else◌, leb, set,
}
use tox_relayer.Prelude.Int.{ℤ, pos, negsuc, ltb_ℤ, eqb_ℤ, ◌-ℤ◌, pos_part}
use tox_relayer.Text.{codes, print_04d}
use tox_relayer.Misc.{timed_out}
use tox_relayer.Queue.{Config, Queue, init, set_drop_hook, set_change_hook}
use tox_relayer.Queue.Service.{service}
use tox_relayer.Persist.{Files, SaveIo, LoadIo, save, load}
use tox_relayer.Database.{Sqlite, msg_database_open}
use tox_relayer.Relay.{Relay, recover_trackers}
use tox_relayer.Friends.{
  Network, tox_transport, check_group_purge, relay_last_stored_sn, max_friend_num,
}
use tox_relayer.Node.{
  Node, friend_message_sent, data_saved, bootstrapped, act, with_queue, chat_tx_at,
}
use tox_relayer.Node.Relaying.{relay_init, relay_tracker}
use tox_relayer.Node.Contacts.{Directory, get_relay_name_list}
use tox_relayer.Node.Rooms.{purge_inactive_friends, purge_empty_groups, load_conferences}

abbrev pub friend_purge_interval : ℕ
friend_purge_interval = 60 * 60

abbrev pub bootstrap_interval : ℕ
bootstrap_interval = 20

abbrev pub hell_signal_interval : ℕ
hell_signal_interval = 16

abbrev pub queue_save_interval : ℕ
queue_save_interval = 5

abbrev pub queue_file : List ℕ
queue_file = codes "mq_queue.dat"

-- The local variables of `main`, with the files.
pub record Loop : Type 0 where
  pub node : Node
  pub files : Files
  pub last_queue_service : ℤ
  pub last_queue_save : ℤ
  pub last_friend_purge : ℤ
  pub last_group_purge : ℤ

-- What toxcore and the system answer during a round.
pub record Round : Type 0 where
  pub connected : Bool
  pub network : Network
  pub iterate : Node → Node
  pub friends : List ℕ
  pub exists : ℕ → Bool
  pub last_online : ℕ → Option ℕ
  pub peer_count : ℕ → Option ℕ
  pub save_io : SaveIo

unfoldable pub bootstrap_step : Round → ℤ → Loop → Loop
bootstrap_step r cur_time l =
    if not r.connected && timed_out l.node.last_bootstrap cur_time bootstrap_interval
    then record l { node = record (act bootstrapped l.node) { last_bootstrap = cur_time } }
    else l

unfoldable pub friend_purge_step : Round → ℤ → Loop → Loop
friend_purge_step r cur_time l =
    if r.connected && timed_out l.last_friend_purge cur_time friend_purge_interval
    then record l {
      node =
          act data_saved
            (purge_inactive_friends (pos_part cur_time) r.exists r.last_online r.friends l.node);
      last_friend_purge = cur_time;
    }
    else l

unfoldable pub group_purge_step : Round → ℤ → Loop → Loop
group_purge_step r cur_time l =
    if check_group_purge l.last_group_purge cur_time r.connected l.node.last_connected
    then record l { node = purge_empty_groups r.peer_count l.node; last_group_purge = cur_time }
    else l

-- The greeting to one friend that was idle.
unfoldable pub greet : ℕ → ℤ → Node → Node
greet i now n =
    let tx = chat_tx_at n.chat_tx i in
    let counter = if leb 1000 (tx.hello_counter + 1) then 1 else tx.hello_counter + 1 in
    act
      (friend_message_sent i (
        codes "/HELLO-"
        ++ (print_04d (pos tx.hello_counter) ++ (codes "  " ++ n.hello_selfname_msg))))
      (record n {
        chat_tx = set n.chat_tx i (record { last_msg_tx = now; hello_counter = counter });
      })

-- The loop over the friends, from `i` on over `left` of them.
unfoldable pub hello_loop : Bool → ℤ → ℕ → ℕ → Node → Node
hello_loop connected cur_time zero i n = n
hello_loop connected cur_time (suc left) i n = hello_loop connected cur_time left (suc i) (
    if ltb_ℤ (pos hell_signal_interval) (cur_time -ℤ (chat_tx_at n.chat_tx i).last_msg_tx)
      && connected
    then greet i cur_time n
    else n)

unfoldable pub service_step : Config → Round → ℤ → Loop → Loop
service_step c r cur_time l =
    if ltb_ℤ (pos 1) (cur_time -ℤ l.last_queue_service)
    then record l {
      node =
          with_queue
            (service c (λ friendnum payload len. tox_transport r.network friendnum (some payload))
              cur_time l.node.queue).0
            l.node;
      last_queue_service = cur_time;
    }
    else l

unfoldable pub save_step : Config → Round → ℤ → Loop → Loop
save_step c r cur_time l =
    let (files, rc) = save c r.save_io l.files (some queue_file) l.node.queue in
    if l.node.queue_dirty && timed_out l.last_queue_save cur_time queue_save_interval
    then record l {
      files = files;
      node = if eqb_ℤ rc (pos 0) then record (l.node) { queue_dirty = false } else l.node;
      last_queue_save = cur_time;
    }
    else l

abbrev iterated : Round → ℤ → Loop → Loop
iterated r cur_time l = record l {
  node = let n = r.iterate l.node in hello_loop r.connected cur_time n.max_friend 0 n;
}

-- A round of the loop, without the console. The clock is read before and after `tox_iterate`.
unfoldable pub round : Config → Round → (before after : ℤ) → Loop → Loop
round c r before after l = save_step c r after (
    service_step c r after (
      iterated r after
        (group_purge_step r before (friend_purge_step r before (bootstrap_step r before l)))))

-- `init_toxrelayer_state`.
unfoldable pub init_toxrelayer_state : ℤ → Node → Node
init_toxrelayer_state now n = record n {
  bot = record (n.bot) {
    start_time = pos_part now;
    default_groupnum = 0;
    num_online_friends = 0;
    inactive_limit = 31536000 * 5;
    groups = record (n.bot.groups) { chats_idx = 0 };
  };
  last_connected = now;
}

-- What the calls of the start answer.
pub record Start : Type 0 where
  pub load_io : LoadIo
  pub sqlite : Sqlite
  pub allocated : Bool
  pub conference_type : ℕ → Option ℕ
  pub chatlist : List ℕ
  pub directory : Directory

-- The queue that `main` makes, with what was saved of it.
unfoldable pub start_queue : Config → Start → ℤ → Files → Node → Node
start_queue c s now files n =
    with_queue
      (load c s.load_io files (some queue_file) now
        (set_change_hook (set_drop_hook (init c) true) true)).0
      n

abbrev last_serial : Sqlite → Node → ℤ → Option ℤ
last_serial s n channel =
    let (value, rc) = relay_last_stored_sn s channel n.db in
    if eqb_ℤ rc (pos 0) then elim value [ none ↦ none | some sn ↦ some (pos sn) ] else none

unfoldable pub start_relay : Config → Start → ℤ → Node → Node
start_relay c s now n =
    let (r, found) =
      recover_trackers (relay_init c s.sqlite now n) (last_serial s.sqlite n) (pos max_friend_num)
        (record { trackers = relay_tracker n.trackers; events = [] }) in
    record n { trackers = r.trackers }

unfoldable pub reset_chat_tx : ℕ → ℤ → Node → Node
reset_chat_tx zero now n = n
reset_chat_tx (suc i) now n =
    let n' = reset_chat_tx i now n in
    record n' { chat_tx = set n'.chat_tx i (record { last_msg_tx = now; hello_counter = 1 }) }

-- What `main` does between `init_tox` and its loop, in its order.
unfoldable pub start : Config → Start → ℤ → Files → Node → Node
start c s now files n =
    let n₁ = start_queue c s now files n in
    let n₂ = record n₁ { db = (msg_database_open s.sqlite n₁.db).0 } in
    let n₃ =
      load_conferences s.allocated s.conference_type s.chatlist (init_toxrelayer_state now n₂) in
    let n₄ = get_relay_name_list s.directory (record n₃ { max_friend = s.directory.numfriends }) in
    let n₅ = start_relay c s now n₄ in
    reset_chat_tx n₅.max_friend now (record n₅ { kept_receipt = 0 })

-- What the loop begins with.
unfoldable pub begin : Config → Start → ℤ → Files → Node → Loop
begin c s now files n = record {
  node = start c s now files n;
  files = files;
  last_queue_service = now;
  last_queue_save = now;
  last_friend_purge = now;
  last_group_purge = now;
}

-- `exit_toxrelayer`: the account and the queue are saved.
unfoldable pub exit_toxrelayer : Config → SaveIo → Loop → Loop
exit_toxrelayer c io l = record l {
  node = act data_saved l.node;
  files = (save c io l.files (some queue_file) l.node.queue).0;
}
