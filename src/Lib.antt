-- ===== src/Lib.antt =====
-- ToxRelayer: the telegraph protocol, the receive trackers, the delivery queue with its durable
-- mirror, the relay's routing policy, the message store, the bot's text commands with the table of
-- groups, and the program around them: the callbacks of toxcore, the account file, the command line,
-- the console and the main loop.
--
-- A record that arrives is decoded (src/telegram.c). When it is addressed to this relay, its serial
-- goes to the tracker of its channel, which says whether the record is new and what is missing; the
-- relay (src/relay.c) stores it and asks the peer for what is missing. Every record that leaves goes
-- through the delivery queue (src/msg_queue.c), which sends it again until it is acknowledged or its
-- budget is used up, and which src/mq_persist.c writes to disk and reads back.
--
-- A text command goes through execute (src/commands.c): the line is split into arguments, and the
-- handler that the table names acts on the bot, asks toxcore, and answers the friend; most handlers
-- first ask whether the friend is in the masters file.
--
-- The program (src/toxrelayer.c) holds all of this in one state. A message of a friend is a hello, a
-- command or a telegram; the relay works through the callbacks that the program fills, on its queue,
-- its store and its table of friends. A line of the console is a command or goes to one friend. A
-- round of the main loop runs the timers, toxcore, the queue, and the saves of the queue's file.
--
-- Which file models which part:
--   Text: C strings, strtol and snprintf of an integer, as the sources use them.
--   Telegram/Serial: tg_sn_valid, tg_sn_next, tg_sn_prev, tg_sn_distance of src/telegram.c.
--   Telegram/Encode, Telegram/Decode: tg_encode_text, tg_encode_cmd, tg_decode of src/telegram.c.
--   Telegram/Codec: the frame of src/telegram.h that both sides agree on.
--   Telegram/Tracker: sn_tracker and its operations of src/telegram.c.
--   Queue: the static variables and the operations of src/msg_queue.c; Queue/Service is mq_service.
--   Persist: mq_persist_save and mq_persist_load of src/mq_persist.c.
--   Relay: relay_receive and relay_recover_trackers of src/relay.c.
--   Misc: parse_int_range, hex_string_to_bin, filter_str, valid_nick, timed_out of src/misc.c.
--   Misc/Strings, Misc/KeyFile: char_find, unquote_str, get_elapsed_time_str and file_contains_key.
--   Groups: the table of groups of src/groupchats.c, g_chats and chats_idx of src/toxrelayer.h.
--   Commands: commands_parse of src/commands.c.
--   Bot: Tox_Bot and what a command does outside; Bot/Rooms, Bot/Profile, Bot/Info are the handlers
--     cmd_... of src/commands.c, Bot/Execute its table, do_command and execute.
--   Database: the table and the entry points of src/msg_database.c.
--   Friends: of src/toxrelayer.c the table of friends, tox_transport and what the relay asks of them.
--   Node: the state of src/toxrelayer.c, what it tells toxcore, and on_queue_changed.
--   Node/Relaying: relay_init, the relay's environment filled, and what g_relay does to the state.
--   Node/Messages: cb_friend_message, cb_friend_read_receipt and the changes of connections.
--   Node/Contacts: get_relay_name_list, cb_friend_request, on_friend_name, set_relayer_public_key,
--     get_token.
--   Node/Rooms: cb_group_invite, cb_group_titlechange, load_conferences and the purges.
--   Node/Profile: save_data, store_data, load_tox. Node/Options: parse_args, init_tox_options.
--   Node/Console: evaluate_input, and of main the keys and the sending of a line.
--   Node/Loop: of main the start, a round and the end.
--     Node/Loop/Callbacks and Node/Loop/Runs are the loop as a relation, with any callbacks and keys.
--   Node/Peers: the lists of room members of src/groupchats.c.
--   Prelude: names of the libraries passed on, tests on numbers, lists as C arrays, integers.
--
-- How state corresponds: a struct is a record, an operation takes the old state and gives the new
-- one with its answer. A C string is the list of its bytes before the NUL, a pointer that may be
-- NULL is an option. A C int or time_t is an integer, a size_t or uint32_t counter a number that
-- wraps where the source does not bound it. Callbacks, the transport and the system's calls are
-- parameters; a call with an effect outside is recorded as an event.
--
-- Bounds and fuel: the configuration macros are parameters of the queue. The loops over the ring
-- take as many rounds as there are slots. The decoder's body loop takes one round for each byte of
-- the input and one more, which is enough because each line takes a byte at least. The search in
-- the masters file likewise. The parser's loop takes one round for each of the four arguments. The
-- purge of groups takes as many rounds as the table has places in use at its start, which is enough
-- because each round goes on by one place and the table never grows; get_token as many as the 127
-- bytes that it reads at most.
--
-- Not modelled: toxcore and SQLite themselves, of which src/msg_database.c says in SQL what it does;
-- init_tox, which opens the account and registers the callbacks, and the table of nodes of
-- bootstrap_DHT; what only prints, that is, the displays of src/toxrelayer.c, cb_conference_message,
-- on_conference_peer_name, on_telegram_dropped, relay_log_outcome and conference_basic_info_display;
-- the helpers of src/misc.c that ask the system or toxcore; the log; and minIni, which is another
-- project's library.
pub mod Prelude
pub mod Text
pub mod Telegram
pub mod Queue
pub mod Persist
pub mod Relay
pub mod Misc
pub mod Groups
pub mod Commands
pub mod Bot
pub mod Database
pub mod Friends
pub mod Node
