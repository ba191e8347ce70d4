-- ===== src/Node/Peers.antt =====
-- The lists of room members in src/groupchats.c, and who joined or left. What toxcore answers about the
-- members is a parameter.
use tox_relayer.Prelude.{
  ℕ, zero, suc, Bool, true, false, not, ◌&&◌, List, [], ◌∷◌, ◌++◌, map, if◌then◌else◌, ◌==◌, length,
  set, get_or,
}
use tox_relayer.Text.{c_str}
use tox_relayer.Bot.Info.{upper_hex}
use tox_relayer.Friends.{occurs}

abbrev pub max_room_peer_number : ℕ
max_room_peer_number = 1024

abbrev pub max_room_number : ℕ
max_room_number = 128

pub record RoomPeer : Type 0 where
  pub room_peer_nick_name : List ℕ
  pub public_key_str : List ℕ
  pub online_flag : Bool

-- `room_peer_list`, and `room_peer_list_number`.
pub record Rooms : Type 0 where
  pub peers : List (List RoomPeer)
  pub numbers : List ℕ

-- A member of a conference, with the key and the name that toxcore answers.
pub record Member : Type 0 where
  pub public_key : List ℕ
  pub name : List ℕ

-- The conferences of toxcore, each with those who are there and those who are not.
pub record Conferences : Type 0 where
  pub chatlist : List ℕ
  pub online : ℕ → List Member
  pub offline : ℕ → List Member

unfoldable pub peer_of : Bool → Member → RoomPeer
peer_of online m = record {
  room_peer_nick_name = c_str m.name;
  public_key_str = upper_hex m.public_key;
  online_flag = online;
}

-- The first loop: every entry loses its texts, and keeps its flag.
unfoldable pub cleared : RoomPeer → RoomPeer
cleared p = record p { room_peer_nick_name = []; public_key_str = [] }

-- The entries of a room from `i` on are overwritten.
unfoldable pub write_peers : ℕ → List RoomPeer → List RoomPeer → List RoomPeer
write_peers i [] room = room
write_peers i (p ∷ ps) room = write_peers (suc i) ps (set room i p)

unfoldable pub members : Conferences → ℕ → List RoomPeer
members c groupnum =
    map (peer_of true) (c.online groupnum) ++ map (peer_of false) (c.offline groupnum)

-- The rooms from index `room` on: a room's index is its place in the list of conferences.
unfoldable pub fill_rooms : Conferences → ℕ → List ℕ → Rooms → Rooms
fill_rooms c room [] r = r
fill_rooms c room (groupnum ∷ chats) r = fill_rooms c (suc room) chats (record {
  peers = set r.peers room (write_peers 0 (members c groupnum) (get_or r.peers room []));
  numbers = set r.numbers room (length (members c groupnum));
})

unfoldable pub conference_peer_list_initial : Conferences → Rooms → Rooms
conference_peer_list_initial c r =
    let r' = record r { peers = map (map cleared) r.peers } in
    if length c.chatlist == 0 then r' else fill_rooms c 0 c.chatlist r'

-- The loop over those who are in the room: whether the peer is found, and whether it was found with its
-- flag off, where the function sets the flag and returns.
pub data Search : Type 0 where
  joins : Search
  searched : (in_online_list : Bool) → Search

unfoldable pub search_online : RoomPeer → List (List ℕ) → Bool → Search
search_online p [] found = searched found
search_online p (key ∷ keys) found =
    let rest = search_online p keys found in
    let again = search_online p keys true in
    if not (occurs p.public_key_str key) then rest else if not p.online_flag then joins else again

-- The loop over the list of the room: at most one flag changes.
unfoldable pub update_flags : List (List ℕ) → ℕ → List RoomPeer → List RoomPeer
update_flags online zero room = room
update_flags online (suc left) [] = []
update_flags online (suc left) (p ∷ ps) =
    let rest = p ∷ update_flags online left ps in
    elim (search_online p online false) [
      | joins ↦ record p { online_flag = true } ∷ ps
      | searched found ↦
          if not found && p.online_flag then record p { online_flag = false } ∷ ps else rest
    ]

unfoldable pub conference_peer_join_left : Conferences → ℕ → Rooms → Rooms
conference_peer_join_left c groupnum r =
    let online = map (λ (m : Member). upper_hex m.public_key) (c.online groupnum) in
    if length c.chatlist == 0 then r else if length online == 0 then r else record r {
      peers =
          set r.peers groupnum
            (update_flags online (get_or r.numbers groupnum 0) (get_or r.peers groupnum []));
    }
