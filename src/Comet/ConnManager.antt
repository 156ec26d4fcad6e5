-- ===== src/Comet/ConnManager.antt =====
-- pkg/comet/conn_manager.go and conn.go: the connections, and the rooms that they are bound to.
-- The maps are association lists; each method holds the mutex for its whole body, so it is a
-- function on the state. `Conn.Write` is an interface's method: it is a parameter of `push_to_room`.
pub mod Laws
pub mod Rooms
pub mod Origins
use mathlib.Core.List.{lookup}
use feeds.Prelude.{
  ℕ, suc, ◌+◌, String, ◌≡◌, ite, Bool, true, false, Option, none, some, List, [], ◌∷◌, map, Error,
  length, text_dec, with_default, ◌==◌, ltb, if◌then◌else◌,
}
use feeds.Prelude.Maps.{insert, delete}

pub record Conn : Type 0 where
  pub id : String
  pub addr : String

abbrev pub Members : Type 0
Members = List (String × Conn)

pub record ConnManager : Type 0 where
  pub conns : Members
  pub rooms : List (String × Members)
  pub conn_room : List (String × String)

unfoldable pub new_conn_manager : ConnManager
new_conn_manager = record { conns = []; rooms = []; conn_room = [] }

-- `Push`: registers a connection.
unfoldable pub push : ConnManager → Conn → ConnManager
push m c = record m { conns = insert text_dec c.id c m.conns }

-- The room map without the member, and without the room if that leaves it empty.
unfoldable pub leave : String → String → List (String × Members) → List (String × Members)
leave room_id conn_id rooms = elim (lookup text_dec room_id rooms) [
  | none ↦ rooms
  | some members ↦
      let rest = delete text_dec conn_id members in
      if length rest == 0 then delete text_dec room_id rooms else insert text_dec room_id rest rooms
]

-- `RoomOf`: the empty text for a connection with no room.
unfoldable pub room_of : ConnManager → String → String
unfolding with_default
room_of m conn_id = with_default (lookup text_dec conn_id m.conn_room)

-- `Pop`: forgets a connection, and its room's record of it.
unfoldable pub pop : ConnManager → Conn → ConnManager
unfolding room_of
pop m c =
    let m' = record m { conns = delete text_dec c.id m.conns } in
    let room_id = room_of m c.id in
    ite (text_dec room_id "") m' (record m' {
      conn_room = delete text_dec c.id m.conn_room;
      rooms = leave room_id c.id m.rooms;
    })

-- The members of a room, which `Bind` makes if it is new.
unfoldable pub members_of : ConnManager → String → Members
members_of m room_id = elim (lookup text_dec room_id m.rooms) [ none ↦ [] | some members ↦ members ]

-- `Bind`: puts a connection into a room.
unfoldable pub bind : ConnManager → String → Conn → ConnManager
unfolding members_of
bind m room_id c = record m {
  rooms = insert text_dec room_id (insert text_dec c.id c (members_of m room_id)) m.rooms;
  conn_room = insert text_dec c.id room_id m.conn_room;
}

unfoldable pub conn_count : ConnManager → ℕ
conn_count m = length m.conns

-- `RoomOnline`: whether the room has a connection, and how many.
unfoldable pub room_online : ConnManager → String → Bool × ℕ
room_online m room_id = elim (lookup text_dec room_id m.rooms) [
  | none ↦ (false, 0)
  | some members ↦ (ltb 0 (length members), length members)
]

unfoldable pub room_count : ConnManager → ℕ
room_count m = length m.rooms

-- The loop of `PushToRoom`: each write answers with the new world and an error, if it failed.
module _ {ℓ} {World : Type ℓ} {Frame : Type 0}
    (write : Conn → Frame → World → World × Option Error) where
  unfoldable pub deliver : List Conn → Frame → World → World × ℕ
  deliver [] frame w = (w, 0)
  deliver (c ∷ conns) frame w =
      let (w', failed) = write c frame w in
      let (w'', n) = deliver conns frame w' in
      elim failed [ none ↦ (w'', suc n) | some e ↦ (w'', n) ]

  -- `PushToRoom`. The order of the members is the list's; Go's is any.
  unfoldable pub push_to_room : ConnManager → String → Frame → World → World × ℕ
  unfolding deliver members_of
  push_to_room m room_id frame w = deliver (map (λ e. e.1) (members_of m room_id)) frame w
