-- ===== src/Comet/ConnManager/Laws.antt =====
-- What each method of the connection manager does to its two readings: the member that a room
-- holds under an id, and the room of an id.
use mathlib.Core.List.{lookup}
use feeds.Prelude.{
  String, ◌≡◌, refl, ite, Option, none, some, List, [], ◌∷◌, inl, inr, arith, text_dec, length,
  Option-cases,
}
use feeds.Prelude.Maps.{insert, delete, lookup-insert, lookup-delete}
use feeds.Comet.ConnManager.{
  Conn, ConnManager, Members, leave, room_of, pop, members_of, bind, push,
}

-- The connection that a room holds under an id.
abbrev pub member : ConnManager → String → String → Option Conn
member m room_id conn_id = lookup text_dec conn_id (members_of m room_id)

pub members_of-bind :
    (m : ConnManager) (r s : String) (c : Conn)
    → members_of (bind m r c) s
      ≡ ite (text_dec s r) (insert text_dec c.id c (members_of m r)) (members_of m s)
unfolding bind members_of
members_of-bind m r s c =
    ground (arith, lookup-insert text_dec s r (insert text_dec c.id c (members_of m r)) m.rooms)

pub member-bind :
    (m : ConnManager) (r s : String) (c : Conn) (id : String)
    → member (bind m r c) s id
      ≡ ite (text_dec s r) (ite (text_dec id c.id) (some c) (member m r id)) (member m s id)
member-bind m r s c id =
    ground (arith, members_of-bind m r s c, lookup-insert text_dec id c.id c (members_of m r))

-- The members of a room of a bare room map.
abbrev pub members_in : List (String × Members) → String → Members
members_in rooms r = elim (lookup text_dec r rooms) [ none ↦ [] | some members ↦ members ]

lookup_empty : (xs : Members) (id : String) → length xs ≡ 0 → lookup text_dec id xs ≡ none
unfolding lookup
lookup_empty [] id h = refl
lookup_empty (x ∷ xs) id h = absurd (omega arith)

member-leave :
    (rooms : List (String × Members)) (r s id j : String)
    → lookup text_dec j (members_in (leave r id rooms) s)
      ≡ ite
          (text_dec s r)
          (ite (text_dec j id) none (lookup text_dec j (members_in rooms s)))
          (lookup text_dec j (members_in rooms s))
unfolding leave lookup
member-leave rooms r s id j = elim (Option-cases (lookup text_dec r rooms)) [
  | inl e ↦ rw (e, leave) (ground arith)
  | inr (ms, e) ↦
      let rest = delete text_dec id ms in
      rw (e, leave)
        (ground (
          arith,
          lookup-delete text_dec s r rooms,
          lookup-insert text_dec s r rest rooms,
          lookup-delete text_dec j id ms,
          lookup_empty rest j,
        ))
]

pub member-pop :
    (m : ConnManager) (c : Conn) (s j : String)
    → member (pop m c) s j
      ≡ ite (text_dec (room_of m c.id) "") (member m s j) (
          ite
            (text_dec s (room_of m c.id))
            (ite (text_dec j c.id) none (member m s j))
            (member m s j))
unfolding pop members_of
member-pop m c s j = ground (arith, member-leave m.rooms (room_of m c.id) s c.id j)

pub room_of-bind :
    (m : ConnManager) (r : String) (c : Conn) (j : String)
    → room_of (bind m r c) j ≡ ite (text_dec j c.id) r (room_of m j)
unfolding room_of bind
room_of-bind m r c j = ground (arith, lookup-insert text_dec j c.id r m.conn_room)

-- A closed connection has no room, and every other keeps its own.
pub room_of-pop :
    (m : ConnManager) (c : Conn) (j : String)
    → room_of (pop m c) j ≡ ite (text_dec j c.id) "" (room_of m j)
unfolding pop room_of
room_of-pop m c j = ground (arith, lookup-delete text_dec j c.id m.conn_room)

pub member-push : (m : ConnManager) (c : Conn) (s j : String) → member (push m c) s j ≡ member m s j
unfolding push members_of
member-push m c s j = refl

pub room_of-push : (m : ConnManager) (c : Conn) (j : String) → room_of (push m c) j ≡ room_of m j
unfolding push room_of
room_of-push m c j = refl

pub conns-bind : (m : ConnManager) (r : String) (c : Conn) → (bind m r c).conns ≡ m.conns
unfolding bind
conns-bind m r c = refl

pub conns-pop :
    (m : ConnManager) (c : Conn) (j : String)
    → lookup text_dec j (pop m c).conns ≡ ite (text_dec j c.id) none (lookup text_dec j m.conns)
unfolding pop
conns-pop m c j = ground (arith, lookup-delete text_dec j c.id m.conns)
