-- ===== src/Comet/ConnManager/Rooms.antt =====
-- The invariant that ties the three maps of the connection manager together, what it gives to a
-- caller, and what a second binding of one connection does to it.
use mathlib.Core.List.{lookup}
use feeds.Prelude.{
  String, ◌≡◌, ◌≢◌, refl, ◌⊎◌, ◌↔◌, inl, inr, true, none, some, [], ◌∷◌, arith, text_dec, length,
  Option-cases,
}
use feeds.Prelude.Maps.{insert, delete, lookup-insert, lookup-delete}
use feeds.Comet.ConnManager.{
  Conn, ConnManager, Members, new_conn_manager, leave, room_of, pop, members_of, bind, push,
  room_online,
}
use feeds.Comet.ConnManager.Laws.{
  member, member-bind, member-pop, room_of-bind, room_of-pop, conns-bind, conns-pop,
}

-- The two indexes agree: a connection is a member of its own room and of no other, under its own
-- id; and only a registered connection has a room.
pub record IsConsistent (m : ConnManager) : Type 0 where
  pub indexed :
      (r id : String) (c : Conn)
      → member m r id ≡ some c
      → (room_of m id ≡ r) × (r ≢ "") × (c.id ≡ id)
  pub listed : (id : String) → room_of m id ≢ "" → member m (room_of m id) id ≢ none
  pub inhabited : (r : String) (ms : Members) → lookup text_dec r m.rooms ≡ some ms → length ms ≢ 0
  pub registered : (id : String) → room_of m id ≢ "" → lookup text_dec id m.conns ≢ none

length-insert-ne-zero :
    (id : String) (c : Conn) (ms : Members) → length (insert text_dec id c ms) ≢ 0
unfolding insert
length-insert-ne-zero id c [] = omega arith
length-insert-ne-zero id c (e ∷ ms) = ground arith

bind_inhabited :
    (m : ConnManager) (r : String) (c : Conn) (s : String) (ms : Members)
    → lookup text_dec s (bind m r c).rooms ≡ some ms
    → (lookup text_dec s m.rooms ≡ some ms → length ms ≢ 0)
    → length ms ≢ 0
unfolding bind
bind_inhabited m r c s ms h old =
    let ms' = insert text_dec c.id c (members_of m r) in
    ground
      (arith, lookup-insert text_dec s r ms' m.rooms, length-insert-ne-zero c.id c (members_of m r))

pop_inhabited :
    (m : ConnManager) (c : Conn) (s : String) (ms : Members)
    → lookup text_dec s (pop m c).rooms ≡ some ms
    → ((ns : Members) → lookup text_dec s m.rooms ≡ some ns → length ns ≢ 0)
    → length ms ≢ 0
unfolding pop leave
pop_inhabited m c s ms h old = elim (Option-cases (lookup text_dec (room_of m c.id) m.rooms)) [
  | inl e ↦ ground (arith, old ms)
  | inr (ns, e) ↦
      let rest = delete text_dec c.id ns in
      ground (
        arith,
        old ms,
        lookup-delete text_dec s (room_of m c.id) m.rooms,
        lookup-insert text_dec s (room_of m c.id) rest m.rooms,
      )
]

new-IsConsistent : IsConsistent new_conn_manager
unfolding new_conn_manager members_of room_of lookup
new-IsConsistent = record {
  indexed = λ r id c h. ground arith;
  listed = λ id h. absurd (h refl);
  inhabited = λ r ms h. ground arith;
  registered = λ id h. absurd (h refl);
}

pub push-IsConsistent : (m : ConnManager) (c : Conn) → IsConsistent m → IsConsistent (push m c)
unfolding push members_of room_of
push-IsConsistent m c v = record {
  indexed = λ r id d h. v.indexed r id d h;
  listed = λ id h. v.listed id h;
  inhabited = v.inhabited;
  registered = λ id h. ground (arith, lookup-insert text_dec id c.id c m.conns, v.registered id);
}

-- Binding a registered connection that has no other room keeps the indexes in agreement.
pub bind-IsConsistent :
    (m : ConnManager) (r : String) (c : Conn)
    → IsConsistent m
    → r ≢ ""
    → lookup text_dec c.id m.conns ≢ none
    → (room_of m c.id ≡ "") ⊎ (room_of m c.id ≡ r)
    → IsConsistent (bind m r c)
bind-IsConsistent m r c v named live free = record {
  indexed = λ s id e h.
      ground
        (arith, member-bind m r s c id, room_of-bind m r c id, v.indexed s id e, v.indexed r id e);
  listed = λ id h. ground (
    arith,
    h,
    member-bind m r (room_of (bind m r c) id) c id,
    room_of-bind m r c id,
    v.listed id,
  );
  inhabited = λ s ms h. bind_inhabited m r c s ms h (v.inhabited s ms);
  registered = λ id h. ground (arith, h, room_of-bind m r c id, v.registered id, conns-bind m r c);
}

pub pop-IsConsistent : (m : ConnManager) (c : Conn) → IsConsistent m → IsConsistent (pop m c)
pop-IsConsistent m c v = record {
  indexed = λ s id e h. ground (arith, member-pop m c s id, room_of-pop m c id, v.indexed s id e);
  listed = λ id h.
      ground (arith, h, member-pop m c (room_of (pop m c) id) id, room_of-pop m c id, v.listed id);
  inhabited = λ s ms h. pop_inhabited m c s ms h (v.inhabited s);
  registered = λ id h. ground (arith, h, room_of-pop m c id, v.registered id, conns-pop m c id);
}

-- What the WebSocket server does with a connection: it registers one under a fresh id, binds it
-- when a token is accepted for a user that it is not bound against, and drops it when it closes.
pub data Step (m : ConnManager) : ConnManager → Type 0 where
  connects : (c : Conn) → Step m (push m c)
  authenticates :
      (c : Conn) (user_id : String)
      → lookup text_dec c.id m.conns ≢ none
      → user_id ≢ ""
      → (room_of m c.id ≡ "") ⊎ (room_of m c.id ≡ user_id)
      → Step m (bind m user_id c)
  closes : (c : Conn) → Step m (pop m c)

pub data Reach : ConnManager → Type 0 where
  starts : Reach new_conn_manager
  steps : {m n : ConnManager} → Reach m → Step m n → Reach n

Step-IsConsistent : {m n : ConnManager} → Step m n → IsConsistent m → IsConsistent n
Step-IsConsistent (connects c) v = push-IsConsistent _ c v
Step-IsConsistent (authenticates c u live named free) v = bind-IsConsistent _ u c v named live free
Step-IsConsistent (closes c) v = pop-IsConsistent _ c v

-- After any sequence of registrations, closings and authentications, where a registered connection is
-- only ever bound to one user: the rooms' members are exactly the connections that the index says are
-- in them, no room is empty, and every connection in a room is registered.
pub Reach-IsConsistent : {m : ConnManager} → Reach m → IsConsistent m
Reach-IsConsistent starts = new-IsConsistent
Reach-IsConsistent (steps r s) = Step-IsConsistent s (Reach-IsConsistent r)

first_member : (ms : Members) → length ms ≢ 0 → (id : String) × (lookup text_dec id ms ≢ none)
unfolding lookup
first_member [] h = absurd (h refl)
first_member ((id, c) ∷ ms) h = (id, ground arith)

no_member : (ms : Members) (id : String) → length ms ≡ 0 → lookup text_dec id ms ≡ none
unfolding lookup
no_member [] id h = refl
no_member (e ∷ ms) id h = absurd (omega arith)

pub online_of_member :
    (m : ConnManager) (r id : String) → member m r id ≢ none → (room_online m r).0 ≡ true
unfolding room_online members_of
online_of_member m r id h = ground (arith, no_member (members_of m r) id)

-- In a consistent state a room with a name is reported online exactly when some connection is
-- bound to it.
pub room_online_iff :
    (m : ConnManager) (r : String)
    → IsConsistent m
    → r ≢ ""
    → ((room_online m r).0 ≡ true) ↔ ((id : String) × (room_of m id ≡ r))
unfolding room_online members_of
room_online_iff m r v named = (
  λ h.
      let (id, found) = first_member (members_of m r) (ground arith) in
      elim (Option-cases (member m r id)) [
        | inl e ↦ absurd (found e)
        | inr (c, e) ↦ (id, (v.indexed r id c e).0)
      ],
  λ (id, e). online_of_member m r id (ground (arith, v.listed id)),
)

-- In a consistent state a connection that has a room and is bound to a second one stays a member
-- of the first for good: after it has closed it has no room, and its first room is still reported
-- online.
pub rebind_leaks :
    (m : ConnManager) (c : Conn) (first second : String)
    → IsConsistent m
    → room_of m c.id ≡ first
    → first ≢ ""
    → second ≢ ""
    → first ≢ second
    → let closed = pop (bind m second c) c in
      (room_of closed c.id ≡ "") × ((room_online closed first).0 ≡ true)
rebind_leaks m c first second v old named named' other =
    let closed = pop (bind m second c) c in
    let left : member closed first c.id ≡ member m first c.id = ground (
      arith,
      member-pop (bind m second c) c first c.id,
      member-bind m second first c c.id,
      room_of-bind m second c c.id,
    ) in
    (
      ground (arith, room_of-pop (bind m second c) c c.id),
      online_of_member closed first c.id (ground (arith, left, v.listed c.id)),
    )
