-- ===== src/Comet/Delivery/Counts.antt =====
-- How many connections of a room a push reaches.
use mathlib.Core.List.{lookup}
use feeds.Prelude.{
  suc, ◌≡◌, ◌<◌, ◌≤◌, ◌∙◌, sym, ap, inl, inr, String, none, some, List, [], ◌++◌, ◌∷◌, length,
  text_dec, arith, Option-cases,
}
use feeds.Comet.Frame.{Bytes, type_message}
use feeds.Comet.ConnManager.{Conn, Members, members_of, deliver, push_to_room}
use feeds.Comet.Core.{State, push}
use feeds.Comet.Ws.{WsConn, Heap, write, write_conn}
use feeds.Comet.Delivery.{IsRoom, IsReady, write_conn-other, present_parts, conns_of}

deliver_counts :
    (c : Conn) (conns : List Conn) (frame : Bytes) (h : Heap)
    → let rest = (deliver write_conn conns frame (write_conn c frame h).0).1 in
      let all = (deliver write_conn (c ∷ conns) frame h).1 in
      (rest ≤ all) × (all ≤ suc rest) × ((write_conn c frame h).1 ≡ none → 0 < all)
unfolding deliver
deliver_counts c conns frame h = elim (Option-cases (write_conn c frame h).1) [
  | inl e ↦ ground (arith, e)
  | inr (x, e) ↦ ground (arith, e)
]

deliver-le :
    (ms : Members) (frame : Bytes) (h : Heap)
    → (deliver write_conn (conns_of ms) frame h).1 ≤ length ms
unfolding deliver
deliver-le [] frame h = omega arith
deliver-le (e ∷ ms) frame h =
    let (low, high, first) = deliver_counts e.1 (conns_of ms) frame h in
    omega (arith, high, deliver-le ms frame (write_conn e.1 frame h).0)

write_conn-IsReady :
    (c : Conn) (frame : Bytes) (h : Heap) (ws : WsConn)
    → lookup text_dec c.id h ≡ some ws
    → IsReady ws
    → (write_conn c frame h).1 ≡ none
unfolding write_conn write
write_conn-IsReady c frame h ws e ready = ground (arith, e, ready.is_open, ready.spare)

deliver-pos :
    (i : String) (c : Conn) (ms : Members) (frame : Bytes) (h : Heap) (ws : WsConn)
    → IsRoom ms
    → lookup text_dec i ms ≡ some c
    → lookup text_dec i h ≡ some ws
    → IsReady ws
    → 0 < (deliver write_conn (conns_of ms) frame h).1
unfolding IsRoom lookup
deliver-pos i c [] frame h ws room present held ready = cc present
deliver-pos i c (e ∷ ms) frame h ws room present held ready =
    let (low, high, first) = deliver_counts e.1 (conns_of ms) frame h in
    elim (present_parts i c e ms present) [
      | inl (here, same) ↦
          let own : i ≡ e.1.id = here ∙ room.0 in
          first (
            write_conn-IsReady e.1 frame h ws (sym (ap (λ j. lookup text_dec j h) own) ∙ held)
              ready)
      | inr (other, later) ↦
          let rest =
            deliver-pos i c ms frame (write_conn e.1 frame h).0 ws room.2 later
              (write_conn-other i e.1 frame h (λ p. other (p ∙ sym room.0)) ∙ held) ready in
          omega (arith, low, rest)
    ]

-- A push to a room with a ready connection succeeds at least once, and at most once for each member.
pub push_counts :
    (s : State Heap) (room_id conn_id : String) (c : Conn) (ws : WsConn) (payload : Bytes)
    → IsRoom (members_of s.manager room_id)
    → lookup text_dec conn_id (members_of s.manager room_id) ≡ some c
    → lookup text_dec conn_id s.world ≡ some ws
    → IsReady ws
    → (0 < (push write_conn s room_id payload).1)
      × ((push write_conn s room_id payload).1 ≤ length (members_of s.manager room_id))
unfolding push push_to_room
push_counts s room_id conn_id c ws payload room present held ready =
    let ms = members_of s.manager room_id in
    (
      deliver-pos conn_id c ms (type_message ++ payload) s.world ws room present held ready,
      deliver-le ms (type_message ++ payload) s.world,
    )
