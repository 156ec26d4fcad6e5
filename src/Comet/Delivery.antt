-- ===== src/Comet/Delivery.antt =====
-- A push from end to end: through the room's connections, their send channels and write pumps, and the
-- socket, to the callback of the client.
pub mod Counts
use mathlib.Core.List.{lookup, append_assoc}
use feeds.Prelude.{
  ◌≡◌, ◌≢◌, ◌<◌, refl, sym, ap, ◌∙◌, ◌⊎◌, inl, inr, String, true, false, none, some, List, [], ◌∷◌,
  ◌++◌, map, length, text_dec, arith, Option-cases,
}
use feeds.Prelude.Maps.{lookup-insert}
use feeds.Comet.Frame.{Bytes, type_message}
use feeds.Comet.ConnManager.{Conn, Members, members_of, deliver, push_to_room}
use feeds.Comet.Core.{State, push}
use feeds.Comet.Ws.{WsConn, Heap, Read, received, write, write_conn}
use feeds.Comet.Ws.Delivery.{run}
use feeds.Comet.Ws.Draining.{rounds, drain}
use feeds.Comet.Client.{ClientConn}
use feeds.Comet.Client.Loops.{read_frames, payload_of, payloads, read_frames-payloads}

-- Each connection stands under its own id, once.
unfoldable pub IsRoom : Members → Type 0
IsRoom [] = Unit
IsRoom (e ∷ ms) = (e.0 ≡ e.1.id) × (lookup text_dec e.0 ms ≡ none) × IsRoom ms

write_conn-other :
    (i : String) (c : Conn) (frame : Bytes) (h : Heap)
    → i ≢ c.id
    → lookup text_dec i (write_conn c frame h).0 ≡ lookup text_dec i h
unfolding write_conn
write_conn-other i c frame h other = elim (Option-cases (lookup text_dec c.id h)) [
  | inl e ↦ ground (arith, e)
  | inr (ws, e) ↦ ground (arith, e, other, lookup-insert text_dec i c.id (write ws frame).0 h)
]

write_conn-own :
    (c : Conn) (frame : Bytes) (h : Heap) (ws : WsConn)
    → lookup text_dec c.id h ≡ some ws
    → lookup text_dec c.id (write_conn c frame h).0 ≡ some (write ws frame).0
unfolding write_conn
write_conn-own c frame h ws e =
    ground (arith, e, lookup-insert text_dec c.id c.id (write ws frame).0 h)

deliver_first :
    (c : Conn) (conns : List Conn) (frame : Bytes) (h : Heap)
    → (deliver write_conn (c ∷ conns) frame h).0
      ≡ (deliver write_conn conns frame (write_conn c frame h).0).0
unfolding deliver
deliver_first c conns frame h = ground arith

absent_parts :
    (i : String) (e : String × Conn) (ms : Members)
    → lookup text_dec i (e ∷ ms) ≡ none
    → (i ≢ e.0) × (lookup text_dec i ms ≡ none)
unfolding lookup
absent_parts i e ms h = (ground (arith, h), ground (arith, h))

present_parts :
    (i : String) (c : Conn) (e : String × Conn) (ms : Members)
    → lookup text_dec i (e ∷ ms) ≡ some c
    → ((i ≡ e.0) × (e.1 ≡ c)) ⊎ ((i ≢ e.0) × (lookup text_dec i ms ≡ some c))
unfolding lookup
present_parts i c e ms h = elim (text_dec i e.0) [
  | yes p ↦ inl (p, ground (arith, h, p))
  | no n ↦ inr (n, ground (arith, h, n))
]

abbrev conns_of : Members → List Conn
conns_of ms = map (λ e. e.1) ms

deliver-other :
    (i : String) (ms : Members) (frame : Bytes) (h : Heap)
    → IsRoom ms
    → lookup text_dec i ms ≡ none
    → lookup text_dec i (deliver write_conn (conns_of ms) frame h).0 ≡ lookup text_dec i h
unfolding IsRoom deliver lookup
deliver-other i [] frame h room absent = refl
deliver-other i (e ∷ ms) frame h room absent =
    let (other, later) = absent_parts i e ms absent in
    ap (lookup text_dec i) (deliver_first e.1 (conns_of ms) frame h)
    ∙ deliver-other i ms frame (write_conn e.1 frame h).0 room.2 later
    ∙ write_conn-other i e.1 frame h (λ p. other (p ∙ sym room.0))

deliver-member :
    (i : String) (c : Conn) (ms : Members) (frame : Bytes) (h : Heap) (ws : WsConn)
    → IsRoom ms
    → lookup text_dec i ms ≡ some c
    → lookup text_dec i h ≡ some ws
    → lookup text_dec i (deliver write_conn (conns_of ms) frame h).0 ≡ some (write ws frame).0
unfolding IsRoom lookup
deliver-member i c [] frame h ws room present held = cc present
deliver-member i c (e ∷ ms) frame h ws room present held =
    let h' = (write_conn e.1 frame h).0 in
    ap (lookup text_dec i) (deliver_first e.1 (conns_of ms) frame h)
    ∙ elim (present_parts i c e ms present) [
      | inl (here, same) ↦
          let own : i ≡ e.1.id = here ∙ room.0 in
          deliver-other i ms frame h' room.2 (ap (λ j. lookup text_dec j ms) here ∙ room.1)
          ∙ ap (λ j. lookup text_dec j h') own
          ∙ write_conn-own e.1 frame h ws (sym (ap (λ j. lookup text_dec j h) own) ∙ held)
      | inr (other, later) ↦
          deliver-member i c ms frame h' ws room.2 later
            (write_conn-other i e.1 frame h (λ p. other (p ∙ sym room.0)) ∙ held)
    ]

-- A connection that is open, with room in its channel, whose pump runs.
pub record IsReady (ws : WsConn) : Type 0 where
  pub is_open : ws.closed ≡ false
  pub spare : length ws.send < 256
  pub runs : ws.pumping ≡ true

write-IsReady :
    (ws : WsConn) (frame : Bytes)
    → IsReady ws
    → (write ws frame).0 ≡ record ws { send = ws.send ++ (frame ∷ []) }
unfolding write
write-IsReady ws frame h = ground (arith, h.is_open, h.spare)

-- What the socket carries from one end to the other.
abbrev pub carried : List Bytes → List Read
carried [] = []
carried (frame ∷ frames) = received frame ∷ carried frames

payloads-carried :
    (frames : List Bytes) (payload : Bytes)
    → payloads (carried (frames ++ ((type_message ++ payload) ∷ [])))
      ≡ payloads (carried frames) ++ (payload ∷ [])
payloads-carried [] payload = refl
payloads-carried (frame ∷ frames) payload =
    ap (λ z. payload_of frame ++ z) (payloads-carried frames payload)
    ∙ sym (append_assoc (payload_of frame) (payloads (carried frames)) (payload ∷ []))

-- A push to a room reaches each of its clients. If a connection of the room is open, has room in its
-- channel and a running pump, then after the push and as many successful rounds of the pump as its
-- channel holds frames, the socket has seen what was queued before and one frame more; and a listening
-- client that reads these frames from the socket calls its callback with the payload last, as it was
-- given to the push.
pub push_reaches_client :
    (s : State Heap) (room_id conn_id : String) (c : Conn) (ws : WsConn) (payload : Bytes)
    (client : ClientConn)
    → IsRoom (members_of s.manager room_id)
    → lookup text_dec conn_id (members_of s.manager room_id) ≡ some c
    → lookup text_dec conn_id s.world ≡ some ws
    → IsReady ws
    → client.listening ≡ true
    → client.cancelled ≡ false
    → length client.send < 256
    → (ws' : WsConn) × (frame : Bytes) × (lookup text_dec conn_id
          (push write_conn s room_id payload).0.world
        ≡ some ws')
      × ((run ws' (rounds (length ws'.send))).sent ≡ ws.sent ++ (ws.send ++ (frame ∷ [])))
      × ((read_frames client (carried (ws.send ++ (frame ∷ [])))).received
          ≡ client.received ++ (payloads (carried ws.send) ++ (payload ∷ [])))
unfolding push push_to_room
push_reaches_client s room_id conn_id c ws payload client room present held ready on running small =
    let frame = type_message ++ payload in
    let queue = ws.send ++ (frame ∷ []) in
    let ws' : WsConn = record ws { send = queue } in
    (
      ws',
      frame,
      deliver-member conn_id c (members_of s.manager room_id) frame s.world ws room present held
          ∙ ap some (write-IsReady ws frame ready),
      ap WsConn.sent (drain ws queue ready.runs),
      (read_frames-payloads client (carried queue) on running (omega (arith, small))).0
          ∙ ap (λ z. client.received ++ z) (payloads-carried ws.send payload),
    )
