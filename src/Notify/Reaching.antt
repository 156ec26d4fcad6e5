-- ===== src/Notify/Reaching.antt =====
-- The notify service with the live service behind its client, and the WebSocket server behind that: a
-- notification from the gRPC call to the database and to the callback of the user's client.
use mathlib.Core.List.{lookup}
use feeds.Prelude.{
  ℕ, ◌^◌, ◌<◌, ◌≡◌, ◌≢◌, refl, ap, String, true, false, none, some, [], ◌∷◌, ◌++◌, ok, answered,
  arith, length, text_dec,
}
use feeds.Prelude.Int.{int32, int32_small}
use feeds.Comet.Frame.{Bytes}
use feeds.Comet.ConnManager.{Conn, members_of, room_online}
use feeds.Comet.ConnManager.Rooms.{online_of_member}
use feeds.Comet.Core.{State, push as push_room}
use feeds.Comet.Ws.{WsConn, Heap, write_conn}
use feeds.Comet.Ws.Delivery.{run}
use feeds.Comet.Ws.Draining.{rounds}
use feeds.Comet.Client.{ClientConn}
use feeds.Comet.Client.Loops.{read_frames, payloads}
use feeds.Comet.Delivery.{IsRoom, IsReady, carried, push_reaches_client}
use feeds.Comet.Delivery.Counts.{push_counts}
use feeds.Live.{push_user, is_online, OnlineResp}
use feeds.Notify.Store.{Rows, Time}
use feeds.Notify.Service.{PushReq, PushResp, LiveClient, notification_of, positive, online, push}
use feeds.Notify.Service.Delivery.{push-stores}

-- The client of the live service while gRPC works.
unfoldable pub live_client : LiveClient (State Heap)
unfolding push_user is_online
live_client = record {
  is_online = λ s user_id. (s, ok (OnlineResp.online (is_online s.manager user_id)));
  push_user = λ s user_id payload.
      let (s', delivered) = push_user write_conn s user_id payload in (s', ok delivered);
}

positive-int32 : (n : ℕ) → 0 < n → n < 2 ^ 31 → positive (int32 n) ≡ true
positive-int32 n h small = rw (int32_small n small) (ground (arith, h))

-- A valid notification for a user with a connection that is open, with room in its channel and a running
-- pump, is stored, is answered as delivered, and arrives: after as many successful rounds of the pump as
-- the channel then holds frames, the socket has seen what was queued before and one frame more, and a
-- listening client that reads these frames calls its callback with the encoded notification last.
pub push_arrives :
    (marshal : ℕ → PushReq → Bytes) (id : ℕ) (now : Time) (req : PushReq) (rows : Rows)
    (s : State Heap) (conn_id : String) (c : Conn) (ws : WsConn) (client : ClientConn)
    → req.user_id ≢ ""
    → req.type ≢ ""
    → req.title ≢ ""
    → IsRoom (members_of s.manager req.user_id)
    → length (members_of s.manager req.user_id) < 2 ^ 31
    → lookup text_dec conn_id (members_of s.manager req.user_id) ≡ some c
    → lookup text_dec conn_id s.world ≡ some ws
    → IsReady ws
    → client.listening ≡ true
    → client.cancelled ≡ false
    → length client.send < 256
    → (s' : State Heap) × (resp : PushResp) × (ws' : WsConn) × (frame : Bytes) × (push live_client
          marshal answered id now req
          (rows, s)
        ≡ (
          (
            rows
                ++ (record (notification_of req) { id = id; read_at = none; created_at = now }
                    ∷ []),
            s',
          ),
          ok resp,
        ))
      × (resp.delivered_ws ≡ true)
      × (lookup text_dec conn_id s'.world ≡ some ws')
      × ((run ws' (rounds (length ws'.send))).sent ≡ ws.sent ++ (ws.send ++ (frame ∷ [])))
      × ((read_frames client (carried (ws.send ++ (frame ∷ [])))).received
          ≡ client.received ++ (payloads (carried ws.send) ++ (marshal id req ∷ [])))
unfolding live_client is_online push_user online
push_arrives marshal id now req rows s conn_id c ws client user type title room few present held
      ready on running small =
    let payload = marshal id req in
    let shown : (room_online s.manager req.user_id).0 ≡ true =
      online_of_member s.manager req.user_id conn_id (λ e. cc (e, present)) in
    let (resp, stored, own, delivered) =
      push-stores live_client marshal id now req rows s user type title in
    let (ws', frame, after, seen, read) =
      push_reaches_client s req.user_id conn_id c ws payload client room present held ready on
        running small in
    let (some_device, few_devices) =
      push_counts s req.user_id conn_id c ws payload room present held ready in
    (
      (push_room write_conn s req.user_id payload).0,
      resp,
      ws',
      frame,
      rw shown at stored,
      delivered.1
          (_, ap ok shown, refl, positive-int32 _ some_device (omega (arith, few_devices, few))),
      after,
      seen,
      read,
    )
