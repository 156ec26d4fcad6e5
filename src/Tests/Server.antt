-- ===== src/Tests/Server.antt =====
-- Runs of the WebSocket server with several connections.
use mathlib.Core.List.{lookup, Perm}
use mathlib.Core.List.Perm
use feeds.Prelude.{◌≡◌, refl, String, false, true, some, List, [], ◌∷◌, ◌++◌, text_dec}
use feeds.Prelude.All.{All}
use feeds.Prelude.Maps.{insert}
use feeds.Comet.ConnManager.{deliver, push_to_room, bind, room_of, members_of}
use feeds.Comet.ConnManager as ConnManager
use feeds.Comet.Core.{Call, dispatch, push}
use feeds.Comet.Ws.{WsConn, Heap, new, write, write_conn, pump}
use feeds.Comet.Server.{
  Event, connects, receives, pushes, writes, pumps, step, run, new_server, write_at, take_at, defer,
  on_conn, is_over,
}
use feeds.Comet.Server.Sources.{Presented, Allowed}
use feeds.Comet.Server.Isolation.{run_isolates}
use feeds.Comet.Ws.Order.{deliver-perm}
use feeds.Tests.Comet.{business, phone, tablet}

-- The phone and the tablet connect, only the phone presents a token, and a push follows.
abbrev history : List Event
history =
    pumps "c1" false
    ∷ pumps "c1" false
    ∷ writes 0
    ∷ writes 0
    ∷ writes 0
    ∷ pushes "u1" (7 ∷ [])
    ∷ receives 5 tablet (0 ∷ 2 ∷ 8 ∷ [])
    ∷ receives 5 phone (0 ∷ 2 ∷ 9 ∷ [])
    ∷ connects tablet
    ∷ connects phone
    ∷ []

abbrev phone_after : WsConn
phone_after = record {
  closed = false;
  cancelled = false;
  send = [];
  pumping = true;
  sent = (0 ∷ 1 ∷ []) ∷ (0 ∷ 3 ∷ 7 ∷ []) ∷ [];
}

history_runs : lookup text_dec "c1" (run (λ now. business) history).world.heap ≡ some phone_after
unfolding run step new_server dispatch defer push push_to_room deliver members_of bind room_of
    lookup insert text_dec write_at take_at on_conn is_over write_conn write pump new
    ConnManager.push
history_runs = refl

run_isolates_example :
    All (Allowed (λ now. business) history "c1") (phone_after.sent ++ phone_after.send)
    × All
        (λ (k : Call). Presented (λ now. business) history k.conn_id k.user_id)
        (run (λ now. business) history).calls
run_isolates_example = run_isolates (λ now. business) history "c1" phone_after history_runs

abbrev heap : Heap
heap = ("c1", phone_after) ∷ ("c2", new) ∷ []

either_order : Perm (phone ∷ tablet ∷ []) (tablet ∷ phone ∷ [])
either_order = Perm.swap tablet phone []

deliver-perm_example :
    ((deliver write_conn (phone ∷ tablet ∷ []) (7 ∷ []) heap).1
      ≡ (deliver write_conn (tablet ∷ phone ∷ []) (7 ∷ []) heap).1)
    × ((id : String)
        → lookup text_dec id (deliver write_conn (phone ∷ tablet ∷ []) (7 ∷ []) heap).0
          ≡ lookup text_dec id (deliver write_conn (tablet ∷ phone ∷ []) (7 ∷ []) heap).0)
deliver-perm_example =
    deliver-perm (phone ∷ tablet ∷ []) (tablet ∷ phone ∷ []) (7 ∷ []) heap either_order
