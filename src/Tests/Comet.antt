-- ===== src/Tests/Comet.antt =====
-- Runs of the comet core, of its connections and of its client.
use mathlib.Core.List.{lookup}
use feeds.Prelude.{
  Error, message, some, ◌≡◌, ◌≢◌, refl, String, true, false, none, List, [], ◌∷◌, ◌++◌, Result, ok,
  err, no_rows, arith, text_dec, length, inl, ◌↔◌, ◌==◌, ◌≤◌, if◌then◌else◌, ne_of_test,
}
use feeds.Prelude.Maps.{insert}
use feeds.Comet.Frame.{Bytes}
use feeds.Comet.ConnManager.{
  Conn, ConnManager, new_conn_manager, push as register, bind, pop, room_of, room_online,
  members_of,
}
use feeds.Comet.ConnManager.Rooms.{
  IsConsistent, Reach, starts, steps, connects, authenticates, Reach-IsConsistent, rebind_leaks,
}
use feeds.Comet.Core.{Business, Call, State, dispatch}
use feeds.Comet.Core.Sessions.{
  dispatch_all, session_calls, session_user, dispatch_all-session, calls_of, user_after,
}
use feeds.Comet.Ws.{Heap, Read, received, read_failed, new}
use feeds.Comet.Client.{ClientConn}
use feeds.Comet.Delivery.{IsRoom, IsReady}
use feeds.Comet.Ws.Delivery.{Event, writes, pumps, closes, run, all_accepted, run_delivers}
use feeds.Comet.Ws.Serving.{handle_ws}
use feeds.Comet.ConnManager.Laws.{member}
use feeds.Prelude.{◌⊎◌, inr}
use feeds.Prelude.Maps.{insert}
use feeds.Comet.ConnManager.{members_of}
use feeds.Comet.Ws.Leaving.{handle_ws_leaves}
use feeds.Comet.Client.{ClientConn, auth_frame, check_reply}
use feeds.Comet.Client.Handshake.{Wire, record_write, write_after, first_of, handshake_agrees}

-- One token, `9`, is good; it names the user u1.
abbrev one_user : Bytes → Result String
one_user [] = err no_rows
one_user (n ∷ rest) = if n == 9 then ok "u1" else err no_rows

abbrev pub business : Business
business = record { on_auth = one_user; on_message = λ conn_id user_id payload. none }

abbrev pub phone : Conn
phone = record { id = "c1"; addr = "10.0.0.1" }

abbrev pub tablet : Conn
tablet = record { id = "c2"; addr = "10.0.0.2" }

abbrev connected : ConnManager
connected = record { conns = ("c1", phone) ∷ []; rooms = []; conn_room = [] }

abbrev at_start : State Wire
at_start = record { manager = connected; world = []; calls = [] }

-- A message, a heartbeat, a bad token, a good one, and a message again.
abbrev frames : List Bytes
frames =
    (0 ∷ 3 ∷ 7 ∷ [])
    ∷ (0 ∷ 1 ∷ [])
    ∷ (0 ∷ 2 ∷ 8 ∷ [])
    ∷ (0 ∷ 2 ∷ 9 ∷ [])
    ∷ (0 ∷ 3 ∷ 5 ∷ 6 ∷ [])
    ∷ []

abbrev only_call : Call
only_call = record { conn_id = "c1"; user_id = "u1"; payload = 5 ∷ 6 ∷ [] }

dispatch_all-session_example :
    ((dispatch_all record_write business at_start phone frames).calls ≡ only_call ∷ [])
    × (room_of (dispatch_all record_write business at_start phone frames).manager "c1" ≡ "u1")
unfolding session_calls session_user calls_of user_after room_of text_dec lookup
dispatch_all-session_example = dispatch_all-session record_write business at_start phone frames

abbrev in_room : ConnManager
in_room = record {
  conns = ("c1", phone) ∷ [];
  rooms = ("u1", ("c1", phone) ∷ []) ∷ [];
  conn_room = ("c1", "u1") ∷ [];
}

in_room-Reach : Reach in_room
unfolding new_conn_manager register bind room_of members_of lookup insert text_dec
in_room-Reach =
    steps (steps starts (connects phone))
      (authenticates phone "u1" (ground arith) (ne_of_test _ _ refl) (inl refl))

Reach-IsConsistent_example : IsConsistent in_room
Reach-IsConsistent_example = Reach-IsConsistent in_room-Reach

in_room-IsConsistent : IsConsistent in_room
in_room-IsConsistent = Reach-IsConsistent in_room-Reach

rebind_leaks_example :
    (room_of (pop (bind in_room "u2" phone) phone) "c1" ≡ "")
    × ((room_online (pop (bind in_room "u2" phone) phone) "u1").0 ≡ true)
unfolding room_of lookup text_dec
rebind_leaks_example =
    rebind_leaks in_room phone "u1" "u2" in_room-IsConsistent refl (ne_of_test _ _ refl)
      (ne_of_test _ _ refl) (ne_of_test _ _ refl)

abbrev three_events : List Event
three_events = writes (0 ∷ 3 ∷ []) ∷ writes (0 ∷ 1 ∷ []) ∷ pumps false ∷ closes ∷ writes [] ∷ []

run_delivers_example :
    ((rest : List Bytes) × ((run new three_events).sent ++ rest ≡ all_accepted new three_events))
    × ((run new three_events).pumping ≡ true
        → (run new three_events).sent ++ (run new three_events).send
          ≡ all_accepted new three_events)
    × (length (run new three_events).send ≤ 256)
run_delivers_example = run_delivers three_events

abbrev pub listener : ClientConn
listener = record { closed = false; cancelled = false; send = []; listening = true; received = [] }

abbrev pushes : List Read
pushes =
    received (0 ∷ 3 ∷ 7 ∷ []) ∷ received (0 ∷ 1 ∷ []) ∷ received (0 ∷ 3 ∷ 8 ∷ []) ∷ read_failed ∷ []

abbrev pub tablet_online : State Heap
tablet_online = record {
  manager = record {
    conns = ("c2", tablet) ∷ [];
    rooms = ("u2", ("c2", tablet) ∷ []) ∷ [];
    conn_room = ("c2", "u2") ∷ [];
  };
  world = ("c2", new) ∷ [];
  calls = [];
}

abbrev reads : List Read
reads = received (0 ∷ 2 ∷ 9 ∷ []) ∷ received (0 ∷ []) ∷ received (0 ∷ 3 ∷ 4 ∷ []) ∷ read_failed ∷ []

abbrev refused : Error
refused = message "bad handshake"

tablet_online-IsConsistent : IsConsistent tablet_online.manager
unfolding register bind new_conn_manager room_of members_of insert lookup text_dec
tablet_online-IsConsistent = Reach-IsConsistent (
    steps (steps starts (connects tablet))
      (authenticates tablet "u2" (λ h. cc h) (ne_of_test _ _ refl) (inl refl)))

one_user_names : (token : Bytes) (u : String) → one_user token ≡ ok u → (u ≡ "") ⊎ (u ≡ "u1")
one_user_names [] u h = cc h
one_user_names (n ∷ rest) u h = inr (ground (arith, h))

handle_ws_leaves_example :
    let s' = handle_ws business none tablet_online phone reads in
    (member s'.manager "u1" "c1" ≡ none)
    × (room_of s'.manager "c1" ≡ "")
    × (lookup text_dec "c1" s'.manager.conns ≡ none)
    × (◌≢◌ {A = String} "c2" "c1" → room_of s'.manager "c2" ≡ room_of tablet_online.manager "c2")
    × IsConsistent s'.manager
    × (handle_ws business (some refused) tablet_online phone reads ≡ tablet_online)
unfolding room_of lookup text_dec
handle_ws_leaves_example =
    handle_ws_leaves business phone "u1" tablet_online reads "u1" "c2" refused
      tablet_online-IsConsistent refl
      (
        (λ token u e h. one_user_names token u h),
        (
          (λ token u e h. one_user_names token u h),
          ((λ token u e h. one_user_names token u h), (tt, tt)),
        ),
      )

handshake_agrees_example :
    let s' = dispatch (write_after []) business at_start phone (auth_frame (9 ∷ [])) in
    (reply : Bytes) × (s'.world ≡ ("c1", reply) ∷ [])
    × ((check_reply (first_of [] reply) ≡ ok tt) ↔ (
        (user_id : String) × (◌≡◌ {A = List Bytes} [] [])
        × (one_user (9 ∷ []) ≡ ok user_id)
        × (user_id ≢ "")
        × (room_of s'.manager "c1" ≡ user_id)))
handshake_agrees_example = handshake_agrees business at_start phone (9 ∷ []) []

abbrev client : ClientConn
client = record { closed = false; cancelled = false; send = []; listening = true; received = [] }

abbrev bound : State Wire
bound = record at_start { manager = in_room }

pub tablet-IsRoom : IsRoom (members_of tablet_online.manager "u2")
unfolding members_of lookup text_dec IsRoom
tablet-IsRoom = (refl, refl, tt)

pub tablet-IsReady : IsReady new
unfolding new
tablet-IsReady = record { is_open = refl; spare = omega arith; runs = refl }
