-- ===== src/Comet/Server.antt =====
-- pkg/comet/ws/server.go: the WebSocket server with all its connections at once. Each step is what a
-- goroutine does while it holds a mutex: a read loop dispatches one frame, a write pump takes one
-- message, a push takes the members of a room, and the writes that a dispatch or a push makes happen
-- later, one by one and in any order.
pub mod Sources
pub mod Listening
pub mod Dispatching
pub mod Sockets
pub mod Isolation
use mathlib.Core.List.{lookup}
use feeds.Prelude.{
  ℕ, zero, suc, String, Bool, true, false, Option, none, some, List, [], ◌∷◌, ◌++◌, Error, length,
  ltb, text_dec, ◌||◌, if◌then◌else◌,
}
use feeds.Prelude.Maps.{insert}
use feeds.Comet.Frame.{Bytes}
use feeds.Comet.ConnManager as ConnManager
use feeds.Comet.ConnManager.{Conn, pop, new_conn_manager}
use feeds.Comet.Core.{Business, State, dispatch, push}
use feeds.Comet.Ws.{WsConn, Heap, new, close, pump, pump_cancelled, write_conn}

abbrev pub Writes : Type 0
Writes = List (Conn × Bytes)

-- The connections, and the calls of `Conn.Write` that are still to be made.
pub record Net : Type 0 where
  pub heap : Heap
  pub pending : Writes

-- A call of `Conn.Write` that is made later. Its error is only logged or counted.
unfoldable pub defer : Conn → Bytes → Net → Net × Option Error
defer c frame w = (record w { pending = w.pending ++ ((c, frame) ∷ []) }, none)

-- The call at a place, and the others.
unfoldable pub take_at : ℕ → Writes → Option ((Conn × Bytes) × Writes)
take_at n [] = none
take_at zero (p ∷ ps) = some (p, ps)
take_at (suc n) (p ∷ ps) = elim (take_at n ps) [ none ↦ none | some (q, qs) ↦ some (q, p ∷ qs) ]

-- One of the calls is made.
unfoldable pub write_at : ℕ → Net → Net
unfolding take_at
write_at n w = elim (take_at n w.pending) [
  | none ↦ w
  | some ((c, frame), rest) ↦ record w { heap = (write_conn c frame w.heap).0; pending = rest }
]

-- What a goroutine of one connection does to it.
unfoldable pub on_conn : (WsConn → WsConn) → String → Heap → Heap
on_conn f id h = elim (lookup text_dec id h) [ none ↦ h | some ws ↦ insert text_dec id (f ws) h ]

-- Whether the read loop of a connection ends at its next round.
unfoldable pub is_over : String → Heap → Bool
is_over id h = elim (lookup text_dec id h) [ none ↦ true | some ws ↦ ws.cancelled ]

pub data Event : Type 0 where
  -- `handleWS` up to the start of the loops: `New` and `Push`
  connects : Conn → Event
  -- a round of `ReadLoop` at a time
  receives : ℕ → Conn → Bytes → Event
  -- `Push` to a room, up to the members of it
  pushes : String → Bytes → Event
  writes : ℕ → Event
  -- the rounds of `WritePump`
  pumps : String → Bool → Event
  stops : String → Event
  closes : String → Event
  -- `handleWS` after the read loop: `Pop`
  leaves : Conn → Event

pub on_heap : (Heap → Heap) → State Net → State Net
on_heap f s = record s { world = record s.world { heap = f s.world.heap } }

-- A token is validated at the time of the frame.
unfoldable pub step : (ℕ → Business) → State Net → Event → State Net
unfolding on_heap
step business s (connects c) =
    on_heap (insert text_dec c.id new) (record s { manager = ConnManager.push s.manager c })
step business s (receives now c raw) =
    if is_over c.id s.world.heap || ltb (length raw) 2
    then s
    else dispatch defer (business now) s c raw
step business s (pushes room_id payload) = (push defer s room_id payload).0
step business s (writes n) = record s { world = write_at n s.world }
step business s (pumps id fails) = on_heap (on_conn (λ ws. pump ws fails) id) s
step business s (stops id) = on_heap (on_conn pump_cancelled id) s
step business s (closes id) = on_heap (on_conn close id) s
step business s (leaves c) = record s { manager = pop s.manager c }

-- `NewServer`.
unfoldable pub new_server : State Net
unfolding new_conn_manager
new_server = record {
  manager = new_conn_manager;
  world = record { heap = []; pending = [] };
  calls = [];
}

-- The server after a history, whose latest event stands first.
unfoldable pub run : (ℕ → Business) → List Event → State Net
run business [] = new_server
run business (e ∷ es) = step business (run business es) e
