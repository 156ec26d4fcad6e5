-- ===== src/Comet/Server/Isolation.antt =====
-- Who can see what, over every interleaving.
use mathlib.Core.List.{lookup, Memᴰ}
use feeds.Prelude.{ℕ, ◌≡◌, refl, ◌||◌, length, ltb, String, some, List, [], ◌∷◌, ◌++◌, text_dec}
use feeds.Prelude.All.{All, All-append}
use feeds.Comet.Frame.{Bytes}
use feeds.Comet.ConnManager.{members_of, push, room_of}
use feeds.Comet.Core.{Business, Call, State, dispatch}
use feeds.Comet.ConnManager.Origins.{MembersOf-pop, RoomsOf-pop}
use feeds.Comet.Ws.{WsConn, new, close, pump, pump_cancelled}
use feeds.Comet.Ws.Contents.{close-Only, pump-Only, pump_cancelled-Only}
use feeds.Comet.Server.{
  Net, defer, on_conn, is_over, Event, receives, pushes, connects, writes, pumps, stops, closes,
  leaves, step, new_server, run,
}
use feeds.Comet.Server.Sources.{
  Presented as PresentedBy, Allowed as AllowedBy, Sourced as SourcedBy, later-Sourced,
}
use feeds.Comet.Server.Dispatching.{Sourced-if, dispatch-Sourced, pushes-Sourced}
use feeds.Comet.Server.Sockets.{Held-insert, on_conn-Held, write_at-Sourced, on_heap-Sourced}

module _ (business : ℕ → Business) where
  abbrev Presented : List Event → String → String → Type 0
  Presented = PresentedBy business

  abbrev Allowed : List Event → String → Bytes → Type 0
  Allowed = AllowedBy business

  abbrev Sourced : List Event → State Net → Type 0
  Sourced = SourcedBy business

  step-Sourced :
      (es : List Event) (s : State Net) (e : Event)
      → Sourced es s
      → Sourced (e ∷ es) (step business s e)
  unfolding step new push members_of room_of
  step-Sourced es s (connects c) old =
      let h = later-Sourced business (connects c) es s old in
      record {
        rooms = h.rooms;
        index = h.index;
        pending = h.pending;
        held = Held-insert business _ s.world.heap c.id new (tt, tt) h.held;
        called = h.called;
      }
  step-Sourced es s (receives now c raw) old =
      let h = later-Sourced business (receives now c raw) es s old in
      Sourced-if business _ (is_over c.id s.world.heap || ltb (length raw) 2) s
        (dispatch defer (business now) s c raw) (λ _. h)
        (dispatch-Sourced business _ s now c raw (Memᴰ.head refl) h)
  step-Sourced es s (pushes user_id payload) old = pushes-Sourced business es s user_id payload old
  step-Sourced es s (writes n) old =
      write_at-Sourced business _ s n (later-Sourced business (writes n) es s old)
  step-Sourced es s (pumps id fails) old =
      let h = later-Sourced business (pumps id fails) es s old in
      on_heap-Sourced business _ s (on_conn (λ ws. pump ws fails) id)
        (on_conn-Held business _ s.world.heap (λ ws. pump ws fails) id
          (λ ws k. pump-Only (Allowed (pumps id fails ∷ es) id) ws fails k) h.held)
        h
  step-Sourced es s (stops id) old =
      let h = later-Sourced business (stops id) es s old in
      on_heap-Sourced business _ s (on_conn pump_cancelled id)
        (on_conn-Held business _ s.world.heap pump_cancelled id
          (λ ws k. pump_cancelled-Only (Allowed (stops id ∷ es) id) ws k) h.held)
        h
  step-Sourced es s (closes id) old =
      let h = later-Sourced business (closes id) es s old in
      on_heap-Sourced business _ s (on_conn close id)
        (on_conn-Held business _ s.world.heap close id
          (λ ws k. close-Only (Allowed (closes id ∷ es) id) ws k) h.held)
        h
  step-Sourced es s (leaves c) old =
      let h = later-Sourced business (leaves c) es s old in
      record {
        rooms = MembersOf-pop (λ r d. Presented (leaves c ∷ es) d.id r) s.manager c h.rooms;
        index = RoomsOf-pop (Presented (leaves c ∷ es)) s.manager c h.index;
        pending = h.pending;
        held = h.held;
        called = h.called;
      }

  run-Sourced : (es : List Event) → Sourced es (run business es)
  unfolding run new_server members_of room_of lookup
  run-Sourced [] = record {
    rooms = λ r. tt;
    index = λ id n. absurd (n refl);
    pending = tt;
    held = λ id ws e. absurd (cc e);
    called = tt;
  }
  run-Sourced (e ∷ es) = step-Sourced es (run business es) e (run-Sourced es)

  -- Over every interleaving of connections, frames, pushes, writes, pump rounds and closes: whatever the
  -- socket of a connection has seen, or is to see, is the reply to a heartbeat or a refusal, or tells
  -- that a token was accepted which the connection has sent and which was valid for a user then, or is
  -- a message that was pushed to the room of a user after the connection had sent such a token of
  -- that very user. And every call of the business layer is under a user whose token the connection has
  -- sent.
  pub run_isolates :
      (es : List Event) (id : String) (ws : WsConn)
      → lookup text_dec id (run business es).world.heap ≡ some ws
      → All (Allowed es id) (ws.sent ++ ws.send)
        × All (λ (k : Call). Presented es k.conn_id k.user_id) (run business es).calls
  run_isolates es id ws e =
      let h = run-Sourced es in
      let (sent, send) = h.held id ws e in
      (All-append (Allowed es id) ws.sent ws.send sent send, h.called)
