-- ===== src/Comet/Server/Sources.antt =====
-- Where the frames of the connections, the members of the rooms and the calls of the business layer may
-- come from.
use mathlib.Core.List.{lookup, Memᴰ}
use feeds.Prelude.{ℕ, ◌≡◌, ◌≢◌, ap, String, some, List, ◌∷◌, ◌++◌, ok, text_dec}
use feeds.Prelude.All.{All, All-weaken}
use feeds.Comet.Frame.{Bytes, type_auth, type_message, heartbeat_reply, auth_accepted}
use feeds.Comet.ConnManager.{Conn, ConnManager, members_of, room_of}
use feeds.Comet.Core.{Business, Call, State}
use feeds.Comet.Ws.{WsConn, Heap}
use feeds.Comet.Server.{Writes, Net, Event, receives, pushes}

module _ (business : ℕ → Business) where
  -- A connection has sent a token that was then valid for a user.
  pub record Presented (es : List Event) (id user_id : String) : Type 0 where
    pub now : ℕ
    pub conn : Conn
    pub token : Bytes
    pub received : Memᴰ (receives now conn (type_auth ++ token)) es
    pub own : conn.id ≡ id
    pub accepted : (business now).on_auth token ≡ ok user_id
    pub named : user_id ≢ ""

  -- What a frame of a connection may be: the reply to a heartbeat or a refusal, which are the same
  -- bytes, the acceptance of a token, or a message that was pushed to a room after the connection had
  -- presented a token of the room's user.
  pub data Allowed (es : List Event) (id : String) (frame : Bytes) : Type 0 where
    replies : frame ≡ heartbeat_reply → Allowed es id frame
    accepts :
        (user_id : String) → frame ≡ auth_accepted → Presented es id user_id → Allowed es id frame
    pushed :
        (later earlier : List Event) (user_id : String) (payload : Bytes)
        → es ≡ later ++ (pushes user_id payload ∷ earlier)
        → Presented earlier id user_id
        → frame ≡ type_message ++ payload
        → Allowed es id frame

  later-Presented :
      (e : Event) (es : List Event) (id user_id : String)
      → Presented es id user_id
      → Presented (e ∷ es) id user_id
  later-Presented e es id user_id p = record {
    now = p.now;
    conn = p.conn;
    token = p.token;
    received = Memᴰ.tail p.received;
    own = p.own;
    accepted = p.accepted;
    named = p.named;
  }

  later-Allowed :
      (e : Event) (es : List Event) (id : String) (frame : Bytes)
      → Allowed es id frame
      → Allowed (e ∷ es) id frame
  later-Allowed e es id frame (replies h) = replies h
  later-Allowed e es id frame (accepts user_id h p) =
      accepts user_id h (later-Presented e es id user_id p)
  later-Allowed e es id frame (pushed later earlier user_id payload h p q) =
      pushed (e ∷ later) earlier user_id payload (ap (λ (x : List Event). e ∷ x) h) p q

  -- Where the members of the rooms, the channels, the sockets and the calls come from.
  abbrev pub Rooms : List Event → ConnManager → Type 0
  Rooms es m = (r : String) → All (λ (e : String × Conn). Presented es e.1.id r) (members_of m r)

  abbrev pub Index : List Event → ConnManager → Type 0
  Index es m = (id : String) → room_of m id ≢ "" → Presented es id (room_of m id)

  abbrev pub Pending : List Event → Writes → Type 0
  Pending es ps = All (λ (p : Conn × Bytes). Allowed es p.0.id p.1) ps

  abbrev pub Frames : List Event → String → List Bytes → Type 0
  Frames es id fs = All (Allowed es id) fs

  abbrev pub Held : List Event → Heap → Type 0
  Held es h =
      (id : String) (ws : WsConn)
      → lookup text_dec id h ≡ some ws
      → Frames es id ws.sent × Frames es id ws.send

  abbrev pub Calls : List Event → List Call → Type 0
  Calls es cs = All (λ (k : Call). Presented es k.conn_id k.user_id) cs

  pub record Sourced (es : List Event) (s : State Net) : Type 0 where
    pub rooms : Rooms es s.manager
    pub index : Index es s.manager
    pub pending : Pending es s.world.pending
    pub held : Held es s.world.heap
    pub called : Calls es s.calls

  pub later-Sourced :
      (e : Event) (es : List Event) (s : State Net) → Sourced es s → Sourced (e ∷ es) s
  later-Sourced e es s h = record {
    rooms = λ r.
        All-weaken (λ (p : String × Conn). Presented es p.1.id r) _
          (λ p q. later-Presented e es p.1.id r q) (members_of s.manager r) (h.rooms r);
    index = λ id n. later-Presented e es id (room_of s.manager id) (h.index id n);
    pending =
        All-weaken (λ (p : Conn × Bytes). Allowed es p.0.id p.1) _
          (λ p q. later-Allowed e es p.0.id p.1 q) s.world.pending h.pending;
    held = λ id ws at. (
      All-weaken (Allowed es id) _ (later-Allowed e es id) ws.sent (h.held id ws at).0,
      All-weaken (Allowed es id) _ (later-Allowed e es id) ws.send (h.held id ws at).1,
    );
    called =
        All-weaken (λ (k : Call). Presented es k.conn_id k.user_id) _
          (λ k q. later-Presented e es k.conn_id k.user_id q) s.calls h.called;
  }
