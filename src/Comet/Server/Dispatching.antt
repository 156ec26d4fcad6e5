-- ===== src/Comet/Server/Dispatching.antt =====
-- What a dispatched frame and a push add, and for whom.
use mathlib.Core.List.{Memᴰ, append-nil, append_assoc}
use mathlib.Core.Path.{subst}
use feeds.Prelude.{
  ℕ, ◌≡◌, refl, Bool, true, false, ◌==◌, ◌&&◌, if◌then◌else◌, String, List, [], ◌∷◌, ◌++◌, map,
  text_dec, arith, Result-cases, inl, inr, if_pos, if_neg,
}
use feeds.Prelude.All.{All-append, All-map}
use feeds.Comet.Frame.{Bytes, type_auth, type_message, auth_refused}
use feeds.Comet.ConnManager.{Conn, members_of, bind, room_of, deliver, push_to_room}
use feeds.Comet.Core.{
  Business, Call, State, dispatch, reply, push as push_room, handle_heartbeat, handle_auth,
  handle_message,
}
use feeds.Comet.ConnManager.Origins.{MembersOf-bind, RoomsOf-bind}
use feeds.Comet.Server.{Writes, Net, defer, Event, receives, pushes}
use feeds.Comet.Server.Sources.{
  Presented as PresentedBy, Allowed as AllowedBy, Pending as PendingBy, Sourced as SourcedBy,
  replies, accepts, pushed, later-Sourced,
}

auth_bytes :
    (a b : ℕ) (payload : Bytes)
    → (a == 0 && b == 2) ≡ true
    → ◌≡◌ {A = Bytes} (a ∷ b ∷ payload) (type_auth ++ payload)
auth_bytes a b payload e = ground (arith, e)

module _ (business : ℕ → Business) where
  abbrev Presented : List Event → String → String → Type 0
  Presented = PresentedBy business

  abbrev Allowed : List Event → String → Bytes → Type 0
  Allowed = AllowedBy business

  abbrev Pending : List Event → Writes → Type 0
  Pending = PendingBy business

  abbrev Sourced : List Event → State Net → Type 0
  Sourced = SourcedBy business

  deferred_reply :
      (es : List Event) (s : State Net) (c : Conn) (frame : Bytes)
      → Allowed es c.id frame
      → Pending es s.world.pending
      → Pending es (s.world.pending ++ ((c, frame) ∷ []))
  deferred_reply es s c frame p h =
      All-append (λ (q : Conn × Bytes). Allowed es q.0.id q.1) s.world.pending ((c, frame) ∷ []) h
        (p, tt)

  reply-Sourced :
      (es : List Event) (s : State Net) (now : ℕ) (c : Conn) (frame : Bytes)
      → Allowed es c.id frame
      → Sourced es s
      → Sourced es (reply defer (business now) s c frame)
  unfolding reply defer
  reply-Sourced es s now c frame p h = record {
    rooms = h.rooms;
    index = h.index;
    pending = deferred_reply es s c frame p h.pending;
    held = h.held;
    called = h.called;
  }

  handle_auth-Sourced :
      (es : List Event) (s : State Net) (now : ℕ) (c : Conn) (payload : Bytes)
      → Memᴰ (receives now c (type_auth ++ payload)) es
      → Sourced es s
      → Sourced es (handle_auth defer (business now) s c payload)
  unfolding handle_auth
  handle_auth-Sourced es s now c payload at h =
      elim (Result-cases ((business now).on_auth payload)) [
        | inr (refusal, e) ↦
            rw (e, handle_auth) (reply-Sourced es s now c auth_refused (replies refl) h)
        | inl (user_id, e) ↦ elim (text_dec user_id "") [
          | yes p ↦
              rw (e, handle_auth)
                (rw (if_pos _ p) (reply-Sourced es s now c auth_refused (replies refl) h))
          | no n ↦
              let shown : Presented es c.id user_id = record {
                now = now;
                conn = c;
                token = payload;
                received = at;
                own = refl;
                accepted = e;
                named = n;
              } in
              let bound : Sourced es (record s { manager = bind s.manager user_id c }) = record {
                rooms =
                    MembersOf-bind (λ r d. Presented es d.id r) s.manager user_id c shown h.rooms;
                index = RoomsOf-bind (Presented es) s.manager user_id c shown h.index;
                pending = h.pending;
                held = h.held;
                called = h.called;
              } in
              rw (e, handle_auth)
                (rw (if_neg _ n) (
                  reply-Sourced es (record s { manager = bind s.manager user_id c }) now c _
                    (accepts user_id refl shown) bound))
        ]
      ]

  handle_message-Sourced :
      (es : List Event) (s : State Net) (now : ℕ) (c : Conn) (payload : Bytes)
      → Sourced es s
      → Sourced es (handle_message defer (business now) s c payload)
  unfolding handle_message
  handle_message-Sourced es s now c payload h = elim (text_dec (room_of s.manager c.id) "") [
    | yes e ↦ rw (if_pos _ e) h
    | no n ↦ rw (if_neg _ n) (record {
      rooms = h.rooms;
      index = h.index;
      pending = h.pending;
      held = h.held;
      called =
          All-append (λ (k : Call). Presented es k.conn_id k.user_id) s.calls _ h.called
            (h.index c.id n, tt);
    })
  ]

  pub Sourced-if :
      (es : List Event) (b : Bool) (s t : State Net)
      → (b ≡ true → Sourced es s)
      → Sourced es t
      → Sourced es (if b then s else t)
  Sourced-if es true s t h k = h refl
  Sourced-if es false s t h k = k

  pub dispatch-Sourced :
      (es : List Event) (s : State Net) (now : ℕ) (c : Conn) (raw : Bytes)
      → Memᴰ (receives now c raw) es
      → Sourced es s
      → Sourced es (dispatch defer (business now) s c raw)
  unfolding dispatch handle_heartbeat
  dispatch-Sourced es s now c [] at h = h
  dispatch-Sourced es s now c (a ∷ []) at h = h
  dispatch-Sourced es s now c (a ∷ b ∷ payload) at h =
      Sourced-if es (a == 0 && b == 1) _ _ (λ _. reply-Sourced es s now c _ (replies refl) h)
        (Sourced-if es (a == 0 && b == 2) _ _
          (λ e.
            handle_auth-Sourced es s now c payload
              (subst (λ f. Memᴰ (receives now c f) es) (auth_bytes a b payload e) at) h)
          (Sourced-if es (a == 0 && b == 3) _ _ (λ _. handle_message-Sourced es s now c payload h)
            h))

  -- A push puts a write to each member of the room among those to be made.
  deliver-deferred :
      (conns : List Conn) (frame : Bytes) (w : Net)
      → (deliver defer conns frame w).0
        ≡ record w { pending = w.pending ++ map (λ c. (c, frame)) conns }
  unfolding deliver defer
  deliver-deferred [] frame w = ground (arith, append-nil w.pending)
  deliver-deferred (c ∷ conns) frame w =
      let w' : Net = record w { pending = w.pending ++ ((c, frame) ∷ []) } in
      ground (
        arith,
        deliver-deferred conns frame w',
        append_assoc w.pending ((c, frame) ∷ []) (map (λ d. (d, frame)) conns),
      )

  pub pushes-Sourced :
      (es : List Event) (s : State Net) (user_id : String) (payload : Bytes)
      → Sourced es s
      → Sourced (pushes user_id payload ∷ es) (push_room defer s user_id payload).0
  unfolding push_room push_to_room
  pushes-Sourced es s user_id payload h =
      let es' = pushes user_id payload ∷ es in
      let frame = type_message ++ payload in
      let later = later-Sourced business (pushes user_id payload) es s h in
      let w = s.world in
      let conns = map (λ (e : String × Conn). e.1) (members_of s.manager user_id) in
      rw (deliver-deferred conns frame w) (record {
        rooms = later.rooms;
        index = later.index;
        pending =
            All-append (λ (q : Conn × Bytes). Allowed es' q.0.id q.1) w.pending _ later.pending
              (All-map _ _ _ (λ (c : Conn) p. pushed [] es user_id payload refl p refl) conns
                (All-map _ _ _ (λ (e : String × Conn) p. p) (members_of s.manager user_id)
                  (h.rooms user_id)));
        held = later.held;
        called = later.called;
      })
