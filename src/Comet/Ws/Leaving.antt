-- ===== src/Comet/Ws/Leaving.antt =====
-- pkg/comet/ws/server.go `handleWS`: what a connection leaves behind in the rooms when it ends.
use mathlib.Core.List.{lookup}
use feeds.Prelude.{
  ◌≡◌, ◌≢◌, ◌⊎◌, inl, inr, refl, sym, ◌∙◌, String, none, some, List, [], ◌∷◌, Error, ok, arith,
  text_dec, ◌==◌, ◌&&◌, Bool-cases, Result-cases, Option-cases,
}
use feeds.Prelude.All.{All}
use feeds.Prelude.Maps.{insert, lookup-insert}
use feeds.Comet.Frame.{Bytes}
use feeds.Comet.ConnManager.{Conn, ConnManager, push, bind, pop, room_of}
use feeds.Comet.ConnManager.Laws.{member, room_of-bind, room_of-push, conns-bind}
use feeds.Comet.ConnManager.Rooms.{
  IsConsistent, push-IsConsistent, bind-IsConsistent, pop-IsConsistent,
}
use feeds.Comet.Core.{Business, State, dispatch}
use feeds.Comet.Ws.{Heap, Read, new, read_loop, write_conn}
use feeds.Comet.Ws.Serving.{handle_ws, serve_reads, handle_ws_cleans}

module _ (business : Business) (c : Conn) (user_id : String) where
  -- A token that a client sends is for this user, if it is for anyone.
  abbrev pub Names : Read → Type 0
  Names Read.read_failed = Unit
  Names (Read.received raw) =
      (token : Bytes) (u : String)
      → raw ≡ 0 ∷ 2 ∷ token
      → business.on_auth token ≡ ok u
      → (u ≡ "") ⊎ (u ≡ user_id)

  -- The connection is registered, and has no room or its user's.
  Settled : ConnManager → Type 0
  Settled m =
      IsConsistent m
      × (lookup text_dec c.id m.conns ≢ none)
      × ((room_of m c.id ≡ "") ⊎ (room_of m c.id ≡ user_id))

  bind-Settled : (m : ConnManager) → user_id ≢ "" → Settled m → Settled (bind m user_id c)
  unfolding Settled
  bind-Settled m named (consistent, live, room) = (
    bind-IsConsistent m user_id c consistent named live room,
    rw (conns-bind m user_id c) live,
    inr (ground (arith, room_of-bind m user_id c c.id)),
  )

  -- A frame leaves the manager as it is, or binds the connection to the user of its token.
  dispatch_binds :
      (s : State Heap) (raw : Bytes)
      → ((dispatch write_conn business s c raw).manager ≡ s.manager)
        ⊎ ((token : Bytes) × (u : String) × (raw ≡ 0 ∷ 2 ∷ token)
            × (business.on_auth token ≡ ok u)
            × (u ≢ "")
            × ((dispatch write_conn business s c raw).manager ≡ bind s.manager u c))
  unfolding dispatch
  dispatch_binds s [] = inl refl
  dispatch_binds s (x ∷ []) = inl refl
  dispatch_binds s (x ∷ y ∷ payload) = elim (Bool-cases (x == 0 && y == 2)) [
    | inr other ↦ inl (ground (arith, other))
    | inl auth ↦ elim (Result-cases (business.on_auth payload)) [
      | inr (e, refused) ↦ inl (ground (arith, refused))
      | inl (u, accepted) ↦ elim (text_dec u "") [
        | yes nobody ↦ inl (ground (arith, accepted, nobody))
        | no named ↦
            let first : x ≡ 0 = ground (arith, auth) in
            let second : y ≡ 2 = ground (arith, auth) in
            inr (
              payload,
              u,
              rw (first, second) refl,
              accepted,
              named,
              ground (arith, auth, accepted, named),
            )
      ]
    ]
  ]

  dispatch-Settled :
      (s : State Heap) (raw : Bytes)
      → Names (Read.received raw)
      → Settled s.manager
      → Settled (dispatch write_conn business s c raw).manager
  dispatch-Settled s raw names h = elim (dispatch_binds s raw) [
    | inl same ↦ rw same h
    | inr (token, u, e, accepted, named, bound) ↦ elim (names token u e accepted) [
      | inl nobody ↦ absurd (named nobody)
      | inr own ↦ rw (bound, own) (bind-Settled s.manager (λ nobody. named (own ∙ nobody)) h)
    ]
  ]

  serve_reads-Settled :
      (s : State Heap) (reads : List Read)
      → All Names reads
      → Settled s.manager
      → Settled (serve_reads business c s reads).manager
  unfolding serve_reads read_loop
  serve_reads-Settled s [] names h = h
  serve_reads-Settled s (Read.read_failed ∷ reads) names h = h
  serve_reads-Settled s (Read.received raw ∷ reads) names h = ground (
    arith,
    h,
    serve_reads-Settled s reads names.1 h,
    serve_reads-Settled (dispatch write_conn business s c raw) reads names.1
        (dispatch-Settled s raw names.0 h),
  )

  -- In a consistent state, for a connection of a new id whose tokens are for one user at most: when it
  -- ends, whatever its client sent, it is a member of no room, it has no room and is not registered,
  -- the room of every other connection is what it was, and the state is consistent again.
  -- A failed upgrade changes nothing.
  pub handle_ws_leaves :
      (s : State Heap) (reads : List Read) (room_id j : String) (e : Error)
      → IsConsistent s.manager
      → room_of s.manager c.id ≡ ""
      → All Names reads
      → let s' = handle_ws business none s c reads in
        (member s'.manager room_id c.id ≡ none)
        × (room_of s'.manager c.id ≡ "")
        × (lookup text_dec c.id s'.manager.conns ≡ none)
        × (j ≢ c.id → room_of s'.manager j ≡ room_of s.manager j)
        × IsConsistent s'.manager
        × (handle_ws business (some e) s c reads ≡ s)
  unfolding handle_ws serve_reads Settled push
  handle_ws_leaves s reads room_id j e consistent unbound names =
      let opened : State Heap = record s {
        manager = push s.manager c;
        world = insert text_dec c.id new s.world;
      } in
      let registered : lookup text_dec c.id (push s.manager c).conns ≢ none =
        ground (arith, lookup-insert text_dec c.id c.id c s.manager.conns) in
      let settled = serve_reads-Settled opened reads names (
        push-IsConsistent s.manager c consistent,
        registered,
        inl (room_of-push s.manager c c.id ∙ unbound),
      ) in
      let m = (serve_reads business c opened reads).manager in
      let closed = pop-IsConsistent m c settled.0 in
      let (gone, unregistered, others, untouched) = handle_ws_cleans business c s reads j e in
      let outside : member (pop m c) room_id c.id ≡ none =
        elim (Option-cases (member (pop m c) room_id c.id)) [
          | inl absent ↦ absent
          | inr (d, found) ↦
              let (at, named, _) = closed.indexed room_id c.id d found in
              absurd (named (sym at ∙ gone))
        ] in
      (outside, gone, unregistered, others, closed, untouched)
