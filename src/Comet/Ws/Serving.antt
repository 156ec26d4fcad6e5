-- ===== src/Comet/Ws/Serving.antt =====
-- pkg/comet/ws/server.go `handleWS`: the life of one connection, from the upgrade to the last step.
use mathlib.Core.List.{lookup}
use feeds.Prelude.{
  Option, Error, String, Bool, true, ◌≢◌, [], ◌∷◌, none, some, List, text_dec, ◌≡◌, refl, arith,
}
use feeds.Prelude.Maps.{insert}
use feeds.Comet.ConnManager.{Conn, push, pop, room_of}
use feeds.Comet.ConnManager.Laws.{room_of-pop, room_of-push, conns-pop}
use feeds.Comet.Core.{Business, State, dispatch}
use feeds.Comet.Core.Sessions.{dispatch-room_of_other}
use feeds.Comet.Ws.{Heap, Read, new, close, read_loop, write_conn}

-- Whether the context of a connection is cancelled.
pub is_cancelled : Conn → State Heap → Bool
is_cancelled c s = elim (lookup text_dec c.id s.world) [ none ↦ true | some ws ↦ ws.cancelled ]

close_conn : Conn → Heap → Heap
close_conn c h = elim (lookup text_dec c.id h) [
  | none ↦ h
  | some ws ↦ insert text_dec c.id (close ws) h
]

-- The upgrade, then `New`, `Push`, the read loop with its deferred `Close`, and `Pop`.
unfoldable pub handle_ws : Business → Option Error → State Heap → Conn → List Read → State Heap
unfolding is_cancelled close_conn
handle_ws business (some e) s c reads = s
handle_ws business none s c reads =
    let opened = record s {
      manager = push s.manager c;
      world = insert text_dec c.id new s.world;
    } in
    let read =
      read_loop (is_cancelled c) (λ t raw. dispatch write_conn business t c raw) opened reads in
    record read { manager = pop read.manager c; world = close_conn c read.world }

module _ (business : Business) (c : Conn) where
  unfoldable pub serve_reads : State Heap → List Read → State Heap
  serve_reads = read_loop (is_cancelled c) (λ t raw. dispatch write_conn business t c raw)

  serve_reads-room_of_other :
      (s : State Heap) (reads : List Read) (j : String)
      → j ≢ c.id
      → room_of (serve_reads s reads).manager j ≡ room_of s.manager j
  unfolding serve_reads read_loop
  serve_reads-room_of_other s [] j other = refl
  serve_reads-room_of_other s (Read.read_failed ∷ reads) j other = refl
  serve_reads-room_of_other s (Read.received raw ∷ reads) j other = ground (
    arith,
    other,
    serve_reads-room_of_other s reads j other,
    serve_reads-room_of_other (dispatch write_conn business s c raw) reads j other,
    dispatch-room_of_other write_conn business s c raw j other,
  )

  -- Whatever a client sends, when its connection ends it has no room and is not registered, and
  -- the room of every other connection is what it was. A failed upgrade changes nothing.
  pub handle_ws_cleans :
      (s : State Heap) (reads : List Read) (j : String) (e : Error)
      → let s' = handle_ws business none s c reads in
        (room_of s'.manager c.id ≡ "")
        × (lookup text_dec c.id s'.manager.conns ≡ none)
        × (j ≢ c.id → room_of s'.manager j ≡ room_of s.manager j)
        × (handle_ws business (some e) s c reads ≡ s)
  unfolding handle_ws serve_reads
  handle_ws_cleans s reads j e =
      let opened : State Heap = record s {
        manager = push s.manager c;
        world = insert text_dec c.id new s.world;
      } in
      let m = (serve_reads opened reads).manager in
      (
        ground (arith, room_of-pop m c c.id),
        ground (arith, conns-pop m c c.id),
        λ other. ground (
          arith,
          other,
          room_of-pop m c j,
          room_of-push s.manager c j,
          serve_reads-room_of_other opened reads j other,
        ),
        refl,
      )
