-- ===== src/Comet/Server/Sockets.antt =====
-- What the writes and the write pumps do to the channels and the sockets.
use mathlib.Core.List.{lookup}
use mathlib.Core.Path.{subst}
use feeds.Prelude.{
  ℕ, ◌≡◌, zero, suc, sym, String, some, List, [], ◌∷◌, text_dec, arith, Option-cases, inl, inr,
}
use feeds.Prelude.Maps.{insert, lookup-insert}
use feeds.Prelude.All.{All}
use feeds.Comet.Frame.{Bytes}
use feeds.Comet.ConnManager.{Conn}
use feeds.Comet.Core.{Business, State}
use feeds.Comet.Ws.{WsConn, Heap, new, write, write_conn}
use feeds.Comet.Ws.Contents.{Only, write-Only}
use feeds.Comet.Server.{Writes, Net, take_at, write_at, on_conn, Event, on_heap}
use feeds.Comet.Server.Sources.{Allowed as AllowedBy, Held as HeldBy, Sourced as SourcedBy}

module _ (business : ℕ → Business) where
  abbrev Allowed : List Event → String → Bytes → Type 0
  Allowed = AllowedBy business

  abbrev Held : List Event → Heap → Type 0
  Held = HeldBy business

  abbrev Sourced : List Event → State Net → Type 0
  Sourced = SourcedBy business

  take_at-All :
      (P : Conn × Bytes → Type 0) (n : ℕ) (ps : Writes) (q : Conn × Bytes) (rest : Writes)
      → take_at n ps ≡ some (q, rest)
      → All P ps
      → P q × All P rest
  unfolding take_at
  take_at-All P n [] q rest e h = absurd (cc e)
  take_at-All P zero (p ∷ ps) q rest e h =
      (subst P (ground (arith, e)) h.0, subst (All P) (ground (arith, e)) h.1)
  take_at-All P (suc n) (p ∷ ps) q rest e h = elim (Option-cases (take_at n ps)) [
    | inl k ↦ absurd (cc (rw k at e))
    | inr ((q', rest'), k) ↦
        let (first, others) = take_at-All P n ps q' rest' k h.1 in
        let same : q' ≡ q = ground (arith, e, k) in
        let tail : ◌≡◌ {A = Writes} (p ∷ rest') rest = ground (arith, e, k) in
        (subst P same first, subst (All P) tail (h.0, others))
  ]

  pub Held-insert :
      (es : List Event) (h : Heap) (id : String) (ws : WsConn)
      → Only (Allowed es id) ws
      → Held es h
      → Held es (insert text_dec id ws h)
  Held-insert es h id ws new old j v at = elim (text_dec j id) [
    | yes e ↦
        let same : ws ≡ v = ground (arith, lookup-insert text_dec j id ws h, at, e) in
        subst (Only (Allowed es j)) same (subst (λ i. Only (Allowed es i) ws) (sym e) new)
    | no n ↦ old j v (ground (arith, lookup-insert text_dec j id ws h, at, n))
  ]

  pub on_conn-Held :
      (es : List Event) (h : Heap) (f : WsConn → WsConn) (id : String)
      → ((ws : WsConn) → Only (Allowed es id) ws → Only (Allowed es id) (f ws))
      → Held es h
      → Held es (on_conn f id h)
  unfolding on_conn
  on_conn-Held es h f id keeps old = elim (Option-cases (lookup text_dec id h)) [
    | inl e ↦ rw (e, on_conn) old
    | inr (ws, e) ↦ rw (e, on_conn) (Held-insert es h id (f ws) (keeps ws (old id ws e)) old)
  ]

  write_conn-Held :
      (es : List Event) (h : Heap) (c : Conn) (frame : Bytes)
      → Allowed es c.id frame
      → Held es h
      → Held es (write_conn c frame h).0
  unfolding write_conn
  write_conn-Held es h c frame p old = elim (Option-cases (lookup text_dec c.id h)) [
    | inl e ↦ rw (e, write_conn) old
    | inr (ws, e) ↦
        rw (e, write_conn)
          (Held-insert es h c.id (write ws frame).0
            (write-Only (Allowed es c.id) ws frame p (old c.id ws e)) old)
  ]

  pub write_at-Sourced :
      (es : List Event) (s : State Net) (n : ℕ)
      → Sourced es s
      → Sourced es (record s { world = write_at n s.world })
  unfolding write_at
  write_at-Sourced es s n h = elim (Option-cases (take_at n s.world.pending)) [
    | inl e ↦ rw (e, write_at) h
    | inr (((c, frame), rest), e) ↦
        let (first, others) =
          take_at-All (λ (q : Conn × Bytes). Allowed es q.0.id q.1) n s.world.pending (c, frame)
            rest e h.pending in
        rw (e, write_at)
          (record {
            rooms = h.rooms;
            index = h.index;
            pending = others;
            held = write_conn-Held es s.world.heap c frame first h.held;
            called = h.called;
          })
  ]

  pub on_heap-Sourced :
      (es : List Event) (s : State Net) (f : Heap → Heap)
      → Held es (f s.world.heap)
      → Sourced es s
      → Sourced es (on_heap f s)
  unfolding on_heap
  on_heap-Sourced es s f k h = record {
    rooms = h.rooms;
    index = h.index;
    pending = h.pending;
    held = k;
    called = h.called;
  }
