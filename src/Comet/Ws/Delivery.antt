-- ===== src/Comet/Ws/Delivery.antt =====
-- The order and the bounds of what a connection's socket sees, over every interleaving of writers,
-- of the write pump and of a close.
use feeds.Prelude.{
  ◌≤◌, ◌≡◌, refl, ◌⊎◌, inl, inr, Bool, true, false, Option, none, some, List, [], ◌∷◌, ◌++◌, arith,
  length, length-append, Error, Bool-cases,
}
use mathlib.Core.List.{append_assoc, append-nil}
use feeds.Comet.Frame.{Bytes}
use feeds.Comet.Ws.{WsConn, new, write, close, pump_message, pump, pump_cancelled, default_send_buf}

pub data Event : Type 0 where
  writes : Bytes → Event
  pumps : Bool → Event
  stops : Event
  closes : Event

unfoldable pub step : WsConn → Event → WsConn
step c (writes frame) = (write c frame).0
step c (pumps fails) = pump c fails
step c stops = pump_cancelled c
step c closes = close c

-- The frames that `Write` took without an error.
taken : Bytes → Option Error → List Bytes
taken frame none = frame ∷ []
taken frame (some e) = []

pub accepted : WsConn → Event → List Bytes
unfolding taken
accepted c (writes frame) = taken frame (write c frame).1
accepted c _ = []

unfoldable pub run : WsConn → List Event → WsConn
run c [] = c
run c (e ∷ es) = run (step c e) es

pub all_accepted : WsConn → List Event → List Bytes
all_accepted c [] = []
all_accepted c (e ∷ es) = accepted c e ++ all_accepted (step c e) es

-- Of the frames accepted so far: what the socket saw, then what a failed write lost, then the queue.
pub record Holds (c : WsConn) (frames : List Bytes) : Type 0 where
  pub lost : List Bytes
  pub kept : c.sent ++ (lost ++ c.send) ≡ frames
  pub lost_after : (lost ≡ []) ⊎ (c.pumping ≡ false)
  pub bounded : length c.send ≤ default_send_buf

write-Holds :
    (c : WsConn) (frames : List Bytes) (frame : Bytes)
    → Holds c frames
    → Holds (write c frame).0 (frames ++ accepted c (writes frame))
unfolding write accepted
write-Holds c frames frame h = record {
  lost = h.lost;
  kept = ground (
    arith,
    h.kept,
    append-nil frames,
    append_assoc c.sent (h.lost ++ c.send) (frame ∷ []),
    append_assoc h.lost c.send (frame ∷ []),
  );
  lost_after = ground (arith, h.lost_after);
  bounded = ground (arith, h.bounded, length-append c.send (frame ∷ []));
}

close-Holds : (c : WsConn) (frames : List Bytes) → Holds c frames → Holds (close c) frames
unfolding close
close-Holds c frames h = record {
  lost = h.lost;
  kept = ground (arith, h.kept);
  lost_after = ground (arith, h.lost_after);
  bounded = ground (arith, h.bounded);
}

pump_cancelled-Holds :
    (c : WsConn) (frames : List Bytes) → Holds c frames → Holds (pump_cancelled c) frames
unfolding pump_cancelled close
pump_cancelled-Holds c frames h = record {
  lost = h.lost;
  kept = ground (arith, h.kept);
  lost_after = ground (arith, h.lost_after);
  bounded = ground (arith, h.bounded);
}

pump_message-Holds :
    (c : WsConn) (frames queue : List Bytes) (fails : Bool)
    → c.send ≡ queue
    → c.pumping ≡ true
    → Holds c frames
    → Holds (pump_message c queue fails) frames
unfolding pump_message close
pump_message-Holds c frames [] fails e on h = h
pump_message-Holds c frames (frame ∷ rest) true e on h = record {
  lost = frame ∷ [];
  kept = ground (arith, h.kept, h.lost_after);
  lost_after = inr refl;
  bounded = ground (arith, h.bounded);
}
pump_message-Holds c frames (frame ∷ rest) false e on h = record {
  lost = [];
  kept = ground (arith, h.kept, h.lost_after, append_assoc c.sent (frame ∷ []) rest);
  lost_after = inl refl;
  bounded = ground (arith, h.bounded);
}

pump-Holds :
    (c : WsConn) (frames : List Bytes) (fails : Bool) → Holds c frames → Holds (pump c fails) frames
unfolding pump
pump-Holds c frames fails h = elim (Bool-cases c.pumping) [
  | inl on ↦ simp (on, pump) (pump_message-Holds c frames c.send fails refl on h)
  | inr off ↦ simp (off, pump) h
]

step-Holds :
    (c : WsConn) (frames : List Bytes) (e : Event)
    → Holds c frames
    → Holds (step c e) (frames ++ accepted c e)
unfolding step accepted
step-Holds c frames (writes frame) h = write-Holds c frames frame h
step-Holds c frames (pumps fails) h = rw (append-nil frames) (pump-Holds c frames fails h)
step-Holds c frames stops h = rw (append-nil frames) (pump_cancelled-Holds c frames h)
step-Holds c frames closes h = rw (append-nil frames) (close-Holds c frames h)

run-Holds :
    (c : WsConn) (frames : List Bytes) (es : List Event)
    → Holds c frames
    → Holds (run c es) (frames ++ all_accepted c es)
unfolding run all_accepted
run-Holds c frames [] h = rw (append-nil frames) h
run-Holds c frames (e ∷ es) h =
    rw (← append_assoc frames (accepted c e) (all_accepted (step c e) es))
      (run-Holds (step c e) (frames ++ accepted c e) es (step-Holds c frames e h))

-- Over every interleaving of writers, pump rounds and closes on a new connection, the socket sees
-- a prefix of the frames that `Write` accepted, in their order; while the pump runs, what it has
-- not seen is exactly the queue; and the queue never holds more than 256 frames.
pub run_delivers :
    (es : List Event)
    → let c = run new es in
      ((rest : List Bytes) × (c.sent ++ rest ≡ all_accepted new es))
      × (c.pumping ≡ true → c.sent ++ c.send ≡ all_accepted new es)
      × (length c.send ≤ 256)
unfolding new
run_delivers es =
    let h = run-Holds new [] es start in
    (
      (h.lost ++ (run new es).send, h.kept),
      λ on. ground (arith, on, h.kept, h.lost_after),
      h.bounded,
    )
  where
    start : Holds new []
    start = record { lost = []; kept = refl; lost_after = inl refl; bounded = omega arith }
