-- ===== src/Comet/Ws/Draining.antt =====
-- The write pump empties the send channel.
use mathlib.Core.List.{append_assoc, append-nil}
use feeds.Prelude.{ℕ, zero, suc, ◌≡◌, ◌∙◌, ap, true, false, List, [], ◌∷◌, ◌++◌, arith, length}
use feeds.Comet.Frame.{Bytes}
use feeds.Comet.Ws.{WsConn, new, pump, pump_message}
use feeds.Comet.Ws.Delivery.{Event, pumps, run, step, all_accepted, run_delivers}

-- So many rounds of the pump whose write succeeds.
abbrev pub rounds : ℕ → List Event
rounds zero = []
rounds (suc n) = pumps false ∷ rounds n

abbrev pub emptied : WsConn → List Bytes → WsConn
emptied c queue = record c { send = []; sent = c.sent ++ queue }

abbrev shifted : WsConn → Bytes → List Bytes → WsConn
shifted c frame queue = record c { send = queue; sent = c.sent ++ (frame ∷ []) }

pump_next :
    (c : WsConn) (frame : Bytes) (queue : List Bytes)
    → c.pumping ≡ true
    → step (record c { send = frame ∷ queue }) (pumps false) ≡ shifted c frame queue
unfolding step pump pump_message
pump_next c frame queue on = ground (arith, on)

pub drain :
    (c : WsConn) (queue : List Bytes)
    → c.pumping ≡ true
    → run (record c { send = queue }) (rounds (length queue)) ≡ emptied c queue
unfolding run step pump pump_message
drain c [] on = ground (arith, append-nil c.sent)
drain c (frame ∷ queue) on =
    ap (λ (z : WsConn). run z (rounds (length queue))) (pump_next c frame queue on)
    ∙ drain (shifted c frame queue) queue on
    ∙ ap (λ (sent : List Bytes). record c { send = []; sent = sent })
        (append_assoc c.sent (frame ∷ []) queue)

-- Over every interleaving of writers, pump rounds and closes on a new connection, if the pump still
-- runs, then as many more rounds as there are frames in the channel, with writes that succeed, empty
-- it, and the socket has seen exactly the frames that `Write` accepted.
pub run_drains :
    (es : List Event)
    → (run new es).pumping ≡ true
    → let c = run (run new es) (rounds (length (run new es).send)) in
      (c.send ≡ []) × (c.sent ≡ all_accepted new es) × (c.pumping ≡ true)
run_drains es on =
    let c = run new es in
    let (prefix, all, bounded) = run_delivers es in
    let e = drain c c.send on in
    (ap WsConn.send e, ap WsConn.sent e ∙ all on, ap WsConn.pumping e ∙ on)
