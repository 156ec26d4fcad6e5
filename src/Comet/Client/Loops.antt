-- ===== src/Comet/Client/Loops.antt =====
-- pkg/comet/client/conn.go: the loops of the client over the answers of its socket. `sent` is what has
-- been written to the socket, `pumping` whether the goroutine of `WritePump` still runs.
use mathlib.Core.List.{append_assoc, append-nil}
use mathlib.Core.Path.{subst}
use feeds.Prelude.{
  ℕ, ◌≡◌, ◌≤◌, refl, ◌∙◌, ap, sym, Bool, true, false, List, [], ◌∷◌, ◌++◌, length, length-append,
  ltb, ◌==◌, ◌&&◌, if◌then◌else◌, arith,
}
use feeds.Comet.Frame.{Bytes}
use feeds.Comet.Ws.{Read, received, read_failed, read_loop}
use feeds.Comet.Client.{ClientConn, handle_frame, send_heartbeat_reply, offer, close}

-- `ReadLoop`, with its deferred `Close`.
unfoldable pub read_frames : ClientConn → List Read → ClientConn
unfolding handle_frame close
read_frames c reads = close (read_loop (λ c'. ClientConn.cancelled c') handle_frame c reads)

pub record Pump : Type 0 where
  pub conn : ClientConn
  pub pumping : Bool
  pub sent : List Bytes

-- One round of `WritePump` that takes a message, with the socket's answer to it.
pump_message : Pump → List Bytes → Bool → Pump
unfolding close
pump_message p [] fails = p
pump_message p (frame ∷ rest) true = record p {
  conn = close (record p.conn { send = rest });
  pumping = false;
}
pump_message p (frame ∷ rest) false = record p {
  conn = record p.conn { send = rest };
  sent = p.sent ++ (frame ∷ []);
}

unfoldable pub pump : Pump → Bool → Pump
unfolding pump_message
pump p fails = if p.pumping then pump_message p p.conn.send fails else p

-- One round that takes the cancelled context.
unfoldable pub pump_cancelled : Pump → Pump
unfolding close
pump_cancelled p =
    if p.pumping && p.conn.cancelled then record p { conn = close p.conn; pumping = false } else p

-- The payload of a message frame.
abbrev pub payload_of : Bytes → List Bytes
payload_of [] = []
payload_of (a ∷ []) = []
payload_of (a ∷ b ∷ payload) = if a == 0 && b == 3 then payload ∷ [] else []

-- The payloads of the message frames up to the first failure.
abbrev pub payloads : List Read → List Bytes
payloads [] = []
payloads (read_failed ∷ reads) = []
payloads (received raw ∷ reads) = payload_of raw ++ payloads reads

-- What a frame does to an open connection with a callback.
record Heard (c c' : ClientConn) (frames : List Bytes) : Type 0 where
  heard : c'.received ≡ c.received ++ frames
  bounded : length c.send ≤ 256 → length c'.send ≤ 256
  still : (c'.cancelled ≡ c.cancelled) × (c'.listening ≡ c.listening)

handle_frame-Heard :
    (c : ClientConn) (raw : Bytes)
    → c.listening ≡ true
    → Heard c (handle_frame c raw) (payload_of raw)
unfolding handle_frame send_heartbeat_reply offer
handle_frame-Heard c [] on = record {
  heard = ground (arith, append-nil c.received);
  bounded = λ h. h;
  still = (refl, refl);
}
handle_frame-Heard c (a ∷ []) on = record {
  heard = ground (arith, append-nil c.received);
  bounded = λ h. h;
  still = (refl, refl);
}
handle_frame-Heard c (a ∷ b ∷ payload) on = record {
  heard = ground (arith, on, append-nil c.received);
  bounded = λ h. ground (arith, h, length-append c.send ((0 ∷ 0 ∷ []) ∷ []));
  still = (ground arith, ground arith);
}

-- What the loop does with one frame: a frame of less than two bytes is passed over.
taken : ClientConn → Bytes → ClientConn
unfolding handle_frame
taken c raw = if ltb (length raw) 2 then c else handle_frame c raw

taken_whole :
    (c : ClientConn) (a b : ℕ) (payload : Bytes)
    → taken c (a ∷ b ∷ payload) ≡ handle_frame c (a ∷ b ∷ payload)
unfolding taken
taken_whole c a b payload = ground arith

taken-Heard :
    (c : ClientConn) (raw : Bytes) → c.listening ≡ true → Heard c (taken c raw) (payload_of raw)
unfolding taken handle_frame
taken-Heard c [] on = handle_frame-Heard c [] on
taken-Heard c (a ∷ []) on = handle_frame-Heard c (a ∷ []) on
taken-Heard c (a ∷ b ∷ payload) on =
    subst (λ (c' : ClientConn). Heard c c' (payload_of (a ∷ b ∷ payload)))
      (sym (taken_whole c a b payload)) (handle_frame-Heard c (a ∷ b ∷ payload) on)

abbrev loop : ClientConn → List Read → ClientConn
loop c reads = read_loop (λ c'. ClientConn.cancelled c') handle_frame c reads

loop_next :
    (c : ClientConn) (raw : Bytes) (reads : List Read)
    → c.cancelled ≡ false
    → loop c (received raw ∷ reads) ≡ loop (taken c raw) reads
unfolding read_loop taken
loop_next c raw reads running = rw (running, read_loop) refl

Heard-trans :
    (c c' c'' : ClientConn) (frames more : List Bytes)
    → Heard c c' frames
    → Heard c' c'' more
    → Heard c c'' (frames ++ more)
Heard-trans c c' c'' frames more h k = record {
  heard = k.heard ∙ ap (λ z. z ++ more) h.heard ∙ append_assoc c.received frames more;
  bounded = λ b. k.bounded (h.bounded b);
  still = (k.still.0 ∙ h.still.0, k.still.1 ∙ h.still.1);
}

loop-Heard :
    (c : ClientConn) (reads : List Read)
    → c.listening ≡ true
    → c.cancelled ≡ false
    → Heard c (read_loop (λ c'. ClientConn.cancelled c') handle_frame c reads) (payloads reads)
unfolding read_loop taken
loop-Heard c [] on running = record {
  heard = ground (arith, append-nil c.received);
  bounded = λ h. h;
  still = (refl, refl);
}
loop-Heard c (read_failed ∷ reads) on running = record {
  heard = ground (arith, append-nil c.received);
  bounded = λ h. h;
  still = (refl, refl);
}
loop-Heard c (received raw ∷ reads) on running =
    let first = taken-Heard c raw on in
    let rest = loop-Heard (taken c raw) reads (first.still.1 ∙ on) (first.still.0 ∙ running) in
    subst (λ (c' : ClientConn). Heard c c' (payloads (received raw ∷ reads)))
      (sym (loop_next c raw reads running))
      (Heard-trans c (taken c raw) (loop (taken c raw) reads) (payload_of raw) (payloads reads)
        first rest)

-- On a connection that is not cancelled, has a callback and has at most 256 frames in its channel,
-- whatever the socket answers, the callback gets the payloads of the message frames that came before the
-- first failure, each once and in order; the channel holds at most 256 frames in the end; and the
-- connection is closed.
pub read_frames-payloads :
    (c : ClientConn) (reads : List Read)
    → c.listening ≡ true
    → c.cancelled ≡ false
    → length c.send ≤ 256
    → let c' = read_frames c reads in
      (c'.received ≡ c.received ++ payloads reads) × (length c'.send ≤ 256) × (c'.closed ≡ true)
unfolding read_frames close
read_frames-payloads c reads on running small =
    let h = loop-Heard c reads on running in
    (ground (arith, h.heard), ground (arith, h.bounded small), ground arith)
