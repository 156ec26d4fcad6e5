-- ===== src/Comet/Ws/Contents.antt =====
-- What holds of every frame that a connection has sent or is to send.
use feeds.Prelude.{
  Bool, true, false, Option, some, none, List, [], ◌∷◌, ◌++◌, length, ltb, if◌then◌else◌, Error,
}
use feeds.Prelude.All.{All, All-append}
use feeds.Comet.Frame.{Bytes}
use feeds.Comet.Ws.{
  WsConn, write, close, pump_message, pump, pump_cancelled, default_send_buf, err_conn_closed,
  err_send_full,
}

module _ {ℓ} (P : Bytes → Type ℓ) where
  abbrev pub Only : WsConn → Type ℓ
  Only c = All P c.sent × All P c.send

  Only-if : (b : Bool) (c d : WsConn) → Only c → Only d → Only (if b then c else d)
  Only-if true c d h k = h
  Only-if false c d h k = k

  Only-answer :
      (b : Bool) (c d : WsConn × Option Error) → Only c.0 → Only d.0 → Only (if b then c else d).0
  Only-answer true c d h k = h
  Only-answer false c d h k = k

  pub write-Only : (c : WsConn) (frame : Bytes) → P frame → Only c → Only (write c frame).0
  unfolding write
  write-Only c frame p h =
      let taken : WsConn = record c { send = c.send ++ (frame ∷ []) } in
      Only-answer c.closed (c, some err_conn_closed)
        (if ltb (length c.send) default_send_buf then (taken, none) else (c, some err_send_full)) h
        (Only-answer (ltb (length c.send) default_send_buf) (taken, none) (c, some err_send_full)
          (h.0, All-append P c.send (frame ∷ []) h.1 (p, tt)) h)

  pub close-Only : (c : WsConn) → Only c → Only (close c)
  unfolding close
  close-Only c h = Only-if c.closed c (record c { closed = true; cancelled = true }) h h

  pump_message-Only :
      (c : WsConn) (queue : List Bytes) (fails : Bool)
      → All P c.sent
      → All P queue
      → All P c.send
      → Only (pump_message c queue fails)
  unfolding pump_message
  pump_message-Only c [] fails sent queued send = (sent, send)
  pump_message-Only c (frame ∷ rest) true sent queued send =
      close-Only (record c { send = rest }) (sent, queued.1)
  pump_message-Only c (frame ∷ rest) false sent queued send =
      (All-append P c.sent (frame ∷ []) sent (queued.0, tt), queued.1)

  pub pump-Only : (c : WsConn) (fails : Bool) → Only c → Only (pump c fails)
  unfolding pump
  pump-Only c fails h =
      Only-if c.pumping (pump_message c c.send fails) c
        (pump_message-Only c c.send fails h.0 h.1 h.1) h

  pub pump_cancelled-Only : (c : WsConn) → Only c → Only (pump_cancelled c)
  unfolding pump_cancelled
  pump_cancelled-Only c h =
      let over : WsConn = record (close c) { pumping = false } in
      Only-if c.pumping (if c.cancelled then over else c) c
        (Only-if c.cancelled over c (close-Only c h) h) h
