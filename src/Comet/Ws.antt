-- ===== src/Comet/Ws.antt =====
-- pkg/comet/ws/conn.go and the session of pkg/comet/ws/server.go: one WebSocket connection with its
-- send channel, and the loops that read and write it. The socket's answers are arguments. `sent`
-- is what has been written to the socket, `pumping` whether the goroutine of `WritePump` still runs.
pub mod Delivery
pub mod Serving
pub mod Leaving
pub mod Draining
pub mod Contents
pub mod Order
use mathlib.Core.List.{lookup}
use feeds.Prelude.{
  ℕ, String, Bool, true, false, Option, none, some, List, [], ◌∷◌, ◌++◌, Error, length, ltb,
  text_dec, if◌then◌else◌,
}
use feeds.Prelude.Error.{message}
use feeds.Prelude.Maps.{insert}
use feeds.Comet.Frame.{Bytes}
use feeds.Comet.ConnManager.{Conn}

abbrev pub err_send_full : Error
err_send_full = message "ws: send buffer full"

abbrev pub err_conn_closed : Error
err_conn_closed = message "ws: connection closed"

abbrev pub default_send_buf : ℕ
default_send_buf = 256

-- `cancelled` is the connection's context.
pub record WsConn : Type 0 where
  pub closed : Bool
  pub cancelled : Bool
  pub send : List Bytes
  pub pumping : Bool
  pub sent : List Bytes

-- `New`, with the goroutine of `WritePump` started.
unfoldable pub new : WsConn
new = record { closed = false; cancelled = false; send = []; pumping = true; sent = [] }

-- `Write`: puts the frame on the channel, or fails at once.
unfoldable pub write : WsConn → Bytes → WsConn × Option Error
write c frame =
    if c.closed
    then (c, some err_conn_closed)
    else if ltb (length c.send) default_send_buf
    then (record c { send = c.send ++ (frame ∷ []) }, none)
    else (c, some err_send_full)

-- `Close`; the error of closing the socket is dropped by every caller.
unfoldable pub close : WsConn → WsConn
close c = if c.closed then c else record c { closed = true; cancelled = true }

-- One round of `WritePump` that takes a message: `fails` is the socket's answer to the write or to
-- its deadline. On a failure the loop returns, and its deferred `Close` runs.
pump_message : WsConn → List Bytes → Bool → WsConn
unfolding close
pump_message c [] fails = c
pump_message c (frame ∷ rest) true = record (close (record c { send = rest })) { pumping = false }
pump_message c (frame ∷ rest) false = record c { send = rest; sent = c.sent ++ (frame ∷ []) }

unfoldable pub pump : WsConn → Bool → WsConn
unfolding pump_message
pump c fails = if c.pumping then pump_message c c.send fails else c

-- One round of `WritePump` that takes the cancelled context.
unfoldable pub pump_cancelled : WsConn → WsConn
unfolding close
pump_cancelled c =
    if c.pumping then (if c.cancelled then record (close c) { pumping = false } else c) else c

-- What `ReadMessage` answers.
pub data Read : Type 0 where
  received : Bytes → Read
  read_failed : Read

-- `ReadLoop` over the answers of the socket, up to the first failure or a cancelled context; the
-- deferred `Close` is the caller's last step.
module _ {ℓ} {S : Type ℓ} (cancelled : S → Bool) (on_read : S → Bytes → S) where
  unfoldable pub read_loop : S → List Read → S
  read_loop s [] = s
  read_loop s (read_failed ∷ reads) = s
  read_loop s (received raw ∷ reads) =
      let next = read_loop (if ltb (length raw) 2 then s else on_read s raw) reads in
      if cancelled s then s else next

-- The connections of a server by their ids: `Conn` is a pointer to one of them.
abbrev pub Heap : Type 0
Heap = List (String × WsConn)

-- `Conn.Write` on the heap. Every `Conn` of the program points to a connection.
unfoldable pub write_conn : Conn → Bytes → Heap → Heap × Option Error
unfolding write
write_conn c frame h = elim (lookup text_dec c.id h) [
  | none ↦ (h, some err_conn_closed)
  | some ws ↦ let (ws', failed) = write ws frame in (insert text_dec c.id ws' h, failed)
]
