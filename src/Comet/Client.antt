-- ===== src/Comet/Client.antt =====
-- pkg/comet/client/conn.go: the client's side of the protocol. The dialer and the socket are not
-- modelled: what they answer is an argument.
pub mod Handshake
pub mod Loops
use feeds.Prelude.{
  ℕ, String, Bool, true, false, Option, none, some, List, [], ◌∷◌, ◌++◌, Error, Result, ok, err,
  length, ltb, ◌==◌, ◌&&◌, if◌then◌else◌,
}
use feeds.Prelude.Error.{message, wrapped}
use feeds.Comet.Frame.{Bytes, type_auth, type_message, heartbeat_reply}

abbrev pub err_auth_failed : Error
err_auth_failed = message "client: auth failed"

abbrev pub err_conn_closed : Error
err_conn_closed = message "client: connection closed"

abbrev pub err_send_full : Error
err_send_full = message "client: send buffer full"

abbrev default_send_buf : ℕ
default_send_buf = 256

-- `received` records the calls of the `onMessage` callback, `listening` whether one is registered.
pub record ClientConn : Type 0 where
  pub closed : Bool
  pub cancelled : Bool
  pub send : List Bytes
  pub listening : Bool
  pub received : List Bytes

-- The frame that `Dial` sends.
unfoldable pub auth_frame : Bytes → Bytes
auth_frame token = type_auth ++ token

-- The reply to it: accepted if its first two bytes are 0x00 0x01.
unfoldable pub check_reply : Bytes → Result (Unit {0})
check_reply [] = err err_auth_failed
check_reply (a ∷ []) = err err_auth_failed
check_reply (a ∷ b ∷ rest) = if a == 0 && b == 1 then ok tt else err err_auth_failed

-- `Dial` after the socket is open: the error of sending the token, and the reply or its error.
unfoldable pub dial : Option Error → Result Bytes → Result ClientConn
unfolding check_reply
dial (some e) reply = err (wrapped "client: send auth: " e)
dial none (err e) = err (wrapped "client: read auth reply: " e)
dial none (ok raw) = elim (check_reply raw) [
  | err e ↦ err e
  | ok _ ↦
      ok (record { closed = false; cancelled = false; send = []; listening = false; received = [] })
]

-- `Dial`: the error of parsing the address, and that of opening the socket, come first.
unfoldable pub dial_addr :
    Option Error → Option Error → Option Error → Result Bytes → Result ClientConn
unfolding dial
dial_addr (some e) opened sent reply = err (wrapped "client: parse addr: " e)
dial_addr none (some e) sent reply = err (wrapped "client: dial: " e)
dial_addr none none sent reply = dial sent reply

-- The channel send of `Send` and of `sendHeartbeatReply`: it never waits.
unfoldable pub offer : ClientConn → Bytes → ClientConn × Option Error
offer c frame =
    if ltb (length c.send) default_send_buf
    then (record c { send = c.send ++ (frame ∷ []) }, none)
    else (c, some err_send_full)

unfoldable pub send_message : ClientConn → Bytes → ClientConn × Option Error
unfolding offer
send_message c payload =
    if c.closed then (c, some err_conn_closed) else offer c (type_message ++ payload)

unfoldable pub send_heartbeat_reply : ClientConn → ClientConn
unfolding offer
send_heartbeat_reply c = (offer c heartbeat_reply).0

-- `OnMessage`: registers the callback.
unfoldable pub on_message : ClientConn → ClientConn
on_message c = record c { listening = true }

-- The body of `ReadLoop` for one frame.
unfoldable pub handle_frame : ClientConn → Bytes → ClientConn
unfolding send_heartbeat_reply
handle_frame c [] = c
handle_frame c (a ∷ []) = c
handle_frame c (a ∷ b ∷ payload) =
    if a == 0 && b == 1
    then send_heartbeat_reply c
    else if a == 0 && b == 3
    then (if c.listening then record c { received = c.received ++ (payload ∷ []) } else c)
    else c

unfoldable pub close : ClientConn → ClientConn
close c = if c.closed then c else record c { closed = true; cancelled = true }
