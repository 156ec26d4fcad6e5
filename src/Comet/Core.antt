-- ===== src/Comet/Core.antt =====
-- pkg/comet/server.go and business.go: the protocol-free dispatch of frames. The business layer is
-- a parameter, and so is the write of a connection; `calls` records the calls of `OnMessage`.
pub mod Sessions
use feeds.Prelude.{
  ℕ, String, ite, Bool, Option, none, List, [], ◌∷◌, ◌++◌, Error, Result, ok, err, text_dec, ◌==◌,
  ◌&&◌, if◌then◌else◌,
}
use feeds.Comet.Frame.{Bytes, type_message, heartbeat_reply, auth_refused, auth_accepted}
use feeds.Comet.ConnManager.{Conn, ConnManager, room_of, bind, push_to_room}

pub record Business : Type 0 where
  pub on_auth : Bytes → Result String
  pub on_message : String → String → Bytes → Option Error

pub record Call : Type 0 where
  pub conn_id : String
  pub user_id : String
  pub payload : Bytes

pub record State (World : Type 0) : Type 0 where
  pub manager : ConnManager
  pub world : World
  pub calls : List Call

module _ {World : Type 0} (write : Conn → Bytes → World → World × Option Error)
    (business : Business) where
  -- A failed write is logged, and nothing else happens.
  unfoldable pub reply : State World → Conn → Bytes → State World
  reply s c frame = let (w, failed) = write c frame s.world in record s { world = w }

  unfoldable pub handle_heartbeat : State World → Conn → State World
  handle_heartbeat s c = reply s c heartbeat_reply

  -- The room of a connection is its user's id.
  unfoldable pub handle_auth : State World → Conn → Bytes → State World
  handle_auth s c payload = elim (business.on_auth payload) [
    | err e ↦ reply s c auth_refused
    | ok user_id ↦
        ite (text_dec user_id "") (reply s c auth_refused)
          (reply (record s { manager = bind s.manager user_id c }) c auth_accepted)
  ]

  -- An error of `OnMessage` is logged, and nothing else happens.
  unfoldable pub handle_message : State World → Conn → Bytes → State World
  handle_message s c payload =
      let user_id = room_of s.manager c.id in
      let call : Call = record { conn_id = c.id; user_id = user_id; payload = payload } in
      ite (text_dec user_id "") s (record s { calls = s.calls ++ (call ∷ []) })

  -- `Dispatch`: a frame that is too short, or of an unknown type, is dropped.
  unfoldable pub dispatch : State World → Conn → Bytes → State World
  unfolding handle_heartbeat handle_auth handle_message reply
  dispatch s c [] = s
  dispatch s c (a ∷ []) = s
  dispatch s c (a ∷ b ∷ payload) =
      if a == 0 && b == 1
      then handle_heartbeat s c
      else if a == 0 && b == 2
      then handle_auth s c payload
      else if a == 0 && b == 3
      then handle_message s c payload
      else s

module _ {World : Type 0} (write : Conn → Bytes → World → World × Option Error) where
  -- `Push`: a message frame to every connection of a room; the number of writes that succeeded.
  unfoldable pub push : State World → String → Bytes → State World × ℕ
  push s room_id payload =
      let (w, delivered) = push_to_room write s.manager room_id (type_message ++ payload) s.world in
      (record s { world = w }, delivered)
