-- ===== src/Comet/Frame.antt =====
-- pkg/comet/protocol.go: a frame is two bytes of type, then the payload.
use feeds.Prelude.{ℕ, List, [], ◌∷◌}

abbrev pub Bytes : Type 0
Bytes = List ℕ

abbrev pub frame_header_size : ℕ
frame_header_size = 2

abbrev pub type_heartbeat : Bytes
type_heartbeat = 0 ∷ 1 ∷ []

abbrev pub type_auth : Bytes
type_auth = 0 ∷ 2 ∷ []

abbrev pub type_message : Bytes
type_message = 0 ∷ 3 ∷ []

abbrev pub heartbeat_reply : Bytes
heartbeat_reply = 0 ∷ 0 ∷ []

-- `handleAuth` answers with one of these.
abbrev pub auth_refused : Bytes
auth_refused = 0 ∷ 0 ∷ []

abbrev pub auth_accepted : Bytes
auth_accepted = 0 ∷ 1 ∷ []
