-- ===== src/Live.antt =====
-- services/live/main.go: the business layer of the comet core, and the gRPC methods that the notify
-- service calls. `text_of` is Go's conversion of bytes to a string.
use mathlib.Core.List.{lookup}
use feeds.Prelude.{
  ℕ, ◌≡◌, ap, sym, ◌∙◌, arith, text_dec, inl, inr, Option-cases, String, Bool, none, Option, Error,
  length,
}
use feeds.Prelude.Int.{ℤ, int32}
use feeds.Comet.Frame.{Bytes}
use feeds.Comet.ConnManager.{Conn, ConnManager, room_online, members_of}
use feeds.Comet.Core.{Business, State, push}
use feeds.Comet.Client.Handshake.{Wire, record_write, push-arrives}
use feeds.Auth.{Jwt, Env, validate_token}

unfoldable pub comet_business : Jwt → Env → ℕ → (Bytes → String) → Business
comet_business jwt env now text_of = record {
  on_auth = λ payload. validate_token jwt env now (text_of payload);
  on_message = λ conn_id user_id payload. none;
}

-- `pb.OnlineResp`
pub record OnlineResp : Type 0 where
  pub online : Bool
  pub device_count : ℤ

module _ {World : Type 0} (write : Conn → Bytes → World → World × Option Error) where
  -- `PushRoom`: how many of the room's connections took the payload.
  unfoldable pub push_room : State World → String → Bytes → State World × ℤ
  push_room s room_id payload =
      let (s', delivered) = push write s room_id payload in (s', int32 delivered)

  -- `PushUser`: the room of a user is the user's id.
  unfoldable pub push_user : State World → String → Bytes → State World × ℤ
  push_user s user_id payload =
      let (s', delivered) = push write s user_id payload in (s', int32 delivered)

unfoldable pub is_online : ConnManager → String → OnlineResp
is_online m user_id =
    let (online, count) = room_online m user_id in
    record { online = online; device_count = int32 count }

online_count : (m : ConnManager) (r : String) → (room_online m r).1 ≡ length (members_of m r)
unfolding room_online members_of
online_count m r = elim (Option-cases (lookup text_dec r m.rooms)) [
  | inl e ↦ ground (arith, e)
  | inr (ms, e) ↦ ground (arith, e)
]

-- When every write succeeds, `PushUser` delivers to as many devices as `IsOnline` reports.
pub push_user-is_online :
    (s : State Wire) (user_id : String) (payload : Bytes)
    → (push_user record_write s user_id payload).1 ≡ (is_online s.manager user_id).device_count
unfolding push_user is_online
push_user-is_online s user_id payload =
    let (frame, pushed, read) = push-arrives s user_id payload in
    let delivered : (push record_write s user_id payload).1
        ≡ length (members_of s.manager user_id) =
      ap (λ r. r.1) pushed in
    ap int32 (delivered ∙ sym (online_count s.manager user_id))
