-- ===== src/Gateway/Users.antt =====
-- services/gateway/srv/user_service.go: the handlers of the users. The gRPC client is an interface.
use feeds.Prelude.{String, Bool, List, Result, ok, err}
use feeds.User.Service.{LoginResp, GetInfoResp}
use feeds.Gateway.Http.{Call, Reply, failed, Body, Decoder, path_value, answered}

-- `user.UserServicevClient`
pub record UserClient (S : Type 0) : Type 0 where
  pub register : S → String → String → S × Result String
  pub login : S → String → String → S × Result LoginResp
  pub get_info : S → String → S × Result GetInfoResp
  pub unregister : S → String → S × Result Bool
  pub follow : S → String → String → S × Result Bool
  pub unfollow : S → String → String → S × Result Bool
  pub get_followers : S → String → S × Result (List String)
  pub get_following : S → String → S × Result (List String)
  pub is_following : S → String → String → S × Result Bool

module _ {S : Type 0} (client : UserClient S) where
  unfoldable pub handle_register : Decoder → Call → S → S × Reply
  handle_register decoder c s = elim (decoder.credentials c.request.body) [
    | err e ↦ (s, failed 400 e)
    | ok (username, password) ↦ answered Body.id (client.register s username password)
  ]

  unfoldable pub handle_login : Decoder → Call → S → S × Reply
  handle_login decoder c s = elim (decoder.credentials c.request.body) [
    | err e ↦ (s, failed 400 e)
    | ok (username, password) ↦ answered Body.login (client.login s username password)
  ]

  unfoldable pub handle_get_user_info : Call → S → S × Reply
  unfolding path_value
  handle_get_user_info c s = answered Body.user_info (client.get_info s (path_value c "id"))

  -- The user who goes is the one of the context, whatever the path says.
  unfoldable pub handle_unregister : Call → S → S × Reply
  handle_unregister c s = answered Body.success (client.unregister s c.user_id)

  unfoldable pub handle_follow : Call → S → S × Reply
  unfolding path_value
  handle_follow c s = answered Body.success (client.follow s c.user_id (path_value c "id"))

  unfoldable pub handle_unfollow : Call → S → S × Reply
  unfolding path_value
  handle_unfollow c s = answered Body.success (client.unfollow s c.user_id (path_value c "id"))

  unfoldable pub handle_get_followers : Call → S → S × Reply
  unfolding path_value
  handle_get_followers c s = answered Body.user_ids (client.get_followers s (path_value c "id"))

  unfoldable pub handle_get_following : Call → S → S × Reply
  unfolding path_value
  handle_get_following c s = answered Body.user_ids (client.get_following s (path_value c "id"))

  unfoldable pub handle_is_following : Call → S → S × Reply
  unfolding path_value
  handle_is_following c s =
      answered Body.is_following (client.is_following s c.user_id (path_value c "id"))
