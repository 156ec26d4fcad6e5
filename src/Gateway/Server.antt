-- ===== src/Gateway/Server.antt =====
-- services/gateway/main.go: a request through the middleware and the mux to its handler.
pub mod Comments
pub mod Backend
pub mod Admission
pub mod Safety
pub mod Unguarded
pub mod Session
pub mod Accounts
pub mod Effects
pub mod Posts
use feeds.Prelude.{
  ℕ, String, Option, none, some, List, [], ◌∷◌, Error, message, Result, if◌then◌else◌,
}
use feeds.Auth.{Jwt, Env, middleware, Decision, unauthorized, pass_public, pass_as}
use feeds.Gateway.Http.{Request, Call, Reply, failed, Decoder}
use feeds.Gateway.Mux.{Found, segments_of, find, known}
use feeds.Gateway.Routes.{Endpoint, routes}
use feeds.Gateway.Feeds
use feeds.Gateway.Feeds.{FeedClient}
use feeds.Gateway.Users
use feeds.Gateway.Users.{UserClient}
use feeds.Gateway.Interactions
use feeds.Gateway.Interactions.{InteractionClient}
use feeds.Gateway.Upload.{handle_get_token}

-- What the gateway is built from.
pub record Gateway (S : Type 0) : Type 0 where
  pub jwt : Jwt
  pub env : Env
  pub decoder : Decoder
  pub cos : Option (String → Result String)
  pub feed_svc : FeedClient S
  pub user_svc : UserClient S
  pub client : InteractionClient S

abbrev pub public_paths : List String
public_paths = "/user/register" ∷ "/user/login" ∷ []

-- What the environment gives for one request: the seconds, the day and a fresh UUID.
pub record Moment : Type 0 where
  pub now : ℕ
  pub day : String
  pub uuid : String

module _ {S : Type 0} (g : Gateway S) (t : Moment) where
  -- The handler of an endpoint.
  unfoldable pub handle : Endpoint → Call → S → S × Reply
  handle Endpoint.get_token c s = (s, handle_get_token g.cos t.day t.uuid c)
  handle Endpoint.register c s = Users.handle_register g.user_svc g.decoder c s
  handle Endpoint.login c s = Users.handle_login g.user_svc g.decoder c s
  handle Endpoint.get_user_info c s = Users.handle_get_user_info g.user_svc c s
  handle Endpoint.unregister c s = Users.handle_unregister g.user_svc c s
  handle Endpoint.follow c s = Users.handle_follow g.user_svc c s
  handle Endpoint.unfollow c s = Users.handle_unfollow g.user_svc c s
  handle Endpoint.get_followers c s = Users.handle_get_followers g.user_svc c s
  handle Endpoint.get_following c s = Users.handle_get_following g.user_svc c s
  handle Endpoint.is_following c s = Users.handle_is_following g.user_svc c s
  handle Endpoint.post_feed c s = Feeds.handle_post_feed g.feed_svc g.decoder c s
  handle Endpoint.get_feed c s = Feeds.handle_get_feed g.feed_svc c s
  handle Endpoint.list_feeds c s = Feeds.handle_list_feeds g.feed_svc c s
  handle Endpoint.delete_feed c s = Feeds.handle_delete_feed g.feed_svc c s
  handle Endpoint.get_timeline c s = Feeds.handle_get_timeline g.feed_svc c s
  handle Endpoint.like c s = Interactions.handle_like g.client c s
  handle Endpoint.unlike c s = Interactions.handle_unlike g.client c s
  handle Endpoint.is_liked c s = Interactions.handle_is_liked g.client c s
  handle Endpoint.count_likes c s = Interactions.handle_count_likes g.client c s
  handle Endpoint.batch_count_likes c s =
      Interactions.handle_batch_count_likes g.client g.decoder c s
  handle Endpoint.create_comment c s = Interactions.handle_create_comment g.client g.decoder c s
  handle Endpoint.list_comments c s = Interactions.handle_list_comments g.client c s
  handle Endpoint.delete_comment c s = Interactions.handle_delete_comment g.client c s
  handle Endpoint.bookmark c s = Interactions.handle_bookmark g.client c s
  handle Endpoint.unbookmark c s = Interactions.handle_unbookmark g.client c s
  handle Endpoint.is_bookmarked c s = Interactions.handle_is_bookmarked g.client c s

  -- The mux, with the user id of the context.
  unfoldable pub serve_http : Request → String → S → S × Reply
  serve_http r user_id s = elim (find r.method (segments_of r.path) routes) [
    | some f ↦
        handle f.route.handler (record { request = r; user_id = user_id; values = f.values }) s
    | none ↦ (
      s,
      if known (segments_of r.path) routes
          then failed 405 (message "Method Not Allowed")
          else failed 404 (message "404 page not found"),
    )
  ]

  unfoldable pub serve : Request → S → S × Reply
  serve r s = elim (middleware g.jwt g.env t.now public_paths r.path r.authorization) [
    | unauthorized text ↦ (s, failed 401 (message text))
    | pass_public ↦ serve_http r "" s
    | pass_as user_id ↦ serve_http r user_id s
  ]
