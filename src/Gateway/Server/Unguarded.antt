-- ===== src/Gateway/Server/Unguarded.antt =====
-- The public paths of the middleware, whatever the method is.
use mathlib.Core.List.{lookup}
use feeds.Prelude.{◌≡◌, refl, String, text_dec, with_default}
use feeds.Auth.{middleware, is_public}
use feeds.Gateway.Http.{Request, Bytes, Body, answered}
use feeds.Gateway.Mux.{segments_of, find, match, serves, covers}
use feeds.Gateway.Routes.{routes}
use feeds.Gateway.Users.{handle_unregister, handle_get_user_info}
use feeds.Gateway.Http.{path_value}
use feeds.Gateway.Server.{Gateway, Moment, handle, serve_http, serve}

abbrev request : String → String → String → (String → String) → Bytes → Request
request method path authorization query body = record {
  method = method;
  path = path;
  authorization = authorization;
  query = query;
  body = body;
}

module _ {S : Type 0} (g : Gateway S) (t : Moment) where
  -- The middleware lets a public path pass whatever the method is. So DELETE on /user/login needs no
  -- token, and calls `Unregister` with an empty user id; and GET on /user/register needs none, and
  -- calls `GetInfo` for the id "register".
  pub unregister_needs_no_token :
      (authorization : String) (query : String → String) (body : Bytes) (s : S)
      → (serve g t (request "DELETE" "/user/login" authorization query body) s
          ≡ answered Body.success (g.user_svc.unregister s ""))
        × (serve g t (request "GET" "/user/register" authorization query body) s
            ≡ answered Body.user_info (g.user_svc.get_info s "register"))
  unfolding serve serve_http handle handle_unregister handle_get_user_info path_value is_public
      middleware find match serves covers segments_of routes text_dec lookup with_default
  unregister_needs_no_token authorization query body s = (refl, refl)
