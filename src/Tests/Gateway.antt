-- ===== src/Tests/Gateway.antt =====
-- Requests to the gateway, over the services of the other runs.
pub mod Removal
use mathlib.Core.List.{lookup}
use feeds.Prelude.{
  ◌≡◌, ◌≢◌, refl, String, true, false, none, some, List, [], ◌∷◌, ok, err, message, answered, arith,
  text_dec, with_default, exec, ◌↔◌, ◌<◌, ◌≤◌, ◌-◌, ◌*◌, ◌^◌,
}
use feeds.Prelude.Int.{pos, int64, page_number, page_size_of}
use feeds.Auth.{
  err_signature_invalid, middleware, is_public, trim_prefix, key_for, secret, validate_token,
  user_of_token, pass_as, pass_public, unauthorized,
}
use feeds.Auth.Decisions.{Names, middleware-validate_token}
use feeds.Feed.Model.{Feed}
use feeds.Feed.Repo.{select_post, delete_posts, delete}
use feeds.Feed.Service.{delete_feed}
use feeds.User.Repo.{User, user_of_name, find_by_username}
use feeds.User.Service.{login, login_as, claims_of}
use feeds.Gateway.Http.{Request, Decoder, failed, path_value}
use feeds.Gateway.Mux.{segments_of, match, serves, covers}
use feeds.Gateway.Query.{parse_int, narrow}
use feeds.Gateway.Query.Reading.{value, parse_int_lem, offset_fits}
use feeds.Interaction.Uuid.{codes}
use feeds.Gateway.Feeds.{handle_delete_feed}
use feeds.Gateway.Server.{Gateway, Moment, public_paths, serve, serve_http, handle}
use feeds.Gateway.Server.Backend.{World, delivered, Services, gateway, feed_client, call}
use feeds.Gateway.Server.Admission.{serve_unauthorized}
use feeds.Gateway.Server.Accounts.{serve_all, serve_all-IsGraph}
use feeds.User.Follows.Graph.{IsGraph}
use feeds.Gateway.Server.Session.{login_admits}
use feeds.Tests.Feed.{memory, json, two_posts}
use feeds.Tests.Interaction.{redis, unliked}
use feeds.Tests.User.{bcrypt, jwt, jwt_laws, no_env, two_users}

abbrev pub decoder : Decoder
decoder = record {
  blocks = λ body. ok [];
  credentials = λ body. ok ("ann", "pw");
  post_ids = λ body. ok [];
  content = λ body. "";
}

abbrev pub world : World
world = record {
  fate = delivered;
  status = λ e. e;
  first = answered;
  second = answered;
  each = λ id. answered;
  id = "p3";
  salt = "salt";
  now = 5000000;
  posts_by_created_at = λ posts. posts;
  ids_by_created_at = λ ids. ids;
  comments_by_created_at = λ comments. comments;
}

abbrev pub deployed : Gateway (Services memory json redis bcrypt jwt)
deployed = gateway memory json redis bcrypt jwt no_env decoder none world

abbrev pub services : Services memory json redis bcrypt jwt
services = record {
  feed = record {
    posts = two_posts;
    store = record { values = λ k. none; ranks = λ k. [] };
    events = [];
  };
  users = two_users;
  likes = record { storage = unliked; events = [] };
  comments = [];
  bookmarks = [];
}

abbrev pub moment : Moment
moment = record { now = 10; day = "2026/01/02"; uuid = "a" }

abbrev pub request : String → String → String → Request
request method path authorization = record {
  method = method;
  path = path;
  authorization = authorization;
  query = λ name. "";
  body = [];
}

abbrev pub with_token : String
with_token = "Bearer feeds-dev-secret"

abbrev pub deletion : Request
deletion = request "DELETE" "/feeds/p1" with_token

-- A token of another key names nobody.
forged : validate_token jwt no_env 10 "forged" ≡ err err_signature_invalid
unfolding validate_token user_of_token key_for secret text_dec
forged = refl

carried : trim_prefix "Bearer " "Bearer forged" ≡ some "forged"
unfolding trim_prefix
carried = refl

nobody : (user_id : String) → Names jwt no_env 10 "Bearer forged" user_id → ⊥
unfolding Names
nobody user_id (token, e, h) = cc (forged, carried, e, h)

closed : is_public "/feeds" public_paths ≡ false
unfolding is_public text_dec
closed = refl

serve_unauthorized_example :
    (text : String) × (serve deployed moment (request "POST" "/feeds" "Bearer forged") services
      ≡ (services, failed 401 (message text)))
unfolding gateway
serve_unauthorized_example =
    serve_unauthorized deployed moment (request "POST" "/feeds" "Bearer forged") services closed
      nobody

logged_in :
    login bcrypt jwt answered 5000000 "ann" "pw" two_users
    ≡ ok (record { success = true; token = "feeds-dev-secret" })
unfolding login login_as find_by_username user_of_name claims_of text_dec
logged_in = refl

login_admits_example :
    (u : User) × (user_of_name "ann" two_users.users ≡ some u)
    × (bcrypt.compare_hash_and_password u.password "pw" ≡ true)
    × (u.id ≢ ""
        → serve deployed moment deletion services
          ≡ serve_http deployed moment deletion u.id services)
unfolding gateway secret text_dec is_public
login_admits_example =
    login_admits bcrypt deployed jwt_laws moment answered 5000000 "ann" "pw" "feeds-dev-secret"
      two_users deletion services logged_in refl (omega arith) refl refl

middleware-validate_token_example :
    (is_public "/feeds" public_paths ≡ true
      → middleware jwt no_env 10 public_paths "/feeds" with_token ≡ pass_public)
    × (is_public "/feeds" public_paths ≡ false
        → ((user_id : String)
            → (middleware jwt no_env 10 public_paths "/feeds" with_token ≡ pass_as user_id)
              ↔ Names jwt no_env 10 with_token user_id)
          × (((user_id : String) → Names jwt no_env 10 with_token user_id → ⊥)
              → (text : String) × (middleware jwt no_env 10 public_paths "/feeds" with_token
                  ≡ unauthorized text)))
middleware-validate_token_example =
    middleware-validate_token jwt no_env 10 public_paths "/feeds" with_token

-- One more than 2 ^ 64 is read as 1.
parse_int_lem_example :
    (parse_int "18446744073709551617" (pos 20) ≡ pos 1)
    × (value 0 (codes "18446744073709551617") < 2 ^ 63
        → int64 (value 0 (codes "18446744073709551617"))
          ≡ pos (value 0 (codes "18446744073709551617")))
unfolding int64
parse_int_lem_example = parse_int_lem "18446744073709551617" (pos 20)

offset_fits_example :
    let page' = page_number (narrow (parse_int "2147483648" (pos 1))) in
    let size = page_size_of (narrow (parse_int "100" (pos 20))) in
    (0 < page') × (0 < size) × (size ≤ 50) × ((page' - 1) * size < 2 ^ 63)
offset_fits_example = offset_fits "2147483648" "100" (pos 1) (pos 20)

abbrev nobody_yet : Services memory json redis bcrypt jwt
nobody_yet = record services { users = record { users = []; follows = [] } }

-- A registration, and a request to follow without a token.
abbrev requests : List (World × Moment × Request)
requests =
    (world, moment, request "POST" "/user/register" "")
    ∷ (world, moment, request "POST" "/user/u1/follow" "")
    ∷ []

serve_all-IsGraph_example :
    IsGraph (serve_all memory json redis bcrypt jwt no_env decoder none requests nobody_yet).users
serve_all-IsGraph_example =
    serve_all-IsGraph memory json redis bcrypt jwt no_env decoder none requests nobody_yet refl
