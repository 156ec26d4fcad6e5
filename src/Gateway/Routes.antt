-- ===== src/Gateway/Routes.antt =====
-- services/gateway: the routes that each `RegisterMux` registers, in the order of main.go.
pub mod Finding
pub mod Interface
use feeds.Prelude.{String, List, [], ◌∷◌, ◌++◌}
use feeds.Gateway.Mux.{Segment, lit, param, Route}

-- The handlers.
pub data Endpoint : Type 0 where
  get_token : Endpoint
  register login get_user_info unregister : Endpoint
  follow unfollow get_followers get_following is_following : Endpoint
  post_feed get_feed list_feeds delete_feed get_timeline : Endpoint
  like unlike is_liked count_likes batch_count_likes : Endpoint
  create_comment list_comments delete_comment : Endpoint
  bookmark unbookmark is_bookmarked : Endpoint

abbrev handle_func : String → List Segment → Endpoint → Route Endpoint
handle_func method segments endpoint = record {
  pattern = record { method = method; segments = segments };
  handler = endpoint;
}

abbrev of_user : List Segment → List Segment
of_user rest = lit "user" ∷ param "id" ∷ rest

abbrev of_feed : List Segment → List Segment
of_feed rest = lit "feeds" ∷ param "id" ∷ rest

unfoldable pub upload_routes : List (Route Endpoint)
upload_routes = handle_func "GET" (lit "upload" ∷ lit "token" ∷ []) get_token ∷ []

unfoldable pub user_routes : List (Route Endpoint)
user_routes =
    handle_func "POST" (lit "user" ∷ lit "register" ∷ []) register
    ∷ handle_func "POST" (lit "user" ∷ lit "login" ∷ []) login
    ∷ handle_func "GET" (of_user []) get_user_info
    ∷ handle_func "DELETE" (of_user []) unregister
    ∷ handle_func "POST" (of_user (lit "follow" ∷ [])) follow
    ∷ handle_func "DELETE" (of_user (lit "follow" ∷ [])) unfollow
    ∷ handle_func "GET" (of_user (lit "followers" ∷ [])) get_followers
    ∷ handle_func "GET" (of_user (lit "following" ∷ [])) get_following
    ∷ handle_func "GET" (of_user (lit "follow" ∷ [])) is_following
    ∷ []

unfoldable pub feed_routes : List (Route Endpoint)
feed_routes =
    handle_func "POST" (lit "feeds" ∷ []) post_feed
    ∷ handle_func "GET" (of_feed []) get_feed
    ∷ handle_func "GET" (lit "feeds" ∷ []) list_feeds
    ∷ handle_func "DELETE" (of_feed []) delete_feed
    ∷ handle_func "GET" (lit "feeds" ∷ lit "timeline" ∷ []) get_timeline
    ∷ []

unfoldable pub interaction_routes : List (Route Endpoint)
interaction_routes =
    handle_func "POST" (of_feed (lit "like" ∷ [])) like
    ∷ handle_func "DELETE" (of_feed (lit "like" ∷ [])) unlike
    ∷ handle_func "GET" (of_feed (lit "like" ∷ [])) is_liked
    ∷ handle_func "GET" (of_feed (lit "likes" ∷ lit "count" ∷ [])) count_likes
    ∷ handle_func "POST" (lit "feeds" ∷ lit "likes" ∷ lit "batch" ∷ []) batch_count_likes
    ∷ handle_func "POST" (of_feed (lit "comments" ∷ [])) create_comment
    ∷ handle_func "GET" (of_feed (lit "comments" ∷ [])) list_comments
    ∷ handle_func "DELETE" (lit "comments" ∷ param "id" ∷ []) delete_comment
    ∷ handle_func "POST" (of_feed (lit "bookmark" ∷ [])) bookmark
    ∷ handle_func "DELETE" (of_feed (lit "bookmark" ∷ [])) unbookmark
    ∷ handle_func "GET" (of_feed (lit "bookmark" ∷ [])) is_bookmarked
    ∷ []

-- `HandleMux`: what every registered service adds to the routes.
handle_mux : List (List (Route Endpoint)) → List (Route Endpoint) → List (Route Endpoint)
handle_mux [] mux = mux
handle_mux (service ∷ services) mux = handle_mux services (mux ++ service)

-- The routes of the gateway.
unfoldable pub routes : List (Route Endpoint)
unfolding handle_mux upload_routes user_routes feed_routes interaction_routes
routes = handle_mux (user_routes ∷ feed_routes ∷ interaction_routes ∷ []) upload_routes
