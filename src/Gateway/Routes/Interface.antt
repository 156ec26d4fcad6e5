-- ===== src/Gateway/Routes/Interface.antt =====
-- The gateway's interface against its table of routes.
use mathlib.Core.List.{Memᴰ}
use mathlib.Core.Path.{subst}
use feeds.Prelude.{
  ◌≡◌, refl, sym, ap, ◌∙◌, ℕ, zero, suc, String, Option, none, some, List, [], ◌∷◌, map,
}
use feeds.Gateway.Mux.{Segment, lit, param, Pattern, Route}
use feeds.Gateway.Routes.{Endpoint, routes}

abbrev asks : String → List Segment → Pattern
asks method segments = record { method = method; segments = segments }

-- The interface of the gateway: the method and the path that each handler of services/gateway/srv is for.
unfoldable pub pattern_of : Endpoint → Pattern
pattern_of Endpoint.get_token = asks "GET" (lit "upload" ∷ lit "token" ∷ [])
pattern_of Endpoint.register = asks "POST" (lit "user" ∷ lit "register" ∷ [])
pattern_of Endpoint.login = asks "POST" (lit "user" ∷ lit "login" ∷ [])
pattern_of Endpoint.get_user_info = asks "GET" (lit "user" ∷ param "id" ∷ [])
pattern_of Endpoint.unregister = asks "DELETE" (lit "user" ∷ param "id" ∷ [])
pattern_of Endpoint.follow = asks "POST" (lit "user" ∷ param "id" ∷ lit "follow" ∷ [])
pattern_of Endpoint.unfollow = asks "DELETE" (lit "user" ∷ param "id" ∷ lit "follow" ∷ [])
pattern_of Endpoint.get_followers = asks "GET" (lit "user" ∷ param "id" ∷ lit "followers" ∷ [])
pattern_of Endpoint.get_following = asks "GET" (lit "user" ∷ param "id" ∷ lit "following" ∷ [])
pattern_of Endpoint.is_following = asks "GET" (lit "user" ∷ param "id" ∷ lit "follow" ∷ [])
pattern_of Endpoint.post_feed = asks "POST" (lit "feeds" ∷ [])
pattern_of Endpoint.get_feed = asks "GET" (lit "feeds" ∷ param "id" ∷ [])
pattern_of Endpoint.list_feeds = asks "GET" (lit "feeds" ∷ [])
pattern_of Endpoint.delete_feed = asks "DELETE" (lit "feeds" ∷ param "id" ∷ [])
pattern_of Endpoint.get_timeline = asks "GET" (lit "feeds" ∷ lit "timeline" ∷ [])
pattern_of Endpoint.like = asks "POST" (lit "feeds" ∷ param "id" ∷ lit "like" ∷ [])
pattern_of Endpoint.unlike = asks "DELETE" (lit "feeds" ∷ param "id" ∷ lit "like" ∷ [])
pattern_of Endpoint.is_liked = asks "GET" (lit "feeds" ∷ param "id" ∷ lit "like" ∷ [])
pattern_of Endpoint.count_likes =
    asks "GET" (lit "feeds" ∷ param "id" ∷ lit "likes" ∷ lit "count" ∷ [])
pattern_of Endpoint.batch_count_likes = asks "POST" (lit "feeds" ∷ lit "likes" ∷ lit "batch" ∷ [])
pattern_of Endpoint.create_comment = asks "POST" (lit "feeds" ∷ param "id" ∷ lit "comments" ∷ [])
pattern_of Endpoint.list_comments = asks "GET" (lit "feeds" ∷ param "id" ∷ lit "comments" ∷ [])
pattern_of Endpoint.delete_comment = asks "DELETE" (lit "comments" ∷ param "id" ∷ [])
pattern_of Endpoint.bookmark = asks "POST" (lit "feeds" ∷ param "id" ∷ lit "bookmark" ∷ [])
pattern_of Endpoint.unbookmark = asks "DELETE" (lit "feeds" ∷ param "id" ∷ lit "bookmark" ∷ [])
pattern_of Endpoint.is_bookmarked = asks "GET" (lit "feeds" ∷ param "id" ∷ lit "bookmark" ∷ [])

abbrev pub route_of : Endpoint → Route Endpoint
route_of e = record { pattern = pattern_of e; handler = e }

-- The endpoints in the order of their registration, and the place of each.
order : List Endpoint
order =
    Endpoint.get_token ∷ Endpoint.register ∷ Endpoint.login ∷ Endpoint.get_user_info
    ∷ Endpoint.unregister ∷ Endpoint.follow ∷ Endpoint.unfollow ∷ Endpoint.get_followers
    ∷ Endpoint.get_following ∷ Endpoint.is_following ∷ Endpoint.post_feed ∷ Endpoint.get_feed
    ∷ Endpoint.list_feeds ∷ Endpoint.delete_feed ∷ Endpoint.get_timeline ∷ Endpoint.like
    ∷ Endpoint.unlike ∷ Endpoint.is_liked ∷ Endpoint.count_likes ∷ Endpoint.batch_count_likes
    ∷ Endpoint.create_comment ∷ Endpoint.list_comments ∷ Endpoint.delete_comment ∷ Endpoint.bookmark
    ∷ Endpoint.unbookmark ∷ Endpoint.is_bookmarked ∷ []

place : Endpoint → ℕ
place Endpoint.get_token = 0
place Endpoint.register = 1
place Endpoint.login = 2
place Endpoint.get_user_info = 3
place Endpoint.unregister = 4
place Endpoint.follow = 5
place Endpoint.unfollow = 6
place Endpoint.get_followers = 7
place Endpoint.get_following = 8
place Endpoint.is_following = 9
place Endpoint.post_feed = 10
place Endpoint.get_feed = 11
place Endpoint.list_feeds = 12
place Endpoint.delete_feed = 13
place Endpoint.get_timeline = 14
place Endpoint.like = 15
place Endpoint.unlike = 16
place Endpoint.is_liked = 17
place Endpoint.count_likes = 18
place Endpoint.batch_count_likes = 19
place Endpoint.create_comment = 20
place Endpoint.list_comments = 21
place Endpoint.delete_comment = 22
place Endpoint.bookmark = 23
place Endpoint.unbookmark = 24
place Endpoint.is_bookmarked = 25

nth {ℓ} : {A : Type ℓ} → List A → ℕ → Option A
nth [] i = none
nth (x ∷ xs) zero = some x
nth (x ∷ xs) (suc i) = nth xs i

nth-Memᴰ :
    (f : Endpoint → Route Endpoint) (es : List Endpoint) (i : ℕ) (e : Endpoint)
    → nth es i ≡ some e
    → Memᴰ (f e) (map f es)
unfolding nth
nth-Memᴰ f [] i e h = cc h
nth-Memᴰ f (x ∷ es) zero e h = Memᴰ.head (ap f (cc h))
nth-Memᴰ f (x ∷ es) (suc i) e h = Memᴰ.tail (nth-Memᴰ f es i e h)

order-place : (e : Endpoint) → nth order (place e) ≡ some e
unfolding order place nth
order-place Endpoint.get_token = refl
order-place Endpoint.register = refl
order-place Endpoint.login = refl
order-place Endpoint.get_user_info = refl
order-place Endpoint.unregister = refl
order-place Endpoint.follow = refl
order-place Endpoint.unfollow = refl
order-place Endpoint.get_followers = refl
order-place Endpoint.get_following = refl
order-place Endpoint.is_following = refl
order-place Endpoint.post_feed = refl
order-place Endpoint.get_feed = refl
order-place Endpoint.list_feeds = refl
order-place Endpoint.delete_feed = refl
order-place Endpoint.get_timeline = refl
order-place Endpoint.like = refl
order-place Endpoint.unlike = refl
order-place Endpoint.is_liked = refl
order-place Endpoint.count_likes = refl
order-place Endpoint.batch_count_likes = refl
order-place Endpoint.create_comment = refl
order-place Endpoint.list_comments = refl
order-place Endpoint.delete_comment = refl
order-place Endpoint.bookmark = refl
order-place Endpoint.unbookmark = refl
order-place Endpoint.is_bookmarked = refl

routes-map : routes ≡ map route_of order
unfolding routes order pattern_of
routes-map = refl

-- Every endpoint is registered, under its pattern.
pub route_of-Memᴰ : (e : Endpoint) → Memᴰ (route_of e) routes
route_of-Memᴰ e =
    subst (Memᴰ (route_of e)) (sym routes-map) (nth-Memᴰ route_of order (place e) e (order-place e))

map-pattern_of :
    (es : List Endpoint) (r : Route Endpoint)
    → Memᴰ r (map route_of es)
    → r.pattern ≡ pattern_of r.handler
map-pattern_of [] r m = elim m [ ]
map-pattern_of (e ∷ es) r (Memᴰ.head h) =
    ap Route.pattern h ∙ sym (ap (λ x. pattern_of (Route.handler x)) h)
map-pattern_of (e ∷ es) r (Memᴰ.tail m) = map-pattern_of es r m

-- Every registered pattern is that of its handler.
pub routes-pattern_of : (r : Route Endpoint) → Memᴰ r routes → r.pattern ≡ pattern_of r.handler
routes-pattern_of r m = map-pattern_of order r (subst (Memᴰ r) routes-map m)
