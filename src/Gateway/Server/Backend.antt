-- ===== src/Gateway/Server/Backend.antt =====
-- The gRPC clients of the gateway over the services that cmd and docker-compose put behind them:
-- services/feed, services/user and services/interaction, each with its own tables and Redis keys. What a
-- database, a clock and the network choose for a request is an argument. gRPC is a parameter: a call
-- that does not reach its service fails, and the answer of one that does can be lost.
use feeds.Prelude.{String, Option, List, Error, Result, ok, err, Outcome}
use feeds.Prelude.Pairs.{Pairs}
use feeds.Auth.{Jwt, Env}
use feeds.Gateway.Http.{Decoder}
use feeds.Gateway.Server.{Gateway}
use feeds.Feed.Model.{Time}
use feeds.Feed.Repo.{Posts}
use feeds.Feed.Cache.{PostCache, Json}
use feeds.Feed.Service.{FeedState, post_feed, get_post_content, delete_feed, list_feeds}
use feeds.Feed.Timeline.{get_timeline}
use feeds.User.Repo.{UserDb}
use feeds.User.Service
use feeds.User.Service.{Bcrypt}
use feeds.Interaction.Redis.{RedisClient}
use feeds.Interaction.Comments.{Comment}
use feeds.Interaction.Service as InteractionService
use feeds.Interaction.Service.{ServiceState}
use feeds.Gateway.Feeds.{FeedClient}
use feeds.Gateway.Users.{UserClient}
use feeds.Gateway.Interactions.{InteractionClient}

pub data Fate : Type 0 where
  delivered : Fate
  unreachable : Error → Fate
  answer_lost : Error → Fate

-- What is chosen for one request. A service's method runs up to two statements, or one for each of
-- several ids.
pub record World : Type 0 where
  pub fate : Fate
  -- The status error that a client sees of a service's error.
  pub status : Error → Error
  pub first : Outcome
  pub second : Outcome
  pub each : String → Outcome
  pub id : String
  pub salt : String
  pub now : Time
  pub posts_by_created_at : Posts → Posts
  pub ids_by_created_at : List String → List String
  pub comments_by_created_at : List Comment → List Comment

abbrev status_of {ℓ} : {A : Type ℓ} → World → Result A → Result A
status_of w (ok a) = ok a
status_of w (err e) = err (w.status e)

-- A call of a client.
unfoldable pub call {ℓ κ} :
    {S : Type ℓ} {A : Type κ} → World → (S → S × Result A) → S → S × Result A
call w method s = elim w.fate [
  | delivered ↦ let (s', r) = method s in (s', status_of w r)
  | unreachable e ↦ (s, err e)
  | answer_lost e ↦ let (s', r) = method s in (s', err e)
]

module _ {Score Text : Type 0} (cache : PostCache Score Text) (json : Json Text)
    (redis : RedisClient) (bcrypt : Bcrypt) (jwt : Jwt) where
  pub record Services : Type 0 where
    pub feed : FeedState cache.Store
    pub users : UserDb
    pub likes : ServiceState redis
    pub comments : List Comment
    pub bookmarks : Pairs

  abbrev on_feed {ℓ} :
      {A : Type ℓ}
      → World
      → (FeedState cache.Store → FeedState cache.Store × Result A)
      → Services
      → Services × Result A
  on_feed w method s = let (feed, r) = call w method s.feed in (record s { feed = feed }, r)

  -- A method that changes the cache at most.
  abbrev on_cache {ℓ} :
      {A : Type ℓ}
      → World
      → (Posts → cache.Store → cache.Store × Result A)
      → Services
      → Services × Result A
  on_cache w method = on_feed w (λ f.
      let (store, r) = method (FeedState.posts f) (FeedState.store f) in
      (record f { store = store }, r))

  abbrev on_users {ℓ} :
      {A : Type ℓ} → World → (UserDb → UserDb × Result A) → Services → Services × Result A
  on_users w method s = let (users, r) = call w method s.users in (record s { users = users }, r)

  abbrev on_likes {ℓ} :
      {A : Type ℓ}
      → World
      → (ServiceState redis → ServiceState redis × Result A)
      → Services
      → Services × Result A
  on_likes w method s = let (likes, r) = call w method s.likes in (record s { likes = likes }, r)

  abbrev on_comments {ℓ} :
      {A : Type ℓ}
      → World
      → (List Comment → List Comment × Result A)
      → Services
      → Services × Result A
  on_comments w method s =
      let (comments, r) = call w method s.comments in (record s { comments = comments }, r)

  abbrev on_bookmarks {ℓ} :
      {A : Type ℓ} → World → (Pairs → Pairs × Result A) → Services → Services × Result A
  on_bookmarks w method s =
      let (bookmarks, r) = call w method s.bookmarks in (record s { bookmarks = bookmarks }, r)

  unfoldable pub feed_client : World → FeedClient Services
  unfolding call
  feed_client w = record {
    post_feed = λ s author_id blocks.
        on_feed w (λ f. post_feed cache json w.first w.id w.now f author_id blocks) s;
    get_feed =
        λ s id. on_cache w (λ posts store. get_post_content cache json w.first posts store id) s;
    list_feeds = λ s author_id page page_size.
        on_feed w
          (λ f. (
            f,
            list_feeds w.posts_by_created_at w.first w.second (FeedState.posts f) author_id page
                page_size,
          ))
          s;
    delete_feed =
        λ s id author_id. on_feed w (λ f. delete_feed cache json w.first f id author_id) s;
    get_timeline = λ s user_id cursor page_size.
        on_cache w
          (λ posts store.
            let (store', r) = get_timeline cache json w.each posts store user_id cursor page_size in
            (store', ok r))
          s;
  }

  unfoldable pub user_client : World → UserClient Services
  unfolding call
  user_client w = record {
    register = λ s username password.
        on_users w (Service.register bcrypt w.first w.salt w.id w.now username password) s;
    login = λ s username password.
        on_users w (λ db. (db, Service.login bcrypt jwt w.first w.now username password db)) s;
    get_info = λ s id. on_users w (λ db. (db, Service.get_info w.first id db)) s;
    unregister = λ s id. on_users w (Service.unregister w.first id) s;
    follow =
        λ s follower_id followed_id. on_users w (Service.follow w.first follower_id followed_id) s;
    unfollow = λ s follower_id followed_id.
        on_users w (Service.unfollow w.first follower_id followed_id) s;
    get_followers =
        λ s id. on_users w (λ db. (db, Service.get_followers w.ids_by_created_at w.first id db)) s;
    get_following =
        λ s id. on_users w (λ db. (db, Service.get_following w.ids_by_created_at w.first id db)) s;
    is_following = λ s follower_id followed_id.
        on_users w (λ db. (db, Service.is_following w.first follower_id followed_id db)) s;
  }

  unfoldable pub interaction_client : World → InteractionClient Services
  unfolding call
  interaction_client w = record {
    like = λ s user_id post_id.
        on_likes w (λ l. InteractionService.like redis w.first l user_id post_id) s;
    unlike = λ s user_id post_id.
        on_likes w (λ l. InteractionService.unlike redis w.first l user_id post_id) s;
    is_liked = λ s user_id post_id.
        on_likes w (λ l. InteractionService.is_liked redis w.first w.second l user_id post_id) s;
    count_likes =
        λ s post_id. on_likes w (λ l. InteractionService.count_likes redis w.first l post_id) s;
    batch_count_likes = λ s post_ids.
        on_likes w (λ l. InteractionService.batch_count_likes redis w.each l post_ids) s;
    create_comment = λ s user_id post_id content.
        on_comments w (InteractionService.create_comment w.first w.id w.now user_id post_id content)
          s;
    list_comments = λ s post_id page page_size.
        on_comments w
          (λ t. (
            t,
            InteractionService.list_comments w.comments_by_created_at w.first w.second post_id page
                page_size t,
          ))
          s;
    delete_comment =
        λ s id user_id. on_comments w (InteractionService.delete_comment w.first id user_id) s;
    bookmark =
        λ s user_id post_id. on_bookmarks w (InteractionService.bookmark w.first user_id post_id) s;
    unbookmark = λ s user_id post_id.
        on_bookmarks w (InteractionService.unbookmark w.first user_id post_id) s;
    is_bookmarked = λ s user_id post_id.
        on_bookmarks w (λ t. (t, InteractionService.is_bookmarked w.first user_id post_id t)) s;
  }

  -- The gateway with its clients.
  unfoldable pub gateway :
      Env → Decoder → Option (String → Result String) → World → Gateway Services
  unfolding feed_client user_client interaction_client
  gateway env decoder cos w = record {
    jwt = jwt;
    env = env;
    decoder = decoder;
    cos = cos;
    feed_svc = feed_client w;
    user_svc = user_client w;
    client = interaction_client w;
  }
