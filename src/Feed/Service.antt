-- ===== src/Feed/Service.antt =====
-- services/feed/service.go, but for the timeline: the gRPC methods over the posts table, the Redis
-- cache of posts and the event dispatcher.
pub mod Content
use feeds.Prelude.{
  ℕ, ◌*◌, String, Bool, true, false, Option, none, some, List, [], ◌∷◌, ◌++◌, map, Error, Result,
  ok, err, Outcome, ◌>>=◌,
}
use feeds.Prelude.Int.{ℤ, int32, page_number, page_size_of}
use feeds.Feed.Model.{Time, Feed, PbBlock, GetFeedResp, blocks_from_proto, to_resp, unix}
use feeds.Feed.Repo.{Posts, create, find_by_id, list, delete}
use feeds.Feed.Cache.{PostCache, Json, post_cache_key}

-- `events.Event`. The service drops the dispatcher's answer.
pub record Event : Type 0 where
  pub topic : String
  pub key : String
  pub body : String

pub record FeedState (Store : Type 0) : Type 0 where
  pub posts : Posts
  pub store : Store
  pub events : List Event

-- `postCacheTTL`: ten minutes, in nanoseconds.
abbrev pub post_cache_ttl : ℕ
post_cache_ttl = 10 * 60000000000

pub record ListFeedsResp : Type 0 where
  pub feeds : List GetFeedResp
  pub total : ℤ

module _ {Score Text : Type 0} (cache : PostCache Score Text) (json : Json Text) where
  abbrev cache_post : cache.Store → GetFeedResp → String → cache.Store
  cache_post store resp id =
      cache.set store (post_cache_key id) (json.encode_post resp) post_cache_ttl

  -- `PostFeed`: a row, its cached copy, and an event for the fan-out workers. The id and the time
  -- are those that the INSERT gives the row.
  unfoldable pub post_feed :
      Outcome
      → String
      → Time
      → FeedState cache.Store
      → String
      → List PbBlock
      → FeedState cache.Store × Result String
  post_feed outcome id now s author_id pbs =
      let (posts, created) = create outcome id now author_id (blocks_from_proto pbs) s.posts in
      let s' = record s { posts = posts } in
      elim created [
        | err e ↦ (s', err e)
        | ok f ↦ (
          record s' {
            store = cache_post s.store (to_resp f) f.id;
            events =
                s.events
                ++ (record {
                  topic = "post.created";
                  key = f.id;
                  body = json.encode_created f.id author_id (unix f.created_at);
                }
                    ∷ []);
          },
          ok f.id,
        )
      ]

  -- What the cache has for a post, if it can be read.
  cached_post : cache.Store → String → Option GetFeedResp
  cached_post store id = elim (cache.get store (post_cache_key id)) [
    | ok text ↦ json.decode_post text
    | err e ↦ none
  ]

  -- `getPostContent` after a miss: the row, which is then cached.
  load_post : Outcome → Posts → cache.Store → String → cache.Store × Result GetFeedResp
  load_post outcome posts store id = elim (find_by_id outcome id posts) [
    | err e ↦ (store, err e)
    | ok f ↦ (cache_post store (to_resp f) id, ok (to_resp f))
  ]

  -- `getPostContent`, which is `GetFeed`.
  unfoldable pub get_post_content :
      Outcome → Posts → cache.Store → String → cache.Store × Result GetFeedResp
  unfolding cached_post load_post
  get_post_content outcome posts store id = elim (cached_post store id) [
    | some resp ↦ (store, ok resp)
    | none ↦ load_post outcome posts store id
  ]

  unfoldable pub delete_feed :
      Outcome → FeedState cache.Store → String → String → FeedState cache.Store × Result Bool
  delete_feed outcome s id author_id =
      let (posts, r) = delete outcome id author_id s.posts in
      (record s { posts = posts }, r >>= λ _. ok true)

unfoldable pub list_feeds :
    (Posts → Posts) → Outcome → Outcome → Posts → String → ℤ → ℤ → Result ListFeedsResp
list_feeds by_created_at counting listing posts author_id page page_size = do
  (feeds, total) ←
      list by_created_at counting listing author_id (page_number page) (page_size_of page_size)
        posts
  ok (record { feeds = map to_resp feeds; total = int32 total })
