-- ===== src/Interaction/Service.antt =====
-- services/interaction/service.go: the gRPC methods over the like storage, the comments, the bookmarks
-- and the event dispatcher.
pub mod Events
use feeds.Prelude.{
  ℕ, ◌/◌, String, Bool, true, false, List, [], ◌∷◌, ◌++◌, map, Result, ok, err, Outcome, ◌>>=◌,
  Option, none, some,
}
use feeds.Prelude.Int.{ℤ, int32, page_number, page_size_of}
use feeds.Prelude.Pairs.{Pairs}
use feeds.Interaction.Redis.{RedisClient}
use feeds.Interaction.LikeStorage.{
  LikeState, like as storage_like, unlike as storage_unlike, is_liked as storage_is_liked, count,
}
use feeds.Interaction.LikeStorage.Batch.{Counts, batch_count}
use feeds.Interaction.Comments.{Comment, Time, create, list_by_post, delete}
use feeds.Interaction.Comments

-- `events.Event`, with the map that its body encodes. The service drops the dispatcher's answer.
pub record LikeEvent : Type 0 where
  pub topic : String
  pub key : String
  pub user_id : String
  pub feed_id : String

-- `pb.LikeResp` and `pb.UnlikeResp`
pub record LikeResp : Type 0 where
  pub success : Bool
  pub like_count : ℤ

-- `pb.Comment`
pub record PbComment : Type 0 where
  pub id : String
  pub user_id : String
  pub post_id : String
  pub content : String
  pub created_at : ℕ

unfoldable pub comment_to_proto : Comment → PbComment
comment_to_proto c = record {
  id = c.id;
  user_id = c.user_id;
  post_id = c.post_id;
  content = c.content;
  created_at = c.created_at / 1000000;
}

module _ (redis : RedisClient) where
  pub record ServiceState : Type 0 where
    pub storage : LikeState redis
    pub events : List LikeEvent

  -- What `Like` and `Unlike` do with the storage's answer.
  announce :
      String
      → String
      → String
      → List LikeEvent
      → LikeState redis × Result ℤ
      → ServiceState × Result LikeResp
  announce topic user_id post_id events (storage, err e) =
      (record { storage = storage; events = events }, err e)
  announce topic user_id post_id events (storage, ok count) = (
    record {
      storage = storage;
      events =
          events
          ++ (record { topic = topic; key = post_id; user_id = user_id; feed_id = post_id } ∷ []);
    },
    ok (record { success = true; like_count = count }),
  )

  unfoldable pub like : Outcome → ServiceState → String → String → ServiceState × Result LikeResp
  unfolding announce
  like outcome s user_id post_id =
      announce "feed.liked" user_id post_id s.events
        (storage_like redis outcome s.storage user_id post_id)

  unfoldable pub unlike : Outcome → ServiceState → String → String → ServiceState × Result LikeResp
  unfolding announce
  unlike outcome s user_id post_id =
      announce "feed.unliked" user_id post_id s.events
        (storage_unlike redis outcome s.storage user_id post_id)

  unfoldable pub is_liked :
      Outcome → Outcome → ServiceState → String → String → ServiceState × Result Bool
  is_liked asking rebuilding s user_id post_id =
      let (storage, r) = storage_is_liked redis asking rebuilding s.storage user_id post_id in
      (record s { storage = storage }, r)

  unfoldable pub count_likes : Outcome → ServiceState → String → ServiceState × Result ℤ
  count_likes outcome s post_id =
      let (storage, r) = count redis outcome s.storage post_id in
      (record s { storage = storage }, r)

  unfoldable pub batch_count_likes :
      (String → Outcome) → ServiceState → List String → ServiceState × Result Counts
  batch_count_likes each s post_ids =
      let (storage, r) = batch_count redis each s.storage post_ids in
      (record s { storage = storage }, r)

unfoldable pub create_comment :
    Outcome
    → String
    → Time
    → String
    → String
    → String
    → List Comment
    → List Comment × Result PbComment
unfolding comment_to_proto
create_comment outcome id now user_id post_id content comments =
    let (comments', created) = create outcome id now user_id post_id content comments in
    (comments', created >>= λ c. ok (comment_to_proto c))

-- `pb.ListCommentsResp`
pub record ListCommentsResp : Type 0 where
  pub comments : List PbComment
  pub total : ℤ

unfoldable pub list_comments :
    (List Comment → List Comment)
    → Outcome
    → Outcome
    → String
    → ℤ
    → ℤ
    → List Comment
    → Result ListCommentsResp
unfolding comment_to_proto
list_comments by_created_at counting listing post_id page page_size comments = do
  (items, total) ←
      list_by_post by_created_at counting listing post_id (page_number page)
        (page_size_of page_size) comments
  ok (record { comments = map comment_to_proto items; total = int32 total })

-- `Success` of the methods that answer nothing else.
abbrev succeeded : Result (Unit {0}) → Result Bool
succeeded (ok _) = ok true
succeeded (err e) = err e

unfoldable pub delete_comment :
    Outcome → String → String → List Comment → List Comment × Result Bool
delete_comment outcome id user_id comments =
    let (comments', done) = delete outcome id user_id comments in (comments', succeeded done)

unfoldable pub bookmark : Outcome → String → String → Pairs → Pairs × Result Bool
bookmark outcome user_id post_id bookmarks =
    let (bookmarks', done) = Comments.bookmark outcome user_id post_id bookmarks in
    (bookmarks', succeeded done)

unfoldable pub unbookmark : Outcome → String → String → Pairs → Pairs × Result Bool
unbookmark outcome user_id post_id bookmarks =
    let (bookmarks', done) = Comments.unbookmark outcome user_id post_id bookmarks in
    (bookmarks', succeeded done)

-- `IsBookmarked` answers what the repository answers.
abbrev pub is_bookmarked : Outcome → String → String → Pairs → Result Bool
is_bookmarked = Comments.is_bookmarked
