-- ===== src/Gateway/Server/Posts.antt =====
-- Which handlers change the posts behind the gateway.
use feeds.Prelude.{
  ℕ, ◌≡◌, ◌≢◌, ap, ◌∙◌, String, some, List, [], ◌∷◌, ◌++◌, Result, arith, Outcome, exec,
}
use feeds.Auth.{Jwt}
use feeds.Feed.Model.{Feed, Block, PbBlock, blocks_from_proto}
use feeds.Feed.Repo.{Posts, select_post, insert_post, delete_posts, create, delete}
use feeds.Feed.Cache.{PostCache, Json}
use feeds.Feed.Service.{FeedState, post_feed, delete_feed}
use feeds.User.Service.{Bcrypt}
use feeds.Interaction.Redis.{RedisClient}
use feeds.Gateway.Http.{Call, path_value}
use feeds.Gateway.Routes.{Endpoint}
use feeds.Gateway.Routes.Finding.{deletes_in}
use feeds.Gateway.Server.Backend.{World, call}
use feeds.Gateway.Server.Effects.{
  Behind, Effect, nothing, posts_feed, deletes_post, reads_posts, moves_users, likes, adds_comment,
  deletes_comment, reads_comments, bookmarks,
}

-- The row of an id stays as it is.
unfoldable pub Stays : String → Feed → Posts → Type 0
Stays id f posts = select_post id posts ≡ some f

select_post-append :
    (id : String) (f : Feed) (posts more : Posts) → Stays id f posts → Stays id f (posts ++ more)
unfolding Stays select_post
select_post-append id f [] more h = ground (arith, h)
select_post-append id f (g ∷ posts) more h = ground (arith, h, select_post-append id f posts more)

delete_posts-keeps :
    (id : String) (f : Feed) (other author_id : String) (posts : Posts)
    → Stays id f posts
    → (other ≡ id → author_id ≢ f.author_id)
    → Stays id f (delete_posts other author_id posts)
unfolding Stays select_post delete_posts
delete_posts-keeps id f other author_id [] h apart = ground (arith, h)
delete_posts-keeps id f other author_id (g ∷ posts) h apart =
    ground (arith, h, apart, delete_posts-keeps id f other author_id posts)

module _ {Score Text : Type 0} (cache : PostCache Score Text) (json : Json Text)
    (redis : RedisClient) (bcrypt : Bcrypt) (jwt : Jwt) where
  create-keeps :
      (outcome : Outcome) (new : String) (now : ℕ) (author_id : String) (blocks : List Block)
      (id : String) (f : Feed) (posts : Posts)
      → Stays id f posts
      → Stays id f (create outcome new now author_id blocks posts).0
  unfolding create insert_post exec
  create-keeps outcome new now author_id blocks id f posts h =
      let row : Feed = record {
        id = new;
        author_id = author_id;
        blocks = blocks;
        created_at = now;
        updated_at = now;
      } in
      ground (arith, h, select_post-append id f posts (row ∷ []) h)

  post_feed-keeps :
      (w : World) (author_id : String) (blocks : List PbBlock) (id : String) (f : Feed)
      (s : FeedState cache.Store)
      → Stays id f s.posts
      → Stays id f (post_feed cache json w.first w.id w.now s author_id blocks).0.posts
  unfolding post_feed
  post_feed-keeps w author_id blocks id f s h =
      ground
        (arith, create-keeps w.first w.id w.now author_id (blocks_from_proto blocks) id f s.posts h)

  delete_feed-keeps :
      (w : World) (other author_id : String) (id : String) (f : Feed) (s : FeedState cache.Store)
      → (other ≡ id → author_id ≢ f.author_id)
      → Stays id f s.posts
      → Stays id f (delete_feed cache json w.first s other author_id).0.posts
  unfolding delete_feed delete exec
  delete_feed-keeps w other author_id id f s apart h =
      ground (arith, h, delete_posts-keeps id f other author_id s.posts h apart)

  call-keeps :
      {A : Type 0} (w : World) (method : FeedState cache.Store → FeedState cache.Store × Result A)
      (id : String) (f : Feed) (s : FeedState cache.Store)
      → Stays id f s.posts
      → Stays id f (method s).0.posts
      → Stays id f (call w method s).0.posts
  unfolding call
  call-keeps w method id f s h k = ground (arith, h, k)

  -- Every effect but that of a deletion leaves the rows as they are.
  pub Effect-keeps :
      (w : World) (e : Endpoint) (c : Call) (s s' : Behind cache json redis bcrypt jwt)
      (id : String) (f : Feed)
      → Effect cache json redis bcrypt jwt w e c s s'
      → (deletes_in e ≡ some "feeds" → path_value c "id" ≡ id → c.user_id ≢ f.author_id)
      → Stays id f s.feed.posts
      → Stays id f s'.feed.posts
  unfolding Stays
  Effect-keeps w e c s _ id f nothing apart h = h
  Effect-keeps w e c s _ id f (posts_feed blocks) apart h =
      call-keeps w (λ z. post_feed cache json w.first w.id w.now z c.user_id blocks) id f s.feed h
        (post_feed-keeps w c.user_id blocks id f s.feed h)
  Effect-keeps w e c s _ id f (deletes_post deletion) apart h =
      call-keeps w (λ z. delete_feed cache json w.first z (path_value c "id") c.user_id) id f s.feed
        h (delete_feed-keeps w (path_value c "id") c.user_id id f s.feed (apart deletion) h)
  Effect-keeps w e c s _ id f (reads_posts f' same) apart h = ap (select_post id) same ∙ h
  Effect-keeps w e c s _ id f (moves_users db moved) apart h = h
  Effect-keeps w e c s _ id f (likes l) apart h = h
  Effect-keeps w e c s _ id f (adds_comment content) apart h = h
  Effect-keeps w e c s _ id f (deletes_comment deletion) apart h = h
  Effect-keeps w e c s _ id f (reads_comments t same) apart h = h
  Effect-keeps w e c s _ id f (bookmarks t) apart h = h
