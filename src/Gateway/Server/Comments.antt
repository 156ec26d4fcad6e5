-- ===== src/Gateway/Server/Comments.antt =====
-- Which handlers change the comments behind the gateway.
use feeds.Prelude.{◌≡◌, ◌≢◌, ap, ◌∙◌, String, some, List, [], ◌∷◌, ◌++◌, Result, arith, exec}
use feeds.Auth.{Jwt}
use feeds.Feed.Cache.{PostCache, Json}
use feeds.User.Service.{Bcrypt}
use feeds.Interaction.Redis.{RedisClient}
use feeds.Interaction.Comments.{Comment, insert_comment, delete_comments, create, delete}
use feeds.Interaction.Comments.Changes.{comment_of_id}
use feeds.Interaction.Service.{create_comment, delete_comment}
use feeds.Gateway.Http.{Call, path_value}
use feeds.Gateway.Routes.{Endpoint}
use feeds.Gateway.Routes.Finding.{deletes_in}
use feeds.Gateway.Server.Backend.{World, call}
use feeds.Gateway.Server.Effects.{
  Behind, Effect, nothing, posts_feed, deletes_post, reads_posts, moves_users, likes, adds_comment,
  deletes_comment, reads_comments, bookmarks,
}

-- The row of an id stays as it is.
unfoldable pub Remains : String → Comment → List Comment → Type 0
Remains id k comments = comment_of_id id comments ≡ some k

comment_of_id-append :
    (id : String) (k : Comment) (comments more : List Comment)
    → Remains id k comments
    → Remains id k (comments ++ more)
unfolding Remains comment_of_id
comment_of_id-append id k [] more h = ground (arith, h)
comment_of_id-append id k (d ∷ comments) more h =
    ground (arith, h, comment_of_id-append id k comments more)

delete_comments-Remains :
    (id : String) (k : Comment) (other user_id : String) (comments : List Comment)
    → Remains id k comments
    → (other ≡ id → user_id ≢ k.user_id)
    → Remains id k (delete_comments other user_id comments)
unfolding Remains comment_of_id delete_comments
delete_comments-Remains id k other user_id [] h apart = ground (arith, h)
delete_comments-Remains id k other user_id (d ∷ comments) h apart =
    ground (arith, h, apart, delete_comments-Remains id k other user_id comments)

create_comment-Remains :
    (w : World) (user_id post_id content : String) (id : String) (k : Comment)
    (comments : List Comment)
    → Remains id k comments
    → Remains id k (create_comment w.first w.id w.now user_id post_id content comments).0
unfolding create_comment create insert_comment exec
create_comment-Remains w user_id post_id content id k comments h =
    let row : Comment = record {
      id = w.id;
      user_id = user_id;
      post_id = post_id;
      content = content;
      created_at = w.now;
    } in
    ground (arith, h, comment_of_id-append id k comments (row ∷ []) h)

delete_comment-Remains :
    (w : World) (other user_id : String) (id : String) (k : Comment) (comments : List Comment)
    → (other ≡ id → user_id ≢ k.user_id)
    → Remains id k comments
    → Remains id k (delete_comment w.first other user_id comments).0
unfolding delete_comment delete exec
delete_comment-Remains w other user_id id k comments apart h =
    ground (arith, h, delete_comments-Remains id k other user_id comments h apart)

call-Remains :
    {A : Type 0} (w : World) (method : List Comment → List Comment × Result A) (id : String)
    (k : Comment) (comments : List Comment)
    → Remains id k comments
    → Remains id k (method comments).0
    → Remains id k (call w method comments).0
unfolding call
call-Remains w method id k comments h l = ground (arith, h, l)

module _ {Score Text : Type 0} (cache : PostCache Score Text) (json : Json Text)
    (redis : RedisClient) (bcrypt : Bcrypt) (jwt : Jwt) where
  -- Every effect but that of a deletion leaves the rows as they are.
  pub Effect-Remains :
      (w : World) (e : Endpoint) (c : Call) (s s' : Behind cache json redis bcrypt jwt)
      (id : String) (k : Comment)
      → Effect cache json redis bcrypt jwt w e c s s'
      → (deletes_in e ≡ some "comments" → path_value c "id" ≡ id → c.user_id ≢ k.user_id)
      → Remains id k s.comments
      → Remains id k s'.comments
  unfolding Remains
  Effect-Remains w e c s _ id k nothing apart h = h
  Effect-Remains w e c s _ id k (posts_feed blocks) apart h = h
  Effect-Remains w e c s _ id k (deletes_post deletion) apart h = h
  Effect-Remains w e c s _ id k (reads_posts f same) apart h = h
  Effect-Remains w e c s _ id k (moves_users db moved) apart h = h
  Effect-Remains w e c s _ id k (likes l) apart h = h
  Effect-Remains w e c s _ id k (adds_comment content) apart h =
      call-Remains w (create_comment w.first w.id w.now c.user_id (path_value c "id") content) id k
        s.comments h
        (create_comment-Remains w c.user_id (path_value c "id") content id k s.comments h)
  Effect-Remains w e c s _ id k (deletes_comment deletion) apart h =
      call-Remains w (delete_comment w.first (path_value c "id") c.user_id) id k s.comments h
        (delete_comment-Remains w (path_value c "id") c.user_id id k s.comments (apart deletion) h)
  Effect-Remains w e c s _ id k (reads_comments t same) apart h = ap (comment_of_id id) same ∙ h
  Effect-Remains w e c s _ id k (bookmarks t) apart h = h
