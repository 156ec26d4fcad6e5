-- ===== src/Gateway/Server/Effects.antt =====
-- What a handler does to the services behind the gateway: one call at most, to one of them.
pub mod Handlers
use mathlib.Core.Path.{subst}
use feeds.Prelude.{
  ◌≡◌, ◌⊎◌, inl, inr, refl, sym, String, some, Option, List, Result, ok, arith, Result-cases,
}
use feeds.Prelude.Int.{pos}
use feeds.Prelude.Pairs.{Pairs}
use feeds.Auth.{Jwt, Env}
use feeds.Feed.Model.{PbBlock}
use feeds.Feed.Cache.{PostCache, Json}
use feeds.Feed.Timeline.{get_timeline}
use feeds.Gateway.Query.{parse_int, narrow}
use feeds.Feed.Service.{get_post_content, list_feeds, FeedState, post_feed, delete_feed}
use feeds.User.Repo.{UserDb}
use feeds.User.Follows.Graph.{Step, creates, deletes, follows, unfollows}
use feeds.User.Service as UserService
use feeds.User.Service.{Bcrypt}
use feeds.Interaction.Redis.{RedisClient}
use feeds.Interaction.Comments.{Comment}
use feeds.Interaction.Service as InteractionService
use feeds.Interaction.Service.{ServiceState}
use feeds.Gateway.Http.{Decoder, Call, path_value}
use feeds.Gateway.Routes.{Endpoint}
use feeds.Gateway.Routes.Finding.{deletes_in}
use feeds.Gateway.Users.{
  handle_register, handle_login, handle_get_user_info, handle_unregister, handle_follow,
  handle_unfollow, handle_get_followers, handle_get_following, handle_is_following,
}
use feeds.Gateway.Feeds.{
  handle_post_feed, handle_get_feed, handle_list_feeds, handle_delete_feed, handle_get_timeline,
}
use feeds.Gateway.Interactions.{
  handle_like, handle_unlike, handle_is_liked, handle_count_likes, handle_batch_count_likes,
  handle_create_comment, handle_list_comments, handle_delete_comment, handle_bookmark,
  handle_unbookmark, handle_is_bookmarked,
}
use feeds.Gateway.Server.{Moment, handle}
use feeds.Gateway.Server.Backend.{
  World, Services, gateway, feed_client, user_client, interaction_client, call,
}

-- At most one step of the user service.
unfoldable pub Moved : UserDb → UserDb → Type 0
Moved db db' = (db' ≡ db) ⊎ Step db db'

-- A call leaves a service as it was, or as the method leaves it.
pub call-state :
    {S A : Type 0} (w : World) (method : S → S × Result A) (s : S)
    → ((call w method s).0 ≡ s) ⊎ ((call w method s).0 ≡ (method s).0)
unfolding call
call-state w method s = ground arith

pub call-same :
    {S A : Type 0} (w : World) (answer : Result A) (s : S) → (call w (λ z. (z, answer)) s).0 ≡ s
unfolding call
call-same w answer s = ground arith

pub call-Moved :
    {A : Type 0} (w : World) (method : UserDb → UserDb × Result A) (db : UserDb)
    → Moved db (method db).0
    → Moved db (call w method db).0
unfolding Moved
call-Moved w method db h = elim (call-state w method db) [
  | inl e ↦ inl e
  | inr e ↦ subst (Moved db) (sym e) h
]

pub register-Moved :
    (bcrypt : Bcrypt) (w : World) (username password : String) (db : UserDb)
    → Moved db (UserService.register bcrypt w.first w.salt w.id w.now username password db).0
unfolding Moved UserService.register
register-Moved bcrypt w username password db =
    elim (Result-cases (bcrypt.generate_from_password w.salt password)) [
      | inl (hash, e) ↦
          rw (e, UserService.register) (inr (creates w.first w.id w.now username hash))
      | inr (error, e) ↦ rw (e, UserService.register) (inl refl)
    ]

module _ {Score Text : Type 0} (cache : PostCache Score Text) (json : Json Text)
    (redis : RedisClient) (bcrypt : Bcrypt) (jwt : Jwt) where
  abbrev pub Behind : Type 0
  Behind = Services cache json redis bcrypt jwt

  -- The services after the handler of an endpoint.
  pub data Effect (w : World) (e : Endpoint) (c : Call) (s : Behind) : Behind → Type 0 where
    nothing : Effect w e c s s
    posts_feed :
        (blocks : List PbBlock)
        → Effect w e c s (record s {
          feed =
              (call w (λ f. post_feed cache json w.first w.id w.now f c.user_id blocks) s.feed).0;
        })
    deletes_post :
        deletes_in e ≡ some "feeds"
        → Effect w e c s (record s {
          feed =
              (call w
                (λ f. delete_feed cache json w.first f (path_value c "id") c.user_id)
                s.feed).0;
        })
    reads_posts :
        (f : FeedState cache.Store)
        → f.posts ≡ s.feed.posts
        → Effect w e c s (record s { feed = f })
    moves_users : (db : UserDb) → Moved s.users db → Effect w e c s (record s { users = db })
    likes : (l : ServiceState redis) → Effect w e c s (record s { likes = l })
    adds_comment :
        (content : String)
        → Effect w e c s (record s {
          comments =
              (call w
                (InteractionService.create_comment w.first w.id w.now c.user_id
                  (path_value c "id")
                  content)
                s.comments).0;
        })
    deletes_comment :
        deletes_in e ≡ some "comments"
        → Effect w e c s (record s {
          comments =
              (call w
                (InteractionService.delete_comment w.first (path_value c "id") c.user_id)
                s.comments).0;
        })
    reads_comments :
        (t : List Comment) → t ≡ s.comments → Effect w e c s (record s { comments = t })
    bookmarks : (t : Pairs) → Effect w e c s (record s { bookmarks = t })
