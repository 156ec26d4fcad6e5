-- ===== src/Gateway/Server/Effects/Handlers.antt =====
-- What each handler of the gateway does to the services behind it.
use feeds.Prelude.{◌≡◌, inl, inr, refl, String, Option, Result, ok, arith, Result-cases}
use feeds.Prelude.Int.{pos}
use feeds.Auth.{Jwt, Env}
use feeds.Feed.Cache.{PostCache, Json}
use feeds.Feed.Timeline.{get_timeline}
use feeds.Gateway.Query.{parse_int, narrow}
use feeds.Feed.Service.{get_post_content, list_feeds, FeedState}
use feeds.User.Repo.{UserDb}
use feeds.User.Follows.Graph.{deletes, follows, unfollows}
use feeds.User.Service as UserService
use feeds.User.Service.{Bcrypt}
use feeds.Interaction.Redis.{RedisClient}
use feeds.Interaction.Service as InteractionService
use feeds.Interaction.Service.{ServiceState}
use feeds.Gateway.Http.{Decoder, Call, path_value}
use feeds.Gateway.Routes.{Endpoint}
use feeds.Gateway.Routes.Finding.{deletes_in}
use feeds.Gateway.Users.{
  handle_register, handle_login, handle_get_user_info, handle_unregister, handle_follow,
  handle_unfollow, handle_get_followers, handle_get_following, handle_is_following,
}
use feeds.Gateway.Feeds.{
  handle_post_feed, handle_get_feed, handle_list_feeds, handle_delete_feed, handle_get_timeline,
}
use feeds.Gateway.Interactions.{
  handle_like, handle_unlike, handle_is_liked, handle_count_likes, handle_batch_count_likes,
  handle_create_comment, handle_list_comments, handle_delete_comment, handle_bookmark,
  handle_unbookmark, handle_is_bookmarked,
}
use feeds.Gateway.Server.{Moment, handle}
use feeds.Gateway.Server.Backend.{
  World, gateway, feed_client, user_client, interaction_client, call,
}
use feeds.Gateway.Server.Effects.{
  Moved, call-same, call-Moved, register-Moved, Behind, Effect, nothing, posts_feed, deletes_post,
  reads_posts, moves_users, likes, adds_comment, deletes_comment, reads_comments, bookmarks,
}

module _ {Score Text : Type 0} (cache : PostCache Score Text) (json : Json Text)
    (redis : RedisClient) (bcrypt : Bcrypt) (jwt : Jwt) where
  call-posts :
      {A : Type 0} (w : World) (method : FeedState cache.Store → FeedState cache.Store × Result A)
      (f : FeedState cache.Store)
      → (method f).0.posts ≡ f.posts
      → (call w method f).0.posts ≡ f.posts
  unfolding call
  call-posts w method f h = ground (arith, h)

  module _ (env : Env) (decoder : Decoder) (cos : Option (String → Result String)) where
    pub handle-Effect :
        (w : World) (t : Moment) (e : Endpoint) (c : Call) (s : Behind cache json redis bcrypt jwt)
        → Effect cache json redis bcrypt jwt w e c s
            (handle (gateway cache json redis bcrypt jwt env decoder cos w) t e c s).0
    unfolding deletes_in Moved handle gateway feed_client user_client interaction_client
        handle_register handle_login handle_get_user_info handle_unregister handle_follow
        handle_unfollow handle_get_followers handle_get_following handle_is_following
        handle_post_feed handle_get_feed handle_list_feeds handle_delete_feed handle_get_timeline
        handle_like handle_unlike handle_is_liked handle_count_likes handle_batch_count_likes
        handle_create_comment handle_list_comments handle_delete_comment handle_bookmark
        handle_unbookmark handle_is_bookmarked feeds.User.Repo.delete UserService.unregister
        feeds.User.Follows.follow UserService.follow feeds.User.Follows.unfollow
        UserService.unfollow
    handle-Effect w t Endpoint.get_token c s = nothing
    handle-Effect w t Endpoint.register c s =
        elim (Result-cases (decoder.credentials c.request.body)) [
          | inl ((username, password), read) ↦ rw read (
              moves_users _ (
                call-Moved w
                  (UserService.register bcrypt w.first w.salt w.id w.now username password) s.users
                  (register-Moved bcrypt w username password s.users)))
          | inr (error, failed) ↦ rw failed nothing
        ]
    handle-Effect w t Endpoint.login c s =
        elim (Result-cases (decoder.credentials c.request.body)) [
          | inl ((username, password), read) ↦ rw read (
              moves_users _ (
                call-Moved w
                  (λ db. (db, UserService.login bcrypt jwt w.first w.now username password db))
                  s.users (inl refl)))
          | inr (error, failed) ↦ rw failed nothing
        ]
    handle-Effect w t Endpoint.get_user_info c s = moves_users _ (
        call-Moved w (λ db. (db, UserService.get_info w.first (path_value c "id") db)) s.users
          (inl refl))
    handle-Effect w t Endpoint.unregister c s = moves_users _ (
        call-Moved w (UserService.unregister w.first c.user_id) s.users
          (inr (deletes w.first c.user_id)))
    handle-Effect w t Endpoint.follow c s = moves_users _ (
        call-Moved w (UserService.follow w.first c.user_id (path_value c "id")) s.users
          (inr (follows w.first c.user_id (path_value c "id"))))
    handle-Effect w t Endpoint.unfollow c s = moves_users _ (
        call-Moved w (UserService.unfollow w.first c.user_id (path_value c "id")) s.users
          (inr (unfollows w.first c.user_id (path_value c "id"))))
    handle-Effect w t Endpoint.get_followers c s = moves_users _ (
        call-Moved w
          (λ db. (db, UserService.get_followers w.ids_by_created_at w.first (path_value c "id") db))
          s.users (inl refl))
    handle-Effect w t Endpoint.get_following c s = moves_users _ (
        call-Moved w
          (λ db. (db, UserService.get_following w.ids_by_created_at w.first (path_value c "id") db))
          s.users (inl refl))
    handle-Effect w t Endpoint.is_following c s = moves_users _ (
        call-Moved w (λ db. (db, UserService.is_following w.first c.user_id (path_value c "id") db))
          s.users (inl refl))
    handle-Effect w t Endpoint.post_feed c s = elim (Result-cases (decoder.blocks c.request.body)) [
      | inl (blocks, read) ↦ rw read (posts_feed blocks)
      | inr (error, failed) ↦ rw failed nothing
    ]
    handle-Effect w t Endpoint.get_feed c s = reads_posts _ (
        call-posts w
          (λ (f : FeedState cache.Store). (
            record f {
              store = (get_post_content cache json w.first f.posts f.store (path_value c "id")).0;
            },
            (get_post_content cache json w.first f.posts f.store (path_value c "id")).1,
          ))
          s.feed refl)
    handle-Effect w t Endpoint.list_feeds c s = reads_posts _ (
        call-posts w
          (λ (f : FeedState cache.Store). (
            f,
            list_feeds w.posts_by_created_at w.first w.second f.posts (c.request.query "author_id")
                (narrow (parse_int (c.request.query "page") (pos 1)))
                (narrow (parse_int (c.request.query "page_size") (pos 20))),
          ))
          s.feed refl)
    handle-Effect w t Endpoint.delete_feed c s = deletes_post refl
    handle-Effect w t Endpoint.get_timeline c s = reads_posts _ (
        call-posts w
          (λ (f : FeedState cache.Store). (
            record f {
              store =
                  (get_timeline cache json w.each f.posts f.store c.user_id
                    (parse_int (c.request.query "cursor") (pos 0))
                    (narrow (parse_int (c.request.query "page_size") (pos 20)))).0;
            },
            ok
                (get_timeline cache json w.each f.posts f.store c.user_id
                  (parse_int (c.request.query "cursor") (pos 0))
                  (narrow (parse_int (c.request.query "page_size") (pos 20)))).1,
          ))
          s.feed refl)
    handle-Effect w t Endpoint.like c s = likes _
    handle-Effect w t Endpoint.unlike c s = likes _
    handle-Effect w t Endpoint.is_liked c s = likes _
    handle-Effect w t Endpoint.count_likes c s = likes _
    handle-Effect w t Endpoint.batch_count_likes c s =
        elim (Result-cases (decoder.post_ids c.request.body)) [
          | inl (ids, read) ↦ rw read (likes _)
          | inr (error, failed) ↦ rw failed nothing
        ]
    handle-Effect w t Endpoint.create_comment c s = adds_comment (decoder.content c.request.body)
    handle-Effect w t Endpoint.list_comments c s = reads_comments _ (
        call-same w
          (InteractionService.list_comments w.comments_by_created_at w.first w.second
            (path_value c "id") (narrow (parse_int (c.request.query "page") (pos 1)))
            (narrow (parse_int (c.request.query "page_size") (pos 20))) s.comments)
          s.comments)
    handle-Effect w t Endpoint.delete_comment c s = deletes_comment refl
    handle-Effect w t Endpoint.bookmark c s = bookmarks _
    handle-Effect w t Endpoint.unbookmark c s = bookmarks _
    handle-Effect w t Endpoint.is_bookmarked c s = bookmarks _
