-- ===== src/Tests/Gateway/Removal.antt =====
-- Deletions of a post and of a comment through the gateway.
use mathlib.Core.List.{lookup}
use feeds.Prelude.{◌≡◌, ◌≢◌, refl, none, some, List, [], ◌∷◌, text_dec, with_default, exec}
use feeds.Auth.{middleware, is_public, trim_prefix, key_for, secret}
use feeds.Auth.Decisions.{Names}
use feeds.Feed.Model.{Feed}
use feeds.Feed.Repo.{select_post, delete_posts, delete}
use feeds.Feed.Service.{delete_feed}
use feeds.Gateway.Http.{Request, path_value}
use feeds.Gateway.Mux.{segments_of, find, match, serves, covers}
use feeds.Gateway.Routes.{routes}
use feeds.Gateway.Feeds.{handle_delete_feed}
use feeds.Gateway.Server.{serve, serve_http, handle}
use feeds.Gateway.Server.Backend.{Services, gateway, feed_client, call}
use feeds.Gateway.Server.Safety.{post_gone, comment_gone}
use feeds.Tests.Feed.{memory, json}
use feeds.Tests.Interaction.{redis}
use feeds.Tests.User.{bcrypt, jwt, no_env}
use feeds.Tests.Gateway.{decoder, world, deployed, services, moment, request, with_token, deletion}
use feeds.Interaction.Comments as Comments
use feeds.Interaction.Comments.{Comment, delete_comments}
use feeds.Interaction.Comments.Changes.{comment_of_id}
use feeds.Interaction.Service.{delete_comment}
use feeds.Gateway.Interactions.{handle_delete_comment}
use feeds.Gateway.Server.Backend.{interaction_client}

abbrev posts_after : List Feed
posts_after = (serve deployed moment deletion services).0.feed.posts

abbrev first_post : Feed
first_post = record {
  id = "p1";
  author_id = "u1";
  blocks = [];
  created_at = 5000000;
  updated_at = 5000000;
}

deleted : select_post "p1" posts_after ≡ none
unfolding serve serve_http handle gateway feed_client call middleware is_public trim_prefix key_for
    secret with_default find match serves covers segments_of routes text_dec lookup
    handle_delete_feed path_value delete_feed delete exec delete_posts select_post
deleted = refl

deleted-ne : select_post "p1" posts_after ≢ some (first_post)
deleted-ne h = cc (deleted, h)

post_gone_example :
    (deletion.method ≡ "DELETE")
    × (segments_of "/feeds/p1" ≡ "feeds" ∷ "p1" ∷ [])
    × Names jwt no_env 10 with_token "u1"
unfolding select_post text_dec
post_gone_example =
    post_gone memory json redis bcrypt jwt no_env decoder none world moment deletion services "p1"
      first_post refl deleted-ne

abbrev comment : Comment
comment = record {
  id = "c1";
  user_id = "u1";
  post_id = "p1";
  content = "hello";
  created_at = 5000000;
}

abbrev commented : Services memory json redis bcrypt jwt
commented = record services { comments = comment ∷ [] }

abbrev uncommenting : Request
uncommenting = request "DELETE" "/comments/c1" with_token

abbrev comments_after : List Comment
comments_after = (serve deployed moment uncommenting commented).0.comments

uncommented : comment_of_id "c1" comments_after ≡ none
unfolding serve serve_http handle gateway interaction_client call middleware is_public trim_prefix
    key_for secret with_default find match serves covers segments_of routes text_dec lookup
    handle_delete_comment path_value delete_comment Comments.delete exec delete_comments
    comment_of_id
uncommented = refl

uncommented-ne : comment_of_id "c1" comments_after ≢ some comment
uncommented-ne h = cc (uncommented, h)

comment_gone_example :
    (uncommenting.method ≡ "DELETE")
    × (segments_of "/comments/c1" ≡ "comments" ∷ "c1" ∷ [])
    × Names jwt no_env 10 with_token "u1"
unfolding comment_of_id text_dec
comment_gone_example =
    comment_gone memory json redis bcrypt jwt no_env decoder none world moment uncommenting
      commented "c1" comment refl uncommented-ne
