-- ===== src/Gateway/Interactions.antt =====
-- services/gateway/srv/interaction_service.go: the handlers of the likes, the comments and the
-- bookmarks. The gRPC client is an interface.
use feeds.Prelude.{String, Bool, List, Result, ok, err}
use feeds.Prelude.Int.{ℤ, pos}
use feeds.Interaction.LikeStorage.Batch.{Counts}
use feeds.Interaction.Service.{LikeResp, PbComment, ListCommentsResp}
use feeds.Gateway.Query.{parse_int, narrow}
use feeds.Gateway.Http.{Call, Reply, failed, Body, Decoder, path_value, answered}

-- `pb.InteractionServiceClient`
pub record InteractionClient (S : Type 0) : Type 0 where
  pub like : S → String → String → S × Result LikeResp
  pub unlike : S → String → String → S × Result LikeResp
  pub is_liked : S → String → String → S × Result Bool
  pub count_likes : S → String → S × Result ℤ
  pub batch_count_likes : S → List String → S × Result Counts
  pub create_comment : S → String → String → String → S × Result PbComment
  pub list_comments : S → String → ℤ → ℤ → S × Result ListCommentsResp
  pub delete_comment : S → String → String → S × Result Bool
  pub bookmark : S → String → String → S × Result Bool
  pub unbookmark : S → String → String → S × Result Bool
  pub is_bookmarked : S → String → String → S × Result Bool

module _ {S : Type 0} (client : InteractionClient S) where
  unfoldable pub handle_like : Call → S → S × Reply
  unfolding path_value
  handle_like c s = answered Body.like_count (client.like s c.user_id (path_value c "id"))

  unfoldable pub handle_unlike : Call → S → S × Reply
  unfolding path_value
  handle_unlike c s = answered Body.like_count (client.unlike s c.user_id (path_value c "id"))

  unfoldable pub handle_is_liked : Call → S → S × Reply
  unfolding path_value
  handle_is_liked c s = answered Body.liked (client.is_liked s c.user_id (path_value c "id"))

  unfoldable pub handle_count_likes : Call → S → S × Reply
  unfolding path_value
  handle_count_likes c s = answered Body.count (client.count_likes s (path_value c "id"))

  unfoldable pub handle_batch_count_likes : Decoder → Call → S → S × Reply
  handle_batch_count_likes decoder c s = elim (decoder.post_ids c.request.body) [
    | err e ↦ (s, failed 400 e)
    | ok post_ids ↦ answered Body.counts (client.batch_count_likes s post_ids)
  ]

  -- An error of the decoding is dropped.
  unfoldable pub handle_create_comment : Decoder → Call → S → S × Reply
  unfolding path_value
  handle_create_comment decoder c s =
      answered Body.comment
        (client.create_comment s c.user_id (path_value c "id") (decoder.content c.request.body))

  unfoldable pub handle_list_comments : Call → S → S × Reply
  unfolding path_value parse_int narrow
  handle_list_comments c s =
      let page = parse_int (c.request.query "page") (pos 1) in
      let page_size = parse_int (c.request.query "page_size") (pos 20) in
      answered Body.comments
        (client.list_comments s (path_value c "id") (narrow page) (narrow page_size))

  unfoldable pub handle_delete_comment : Call → S → S × Reply
  unfolding path_value
  handle_delete_comment c s =
      answered Body.success (client.delete_comment s (path_value c "id") c.user_id)

  unfoldable pub handle_bookmark : Call → S → S × Reply
  unfolding path_value
  handle_bookmark c s = answered Body.success (client.bookmark s c.user_id (path_value c "id"))

  unfoldable pub handle_unbookmark : Call → S → S × Reply
  unfolding path_value
  handle_unbookmark c s = answered Body.success (client.unbookmark s c.user_id (path_value c "id"))

  unfoldable pub handle_is_bookmarked : Call → S → S × Reply
  unfolding path_value
  handle_is_bookmarked c s =
      answered Body.bookmarked (client.is_bookmarked s c.user_id (path_value c "id"))
