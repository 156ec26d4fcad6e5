-- ===== src/Gateway/Feeds.antt =====
-- services/gateway/srv/feed_service.go: the handlers of the feeds. The gRPC client is an interface.
use feeds.Prelude.{String, Bool, List, Result, ok, err}
use feeds.Prelude.Int.{ℤ, pos}
use feeds.Feed.Model.{PbBlock, GetFeedResp}
use feeds.Feed.Service.{ListFeedsResp}
use feeds.Feed.Timeline.{GetTimelineResp}
use feeds.Gateway.Query.{parse_int, narrow}
use feeds.Gateway.Http.{Call, Reply, failed, Body, Decoder, path_value, answered}

-- `pb.FeedServiceClient`
pub record FeedClient (S : Type 0) : Type 0 where
  pub post_feed : S → String → List PbBlock → S × Result String
  pub get_feed : S → String → S × Result GetFeedResp
  pub list_feeds : S → String → ℤ → ℤ → S × Result ListFeedsResp
  pub delete_feed : S → String → String → S × Result Bool
  pub get_timeline : S → String → ℤ → ℤ → S × Result GetTimelineResp

module _ {S : Type 0} (client : FeedClient S) where
  unfoldable pub handle_post_feed : Decoder → Call → S → S × Reply
  handle_post_feed decoder c s = elim (decoder.blocks c.request.body) [
    | err e ↦ (s, failed 400 e)
    | ok blocks ↦ answered Body.id (client.post_feed s c.user_id blocks)
  ]

  unfoldable pub handle_get_feed : Call → S → S × Reply
  unfolding path_value
  handle_get_feed c s = answered Body.feed (client.get_feed s (path_value c "id"))

  unfoldable pub handle_list_feeds : Call → S → S × Reply
  unfolding parse_int narrow
  handle_list_feeds c s =
      let page = parse_int (c.request.query "page") (pos 1) in
      let page_size = parse_int (c.request.query "page_size") (pos 20) in
      answered Body.feed_list
        (client.list_feeds s (c.request.query "author_id") (narrow page) (narrow page_size))

  unfoldable pub handle_delete_feed : Call → S → S × Reply
  unfolding path_value
  handle_delete_feed c s =
      answered Body.success (client.delete_feed s (path_value c "id") c.user_id)

  unfoldable pub handle_get_timeline : Call → S → S × Reply
  unfolding parse_int narrow
  handle_get_timeline c s =
      let cursor = parse_int (c.request.query "cursor") (pos 0) in
      let page_size = parse_int (c.request.query "page_size") (pos 20) in
      answered Body.timeline (client.get_timeline s c.user_id cursor (narrow page_size))
