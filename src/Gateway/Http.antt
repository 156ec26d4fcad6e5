-- ===== src/Gateway/Http.antt =====
-- What the handlers of services/gateway/srv share: the request as they read it, and what they write.
use mathlib.Core.List.{lookup}
use feeds.Prelude.{ℕ, String, Bool, List, Error, Result, ok, err, text_dec, with_default}
use feeds.Prelude.Int.{ℤ}
use feeds.Interaction.LikeStorage.Batch.{Counts}
use feeds.Feed.Model.{PbBlock, GetFeedResp}
use feeds.Feed.Service.{ListFeedsResp}
use feeds.Feed.Timeline.{GetTimelineResp}
use feeds.Interaction.Service.{LikeResp, PbComment, ListCommentsResp}
use feeds.User.Service.{LoginResp, GetInfoResp}

abbrev pub Bytes : Type 0
Bytes = List ℕ

-- A path without escapes, in clean form. A missing parameter of the query reads as the empty text.
pub record Request : Type 0 where
  pub method : String
  pub path : String
  pub authorization : String
  pub query : String → String
  pub body : Bytes

-- The request in a handler: with the user id of its context and the values of the pattern's names.
pub record Call : Type 0 where
  pub request : Request
  pub user_id : String
  pub values : List (String × String)

-- `r.PathValue`
unfoldable pub path_value : Call → String → String
unfolding with_default
path_value c name = with_default (lookup text_dec name c.values)

-- What a handler encodes as JSON.
pub data Body : Type 0 where
  id : String → Body
  feed : GetFeedResp → Body
  feed_list : ListFeedsResp → Body
  timeline : GetTimelineResp → Body
  success : Bool → Body
  like_count : LikeResp → Body
  liked : Bool → Body
  count : ℤ → Body
  counts : Counts → Body
  comment : PbComment → Body
  comments : ListCommentsResp → Body
  bookmarked : Bool → Body
  user_info : GetInfoResp → Body
  login : LoginResp → Body
  user_ids : List String → Body
  is_following : Bool → Body
  upload_token : String → String → Body

-- A JSON answer with status 200, or `http.Error` with a status and the text of an error.
pub data Reply : Type 0 where
  json : Body → Reply
  failed : ℕ → Error → Reply

-- The end of every handler: an error of the client is an internal server error.
abbrev pub answer {ℓ} : {A : Type ℓ} → (A → Body) → Result A → Reply
answer body (ok a) = json (body a)
answer body (err e) = failed 500 e

-- The same for a call that changes what the services keep.
abbrev pub answered {ℓ κ} : {S : Type ℓ} {A : Type κ} → (A → Body) → S × Result A → S × Reply
answered body (s, r) = (s, answer body r)

-- `json.NewDecoder(r.Body).Decode`, which encoding/json documents: the value, or an error. `content`
-- is what is left in the field of a comment's body, after an error too.
pub record Decoder : Type 0 where
  pub blocks : Bytes → Result (List PbBlock)
  pub credentials : Bytes → Result (String × String)
  pub post_ids : Bytes → Result (List String)
  pub content : Bytes → String
