-- ===== src/Feed/Model.antt =====
-- services/feed/model.go, and the messages of proto/feed/feed.proto that the service answers with.
-- A time is a number of microseconds, as in a TIMESTAMPTZ column.
use feeds.Prelude.{ℕ, ◌/◌, ◌≡◌, refl, String, List, [], ◌∷◌, ap}
use feeds.Prelude.Int.{ℤ}

abbrev pub Time : Type 0
Time = ℕ

-- `Time.Unix`
abbrev pub unix : Time → ℕ
unix t = t / 1000000

pub record Block : Type 0 where
  pub type : String
  pub content : String
  pub url : String
  pub cover_url : String
  pub width : ℤ
  pub height : ℤ
  pub duration : ℤ
  pub size : ℤ

-- `pb.Block`
pub record PbBlock : Type 0 where
  pub type : String
  pub content : String
  pub url : String
  pub cover_url : String
  pub width : ℤ
  pub height : ℤ
  pub duration : ℤ
  pub size : ℤ

pub record Feed : Type 0 where
  pub id : String
  pub author_id : String
  pub blocks : List Block
  pub created_at : Time
  pub updated_at : Time

-- `pb.GetFeedResp`
pub record GetFeedResp : Type 0 where
  pub id : String
  pub author_id : String
  pub blocks : List PbBlock
  pub created_at : ℕ
  pub updated_at : ℕ

abbrev block_from_proto : PbBlock → Block
block_from_proto b = record {
  type = b.type;
  content = b.content;
  url = b.url;
  cover_url = b.cover_url;
  width = b.width;
  height = b.height;
  duration = b.duration;
  size = b.size;
}

abbrev block_to_proto : Block → PbBlock
block_to_proto b = record {
  type = b.type;
  content = b.content;
  url = b.url;
  cover_url = b.cover_url;
  width = b.width;
  height = b.height;
  duration = b.duration;
  size = b.size;
}

unfoldable pub blocks_from_proto : List PbBlock → List Block
blocks_from_proto [] = []
blocks_from_proto (b ∷ pbs) = block_from_proto b ∷ blocks_from_proto pbs

unfoldable pub blocks_to_proto : List Block → List PbBlock
blocks_to_proto [] = []
blocks_to_proto (b ∷ blocks) = block_to_proto b ∷ blocks_to_proto blocks

-- The literal that `PostFeed`, `getPostContent` and `ListFeeds` build from a row.
unfoldable pub to_resp : Feed → GetFeedResp
to_resp f = record {
  id = f.id;
  author_id = f.author_id;
  blocks = blocks_to_proto f.blocks;
  created_at = unix f.created_at;
  updated_at = unix f.updated_at;
}

-- What a client posted is what the service answers with.
pub blocks_to_proto-from_proto :
    (pbs : List PbBlock) → blocks_to_proto (blocks_from_proto pbs) ≡ pbs
unfolding blocks_to_proto blocks_from_proto
blocks_to_proto-from_proto [] = refl
blocks_to_proto-from_proto (b ∷ pbs) = ap (◌∷◌ b) (blocks_to_proto-from_proto pbs)
