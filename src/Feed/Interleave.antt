-- ===== src/Feed/Interleave.antt =====
-- services/feed/service.go `interleave`: the merge of an inbox and the hot posts. The scores of the
-- sorted sets are floats that the code only passes on: their type is a parameter.
pub mod Slots
use feeds.Prelude.{ℕ, suc, ◌%◌, String, Bool, true, List, [], ◌∷◌, map, ◌==◌}

-- `redis.Z`
pub record Z (Score : Type 0) : Type 0 where
  pub member : String
  pub score : Score

pub data Source : Type 0 where
  inbox hot : Source

pub record InterleaveSlot (Score : Type 0) : Type 0 where
  pub post_id : String
  pub score : Score
  pub source : Source

module _ {Score : Type 0} where
  abbrev pub slot : Source → Z Score → InterleaveSlot Score
  slot source z = record { post_id = z.member; score = z.score; source = source }

  -- A hot post, if it is due and one is left; then the rest of the loop, over the hot posts left.
  place_hot :
      Bool
      → List (Z Score)
      → (List (Z Score) → List (InterleaveSlot Score))
      → List (InterleaveSlot Score)
  place_hot true (h ∷ hot_items) rest = slot hot h ∷ rest hot_items
  place_hot _ hot_items rest = rest hot_items

  -- The loop at index `i` of the inbox, with the hot posts from `hi` on; then what is left of them.
  unfoldable pub interleave_from :
      ℕ → ℕ → List (Z Score) → List (Z Score) → List (InterleaveSlot Score)
  unfolding place_hot
  interleave_from ratio i [] hot_items = map (slot hot) hot_items
  interleave_from ratio i (z ∷ inbox_items) hot_items =
      slot inbox z
      ∷ place_hot (suc i % ratio == 0) hot_items (interleave_from ratio (suc i) inbox_items)

  unfoldable pub interleave : List (Z Score) → List (Z Score) → ℕ → List (InterleaveSlot Score)
  unfolding interleave_from
  interleave inbox_items hot_items ratio = interleave_from ratio 0 inbox_items hot_items
