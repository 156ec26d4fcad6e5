-- ===== src/Feed/Timeline.antt =====
-- services/feed/service.go `GetTimeline`: a page of a user's timeline, merged from the inbox and the
-- hot posts.
pub mod Ids
pub mod Windows
pub mod ShortPages
pub mod Answers
use Prim.Native.String.{◌++◌ as append}
use mathlib.Core.List.{lookup}
use feeds.Prelude.{
  ℕ, ◌+◌, ◌-◌, ◌*◌, ◌/◌, String, ite, Bool, true, Option, none, some, List, [], ◌∷◌, Result, ok,
  err, Outcome, take, length, text_dec, ltb, leb, if◌then◌else◌,
}
use feeds.Prelude.Int.{ℤ, int64, page_number, page_size_of}
use feeds.Prelude.Maps.{insert}
use feeds.Feed.Model.{GetFeedResp}
use feeds.Feed.Repo.{Posts}
use feeds.Feed.Interleave.{Z, InterleaveSlot, interleave}
use feeds.Feed.Cache.{PostCache, Json}
use feeds.Feed.Service.{get_post_content}

abbrev pub inbox_ratio : ℕ
inbox_ratio = 4

abbrev pub hot_posts_key : String
hot_posts_key = "hot_posts"

unfoldable pub inbox_key : String → String
inbox_key user_id = append "inbox:" user_id

-- How many posts of a page come from the hot posts, and how many from the inbox.
unfoldable pub hot_per_page : ℕ → ℕ
hot_per_page page_size =
    let share = page_size / (inbox_ratio + 1) in if ltb share 1 then 1 else share

unfoldable pub inbox_per_page : ℕ → ℕ
inbox_per_page page_size = page_size - hot_per_page page_size

unfoldable pub inbox_start : ℕ → ℕ → ℕ
inbox_start page page_size = (page - 1) * inbox_per_page page_size

-- One past the last inbox post that is fetched: as many more as there are hot posts on a page.
unfoldable pub inbox_stop : ℕ → ℕ → ℕ
inbox_stop page page_size =
    inbox_start page page_size + inbox_per_page page_size + hot_per_page page_size

unfoldable pub hot_start : ℕ → ℕ → ℕ
hot_start page page_size = (page - 1) * hot_per_page page_size

unfoldable pub hot_stop : ℕ → ℕ → ℕ
hot_stop page page_size = hot_start page page_size + hot_per_page page_size

-- A failed range is logged, and read as empty.
abbrev items_or_none {ℓ} : {A : Type ℓ} → Result (List A) → List A
items_or_none (ok items) = items
items_or_none (err e) = []

-- The ids of the page, each at its first place. `seen` is the set of those already met.
module _ {Score : Type 0} where
  unfoldable pub unique_ids : List (String × Bool) → List (InterleaveSlot Score) → List String
  unique_ids seen [] = []
  unique_ids seen (m ∷ merged) =
      let skipped = unique_ids seen merged in
      let taken = m.post_id ∷ unique_ids (insert text_dec m.post_id true seen) merged in
      elim (lookup text_dec m.post_id seen) [ none ↦ taken | some _ ↦ skipped ]

pub record GetTimelineResp : Type 0 where
  pub feeds : List GetFeedResp
  pub next_cursor : ℤ
  pub has_more : Bool

module _ {Score Text : Type 0} (cache : PostCache Score Text) where
  -- The two ranges of the page, merged and cut to the page.
  unfoldable pub merged_page : cache.Store → String → ℕ → ℕ → List (InterleaveSlot Score)
  merged_page store user_id page page_size =
      let inbox_items = items_or_none (
        cache.zrevrange store (inbox_key user_id) (int64 (inbox_start page page_size))
          (int64 (inbox_stop page page_size - 1))) in
      let hot_items = items_or_none (
        cache.zrevrange store hot_posts_key (int64 (hot_start page page_size))
          (int64 (hot_stop page page_size - 1))) in
      let merged = interleave inbox_items hot_items inbox_ratio in
      if ltb page_size (length merged) then take page_size merged else merged

module _ {Score Text : Type 0} (cache : PostCache Score Text) (json : Json Text) where
  -- The contents of the posts; one that cannot be had is logged and skipped. The environment's
  -- outcome of a read of the table is chosen for each post.
  unfoldable pub fetch_all :
      (String → Outcome) → Posts → cache.Store → List String → cache.Store × List GetFeedResp
  fetch_all outcome posts store [] = (store, [])
  fetch_all outcome posts store (id ∷ ids) =
      let (store', content) = get_post_content cache json (outcome id) posts store id in
      let (store'', feeds) = fetch_all outcome posts store' ids in
      elim content [ ok feed ↦ (store'', feed ∷ feeds) | err e ↦ (store'', feeds) ]

  unfoldable pub get_timeline :
      (String → Outcome) → Posts → cache.Store → String → ℤ → ℤ → cache.Store × GetTimelineResp
  get_timeline outcome posts store user_id cursor requested =
      let page = page_number cursor in
      let page_size = page_size_of requested in
      let merged = merged_page cache store user_id page page_size in
      let (store', feeds) = fetch_all outcome posts store (unique_ids [] merged) in
      (
        store',
        record {
          feeds = feeds;
          next_cursor = int64 (page + 1);
          has_more = leb page_size (length merged);
        },
      )
