-- ===== src/Tests/Timeline.antt =====
-- Runs of the timeline, over the memory of the posts' runs.
use feeds.Prelude.{
  ℕ, ◌≤◌, ◌≡◌, refl, String, ite, List, [], ◌∷◌, answered, arith, text_dec, take, length,
}
use feeds.Gateway.Query.{parse_int}
use feeds.Prelude.Int.{pos, negsuc, int64, page_number, page_size_of}
use feeds.Feed.Interleave.{Z}
use feeds.Feed.Interleave.Slots.{Page}
use feeds.Feed.Timeline.{
  inbox_key, hot_per_page, inbox_per_page, inbox_start, inbox_stop, hot_start, hot_stop,
  merged_page, unique_ids, get_timeline,
}
use feeds.Feed.Timeline.Windows.{inbox_window, hot_window, merged_page-Page}
use feeds.Feed.Timeline.Answers.{Answers, get_timeline-Answers}
use feeds.Feed.Service.Content.{IsCoherent}
use feeds.Tests.Feed.{
  Memory, memory, cache_laws, range_laws, json, round_trips, two_posts, empty_memory,
}

abbrev z : String → Z ℕ
z id = record { member = id; score = 0 }

abbrev inbox_posts : List (Z ℕ)
inbox_posts = z "p1" ∷ z "p2" ∷ z "p3" ∷ z "p4" ∷ z "p5" ∷ z "p6" ∷ []

abbrev hot_posts : List (Z ℕ)
hot_posts = z "h1" ∷ z "p2" ∷ []

abbrev ranked_memory : Memory
ranked_memory = record empty_memory {
  ranks = λ k. ite (text_dec k "hot_posts") hot_posts inbox_posts;
}

ranked_memory-Coherent : IsCoherent memory cache_laws json round_trips two_posts ranked_memory
unfolding IsCoherent
ranked_memory-Coherent id text r h d = cc h

merged_page-Page_example :
    Page
      (merged_page memory ranked_memory "u1" 1 5)
      (inbox_window memory range_laws ranked_memory "u1" 1 5)
      (hot_window memory range_laws ranked_memory 1 5)
      1
      0
unfolding inbox_key inbox_start inbox_stop hot_start hot_stop inbox_per_page hot_per_page text_dec
merged_page-Page_example =
    merged_page-Page memory range_laws ranked_memory "u1" 1 5 (take 5 inbox_posts)
      (take 1 hot_posts) (omega arith) (omega arith) (omega arith) refl refl (omega arith)
      (omega arith)

get_timeline-Answers_example :
    let (store', resp) =
      get_timeline memory json (λ id. answered) two_posts ranked_memory "u1" (pos 0) (pos 5) in
    let page = merged_page memory ranked_memory "u1" (page_number (pos 0)) (page_size_of (pos 5)) in
    IsCoherent memory cache_laws json round_trips two_posts store'
    × Answers (λ id. answered) two_posts (unique_ids [] page) resp.feeds
    × (length resp.feeds ≤ page_size_of (pos 5))
    × (length resp.feeds ≤ 50)
get_timeline-Answers_example =
    get_timeline-Answers memory cache_laws json round_trips (λ id. answered) two_posts ranked_memory
      "u1" (pos 0) (pos 5) ranked_memory-Coherent

-- The cursor 2 ^ 63 - 1 of a query makes the start of the inbox's range wrap around, to -80.
timeline_start_wraps :
    int64 (inbox_start (page_number (parse_int "9223372036854775807" (pos 0))) 50) ≡ negsuc 79
unfolding int64 inbox_start inbox_per_page hot_per_page page_number parse_int
timeline_start_wraps = refl
