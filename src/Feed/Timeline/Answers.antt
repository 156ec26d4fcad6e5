-- ===== src/Feed/Timeline/Answers.antt =====
-- What a timeline answers with, over a coherent cache.
use feeds.Prelude.{
  answered, none, ◌≢◌, ◌⊎◌, ℕ, ◌≤◌, ◌≡◌, String, Bool, List, [], ◌∷◌, Outcome, Result-cases, inl,
  inr, some, arith, length, length-take, text_dec, ltb, take, if◌then◌else◌,
}
use feeds.Prelude.Maps.{insert}
use feeds.Prelude.Int.{ℤ, page_number, page_size_of, page_size_bounds}
use feeds.Feed.Model.{Feed, GetFeedResp, to_resp}
use feeds.Feed.Repo.{Posts, select_post}
use feeds.Feed.Interleave.{InterleaveSlot}
use feeds.Feed.Cache.{PostCache, CacheLaws, Json, RoundTrips}
use feeds.Feed.Service.{get_post_content}
use feeds.Feed.Service.Content.{get_post_content-failed, IsCoherent, get_post_content-IsCoherent}
use feeds.Feed.Timeline.{fetch_all, merged_page, get_timeline, unique_ids}

-- The answers for a list of ids, in its order: the content of the row of each id, but for the ids with
-- no row and those for which the database did not answer.
pub data Answers (outcome : String → Outcome) (posts : Posts)
    : List String → List GetFeedResp → Type 0 where
  finished : Answers outcome posts [] []
  skips :
      {id : String} {ids : List String} {feeds : List GetFeedResp}
      → (select_post id posts ≡ none) ⊎ (outcome id ≢ answered)
      → Answers outcome posts ids feeds
      → Answers outcome posts (id ∷ ids) feeds
  shows :
      {id : String} {ids : List String} {r : GetFeedResp} {feeds : List GetFeedResp} (f : Feed)
      → select_post id posts ≡ some f
      → r ≡ to_resp f
      → Answers outcome posts ids feeds
      → Answers outcome posts (id ∷ ids) (r ∷ feeds)

length-Answers-le :
    {outcome : String → Outcome} {posts : Posts} {ids : List String} {feeds : List GetFeedResp}
    → Answers outcome posts ids feeds
    → length feeds ≤ length ids
length-Answers-le finished = omega arith
length-Answers-le (skips why a) = omega (arith, length-Answers-le a)
length-Answers-le (shows f row e a) = omega (arith, length-Answers-le a)

module _ {Score : Type 0} where
  length-unique_ids-le :
      (seen : List (String × Bool)) (merged : List (InterleaveSlot Score))
      → length (unique_ids seen merged) ≤ length merged
  unfolding unique_ids
  length-unique_ids-le seen [] = omega arith
  length-unique_ids-le seen (m ∷ merged) = ground (
    arith,
    length-unique_ids-le seen merged,
    length-unique_ids-le (insert text_dec m.post_id Bool.true seen) merged,
  )

cut_bound {ℓ} :
    {A : Type ℓ} (n : ℕ) (xs : List A) → length (if ltb n (length xs) then take n xs else xs) ≤ n
cut_bound n xs = ground (arith, length-take n xs)

module _ {Score Text : Type 0} (cache : PostCache Score Text) where
  length-merged_page-le :
      (store : cache.Store) (user_id : String) (page n : ℕ)
      → length (merged_page cache store user_id page n) ≤ n
  unfolding merged_page
  length-merged_page-le store user_id page n = cut_bound n _

module _ {Score Text : Type 0} (cache : PostCache Score Text) (laws : CacheLaws cache)
    (json : Json Text) (round_trips : RoundTrips json) where
  abbrev Coherent : Posts → cache.Store → Type 0
  Coherent = IsCoherent cache laws json round_trips

  fetch_all-Answers :
      (outcome : String → Outcome) (posts : Posts) (store : cache.Store) (ids : List String)
      → Coherent posts store
      → let (store', feeds) = fetch_all cache json outcome posts store ids in
        Coherent posts store' × Answers outcome posts ids feeds
  unfolding fetch_all
  fetch_all-Answers outcome posts store [] v = (v, finished)
  fetch_all-Answers outcome posts store (id ∷ ids) v =
      let (v', answer) =
        get_post_content-IsCoherent cache laws json round_trips (outcome id) posts store id v in
      let (v'', rows) =
        fetch_all-Answers outcome posts (get_post_content cache json (outcome id) posts store id).0
          ids v' in
      elim (Result-cases (get_post_content cache json (outcome id) posts store id).1) [
        | inl (r, e) ↦
            rw (e, fetch_all) (v'', let (f, row, same) = answer r e in shows f row same rows)
        | inr (x, e) ↦
            rw (e, fetch_all)
              (
                v'',
                skips
                    (get_post_content-failed cache laws json round_trips (outcome id) posts store id
                      x e)
                    rows,
              )
      ]

  -- Over a coherent cache a timeline answers, in the order of its page and with the ids of the
  -- page made distinct, with the contents of rows of the posts table, where an id is left out
  -- only if it has no row or the database did not answer its read; there are at most as many as the page has, which is at most 50; and
  -- the cache stays coherent.
  pub get_timeline-Answers :
      (outcome : String → Outcome) (posts : Posts) (store : cache.Store) (user_id : String)
      (cursor requested : ℤ)
      → Coherent posts store
      → let (store', resp) = get_timeline cache json outcome posts store user_id cursor requested in
        let page = merged_page cache store user_id (page_number cursor) (page_size_of requested) in
        Coherent posts store'
        × Answers outcome posts (unique_ids [] page) resp.feeds
        × (length resp.feeds ≤ page_size_of requested)
        × (length resp.feeds ≤ 50)
  unfolding get_timeline
  get_timeline-Answers outcome posts store user_id cursor requested v =
      let n = page_size_of requested in
      let page = merged_page cache store user_id (page_number cursor) n in
      let (v', rows) = fetch_all-Answers outcome posts store (unique_ids [] page) v in
      let size = length-Answers-le rows in
      let short = length-unique_ids-le [] page in
      let cut = length-merged_page-le cache store user_id (page_number cursor) n in
      let limit = page_size_bounds requested in (v', rows, omega arith, omega arith)
