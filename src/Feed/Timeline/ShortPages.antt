-- ===== src/Feed/Timeline/ShortPages.antt =====
-- Pages of fewer than five posts.
use feeds.Prelude.{
  ℕ, suc, ◌+◌, ◌-◌, ◌*◌, ◌<◌, ◌≡◌, ap, map, String, List, [], ◌∷◌, ok, take, length, arith,
}
use feeds.Prelude.Int.{int64}
use feeds.Feed.Interleave.{Z, interleave, slot, inbox}
use feeds.Feed.Cache.{PostCache}
use feeds.Feed.Timeline.{
  inbox_key, hot_per_page, inbox_per_page, inbox_start, inbox_stop, merged_page,
}
use feeds.Feed.Timeline.Windows.{pred_suc, cut-take}

one_hot : (n : ℕ) → n < 5 → hot_per_page n ≡ 1
unfolding hot_per_page
one_hot n few = ground arith

-- On short pages the range of a page ends where the next page's begins, one post too far.
short_windows :
    (page n : ℕ) → 0 < page → 0 < n → n < 5 → inbox_start (suc page) n + 1 ≡ inbox_stop page n
unfolding inbox_stop inbox_start inbox_per_page
short_windows page n first some_posts few =
    let pred : page ≡ page - 1 + 1 = omega arith in
    let next : page * (n - 1) ≡ (page - 1) * (n - 1) + (n - 1) =
      omega (arith, ap (λ (t : ℕ). t * (n - 1)) pred) in
    rw (pred_suc page, one_hot n few) (omega (arith, next))

module _ {Score Text : Type 0} (cache : PostCache Score Text) where
  short_merge :
      (n : ℕ) (xs hs : List (Z Score))
      → n < 5
      → length xs ≡ n
      → take n (interleave xs hs 4) ≡ map (slot inbox) xs
  unfolding interleave
  short_merge n [] hs h e = rw (← e)
  short_merge n (a ∷ []) hs h e = rw (← e)
  short_merge n (a ∷ b ∷ []) hs h e = rw (← e)
  short_merge n (a ∷ b ∷ c ∷ []) hs h e = rw (← e)
  short_merge n (a ∷ b ∷ c ∷ d ∷ []) hs h e = rw (← e)
  short_merge n (a ∷ b ∷ c ∷ d ∷ x ∷ xs) hs h e = absurd (omega arith)

  -- A page of one to four posts whose inbox range is answered in full shows the posts of that
  -- range alone, whatever the hot posts are; and the last rank of that range is the first of the
  -- next page's.
  pub merged_page_short :
      (store : cache.Store) (user_id : String) (page n : ℕ) (xs : List (Z Score))
      → 0 < page
      → 0 < n
      → n < 5
      → cache.zrevrange store
          (inbox_key user_id)
          (int64 (inbox_start page n))
          (int64 (inbox_stop page n - 1))
        ≡ ok xs
      → length xs ≡ n
      → (merged_page cache store user_id page n ≡ map (slot inbox) xs)
        × (inbox_start (suc page) n + 1 ≡ inbox_stop page n)
  unfolding merged_page
  merged_page_short store user_id page n xs first some_posts few got full = (
    rw (got, cut-take n (interleave xs _ 4)) (short_merge n xs _ few full),
    short_windows page n first some_posts few,
  )
