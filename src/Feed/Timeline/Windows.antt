-- ===== src/Feed/Timeline/Windows.antt =====
-- Which part of the inbox and of the hot posts a page shows.
use feeds.Prelude.{
  ℕ, zero, suc, ◌+◌, ◌-◌, ◌*◌, ◌/◌, ◌^◌, ◌≤◌, ◌<◌, ◌≡◌, refl, ap, ◌++◌, String, List, [], ◌∷◌, ok,
  take, drop, length, length-take, length-drop, take_of_length-le, take-take, take-drop-take, arith,
  ltb, if◌then◌else◌,
}
use feeds.Prelude.Int.{pos, int64, int64_small}
use feeds.Feed.Interleave.{Z, interleave}
use feeds.Feed.Interleave.Slots.{Page, take-interleave-Page}
use feeds.Feed.Cache.{PostCache, RangeLaws}
use feeds.Feed.Timeline.{
  inbox_key, hot_posts_key, hot_per_page, inbox_per_page, inbox_start, inbox_stop, hot_start,
  hot_stop, merged_page,
}

-- From five posts on, a page is `k` groups of five and a rest.
per_page_split :
    (n : ℕ)
    → 5 ≤ n
    → (hot_per_page n ≡ n / 5)
      × (inbox_per_page n ≡ 4 * (n / 5) + (n - 5 * (n / 5)))
      × (n ≡ 5 * (n / 5) + (n - 5 * (n / 5)))
unfolding hot_per_page inbox_per_page
per_page_split n h = ground arith

mul_mono : (a b c d : ℕ) → a ≤ b → c ≤ d → a * c ≤ b * d
mul_mono a b c d h k = grind arith

-- The ranges of a page end within the page's number times its size.
stops-le :
    (page n : ℕ)
    → 0 < page
    → 5 ≤ n
    → (inbox_stop page n ≤ page * n)
      × (hot_stop page n ≤ page * n)
      × (0 < hot_per_page n)
      × (inbox_start page n ≤ inbox_stop page n - 1)
      × (hot_start page n ≤ hot_stop page n - 1)
      × (0 < inbox_stop page n)
      × (0 < hot_stop page n)
unfolding inbox_stop hot_stop inbox_start hot_start
stops-le page n first big =
    let split = per_page_split n big in
    let pred : page ≡ page - 1 + 1 = omega arith in
    let q : page * n ≡ (page - 1) * n + n = omega (arith, ap (λ (t : ℕ). t * n) pred) in
    let a : ((page - 1) * inbox_per_page n ≤ (page - 1) * n) =
      mul_mono (page - 1) (page - 1) (inbox_per_page n) n (omega arith) (omega arith) in
    let b : ((page - 1) * hot_per_page n ≤ (page - 1) * n) =
      mul_mono (page - 1) (page - 1) (hot_per_page n) n (omega arith) (omega arith) in
    omega arith

spans_lem :
    (page n : ℕ)
    → 5 ≤ n
    → (suc (inbox_stop page n - 1) - inbox_start page n ≡ 4 * (n / 5) + (n - 5 * (n / 5)) + n / 5)
      × (suc (hot_stop page n - 1) - hot_start page n ≡ n / 5)
unfolding inbox_stop hot_stop
spans_lem page n big = let split = per_page_split n big in omega arith

pub cut-take {ℓ} :
    {A : Type ℓ} (n : ℕ) (xs : List A) → (if ltb n (length xs) then take n xs else xs) ≡ take n xs
cut-take n xs = ground (arith, take_of_length-le n xs)

pub pred_suc : (n : ℕ) → suc n - 1 ≡ n
pred_suc n = omega arith

module _ {Score : Type 0} where
  Page-of_windows :
      (k extra : ℕ) (ws vs : List (Z Score))
      → 4 * k + extra + k ≤ length ws
      → k ≤ length vs
      → Page
          (take (5 * k + extra) (interleave (take (4 * k + extra + k) ws) (take k vs) 4))
          (take (4 * k + extra) ws)
          (take k vs)
          k
          extra
  Page-of_windows k extra ws vs h h' =
      let hs = take k vs in
      let xs = take (4 * k + extra + k) ws in
      let size : length hs ≡ k = omega (arith, length-take k vs) in
      let page =
        take-interleave-Page extra xs hs
          (omega (arith, size, length-take (4 * k + extra + k) ws)) in
      rw (size, take-take (4 * k + extra) (4 * k + extra + k) ws (omega arith)) at page

module _ {Score Text : Type 0} (cache : PostCache Score Text) (ranges : RangeLaws cache) where
  open ranges use {ranked, zrevrange-ranked}

  -- The inbox posts, and the hot posts, that page `page` is to show.
  pub inbox_window : cache.Store → String → ℕ → ℕ → List (Z Score)
  inbox_window store user_id page n =
      take (inbox_per_page n) (drop (inbox_start page n) (ranked store (inbox_key user_id)))

  pub hot_window : cache.Store → ℕ → ℕ → List (Z Score)
  hot_window store page n =
      take (hot_per_page n) (drop (hot_start page n) (ranked store hot_posts_key))

  -- A page of five posts or more, whose ranks fit an int64 and whose two ranges are answered and
  -- are full, is made of groups of four inbox posts and a hot one, and a rest of inbox posts; it
  -- shows the whole window of the inbox and of the hot posts, each in its order, and nothing else.
  pub merged_page-Page :
      (store : cache.Store) (user_id : String) (page n : ℕ) (xs hs : List (Z Score))
      → 0 < page
      → 5 ≤ n
      → page * n < 2 ^ 63
      → cache.zrevrange store
          (inbox_key user_id)
          (pos (inbox_start page n))
          (pos (inbox_stop page n - 1))
        ≡ ok xs
      → cache.zrevrange store hot_posts_key (pos (hot_start page n)) (pos (hot_stop page n - 1))
        ≡ ok hs
      → inbox_stop page n ≤ length (ranked store (inbox_key user_id))
      → hot_stop page n ≤ length (ranked store hot_posts_key)
      → Page
          (merged_page cache store user_id page n)
          (inbox_window store user_id page n)
          (hot_window store page n)
          (n / 5)
          (n - 5 * (n / 5))
  unfolding merged_page inbox_window hot_window
  merged_page-Page store user_id page n xs hs first big small got_inbox got_hot full_inbox
        full_hot =
      let split = per_page_split n big in
      let bounds = stops-le page n first big in
      let ends : (int64 (inbox_start page n) ≡ pos (inbox_start page n))
          × (int64 (inbox_stop page n - 1) ≡ pos (inbox_stop page n - 1))
          × (int64 (hot_start page n) ≡ pos (hot_start page n))
          × (int64 (hot_stop page n - 1) ≡ pos (hot_stop page n - 1)) =
        (
          int64_small _ (omega arith),
          int64_small _ (omega arith),
          int64_small _ (omega arith),
          int64_small _ (omega arith),
        ) in
      let xs' =
        zrevrange-ranked store (inbox_key user_id) (inbox_start page n) (inbox_stop page n - 1) xs
          got_inbox in
      let hs' =
        zrevrange-ranked store hot_posts_key (hot_start page n) (hot_stop page n - 1) hs got_hot in
      let ws = drop (inbox_start page n) (ranked store (inbox_key user_id)) in
      let vs = drop (hot_start page n) (ranked store hot_posts_key) in
      let k = n / 5 in
      let extra = n - 5 * k in
      let spans : (suc (inbox_stop page n - 1) - inbox_start page n ≡ 4 * k + extra + k)
          × (suc (hot_stop page n - 1) - hot_start page n ≡ k) =
        spans_lem page n big in
      let page' =
        Page-of_windows k extra ws vs
          (omega (arith, length-drop (inbox_start page n) (ranked store (inbox_key user_id))))
          (omega (arith, length-drop (hot_start page n) (ranked store hot_posts_key))) in
      rw
        (
          ends.0,
          ends.1,
          ends.2,
          ends.3,
          got_inbox,
          got_hot,
          cut-take n (interleave xs hs 4),
          xs',
          hs',
          spans.0,
          spans.1,
          split.0,
          split.1,
        )
        (rw (← split.2) at page')

  -- The inbox windows of the pages up to `page`, one after the other.
  pub inbox_windows : cache.Store → String → ℕ → ℕ → List (Z Score)
  inbox_windows store user_id zero n = []
  inbox_windows store user_id (suc page) n =
      inbox_windows store user_id page n ++ inbox_window store user_id (suc page) n

  -- Over an unchanged inbox the windows of successive pages follow one another with no gap and no
  -- overlap: together they are the head of the inbox.
  pub inbox_windows-take :
      (store : cache.Store) (user_id : String) (page n : ℕ)
      → inbox_windows store user_id page n
        ≡ take (page * inbox_per_page n) (ranked store (inbox_key user_id))
  unfolding inbox_windows inbox_window inbox_start
  inbox_windows-take store user_id zero n =
      let none_yet : 0 * inbox_per_page n ≡ 0 = omega arith in rw none_yet
  inbox_windows-take store user_id (suc page) n =
      let k = inbox_per_page n in
      let items = ranked store (inbox_key user_id) in
      let start : (suc page - 1) * k ≡ page * k = rw (pred_suc page) in
      let total : page * k + k ≡ suc page * k = omega arith in
      rw (inbox_windows-take store user_id page n, start, ← total)
        (take-drop-take (page * k) k items)

first_slots {ℓ} : {A : Type ℓ} (n : ℕ) (xs ys : List A) → length xs ≡ n → take n (xs ++ ys) ≡ xs
first_slots zero [] ys h = refl
first_slots zero (x ∷ xs) ys h = absurd (omega arith)
first_slots (suc n) [] ys h = absurd (omega arith)
first_slots (suc n) (x ∷ xs) ys h = ap (◌∷◌ x) (first_slots n xs ys (omega arith))
