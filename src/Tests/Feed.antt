-- ===== src/Tests/Feed.antt =====
-- Runs of the posts, over a cache that answers every call. A cached value is the message itself.
use mathlib.Core.List.Permᴰ
use feeds.Prelude.{
  ℕ, ◌-◌, suc, ◌≡◌, ◌≢◌, ◌↔◌, ◌⊎◌, inl, inr, refl, sym, String, ite, Option, none, some, List, [],
  ◌∷◌, Result, ok, err, redis_nil, answered, text_dec, take, drop,
}
use feeds.Prelude.Int.{ℤ, pos}
use feeds.Feed.Model.{PbBlock, Feed, GetFeedResp, to_resp}
use feeds.Feed.Repo.{Posts, create, select_post, delete, find_by_ids}
use feeds.Feed.Repo.Rows.{IsKeyed, delete_authorized, posts_of, find_by_ids-posts_of}
use feeds.Feed.Interleave.{Z}
use feeds.Feed.Cache.{PostCache, CacheLaws, RangeLaws, Json, RoundTrips}
use feeds.Feed.Service.{FeedState, post_feed, get_post_content}
use feeds.Feed.Service.Content.{IsCoherent, get_post_content-IsCoherent, post_feed-get_post_content}

pub record Memory : Type 0 where
  pub values : String → Option GetFeedResp
  pub ranks : String → List (Z ℕ)

abbrev read_value : Option GetFeedResp → Result GetFeedResp
read_value none = err redis_nil
read_value (some r) = ok r

abbrev read_range : List (Z ℕ) → ℤ → ℤ → Result (List (Z ℕ))
read_range items (pos start) (pos stop) = ok (take (suc stop - start) (drop start items))
read_range items start stop = err redis_nil

abbrev pub memory : PostCache ℕ GetFeedResp
memory = record {
  Store = Memory;
  get = λ s k. read_value (s.values k);
  set = λ s k v ttl. record s { values = λ j. ite (text_dec j k) (some v) (s.values j) };
  zrevrange = λ s k start stop. read_range (s.ranks k) start stop;
}

pub ok-injective {ℓ} : {A : Type ℓ} {a b : A} → ok a ≡ ok b → a ≡ b
ok-injective p = cc p

pub read_value_ok : (o : Option GetFeedResp) (r : GetFeedResp) → read_value o ≡ ok r → o ≡ some r
read_value_ok none r h = cc h
read_value_ok (some x) r h = cc h

pub set_value :
    (s : Memory) (k j : String) (v : GetFeedResp)
    → (ite (text_dec j k) (some v) (s.values j) ≡ s.values j)
      ⊎ ((j ≡ k) × (ite (text_dec j k) (some v) (s.values j) ≡ some v))
set_value s k j v =
    elim (text_dec j k)
      as (λ d.
        (ite d (some v) (s.values j) ≡ s.values j)
        ⊎ ((j ≡ k) × (ite d (some v) (s.values j) ≡ some v))) [
          | yes same ↦ inr (same, refl)
          | no other ↦ inl refl
        ]

abbrev pub cache_laws : CacheLaws memory
cache_laws = record {
  stored = λ s k. s.values k;
  get-stored = λ s k v h. read_value_ok (s.values k) v h;
  set-stored = λ s k v ttl j. set_value s k j v;
}

abbrev pub range_laws : RangeLaws memory
range_laws = record {
  ranked = λ s k. s.ranks k;
  zrevrange-ranked = λ s k start stop items h. sym (ok-injective h);
}

abbrev pub json : Json GetFeedResp
json = record {
  encode_post = λ r. r;
  decode_post = λ r. some r;
  encode_created = λ id author_id t. id;
}

abbrev pub round_trips : RoundTrips json
round_trips r = refl

abbrev post : String → String → Feed
post id author_id = record {
  id = id;
  author_id = author_id;
  blocks = [];
  created_at = 5000000;
  updated_at = 5000000;
}

abbrev pub two_posts : Posts
two_posts = post "p1" "u1" ∷ post "p2" "u2" ∷ []

pub two_posts-IsKeyed : IsKeyed two_posts
unfolding select_post text_dec
two_posts-IsKeyed = (refl, (refl, tt))

delete_authorized_example :
    (((delete answered "p1" "u1" two_posts).1 ≡ ok tt)
      ↔ ((f : Feed) × (select_post "p1" two_posts ≡ some f) × (f.author_id ≡ "u1")))
    × ((delete answered "p1" "u1" two_posts).1 ≡ ok tt
        → select_post "p1" (delete answered "p1" "u1" two_posts).0 ≡ none)
    × ((delete answered "p1" "u1" two_posts).1 ≢ ok tt
        → (delete answered "p1" "u1" two_posts).0 ≡ two_posts)
delete_authorized_example = delete_authorized "p1" "u1" two_posts two_posts-IsKeyed

-- The database answers in its own order; a missing id is left out.
find_by_ids-posts_of_example :
    find_by_ids (λ rows. rows) answered ("p2" ∷ "p9" ∷ "p1" ∷ []) two_posts
    ≡ ok (post "p2" "u2" ∷ post "p1" "u1" ∷ [])
unfolding posts_of select_post text_dec
find_by_ids-posts_of_example =
    find_by_ids-posts_of (λ rows. rows) ("p2" ∷ "p9" ∷ "p1" ∷ []) two_posts
      (λ rows. Permᴰ.refl rows) two_posts-IsKeyed

abbrev pub empty_memory : Memory
empty_memory = record { values = λ k. none; ranks = λ k. [] }

pub empty-IsCoherent :
    (posts : Posts) → IsCoherent memory cache_laws json round_trips posts empty_memory
unfolding IsCoherent
empty-IsCoherent posts id text r h d = cc h

get_post_content-IsCoherent_example :
    IsCoherent memory cache_laws json round_trips two_posts
      (get_post_content memory json answered two_posts empty_memory "p1").0
    × ((r : GetFeedResp)
        → (get_post_content memory json answered two_posts empty_memory "p1").1 ≡ ok r
        → (f : Feed) × (select_post "p1" two_posts ≡ some f) × (r ≡ to_resp f))
get_post_content-IsCoherent_example =
    get_post_content-IsCoherent memory cache_laws json round_trips answered two_posts empty_memory
      "p1" (empty-IsCoherent two_posts)

abbrev no_posts : FeedState Memory
no_posts = record { posts = []; store = empty_memory; events = [] }

abbrev greeting : PbBlock
greeting = record {
  type = "text";
  content = "hello";
  url = "";
  cover_url = "";
  width = pos 0;
  height = pos 0;
  duration = pos 0;
  size = pos 0;
}

abbrev posted : FeedState Memory
posted = (post_feed memory json answered "p1" 5000000 no_posts "u1" (greeting ∷ [])).0

post_feed-get_post_content_example :
    IsCoherent memory cache_laws json round_trips posted.posts posted.store
    × ((r : GetFeedResp)
        → (get_post_content memory json answered posted.posts posted.store "p1").1 ≡ ok r
        → (r.id ≡ "p1") × (r.author_id ≡ "u1") × (r.blocks ≡ greeting ∷ []))
    × (posted.events ≡ record { topic = "post.created"; key = "p1"; body = "p1" } ∷ [])
unfolding post_feed create select_post
post_feed-get_post_content_example =
    post_feed-get_post_content memory cache_laws json round_trips answered answered "p1" 5000000
      no_posts "u1" (greeting ∷ []) (empty-IsCoherent []) refl refl

-- The first post, with its copy in the cache.
abbrev cached : FeedState Memory
cached = record {
  posts = two_posts;
  store = record { values = λ k. some (to_resp (post "p1" "u1")); ranks = λ k. [] };
  events = [];
}
