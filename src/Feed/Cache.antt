-- ===== src/Feed/Cache.antt =====
-- What the feed service uses of Redis and of encoding/json. Both are parameters: Redis is its
-- commands with what their documentation says of the value stored under a key. Any command may
-- fail, and a stored value may be gone when it is next read. `Text` is the type of the bytes that
-- json.Marshal writes for a post, which the code only passes on.
use Prim.Native.String.{◌++◌ as append}
use text.Mathlib.TextLemmas.{append_cancel_left}
use feeds.Prelude.{ℕ, ◌-◌, suc, ◌≡◌, ◌⊎◌, String, Option, some, List, Result, ok, take, drop}
use feeds.Prelude.Int.{ℤ, pos}
use feeds.Feed.Model.{GetFeedResp}
use feeds.Feed.Interleave.{Z}

pub record PostCache (Score Text : Type 0) : Type 1 where
  pub Store : Type 0
  pub get : Store → String → Result Text
  pub set : Store → String → Text → ℕ → Store
  pub zrevrange : Store → String → ℤ → ℤ → Result (List (Z Score))

-- The documented behaviour of the commands, over the text that a key holds.
pub record CacheLaws {Score Text : Type 0} (cache : PostCache Score Text) : Type 0 where
  pub stored : cache.Store → String → Option Text
  pub get-stored :
      (s : cache.Store) (k : String) (v : Text) → cache.get s k ≡ ok v → stored s k ≡ some v
  pub set-stored :
      (s : cache.Store) (k : String) (v : Text) (ttl : ℕ) (j : String)
      → (stored (cache.set s k v ttl) j ≡ stored s j)
        ⊎ ((j ≡ k) × (stored (cache.set s k v ttl) j ≡ some v))

-- The documented answer of ZREVRANGE: the members of the set from the highest score down, from the
-- first rank to the second, both included.
pub record RangeLaws {Score Text : Type 0} (cache : PostCache Score Text) : Type 0 where
  pub ranked : cache.Store → String → List (Z Score)
  pub zrevrange-ranked :
      (s : cache.Store) (k : String) (start stop : ℕ) (items : List (Z Score))
      → cache.zrevrange s k (pos start) (pos stop) ≡ ok items
      → items ≡ take (suc stop - start) (drop start (ranked s k))

pub record Json (Text : Type 0) : Type 0 where
  pub encode_post : GetFeedResp → Text
  pub decode_post : Text → Option GetFeedResp
  pub encode_created : String → String → ℕ → String

-- What was marshalled is read back.
abbrev pub RoundTrips : {Text : Type 0} → Json Text → Type 0
RoundTrips json = (r : GetFeedResp) → json.decode_post (json.encode_post r) ≡ some r

unfoldable pub post_cache_key : String → String
post_cache_key id = append "post:" id

pub post_cache_key-injective : (i j : String) → post_cache_key i ≡ post_cache_key j → i ≡ j
unfolding post_cache_key
post_cache_key-injective i j h = append_cancel_left "post:" i j h
