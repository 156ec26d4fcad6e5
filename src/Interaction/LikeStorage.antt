-- ===== src/Interaction/LikeStorage.antt =====
-- services/interaction/storage.go `cachedLikeStorage`: likes counted in Redis, over the post_likes
-- table. The environment's outcome of a statement is an argument of the call that makes it.
pub mod Batch
pub mod Rebuild
pub mod Refines
pub mod Races
use Prim.Native.String.{◌++◌ as append}
use mathlib.Core.List.{lookup}
use feeds.Prelude.{
  ℕ, zero, suc, ◌*◌, String, ite, Bool, true, false, Option, none, some, List, [], ◌∷◌, Error,
  redis_nil, wrapped, Result, ok, err, Outcome, length, take, drop, text_dec, leb, if◌then◌else◌,
}
use feeds.Prelude.Int.{ℤ, pos, negsuc}
use feeds.Prelude.Maps.{insert as insert_key}
use feeds.Interaction.Redis.{RedisClient, Command, incr, decr, sadd, srem, expire, set, first_reply}
use feeds.Interaction.LikeRepo.{Likes, insert, delete, is_liked as repo_is_liked, list_likers}
use feeds.Interaction.LikeRepo

-- Thirty days and thirty minutes, in nanoseconds.
abbrev pub like_ttl : ℕ
like_ttl = 30 * 24 * 3600000000000

abbrev pub rebuild_ttl : ℕ
rebuild_ttl = 30 * 60000000000

unfoldable pub likes_key : String → String
likes_key feed_id = append "likes:" feed_id

unfoldable pub liked_by_key : String → String
liked_by_key feed_id = append "liked_by:" feed_id

-- `Val` of a failed reply is false.
abbrev val : Result Bool → Bool
val (ok b) = b
val (err e) = false

-- Whether an error is `redis.Nil`.
abbrev pub is_nil : Error → Bool
is_nil redis_nil = true
is_nil e = false

abbrev pub batch_size : ℕ
batch_size = 1000

module _ (redis : RedisClient) where
  open redis use {Store, sismember, get, exec}

  pub record LikeState : Type 0 where
    pub store : Store
    pub likes : Likes

  abbrev set_count : Store → String → ℤ → Store
  set_count store feed_id n = (exec store (set (likes_key feed_id) n like_ttl ∷ [])).0

  -- After a miss: the table's count, which is then put under the key.
  count_from_db : Outcome → LikeState → String → LikeState × Result ℤ
  count_from_db outcome s feed_id = elim (LikeRepo.count outcome feed_id s.likes) [
    | err e ↦ (s, err e)
    | ok n ↦ (record s { store = set_count s.store feed_id (pos n) }, ok (pos n))
  ]

  unfoldable pub count : Outcome → LikeState → String → LikeState × Result ℤ
  unfolding count_from_db
  count outcome s feed_id = elim (get s.store (likes_key feed_id)) [
    | ok n ↦ (s, ok n)
    | err e ↦
        if is_nil e
        then count_from_db outcome s feed_id
        else (s, err (wrapped "storage: get likes count: " e))
  ]

  -- The pipelines of `Like` and `Unlike`.
  abbrev pub like_commands : String → String → List Command
  like_commands user_id feed_id =
      incr (likes_key feed_id)
      ∷ sadd (liked_by_key feed_id) (user_id ∷ [])
      ∷ expire (likes_key feed_id) like_ttl
      ∷ expire (liked_by_key feed_id) like_ttl
      ∷ []

  abbrev pub unlike_commands : String → String → List Command
  unlike_commands user_id feed_id =
      decr (likes_key feed_id)
      ∷ srem (liked_by_key feed_id) user_id
      ∷ expire (likes_key feed_id) like_ttl
      ∷ expire (liked_by_key feed_id) like_ttl
      ∷ []

  -- A like that is new to Redis. A failed INSERT is logged, and the like stands.
  like_new : Outcome → LikeState → String → String → LikeState × Result ℤ
  like_new outcome s user_id feed_id =
      let (store, replies) = exec s.store (like_commands user_id feed_id) in
      elim replies [
        | err e ↦ (record s { store = store }, err (wrapped "storage: like: " e))
        | ok rs ↦ (
          record s { store = store; likes = (insert outcome user_id feed_id s.likes).0 },
          ok (first_reply rs),
        )
      ]

  unfoldable pub like : Outcome → LikeState → String → String → LikeState × Result ℤ
  unfolding like_new
  like outcome s user_id feed_id =
      if val (sismember s.store (liked_by_key feed_id) user_id)
      then count outcome s feed_id
      else like_new outcome s user_id feed_id

  -- A count below 0 is set to 0, and answered as 0.
  clamp_count : Store → String → ℤ → Store × ℤ
  clamp_count store feed_id (pos n) = (store, pos n)
  clamp_count store feed_id (negsuc n) = (set_count store feed_id (pos 0), pos 0)

  unlike_old : Outcome → LikeState → String → String → LikeState × Result ℤ
  unfolding clamp_count
  unlike_old outcome s user_id feed_id =
      let (store, replies) = exec s.store (unlike_commands user_id feed_id) in
      elim replies [
        | err e ↦ (record s { store = store }, err (wrapped "storage: unlike: " e))
        | ok rs ↦
            let (store', n) = clamp_count store feed_id (first_reply rs) in
            (record s { store = store'; likes = (delete outcome user_id feed_id s.likes).0 }, ok n)
      ]

  unfoldable pub unlike : Outcome → LikeState → String → String → LikeState × Result ℤ
  unfolding unlike_old
  unlike outcome s user_id feed_id =
      if val (sismember s.store (liked_by_key feed_id) user_id)
      then unlike_old outcome s user_id feed_id
      else count outcome s feed_id

  -- The pipelines of `rebuildLikedBy`: batches of the likers, the last with the full time to live.
  -- The first argument bounds the rounds.
  unfoldable pub rebuild_batches : ℕ → String → List String → List (List Command)
  rebuild_batches zero key user_ids = []
  rebuild_batches (suc rounds) key [] = []
  rebuild_batches (suc rounds) key (user_id ∷ rest) =
      let user_ids = user_id ∷ rest in
      let members = take batch_size user_ids in
      let ttl = if leb (length user_ids) batch_size then like_ttl else rebuild_ttl in
      (sadd key members ∷ expire key ttl ∷ [])
      ∷ rebuild_batches rounds key (drop batch_size user_ids)

  exec_all : Store → List (List Command) → Store × Result (Unit {0})
  exec_all store [] = (store, ok tt)
  exec_all store (batch ∷ batches) =
      let (store', replies) = exec store batch in
      let rest = exec_all store' batches in
      elim replies [
        | ok rs ↦ rest
        | err e ↦ (store', err (wrapped "storage: rebuild liked_by: " e))
      ]

  unfoldable pub rebuild_liked_by : Outcome → LikeState → String → LikeState × Result (Unit {0})
  unfolding exec_all
  rebuild_liked_by outcome s feed_id = elim (list_likers outcome feed_id s.likes) [
    | err e ↦ (s, err e)
    | ok user_ids ↦
        let (store, done) =
          exec_all s.store (rebuild_batches (length user_ids) (liked_by_key feed_id) user_ids) in
        (record s { store = store }, done)
  ]

  -- `IsLiked`. The last reading answers as it is.
  unfoldable pub is_liked :
      Outcome → Outcome → LikeState → String → String → LikeState × Result Bool
  is_liked listing reading s user_id feed_id =
      elim (sismember s.store (liked_by_key feed_id) user_id) [
        | ok b ↦ (s, ok b)
        | err e ↦
            if is_nil e
            then (let (s', rebuilt) = rebuild_liked_by listing s feed_id in
                elim rebuilt [
                  | err x ↦ (s', repo_is_liked reading user_id feed_id s'.likes)
                  | ok _ ↦ (s', sismember s'.store (liked_by_key feed_id) user_id)
                ])
            else (s, err (wrapped "storage: is liked: " e))
      ]
