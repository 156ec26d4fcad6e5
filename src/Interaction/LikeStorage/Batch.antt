-- ===== src/Interaction/LikeStorage/Batch.antt =====
-- services/interaction/storage.go `BatchCount`: the counts of several posts, from Redis and, where
-- Redis has none, from the table. A failed pipeline of reads answers with its first error.
pub mod Counts
use Prim.Native.String.{◌++◌ as append}
use feeds.Prelude.{
  ℕ, String, ite, Option, none, some, List, [], ◌∷◌, ◌++◌, Error, wrapped, Result, ok, err, Outcome,
  text_dec, if◌then◌else◌,
}
use feeds.Prelude.Int.{ℤ, pos}
use feeds.Prelude.Maps.{insert as insert_key}
use feeds.Interaction.Redis.{RedisClient, Command, set}
use feeds.Interaction.LikeRepo.{Likes}
use feeds.Interaction.LikeRepo
use feeds.Interaction.LikeStorage.{LikeState, likes_key, like_ttl, is_nil}

abbrev pub Counts : Type 0
Counts = List (String × ℤ)

-- The posts that the table has counted; a count that failed is logged and skipped, and so is the
-- empty id, which marks a failed count.
unfoldable pub counted : (String → Outcome) → Likes → List String → Counts
counted outcome likes [] = []
counted outcome likes (id ∷ missed) =
    let rest = counted outcome likes missed in
    elim (LikeRepo.count (outcome id) id likes) [
      | err e ↦ rest
      | ok n ↦ ite (text_dec id "") rest ((id, pos n) ∷ rest)
    ]

unfoldable pub add_counts : Counts → Counts → Counts
add_counts [] result = result
add_counts (e ∷ counts) result = add_counts counts (insert_key text_dec e.0 e.1 result)

abbrev backfill : Counts → List Command
backfill [] = []
backfill (e ∷ counts) = set (likes_key e.0) e.1 like_ttl ∷ backfill counts

module _ (redis : RedisClient) where
  -- `Exec` of the pipeline of reads: its first error.
  unfoldable pub first_error : redis.Store → List String → Option Error
  first_error store [] = none
  first_error store (id ∷ ids) =
      let rest = first_error store ids in
      elim (redis.get store (likes_key id)) [ ok n ↦ rest | err e ↦ some e ]

  -- The loop over the replies, with the counts and the missed posts so far.
  unfoldable pub collect :
      redis.Store → List String → Counts → List String → Result (Counts × List String)
  collect store [] result missed = ok (result, missed)
  collect store (id ∷ ids) result missed =
      let found = λ (n : ℤ). collect store ids (insert_key text_dec id n result) missed in
      let absent = collect store ids result (missed ++ (id ∷ [])) in
      elim (redis.get store (likes_key id)) [
        | ok n ↦ found n
        | err e ↦
            if is_nil e
            then absent
            else err (wrapped (append "storage: batch count " (append id ": ")) e)
      ]

  -- `BatchCount` after the pipeline of reads. A failed pipeline of writes is logged.
  unfoldable pub fill :
      (String → Outcome)
      → LikeState redis
      → Result (Counts × List String)
      → LikeState redis × Result Counts
  unfolding counted add_counts
  fill outcome s (err e) = (s, err e)
  fill outcome s (ok (result, [])) = (s, ok result)
  fill outcome s (ok (result, id ∷ missed)) =
      let counts = counted outcome s.likes (id ∷ missed) in
      (record s { store = (redis.exec s.store (backfill counts)).0 }, ok (add_counts counts result))

  unfoldable pub batch_count :
      (String → Outcome) → LikeState redis → List String → LikeState redis × Result Counts
  unfolding fill first_error collect
  batch_count outcome s [] = (s, ok [])
  batch_count outcome s (id ∷ ids) = elim (first_error s.store (id ∷ ids)) [
    | none ↦ fill outcome s (collect s.store (id ∷ ids) [] [])
    | some e ↦
        if is_nil e
        then fill outcome s (collect s.store (id ∷ ids) [] [])
        else (s, err (wrapped "storage: batch count: " e))
  ]
