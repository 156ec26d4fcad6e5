-- ===== src/Interaction/LikeStorage/Batch/Counts.antt =====
-- What a batch of counts answers with.
use mathlib.Core.List.{lookup}
use feeds.Prelude.{
  ◌≡◌, ◌⊎◌, inl, inr, refl, ite, String, true, false, none, some, List, [], ◌∷◌, ◌++◌, redis_nil,
  ok, err, answered, arith, length, text_dec, ◌||◌, if◌then◌else◌,
}
use feeds.Prelude.Int.{ℤ, pos}
use feeds.Prelude.Maps.{lookup-insert, insert as insert_key}
use feeds.Interaction.Uuid.{is_valid_uuid}
use feeds.Interaction.Redis.{RedisClient, is_one_of}
use feeds.Interaction.LikeRepo.{Likes, likers}
use feeds.Interaction.LikeRepo
use feeds.Interaction.LikeStorage.{LikeState, likes_key}
use feeds.Interaction.LikeStorage.Batch.{
  Counts, first_error, collect, counted, add_counts, fill, batch_count,
}

is_one_of-append :
    (j id : String) (ids : List String)
    → is_one_of j (ids ++ (id ∷ [])) ≡ (is_one_of j ids || ite (text_dec j id) true false)
unfolding is_one_of
is_one_of-append j id [] = ground arith
is_one_of-append j id (i ∷ ids) = ground (arith, is_one_of-append j id ids)

empty_not_valid : is_valid_uuid "" ≡ false
unfolding is_valid_uuid
empty_not_valid = refl

module _ (redis : RedisClient) where
  -- Every read of a counter is answered, or there is none.
  abbrev pub Answers : redis.Store → Type 0
  Answers store =
      (id : String)
      → ((n : ℤ) × (redis.get store (likes_key id) ≡ ok n))
        ⊎ (redis.get store (likes_key id) ≡ err redis_nil)

  -- The count of a post: the counter's, or the table's where there is none.
  pub count_of : LikeState redis → String → ℤ
  count_of s id = elim (redis.get s.store (likes_key id)) [
    | ok n ↦ n
    | err e ↦ pos (length (likers id s.likes))
  ]

  first_error-is_nil :
      (store : redis.Store) (ids : List String)
      → Answers store
      → (first_error redis store ids ≡ none) ⊎ (first_error redis store ids ≡ some redis_nil)
  unfolding first_error
  first_error-is_nil store [] h = inl refl
  first_error-is_nil store (id ∷ ids) h = elim (h id) [
    | inl (n, e) ↦ rw (e, first_error) (first_error-is_nil store ids h)
    | inr e ↦ inr (rw (e, first_error))
  ]

  -- What stands in the counts and among the missed posts after the loop.
  record Collected (store : redis.Store) (ids : List String) (result : Counts)
      (missed : List String) (r : Counts) (ms : List String) : Type 0 where
    done : collect redis store ids result missed ≡ ok (r, ms)
    found :
        (j : String) (n : ℤ)
        → redis.get store (likes_key j) ≡ ok n
        → (lookup text_dec j r ≡ (if is_one_of j ids then some n else lookup text_dec j result))
          × (is_one_of j ms ≡ is_one_of j missed)
    absent :
        (j : String)
        → redis.get store (likes_key j) ≡ err redis_nil
        → (lookup text_dec j r ≡ lookup text_dec j result)
          × (is_one_of j ms ≡ (is_one_of j missed || is_one_of j ids))

  collect_lem :
      (store : redis.Store) (ids : List String) (result : Counts) (missed : List String)
      → Answers store
      → (r : Counts) × (ms : List String) × Collected store ids result missed r ms
  unfolding collect is_one_of
  collect_lem store [] result missed h = (
    result,
    missed,
    record { done = refl; found = λ j n e. ground arith; absent = λ j e. ground arith },
  )
  collect_lem store (id ∷ ids) result missed h = elim (h id) [
    | inl (m, e) ↦
        let (r, ms, c) = collect_lem store ids (insert_key text_dec id m result) missed h in
        (
          r,
          ms,
          record {
            done = rw (e, collect) c.done;
            found =
                λ j n g. ground (arith, e, g, c.found j n g, lookup-insert text_dec j id m result);
            absent =
                λ j g. ground (arith, e, g, c.absent j g, lookup-insert text_dec j id m result);
          },
        )
    | inr e ↦
        let (r, ms, c) = collect_lem store ids result (missed ++ (id ∷ [])) h in
        (
          r,
          ms,
          record {
            done = rw (e, collect) c.done;
            found = λ j n g. ground (arith, e, g, c.found j n g, is_one_of-append j id missed);
            absent = λ j g. ground (arith, e, g, c.absent j g, is_one_of-append j id missed);
          },
        )
  ]

  lookup-add_counts :
      (likes : Likes) (missed : List String) (result : Counts) (j : String)
      → is_valid_uuid j ≡ true
      → lookup text_dec j (add_counts (counted (λ id. answered) likes missed) result) ≡ (
          if is_one_of j missed
          then some (pos (length (likers j likes)))
          else lookup text_dec j result)
  unfolding counted is_one_of add_counts LikeRepo.count
  lookup-add_counts likes [] result j valid = refl
  lookup-add_counts likes (id ∷ missed) result j valid =
      let n = pos (length (likers id likes)) in
      ground (
        arith,
        valid,
        empty_not_valid,
        lookup-add_counts likes missed result j valid,
        lookup-add_counts likes missed (insert_key text_dec id n result) j valid,
        lookup-add_counts likes missed (insert_key text_dec id (pos 0) result) j valid,
        lookup-insert text_dec j id n result,
        lookup-insert text_dec j id (pos 0) result,
      )

  batch_count-fill :
      (s : LikeState redis) (id : String) (ids : List String)
      → Answers s.store
      → batch_count redis (λ i. answered) s (id ∷ ids)
        ≡ fill redis (λ i. answered) s (collect redis s.store (id ∷ ids) [] [])
  unfolding batch_count
  batch_count-fill s id ids h = elim (first_error-is_nil s.store (id ∷ ids) h) [
    | inl none_failed ↦ rw (none_failed, batch_count)
    | inr some_nil ↦ rw (some_nil, batch_count)
  ]

  -- The counts that the reads and the table give together.
  fill_counts : Likes → Counts → List String → Counts
  fill_counts likes r ms = add_counts (counted (λ i. answered) likes ms) r

  fill_lem :
      (s : LikeState redis) (r : Counts) (ms : List String)
      → ((fill redis (λ i. answered) s (ok (r, ms))).1 ≡ ok (fill_counts s.likes r ms))
        × ((fill redis (λ i. answered) s (ok (r, ms))).0.likes ≡ s.likes)
  unfolding fill fill_counts add_counts counted
  fill_lem s r [] = (refl, refl)
  fill_lem s r (m ∷ ms) = (refl, refl)

  Collected-count :
      (s : LikeState redis) (ids : List String) (r : Counts) (ms : List String) (j : String)
      → Collected s.store ids [] [] r ms
      → Answers s.store
      → is_one_of j ids ≡ true
      → is_valid_uuid j ≡ true
      → lookup text_dec j (fill_counts s.likes r ms) ≡ some (count_of s j)
  unfolding fill_counts count_of is_one_of lookup
  Collected-count s ids r ms j c h here valid = elim (h j) [
    | inl (n, e) ↦ ground (arith, here, e, c.found j n e, lookup-add_counts s.likes ms r j valid)
    | inr e ↦ ground (arith, here, e, c.absent j e, lookup-add_counts s.likes ms r j valid)
  ]

  -- When Redis answers every read, or has no counter, and the table answers: every post asked for
  -- whose id is a UUID has its count, from Redis if it has a counter and from the table if not;
  -- nothing of the table changes.
  pub batch_count_lem :
      (s : LikeState redis) (ids : List String)
      → Answers s.store
      → (counts : Counts) × ((batch_count redis (λ id. answered) s ids).1 ≡ ok counts)
        × ((batch_count redis (λ id. answered) s ids).0.likes ≡ s.likes)
        × ((j : String)
            → is_one_of j ids ≡ true
            → is_valid_uuid j ≡ true
            → lookup text_dec j counts ≡ some (count_of s j))
  unfolding batch_count fill is_one_of
  batch_count_lem s [] h = ([], refl, refl, λ j here valid. cc here)
  batch_count_lem s (id ∷ ids) h =
      let (r, ms, c) = collect_lem s.store (id ∷ ids) [] [] h in
      let filled = fill_lem s r ms in
      (
        fill_counts s.likes r ms,
        rw (batch_count-fill s id ids h, c.done) filled.0,
        rw (batch_count-fill s id ids h, c.done) filled.1,
        λ j here valid. Collected-count s (id ∷ ids) r ms j c h here valid,
      )
