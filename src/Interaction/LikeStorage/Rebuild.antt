-- ===== src/Interaction/LikeStorage/Rebuild.antt =====
-- The pipelines that rebuild a set of likers.
use feeds.Prelude.{
  ℕ, zero, suc, ◌≤◌, ◌<◌, ◌≡◌, refl, sym, String, List, [], ◌∷◌, ◌++◌, arith, length, take, drop,
  take-append-drop, take_of_length-le, length-take, length-drop, Bool-cases, inl, inr, leb,
}
use feeds.Interaction.Redis.{RedisClient, Command, sadd, expire}
use feeds.Interaction.LikeStorage.{rebuild_batches, batch_size, like_ttl, rebuild_ttl}

-- The batches that put these members under the key: a batch of 1,000 with the short time to live
-- each, then a last one of at most 1,000 with the full time to live.
pub data Batches (key : String) : List String → List (List Command) → Type 0 where
  nothing : Batches key [] []
  final :
      (members : List String)
      → 0 < length members
      → length members ≤ 1000
      → Batches key members ((sadd key members ∷ expire key like_ttl ∷ []) ∷ [])
  partial :
      (members : List String) {user_ids all : List String} {batches : List (List Command)}
      → length members ≡ 1000
      → 0 < length user_ids
      → all ≡ members ++ user_ids
      → Batches key user_ids batches
      → Batches key all ((sadd key members ∷ expire key rebuild_ttl ∷ []) ∷ batches)

module _ {ℓ} {A : Type ℓ} where
  drop_all : (n : ℕ) (xs : List A) → length xs ≤ n → drop n xs ≡ []
  drop_all zero [] h = refl
  drop_all zero (x ∷ xs) h = absurd (omega arith)
  drop_all (suc n) [] h = refl
  drop_all (suc n) (x ∷ xs) h = drop_all n xs (omega arith)

  full_take : (n : ℕ) (xs : List A) → n < length xs → length (take n xs) ≡ n
  full_take n xs h = omega (arith, length-take n xs)

  some_left : (n : ℕ) (xs : List A) → n < length xs → 0 < length (drop n xs)
  some_left n xs h = omega (arith, length-drop n xs)

module _ (redis : RedisClient) where
  rebuild_none : (rounds : ℕ) (key : String) → rebuild_batches redis rounds key [] ≡ []
  unfolding rebuild_batches
  rebuild_none zero key = refl
  rebuild_none (suc rounds) key = refl

  -- With as many rounds as there are likers, the batches hold every liker exactly once, in order, and
  -- only the last gets the full time to live.
  pub rebuild_batches-Batches :
      (rounds : ℕ) (key : String) (user_ids : List String)
      → length user_ids ≤ rounds
      → Batches key user_ids (rebuild_batches redis rounds key user_ids)
  unfolding rebuild_batches
  rebuild_batches-Batches zero key [] h = nothing
  rebuild_batches-Batches zero key (u ∷ us) h = absurd (omega arith)
  rebuild_batches-Batches (suc rounds) key [] h = nothing
  rebuild_batches-Batches (suc rounds) key (u ∷ us) h =
      elim (Bool-cases (leb (length (u ∷ us)) batch_size)) [
        | inl fits ↦
            rw
              (
                fits,
                drop_all batch_size (u ∷ us) (ground arith),
                rebuild_none rounds key,
                take_of_length-le batch_size (u ∷ us) (ground arith),
              )
              (final (u ∷ us) (omega arith) (ground arith))
        | inr more ↦ rw more (
            partial (take batch_size (u ∷ us)) (full_take batch_size (u ∷ us) (ground arith))
              (some_left batch_size (u ∷ us) (ground arith))
              (sym (take-append-drop batch_size (u ∷ us)))
              (rebuild_batches-Batches rounds key (drop batch_size (u ∷ us))
                (omega (arith, length-drop batch_size (u ∷ us)))))
      ]
