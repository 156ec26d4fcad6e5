-- ===== src/Interaction/LikeStorage/Races/Phases.antt =====
-- One phase of a request, while the counter and the set in Redis mirror the table that there will be
-- once the requests under way have done their statements.
use feeds.Prelude.{
  ◌≡◌, ◌≢◌, refl, sym, ◌∙◌, ap, String, Bool, true, false, not, Option, none, some, ok, answered,
  arith,
}
use feeds.Interaction.Uuid.{is_valid_uuid}
use feeds.Interaction.LikeRepo
use feeds.Interaction.LikeRepo.{Likes, has_like, likers, insert_like, delete_like}
use feeds.Interaction.LikeRepo.Rows.{
  IsKeyed, has_like-add, insert_like-IsKeyed, has_like-delete, delete_like-IsKeyed,
}
use feeds.Interaction.Redis.{RedisClient, RedisLaws, RedisAnswers}
use feeds.Interaction.LikeStorage.{LikeState, liked_by_key, like_commands, unlike_commands}
use feeds.Interaction.LikeStorage.Refines.{
  Mirrors, after_like, after_unlike, after_like-Mirrors, after_unlike-Mirrors, count_warm,
}
use feeds.Interaction.LikeStorage.Races.{
  Kind, liking, unliking, Phase, checking, counting, piping, clamping, storing, advance, change,
  check, pipe, reset_or_store,
}

-- Whether the user likes the post before the request.
abbrev pub held : Kind → Bool
held liking = false
held unliking = true

-- What a request under way says of its user's row in the table, and of the one to be.
abbrev pub Fits : Kind → Option Phase → Bool → Bool → Type 0
Fits kind none row cached = row ≡ cached
Fits kind (some checking) row cached = row ≡ cached
Fits kind (some counting) row cached = row ≡ cached
Fits kind (some piping) row cached = (row ≡ held kind) × (cached ≡ held kind)
Fits kind (some clamping) row cached = ⊥
Fits kind (some storing) row cached = (row ≡ held kind) × (cached ≡ not (held kind))

module _ (feed_id : String) where
  -- Tables that differ at most in this user's row for the post.
  abbrev pub Elsewhere : String → Likes → Likes → Type 0
  Elsewhere user_id likes likes' =
      (u : String) → u ≢ user_id → has_like u feed_id likes' ≡ has_like u feed_id likes

  insert_like-Elsewhere :
      (user_id : String) (likes : Likes)
      → Elsewhere user_id likes (insert_like user_id feed_id likes)
  unfolding insert_like
  insert_like-Elsewhere user_id likes u other = ground (
    arith,
    other,
    λ (e : user_id ≡ u). other (sym e),
    has_like-add user_id feed_id u feed_id likes,
  )

  delete_like-Elsewhere :
      (user_id : String) (likes : Likes)
      → Elsewhere user_id likes (delete_like user_id feed_id likes)
  delete_like-Elsewhere user_id likes u other =
      ground (arith, other, has_like-delete user_id feed_id u feed_id likes)

  insert_like_has :
      (user_id : String) (likes : Likes)
      → has_like user_id feed_id (insert_like user_id feed_id likes) ≡ true
  unfolding insert_like
  insert_like_has user_id likes = ground (arith, has_like-add user_id feed_id user_id feed_id likes)

  delete_like_has :
      (user_id : String) (likes : Likes)
      → has_like user_id feed_id (delete_like user_id feed_id likes) ≡ false
  delete_like_has user_id likes =
      ground (arith, has_like-delete user_id feed_id user_id feed_id likes)

module _ (redis : RedisClient) (laws : RedisLaws redis) (answers : RedisAnswers redis laws)
    (feed_id : String) (valid_feed : is_valid_uuid feed_id ≡ true) where
  -- Redis mirrors this table.
  abbrev pub Caches : LikeState redis → Likes → Type 0
  Caches s cached = Mirrors redis laws feed_id (record s { likes = cached })

  module _ (user_id : String) where
    -- After a phase: Redis mirrors a table to be that has changed for this user at most, as the table
    -- has, and what the request does next fits.
    pub record Advanced (s s' : LikeState redis) (cached : Likes) (kind : Kind)
        (next : Option Phase) : Type 0 where
      pub to_be : Likes
      pub caches : Caches s' to_be
      pub cached_elsewhere : Elsewhere feed_id user_id cached to_be
      pub keyed : IsKeyed s'.likes
      pub rows_elsewhere : Elsewhere feed_id user_id s.likes s'.likes
      pub fits : Fits kind next (has_like user_id feed_id s'.likes) (has_like user_id feed_id to_be)

    module _ (valid_user : is_valid_uuid user_id ≡ true) (s : LikeState redis) (cached : Likes)
        (caches : Caches s cached) (keyed : IsKeyed s.likes) where
      abbrev pub row : Bool
      row = has_like user_id feed_id s.likes

      abbrev pub in_cache : Bool
      in_cache = has_like user_id feed_id cached

      unfoldable pub After : Kind → Phase → Type 0
      unfolding advance
      After kind phase =
          let (s', next) = advance redis feed_id answered s user_id kind phase in
          Advanced s s' cached kind next

      still :
          (kind : Kind) (next : Option Phase)
          → Fits kind next row in_cache
          → Advanced s s cached kind next
      still kind next fits = record {
        to_be = cached;
        caches = caches;
        cached_elsewhere = λ u other. refl;
        keyed = keyed;
        rows_elsewhere = λ u other. refl;
        fits = fits;
      }

      check-Fits :
          (kind : Kind) (b : Bool)
          → row ≡ in_cache
          → in_cache ≡ b
          → Fits kind (some (check kind b)) row in_cache
      unfolding check
      check-Fits liking true same e = same
      check-Fits liking false same e = (same ∙ e, e)
      check-Fits unliking true same e = (same ∙ e, e)
      check-Fits unliking false same e = same

      checked : (kind : Kind) → row ≡ in_cache → After kind checking
      unfolding After
      checked kind same =
          let seen =
            answers.sismember-answers s.store (liked_by_key feed_id) user_id
            ∙ ap ok (caches.listed user_id) in
          rw seen (still kind _ (check-Fits kind in_cache same refl))

      counted : (kind : Kind) → row ≡ in_cache → After kind counting
      unfolding After
      counted kind same =
          let got = answers.get-answers s.store _ _ caches.counted in
          rw (count_warm redis laws feed_id user_id valid_user valid_feed s answered got)
            (still kind none same)

      piped : (kind : Kind) → row ≡ held kind → in_cache ≡ held kind → After kind piping
      unfolding After pipe reset_or_store after_like after_unlike
      piped liking old old' =
          let s' = record s { likes = cached } in
          let (replies, e) = answers.exec-answers s.store (like_commands redis user_id feed_id) in
          let (mirrors, total, has) =
            after_like-Mirrors redis laws feed_id user_id valid_user valid_feed s' caches old' e in
          rw (e, pipe)
            (record {
              to_be = insert_like user_id feed_id cached;
              caches = mirrors;
              cached_elsewhere = insert_like-Elsewhere feed_id user_id cached;
              keyed = keyed;
              rows_elsewhere = λ u other. refl;
              fits = (old, has);
            })
      piped unliking old old' =
          let s' = record s { likes = cached } in
          let (replies, e) = answers.exec-answers s.store (unlike_commands redis user_id feed_id) in
          let (mirrors, total, has) =
            after_unlike-Mirrors redis laws feed_id user_id valid_user valid_feed s' caches old'
              e in
          rw (e, pipe, total)
            (record {
              to_be = delete_like user_id feed_id cached;
              caches = mirrors;
              cached_elsewhere = delete_like-Elsewhere feed_id user_id cached;
              keyed = keyed;
              rows_elsewhere = λ u other. refl;
              fits = (old, has);
            })

      change_lem :
          (kind : Kind)
          → change answered feed_id user_id kind s.likes ≡ elim kind [
            | liking ↦ insert_like user_id feed_id s.likes
            | unliking ↦ delete_like user_id feed_id s.likes
          ]
      unfolding change LikeRepo.insert LikeRepo.delete
      change_lem liking = ground (arith, valid_user, valid_feed)
      change_lem unliking = ground (arith, valid_user, valid_feed)

      stored : (kind : Kind) → row ≡ held kind → in_cache ≡ not (held kind) → After kind storing
      unfolding After
      stored liking old new = rw (change_lem liking) (record {
        to_be = cached;
        caches = caches;
        cached_elsewhere = λ u other. refl;
        keyed = insert_like-IsKeyed user_id feed_id s.likes keyed;
        rows_elsewhere = insert_like-Elsewhere feed_id user_id s.likes;
        fits = insert_like_has feed_id user_id s.likes ∙ sym new;
      })
      stored unliking old new = rw (change_lem unliking) (record {
        to_be = cached;
        caches = caches;
        cached_elsewhere = λ u other. refl;
        keyed = delete_like-IsKeyed user_id feed_id s.likes keyed;
        rows_elsewhere = delete_like-Elsewhere feed_id user_id s.likes;
        fits = delete_like_has feed_id user_id s.likes ∙ sym new;
      })

      -- A phase of a request that fits leaves one that fits.
      pub advance-Advanced :
          (kind : Kind) (phase : Phase) → Fits kind (some phase) row in_cache → After kind phase
      advance-Advanced kind checking fits = checked kind fits
      advance-Advanced kind counting fits = counted kind fits
      advance-Advanced kind piping fits = piped kind fits.0 fits.1
      advance-Advanced kind clamping fits = absurd fits
      advance-Advanced kind storing fits = stored kind fits.0 fits.1
