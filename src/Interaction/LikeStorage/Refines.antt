-- ===== src/Interaction/LikeStorage/Refines.antt =====
-- While the counter and the set of a post are in Redis, the like storage is the table of likes.
use feeds.Prelude.{
  ℕ, ◌+◌, ◌≡◌, refl, sym, ◌∙◌, ap, ◌⊎◌, inl, inr, String, Bool, true, false, none, some, List, ok,
  err, Outcome, answered, arith, length, Result-cases, suc, Error, redis_nil, no_rows,
}
use feeds.Prelude.Int.{ℤ, pos, suc_ℤ, pred_ℤ}
use feeds.Interaction.Uuid.{is_valid_uuid}
use feeds.Interaction.LikeRepo
use feeds.Interaction.LikeRepo.{Likes, has_like, likers, insert_like, delete_like}
use feeds.Interaction.LikeRepo.Rows.{
  IsKeyed, has_like-add, length-likers-add, insert_like-IsKeyed, has_like-delete,
  delete_like-IsKeyed, length-likers-delete,
}
use feeds.Interaction.Redis.{RedisClient, RedisLaws, View, effects, first_reply}
use feeds.Interaction.LikeStorage.{
  LikeState, likes_key, liked_by_key, like_commands, unlike_commands, like, unlike, count, is_liked,
  is_nil,
}

module _ (redis : RedisClient) (laws : RedisLaws redis) (feed_id : String) where
  open laws use {view}

  -- The counter of the post is the number of its likes, and its set holds the users who like it.
  pub record Mirrors (s : LikeState redis) : Type 0 where
    pub keyed : IsKeyed s.likes
    pub counted :
        (view s.store).counter (likes_key feed_id) ≡ some (pos (length (likers feed_id s.likes)))
    pub listed :
        (u : String) → (view s.store).member (liked_by_key feed_id) u ≡ has_like u feed_id s.likes

  module _ (user_id : String) (valid_user : is_valid_uuid user_id ≡ true)
      (valid_feed : is_valid_uuid feed_id ≡ true) (s : LikeState redis) where
    unfoldable pub after_like : LikeState redis
    after_like = record s {
      store = (redis.exec s.store (like_commands redis user_id feed_id)).0;
      likes = insert_like user_id feed_id s.likes;
    }

    unfoldable pub after_unlike : LikeState redis
    after_unlike = record s {
      store = (redis.exec s.store (unlike_commands redis user_id feed_id)).0;
      likes = delete_like user_id feed_id s.likes;
    }

    pub count_warm :
        {n : ℤ} (outcome : Outcome)
        → redis.get s.store (likes_key feed_id) ≡ ok n
        → count redis outcome s feed_id ≡ (s, ok n)
    unfolding count
    count_warm outcome got = rw (got, count)

    like_computes :
        {replies : List ℤ}
        → redis.sismember s.store (liked_by_key feed_id) user_id ≡ ok false
        → (redis.exec s.store (like_commands redis user_id feed_id)).1 ≡ ok replies
        → like redis answered s user_id feed_id ≡ (after_like, ok (first_reply replies))
    unfolding like after_like LikeRepo.insert
    like_computes seen done = ground (arith, seen, done, valid_user, valid_feed)

    unlike_computes :
        {replies : List ℤ} (n : ℕ)
        → redis.sismember s.store (liked_by_key feed_id) user_id ≡ ok true
        → (redis.exec s.store (unlike_commands redis user_id feed_id)).1 ≡ ok replies
        → first_reply replies ≡ pos n
        → unlike redis answered s user_id feed_id ≡ (after_unlike, ok (pos n))
    unfolding unlike after_unlike LikeRepo.delete
    unlike_computes n seen done e = ground (arith, seen, done, e, valid_user, valid_feed)

    pub after_like-Mirrors :
        {replies : List ℤ}
        → Mirrors s
        → has_like user_id feed_id s.likes ≡ false
        → (redis.exec s.store (like_commands redis user_id feed_id)).1 ≡ ok replies
        → Mirrors after_like
          × (first_reply replies ≡ pos (length (likers feed_id after_like.likes)))
          × (has_like user_id feed_id after_like.likes ≡ true)
    unfolding after_like insert_like effects suc_ℤ
    after_like-Mirrors {replies} mirrors new done =
        let commands = like_commands redis user_id feed_id in
        let seen : view after_like.store ≡ effects commands (view s.store) =
          laws.exec-view s.store commands replies done in
        let grown = length-likers-add user_id feed_id s.likes in
        (
          record {
            keyed = insert_like-IsKeyed user_id feed_id s.likes mirrors.keyed;
            counted =
                ap (λ (v : View). v.counter (likes_key feed_id)) seen
                ∙ ground (arith, mirrors.counted, new, grown);
            listed = λ u.
                ap (λ (v : View). v.member (liked_by_key feed_id) u) seen
                ∙ ground
                    (arith, mirrors.listed u, new, has_like-add user_id feed_id u feed_id s.likes);
          },
          laws.incr-reply s.store _ _ replies done ∙ ground (arith, mirrors.counted, new, grown),
          ground (arith, new, has_like-add user_id feed_id user_id feed_id s.likes),
        )

    pub after_unlike-Mirrors :
        {replies : List ℤ}
        → Mirrors s
        → has_like user_id feed_id s.likes ≡ true
        → (redis.exec s.store (unlike_commands redis user_id feed_id)).1 ≡ ok replies
        → Mirrors after_unlike
          × (first_reply replies ≡ pos (length (likers feed_id after_unlike.likes)))
          × (has_like user_id feed_id after_unlike.likes ≡ false)
    unfolding after_unlike effects pred_ℤ
    after_unlike-Mirrors {replies} mirrors old done =
        let commands = unlike_commands redis user_id feed_id in
        let seen : view after_unlike.store ≡ effects commands (view s.store) =
          laws.exec-view s.store commands replies done in
        let shrunk = length-likers-delete user_id feed_id s.likes mirrors.keyed old in
        let n = length (likers feed_id (delete_like user_id feed_id s.likes)) in
        let before : (view s.store).counter (likes_key feed_id) ≡ some (pos (suc n)) =
          mirrors.counted ∙ ap (λ k. some (pos k)) (omega arith) in
        (
          record {
            keyed = delete_like-IsKeyed user_id feed_id s.likes mirrors.keyed;
            counted =
                ap (λ (v : View). v.counter (likes_key feed_id)) seen ∙ ground (arith, before);
            listed = λ u.
                ap (λ (v : View). v.member (liked_by_key feed_id) u) seen
                ∙ ground
                    (arith, mirrors.listed u, has_like-delete user_id feed_id u feed_id s.likes);
          },
          laws.decr-reply s.store _ _ replies done ∙ ground (arith, before),
          ground (arith, has_like-delete user_id feed_id user_id feed_id s.likes),
        )

    -- For a user and a post whose ids are UUIDs, while Redis mirrors the post's likes and Redis
    -- and the database answer: whether the user liked the post before or not, after `Like` the
    -- table has the row, the answer is the number of likes, and Redis still mirrors the table.
    pub like-Mirrors :
        (b : Bool) (n : ℤ) (replies : List ℤ)
        → Mirrors s
        → redis.sismember s.store (liked_by_key feed_id) user_id ≡ ok b
        → redis.get s.store (likes_key feed_id) ≡ ok n
        → (redis.exec s.store (like_commands redis user_id feed_id)).1 ≡ ok replies
        → let (s', answer) = like redis answered s user_id feed_id in
          Mirrors s'
          × (s'.likes ≡ insert_like user_id feed_id s.likes)
          × (answer ≡ ok (pos (length (likers feed_id s'.likes))))
          × (has_like user_id feed_id s'.likes ≡ true)
    unfolding like insert_like after_like
    like-Mirrors true n replies mirrors seen got done =
        let old = sym (mirrors.listed user_id) ∙ laws.sismember-view s.store _ user_id true seen in
        let same : like redis answered s user_id feed_id ≡ (s, ok n) =
          ground (arith, seen, count_warm answered got) in
        let total : some n ≡ some (pos (length (likers feed_id s.likes))) =
          sym (laws.get-view s.store _ n got) ∙ mirrors.counted in
        rw same (mirrors, ground (arith, old), ground (arith, total), old)
    like-Mirrors false n replies mirrors seen got done =
        let new = sym (mirrors.listed user_id) ∙ laws.sismember-view s.store _ user_id false seen in
        let (mirrors', total, held) = after_like-Mirrors mirrors new done in
        rw (like_computes seen done) (mirrors', refl, ap ok total, held)

    -- For a user and a post whose ids are UUIDs, while Redis mirrors the post's likes and Redis
    -- and the database answer: after `Unlike` the table has the row no more, the answer is the
    -- number of likes, and Redis still mirrors the table.
    pub unlike-Mirrors :
        (b : Bool) (n : ℤ) (replies : List ℤ)
        → Mirrors s
        → redis.sismember s.store (liked_by_key feed_id) user_id ≡ ok b
        → redis.get s.store (likes_key feed_id) ≡ ok n
        → (redis.exec s.store (unlike_commands redis user_id feed_id)).1 ≡ ok replies
        → let (s', answer) = unlike redis answered s user_id feed_id in
          Mirrors s'
          × (answer ≡ ok (pos (length (likers feed_id s'.likes))))
          × (has_like user_id feed_id s'.likes ≡ false)
    unfolding unlike
    unlike-Mirrors false n replies mirrors seen got done =
        let new = sym (mirrors.listed user_id) ∙ laws.sismember-view s.store _ user_id false seen in
        let same : unlike redis answered s user_id feed_id ≡ (s, ok n) =
          ground (arith, seen, count_warm answered got) in
        let total : some n ≡ some (pos (length (likers feed_id s.likes))) =
          sym (laws.get-view s.store _ n got) ∙ mirrors.counted in
        rw same (mirrors, ground (arith, total), new)
    unlike-Mirrors true n replies mirrors seen got done =
        let old = sym (mirrors.listed user_id) ∙ laws.sismember-view s.store _ user_id true seen in
        let (mirrors', total, gone) = after_unlike-Mirrors mirrors old done in
        rw (unlike_computes _ seen done total) (mirrors', refl, gone)

nil_or_not : (e : Error) → (e ≡ redis_nil) ⊎ (is_nil e ≡ false)
nil_or_not redis_nil = inl refl
nil_or_not no_rows = inr refl
nil_or_not e = inr refl

module _ (redis : RedisClient) (laws : RedisLaws redis) (user_id feed_id : String)
    (s : LikeState redis) where
  -- For a user and a post whose ids are UUIDs, a like that neither the set nor the table has, and
  -- a pipeline that Redis answers: `Like` on a post whose counter has expired answers 1 and puts 1
  -- under the key, however many likes the table has, which has one more.
  pub like_cold :
      (valid : (is_valid_uuid user_id ≡ true) × (is_valid_uuid feed_id ≡ true)) (replies : List ℤ)
      → (laws.view s.store).counter (likes_key feed_id) ≡ none
      → redis.sismember s.store (liked_by_key feed_id) user_id ≡ ok false
      → has_like user_id feed_id s.likes ≡ false
      → (redis.exec s.store (like_commands redis user_id feed_id)).1 ≡ ok replies
      → let (s', answer) = like redis answered s user_id feed_id in
        (answer ≡ ok (pos 1))
        × ((laws.view s'.store).counter (likes_key feed_id) ≡ some (pos 1))
        × (length (likers feed_id s'.likes) ≡ length (likers feed_id s.likes) + 1)
  unfolding effects suc_ℤ insert_like after_like
  like_cold (valid_user, valid_feed) replies cold seen new done =
      let commands = like_commands redis user_id feed_id in
      rw (like_computes redis laws feed_id user_id valid_user valid_feed s seen done) (
        ap ok (laws.incr-reply s.store _ _ replies done ∙ ground (arith, cold)),
        ap (λ (v : View). v.counter (likes_key feed_id))
              (laws.exec-view s.store commands replies done)
            ∙ ground (arith, cold),
        ground (arith, new, length-likers-add user_id feed_id s.likes),
      )

  -- SISMEMBER answers 0 for an expired set, so `IsLiked` never rebuilds one: it leaves the state
  -- alone, and a successful answer is what the set says, whatever the table says.
  pub is_liked_ignores_table :
      (listing reading : Outcome)
      → let (s', answer) = is_liked redis listing reading s user_id feed_id in
        (s' ≡ s)
        × ((b : Bool)
            → answer ≡ ok b
            → b ≡ (laws.view s.store).member (liked_by_key feed_id) user_id)
  unfolding is_liked
  is_liked_ignores_table listing reading =
      elim (Result-cases (redis.sismember s.store (liked_by_key feed_id) user_id)) [
        | inl (b, e) ↦
            rw (e, is_liked)
              (refl, λ c h. ground (arith, h, laws.sismember-view s.store _ user_id b e))
        | inr (x, e) ↦ elim (nil_or_not x) [
          | inl nil ↦
              absurd (laws.sismember-ne-nil s.store (liked_by_key feed_id) user_id (e ∙ ap err nil))
          | inr other ↦ rw (e, is_liked, other) (refl, λ c h. cc)
        ]
      ]
