-- ===== src/Interaction/LikeStorage/Races/Alone.antt =====
-- A request with no other in between is the method.
use feeds.Prelude.{
  ◌≡◌, String, ℕ, zero, suc, Option, none, some, Outcome, Bool-cases, Result-cases, inl, inr, arith,
}
use feeds.Prelude.Int.{ℤ-cases}
use feeds.Interaction.Redis.{RedisClient, first_reply}
use feeds.Interaction.LikeStorage.{
  LikeState, liked_by_key, like_commands, unlike_commands, like, unlike, like_new, unlike_old, val,
}
use feeds.Interaction.LikeStorage.Races.{Kind, liking, unliking, Phase, checking, advance}

module _ (redis : RedisClient) (feed_id user_id : String) where
  -- The phases of a request, of which there are at most as many as fuel.
  alone : Outcome → ℕ → LikeState redis → Kind → Phase → LikeState redis × Option Phase
  unfolding advance
  alone outcome zero s kind phase = (s, some phase)
  alone outcome (suc fuel) s kind phase =
      let (s', next) = advance redis feed_id outcome s user_id kind phase in
      elim next [ none ↦ (s', none) | some phase' ↦ alone outcome fuel s' kind phase' ]

  -- The phases of a `Like` are the method, whatever Redis and the database answer.
  like_alone :
      (outcome : Outcome) (s : LikeState redis)
      → alone outcome 4 s liking checking ≡ ((like redis outcome s user_id feed_id).0, none)
  unfolding alone like like_new
  like_alone outcome s =
      elim (Bool-cases (val (redis.sismember s.store (liked_by_key feed_id) user_id))) [
        | inl old ↦ ground (arith, old)
        | inr new ↦
            elim (Result-cases (redis.exec s.store (like_commands redis user_id feed_id)).1) [
              | inl (replies, e) ↦ ground (arith, new, e)
              | inr (error, e) ↦ ground (arith, new, e)
            ]
      ]

  -- And so for `Unlike`.
  unlike_alone :
      (outcome : Outcome) (s : LikeState redis)
      → alone outcome 4 s unliking checking ≡ ((unlike redis outcome s user_id feed_id).0, none)
  unfolding alone unlike unlike_old
  unlike_alone outcome s =
      elim (Bool-cases (val (redis.sismember s.store (liked_by_key feed_id) user_id))) [
        | inr new ↦ ground (arith, new)
        | inl old ↦
            elim (Result-cases (redis.exec s.store (unlike_commands redis user_id feed_id)).1) [
              | inr (error, e) ↦ ground (arith, old, e)
              | inl (replies, e) ↦ elim (ℤ-cases (first_reply replies)) [
                | inl (n, sign) ↦ ground (arith, old, e, sign)
                | inr (n, sign) ↦ ground (arith, old, e, sign)
              ]
            ]
      ]
