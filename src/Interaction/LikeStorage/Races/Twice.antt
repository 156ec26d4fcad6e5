-- ===== src/Interaction/LikeStorage/Races/Twice.antt =====
-- Two likes of one user at once: both may see that the user does not like the post yet.
use mathlib.Core.Path.{subst}
use feeds.Interaction.LikeStorage.Races.Settling.{IsAnswered}
use feeds.Prelude.{
  answered, ◌+◌, ◌≡◌, refl, ◌∙◌, ap, String, true, false, Option, none, some, List, [], ◌∷◌, ◌++◌,
  ok, length, arith,
}
use feeds.Prelude.Int.{ℤ, pos, suc_ℤ}
use feeds.Interaction.Uuid.{is_valid_uuid}
use feeds.Interaction.LikeRepo
use feeds.Interaction.LikeRepo.{Likes, has_like, likers, insert_like}
use feeds.Interaction.LikeRepo.Rows.{has_like-add, length-likers-add}
use feeds.Interaction.Redis.{RedisClient, RedisLaws, RedisAnswers, View, effects}
use feeds.Interaction.LikeStorage.{LikeState, likes_key, liked_by_key, like_commands}
use feeds.Interaction.LikeStorage.Refines.{Mirrors}
use feeds.Interaction.LikeStorage.Races.{
  liking, Phase, checking, piping, storing, Request, Step, arrives, advances, Steps, stop, go,
  advance, advance_request, left, change, check, pipe,
}

module _ (redis : RedisClient) (laws : RedisLaws redis) (answers : RedisAnswers redis laws)
    (feed_id user_id : String) (valid_feed : is_valid_uuid feed_id ≡ true)
    (valid_user : is_valid_uuid user_id ≡ true) where
  open laws use {view}

  a_like : Phase → Request
  a_like phase = record { user_id = user_id; kind = liking; phase = phase }

  -- A phase whose outcome is known, as a step.
  moves :
      (s s' : LikeState redis) (before after : List Request) (phase : Phase) (next : Option Phase)
      → advance redis feed_id answered s user_id liking phase ≡ (s', next)
      → Step redis feed_id IsAnswered
          (record { state = s; requests = before ++ (a_like phase ∷ after) })
          (record { state = s'; requests = left (a_like phase) next ++ (before ++ after) })
  unfolding advance_request a_like
  moves s s' before after phase next e =
      subst
        (λ (p : LikeState redis × Option Phase).
          Step redis feed_id IsAnswered
            (record { state = s; requests = before ++ (a_like phase ∷ after) })
            (record { state = p.0; requests = left (a_like phase) p.1 ++ (before ++ after) }))
        e (advances answered s before after (a_like phase) refl)

  module _ (s : LikeState redis) where
    piped : LikeState redis
    piped = record s { store = (redis.exec s.store (like_commands redis user_id feed_id)).0 }

    stored : LikeState redis
    stored = record s { likes = insert_like user_id feed_id s.likes }

    checks :
        (view s.store).member (liked_by_key feed_id) user_id ≡ false
        → advance redis feed_id answered s user_id liking checking ≡ (s, some piping)
    unfolding advance check
    checks new =
        let seen = answers.sismember-answers s.store (liked_by_key feed_id) user_id ∙ ap ok new in
        rw seen refl

    pipes : advance redis feed_id answered s user_id liking piping ≡ (piped, some storing)
    unfolding advance pipe piped
    pipes =
        let (replies, e) = answers.exec-answers s.store (like_commands redis user_id feed_id) in
        rw (e, pipe) refl

    stores : advance redis feed_id answered s user_id liking storing ≡ (stored, none)
    unfolding advance change stored LikeRepo.insert
    stores = ground (arith, valid_user, valid_feed)

    piped_counter :
        (n : ℤ)
        → (view s.store).counter (likes_key feed_id) ≡ some n
        → (view piped.store).counter (likes_key feed_id) ≡ some (suc_ℤ n)
    unfolding piped effects
    piped_counter n before =
        let commands = like_commands redis user_id feed_id in
        let (replies, e) = answers.exec-answers s.store commands in
        ap (λ (v : View). v.counter (likes_key feed_id)) (laws.exec-view s.store commands replies e)
        ∙ ground (arith, before)

  -- Redis answers every command and the database every statement, and Redis mirrors the likes of a post, which a user does not like, and the
  -- ids of both are UUIDs: two requests of the user to like it can run so that the counter ends at
  -- two more than the number of likes before them, and the table at one more.
  pub double_like :
      (s : LikeState redis)
      → Mirrors redis laws feed_id s
      → has_like user_id feed_id s.likes ≡ false
      → (s' : LikeState redis) × Steps redis feed_id IsAnswered
          (λ x. Unit)
          (record { state = s; requests = [] })
          (record { state = s'; requests = [] })
        × ((view s'.store).counter (likes_key feed_id)
            ≡ some (pos (length (likers feed_id s.likes) + 2)))
        × (length (likers feed_id s'.likes) ≡ length (likers feed_id s.likes) + 1)
  unfolding left a_like piped stored insert_like suc_ℤ
  double_like s mirrors new =
      let absent = mirrors.listed user_id ∙ new in
      let s₂ = piped (piped s) in
      (
        stored (stored s₂),
        go tt (arrives s [] user_id liking) (
            go tt (arrives s (a_like checking ∷ []) user_id liking) (
              go tt (moves s s [] (a_like checking ∷ []) checking _ (checks s absent)) (
                go tt (moves s s (a_like piping ∷ []) [] checking _ (checks s absent)) (
                  go tt (moves s _ [] (a_like piping ∷ []) piping _ (pipes s)) (
                    go tt (moves (piped s) _ (a_like storing ∷ []) [] piping _ (pipes (piped s))) (
                      go tt (moves s₂ _ [] (a_like storing ∷ []) storing _ (stores s₂)) (
                        go tt (moves (stored s₂) _ [] [] storing _ (stores (stored s₂)))
                          (stop _ tt)))))))),
        piped_counter (piped s) _ (piped_counter s _ mirrors.counted)
            ∙ ap (λ k. some (pos k)) (omega arith),
        ground (
          arith,
          new,
          has_like-add user_id feed_id user_id feed_id s.likes,
          length-likers-add user_id feed_id s.likes,
        ),
      )
