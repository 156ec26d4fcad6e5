-- ===== src/Tests/Races.antt =====
-- Runs of likes at once, over the Redis that answers every call.
use feeds.Prelude.{
  answered, ◌+◌, ◌≡◌, ◌≢◌, sym, refl, ap, String, some, [], ◌∷◌, length, ne_of_test,
}
use feeds.Prelude.Int.{pos}
use feeds.Interaction.Uuid.{is_valid_uuid}
use feeds.Interaction.LikeRepo.{has_like, likers, insert_like}
use feeds.Interaction.LikeRepo
use feeds.Interaction.Redis.{RedisAnswers, effects, effect}
use feeds.Interaction.LikeStorage.{LikeState, likes_key, like_commands}
use feeds.Interaction.LikeStorage.Refines.{Mirrors}
use feeds.Interaction.LikeStorage.Races.{
  liking, Phase, checking, piping, storing, Request, Steps, arrives, advances, stop, go, advance,
  advance_request, left,
}
use feeds.Interaction.LikeStorage.Races.Settling.{IsAnswered, Apart, AreApart, Steps-Mirrors}
use feeds.Interaction.LikeStorage.Races.Twice.{double_like}
use feeds.Tests.Interaction.{
  read_counter, redis, laws, user, post, unliked, unliked-Mirrors, replies_of,
}

abbrev answers : RedisAnswers redis laws
answers = record {
  sismember-answers = λ s k m. refl;
  get-answers = λ s k n h. ap read_counter h;
  exec-answers = λ s cs. (replies_of cs s, refl);
}

abbrev friend : String
friend = "00000000-0000-4000-8000-00000000000b"

user-ne : user ≢ friend
user-ne = ne_of_test user friend refl

double_like_example :
    (s' : LikeState redis) × Steps redis post IsAnswered
      (λ x. Unit)
      (record { state = unliked; requests = [] })
      (record { state = s'; requests = [] })
    × ((laws.view s'.store).counter (likes_key post) ≡ some (pos (length (likers post []) + 2)))
    × (length (likers post s'.likes) ≡ length (likers post []) + 1)
unfolding is_valid_uuid has_like
double_like_example =
    double_like redis laws answers post user refl refl unliked unliked-Mirrors refl

abbrev wants : String → Phase → Request
wants user_id phase = record { user_id = user_id; kind = liking; phase = phase }

abbrev mine : Phase → Request
mine phase = wants user phase

abbrev theirs : Phase → Request
theirs phase = wants friend phase

abbrev friend_piped : LikeState redis
friend_piped = record unliked { store = effects (like_commands redis friend post) unliked.store }

abbrev both_piped : LikeState redis
both_piped = record unliked { store = effects (like_commands redis user post) friend_piped.store }

abbrev mine_stored : LikeState redis
mine_stored = record both_piped { likes = insert_like user post [] }

abbrev both_stored : LikeState redis
both_stored = record both_piped { likes = insert_like friend post mine_stored.likes }

mine-AreApart : (p q : Phase) → AreApart (mine p ∷ theirs q ∷ [])
unfolding is_valid_uuid
mine-AreApart p q = (refl, (user-ne, tt), (refl, tt, tt))

theirs-AreApart : (p q : Phase) → AreApart (theirs q ∷ mine p ∷ [])
unfolding is_valid_uuid
theirs-AreApart p q = (refl, ((λ e. user-ne (sym e)), tt), (refl, tt, tt))

-- Two users like the post at once: each checks, the friend's pipeline goes first, and the friend's
-- INSERT last.
both_like :
    Steps redis post IsAnswered
      (Apart redis post)
      (record { state = unliked; requests = [] })
      (record { state = both_stored; requests = [] })
unfolding advance_request advance left effects effect insert_like is_valid_uuid LikeRepo.insert
both_like = go tt (arrives unliked [] user liking) (
    go (refl, tt, tt) (arrives unliked (mine checking ∷ []) friend liking)
      (go (theirs-AreApart checking checking)
        (advances answered unliked [] (mine checking ∷ []) (theirs checking) refl)
        (go (theirs-AreApart checking piping)
          (advances answered unliked (theirs piping ∷ []) [] (mine checking) refl)
          (go (mine-AreApart piping piping)
            (advances answered unliked (mine piping ∷ []) [] (theirs piping) refl)
            (go (theirs-AreApart piping storing)
              (advances answered friend_piped (theirs storing ∷ []) [] (mine piping) refl)
              (go (mine-AreApart storing storing)
                (advances answered both_piped [] (theirs storing ∷ []) (mine storing) refl)
                (go (refl, tt, tt) (advances answered mine_stored [] [] (theirs storing) refl)
                  (stop _ tt))))))))

Steps-Mirrors_example : Mirrors redis laws post both_stored
unfolding is_valid_uuid
Steps-Mirrors_example =
    Steps-Mirrors redis laws answers post refl unliked both_stored unliked-Mirrors both_like
