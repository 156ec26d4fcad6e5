-- ===== src/Interaction/Service/Events.antt =====
-- The events of the likes.
use feeds.Prelude.{
  ◌≡◌, ◌⊎◌, inl, inr, refl, String, true, List, [], ◌∷◌, ◌++◌, Error, ok, err, Outcome, Result,
}
use feeds.Prelude.Int.{ℤ}
use feeds.Interaction.Redis.{RedisClient}
use feeds.Interaction.LikeStorage.{LikeState, like as storage_like, unlike as storage_unlike}
use feeds.Interaction.Service.{ServiceState, LikeEvent, LikeResp, like, unlike, announce}

module _ (redis : RedisClient) where
  -- One event for a success, none for an error, and the storage's own state and answer.
  pub Announces :
      String
      → String
      → String
      → List LikeEvent
      → LikeState redis × Result ℤ
      → ServiceState redis × Result LikeResp
      → Type 0
  Announces topic user_id post_id events (storage, answer) (s', resp) =
      (s'.storage ≡ storage)
      × (((count : ℤ) × (answer ≡ ok count)
            × (resp ≡ ok (record { success = true; like_count = count }))
            × (s'.events
                ≡ events
                  ++ (record { topic = topic; key = post_id; user_id = user_id; feed_id = post_id }
                      ∷ [])))
          ⊎ ((e : Error) × (answer ≡ err e) × (resp ≡ err e) × (s'.events ≡ events)))

  announce-Announces :
      (topic user_id post_id : String) (events : List LikeEvent) (r : LikeState redis × Result ℤ)
      → Announces topic user_id post_id events r (announce redis topic user_id post_id events r)
  unfolding Announces announce
  announce-Announces topic user_id post_id events (storage, ok count) =
      (refl, inl (count, refl, refl, refl))
  announce-Announces topic user_id post_id events (storage, err e) =
      (refl, inr (e, refl, refl, refl))

  -- `Like` and `Unlike` send one event, under the post's id and with the user's, exactly when the
  -- storage has answered a count, and answer that count; when the storage has failed they send none
  -- and answer its error.
  pub like-Announces :
      (outcome : Outcome) (s : ServiceState redis) (user_id post_id : String)
      → Announces "feed.liked" user_id post_id s.events
          (storage_like redis outcome s.storage user_id post_id)
          (like redis outcome s user_id post_id)
        × Announces "feed.unliked" user_id post_id s.events
            (storage_unlike redis outcome s.storage user_id post_id)
            (unlike redis outcome s user_id post_id)
  unfolding like unlike
  like-Announces outcome s user_id post_id = (
    announce-Announces _ user_id post_id s.events _,
    announce-Announces _ user_id post_id s.events _,
  )
