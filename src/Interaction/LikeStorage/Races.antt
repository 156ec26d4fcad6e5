-- ===== src/Interaction/LikeStorage/Races.antt =====
-- services/interaction/storage.go `Like` and `Unlike` as goroutines: what each does between two calls
-- of Redis or of the database, with any other requests of the same post in between. A pipeline is one
-- step, as if Redis ran nothing between its commands; the database answers every statement.
pub mod Alone
pub mod Phases
pub mod Settling
pub mod Twice
use feeds.Prelude.{
  String, Bool, true, false, Option, none, some, List, [], ◌∷◌, ◌++◌, ok, err, Outcome,
}
use feeds.Prelude.Int.{ℤ, pos, negsuc}
use feeds.Interaction.Redis.{RedisClient, first_reply}
use feeds.Interaction.LikeRepo
use feeds.Interaction.LikeRepo.{Likes}
use feeds.Interaction.LikeStorage.{
  LikeState, liked_by_key, like_commands, unlike_commands, count, val, set_count,
}

pub data Kind : Type 0 where
  liking : Kind
  unliking : Kind

-- What a request does next: SISMEMBER, the count of an early return, its pipeline, the reset of a
-- count below 0, or its statement.
pub data Phase : Type 0 where
  checking : Phase
  counting : Phase
  piping : Phase
  clamping : Phase
  storing : Phase

pub record Request : Type 0 where
  pub user_id : String
  pub kind : Kind
  pub phase : Phase

-- What SISMEMBER answers sends a request on.
check : Kind → Bool → Phase
check liking true = counting
check liking false = piping
check unliking true = piping
check unliking false = counting

-- A reset is sent for a count below 0 only.
reset_or_store : ℤ → Phase
reset_or_store (pos n) = storing
reset_or_store (negsuc n) = clamping

-- A failed statement is logged, and the request goes on.
change : Outcome → String → String → Kind → Likes → Likes
change outcome feed_id user_id liking likes = (LikeRepo.insert outcome user_id feed_id likes).0
change outcome feed_id user_id unliking likes = (LikeRepo.delete outcome user_id feed_id likes).0

-- The requests that are left of one after its phase.
unfoldable pub left : Request → Option Phase → List Request
left r none = []
left r (some phase) = record r { phase = phase } ∷ []

module _ (redis : RedisClient) (feed_id : String) where
  pipe : LikeState redis → String → Kind → LikeState redis × Option Phase
  unfolding reset_or_store
  pipe s user_id liking =
      let (store, replies) = redis.exec s.store (like_commands redis user_id feed_id) in
      elim replies [
        | err e ↦ (record s { store = store }, none)
        | ok rs ↦ (record s { store = store }, some storing)
      ]
  pipe s user_id unliking =
      let (store, replies) = redis.exec s.store (unlike_commands redis user_id feed_id) in
      elim replies [
        | err e ↦ (record s { store = store }, none)
        | ok rs ↦ (record s { store = store }, some (reset_or_store (first_reply rs)))
      ]

  -- One phase of a request: the state after it, and what the request does next if it goes on.
  unfoldable pub advance :
      Outcome → LikeState redis → String → Kind → Phase → LikeState redis × Option Phase
  unfolding check pipe change
  advance outcome s user_id kind checking =
      (s, some (check kind (val (redis.sismember s.store (liked_by_key feed_id) user_id))))
  advance outcome s user_id kind counting = ((count redis outcome s feed_id).0, none)
  advance outcome s user_id kind piping = pipe s user_id kind
  advance outcome s user_id kind clamping =
      (record s { store = set_count redis s.store feed_id (pos 0) }, some storing)
  advance outcome s user_id kind storing =
      (record s { likes = change outcome feed_id user_id kind s.likes }, none)

  unfoldable pub advance_request :
      Outcome → LikeState redis → Request → LikeState redis × List Request
  unfolding advance left
  advance_request outcome s r =
      let (s', next) = advance outcome s r.user_id r.kind r.phase in (s', left r next)

  -- The storage and the requests that are under way.
  pub record Racing : Type 0 where
    pub state : LikeState redis
    pub requests : List Request

  -- A request arrives, or one of those under way does its next phase, with an outcome of the database
  -- among those that are allowed.
  pub data Step (Allowed : Outcome → Type 0) : Racing → Racing → Type 0 where
    arrives :
        (s : LikeState redis) (rs : List Request) (user_id : String) (kind : Kind)
        → Step Allowed
            (record { state = s; requests = rs })
            (record {
              state = s;
              requests = record { user_id = user_id; kind = kind; phase = checking } ∷ rs;
            })
    advances :
        (outcome : Outcome) (s : LikeState redis) (before after : List Request) (r : Request)
        → Allowed outcome
        → Step Allowed
            (record { state = s; requests = before ++ (r ∷ after) })
            (record {
              state = (advance_request outcome s r).0;
              requests = (advance_request outcome s r).1 ++ (before ++ after);
            })

  -- Steps one after the other, with P of every state on the way.
  pub data Steps (Allowed : Outcome → Type 0) (P : Racing → Type 0) : Racing → Racing → Type 0 where
    stop : (x : Racing) → P x → Steps Allowed P x x
    go : {x y z : Racing} → P x → Step Allowed x y → Steps Allowed P y z → Steps Allowed P x z
