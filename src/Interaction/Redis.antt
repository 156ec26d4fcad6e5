-- ===== src/Interaction/Redis.antt =====
-- What the like storage uses of Redis: a parameter, which is its commands with what their
-- documentation says of the counter and of the set under a key. Any call may fail, and a failed
-- pipeline may have run in part.
use feeds.Prelude.{
  ℕ, String, ◌≡◌, ◌≢◌, Bool, true, false, Option, none, some, List, [], ◌∷◌, redis_nil, Result, ok,
  err, text_dec, ite, ◌||◌,
}
use feeds.Prelude.Int.{ℤ, pos, suc_ℤ, pred_ℤ}

pub data Command : Type 0 where
  incr : String → Command
  decr : String → Command
  sadd : String → List String → Command
  srem : String → String → Command
  expire : String → ℕ → Command
  set : String → ℤ → ℕ → Command

-- What is under each key: the counter of a string key, if there is one, and the members of a set,
-- of which a missing key has none.
pub record View : Type 0 where
  pub counter : String → Option ℤ
  pub member : String → String → Bool

unfoldable pub is_one_of : String → List String → Bool
is_one_of m [] = false
is_one_of m (x ∷ xs) = ite (text_dec m x) true (is_one_of m xs)

-- A missing counter counts from 0.
abbrev pub counter_or_zero : Option ℤ → ℤ
counter_or_zero none = pos 0
counter_or_zero (some n) = n

abbrev update {ℓ} : {A : Type ℓ} → (String → A) → String → A → String → A
update f k a j = ite (text_dec j k) a (f j)

-- The documented effect of a command.
unfoldable pub effect : Command → View → View
unfolding is_one_of
effect (incr k) v = record v {
  counter = update v.counter k (some (suc_ℤ (counter_or_zero (v.counter k))));
}
effect (decr k) v = record v {
  counter = update v.counter k (some (pred_ℤ (counter_or_zero (v.counter k))));
}
effect (sadd k ms) v = record v { member = update v.member k (λ m. is_one_of m ms || v.member k m) }
effect (srem k x) v = record v {
  member = update v.member k (λ m. ite (text_dec m x) false (v.member k m));
}
effect (expire k ttl) v = v
effect (set k n ttl) v = record v { counter = update v.counter k (some n) }

unfoldable pub effects : List Command → View → View
unfolding effect
effects [] v = v
effects (c ∷ cs) v = effects cs (effect c v)

-- `Val` of the first command of a pipeline: 0 where there is no reply.
abbrev pub first_reply : List ℤ → ℤ
first_reply [] = pos 0
first_reply (n ∷ replies) = n

pub record RedisClient : Type 1 where
  pub Store : Type 0
  pub sismember : Store → String → String → Result Bool
  pub get : Store → String → Result ℤ
  -- A pipeline: the integer replies of its commands, or the first error.
  pub exec : Store → List Command → Store × Result (List ℤ)

pub record RedisLaws (redis : RedisClient) : Type 0 where
  pub view : redis.Store → View
  pub sismember-view :
      (s : redis.Store) (k m : String) (b : Bool)
      → redis.sismember s k m ≡ ok b
      → (view s).member k m ≡ b
  -- SISMEMBER of a missing key is 0, never a nil reply.
  pub sismember-ne-nil : (s : redis.Store) (k m : String) → redis.sismember s k m ≢ err redis_nil
  pub get-view :
      (s : redis.Store) (k : String) (n : ℤ) → redis.get s k ≡ ok n → (view s).counter k ≡ some n
  pub get_nil-view :
      (s : redis.Store) (k : String) → redis.get s k ≡ err redis_nil → (view s).counter k ≡ none
  pub exec-view :
      (s : redis.Store) (cs : List Command) (replies : List ℤ)
      → (redis.exec s cs).1 ≡ ok replies
      → view (redis.exec s cs).0 ≡ effects cs (view s)
  -- INCR and DECR answer with the new value.
  pub incr-reply :
      (s : redis.Store) (k : String) (cs : List Command) (replies : List ℤ)
      → (redis.exec s (incr k ∷ cs)).1 ≡ ok replies
      → first_reply replies ≡ suc_ℤ (counter_or_zero ((view s).counter k))
  pub decr-reply :
      (s : redis.Store) (k : String) (cs : List Command) (replies : List ℤ)
      → (redis.exec s (decr k ∷ cs)).1 ≡ ok replies
      → first_reply replies ≡ pred_ℤ (counter_or_zero ((view s).counter k))

-- A Redis that answers every command, a missing counter apart.
pub record RedisAnswers (redis : RedisClient) (laws : RedisLaws redis) : Type 0 where
  pub sismember-answers :
      (s : redis.Store) (k m : String) → redis.sismember s k m ≡ ok ((laws.view s).member k m)
  pub get-answers :
      (s : redis.Store) (k : String) (n : ℤ)
      → (laws.view s).counter k ≡ some n
      → redis.get s k ≡ ok n
  pub exec-answers :
      (s : redis.Store) (cs : List Command)
      → (replies : List ℤ) × ((redis.exec s cs).1 ≡ ok replies)
