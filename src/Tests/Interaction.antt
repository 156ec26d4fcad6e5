-- ===== src/Tests/Interaction.antt =====
-- Runs of the likes, over a Redis that keeps its keys and answers every call.
use feeds.Prelude.{
  ◌≡◌, ◌≢◌, refl, ap, sym, String, true, false, Option, none, some, List, [], ◌∷◌, Result, ok, err,
  redis_nil, answered, arith, length, text_dec,
}
use feeds.Prelude.Int.{ℤ, pos, suc_ℤ, pred_ℤ}
use feeds.Interaction.Redis.{
  Command, first_reply, incr, decr, View, effect, effects, counter_or_zero, RedisClient, RedisLaws,
}
use feeds.Interaction.LikeStorage.Batch.{Counts, batch_count}
use feeds.Interaction.LikeStorage.Batch.Counts.{count_of, batch_count_lem}
use feeds.Interaction.Redis.{is_one_of}
use mathlib.Core.List.{lookup}
use feeds.Prelude.{inr}
use feeds.Interaction.Uuid.{is_valid_uuid}
use feeds.Interaction.LikeRepo.{has_like, likers, insert_like}
use feeds.Interaction.LikeStorage.{LikeState, like, unlike, rebuild_batches}
use feeds.Interaction.LikeStorage.Refines.{Mirrors, like-Mirrors, unlike-Mirrors}
use feeds.Interaction.LikeStorage.Rebuild.{Batches, rebuild_batches-Batches}

abbrev pub replies_of : List Command → View → List ℤ
replies_of [] v = []
replies_of (incr k ∷ cs) v = suc_ℤ (counter_or_zero (v.counter k)) ∷ []
replies_of (decr k ∷ cs) v = pred_ℤ (counter_or_zero (v.counter k)) ∷ []
replies_of (c ∷ cs) v = []

abbrev pub read_counter : Option ℤ → Result ℤ
read_counter none = err redis_nil
read_counter (some n) = ok n

abbrev pub redis : RedisClient
redis = record {
  Store = View;
  sismember = λ s k m. ok (s.member k m);
  get = λ s k. read_counter (s.counter k);
  exec = λ s cs. (effects cs s, ok (replies_of cs s));
}

pub ok-injective {ℓ} : {A : Type ℓ} {a b : A} → ok a ≡ ok b → a ≡ b
ok-injective p = cc p

pub ok-ne-nil {ℓ} : {A : Type ℓ} {a : A} → ok a ≢ err redis_nil
ok-ne-nil h = cc h

pub read_counter_ok : (o : Option ℤ) (n : ℤ) → read_counter o ≡ ok n → o ≡ some n
read_counter_ok none n h = cc h
read_counter_ok (some m) n h = cc h

pub read_counter_nil : (o : Option ℤ) → read_counter o ≡ err redis_nil → o ≡ none
read_counter_nil none h = refl
read_counter_nil (some m) h = cc h

abbrev pub laws : RedisLaws redis
laws = record {
  view = λ s. s;
  sismember-view = λ s k m b h. ok-injective h;
  sismember-ne-nil = λ s k m h. ok-ne-nil h;
  get-view = λ s k n h. read_counter_ok (s.counter k) n h;
  get_nil-view = λ s k h. read_counter_nil (s.counter k) h;
  exec-view = λ s cs replies h. refl;
  incr-reply = λ s k cs replies h. ap first_reply (sym (ok-injective h));
  decr-reply = λ s k cs replies h. ap first_reply (sym (ok-injective h));
}

abbrev pub user : String
user = "00000000-0000-4000-8000-00000000000a"

abbrev pub post : String
post = "00000000-0000-4000-8000-00000000000f"

-- Nobody has liked the post yet, and its counter stands at 0.
abbrev pub unliked : LikeState redis
unliked = record {
  store = record { counter = λ k. some (pos 0); member = λ k m. false };
  likes = [];
}

pub unliked-Mirrors : Mirrors redis laws post unliked
unfolding likers has_like
unliked-Mirrors = record { keyed = tt; counted = refl; listed = λ u. refl }

like-Mirrors_example :
    let (s', answer) = like redis answered unliked user post in
    Mirrors redis laws post s'
    × (s'.likes ≡ insert_like user post [])
    × (answer ≡ ok (pos (length (likers post s'.likes))))
    × (has_like user post s'.likes ≡ true)
unfolding effects effect suc_ℤ is_valid_uuid
like-Mirrors_example =
    like-Mirrors redis laws post user refl refl unliked false (pos 0) (pos 1 ∷ []) unliked-Mirrors
      refl refl refl

abbrev liked : LikeState redis
liked = record {
  store = record {
    counter = λ k. some (pos 1);
    member = λ k m. has_like m post (record { user_id = user; post_id = post } ∷ []);
  };
  likes = record { user_id = user; post_id = post } ∷ [];
}

liked-Mirrors : Mirrors redis laws post liked
unfolding likers has_like text_dec
liked-Mirrors = record { keyed = (refl, tt); counted = refl; listed = λ u. refl }

unlike-Mirrors_example :
    let (s', answer) = unlike redis answered liked user post in
    Mirrors redis laws post s'
    × (answer ≡ ok (pos (length (likers post s'.likes))))
    × (has_like user post s'.likes ≡ false)
unfolding effects effect pred_ℤ is_valid_uuid has_like text_dec
unlike-Mirrors_example =
    unlike-Mirrors redis laws post user refl refl liked true (pos 1) (pos 0 ∷ []) liked-Mirrors refl
      refl refl

-- Another user's like is in the table, and the keys have expired.
abbrev cold : LikeState redis
cold = record {
  store = record { counter = λ k. none; member = λ k m. false };
  likes = record { user_id = "00000000-0000-4000-8000-00000000000b"; post_id = post } ∷ [];
}

rebuild_batches-Batches_example :
    Batches "liked_by:p"
      (user ∷ post ∷ [])
      (rebuild_batches redis 2 "liked_by:p" (user ∷ post ∷ []))
rebuild_batches-Batches_example =
    rebuild_batches-Batches redis 2 "liked_by:p" (user ∷ post ∷ []) (omega arith)

-- Both counters have expired, so both counts come from the table.
batch_count_lem_example :
    (counts : Counts) × ((batch_count redis (λ id. answered) cold (post ∷ user ∷ [])).1 ≡ ok counts)
    × ((batch_count redis (λ id. answered) cold (post ∷ user ∷ [])).0.likes ≡ cold.likes)
    × ((j : String)
        → is_one_of j (post ∷ user ∷ []) ≡ true
        → is_valid_uuid j ≡ true
        → lookup text_dec j counts ≡ some (count_of redis cold j))
batch_count_lem_example = batch_count_lem redis cold (post ∷ user ∷ []) (λ id. inr refl)
