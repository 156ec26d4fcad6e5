-- ===== src/Interaction/LikeStorage/Races/Settling.antt =====
-- Over any interleaving in which no user has two requests under way at once, Redis mirrors the table
-- again when no request is left.
use feeds.Prelude.{
  Outcome, answered, ◌≡◌, ◌≢◌, refl, sym, ◌∙◌, ap, String, true, Option, none, some, List, [], ◌∷◌,
  ◌++◌, text_dec,
}
use feeds.Prelude.All.{All, All-split, All-join}
use feeds.Prelude.Int.{pos}
use feeds.Interaction.Uuid.{is_valid_uuid}
use feeds.Interaction.LikeRepo.{Likes, has_like}
use feeds.Interaction.LikeRepo.Rows.{IsKeyed}
use feeds.Interaction.LikeRepo.Likers.{same_likers}
use feeds.Interaction.Redis.{RedisClient, RedisLaws, RedisAnswers}
use feeds.Interaction.LikeStorage.{LikeState}
use feeds.Interaction.LikeStorage.Refines.{Mirrors}
use feeds.Interaction.LikeStorage.Races.{
  Phase, Request, Racing, Step, arrives, advances, Steps, stop, go, advance_request, left,
}
use feeds.Interaction.LikeStorage.Races.Phases.{
  Fits, Elsewhere, Caches, Advanced, advance-Advanced, After,
}

-- The database answers the statement.
abbrev pub IsAnswered : Outcome → Type 0
IsAnswered outcome = outcome ≡ answered

-- The user has none of these requests.
abbrev pub IsIdle : String → List Request → Type 0
IsIdle user_id rs = All (λ (r : Request). user_id ≢ r.user_id) rs

-- No user has two of these requests, and every user's id is a UUID.
abbrev pub AreApart : List Request → Type 0
AreApart [] = Unit
AreApart (r ∷ rs) = (is_valid_uuid r.user_id ≡ true) × IsIdle r.user_id rs × AreApart rs

abbrev pub Apart : (redis : RedisClient) (feed_id : String) → Racing redis feed_id → Type 0
Apart redis feed_id x = AreApart x.requests

ne_sym : {a b : String} → a ≢ b → b ≢ a
ne_sym ne e = ne (sym e)

AreApart-split :
    (before : List Request) (r : Request) (after : List Request)
    → AreApart (before ++ (r ∷ after))
    → (is_valid_uuid r.user_id ≡ true) × IsIdle r.user_id (before ++ after)
AreApart-split [] r after h = (h.0, h.1)
AreApart-split (b ∷ before) r after h =
    let (valid, idle) = AreApart-split before r after h.2 in
    let (ne, rest) = All-split _ before r after h.1 in (valid, (ne_sym ne, idle))

module _ (redis : RedisClient) (laws : RedisLaws redis) (answers : RedisAnswers redis laws)
    (feed_id : String) (valid_feed : is_valid_uuid feed_id ≡ true) where
  AllFit : Likes → Likes → List Request → Type 0
  AllFit likes cached rs =
      All
        (λ (r : Request).
          Fits r.kind (some r.phase) (has_like r.user_id feed_id likes)
            (has_like r.user_id feed_id cached))
        rs

  -- Redis mirrors a table to be, from which the table differs by the requests under way.
  record Settles (x : Racing redis feed_id) : Type 0 where
    to_be : Likes
    caches : Caches redis laws answers feed_id valid_feed x.state to_be
    keyed : IsKeyed x.state.likes
    fits : AllFit x.state.likes to_be x.requests
    idle :
        (u : String)
        → IsIdle u x.requests
        → has_like u feed_id x.state.likes ≡ has_like u feed_id to_be

  -- The other users' requests fit as before.
  AllFit-frame :
      (user_id : String) (likes likes' cached cached' : Likes) (rs : List Request)
      → Elsewhere feed_id user_id likes likes'
      → Elsewhere feed_id user_id cached cached'
      → IsIdle user_id rs
      → AllFit likes cached rs
      → AllFit likes' cached' rs
  unfolding AllFit
  AllFit-frame user_id likes likes' cached cached' [] same same' idle h = tt
  AllFit-frame user_id likes likes' cached cached' (r ∷ rs) same same' idle h =
      let ne = ne_sym idle.0 in
      rw (same r.user_id ne, same' r.user_id ne)
        (h.0, AllFit-frame user_id likes likes' cached cached' rs same same' idle.1 h.1)

  module _ (s s' : LikeState redis) (before after : List Request) (r : Request)
      (apart : IsIdle r.user_id (before ++ after))
      (h : Settles (record { state = s; requests = before ++ (r ∷ after) })) where
    abbrev Afterwards : Option Phase → Type 0
    Afterwards next =
        Advanced redis laws answers feed_id valid_feed r.user_id s s' h.to_be r.kind next

    others_fit :
        (next : Option Phase) (a : Afterwards next) → AllFit s'.likes a.to_be (before ++ after)
    unfolding AllFit
    others_fit next a =
        AllFit-frame r.user_id s.likes s'.likes h.to_be a.to_be (before ++ after) a.rows_elsewhere
          a.cached_elsewhere apart (All-split _ before r after h.fits).1

    others_idle :
        (next : Option Phase) (a : Afterwards next) (u : String)
        → u ≢ r.user_id
        → IsIdle u (before ++ after)
        → has_like u feed_id s'.likes ≡ has_like u feed_id a.to_be
    others_idle next a u ne idle =
        a.rows_elsewhere u ne
        ∙ h.idle u (All-join _ before r after ne idle)
        ∙ sym (a.cached_elsewhere u ne)

    -- The state after a phase of a request, with what is left of the request.
    rejoin :
        (next : Option Phase)
        → Afterwards next
        → Settles (record { state = s'; requests = left r next ++ (before ++ after) })
    unfolding AllFit left
    rejoin (some phase) a = record {
      to_be = a.to_be;
      caches = a.caches;
      keyed = a.keyed;
      fits = (a.fits, others_fit (some phase) a);
      idle = λ u idle. others_idle (some phase) a u idle.0 idle.1;
    }
    rejoin none a = record {
      to_be = a.to_be;
      caches = a.caches;
      keyed = a.keyed;
      fits = others_fit none a;
      idle = λ u idle. elim (text_dec u r.user_id) [
        | no ne ↦ others_idle none a u ne idle
        | yes e ↦ rw e a.fits
      ];
    }

  Step-Settles :
      (x y : Racing redis feed_id)
      → AreApart x.requests
      → AreApart y.requests
      → Step redis feed_id IsAnswered x y
      → Settles x
      → Settles y
  unfolding AllFit advance_request After
  Step-Settles x y apart apart' (arrives s rs user_id kind) h = record {
    to_be = h.to_be;
    caches = h.caches;
    keyed = h.keyed;
    fits = (h.idle user_id apart'.1, h.fits);
    idle = λ u idle. h.idle u idle.1;
  }
  Step-Settles x y apart apart' (advances outcome s before after r done) h =
      let (valid, idle) = AreApart-split before r after apart in
      let a =
        advance-Advanced redis laws answers feed_id valid_feed r.user_id valid s h.to_be h.caches
          h.keyed r.kind r.phase (All-split _ before r after h.fits).0 in
      rw done (rejoin s _ before after r idle h _ a)

  first-AreApart :
      (x y : Racing redis feed_id)
      → Steps redis feed_id IsAnswered (Apart redis feed_id) x y
      → AreApart x.requests
  first-AreApart x y (stop z apart) = apart
  first-AreApart x y (go apart step steps) = apart

  Steps-Settles :
      (x y : Racing redis feed_id)
      → Steps redis feed_id IsAnswered (Apart redis feed_id) x y
      → Settles x
      → Settles y
  Steps-Settles x y (stop z apart) h = h
  Steps-Settles x y (go {y = z} apart step steps) h =
      Steps-Settles z y steps (Step-Settles x z apart (first-AreApart z y steps) step h)

  -- Redis answers every command, and the database every statement. From a state in which Redis mirrors the likes of a post whose id is
  -- a UUID, over any interleaving of `Like` and `Unlike` requests of users with UUIDs in which no
  -- user has two requests under way at once: when no request is left, Redis mirrors the table again.
  pub Steps-Mirrors :
      (s s' : LikeState redis)
      → Mirrors redis laws feed_id s
      → Steps redis feed_id IsAnswered
          (Apart redis feed_id)
          (record { state = s; requests = [] })
          (record { state = s'; requests = [] })
      → Mirrors redis laws feed_id s'
  unfolding AllFit
  Steps-Mirrors s s' mirrors steps =
      let h = Steps-Settles _ _ steps (record {
        to_be = s.likes;
        caches = mirrors;
        keyed = mirrors.keyed;
        fits = tt;
        idle = λ u idle. refl;
      }) in
      let same = λ (u : String). h.idle u tt in
      let total = same_likers feed_id s'.likes h.to_be h.keyed h.caches.keyed same in
      record {
        keyed = h.keyed;
        counted = h.caches.counted ∙ ap (λ n. some (pos n)) (sym total);
        listed = λ u. h.caches.listed u ∙ sym (same u);
      }
