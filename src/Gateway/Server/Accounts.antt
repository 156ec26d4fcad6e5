-- ===== src/Gateway/Server/Accounts.antt =====
-- Which requests change the users and the follows behind the gateway.
use mathlib.Core.Path.{subst}
use feeds.Prelude.{◌≡◌, inl, inr, refl, sym, ap, ◌∙◌, String, Option, List, [], ◌∷◌, Result}
use feeds.Auth.{Jwt, Env}
use feeds.Feed.Cache.{PostCache, Json}
use feeds.User.Follows.Graph.{IsGraph, Reach, starts, steps, Reach-IsGraph}
use feeds.User.Service.{Bcrypt}
use feeds.Interaction.Redis.{RedisClient}
use feeds.Gateway.Http.{Decoder, Request, Call, Reply}
use feeds.Gateway.Routes.{Endpoint}
use feeds.Gateway.Server.{Gateway, Moment, serve_http, serve}
use feeds.Gateway.Server.Backend.{World, gateway}
use feeds.Gateway.Server.Effects.{
  Behind as BehindOf, Moved, Effect, nothing, posts_feed, deletes_post, reads_posts, moves_users,
  likes, adds_comment, deletes_comment, reads_comments, bookmarks,
}
use feeds.Gateway.Server.Admission.{refused, open_to_all, as_user, admission, routed}
use feeds.Gateway.Server.Effects.Handlers.{handle-Effect}

module _ {Score Text : Type 0} (cache : PostCache Score Text) (json : Json Text)
    (redis : RedisClient) (bcrypt : Bcrypt) (jwt : Jwt) (env : Env) (decoder : Decoder)
    (cos : Option (String → Result String)) where
  abbrev Behind : Type 0
  Behind = BehindOf cache json redis bcrypt jwt

  abbrev front : World → Gateway Behind
  front w = gateway cache json redis bcrypt jwt env decoder cos w

  Effect-Moved :
      (w : World) (e : Endpoint) (c : Call) (s s' : Behind)
      → Effect cache json redis bcrypt jwt w e c s s'
      → Moved s.users s'.users
  unfolding Moved
  Effect-Moved w e c s _ nothing = inl refl
  Effect-Moved w e c s _ (posts_feed blocks) = inl refl
  Effect-Moved w e c s _ (deletes_post deletion) = inl refl
  Effect-Moved w e c s _ (reads_posts f same) = inl refl
  Effect-Moved w e c s _ (moves_users db moved) = moved
  Effect-Moved w e c s _ (likes l) = inl refl
  Effect-Moved w e c s _ (adds_comment content) = inl refl
  Effect-Moved w e c s _ (deletes_comment deletion) = inl refl
  Effect-Moved w e c s _ (reads_comments t same) = inl refl
  Effect-Moved w e c s _ (bookmarks t) = inl refl

  served-Moved :
      (w : World) (t : Moment) (r : Request) (user_id : String) (s : Behind)
      → serve (front w) t r s ≡ serve_http (front w) t r user_id s
      → Moved s.users (serve (front w) t r s).0.users
  unfolding Moved
  served-Moved w t r user_id s e = elim (routed (front w) t r user_id s) [
    | inl same ↦ inl (ap (λ (z : Behind × Reply). z.0.users) e ∙ ap (λ (z : Behind). z.users) same)
    | inr (found, found_it, e') ↦
        subst (λ (z : Behind × Reply). Moved s.users z.0.users) (sym (e ∙ e'))
          (Effect-Moved w found.route.handler _ s _ (
            handle-Effect cache json redis bcrypt jwt env decoder cos w t found.route.handler
              (record { request = r; user_id = user_id; values = found.values }) s))
  ]

  serve-Moved :
      (w : World) (t : Moment) (r : Request) (s : Behind)
      → Moved s.users (serve (front w) t r s).0.users
  unfolding Moved
  serve-Moved w t r s = elim (admission (front w) t r s) [
    | refused reply e ↦ inl (ap (λ (z : Behind × Reply). z.0.users) e)
    | open_to_all opened e ↦ served-Moved w t r "" s e
    | as_user user_id named e ↦ served-Moved w t r user_id s e
  ]

  -- The requests one after the other, each with what is chosen for it.
  pub serve_all : List (World × Moment × Request) → Behind → Behind
  serve_all [] s = s
  serve_all ((w, t, r) ∷ requests) s = serve_all requests (serve (front w) t r s).0

  serve_all-Reach :
      (requests : List (World × Moment × Request)) (s : Behind)
      → Reach s.users
      → Reach (serve_all requests s).users
  unfolding serve_all Moved
  serve_all-Reach [] s h = h
  serve_all-Reach ((w, t, r) ∷ requests) s h =
      serve_all-Reach requests (serve (front w) t r s).0 (elim (serve-Moved w t r s) [
        | inl same ↦ subst Reach (sym same) h
        | inr step ↦ steps h step
      ])

  -- Over any sequence of HTTP requests on services with no users yet, whatever the databases, Redis,
  -- gRPC and bcrypt do for each, both ends of every follow stay users, and no username and no follow
  -- ever stands twice.
  pub serve_all-IsGraph :
      (requests : List (World × Moment × Request)) (s : Behind)
      → s.users ≡ record { users = []; follows = [] }
      → IsGraph (serve_all requests s).users
  serve_all-IsGraph requests s fresh =
      Reach-IsGraph (serve_all-Reach requests s (subst Reach (sym fresh) starts))
