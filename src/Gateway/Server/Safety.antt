-- ===== src/Gateway/Server/Safety.antt =====
-- What a request can do to the services behind the gateway, from its token to their tables.
use mathlib.Core.List.{lookup}
use mathlib.Core.Path.{subst}
use feeds.Prelude.{
  ◌≡◌, ◌≢◌, inl, inr, refl, sym, ap, ◌∙◌, String, true, Option, some, [], ◌∷◌, Result, arith,
  text_dec, with_default, Option-cases,
}
use feeds.Auth.{Jwt, Env, is_public}
use feeds.Auth.Decisions.{Names}
use feeds.Feed.Model.{Feed}
use feeds.Feed.Repo.{select_post}
use feeds.Feed.Cache.{PostCache, Json}
use feeds.User.Service.{Bcrypt}
use feeds.Interaction.Redis.{RedisClient}
use feeds.Gateway.Http.{Decoder, Request, Call, Reply, path_value}
use feeds.Gateway.Mux.{segments_of}
use feeds.Gateway.Routes.{Endpoint}
use feeds.Gateway.Routes.Finding.{deletes_in, find-delete}
use feeds.Gateway.Server.{Gateway, Moment, public_paths, serve_http, serve}
use feeds.Gateway.Server.Backend.{World, Services, gateway}
use feeds.Gateway.Server.Posts.{Stays, Effect-keeps}
use feeds.Gateway.Server.Comments.{Remains, Effect-Remains}
use feeds.Interaction.Comments.{Comment}
use feeds.Interaction.Comments.Changes.{comment_of_id}
use feeds.Gateway.Server.Effects.{Behind as BehindOf, Effect}
use feeds.Gateway.Server.Admission.{refused, open_to_all, as_user, admission, routed}
use feeds.Gateway.Server.Effects.Handlers.{handle-Effect}

path_value-id : (c : Call) (id : String) → c.values ≡ ("id", id) ∷ [] → path_value c "id" ≡ id
unfolding path_value with_default text_dec lookup
path_value-id c id e = rw (e, path_value) refl

-- A public path is not the path of an item of a collection.
public-segments :
    (path collection id : String)
    → is_public path public_paths ≡ true
    → collection ≢ "user"
    → segments_of path ≢ collection ∷ id ∷ []
unfolding is_public segments_of
public-segments path collection id h other e = elim (text_dec path "/user/register") [
  | yes p ↦ absurd (other (cc (ap segments_of p, e)))
  | no n ↦ elim (text_dec path "/user/login") [
    | yes p ↦ absurd (other (cc (ap segments_of p, e)))
    | no n' ↦ ground (arith, h, n, n')
  ]
]

module _ {Score Text : Type 0} (cache : PostCache Score Text) (json : Json Text)
    (redis : RedisClient) (bcrypt : Bcrypt) (jwt : Jwt) (env : Env) (decoder : Decoder)
    (cos : Option (String → Result String)) (w : World) (t : Moment) where
  abbrev Behind : Type 0
  Behind = BehindOf cache json redis bcrypt jwt

  abbrev front : Gateway Behind
  front = gateway cache json redis bcrypt jwt env decoder cos w

  -- What only the author's deletion of an item can undo.
  module _ (P : Behind → Type 0) (collection id author_id : String)
      (keeps : (e : Endpoint) (c : Call) (s s' : Behind)
        → Effect cache json redis bcrypt jwt w e c s s'
        → (deletes_in e ≡ some collection → path_value c "id" ≡ id → c.user_id ≢ author_id)
        → P s
        → P s') where
    undone_as :
        (r : Request) (user_id : String) (s : Behind)
        → P s
        → (P (serve_http front t r user_id s).0 → ⊥)
        → (r.method ≡ "DELETE")
          × (segments_of r.path ≡ collection ∷ id ∷ [])
          × (user_id ≡ author_id)
    undone_as r user_id s h gone = elim (routed front t r user_id s) [
      | inl e ↦ absurd (gone (subst P (sym e) h))
      | inr (found, found_it, e) ↦
          let c : Call = record { request = r; user_id = user_id; values = found.values } in
          let kept =
            λ (apart : deletes_in found.route.handler ≡ some collection
                → path_value c "id" ≡ id
                → user_id ≢ author_id).
              gone (
                subst (λ (z : Behind × Reply). P z.0) (sym e)
                  (keeps found.route.handler c s _
                    (handle-Effect cache json redis bcrypt jwt env decoder cos w t
                      found.route.handler c s)
                    apart h)) in
          elim (Option-cases (deletes_in found.route.handler)) [
            | inl other ↦ absurd (kept (λ p. absurd (cc (other, p))))
            | inr (collection', deletes) ↦ elim (text_dec collection' collection) [
              | no n ↦ absurd (kept (λ p. absurd (n (cc (deletes, p)))))
              | yes there ↦
                  let (method, id', path, values) =
                    find-delete collection r.method (segments_of r.path) found found_it
                      (cc (deletes, there)) in
                  elim (text_dec id' id) [
                    | no n ↦
                        absurd (kept (λ p q. absurd (n (sym (path_value-id c id' values) ∙ q))))
                    | yes same ↦ elim (text_dec user_id author_id) [
                      | no n ↦ absurd (kept (λ p q. n))
                      | yes own ↦ (method, cc (path, same), own)
                    ]
                  ]
            ]
          ]
    ]

    undone :
        (r : Request) (s : Behind)
        → collection ≢ "user"
        → P s
        → (P (serve front t r s).0 → ⊥)
        → (r.method ≡ "DELETE")
          × (segments_of r.path ≡ collection ∷ id ∷ [])
          × Names jwt env t.now r.authorization author_id
    unfolding gateway
    undone r s other h gone =
        let at : (z : Behind × Reply) → serve front t r s ≡ z → P z.0 → ⊥ =
          λ z e k. gone (subst (λ (z : Behind × Reply). P z.0) (sym e) k) in
        elim (admission front t r s) [
          | refused reply e ↦ absurd (at _ e h)
          | open_to_all opened e ↦
              let (method, path, own) = undone_as r "" s h (at _ e) in
              absurd (public-segments r.path collection id opened other path)
          | as_user user_id named e ↦
              let (method, path, own) = undone_as r user_id s h (at _ e) in
              (method, path, subst (Names jwt env t.now r.authorization) own named)
        ]

  -- If the row of a post is not what it was after a request, whatever the databases, the caches and the
  -- network do, then the request was DELETE on the path of that post, and its Authorization header
  -- carried a token that is valid for the post's author.
  pub post_gone :
      (r : Request) (s : Services cache json redis bcrypt jwt) (id : String) (f : Feed)
      → select_post id s.feed.posts ≡ some f
      → select_post id (serve front t r s).0.feed.posts ≢ some f
      → (r.method ≡ "DELETE")
        × (segments_of r.path ≡ "feeds" ∷ id ∷ [])
        × Names jwt env t.now r.authorization f.author_id
  unfolding Stays
  post_gone r s id f h gone =
      undone (λ z. Stays id f z.feed.posts) "feeds" id f.author_id
        (λ e c z z' effect apart k.
          Effect-keeps cache json redis bcrypt jwt w e c z z' id f effect apart k)
        r s (λ p. cc p) h gone

  -- If the row of a comment is not what it was after a request, whatever the databases and the network
  -- do, then the request was DELETE on the path of that comment, and its Authorization header carried a
  -- token that is valid for the user who wrote it.
  pub comment_gone :
      (r : Request) (s : Services cache json redis bcrypt jwt) (id : String) (k : Comment)
      → comment_of_id id s.comments ≡ some k
      → comment_of_id id (serve front t r s).0.comments ≢ some k
      → (r.method ≡ "DELETE")
        × (segments_of r.path ≡ "comments" ∷ id ∷ [])
        × Names jwt env t.now r.authorization k.user_id
  unfolding Remains
  comment_gone r s id k h gone =
      undone (λ z. Remains id k z.comments) "comments" id k.user_id
        (λ e c z z' effect apart l.
          Effect-Remains cache json redis bcrypt jwt w e c z z' id k effect apart l)
        r s (λ p. cc p) h gone
