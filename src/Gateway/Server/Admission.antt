-- ===== src/Gateway/Server/Admission.antt =====
-- How a request gets past the middleware and the mux to its handler.
use feeds.Prelude.{
  ◌≡◌, ◌⊎◌, inl, inr, refl, String, true, false, some, message, Bool-cases, Option-cases,
}
use feeds.Auth.{is_public, middleware, Decision, unauthorized, pass_public, pass_as}
use feeds.Auth.Decisions.{Names, middleware-validate_token, closed_middleware}
use feeds.Gateway.Http.{Request, Reply, failed}
use feeds.Gateway.Mux.{Found, segments_of, find}
use feeds.Gateway.Routes.{Endpoint, routes}
use feeds.Gateway.Server.{Gateway, Moment, public_paths, handle, serve_http, serve}

module _ {S : Type 0} (g : Gateway S) (t : Moment) where
  pub served_as :
      (r : Request) (s : S) (d : Decision)
      → middleware g.jwt g.env t.now public_paths r.path r.authorization ≡ d
      → serve g t r s ≡ elim d [
        | unauthorized text ↦ (s, failed 401 (message text))
        | pass_public ↦ serve_http g t r "" s
        | pass_as user_id ↦ serve_http g t r user_id s
      ]
  unfolding serve
  served_as r s d e = rw (e, serve) refl

  -- A request whose path is not public, and whose Authorization header carries no token that is valid
  -- for some user, is answered with status 401 and reaches no service.
  pub serve_unauthorized :
      (r : Request) (s : S)
      → is_public r.path public_paths ≡ false
      → ((user_id : String) → Names g.jwt g.env t.now r.authorization user_id → ⊥)
      → (text : String) × (serve g t r s ≡ (s, failed 401 (message text)))
  serve_unauthorized r s closed nobody =
      let (text, e) =
        ((middleware-validate_token g.jwt g.env t.now public_paths r.path r.authorization).1
            closed).1
          nobody in
      (text, served_as r s (unauthorized text) e)

  -- A request is refused, or served with no user on a public path, or served as the user it names.
  pub data Admission (r : Request) (s : S) : Type 0 where
    refused : (reply : Reply) → serve g t r s ≡ (s, reply) → Admission r s
    open_to_all :
        is_public r.path public_paths ≡ true → serve g t r s ≡ serve_http g t r "" s → Admission r s
    as_user :
        (user_id : String)
        → Names g.jwt g.env t.now r.authorization user_id
        → serve g t r s ≡ serve_http g t r user_id s
        → Admission r s

  pub admission : (r : Request) (s : S) → Admission r s
  admission r s = elim (Bool-cases (is_public r.path public_paths)) [
    | inl opened ↦ open_to_all opened (
        served_as r s pass_public (
          (middleware-validate_token g.jwt g.env t.now public_paths r.path r.authorization).0
            opened))
    | inr closed ↦
        elim (closed_middleware g.jwt g.env t.now public_paths r.path r.authorization closed) [
          | inl (u, m, named) ↦ as_user u named (served_as r s (pass_as u) m)
          | inr (text, m, nobody) ↦ refused _ (served_as r s (unauthorized text) m)
        ]
  ]

  -- The mux finds no route, and nothing changes, or it finds one, whose handler runs.
  pub routed :
      (r : Request) (user_id : String) (s : S)
      → ((serve_http g t r user_id s).0 ≡ s)
        ⊎ ((f : Found Endpoint) × (find r.method (segments_of r.path) routes ≡ some f)
            × (serve_http g t r user_id s
                ≡ handle g t f.route.handler
                    (record { request = r; user_id = user_id; values = f.values })
                    s))
  unfolding serve_http
  routed r user_id s = elim (Option-cases (find r.method (segments_of r.path) routes)) [
    | inl e ↦ inl (rw (e, serve_http) refl)
    | inr (f, e) ↦ inr (f, e, rw (e, serve_http) refl)
  ]
