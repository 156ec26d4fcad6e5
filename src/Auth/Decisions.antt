-- ===== src/Auth/Decisions.antt =====
-- What the middleware lets through.
use mathlib.Core.Path.{subst}
use feeds.Prelude.{
  ℕ, ◌≡◌, ◌≢◌, ◌↔◌, ◌⊎◌, inl, inr, refl, ap, ◌∙◌, String, true, false, Option, none, some, List,
  Result, ok, err, arith, text_dec, with_default, Option-cases, Bool-cases,
}
use feeds.Auth.{
  MapClaims, Token, Jwt, Env, key_for, user_of_claims, user_of_token, validate_token, Decision,
  unauthorized, pass_public, pass_as, trim_prefix, is_public, decide_claims, decide_token,
  middleware,
}

-- The header carries a token that is valid for the user.
unfoldable pub Names : Jwt → Env → ℕ → String → String → Type 0
Names jwt env now header user_id =
    (token : String) × (trim_prefix "Bearer " header ≡ some token)
    × (validate_token jwt env now token ≡ ok user_id)

-- The decision that goes with the answer of `ValidateToken`.
Agrees : Decision → Result String → Type 0
Agrees d r =
    ((user_id : String) × (d ≡ pass_as user_id) × (r ≡ ok user_id))
    ⊎ ((text : String) × (d ≡ unauthorized text) × ((user_id : String) → r ≢ ok user_id))

decide_claims-Agrees :
    (claims : Option MapClaims) → Agrees (decide_claims claims) (user_of_claims claims)
unfolding Agrees decide_claims user_of_claims
decide_claims-Agrees none = inr (_, refl, λ u h. cc h)
decide_claims-Agrees (some claims) = elim (text_dec (with_default claims.user_id) "") [
  | yes p ↦
      inr
        ("{\"error\":\"missing user_id in token\"}", ground (arith, p), λ u h. ground (arith, p, h))
  | no n ↦ inl (with_default claims.user_id, ground (arith, n), ground (arith, n))
]

decide_token-Agrees : (r : Result Token) → Agrees (decide_token r) (user_of_token r)
unfolding decide_token user_of_token Agrees
decide_token-Agrees (err e) = inr (_, refl, λ u h. cc h)
decide_token-Agrees (ok token) = elim (Bool-cases token.valid) [
  | inl on ↦ rw on (decide_claims-Agrees token.claims)
  | inr off ↦ rw off (inr ("{\"error\":\"invalid token\"}", refl, λ u h. cc h))
]

module _ (jwt : Jwt) (env : Env) (now : ℕ) (public_paths : List String) (path header : String) where
  public-middleware :
      is_public path public_paths ≡ true
      → middleware jwt env now public_paths path header ≡ pass_public
  unfolding middleware
  public-middleware e = rw e refl

  bare-middleware :
      is_public path public_paths ≡ false
      → trim_prefix "Bearer " header ≡ none
      → middleware jwt env now public_paths path header
        ≡ unauthorized "{\"error\":\"missing authorization header\"}"
  unfolding middleware
  bare-middleware e e' = rw (e, e') refl

  token-middleware :
      (token : String)
      → is_public path public_paths ≡ false
      → trim_prefix "Bearer " header ≡ some token
      → middleware jwt env now public_paths path header
        ≡ decide_token (jwt.parse (key_for env) now token)
  unfolding middleware
  token-middleware token e e' = rw (e, e') refl

  -- A request on a path that is not public goes on as the user whom its token names, or is refused.
  pub closed_middleware :
      is_public path public_paths ≡ false
      → ((user_id : String) × (middleware jwt env now public_paths path header ≡ pass_as user_id)
          × Names jwt env now header user_id)
        ⊎ ((text : String) × (middleware jwt env now public_paths path header ≡ unauthorized text)
            × ((user_id : String) → Names jwt env now header user_id → ⊥))
  unfolding Names Agrees validate_token
  closed_middleware closed = elim (Option-cases (trim_prefix "Bearer " header)) [
    | inl e ↦ inr (_, bare-middleware closed e, λ u (token, e', h). cc (e, e'))
    | inr (token, e) ↦
        let m = token-middleware token closed e in
        elim (decide_token-Agrees (jwt.parse (key_for env) now token)) [
          | inl (v, d, valid) ↦ inl (v, m ∙ d, (token, e, valid))
          | inr (text, d, nobody) ↦
              inr (text, m ∙ d, λ u (token', e', h). absurd (nobody u (cc (e, e', h))))
        ]
  ]

  Names-unique : (u v : String) → Names jwt env now header u → Names jwt env now header v → u ≡ v
  unfolding Names validate_token
  Names-unique u v (token, e, h) (token', e', h') = cc (e, h, e', h')

  -- A public path passes with no user. On every other path the middleware passes the request on as a
  -- user exactly if `ValidateToken` takes the token of its Authorization header for that user, and
  -- refuses it if the token is missing or is taken for nobody.
  pub middleware-validate_token :
      (is_public path public_paths ≡ true
        → middleware jwt env now public_paths path header ≡ pass_public)
      × (is_public path public_paths ≡ false
          → ((user_id : String)
              → (middleware jwt env now public_paths path header ≡ pass_as user_id)
                ↔ Names jwt env now header user_id)
            × (((user_id : String) → Names jwt env now header user_id → ⊥)
                → (text : String) × (middleware jwt env now public_paths path header
                    ≡ unauthorized text)))
  middleware-validate_token = (
    public-middleware,
    λ closed. elim (closed_middleware closed) [
      | inl (v, m, named) ↦ (
        λ u. (
          λ h. subst (Names jwt env now header) (cc (m, h)) named,
          λ h. m ∙ ap pass_as (Names-unique v u named h),
        ),
        λ nobody. absurd (nobody v named),
      )
      | inr (text, m, nobody) ↦ (λ u. (λ h. cc (m, h), λ h. absurd (nobody u h)), λ _. (text, m))
    ],
  )
