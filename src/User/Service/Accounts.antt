-- ===== src/User/Service/Accounts.antt =====
-- From registration to a request that a token lets through.
use feeds.Prelude.{
  ℕ, ◌+◌, ◌*◌, ◌/◌, ◌<◌, ◌≡◌, ◌≢◌, ap, inl, inr, refl, String, true, none, some, List, [], ◌∷◌,
  ◌++◌, ok, err, Outcome, answered, refused, lost, arith, text_dec, Option-cases, Result-cases,
  Error, with_default,
}
use feeds.User.Repo.{Time, User, UserDb, create, insert_user, find_by_username, user_of_name}
use feeds.User.Service.{Bcrypt, BcryptLaw, register, login, login_as, claims_of, jwt_secret}
use feeds.Auth.{
  Jwt, JwtLaws, Env, secret, key_for, validate_token, user_of_token, user_of_claims,
  err_signature_invalid,
}

user_of_name-append :
    (username : String) (users : List User) (u : User)
    → user_of_name username users ≡ none
    → u.username ≡ username
    → user_of_name username (users ++ (u ∷ [])) ≡ some u
unfolding user_of_name
user_of_name-append username [] u h e = ground arith
user_of_name-append username (v ∷ users) u h e =
    ground (arith, user_of_name-append username users u)

abbrev new_user : String → Time → String → String → User
new_user id now username hash = record {
  id = id;
  username = username;
  password = hash;
  avatar_url = "";
  created_at = now;
  updated_at = now;
}

module _ (bcrypt : Bcrypt) (law : BcryptLaw bcrypt) where
  -- What `Register` leaves behind when it has answered an id.
  registered_user :
      (salt id username password : String) (outcome : Outcome) (now : Time) (db : UserDb)
      → (register bcrypt outcome salt id now username password db).1 ≡ ok id
      → (hash : String) × (find_by_username answered username
            (register bcrypt outcome salt id now username password db).0
          ≡ ok (new_user id now username hash))
        × (bcrypt.compare_hash_and_password hash password ≡ true)
  unfolding register create insert_user find_by_username
  registered_user salt id username password (refused x) now db h =
      elim (Result-cases (bcrypt.generate_from_password salt password)) [
        | inl (hash, e) ↦ absurd (ground (arith, h, e))
        | inr (x', e) ↦ absurd (ground (arith, h, e))
      ]
  registered_user salt id username password (lost x) now db h =
      elim (Result-cases (bcrypt.generate_from_password salt password)) [
        | inl (hash, e) ↦ absurd (ground (arith, h, e))
        | inr (x', e) ↦ absurd (ground (arith, h, e))
      ]
  registered_user salt id username password answered now db h =
      elim (Result-cases (bcrypt.generate_from_password salt password)) [
        | inr (x, e) ↦ absurd (ground (arith, h, e))
        | inl (hash, e) ↦ elim (Option-cases (user_of_name username db.users)) [
          | inr (u, taken) ↦ absurd (ground (arith, h, e, taken))
          | inl free ↦ (
            hash,
            ground (
              arith,
              e,
              free,
              user_of_name-append username db.users (new_user id now username hash) free refl,
            ),
            law salt password hash e,
          )
        ]
      ]

module _ (bcrypt : Bcrypt) (jwt : Jwt) where
  login_as_success :
      (now : Time) (password token : String) (u : User)
      → login_as bcrypt jwt now password u ≡ ok (record { success = true; token = token })
      → (bcrypt.compare_hash_and_password u.password password ≡ true)
        × (jwt.signed_string jwt_secret (claims_of now u) ≡ ok token)
  unfolding login_as
  login_as_success now password token u h =
      elim (Result-cases (jwt.signed_string jwt_secret (claims_of now u))) [
        | inl (signed, e) ↦ ground (arith, h, e)
        | inr (x, e) ↦ ground (arith, h, e)
      ]

  -- A login that answers success is that of a user of the table under that name, whose hash matches
  -- the password, and its token is signed over that user's id.
  pub login_success :
      (outcome : Outcome) (now : Time) (username password token : String) (db : UserDb)
      → login bcrypt jwt outcome now username password db
        ≡ ok (record { success = true; token = token })
      → (u : User) × (user_of_name username db.users ≡ some u)
        × (bcrypt.compare_hash_and_password u.password password ≡ true)
        × (jwt.signed_string jwt_secret (claims_of now u) ≡ ok token)
  unfolding login find_by_username
  login_success (refused e) now username password token db h = absurd (ground (arith, h))
  login_success (lost e) now username password token db h = absurd (ground (arith, h))
  login_success answered now username password token db h =
      elim (Option-cases (user_of_name username db.users)) [
        | inl unknown ↦ absurd (ground (arith, h, unknown))
        | inr (u, known) ↦
            let logged_in : login_as bcrypt jwt now password u
                ≡ ok (record { success = true; token = token }) =
              ground (arith, h, known) in
            let (matches, signed) = login_as_success now password token u logged_in in
            (u, known, matches, signed)
      ]

module _ (bcrypt : Bcrypt) (law : BcryptLaw bcrypt) (jwt : Jwt) (jwt_laws : JwtLaws jwt) where
  -- Once `Register` has answered an id that is not empty, a later `Login` with the same name and
  -- password, when the database answers and the token can be signed, answers success with the token;
  -- and until 72 hours have passed, a service whose secret is the one that `Login` signs with takes
  -- that token for that id.
  pub register-login :
      (salt id username password token : String) (outcome : Outcome) (now later : Time)
      (db : UserDb) (env : Env) (moment : ℕ)
      → id ≢ ""
      → (register bcrypt outcome salt id now username password db).1 ≡ ok id
      → jwt.signed_string jwt_secret (record {
        user_id = some id;
        username = some username;
        exp = (later + 72 * 3600 * 1000000) / 1000000;
      })
        ≡ ok token
      → secret env ≡ jwt_secret
      → moment < (later + 72 * 3600 * 1000000) / 1000000
      → let db' = (register bcrypt outcome salt id now username password db).0 in
        (login bcrypt jwt answered later username password db'
          ≡ ok (record { success = true; token = token }))
        × (validate_token jwt env moment token ≡ ok id)
  unfolding login login_as claims_of validate_token user_of_token user_of_claims key_for
      with_default text_dec
  register-login salt id username password token outcome now later db env moment named h signed same
        live =
      let (hash, found, matches) =
        registered_user bcrypt law salt id username password outcome now db h in
      (
        ground (arith, found, matches, signed),
        ground (
          arith,
          named,
          jwt_laws.parse-signed_string jwt_secret token _ (key_for env) moment signed (ap ok same)
              live,
        ),
      )

module _ (bcrypt : Bcrypt) (jwt : Jwt) (jwt_laws : JwtLaws jwt) where
  -- `Login` signs with a fixed secret, whatever JWT_SECRET is: where the secret of the environment is
  -- another, no token that `Login` gives out is ever taken.
  pub login_other_secret :
      (outcome : Outcome) (now : Time) (username password token : String) (db : UserDb) (env : Env)
      (moment : ℕ)
      → login bcrypt jwt outcome now username password db
        ≡ ok (record { success = true; token = token })
      → secret env ≢ jwt_secret
      → (e : Error) × (validate_token jwt env moment token ≡ err e)
  unfolding validate_token user_of_token key_for
  login_other_secret outcome now username password token db env moment h differs =
      let (u, known, matches, signed) =
        login_success bcrypt jwt outcome now username password token db h in
      let (e, refused_parse) =
        jwt_laws.parse-other_key jwt_secret (secret env) token (claims_of now u) (key_for env)
          moment signed refl differs in
      (err_signature_invalid, rw refused_parse)
