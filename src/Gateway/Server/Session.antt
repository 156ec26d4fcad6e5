-- ===== src/Gateway/Server/Session.antt =====
-- A login at the user service, and the requests that its token is good for.
use Prim.Native.String.{◌++◌ as append}
use text.Mathlib.TextLemmas.{nil-append, cons-append}
use feeds.Prelude.{
  ◌+◌, ◌*◌, ◌/◌, ◌<◌, ◌≡◌, ◌≢◌, ◌∙◌, ap, String, true, false, some, ok, arith, Outcome,
  with_default,
}
use feeds.Auth.{
  JwtLaws, secret, key_for, validate_token, user_of_token, user_of_claims, trim_prefix, is_public,
  pass_as,
}
use feeds.Auth.Decisions.{Names, middleware-validate_token}
use feeds.User.Repo.{Time, User, UserDb, user_of_name}
use feeds.User.Service.{Bcrypt, jwt_secret, login, claims_of}
use feeds.User.Service.Accounts.{login_success}
use feeds.Gateway.Http.{Request}
use feeds.Gateway.Server.{Gateway, Moment, public_paths, serve_http, serve}
use feeds.Gateway.Server.Admission.{served_as}

trim_prefix-append : (p s : String) → trim_prefix p (append p s) ≡ some s
unfolding trim_prefix
trim_prefix-append String.[] s = ap some (nil-append s)
trim_prefix-append (String.◌∷◌ c p) s = ground (arith, trim_prefix-append p s, cons-append c p s)

module _ {S : Type 0} (bcrypt : Bcrypt) (g : Gateway S) (laws : JwtLaws g.jwt) (t : Moment) where
  login-validate_token :
      (now : Time) (u : User) (token : String)
      → g.jwt.signed_string jwt_secret (claims_of now u) ≡ ok token
      → secret g.env ≡ jwt_secret
      → t.now < (now + 72 * 3600 * 1000000) / 1000000
      → u.id ≢ ""
      → validate_token g.jwt g.env t.now token ≡ ok u.id
  unfolding validate_token user_of_token user_of_claims key_for with_default claims_of
  login-validate_token now u token signed one_secret fresh named =
      let parsed =
        laws.parse-signed_string jwt_secret token (claims_of now u) (key_for g.env) t.now signed
          (ap ok one_secret) fresh in
      ground (arith, parsed, named)

  -- Once `Login` answers success with a token, the user of that name is in the table, with a hash that
  -- matches the password; and every request that carries the token as a Bearer token, within 72 hours
  -- and on a path that is not public, is served as that user, if the id is not empty and the gateway's
  -- secret is the one that `Login` signs with.
  pub login_admits :
      (outcome : Outcome) (now : Time) (username password token : String) (db : UserDb)
      (r : Request) (s : S)
      → login bcrypt g.jwt outcome now username password db
        ≡ ok (record { success = true; token = token })
      → secret g.env ≡ jwt_secret
      → t.now < (now + 72 * 3600 * 1000000) / 1000000
      → r.authorization ≡ append "Bearer " token
      → is_public r.path public_paths ≡ false
      → (u : User) × (user_of_name username db.users ≡ some u)
        × (bcrypt.compare_hash_and_password u.password password ≡ true)
        × (u.id ≢ "" → serve g t r s ≡ serve_http g t r u.id s)
  unfolding Names
  login_admits outcome now username password token db r s success one_secret fresh header closed =
      let (u, known, matches, signed) =
        login_success bcrypt g.jwt outcome now username password token db success in
      (
        u,
        known,
        matches,
        λ named.
            let valid = login-validate_token now u token signed one_secret fresh named in
            let named_by : Names g.jwt g.env t.now r.authorization u.id = (
              token,
              ap (trim_prefix "Bearer ") header ∙ trim_prefix-append "Bearer " token,
              valid,
            ) in
            served_as g t r s (pass_as u.id) (
              (((middleware-validate_token g.jwt g.env t.now public_paths r.path r.authorization).1
                    closed).0
                  u.id).1
                named_by),
      )
