-- ===== src/Auth.antt =====
-- pkg/auth/auth.go: the tokens of the JWT package, which is a parameter, and what the program does
-- with them. The environment is a function from a variable's name to its value, "" if it is unset.
pub mod Decisions
use feeds.Prelude.{
  ℕ, ◌≡◌, ◌≢◌, ◌<◌, String, ite, Bool, true, false, Option, none, some, List, [], ◌∷◌, Error,
  message, Result, ok, err, text_dec, with_default, ◌==◌, if◌then◌else◌,
}
use Prim.Native.Char.{code}

-- The claims that the program puts into a token; a claim may be missing, or not be a text.
pub record MapClaims : Type 0 where
  pub user_id : Option String
  pub username : Option String
  pub exp : ℕ

-- The signing method that a token names.
pub data Method : Type 0 where
  hmac other_method : Method

-- A parsed token. The claims are missing if they are not a map.
pub record Token : Type 0 where
  pub valid : Bool
  pub claims : Option MapClaims

-- `SignedString` with HS256, and `Parse`, at a time in seconds, with the function that picks the key.
pub record Jwt : Type 0 where
  pub signed_string : String → MapClaims → Result String
  pub parse : (Method → Result String) → ℕ → String → Result Token

-- The documented behaviour: a token signed with HS256 is parsed as valid, with its claims, by the same
-- key, as long as it has not expired.
pub record JwtLaws (jwt : Jwt) : Type 0 where
  pub parse-signed_string :
      (key token : String) (claims : MapClaims) (pick : Method → Result String) (now : ℕ)
      → jwt.signed_string key claims ≡ ok token
      → pick hmac ≡ ok key
      → now < claims.exp
      → jwt.parse pick now token ≡ ok (record { valid = true; claims = some claims })
  -- Under another key its signature is invalid.
  pub parse-other_key :
      (key other token : String) (claims : MapClaims) (pick : Method → Result String) (now : ℕ)
      → jwt.signed_string key claims ≡ ok token
      → pick hmac ≡ ok other
      → other ≢ key
      → (e : Error) × (jwt.parse pick now token ≡ err e)

abbrev pub Env : Type 0
Env = String → String

abbrev pub err_signature_invalid : Error
err_signature_invalid = message "signature is invalid"

unfoldable pub secret : Env → String
secret env = ite (text_dec (env "JWT_SECRET") "") "feeds-dev-secret" (env "JWT_SECRET")

-- The function that the parser asks for a key.
unfoldable pub key_for : Env → Method → Result String
unfolding secret
key_for env hmac = ok (secret env)
key_for env other_method = err err_signature_invalid

unfoldable pub user_of_claims : Option MapClaims → Result String
unfolding with_default
user_of_claims none = err err_signature_invalid
user_of_claims (some claims) =
    ite (text_dec (with_default claims.user_id) "") (err err_signature_invalid)
      (ok (with_default claims.user_id))

unfoldable pub user_of_token : Result Token → Result String
unfolding user_of_claims
user_of_token (err e) = err err_signature_invalid
user_of_token (ok token) =
    if token.valid then user_of_claims token.claims else err err_signature_invalid

unfoldable pub validate_token : Jwt → Env → ℕ → String → Result String
unfolding key_for user_of_token
validate_token jwt env now token = user_of_token (jwt.parse (key_for env) now token)

-- What the middleware does with a request: refuses it with a body, or passes it on, for a public path
-- with the user of the context as it was.
pub data Decision : Type 0 where
  unauthorized : String → Decision
  pass_public : Decision
  pass_as : String → Decision

-- What is left of a text without its prefix, if it has that prefix.
unfoldable pub trim_prefix : String → String → Option String
trim_prefix String.[] s = some s
trim_prefix (String.◌∷◌ c p) String.[] = none
trim_prefix (String.◌∷◌ c p) (String.◌∷◌ d s) =
    let rest = trim_prefix p s in if code c == code d then rest else none

unfoldable pub is_public : String → List String → Bool
is_public path [] = false
is_public path (p ∷ public_paths) = ite (text_dec path p) true (is_public path public_paths)

decide_claims : Option MapClaims → Decision
unfolding with_default
decide_claims none = unauthorized "{\"error\":\"invalid token claims\"}"
decide_claims (some claims) =
    ite (text_dec (with_default claims.user_id) "")
      (unauthorized "{\"error\":\"missing user_id in token\"}")
      (pass_as (with_default claims.user_id))

decide_token : Result Token → Decision
unfolding decide_claims
decide_token (err e) = unauthorized "{\"error\":\"invalid token\"}"
decide_token (ok token) =
    if token.valid then decide_claims token.claims else unauthorized "{\"error\":\"invalid token\"}"

unfoldable pub middleware : Jwt → Env → ℕ → List String → String → String → Decision
unfolding is_public trim_prefix key_for decide_token
middleware jwt env now public_paths path header =
    if is_public path public_paths then pass_public else (elim (trim_prefix "Bearer " header) [
      | none ↦ unauthorized "{\"error\":\"missing authorization header\"}"
      | some token ↦ decide_token (jwt.parse (key_for env) now token)
    ])
