-- ===== src/Tests/User.antt =====
-- Runs of the accounts and of the follows.
use feeds.Prelude.{
  ℕ, ◌<◌, ◌≡◌, ◌≢◌, refl, String, ite, true, false, Option, none, some, [], ◌∷◌, Result, ok, err,
  no_rows, Error, answered, arith, text_dec, ne_of_test, ltb, ◌==◌, if◌then◌else◌,
}
use feeds.User.Repo.{User, UserDb, create, insert_user, user_of_name}
use feeds.User.Service.{Bcrypt, BcryptLaw, register, login}
use feeds.User.Service.Accounts.{register-login}
use feeds.Auth.{Jwt, JwtLaws, Env, MapClaims, hmac, Token, secret, validate_token}

abbrev user : String → String → User
user id username = record {
  id = id;
  username = username;
  password = "pw";
  avatar_url = "";
  created_at = 0;
  updated_at = 0;
}

abbrev pub two_users : UserDb
two_users = record { users = user "u1" "ann" ∷ user "u2" "bob" ∷ []; follows = [] }

-- A hash is the password itself.
abbrev pub bcrypt : Bcrypt
bcrypt = record {
  generate_from_password = λ salt password. ok password;
  compare_hash_and_password = λ hash password. ite (text_dec hash password) true false;
}

ok-injective {ℓ} : {A : Type ℓ} {a b : A} → ok a ≡ ok b → a ≡ b
ok-injective p = cc p

bcrypt_law : BcryptLaw bcrypt
bcrypt_law salt password hash h = ground (arith, ok-injective h)

-- One claim can be signed, that of ann until the second 259205; a token is the key that signed it.
abbrev pub ann_claims : MapClaims
ann_claims = record { user_id = some "u1"; username = some "ann"; exp = 259205 }

abbrev pub signed_string : String → MapClaims → Result String
signed_string key claims = elim claims.user_id [
  | none ↦ err no_rows
  | some id ↦ elim claims.username [
    | none ↦ err no_rows
    | some name ↦
        ite (text_dec id "u1")
          (ite (text_dec name "ann") (if claims.exp == 259205 then ok key else err no_rows)
            (err no_rows))
          (err no_rows)
  ]
]

abbrev pub parse_with : Result String → ℕ → String → Result Token
parse_with (err e) now token = err e
parse_with (ok key) now token =
    ite (text_dec key token)
      (if ltb now 259205
        then ok (record { valid = true; claims = some ann_claims })
        else err no_rows)
      (err no_rows)

abbrev pub jwt : Jwt
jwt = record {
  signed_string = signed_string;
  parse = λ pick now token. parse_with (pick hmac) now token;
}

signed_string_ok :
    (id name : Option String) (exp : ℕ) (key token : String)
    → signed_string key (record { user_id = id; username = name; exp = exp }) ≡ ok token
    → (key ≡ token)
      × (◌≡◌ {A = MapClaims} (record { user_id = id; username = name; exp = exp }) ann_claims)
signed_string_ok none name exp key token h = ground (arith, h)
signed_string_ok (some id) none exp key token h = ground (arith, h)
signed_string_ok (some id) (some name) exp key token h = ground (arith, h)

parse_ok :
    (key token : String) (claims : MapClaims) (r : Result String) (now : ℕ)
    → signed_string key claims ≡ ok token
    → r ≡ ok key
    → now < claims.exp
    → parse_with r now token ≡ ok (record { valid = true; claims = some claims })
parse_ok key token claims r now h p live =
    let (same, only) = signed_string_ok claims.user_id claims.username claims.exp key token h in
    rw p (ground (arith, same, only, live))

parse_other :
    (key other token : String) (claims : MapClaims) (r : Result String) (now : ℕ)
    → signed_string key claims ≡ ok token
    → r ≡ ok other
    → other ≢ key
    → (e : Error) × (parse_with r now token ≡ err e)
parse_other key other token claims r now h p differs =
    let (same, only) = signed_string_ok claims.user_id claims.username claims.exp key token h in
    (no_rows, rw p (ground (arith, same, differs)))

pub jwt_laws : JwtLaws jwt
jwt_laws = record {
  parse-signed_string =
      λ key token claims pick now h p live. parse_ok key token claims (pick hmac) now h p live;
  parse-other_key = λ key other token claims pick now h p differs.
      parse_other key other token claims (pick hmac) now h p differs;
}

abbrev pub no_env : Env
no_env name = ""

abbrev no_users : UserDb
no_users = record { users = []; follows = [] }

register-login_example :
    let db' = (register bcrypt answered "salt" "u1" 0 "ann" "pw" no_users).0 in
    (login bcrypt jwt answered 5000000 "ann" "pw" db'
      ≡ ok (record { success = true; token = "feeds-dev-secret" }))
    × (validate_token jwt no_env 100 "feeds-dev-secret" ≡ ok "u1")
unfolding register create insert_user user_of_name secret text_dec
register-login_example =
    register-login bcrypt bcrypt_law jwt jwt_laws "salt" "u1" "ann" "pw" "feeds-dev-secret" answered
      0 5000000 no_users no_env 100 (ne_of_test _ _ refl) refl refl refl (omega arith)
