-- ===== src/User/Service.antt =====
-- services/user/service.go: the gRPC methods over the users, the follows, bcrypt and JWT. bcrypt and
-- the JWT package are parameters; times are microseconds, and a token's are seconds.
pub mod Accounts
use feeds.Prelude.{
  ℕ, ◌+◌, ◌*◌, ◌/◌, ◌≡◌, String, Bool, true, false, Option, none, some, List, Result, ok, err,
  Outcome, ◌>>=◌, is_no_rows, if◌then◌else◌,
}
use feeds.User.Repo.{Time, User, UserDb, create, find_by_id, find_by_username, delete}
use feeds.User.Follows
use feeds.Auth.{Jwt, MapClaims}

-- `GenerateFromPassword`, which takes a salt, and whether `CompareHashAndPassword` answers nil.
pub record Bcrypt : Type 0 where
  pub generate_from_password : String → String → Result String
  pub compare_hash_and_password : String → String → Bool

-- The documented behaviour: a hash matches the password that it was made from.
abbrev pub BcryptLaw : Bcrypt → Type 0
BcryptLaw bcrypt =
    (salt password hash : String)
    → bcrypt.generate_from_password salt password ≡ ok hash
    → bcrypt.compare_hash_and_password hash password ≡ true

abbrev pub jwt_secret : String
jwt_secret = "feeds-dev-secret"

-- `user.LoginResp`
pub record LoginResp : Type 0 where
  pub success : Bool
  pub token : String

-- `user.GetInfoResp`
pub record GetInfoResp : Type 0 where
  pub id : String
  pub username : String
  pub avatar_url : String

unfoldable pub register :
    Bcrypt → Outcome → String → String → Time → String → String → UserDb → UserDb × Result String
register bcrypt outcome salt id now username password db =
    elim (bcrypt.generate_from_password salt password) [
      | err e ↦ (db, err e)
      | ok hash ↦
          let (db', created) = create outcome id now username hash db in
          (db', created >>= λ u. ok (User.id u))
    ]

-- The claims of a user's token, which expires 72 hours from now.
unfoldable pub claims_of : Time → User → MapClaims
claims_of now u = record {
  user_id = some u.id;
  username = some u.username;
  exp = (now + 72 * 3600 * 1000000) / 1000000;
}

abbrev refused_login : LoginResp
refused_login = record { success = false; token = "" }

-- `Login` once the user is found.
unfoldable pub login_as : Bcrypt → Jwt → Time → String → User → Result LoginResp
unfolding claims_of
login_as bcrypt jwt now password u =
    if bcrypt.compare_hash_and_password u.password password
    then (do
      signed ← jwt.signed_string jwt_secret (claims_of now u)
      ok (record { success = true; token = signed }))
    else ok refused_login

unfoldable pub login : Bcrypt → Jwt → Outcome → Time → String → String → UserDb → Result LoginResp
login bcrypt jwt outcome now username password db = elim (find_by_username outcome username db) [
  | err e ↦ if is_no_rows e then ok refused_login else err e
  | ok u ↦ login_as bcrypt jwt now password u
]

unfoldable pub get_info : Outcome → String → UserDb → Result GetInfoResp
get_info outcome id db = find_by_id outcome id db >>= λ u.
    ok (record { id = User.id u; username = User.username u; avatar_url = User.avatar_url u })

-- `Success` of the methods that answer nothing else.
abbrev succeeded : Result (Unit {0}) → Result Bool
succeeded (ok _) = ok true
succeeded (err e) = err e

unfoldable pub unregister : Outcome → String → UserDb → UserDb × Result Bool
unregister outcome id db = let (db', done) = delete outcome id db in (db', succeeded done)

unfoldable pub follow : Outcome → String → String → UserDb → UserDb × Result Bool
follow outcome follower_id followed_id db =
    let (db', done) = Follows.follow outcome follower_id followed_id db in (db', succeeded done)

unfoldable pub unfollow : Outcome → String → String → UserDb → UserDb × Result Bool
unfollow outcome follower_id followed_id db =
    let (db', done) = Follows.unfollow outcome follower_id followed_id db in (db', succeeded done)

-- `GetFollowers`, `GetFollowing` and `IsFollowing` answer what the repository answers.
abbrev pub get_followers :
    (List String → List String) → Outcome → String → UserDb → Result (List String)
get_followers = Follows.get_followers

abbrev pub get_following :
    (List String → List String) → Outcome → String → UserDb → Result (List String)
get_following = Follows.get_following

abbrev pub is_following : Outcome → String → String → UserDb → Result Bool
is_following = Follows.is_following
