-- ===== src/User/Repo.antt =====
-- services/user/repo.go and model.go, the users: the users table and the SQL statements over it.
-- The identifier and the time that an INSERT gives a row are arguments. The constraints are those
-- of services/user/migrations: usernames are unique, and a user's follows go with the user.
use feeds.Prelude.{
  ℕ, String, ite, Option, none, some, List, [], ◌∷◌, ◌++◌, Error, no_rows, message, Result, ok, err,
  ◌>>=◌, Outcome, exec, query, wrap, text_dec,
}
use feeds.Prelude.Pairs.{Pairs}

abbrev pub Time : Type 0
Time = ℕ

pub record User : Type 0 where
  pub id : String
  pub username : String
  pub password : String
  pub avatar_url : String
  pub created_at : Time
  pub updated_at : Time

-- The tables of the schema; a follow is the ids of the follower and of the followed.
pub record UserDb : Type 0 where
  pub users : List User
  pub follows : Pairs

-- `SELECT … FROM users WHERE id = $1`
unfoldable pub user_of_id : String → List User → Option User
user_of_id id [] = none
user_of_id id (u ∷ users) = ite (text_dec u.id id) (some u) (user_of_id id users)

-- `SELECT … FROM users WHERE username = $1`
unfoldable pub user_of_name : String → List User → Option User
user_of_name username [] = none
user_of_name username (u ∷ users) =
    ite (text_dec u.username username) (some u) (user_of_name username users)

abbrev pub err_duplicate : Error
err_duplicate = message "duplicate key value violates unique constraint"

-- `INSERT INTO users … RETURNING id, created_at, updated_at`
unfoldable pub insert_user : String → Time → String → String → UserDb → UserDb × Result User
unfolding user_of_name
insert_user id now username password db =
    let row : User = record {
      id = id;
      username = username;
      password = password;
      avatar_url = "";
      created_at = now;
      updated_at = now;
    } in
    elim (user_of_name username db.users) [
      | some u ↦ (db, err err_duplicate)
      | none ↦ (record db { users = db.users ++ (row ∷ []) }, ok row)
    ]

unfoldable pub remove_user : String → List User → List User
remove_user id [] = []
remove_user id (u ∷ users) =
    let rest = remove_user id users in ite (text_dec u.id id) rest (u ∷ rest)

-- The follows in which the user has no part.
unfoldable pub drop_follows : String → Pairs → Pairs
drop_follows id [] = []
drop_follows id (p ∷ ps) =
    let rest = drop_follows id ps in
    ite (text_dec p.0 id) rest (ite (text_dec p.1 id) rest (p ∷ rest))

-- `DELETE FROM users WHERE id = $1`, which cascades.
unfoldable pub delete_user : String → UserDb → UserDb
unfolding remove_user drop_follows
delete_user id db = record { users = remove_user id db.users; follows = drop_follows id db.follows }

unfoldable pub create : Outcome → String → Time → String → String → UserDb → UserDb × Result User
unfolding exec wrap
create outcome id now username password_hash db =
    let (db', r) = exec outcome (insert_user id now username password_hash) db in
    (db', wrap "create user: " (r >>= λ answer. answer))

row_or_error : Option User → Result User
row_or_error none = err no_rows
row_or_error (some u) = ok u

unfoldable pub find_by_id : Outcome → String → UserDb → Result User
unfolding query wrap row_or_error
find_by_id outcome id db =
    wrap "find user by id: "
      (query outcome (λ t. user_of_id id (UserDb.users t)) db >>= row_or_error)

unfoldable pub find_by_username : Outcome → String → UserDb → Result User
unfolding query wrap row_or_error
find_by_username outcome username db =
    wrap "find user by username: "
      (query outcome (λ t. user_of_name username (UserDb.users t)) db >>= row_or_error)

unfoldable pub delete : Outcome → String → UserDb → UserDb × Result (Unit {0})
unfolding exec
delete outcome id db = exec outcome (λ t. (delete_user id t, tt)) db
