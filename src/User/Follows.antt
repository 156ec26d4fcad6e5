-- ===== src/User/Follows.antt =====
-- services/user/repo.go, the follows: the statements over the follows table.
pub mod Rows
pub mod Graph
pub mod Changes
use feeds.Prelude.{
  ℕ, String, ite, Bool, true, false, Option, none, some, List, [], ◌∷◌, Error, message, Result, ok,
  err, ◌>>=◌, Outcome, exec, query, wrap, length, text_dec, ◌&&◌, if◌then◌else◌,
}
use feeds.Prelude.Pairs.{Pairs, has_pair, add_pair, remove_pair}
use feeds.User.Repo.{UserDb, user_of_id}

abbrev pub err_reference : Error
err_reference = message "insert violates foreign key constraint"

unfoldable pub exists : String → UserDb → Bool
unfolding user_of_id
exists id db = elim (user_of_id id db.users) [ none ↦ false | some u ↦ true ]

-- `INSERT INTO follows … ON CONFLICT (follower_id, followed_id) DO NOTHING`, where both ids refer to
-- users.
unfoldable pub insert_follow : String → String → UserDb → UserDb × Result (Unit {0})
unfolding exists add_pair
insert_follow follower_id followed_id db =
    if exists follower_id db && exists followed_id db
    then (record db { follows = add_pair follower_id followed_id db.follows }, ok tt)
    else (db, err err_reference)

-- `SELECT follower_id FROM follows WHERE followed_id = $1`
unfoldable pub followers_of : String → Pairs → List String
followers_of id [] = []
followers_of id (p ∷ ps) = let rest = followers_of id ps in ite (text_dec p.1 id) (p.0 ∷ rest) rest

-- `SELECT followed_id FROM follows WHERE follower_id = $1`
unfoldable pub followed_by : String → Pairs → List String
followed_by id [] = []
followed_by id (p ∷ ps) = let rest = followed_by id ps in ite (text_dec p.0 id) (p.1 ∷ rest) rest

unfoldable pub follow : Outcome → String → String → UserDb → UserDb × Result (Unit {0})
unfolding exec wrap
follow outcome follower_id followed_id db =
    let (db', r) = exec outcome (insert_follow follower_id followed_id) db in
    (db', wrap "follow: " (r >>= λ answer. answer))

unfoldable pub unfollow : Outcome → String → String → UserDb → UserDb × Result (Unit {0})
unfolding exec wrap
unfollow outcome follower_id followed_id db =
    let (db', r) =
      exec outcome
        (λ t. (record t { follows = remove_pair follower_id followed_id (UserDb.follows t) }, tt))
        db in
    (db', wrap "unfollow: " r)

-- The order is that of ORDER BY created_at DESC.
unfoldable pub get_followers :
    (List String → List String) → Outcome → String → UserDb → Result (List String)
unfolding query wrap
get_followers by_created_at outcome user_id db =
    wrap "get followers: "
      (query outcome (λ t. by_created_at (followers_of user_id (UserDb.follows t))) db)

unfoldable pub get_following :
    (List String → List String) → Outcome → String → UserDb → Result (List String)
unfolding query wrap
get_following by_created_at outcome user_id db =
    wrap "get following: "
      (query outcome (λ t. by_created_at (followed_by user_id (UserDb.follows t))) db)

unfoldable pub is_following : Outcome → String → String → UserDb → Result Bool
unfolding query wrap
is_following outcome follower_id followed_id db =
    wrap "is following: "
      (query outcome (λ t. has_pair follower_id followed_id (UserDb.follows t)) db)

unfoldable pub count_followers : Outcome → String → UserDb → Result ℕ
unfolding query wrap
count_followers outcome user_id db =
    wrap "count followers: "
      (query outcome (λ t. length (followers_of user_id (UserDb.follows t))) db)

unfoldable pub count_following : Outcome → String → UserDb → Result ℕ
unfolding query wrap
count_following outcome user_id db =
    wrap "count following: "
      (query outcome (λ t. length (followed_by user_id (UserDb.follows t))) db)
