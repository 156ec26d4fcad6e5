-- ===== src/User/Follows/Changes.antt =====
-- What following, unfollowing and deleting a user change in the follow graph.
use feeds.Prelude.{◌≡◌, ◌≢◌, ◌⊎◌, String, true, false, ok, answered, arith}
use feeds.Prelude.Pairs.{has_pair, add_pair, has_pair-append, has_pair-remove}
use feeds.User.Repo.{UserDb, delete_user, delete}
use feeds.User.Follows.{exists, insert_follow, follow, unfollow, is_following}
use feeds.User.Follows.Rows.{has_pair-drop_follows}

-- A follow that has answered success shows in `IsFollowing`, leaves every other pair of users as it
-- was, and when it is asked for again changes nothing and answers success.
pub follow-is_following :
    (a b : String) (db : UserDb)
    → (follow answered a b db).1 ≡ ok tt
    → let db' = (follow answered a b db).0 in
      (is_following answered a b db' ≡ ok true)
      × ((u v : String) → (u ≢ a) ⊎ (v ≢ b) → has_pair u v db'.follows ≡ has_pair u v db.follows)
      × (follow answered a b db' ≡ (db', ok tt))
unfolding follow is_following insert_follow exists add_pair
follow-is_following a b db h = (
  ground (arith, h, has_pair-append a b a b db.follows),
  λ u v other. ground (arith, h, other, has_pair-append a b u v db.follows),
  ground (arith, h, has_pair-append a b a b db.follows),
)

-- After an unfollow that the database answers the pair is gone, and every other pair is as it was;
-- after the deletion of a user nobody follows that user and the user follows nobody.
pub unfollow-is_following :
    (a b id : String) (db : UserDb)
    → (is_following answered a b (unfollow answered a b db).0 ≡ ok false)
      × ((u v : String)
          → (u ≢ a) ⊎ (v ≢ b)
          → has_pair u v (unfollow answered a b db).0.follows ≡ has_pair u v db.follows)
      × (is_following answered a id (delete answered id db).0 ≡ ok false)
      × (is_following answered id b (delete answered id db).0 ≡ ok false)
unfolding unfollow is_following delete delete_user
unfollow-is_following a b id db = (
  ground (arith, has_pair-remove a b a b db.follows),
  λ u v other. ground (arith, other, has_pair-remove a b u v db.follows),
  ground (arith, has_pair-drop_follows id a id db.follows),
  ground (arith, has_pair-drop_follows id id b db.follows),
)
