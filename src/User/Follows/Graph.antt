-- ===== src/User/Follows/Graph.antt =====
-- The follow graph under every operation of the user service that changes it.
use mathlib.Core.List.{[]}
use feeds.Prelude.{
  ◌≡◌, inl, inr, String, true, Outcome, answered, refused, lost, arith, Bool-cases, Option-cases,
}
use feeds.Prelude.Pairs.{Pairs, has_pair, add_pair, remove_pair, has_pair-add, has_pair-remove}
use feeds.User.Repo.{User, UserDb, Time, user_of_name, insert_user, delete_user, create, delete}
use feeds.User.Follows.{exists, insert_follow, follow, unfollow}
use feeds.User.Follows.Rows.{
  NamesDistinct, FollowsDistinct, user_of_id-append, user_of_id-remove, remove_user-NamesDistinct,
  append-NamesDistinct, has_pair-drop_follows, drop_follows-FollowsDistinct,
  remove_pair-FollowsDistinct, append-FollowsDistinct,
}

-- Both ends of a follow are users, and nothing stands twice.
pub record IsGraph (db : UserDb) : Type 0 where
  pub ends :
      (a b : String) → has_pair a b db.follows ≡ true → (exists a db ≡ true) × (exists b db ≡ true)
  pub names : NamesDistinct db.users
  pub pairs : FollowsDistinct db.follows

-- What changes the tables, whatever becomes of the statements.
pub data Step (db : UserDb) : UserDb → Type 0 where
  creates :
      (outcome : Outcome) (id : String) (now : Time) (username password_hash : String)
      → Step db (create outcome id now username password_hash db).0
  deletes : (outcome : Outcome) (id : String) → Step db (delete outcome id db).0
  follows :
      (outcome : Outcome) (follower_id followed_id : String)
      → Step db (follow outcome follower_id followed_id db).0
  unfollows :
      (outcome : Outcome) (follower_id followed_id : String)
      → Step db (unfollow outcome follower_id followed_id db).0

pub data Reach : UserDb → Type 0 where
  starts : Reach (record { users = []; follows = [] })
  steps : {db db' : UserDb} → Reach db → Step db db' → Reach db'

insert_user-IsGraph :
    (id : String) (now : Time) (username password : String) (db : UserDb)
    → IsGraph db
    → IsGraph (insert_user id now username password db).0
unfolding insert_user exists
insert_user-IsGraph id now username password db g =
    elim (Option-cases (user_of_name username db.users)) [
      | inr (u, taken) ↦ rw (taken, insert_user) g
      | inl free ↦
          let u : User = record {
            id = id;
            username = username;
            password = password;
            avatar_url = "";
            created_at = now;
            updated_at = now;
          } in
          rw (free, insert_user)
            (record {
              ends = λ a b h. ground (
                arith,
                g.ends a b h,
                user_of_id-append a db.users u,
                user_of_id-append b db.users u,
              );
              names = append-NamesDistinct db.users u g.names free;
              pairs = g.pairs;
            })
    ]

delete_user-IsGraph : (id : String) (db : UserDb) → IsGraph db → IsGraph (delete_user id db)
unfolding delete_user exists
delete_user-IsGraph id db g = record {
  ends = λ a b h. ground (
    arith,
    h,
    has_pair-drop_follows id a b db.follows,
    g.ends a b,
    user_of_id-remove id a db.users,
    user_of_id-remove id b db.users,
  );
  names = remove_user-NamesDistinct id db.users g.names;
  pairs = drop_follows-FollowsDistinct id db.follows g.pairs;
}

add_pair-FollowsDistinct :
    (a b : String) (ps : Pairs) → FollowsDistinct ps → FollowsDistinct (add_pair a b ps)
unfolding add_pair
add_pair-FollowsDistinct a b ps h = elim (Bool-cases (has_pair a b ps)) [
  | inl old ↦ rw (old, add_pair) h
  | inr new ↦ rw (new, add_pair) (append-FollowsDistinct a b ps h new)
]

-- A follow between users.
add_pair-IsGraph :
    (a b : String) (db : UserDb)
    → IsGraph db
    → exists a db ≡ true
    → exists b db ≡ true
    → IsGraph (record db { follows = add_pair a b db.follows })
unfolding exists
add_pair-IsGraph a b db g is_a is_b = record {
  ends = λ u v h. ground (arith, h, has_pair-add a b u v db.follows, g.ends u v);
  names = g.names;
  pairs = add_pair-FollowsDistinct a b db.follows g.pairs;
}

insert_follow-IsGraph : (a b : String) (db : UserDb) → IsGraph db → IsGraph (insert_follow a b db).0
unfolding insert_follow
insert_follow-IsGraph a b db g = elim (Bool-cases (exists a db)) [
  | inr no_a ↦ rw (no_a, insert_follow) g
  | inl is_a ↦ elim (Bool-cases (exists b db)) [
    | inr no_b ↦ rw (is_a, no_b, insert_follow) g
    | inl is_b ↦ rw (is_a, is_b, insert_follow) (add_pair-IsGraph a b db g is_a is_b)
  ]
]

remove_pair-IsGraph :
    (a b : String) (db : UserDb)
    → IsGraph db
    → IsGraph (record db { follows = remove_pair a b db.follows })
unfolding exists
remove_pair-IsGraph a b db g = record {
  ends = λ u v h. ground (arith, h, has_pair-remove a b u v db.follows, g.ends u v);
  names = g.names;
  pairs = remove_pair-FollowsDistinct a b db.follows g.pairs;
}

Step-IsGraph : {db db' : UserDb} → Step db db' → IsGraph db → IsGraph db'
unfolding create delete follow unfollow
Step-IsGraph (creates answered id now name hash) g = insert_user-IsGraph id now name hash _ g
Step-IsGraph (creates (refused e) id now name hash) g = g
Step-IsGraph (creates (lost e) id now name hash) g = insert_user-IsGraph id now name hash _ g
Step-IsGraph (deletes answered id) g = delete_user-IsGraph id _ g
Step-IsGraph (deletes (refused e) id) g = g
Step-IsGraph (deletes (lost e) id) g = delete_user-IsGraph id _ g
Step-IsGraph (follows answered a b) g = insert_follow-IsGraph a b _ g
Step-IsGraph (follows (refused e) a b) g = g
Step-IsGraph (follows (lost e) a b) g = insert_follow-IsGraph a b _ g
Step-IsGraph (unfollows answered a b) g = remove_pair-IsGraph a b _ g
Step-IsGraph (unfollows (refused e) a b) g = g
Step-IsGraph (unfollows (lost e) a b) g = remove_pair-IsGraph a b _ g

empty-IsGraph : IsGraph (record { users = []; follows = [] })
unfolding has_pair
empty-IsGraph = record { ends = λ a b h. cc h; names = tt; pairs = tt }

-- Whatever sequence of registrations, deletions, follows and unfollows has run, and whichever of
-- their statements failed or lost their answer: both ends of every follow are users, no username
-- and no follow stands twice.
pub Reach-IsGraph : {db : UserDb} → Reach db → IsGraph db
Reach-IsGraph starts = empty-IsGraph
Reach-IsGraph (steps r s) = Step-IsGraph s (Reach-IsGraph r)
