-- ===== src/User/Follows/Rows.antt =====
-- The rows of the users and of the follows under each statement.
use mathlib.Core.List.{List, [], ◌∷◌, ◌++◌}
use feeds.Prelude.{◌≡◌, ◌≢◌, refl, String, ite, false, none, some, arith, text_dec}
use feeds.Prelude.Pairs.{Pairs, has_pair, remove_pair, has_pair-append, has_pair-remove}
use feeds.User.Repo.{User, user_of_id, user_of_name, remove_user, drop_follows}

-- Usernames are unique, as the constraint has it.
abbrev pub NamesDistinct : List User → Type 0
NamesDistinct [] = Unit
NamesDistinct (u ∷ users) = (user_of_name u.username users ≡ none) × NamesDistinct users

-- No pair of users stands twice in the table, as the primary key has it.
abbrev pub FollowsDistinct : Pairs → Type 0
FollowsDistinct [] = Unit
FollowsDistinct (p ∷ ps) = (has_pair p.0 p.1 ps ≡ false) × FollowsDistinct ps

pub user_of_name-append :
    (username : String) (users : List User) (u : User)
    → user_of_name username users ≡ none
    → user_of_name username (users ++ (u ∷ [])) ≡ ite (text_dec u.username username) (some u) none
unfolding user_of_name
user_of_name-append username [] u h = refl
user_of_name-append username (v ∷ users) u h = ground (arith, user_of_name-append username users u)

pub user_of_id-append :
    (id : String) (users : List User) (u : User)
    → user_of_id id users ≢ none
    → user_of_id id (users ++ (u ∷ [])) ≡ user_of_id id users
unfolding user_of_id
user_of_id-append id [] u h = absurd (h refl)
user_of_id-append id (v ∷ users) u h = ground (arith, user_of_id-append id users u)

pub user_of_id-remove :
    (id j : String) (users : List User)
    → user_of_id j (remove_user id users) ≡ ite (text_dec j id) none (user_of_id j users)
unfolding user_of_id remove_user
user_of_id-remove id j [] = ground arith
user_of_id-remove id j (u ∷ users) = ground (arith, user_of_id-remove id j users)

pub user_of_name-remove :
    (id username : String) (users : List User)
    → user_of_name username users ≡ none
    → user_of_name username (remove_user id users) ≡ none
unfolding user_of_name remove_user
user_of_name-remove id username [] h = refl
user_of_name-remove id username (u ∷ users) h =
    ground (arith, user_of_name-remove id username users)

pub remove_user-NamesDistinct :
    (id : String) (users : List User) → NamesDistinct users → NamesDistinct (remove_user id users)
unfolding remove_user
remove_user-NamesDistinct id [] h = tt
remove_user-NamesDistinct id (u ∷ users) h =
    ground (arith, user_of_name-remove id u.username users, remove_user-NamesDistinct id users h.1)

pub append-NamesDistinct :
    (users : List User) (u : User)
    → NamesDistinct users
    → user_of_name u.username users ≡ none
    → NamesDistinct (users ++ (u ∷ []))
unfolding user_of_name
append-NamesDistinct [] u h new = (refl, tt)
append-NamesDistinct (v ∷ users) u h new =
    ground (arith, user_of_name-append v.username users u, append-NamesDistinct users u h.1)

pub has_pair-drop_follows :
    (id a b : String) (ps : Pairs)
    → has_pair a b (drop_follows id ps)
      ≡ ite (text_dec a id) false (ite (text_dec b id) false (has_pair a b ps))
unfolding has_pair drop_follows
has_pair-drop_follows id a b [] = ground arith
has_pair-drop_follows id a b (p ∷ ps) = ground (arith, has_pair-drop_follows id a b ps)

pub drop_follows-FollowsDistinct :
    (id : String) (ps : Pairs) → FollowsDistinct ps → FollowsDistinct (drop_follows id ps)
unfolding drop_follows
drop_follows-FollowsDistinct id [] h = tt
drop_follows-FollowsDistinct id (p ∷ ps) h =
    ground (arith, has_pair-drop_follows id p.0 p.1 ps, drop_follows-FollowsDistinct id ps h.1)

pub remove_pair-FollowsDistinct :
    (a b : String) (ps : Pairs) → FollowsDistinct ps → FollowsDistinct (remove_pair a b ps)
unfolding remove_pair
remove_pair-FollowsDistinct a b [] h = tt
remove_pair-FollowsDistinct a b (p ∷ ps) h =
    ground (arith, has_pair-remove a b p.0 p.1 ps, remove_pair-FollowsDistinct a b ps h.1)

pub append-FollowsDistinct :
    (a b : String) (ps : Pairs)
    → FollowsDistinct ps
    → has_pair a b ps ≡ false
    → FollowsDistinct (ps ++ ((a, b) ∷ []))
unfolding has_pair
append-FollowsDistinct a b [] h new = (refl, tt)
append-FollowsDistinct a b (p ∷ ps) h new =
    ground (arith, has_pair-append a b p.0 p.1 ps, append-FollowsDistinct a b ps h.1)
