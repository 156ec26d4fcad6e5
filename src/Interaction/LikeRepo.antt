-- ===== src/Interaction/LikeRepo.antt =====
-- services/interaction/repo.go, the likes: the post_likes table and the SQL statements over it. A
-- text that is no UUID never reaches the database.
pub mod Rows
pub mod Likers
use feeds.Prelude.{
  ℕ, suc, String, ite, Bool, true, false, not, ◌||◌, List, [], ◌∷◌, ◌++◌, Result, ok, Outcome, exec,
  query, wrap, length, text_dec, if◌then◌else◌,
}
use feeds.Interaction.Uuid.{is_valid_uuid}

-- A row of post_likes, but for its time, which no statement reads.
pub record LikeRow : Type 0 where
  pub user_id : String
  pub post_id : String

abbrev pub Likes : Type 0
Likes = List LikeRow

-- `SELECT EXISTS(SELECT 1 FROM post_likes WHERE user_id = $1 AND post_id = $2)`
unfoldable pub has_like : String → String → Likes → Bool
has_like user_id post_id [] = false
has_like user_id post_id (l ∷ likes) =
    let rest = has_like user_id post_id likes in
    ite (text_dec l.user_id user_id) (ite (text_dec l.post_id post_id) true rest) rest

-- `SELECT user_id FROM post_likes WHERE post_id = $1`
unfoldable pub likers : String → Likes → List String
likers post_id [] = []
likers post_id (l ∷ likes) =
    let rest = likers post_id likes in ite (text_dec l.post_id post_id) (l.user_id ∷ rest) rest

-- `INSERT INTO post_likes … ON CONFLICT (user_id, post_id) DO NOTHING`
unfoldable pub insert_like : String → String → Likes → Likes
unfolding has_like
insert_like user_id post_id likes =
    if has_like user_id post_id likes
    then likes
    else likes ++ (record { user_id = user_id; post_id = post_id } ∷ [])

-- `DELETE FROM post_likes WHERE user_id = $1 AND post_id = $2`
unfoldable pub delete_like : String → String → Likes → Likes
delete_like user_id post_id [] = []
delete_like user_id post_id (l ∷ likes) =
    let rest = delete_like user_id post_id likes in
    ite (text_dec l.user_id user_id) (ite (text_dec l.post_id post_id) rest (l ∷ rest)) (l ∷ rest)

unfoldable pub insert : Outcome → String → String → Likes → Likes × Result (Unit {0})
unfolding exec wrap
insert outcome user_id post_id likes =
    if not (is_valid_uuid user_id) || not (is_valid_uuid post_id)
    then (likes, ok tt)
    else (let (likes', r) = exec outcome (λ t. (insert_like user_id post_id t, tt)) likes in
        (likes', wrap "insert like: " r))

unfoldable pub delete : Outcome → String → String → Likes → Likes × Result (Unit {0})
unfolding exec wrap
delete outcome user_id post_id likes =
    if not (is_valid_uuid user_id) || not (is_valid_uuid post_id)
    then (likes, ok tt)
    else (let (likes', r) = exec outcome (λ t. (delete_like user_id post_id t, tt)) likes in
        (likes', wrap "delete like: " r))

unfoldable pub count : Outcome → String → Likes → Result ℕ
unfolding query wrap
count outcome post_id likes =
    if not (is_valid_uuid post_id)
    then ok 0
    else wrap "count likes: " (query outcome (λ t. length (likers post_id t)) likes)

unfoldable pub is_liked : Outcome → String → String → Likes → Result Bool
unfolding query wrap
is_liked outcome user_id post_id likes =
    if not (is_valid_uuid user_id) || not (is_valid_uuid post_id)
    then ok false
    else wrap "is liked: " (query outcome (has_like user_id post_id) likes)

unfoldable pub list_likers : Outcome → String → Likes → Result (List String)
unfolding query wrap
list_likers outcome post_id likes =
    if not (is_valid_uuid post_id)
    then ok []
    else wrap "list likers: " (query outcome (likers post_id) likes)
