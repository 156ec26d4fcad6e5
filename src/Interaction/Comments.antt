-- ===== src/Interaction/Comments.antt =====
-- services/interaction/repo.go, the comments and the bookmarks: the post_comments and post_bookmarks
-- tables and the SQL statements over them. The identifier and the time of a comment are arguments,
-- and so is the order of ORDER BY created_at DESC.
pub mod Changes
use feeds.Prelude.{
  ℕ, ◌-◌, ◌*◌, String, ite, Bool, true, false, Option, none, some, List, [], ◌∷◌, ◌++◌, Error,
  message, Result, ok, err, ◌>>=◌, Outcome, exec, query, wrap, length, take, drop, text_dec, ◌==◌,
  if◌then◌else◌,
}
use feeds.Prelude.Pairs.{Pairs, has_pair, add_pair, remove_pair}

abbrev pub Time : Type 0
Time = ℕ

pub record Comment : Type 0 where
  pub id : String
  pub user_id : String
  pub post_id : String
  pub content : String
  pub created_at : Time

-- `INSERT INTO post_comments … RETURNING id, created_at`
unfoldable pub insert_comment :
    String → Time → String → String → String → List Comment → List Comment × Comment
insert_comment id now user_id post_id content comments =
    let row : Comment = record {
      id = id;
      user_id = user_id;
      post_id = post_id;
      content = content;
      created_at = now;
    } in
    (comments ++ (row ∷ []), row)

-- `SELECT … FROM post_comments WHERE post_id = $1`
unfoldable pub comments_on : String → List Comment → List Comment
comments_on post_id [] = []
comments_on post_id (c ∷ comments) =
    let rest = comments_on post_id comments in ite (text_dec c.post_id post_id) (c ∷ rest) rest

-- `DELETE FROM post_comments WHERE id = $1 AND user_id = $2`
unfoldable pub delete_comments : String → String → List Comment → List Comment
delete_comments id user_id [] = []
delete_comments id user_id (c ∷ comments) =
    let rest = delete_comments id user_id comments in
    ite (text_dec c.id id) (ite (text_dec c.user_id user_id) rest (c ∷ rest)) (c ∷ rest)

unfoldable pub create :
    Outcome
    → String
    → Time
    → String
    → String
    → String
    → List Comment
    → List Comment × Result Comment
unfolding insert_comment exec wrap
create outcome id now user_id post_id content comments =
    let (comments', r) = exec outcome (insert_comment id now user_id post_id content) comments in
    (comments', wrap "create comment: " r)

unfoldable pub list_by_post :
    (List Comment → List Comment)
    → Outcome
    → Outcome
    → String
    → ℕ
    → ℕ
    → List Comment
    → Result (List Comment × ℕ)
unfolding comments_on query wrap
list_by_post by_created_at counting listing post_id page page_size comments = do
  let offset = (page - 1) * page_size
  total ← wrap "count comments: " (query counting (λ t. length (comments_on post_id t)) comments)
  items ← wrap "list comments: " (
      query listing (λ t. take page_size (drop offset (by_created_at (comments_on post_id t))))
        comments)
  ok (items, total)

unfoldable pub delete : Outcome → String → String → List Comment → List Comment × Result (Unit {0})
unfolding delete_comments exec wrap
delete outcome id user_id comments =
    let (comments', r) =
      exec outcome (λ t. let rest = delete_comments id user_id t in (rest, length t - length rest))
        comments in
    (
      comments',
      wrap "delete comment: " r >>= λ n.
          if n == 0 then err (message "delete comment: not found or not authorized") else ok tt,
    )

-- The bookmarks: pairs of a user and a post.
unfoldable pub bookmark : Outcome → String → String → Pairs → Pairs × Result (Unit {0})
unfolding exec wrap
bookmark outcome user_id post_id bookmarks =
    let (bookmarks', r) = exec outcome (λ t. (add_pair user_id post_id t, tt)) bookmarks in
    (bookmarks', wrap "bookmark: " r)

unfoldable pub unbookmark : Outcome → String → String → Pairs → Pairs × Result (Unit {0})
unfolding exec wrap
unbookmark outcome user_id post_id bookmarks =
    let (bookmarks', r) = exec outcome (λ t. (remove_pair user_id post_id t, tt)) bookmarks in
    (bookmarks', wrap "unbookmark: " r)

unfoldable pub is_bookmarked : Outcome → String → String → Pairs → Result Bool
unfolding query wrap
is_bookmarked outcome user_id post_id bookmarks =
    wrap "is bookmarked: " (query outcome (has_pair user_id post_id) bookmarks)
