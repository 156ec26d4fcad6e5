-- ===== src/Feed/Repo.antt =====
-- services/feed/repo.go: the posts table and the SQL statements over it. The identifier and the time
-- that an INSERT gives a row are arguments, and so is the order in which a SELECT answers its rows:
-- `by_created_at` for ORDER BY created_at DESC, `any_order` where there is no ORDER BY.
pub mod Rows
use mathlib.Core.List.{lookup}
use feeds.Prelude.{
  ℕ, ◌-◌, ◌*◌, String, ite, Bool, true, false, Option, none, some, List, [], ◌∷◌, ◌++◌, Error,
  no_rows, message, wrapped, Result, ok, err, ◌>>=◌, Outcome, exec, query, wrap, length, take, drop,
  text_dec, ◌==◌, if◌then◌else◌,
}
use feeds.Prelude.Maps.{insert}
use feeds.Feed.Model.{Time, Block, Feed}

abbrev pub Posts : Type 0
Posts = List Feed

-- `INSERT INTO posts … RETURNING id, created_at, updated_at`
unfoldable pub insert_post : String → Time → String → List Block → Posts → Posts × Feed
insert_post id now author_id blocks posts =
    let row : Feed = record {
      id = id;
      author_id = author_id;
      blocks = blocks;
      created_at = now;
      updated_at = now;
    } in
    (posts ++ (row ∷ []), row)

-- `SELECT … FROM posts WHERE id = $1`
unfoldable pub select_post : String → Posts → Option Feed
select_post id [] = none
select_post id (f ∷ posts) = ite (text_dec f.id id) (some f) (select_post id posts)

-- `SELECT … FROM posts WHERE author_id = $1`
unfoldable pub posts_by : String → Posts → Posts
posts_by author_id [] = []
posts_by author_id (f ∷ posts) =
    ite (text_dec f.author_id author_id) (f ∷ posts_by author_id posts) (posts_by author_id posts)

-- `id IN (…)`
unfoldable pub is_in : String → List String → Bool
is_in id [] = false
is_in id (j ∷ ids) = ite (text_dec id j) true (is_in id ids)

-- `SELECT … FROM posts WHERE id IN (…)`
unfoldable pub select_posts_in : List String → Posts → Posts
unfolding is_in
select_posts_in ids [] = []
select_posts_in ids (f ∷ posts) =
    let rest = select_posts_in ids posts in if is_in f.id ids then f ∷ rest else rest

-- `DELETE FROM posts WHERE id = $1 AND author_id = $2`: the rows left, and how many went.
unfoldable pub delete_posts : String → String → Posts → Posts
delete_posts id author_id [] = []
delete_posts id author_id (f ∷ posts) =
    let rest = delete_posts id author_id posts in
    ite (text_dec f.id id) (ite (text_dec f.author_id author_id) rest (f ∷ rest)) (f ∷ rest)

unfoldable pub create : Outcome → String → Time → String → List Block → Posts → Posts × Result Feed
unfolding insert_post exec wrap
create outcome id now author_id blocks posts =
    let (posts', r) = exec outcome (insert_post id now author_id blocks) posts in
    (posts', wrap "create feed: " r)

row_or_error : Option Feed → Result Feed
row_or_error none = err no_rows
row_or_error (some f) = ok f

unfoldable pub find_by_id : Outcome → String → Posts → Result Feed
unfolding select_post query wrap row_or_error
find_by_id outcome id posts =
    wrap "find feed: " (query outcome (select_post id) posts >>= row_or_error)

-- The rows that `List` counts and pages through.
unfoldable pub listed : String → Posts → Posts
unfolding posts_by
listed author_id posts = ite (text_dec author_id "") posts (posts_by author_id posts)

unfoldable pub list :
    (Posts → Posts) → Outcome → Outcome → String → ℕ → ℕ → Posts → Result (List Feed × ℕ)
unfolding listed query wrap
list by_created_at counting listing author_id page page_size posts = do
  let offset = (page - 1) * page_size
  total ← wrap "count feeds: " (query counting (λ t. length (listed author_id t)) posts)
  feeds ←
      wrap "list feeds: " (
        query listing (λ t. take page_size (drop offset (by_created_at (listed author_id t))))
          posts)
  ok (feeds, total)

-- The map from an id to its row.
unfoldable pub index_by_id : Posts → List (String × Feed) → List (String × Feed)
index_by_id [] m = m
index_by_id (f ∷ rows) m = index_by_id rows (insert text_dec f.id f m)

unfoldable pub in_order : List String → List (String × Feed) → List Feed
in_order [] m = []
in_order (id ∷ ids) m = elim (lookup text_dec id m) [
  | none ↦ in_order ids m
  | some f ↦ f ∷ in_order ids m
]

-- `FindByIDs`: the posts in the order of the ids asked for.
unfoldable pub find_by_ids : (Posts → Posts) → Outcome → List String → Posts → Result (List Feed)
unfolding select_posts_in query wrap index_by_id in_order
find_by_ids any_order outcome [] posts = ok []
find_by_ids any_order outcome (id ∷ ids) posts = do
  rows ← wrap "find by ids: " (query outcome (λ t. any_order (select_posts_in (id ∷ ids) t)) posts)
  ok (in_order (id ∷ ids) (index_by_id rows []))

unfoldable pub delete : Outcome → String → String → Posts → Posts × Result (Unit {0})
unfolding delete_posts exec wrap
delete outcome id author_id posts =
    let (posts', r) =
      exec outcome (λ t. let rest = delete_posts id author_id t in (rest, length t - length rest))
        posts in
    (
      posts',
      wrap "delete feed: " r >>= λ n.
          if n == 0 then err (message "delete feed: not found or not authorized") else ok tt,
    )
