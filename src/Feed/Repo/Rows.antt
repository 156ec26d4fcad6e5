-- ===== src/Feed/Repo/Rows.antt =====
-- What the statements of the feed repository answer with, and which rows they change.
use mathlib.Core.List.{lookup}
use mathlib.Core.List.{Permᴰ}
use feeds.Prelude.{
  ℕ, zero, suc, ◌+◌, ◌-◌, ◌*◌, ◌≡◌, ◌≢◌, ◌↔◌, refl, ap, ◌∙◌, String, true, none, some, List, [],
  ◌∷◌, ◌++◌, message, ok, err, answered, arith, length, take, take-drop-take, text_dec,
  if◌then◌else◌, Option-cases, inl, inr,
}
use feeds.Prelude.Maps.{insert, lookup-insert}
use feeds.Feed.Model.{Feed}
use feeds.Feed.Repo.{
  Posts, select_post, is_in, select_posts_in, delete_posts, listed, list, index_by_id, in_order,
  find_by_ids, delete,
}

-- No id stands twice in the table, as its primary key has it.
abbrev pub IsKeyed : Posts → Type 0
IsKeyed [] = Unit
IsKeyed (f ∷ posts) = (select_post f.id posts ≡ none) × IsKeyed posts

module _ (id author_id : String) where
  pub delete_posts_absent :
      (posts : Posts) → select_post id posts ≡ none → delete_posts id author_id posts ≡ posts
  unfolding delete_posts select_post
  delete_posts_absent [] h = refl
  delete_posts_absent (f ∷ posts) h = ground (arith, delete_posts_absent posts)

  -- One row goes if the post is there and its author is the one that asks, and otherwise none.
  delete_posts_own :
      (posts : Posts) (f : Feed)
      → IsKeyed posts
      → select_post id posts ≡ some f
      → f.author_id ≡ author_id
      → (length (delete_posts id author_id posts) + 1 ≡ length posts)
        × (select_post id (delete_posts id author_id posts) ≡ none)
  unfolding delete_posts select_post
  delete_posts_own [] f keyed h own = cc
  delete_posts_own (g ∷ posts) f keyed h own =
      ground (arith, delete_posts_absent posts, delete_posts_own posts f keyed.1)

  delete_posts_other :
      (posts : Posts) (f : Feed)
      → IsKeyed posts
      → select_post id posts ≡ some f
      → f.author_id ≢ author_id
      → delete_posts id author_id posts ≡ posts
  unfolding delete_posts select_post
  delete_posts_other [] f keyed h other = refl
  delete_posts_other (g ∷ posts) f keyed h other =
      ground (arith, delete_posts_absent posts, delete_posts_other posts f keyed.1)

  delete_nothing :
      (posts : Posts)
      → delete_posts id author_id posts ≡ posts
      → delete answered id author_id posts
        ≡ (posts, err (message "delete feed: not found or not authorized"))
  unfolding delete
  delete_nothing posts e =
      let count : length posts - length posts ≡ 0 = omega arith in rw (e, count)

  delete_one :
      (posts : Posts)
      → length (delete_posts id author_id posts) + 1 ≡ length posts
      → delete answered id author_id posts ≡ (delete_posts id author_id posts, ok tt)
  unfolding delete
  delete_one posts e =
      let count : length posts - length (delete_posts id author_id posts) ≡ 1 = omega arith in
      rw count

  -- When the database answers, over posts whose ids are distinct, a delete succeeds exactly if the
  -- post is there and belongs to the author who asks; then the post is gone, and otherwise the
  -- table is as it was.
  pub delete_authorized :
      (posts : Posts)
      → IsKeyed posts
      → (((delete answered id author_id posts).1 ≡ ok tt)
          ↔ ((f : Feed) × (select_post id posts ≡ some f) × (f.author_id ≡ author_id)))
        × ((delete answered id author_id posts).1 ≡ ok tt
            → select_post id (delete answered id author_id posts).0 ≡ none)
        × ((delete answered id author_id posts).1 ≢ ok tt
            → (delete answered id author_id posts).0 ≡ posts)
  delete_authorized posts keyed = elim (Option-cases (select_post id posts)) [
    | inl e ↦
        let r = delete_nothing posts (delete_posts_absent posts e) in
        (
          (λ h. absurd (cc (r, h)), λ (f, found, own). absurd (cc (e, found))),
          λ h. absurd (cc (r, h)),
          λ h. cc r,
        )
    | inr (f, e) ↦ elim (text_dec f.author_id author_id) [
      | yes p ↦
          let (fewer, gone) = delete_posts_own posts f keyed e p in
          let r = delete_one posts fewer in
          ((λ h. (f, e, p), λ _. cc r), λ h. cc (r, gone), λ h. absurd (h (cc r)))
      | no n ↦
          let r = delete_nothing posts (delete_posts_other posts f keyed e n) in
          (
            (λ h. absurd (cc (r, h)), λ (g, found, own). absurd (n (cc (e, found, own)))),
            λ h. absurd (cc (r, h)),
            λ h. cc r,
          )
    ]
  ]

-- The posts of the ids, in the order of the ids; an id with no post is left out.
unfoldable pub posts_of : List String → Posts → List Feed
posts_of [] posts = []
posts_of (id ∷ ids) posts = elim (select_post id posts) [
  | none ↦ posts_of ids posts
  | some f ↦ f ∷ posts_of ids posts
]

select_post-in :
    (ids : List String) (posts : Posts) (j : String)
    → select_post j (select_posts_in ids posts)
      ≡ (if is_in j ids then select_post j posts else none)
unfolding select_posts_in select_post
select_post-in ids [] j = ground arith
select_post-in ids (f ∷ posts) j = ground (arith, select_post-in ids posts j)

IsKeyed-in :
    (ids : List String) (posts : Posts) → IsKeyed posts → IsKeyed (select_posts_in ids posts)
unfolding select_posts_in
IsKeyed-in ids [] h = tt
IsKeyed-in ids (f ∷ posts) h =
    ground (arith, select_post-in ids posts f.id, IsKeyed-in ids posts h.1)

lookup-index_by_id :
    (rows : Posts) (m : List (String × Feed)) (j : String)
    → IsKeyed rows
    → lookup text_dec j (index_by_id rows m)
      ≡ elim (select_post j rows) [ none ↦ lookup text_dec j m | some f ↦ some f ]
unfolding index_by_id select_post
lookup-index_by_id [] m j h = refl
lookup-index_by_id (f ∷ rows) m j h = ground (
  arith,
  lookup-index_by_id rows (insert text_dec f.id f m) j h.1,
  lookup-insert text_dec j f.id f m,
)

-- A reordering of keyed rows is keyed, and selects the same.
permuted :
    {xs ys : Posts}
    → Permᴰ xs ys
    → IsKeyed ys
    → IsKeyed xs × ((j : String) → select_post j xs ≡ select_post j ys)
unfolding select_post
permuted Permᴰ.nil h = (tt, λ j. refl)
permuted (Permᴰ.cons {a = a} {b = b} {l₁ = xs} {l₂ = ys} e p) h =
    let (keyed, same) = permuted p h.1 in
    (ground (arith, e, h, same b.id, keyed), λ j. ground (arith, e, same j))
permuted (Permᴰ.swap {a = a} {b = b} {a' = a'} {b' = b'} {l = l} e e') h =
    (ground (arith, e, e', h), λ j. ground (arith, e, e', h))
permuted (Permᴰ.trans p q) h =
    let (keyed, same) = permuted q h in
    let (keyed', same') = permuted p keyed in (keyed', λ j. same' j ∙ same j)

in_order-posts_of :
    (asked ids : List String) (rows posts : Posts)
    → ((j : String)
        → lookup text_dec j (index_by_id rows [])
          ≡ (if is_in j asked then select_post j posts else none))
    → ((j : String) → is_in j ids ≡ true → is_in j asked ≡ true)
    → in_order ids (index_by_id rows []) ≡ posts_of ids posts
unfolding in_order posts_of is_in
in_order-posts_of asked [] rows posts held sub = refl
in_order-posts_of asked (id ∷ ids) rows posts held sub = ground (
  arith,
  held id,
  sub id,
  in_order-posts_of asked ids rows posts held (λ j h. sub j (ground (arith, h))),
)

-- When the database answers, in whatever order, over posts whose ids are distinct, `FindByIDs`
-- answers with the posts of the ids in the order of the ids, without those that do not exist.
pub find_by_ids-posts_of :
    (any_order : Posts → Posts) (ids : List String) (posts : Posts)
    → ((rows : Posts) → Permᴰ (any_order rows) rows)
    → IsKeyed posts
    → find_by_ids any_order answered ids posts ≡ ok (posts_of ids posts)
unfolding find_by_ids posts_of lookup
find_by_ids-posts_of any_order [] posts reorders keyed = refl
find_by_ids-posts_of any_order (id ∷ ids) posts reorders keyed =
    let asked = id ∷ ids in
    let rows = select_posts_in asked posts in
    let (keyed', same) = permuted (reorders rows) (IsKeyed-in asked posts keyed) in
    ap ok (
      in_order-posts_of asked asked (any_order rows) posts
        (λ j. ground (
          arith,
          lookup-index_by_id (any_order rows) [] j keyed',
          same j,
          select_post-in asked posts j,
        ))
        (λ j h. h))

-- The posts that `List` answers with on its pages up to `page`, one after the other.
module _ (by_created_at : Posts → Posts) (author_id : String) (posts : Posts) where
  page_of : ℕ → ℕ → List Feed
  page_of page n = elim (list by_created_at answered answered author_id page n posts) [
    | ok (feeds, total) ↦ feeds
    | err e ↦ []
  ]

  pub pages_to : ℕ → ℕ → List Feed
  unfolding page_of
  pages_to zero n = []
  pages_to (suc page) n = pages_to page n ++ page_of (suc page) n

  -- When the database answers, successive pages of a listing follow one another through the posts
  -- in the database's order, with no gap and no overlap, and each page states their number.
  pub list_pages :
      (page n : ℕ)
      → (pages_to page n ≡ take (page * n) (by_created_at (listed author_id posts)))
        × ((feeds : List Feed) (total : ℕ)
            → list by_created_at answered answered author_id page n posts ≡ ok (feeds, total)
            → (total ≡ length (listed author_id posts)))
  unfolding pages_to list
  list_pages zero n =
      let none_yet : 0 * n ≡ 0 = omega arith in (rw none_yet, λ feeds total h. ground arith)
  list_pages (suc page) n =
      let start : suc page - 1 ≡ page = omega arith in
      let total : page * n + n ≡ suc page * n = omega arith in
      (
        rw (start, (list_pages page n).0, ← total)
            (take-drop-take (page * n) n (by_created_at (listed author_id posts))),
        λ feeds count h. ground arith,
      )
