-- ===== src/Interaction/Comments/Changes.antt =====
-- Which comments and bookmarks the statements change.
use feeds.Prelude.{
  ◌+◌, ◌-◌, ◌≡◌, ◌≢◌, ◌↔◌, ◌⊎◌, refl, String, true, false, none, some, Option, List, [], ◌∷◌, ok,
  err, message, answered, arith, length, text_dec, ite, Option-cases, inl, inr,
}
use feeds.Prelude.Pairs.{Pairs, has_pair-add, has_pair-remove}
use feeds.Interaction.Comments.{
  Comment, delete_comments, delete, bookmark, unbookmark, is_bookmarked,
}

-- The row under an id.
unfoldable pub comment_of_id : String → List Comment → Option Comment
comment_of_id id [] = none
comment_of_id id (c ∷ comments) = ite (text_dec c.id id) (some c) (comment_of_id id comments)

-- No id stands twice, as the primary key has it.
abbrev pub IsKeyed : List Comment → Type 0
IsKeyed [] = Unit
IsKeyed (c ∷ comments) = (comment_of_id c.id comments ≡ none) × IsKeyed comments

delete_comments_absent :
    (id user_id : String) (comments : List Comment)
    → comment_of_id id comments ≡ none
    → delete_comments id user_id comments ≡ comments
unfolding comment_of_id delete_comments
delete_comments_absent id user_id [] h = refl
delete_comments_absent id user_id (c ∷ comments) h =
    ground (arith, delete_comments_absent id user_id comments)

delete_comments_own :
    (id user_id : String) (comments : List Comment) (c : Comment)
    → IsKeyed comments
    → comment_of_id id comments ≡ some c
    → c.user_id ≡ user_id
    → (length (delete_comments id user_id comments) + 1 ≡ length comments)
      × (comment_of_id id (delete_comments id user_id comments) ≡ none)
unfolding comment_of_id delete_comments
delete_comments_own id user_id [] c keyed h own = cc
delete_comments_own id user_id (d ∷ comments) c keyed h own = ground (
  arith,
  h,
  own,
  keyed,
  delete_comments_own id user_id comments c keyed.1,
  delete_comments_absent id user_id comments,
)

delete_comments_other :
    (id user_id : String) (comments : List Comment) (c : Comment)
    → IsKeyed comments
    → comment_of_id id comments ≡ some c
    → c.user_id ≢ user_id
    → delete_comments id user_id comments ≡ comments
unfolding comment_of_id delete_comments
delete_comments_other id user_id [] c keyed h other = refl
delete_comments_other id user_id (d ∷ comments) c keyed h other = ground (
  arith,
  h,
  other,
  keyed,
  delete_comments_other id user_id comments c keyed.1,
  delete_comments_absent id user_id comments,
)

delete_nothing :
    (id user_id : String) (comments : List Comment)
    → delete_comments id user_id comments ≡ comments
    → delete answered id user_id comments
      ≡ (comments, err (message "delete comment: not found or not authorized"))
unfolding delete
delete_nothing id user_id comments e =
    let same : length comments - length comments ≡ 0 = omega arith in rw (e, same)

delete_one :
    (id user_id : String) (comments : List Comment)
    → length (delete_comments id user_id comments) + 1 ≡ length comments
    → delete answered id user_id comments ≡ (delete_comments id user_id comments, ok tt)
unfolding delete
delete_one id user_id comments e =
    let count : length comments - length (delete_comments id user_id comments) ≡ 1 = omega arith in
    rw count

-- When the database answers, over comments whose ids are distinct, a comment is deleted exactly
-- for the user who wrote it: then it is gone, and otherwise the table is as it was.
pub delete_own :
    (id user_id : String) (comments : List Comment)
    → IsKeyed comments
    → let (comments', answer) = delete answered id user_id comments in
      ((answer ≡ ok tt)
        ↔ ((c : Comment) × (comment_of_id id comments ≡ some c) × (c.user_id ≡ user_id)))
      × (((answer ≡ ok tt) × (comment_of_id id comments' ≡ none))
          ⊎ ((answer ≢ ok tt) × (comments' ≡ comments)))
delete_own id user_id comments keyed = elim (Option-cases (comment_of_id id comments)) [
  | inl e ↦
      let r = delete_nothing id user_id comments (delete_comments_absent id user_id comments e) in
      (
        (λ h. absurd (cc (r, h)), λ (c, found, own). absurd (cc (e, found))),
        inr (λ h. cc (r, h), cc r),
      )
  | inr (c, e) ↦ elim (text_dec c.user_id user_id) [
    | yes p ↦
        let (fewer, gone) = delete_comments_own id user_id comments c keyed e p in
        let r = delete_one id user_id comments fewer in
        ((λ h. (c, e, p), λ _. cc r), inl (cc r, cc (r, gone)))
    | no n ↦
        let r =
          delete_nothing id user_id comments
            (delete_comments_other id user_id comments c keyed e n) in
        (
          (λ h. absurd (cc (r, h)), λ (d, found, own). absurd (n (cc (e, found, own)))),
          inr (λ h. cc (r, h), cc r),
        )
  ]
]

-- When the database answers: a bookmark shows until it is taken back, and no other pair of a user and
-- a post is touched by either.
pub bookmark-is_bookmarked :
    (user_id post_id u p : String) (bookmarks : Pairs)
    → let marked = (bookmark answered user_id post_id bookmarks).0 in
      let cleared = (unbookmark answered user_id post_id bookmarks).0 in
      (is_bookmarked answered user_id post_id marked ≡ ok true)
      × (is_bookmarked answered user_id post_id cleared ≡ ok false)
      × ((u ≢ user_id) ⊎ (p ≢ post_id)
          → (is_bookmarked answered u p marked ≡ is_bookmarked answered u p bookmarks)
            × (is_bookmarked answered u p cleared ≡ is_bookmarked answered u p bookmarks))
unfolding bookmark unbookmark is_bookmarked
bookmark-is_bookmarked user_id post_id u p bookmarks = (
  ground (arith, has_pair-add user_id post_id user_id post_id bookmarks),
  ground (arith, has_pair-remove user_id post_id user_id post_id bookmarks),
  λ other. ground (
    arith,
    other,
    has_pair-add user_id post_id u p bookmarks,
    has_pair-remove user_id post_id u p bookmarks,
  ),
)
