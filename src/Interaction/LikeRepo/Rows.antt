-- ===== src/Interaction/LikeRepo/Rows.antt =====
-- What the statements over post_likes do to the likes of a post.
use feeds.Prelude.{
  ◌+◌, ◌≡◌, refl, String, ite, true, false, [], ◌∷◌, ◌++◌, arith, length, text_dec, Bool-cases, inl,
  inr,
}
use feeds.Interaction.LikeRepo.{Likes, has_like, likers, insert_like, delete_like}

-- No user likes a post twice, as the table's primary key has it.
abbrev pub IsKeyed : Likes → Type 0
IsKeyed [] = Unit
IsKeyed (l ∷ likes) = (has_like l.user_id l.post_id likes ≡ false) × IsKeyed likes

pub has_like-add :
    (user_id post_id u p : String) (likes : Likes)
    → has_like u p (likes ++ (record { user_id = user_id; post_id = post_id } ∷ []))
      ≡ ite
          (text_dec user_id u)
          (ite (text_dec post_id p) true (has_like u p likes))
          (has_like u p likes)
unfolding has_like
has_like-add user_id post_id u p [] = ground arith
has_like-add user_id post_id u p (l ∷ likes) =
    ground (arith, has_like-add user_id post_id u p likes)

pub length-likers-add :
    (user_id post_id : String) (likes : Likes)
    → length (likers post_id (likes ++ (record { user_id = user_id; post_id = post_id } ∷ [])))
      ≡ length (likers post_id likes) + 1
unfolding likers
length-likers-add user_id post_id [] = ground arith
length-likers-add user_id post_id (l ∷ likes) =
    ground (arith, length-likers-add user_id post_id likes)

add-IsKeyed :
    (user_id post_id : String) (likes : Likes)
    → IsKeyed likes
    → has_like user_id post_id likes ≡ false
    → IsKeyed (likes ++ (record { user_id = user_id; post_id = post_id } ∷ []))
unfolding has_like
add-IsKeyed user_id post_id [] keyed new = (refl, tt)
add-IsKeyed user_id post_id (l ∷ likes) keyed new = ground (
  arith,
  has_like-add user_id post_id l.user_id l.post_id likes,
  add-IsKeyed user_id post_id likes keyed.1,
)

pub insert_like-IsKeyed :
    (user_id post_id : String) (likes : Likes)
    → IsKeyed likes
    → IsKeyed (insert_like user_id post_id likes)
unfolding insert_like
insert_like-IsKeyed user_id post_id likes keyed =
    elim (Bool-cases (has_like user_id post_id likes)) [
      | inl old ↦ rw (old, insert_like) keyed
      | inr new ↦ rw (new, insert_like) (add-IsKeyed user_id post_id likes keyed new)
    ]

pub has_like-delete :
    (user_id post_id u p : String) (likes : Likes)
    → has_like u p (delete_like user_id post_id likes)
      ≡ ite
          (text_dec u user_id)
          (ite (text_dec p post_id) false (has_like u p likes))
          (has_like u p likes)
unfolding has_like delete_like
has_like-delete user_id post_id u p [] = ground arith
has_like-delete user_id post_id u p (l ∷ likes) =
    ground (arith, has_like-delete user_id post_id u p likes)

pub delete_like-IsKeyed :
    (user_id post_id : String) (likes : Likes)
    → IsKeyed likes
    → IsKeyed (delete_like user_id post_id likes)
unfolding delete_like has_like
delete_like-IsKeyed user_id post_id [] keyed = tt
delete_like-IsKeyed user_id post_id (l ∷ likes) keyed = ground (
  arith,
  has_like-delete user_id post_id l.user_id l.post_id likes,
  delete_like-IsKeyed user_id post_id likes keyed.1,
)

delete_like_absent :
    (user_id post_id : String) (likes : Likes)
    → has_like user_id post_id likes ≡ false
    → delete_like user_id post_id likes ≡ likes
unfolding delete_like has_like
delete_like_absent user_id post_id [] h = refl
delete_like_absent user_id post_id (l ∷ likes) h =
    ground (arith, delete_like_absent user_id post_id likes)

pub length-likers-delete :
    (user_id post_id : String) (likes : Likes)
    → IsKeyed likes
    → has_like user_id post_id likes ≡ true
    → length (likers post_id (delete_like user_id post_id likes)) + 1
      ≡ length (likers post_id likes)
unfolding likers delete_like has_like
length-likers-delete user_id post_id [] keyed h = cc
length-likers-delete user_id post_id (l ∷ likes) keyed h = ground (
  arith,
  delete_like_absent user_id post_id likes,
  length-likers-delete user_id post_id likes keyed.1,
)
