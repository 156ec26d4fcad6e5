-- ===== src/Interaction/LikeRepo/Likers.antt =====
-- Tables with the same likes of a post have as many.
use feeds.Prelude.{◌≤◌, ◌≡◌, sym, ◌∙◌, String, true, [], ◌∷◌, arith, length, text_dec}
use feeds.Interaction.LikeRepo.{Likes, has_like, likers, delete_like}
use feeds.Interaction.LikeRepo.Rows.{
  IsKeyed, has_like-delete, delete_like-IsKeyed, length-likers-delete,
}

module _ (post_id : String) where
  fewer_likers :
      (v w : Likes)
      → IsKeyed v
      → IsKeyed w
      → ((u : String) → has_like u post_id v ≡ true → has_like u post_id w ≡ true)
      → length (likers post_id v) ≤ length (likers post_id w)
  unfolding likers has_like
  fewer_likers [] w keyed keyed' sub = omega arith
  fewer_likers (l ∷ v) w keyed keyed' sub = elim (text_dec l.post_id post_id) [
    | no other ↦
        let rest = fewer_likers v w keyed.1 keyed' (λ u h. sub u (ground (arith, h, other))) in
        ground (arith, rest, other)
    | yes same ↦
        let w' = delete_like l.user_id post_id w in
        let rest =
          fewer_likers v w' keyed.1 (delete_like-IsKeyed l.user_id post_id w keyed') (λ u h.
            ground
              (arith, h, keyed.0, same, sub u, has_like-delete l.user_id post_id u post_id w)) in
        ground (arith, rest, same, sub l.user_id, length-likers-delete l.user_id post_id w keyed')
  ]

  pub same_likers :
      (v w : Likes)
      → IsKeyed v
      → IsKeyed w
      → ((u : String) → has_like u post_id v ≡ has_like u post_id w)
      → length (likers post_id v) ≡ length (likers post_id w)
  same_likers v w keyed keyed' same = omega (
    arith,
    fewer_likers v w keyed keyed' (λ u h. sym (same u) ∙ h),
    fewer_likers w v keyed' keyed (λ u h. same u ∙ h),
  )
