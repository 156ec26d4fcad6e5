-- ===== src/Feed/Timeline/Ids.antt =====
-- The ids of a timeline page: no id twice, and none lost.
use mathlib.Core.List.{lookup}
use feeds.Prelude.{
  String, ◌≡◌, refl, ite, Bool, true, false, not, ◌&&◌, none, some, List, [], ◌∷◌, map, arith,
  text_dec, Option-cases, inl, inr,
}
use feeds.Prelude.Maps.{insert, lookup-insert}
use feeds.Feed.Interleave.{InterleaveSlot}
use feeds.Feed.Timeline.{unique_ids}

pub is_among : String → List String → Bool
is_among j [] = false
is_among j (id ∷ ids) = ite (text_dec j id) true (is_among j ids)

-- No id stands twice.
abbrev pub AllDistinct : List String → Type 0
AllDistinct [] = Unit
AllDistinct (id ∷ ids) = (is_among id ids ≡ false) × AllDistinct ids

was_seen : List (String × Bool) → String → Bool
was_seen seen j = elim (lookup text_dec j seen) [ none ↦ false | some _ ↦ true ]

module _ {Score : Type 0} where
  abbrev post_ids : List (InterleaveSlot Score) → List String
  post_ids = map λ m. m.post_id

  unique_ids-is_among :
      (seen : List (String × Bool)) (merged : List (InterleaveSlot Score)) (j : String)
      → is_among j (unique_ids seen merged)
        ≡ (is_among j (post_ids merged) && not (was_seen seen j))
  unfolding unique_ids is_among was_seen
  unique_ids-is_among seen [] j = refl
  unique_ids-is_among seen (m ∷ merged) j = ground (
    arith,
    unique_ids-is_among seen merged j,
    unique_ids-is_among (insert text_dec m.post_id true seen) merged j,
    lookup-insert text_dec j m.post_id true seen,
  )

  unique_ids-AllDistinct :
      (seen : List (String × Bool)) (merged : List (InterleaveSlot Score))
      → AllDistinct (unique_ids seen merged)
  unfolding unique_ids was_seen
  unique_ids-AllDistinct seen [] = tt
  unique_ids-AllDistinct seen (m ∷ merged) = elim (Option-cases (lookup text_dec m.post_id seen)) [
    | inl fresh ↦
        let seen' = insert text_dec m.post_id true seen in
        rw (fresh, unique_ids)
          (
            ground (
              arith,
              unique_ids-is_among seen' merged m.post_id,
              lookup-insert text_dec m.post_id m.post_id true seen,
            ),
            unique_ids-AllDistinct seen' merged,
          )
    | inr (b, old) ↦ rw (old, unique_ids) (unique_ids-AllDistinct seen merged)
  ]

  -- The ids that a page fetches are those of its slots, and no id is fetched twice.
  pub unique_ids_lem :
      (merged : List (InterleaveSlot Score))
      → AllDistinct (unique_ids [] merged)
        × ((j : String)
            → is_among j (unique_ids [] merged) ≡ is_among j (map (λ m. m.post_id) merged))
  unfolding was_seen lookup
  unique_ids_lem merged =
      (unique_ids-AllDistinct [] merged, λ j. ground (arith, unique_ids-is_among [] merged j))
