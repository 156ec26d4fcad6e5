-- ===== src/Feed/Interleave/Slots.antt =====
-- What the merge keeps, and what stands on a page of it.
use feeds.Prelude.{
  ℕ, zero, suc, ◌+◌, ◌*◌, ◌≤◌, ◌≡◌, refl, ap, List, [], ◌∷◌, map, take, length, arith, ◌%◌,
}
use feeds.Feed.Interleave.{Z, Source, inbox, hot, InterleaveSlot, slot, interleave_from, interleave}

-- Groups of four inbox posts and a hot one, and then inbox posts alone.
pub slot_pattern : ℕ → ℕ → List Source
slot_pattern zero zero = []
slot_pattern zero (suc extra) = inbox ∷ slot_pattern zero extra
slot_pattern (suc groups) extra = inbox ∷ inbox ∷ inbox ∷ inbox ∷ hot ∷ slot_pattern groups extra

module _ {Score : Type 0} where
  keep_source :
      Source → InterleaveSlot Score → List (InterleaveSlot Score) → List (InterleaveSlot Score)
  keep_source inbox s rest = elim s.source [ inbox ↦ s ∷ rest | hot ↦ rest ]
  keep_source hot s rest = elim s.source [ inbox ↦ rest | hot ↦ s ∷ rest ]

  -- The slots that come from one source, in order.
  pub of_source : Source → List (InterleaveSlot Score) → List (InterleaveSlot Score)
  unfolding keep_source
  of_source source [] = []
  of_source source (s ∷ slots) = keep_source source s (of_source source slots)

  all_hot :
      (zs : List (Z Score))
      → (of_source inbox (map (slot hot) zs) ≡ [])
        × (of_source hot (map (slot hot) zs) ≡ map (slot hot) zs)
  unfolding of_source
  all_hot [] = (refl, refl)
  all_hot (z ∷ zs) = ((all_hot zs).0, ap (◌∷◌ (slot hot z)) (all_hot zs).1)

  -- Whatever the ratio, each source's posts stand in the merge exactly once and in their order.
  interleave_from-of_source :
      (ratio i : ℕ) (xs hs : List (Z Score))
      → (of_source inbox (interleave_from ratio i xs hs) ≡ map (slot inbox) xs)
        × (of_source hot (interleave_from ratio i xs hs) ≡ map (slot hot) hs)
  unfolding of_source interleave_from
  interleave_from-of_source ratio i [] hs = all_hot hs
  interleave_from-of_source ratio i (x ∷ xs) [] =
      ground (arith, interleave_from-of_source ratio (suc i) xs [])
  interleave_from-of_source ratio i (x ∷ xs) (h ∷ hs) = ground (
    arith,
    interleave_from-of_source ratio (suc i) xs hs,
    interleave_from-of_source ratio (suc i) xs (h ∷ hs),
  )

  -- With no hot post left the merge is the inbox.
  no_hot_left :
      (ratio i : ℕ) (xs : List (Z Score)) → interleave_from ratio i xs [] ≡ map (slot inbox) xs
  unfolding interleave_from
  no_hot_left ratio i [] = refl
  no_hot_left ratio i (x ∷ xs) = ground (arith, no_hot_left ratio (suc i) xs)

  -- What the first `n` slots of a merge are made of.
  pub record Page (slots : List (InterleaveSlot Score)) (xs hs : List (Z Score)) (groups extra : ℕ)
      : Type 0 where
    pub from_inbox : of_source inbox slots ≡ map (slot inbox) xs
    pub from_hot : of_source hot slots ≡ map (slot hot) hs
    pub shape : map (λ s. s.source) slots ≡ slot_pattern groups extra

  inbox-Page :
      (extra : ℕ) (xs : List (Z Score))
      → extra ≤ length xs
      → Page (take extra (map (slot inbox) xs)) (take extra xs) [] 0 extra
  unfolding of_source slot_pattern
  inbox-Page zero xs h = record { from_inbox = refl; from_hot = refl; shape = refl }
  inbox-Page (suc extra) [] h = absurd (omega arith)
  inbox-Page (suc extra) (x ∷ xs) h =
      let ih = inbox-Page extra xs (omega arith) in
      record {
        from_inbox = ap (◌∷◌ (slot inbox x)) ih.from_inbox;
        from_hot = ih.from_hot;
        shape = ap (◌∷◌ inbox) ih.shape;
      }

  -- One group of the merge, at an index that the ratio divides.
  group_lem :
      (i : ℕ) (a b c d h : Z Score) (xs hs : List (Z Score))
      → i % 4 ≡ 0
      → interleave_from 4 i (a ∷ b ∷ c ∷ d ∷ xs) (h ∷ hs)
        ≡ slot inbox a
          ∷ slot inbox b
          ∷ slot inbox c
          ∷ slot inbox d
          ∷ slot hot h
          ∷ interleave_from 4 (suc (suc (suc (suc i)))) xs hs
  unfolding interleave_from
  group_lem i a b c d h xs hs e = ground arith

  take-Page :
      (i extra : ℕ) (hs xs : List (Z Score))
      → i % 4 ≡ 0
      → 4 * length hs + extra ≤ length xs
      → Page
          (take (5 * length hs + extra) (interleave_from 4 i xs hs))
          (take (4 * length hs + extra) xs)
          hs
          (length hs)
          extra
  unfolding of_source slot_pattern
  take-Page i extra [] xs e h =
      let zeros : (5 * 0 + extra ≡ extra) × (4 * 0 + extra ≡ extra) = omega arith in
      rw (zeros.0, no_hot_left 4 i xs) (inbox-Page extra xs (omega arith))
  take-Page i extra (y ∷ hs) (a ∷ b ∷ c ∷ d ∷ xs) e h =
      let k = length hs in
      let ih = take-Page (suc (suc (suc (suc i)))) extra hs xs (omega arith) (omega arith) in
      let sums : (5 * suc k + extra ≡ suc (suc (suc (suc (suc (5 * k + extra))))))
          × (4 * suc k + extra ≡ suc (suc (suc (suc (4 * k + extra))))) =
        omega arith in
      rw (sums.0, sums.1, group_lem i a b c d y xs hs e)
        (record {
          from_inbox =
              ap (λ ys. slot inbox a ∷ slot inbox b ∷ slot inbox c ∷ slot inbox d ∷ ys)
                ih.from_inbox;
          from_hot = ap (◌∷◌ (slot hot y)) ih.from_hot;
          shape = ap (λ ys. inbox ∷ inbox ∷ inbox ∷ inbox ∷ hot ∷ ys) ih.shape;
        })
  take-Page i extra (y ∷ hs) xs e h = absurd (omega arith)

  -- On full windows the first `5 * k + extra` slots of the merge, for `k` hot posts, are `k` groups
  -- of four inbox posts and a hot one, then `extra` inbox posts; they use every hot post and the
  -- first `4 * k + extra` inbox posts, each in its order.
  pub take-interleave-Page :
      (extra : ℕ) (xs hs : List (Z Score))
      → 4 * length hs + extra ≤ length xs
      → Page
          (take (5 * length hs + extra) (interleave xs hs 4))
          (take (4 * length hs + extra) xs)
          hs
          (length hs)
          extra
  unfolding interleave
  take-interleave-Page extra xs hs h = take-Page 0 extra hs xs refl h

  -- Whatever the ratio, the merge holds each source's posts exactly once and in their order.
  pub interleave-of_source :
      (ratio : ℕ) (xs hs : List (Z Score))
      → (of_source inbox (interleave xs hs ratio) ≡ map (slot inbox) xs)
        × (of_source hot (interleave xs hs ratio) ≡ map (slot hot) hs)
  unfolding interleave
  interleave-of_source ratio xs hs = interleave_from-of_source ratio 0 xs hs
