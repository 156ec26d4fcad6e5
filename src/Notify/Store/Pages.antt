-- ===== src/Notify/Store/Pages.antt =====
-- The pages of a user's notifications, by the cursor of one page after the other.
use feeds.Prelude.{
  ℕ, zero, suc, ◌+◌, ◌-◌, ◌≤◌, ◌<◌, ◌≡◌, refl, ap, ◌∙◌, String, Bool, true, [], ◌∷◌, ok, answered,
  arith, length, take, drop, take-take, take_of_length-le, length-take, length-drop, ltb, ◌&&◌,
  if◌then◌else◌, Bool-cases, inl, inr,
}
use native.Mathlib.Nat.{suc-add}
use feeds.Prelude.Int.{pos}
use feeds.Notify.Store.{Notification, Rows, keep, belongs, before, id_at, cut_page, list_by_user}

-- The ids fall along the list, below a bound, and none is 0.
abbrev pub FallsBelow : ℕ → Rows → Type 0
FallsBelow bound [] = Unit
FallsBelow bound (n ∷ rows) = (n.id < bound) × (0 < n.id) × FallsBelow n.id rows

-- The cursor after the first `m` notifications; at the start it is 0.
unfoldable pub cursor_after : Rows → ℕ → ℕ
cursor_after all zero = 0
cursor_after all (suc m) = id_at all m

keep-and :
    (p q : Notification → Bool) (rows : Rows) → keep (λ n. p n && q n) rows ≡ keep q (keep p rows)
unfolding keep
keep-and p q [] = refl
keep-and p q (n ∷ rows) = ground (arith, keep-and p q rows)

FallsBelow-mono : (m n : ℕ) (rows : Rows) → m ≤ n → FallsBelow m rows → FallsBelow n rows
FallsBelow-mono m n [] le h = tt
FallsBelow-mono m n (x ∷ rows) le h = (omega arith, h.1, h.2)

keep_below :
    (bound : ℕ) (rows : Rows) → FallsBelow bound rows → keep (λ n. ltb n.id bound) rows ≡ rows
unfolding keep
keep_below bound [] h = refl
keep_below bound (n ∷ rows) h =
    ground (arith, keep_below bound rows (FallsBelow-mono n.id bound rows (omega arith) h.2))

id_at_bounds :
    (bound : ℕ) (rows : Rows) (i : ℕ)
    → FallsBelow bound rows
    → i < length rows
    → (id_at rows i < bound) × (0 < id_at rows i)
unfolding id_at
id_at_bounds bound [] i h le = absurd (omega arith)
id_at_bounds bound (n ∷ rows) zero h le = (h.0, h.1)
id_at_bounds bound (n ∷ rows) (suc i) h le =
    omega (arith, id_at_bounds n.id rows i h.2 (omega arith))

-- The notifications before the cursor are those after the item that the cursor names.
keep-drop :
    (bound m : ℕ) (all : Rows)
    → FallsBelow bound all
    → m < length all
    → keep (λ n. ltb n.id (id_at all m)) all ≡ drop (suc m) all
unfolding keep id_at
keep-drop bound m [] h le = absurd (omega arith)
keep-drop bound zero (n ∷ rows) h le = ground (arith, keep_below n.id rows h.2)
keep-drop bound (suc m) (n ∷ rows) h le =
    ground (arith, keep-drop n.id m rows h.2, id_at_bounds n.id rows m h.2)

keep_all :
    (p : Notification → Bool) (rows : Rows) → ((n : Notification) → p n ≡ true) → keep p rows ≡ rows
unfolding keep
keep_all p [] h = refl
keep_all p (n ∷ rows) h = ground (arith, h n, keep_all p rows h)

keep-cursor :
    (bound m : ℕ) (all : Rows)
    → FallsBelow bound all
    → m ≤ length all
    → keep (λ n. before (pos (cursor_after all m)) n.id) all ≡ drop m all
unfolding cursor_after before
keep-cursor bound zero all h le = keep_all _ all (λ n. refl)
keep-cursor bound (suc m) all h le =
    let some_id = id_at_bounds bound all m h (omega arith) in
    let e : id_at all m ≡ suc (id_at all m - 1) = omega arith in
    ap (λ p. keep p all) (before_id (id_at all m) some_id.1) ∙ keep-drop bound m all h (omega arith)
  where
    before_id :
        (k : ℕ) → 0 < k → ◌≡◌ {A = Notification → Bool} (λ n. before (pos k) n.id) (λ n. ltb n.id k)
    before_id zero h = elim h [ ]
    before_id (suc k) h = refl

id_at-take : (k i : ℕ) (xs : Rows) → i < k → id_at (take k xs) i ≡ id_at xs i
unfolding id_at
id_at-take zero i xs h = elim h [ ]
id_at-take (suc k) i [] h = refl
id_at-take (suc k) zero (x ∷ xs) h = refl
id_at-take (suc k) (suc i) (x ∷ xs) h = id_at-take k i xs (omega arith)

id_at-drop : (m i : ℕ) (xs : Rows) → m ≤ length xs → id_at (drop m xs) i ≡ id_at xs (m + i)
unfolding id_at
id_at-drop zero i xs h = ap (id_at xs) (omega arith)
id_at-drop (suc m) i [] h = absurd (omega arith)
id_at-drop (suc m) i (x ∷ xs) h = rw (suc-add m i) (id_at-drop m i xs (omega arith))

-- The page of the items left, and the id of its last item.
cut_page-take :
    (n : ℕ) (xs : Rows)
    → 0 < n
    → cut_page n (take (n + 1) xs)
      ≡ (take n xs, if ltb 0 (length xs) then id_at xs (length (take n xs) - 1) else 0)
unfolding cut_page
cut_page-take n xs h = elim (Bool-cases (ltb n (length xs))) [
  | inl more ↦
      let full : length (take n xs) ≡ n = ground (arith, length-take n xs, more) in
      ground (
        arith,
        more,
        full,
        length-take (n + 1) xs,
        take-take n (n + 1) xs,
        id_at-take (n + 1) (n - 1) xs,
      )
  | inr all ↦ ground (arith, all, take_of_length-le (n + 1) xs, take_of_length-le n xs)
]

add_sub : (m k : ℕ) → 0 < k → ◌≡◌ {A = ℕ} (m + (k - 1)) (m + k - 1)
add_sub m k h = omega arith

cursor_after_pos : (all : Rows) (j : ℕ) → 0 < j → cursor_after all j ≡ id_at all (j - 1)
unfolding cursor_after
cursor_after_pos all zero h = elim h [ ]
cursor_after_pos all (suc j) h = ap (id_at all) (omega arith)

last_cursor :
    (m n : ℕ) (all : Rows)
    → m ≤ length all
    → 0 < n
    → (if ltb 0 (length (drop m all))
        then id_at (drop m all) (length (take n (drop m all)) - 1)
        else 0)
      ≡ (if ltb m (length all) then cursor_after all (m + length (take n (drop m all))) else 0)
last_cursor m n all le some_items =
    let k = length (take n (drop m all)) in
    ground (
      arith,
      length-drop m all,
      length-take n (drop m all),
      id_at-drop m (k - 1) all,
      cursor_after_pos all (m + k),
      add_sub m k,
    )

module _ (by_time : Rows → Rows) (user_id : String) (rows : Rows) where
  -- The user's notifications, newest first.
  unfoldable pub all_of : Rows
  all_of = by_time (keep (belongs user_id) rows)

  -- When the database answers, and along the user's notifications from new to old the ids fall and none
  -- is 0: the page under the cursor that the first `m` of them lead to is the next `n` of them, and its
  -- cursor is the one that those lead to in turn, also where they are the last; only a page with no
  -- item has the cursor 0. So pages skip nothing and repeat nothing.
  pub list_by_user-page :
      (bound m n : ℕ)
      → ((p : Notification → Bool) (rs : Rows) → by_time (keep p rs) ≡ keep p (by_time rs))
      → FallsBelow bound all_of
      → m ≤ length all_of
      → 0 < n
      → list_by_user by_time answered user_id (pos (cursor_after all_of m)) n rows
        ≡ ok (
          take n (drop m all_of),
          if ltb m (length all_of)
              then cursor_after all_of (m + length (take n (drop m all_of)))
              else 0,
        )
  unfolding list_by_user all_of
  list_by_user-page bound m n commutes falls le some_items =
      let all = by_time (keep (belongs user_id) rows) in
      let cursor = pos (cursor_after all m) in
      let found : by_time (keep (λ k. belongs user_id k && before cursor k.id) rows) ≡ drop m all =
        ap by_time (keep-and (belongs user_id) (λ k. before cursor k.id) rows)
        ∙ commutes (λ k. before cursor k.id) (keep (belongs user_id) rows)
        ∙ keep-cursor bound m all falls le in
      rw (found, cut_page-take n (drop m all) some_items)
        (ap (λ c. ok (take n (drop m all), c)) (last_cursor m n all le some_items))
