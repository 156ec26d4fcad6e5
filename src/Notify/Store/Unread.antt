-- ===== src/Notify/Store/Unread.antt =====
-- What `MarkRead` does to the counts of unread notifications.
use feeds.Prelude.{
  Option-cases, ◌↔◌, ◌⊎◌, inl, inr, Bool-cases, ℕ, ◌≤◌, ◌≡◌, ◌≢◌, refl, String, Bool, true, false,
  Option, none, some, [], ◌∷◌, ok, answered, arith, length, text_dec, ◌&&◌, ◌==◌,
}
use feeds.Notify.Store.{
  Notification, Rows, Time, keep, belongs, is_unread, set_read, mark_read, unread_count,
}

unread : String → Rows → Rows
unread user_id = keep (λ n. belongs user_id n && is_unread n)

module _ (p : Notification → Bool) (now : Time) where
  set_read-other :
      (user_id : String) (rows : Rows)
      → ((n : Notification) → p n ≡ true → n.user_id ≢ user_id)
      → length (unread user_id (set_read p now rows)) ≡ length (unread user_id rows)
  unfolding unread keep set_read belongs is_unread
  set_read-other user_id [] h = refl
  set_read-other user_id (n ∷ rows) h = ground (arith, h n, set_read-other user_id rows h)

  set_read-le :
      (user_id : String) (rows : Rows)
      → length (unread user_id (set_read p now rows)) ≤ length (unread user_id rows)
  unfolding unread keep set_read belongs is_unread
  set_read-le user_id [] = omega arith
  set_read-le user_id (n ∷ rows) = ground (arith, set_read-le user_id rows)

set_read_all :
    (user_id : String) (now : Time) (rows : Rows)
    → length (unread user_id (set_read (λ n. belongs user_id n && is_unread n) now rows)) ≡ 0
unfolding unread keep set_read belongs is_unread
set_read_all user_id now [] = refl
set_read_all user_id now (n ∷ rows) = ground (arith, set_read_all user_id now rows)

belongs_lem : (user_id : String) (n : Notification) → belongs user_id n ≡ true → n.user_id ≡ user_id
unfolding belongs
belongs_lem user_id n h = ground arith

-- The condition of the UPDATE for one id.
abbrev one_of : (String → Option ℕ) → String → String → Notification → Bool
one_of parse_id user_id notification_id n = elim (parse_id notification_id) [
  | none ↦ false
  | some id ↦ n.id == id && belongs user_id n && is_unread n
]

one_of_lem :
    (parse_id : String → Option ℕ) (user_id notification_id : String) (n : Notification)
    → one_of parse_id user_id notification_id n ≡ true
    → n.user_id ≡ user_id
one_of_lem parse_id user_id notification_id n h = ground (arith, h, belongs_lem user_id n)

-- The notification is one that a user asks to mark: its own, by its id or as one of "all", and not read.
abbrev pub IsAsked : (String → Option ℕ) → String → String → Notification → Type 0
IsAsked parse_id user_id notification_id n =
    (n.user_id ≡ user_id)
    × (n.read_at ≡ none)
    × ((notification_id ≡ "all") ⊎ (parse_id notification_id ≡ some n.id))

-- The rows before and after, one by one: those that are asked for are read now, and the others are as
-- they were.
pub data Marked (asked : Notification → Type 0) (now : Time) : Rows → Rows → Type 0 where
  nothing : Marked asked now [] []
  marks :
      {n : Notification} {rows rows' : Rows}
      → asked n
      → Marked asked now rows rows'
      → Marked asked now (n ∷ rows) (record n { read_at = some now } ∷ rows')
  keeps :
      {n : Notification} {rows rows' : Rows}
      → (asked n → ⊥)
      → Marked asked now rows rows'
      → Marked asked now (n ∷ rows) (n ∷ rows')

set_read-Marked :
    (asked : Notification → Type 0) (p : Notification → Bool) (now : Time) (rows : Rows)
    → ((n : Notification) → (p n ≡ true) ↔ asked n)
    → Marked asked now rows (set_read p now rows)
unfolding set_read
set_read-Marked asked p now [] same = nothing
set_read-Marked asked p now (n ∷ rows) same =
    let rest = set_read-Marked asked p now rows same in
    elim (Bool-cases (p n)) [
      | inl e ↦ rw (e, set_read) (marks ((same n).0 e) rest)
      | inr e ↦ rw (e, set_read) (keeps (λ h. cc (e, (same n).1 h)) rest)
    ]

none-Marked :
    (asked : Notification → Type 0) (now : Time) (rows : Rows)
    → ((n : Notification) → asked n → ⊥)
    → Marked asked now rows rows
none-Marked asked now [] h = nothing
none-Marked asked now (n ∷ rows) h = keeps (h n) (none-Marked asked now rows h)

module _ (parse_id : String → Option ℕ) (user_id notification_id : String) where
  all-IsAsked :
      (n : Notification)
      → notification_id ≡ "all"
      → ((belongs user_id n && is_unread n) ≡ true) ↔ IsAsked parse_id user_id notification_id n
  unfolding belongs is_unread
  all-IsAsked n all = (
    λ h. (ground (arith, h), ground (arith, h), inl all),
    λ (own, fresh, _). ground (arith, own, fresh),
  )

  one-IsAsked :
      (id : ℕ) (n : Notification)
      → notification_id ≢ "all"
      → parse_id notification_id ≡ some id
      → ((n.id == id && belongs user_id n && is_unread n) ≡ true)
        ↔ IsAsked parse_id user_id notification_id n
  unfolding belongs is_unread
  one-IsAsked id n ne e = (
    λ h. (ground (arith, h), ground (arith, h), inr (ground (arith, h, e))),
    λ (own, fresh, which). elim which [
      | inl all ↦ absurd (ne all)
      | inr k ↦ ground (arith, own, fresh, e, k)
    ],
  )

  module _ (now : Time) (rows : Rows) where
    marked_rows : Rows
    marked_rows = (mark_read parse_id answered now user_id notification_id rows).0

    marked_rows_all :
        notification_id ≡ "all"
        → marked_rows ≡ set_read (λ n. belongs user_id n && is_unread n) now rows
    unfolding marked_rows mark_read
    marked_rows_all all = ground (arith, all)

    marked_rows_bad_id :
        notification_id ≢ "all" → parse_id notification_id ≡ none → marked_rows ≡ rows
    unfolding marked_rows mark_read
    marked_rows_bad_id ne e = ground (arith, ne, e)

    marked_rows_one :
        (id : ℕ)
        → notification_id ≢ "all"
        → parse_id notification_id ≡ some id
        → marked_rows ≡ set_read (λ n. n.id == id && belongs user_id n && is_unread n) now rows
    unfolding marked_rows mark_read
    marked_rows_one id ne e = ground (arith, ne, e)

    mark_read-Marked : Marked (IsAsked parse_id user_id notification_id) now rows marked_rows
    mark_read-Marked = elim (text_dec notification_id "all") [
      | yes all ↦ rw (marked_rows_all all) (set_read-Marked _ _ now rows (λ n. all-IsAsked n all))
      | no ne ↦ elim (Option-cases (parse_id notification_id)) [
        | inl e ↦ rw (marked_rows_bad_id ne e) (
            none-Marked _ now rows
              (λ n (own, fresh, which). elim which [ inl all ↦ ne all | inr h ↦ cc (e, h) ]))
        | inr (id, e) ↦
            rw (marked_rows_one id ne e) (set_read-Marked _ _ now rows (λ n. one-IsAsked id n ne e))
      ]
    ]

-- When the database answers, `MarkRead` stamps with the time exactly the user's own unread notification
-- of that id, or for the id "all" every one of them, and leaves every other row as it is. So it never
-- changes another user's unread count and never raises the user's own; for the id "all" it brings it
-- to 0.
pub mark_read-unread_count :
    (parse_id : String → Option ℕ) (now : Time) (user_id notification_id other : String)
    (rows : Rows)
    → let rows' = (mark_read parse_id answered now user_id notification_id rows).0 in
      Marked (IsAsked parse_id user_id notification_id) now rows rows'
      × (other ≢ user_id → unread_count answered other rows' ≡ unread_count answered other rows)
      × ((before after : ℕ)
          → unread_count answered user_id rows ≡ ok before
          → unread_count answered user_id rows' ≡ ok after
          → after ≤ before)
      × (notification_id ≡ "all" → unread_count answered user_id rows' ≡ ok 0)
unfolding mark_read unread_count unread marked_rows
mark_read-unread_count parse_id now user_id notification_id other rows =
    elim (text_dec notification_id "all") [
      | yes all ↦
          let p = λ (n : Notification). belongs user_id n && is_unread n in
          (
            mark_read-Marked parse_id user_id notification_id now rows,
            λ ne. ground (
              arith,
              all,
              set_read-other p now other rows (λ n h. ground (arith, h, ne, belongs_lem user_id n)),
            ),
            λ before after h h'. ground (arith, all, h, h', set_read-le p now user_id rows),
            λ _. ground (arith, all, set_read_all user_id now rows),
          )
      | no one ↦
          let p = one_of parse_id user_id notification_id in
          (
            mark_read-Marked parse_id user_id notification_id now rows,
            λ ne. ground (
              arith,
              one,
              set_read-other p now other rows
                  (λ n h. ground (arith, h, ne, one_of_lem parse_id user_id notification_id n)),
            ),
            λ before after h h'. ground (arith, one, h, h', set_read-le p now user_id rows),
            λ all. absurd (one all),
          )
    ]
