-- ===== src/Notify/Store.antt =====
-- services/notify/store.go: the notifications table and the SQL statements over it. The identifier
-- and the time of a row are arguments; so is the order of ORDER BY created_at DESC, id DESC.
pub mod Pages
pub mod Unread
use feeds.Prelude.{
  ℕ, zero, suc, ◌+◌, ◌-◌, String, ite, Bool, true, false, Option, none, some, List, [], ◌∷◌, ◌++◌,
  Error, message, Result, ok, err, ◌>>=◌, Outcome, exec, query, length, take, text_dec, ltb, ◌==◌,
  ◌&&◌, ◌||◌, if◌then◌else◌,
}
use feeds.Prelude.Int.{ℤ, pos, negsuc}

abbrev pub Time : Type 0
Time = ℕ

pub record Notification : Type 0 where
  pub id : ℕ
  pub user_id : String
  pub type : String
  pub title : String
  pub body : String
  pub payload : List ℕ
  pub read_at : Option Time
  pub created_at : Time

abbrev pub Rows : Type 0
Rows = List Notification

-- `INSERT INTO notifications … RETURNING id`; `n` holds the columns that the caller gives.
unfoldable pub insert : Outcome → ℕ → Time → Notification → Rows → Rows × Result ℕ
unfolding exec
insert outcome id now n =
    exec outcome (λ t. (t ++ (record n { id = id; read_at = none; created_at = now } ∷ []), id))

-- `$2 = 0 OR id < $2`
unfoldable pub before : ℤ → ℕ → Bool
before (pos zero) id = true
before (pos (suc n)) id = ltb id (suc n)
before (negsuc n) id = false

unfoldable pub belongs : String → Notification → Bool
belongs user_id n = ite (text_dec n.user_id user_id) true false

-- `WHERE`
unfoldable pub keep : (Notification → Bool) → Rows → Rows
keep p [] = []
keep p (n ∷ rows) = let rest = keep p rows in if p n then n ∷ rest else rest

-- The id of the item at an index; Go faults out of range.
unfoldable pub id_at : Rows → ℕ → ℕ
id_at [] i = 0
id_at (n ∷ rows) zero = n.id
id_at (n ∷ rows) (suc i) = id_at rows i

-- The items of the page, without the one too many, and the id of the last.
unfoldable pub cut_page : ℕ → Rows → Rows × ℕ
unfolding id_at
cut_page page_size items =
    if ltb page_size (length items)
    then (take page_size items, id_at items (page_size - 1))
    else if ltb 0 (length items)
    then (items, id_at items (length items - 1))
    else (items, 0)

unfoldable pub list_by_user : (Rows → Rows) → Outcome → String → ℤ → ℕ → Rows → Result (Rows × ℕ)
unfolding query keep belongs before cut_page
list_by_user by_time outcome user_id cursor page_size rows = do
  items ←
      query outcome
        (λ t.
          take (page_size + 1) (by_time (keep (λ n. belongs user_id n && before cursor n.id) t)))
        rows
  ok (cut_page page_size items)

unfoldable pub is_unread : Notification → Bool
is_unread n = elim n.read_at [ none ↦ true | some t ↦ false ]

-- `UPDATE notifications SET read_at = NOW() WHERE …`
unfoldable pub set_read : (Notification → Bool) → Time → Rows → Rows
set_read p now [] = []
set_read p now (n ∷ rows) =
    (if p n then record n { read_at = some now } else n) ∷ set_read p now rows

abbrev pub err_bad_id : Error
err_bad_id = message "invalid input syntax for type bigint"

-- `MarkRead`. The id is a text, which the database reads as a number or refuses; `parse_id` is that
-- reading.
unfoldable pub mark_read :
    (String → Option ℕ) → Outcome → Time → String → String → Rows → Rows × Result (Unit {0})
unfolding exec set_read belongs is_unread
mark_read parse_id outcome now user_id notification_id rows =
    ite (text_dec notification_id "all")
      (exec outcome (λ t. (set_read (λ n. belongs user_id n && is_unread n) now t, tt)) rows)
      (elim (parse_id notification_id) [
        | none ↦ (rows, err err_bad_id)
        | some id ↦
            exec outcome
              (λ t. (set_read (λ n. n.id == id && belongs user_id n && is_unread n) now t, tt)) rows
      ])

unfoldable pub unread_count : Outcome → String → Rows → Result ℕ
unfolding query keep belongs is_unread
unread_count outcome user_id =
    query outcome (λ t. length (keep (λ n. belongs user_id n && is_unread n) t))
