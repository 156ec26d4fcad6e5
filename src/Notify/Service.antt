-- ===== src/Notify/Service.antt =====
-- services/notify/service.go: the gRPC methods over the store and the live service. The live service
-- is an interface, and so is encoding/json.
pub mod Delivery
use feeds.Prelude.{
  ℕ, suc, ◌+◌, String, ite, Bool, true, false, Option, none, some, List, [], ◌∷◌, ◌++◌, Error,
  message, invalid_argument, internal, Result, ok, err, Outcome, length, text_dec, ltb, ◌||◌,
  if◌then◌else◌, ◌==◌, ◌/◌, map, ◌>>=◌,
}
use feeds.Prelude.Int.{ℤ, pos, negsuc, page_size_of}
use feeds.Comet.Frame.{Bytes}
use feeds.Notify.Store.{
  Notification, Rows, Time, insert, list_by_user, mark_read, unread_count, is_unread,
}

-- `pb.PushReq`
pub record PushReq : Type 0 where
  pub user_id : String
  pub type : String
  pub title : String
  pub body : String
  pub payload : Bytes

-- `pb.PushResp`
pub record PushResp : Type 0 where
  pub id : ℕ
  pub delivered_ws : Bool
  pub device_count : ℤ

-- `pb.LiveServiceClient`: whether a user is online, and how many devices took a payload.
pub record LiveClient (S : Type 0) : Type 0 where
  pub is_online : S → String → S × Result Bool
  pub push_user : S → String → Bytes → S × Result ℤ

pub is_empty : String → Bool
is_empty s = ite (text_dec s "") true false

abbrev default_payload : List ℕ
default_payload = b'{' ∷ b'}' ∷ []

-- The row that `Push` asks for; its id and times are the database's.
unfoldable pub notification_of : PushReq → Notification
notification_of req = record {
  id = 0;
  user_id = req.user_id;
  type = req.type;
  title = req.title;
  body = req.body;
  payload = if length req.payload == 0 then default_payload else req.payload;
  read_at = none;
  created_at = 0;
}

-- Whether the answer of `IsOnline` says online; an error is logged.
unfoldable pub online : Result Bool → Bool
online (ok b) = b
online (err e) = false

abbrev queued : ℕ → PushResp
queued id = record { id = id; delivered_ws = false; device_count = pos 0 }

-- `Delivered > 0`
abbrev pub positive : ℤ → Bool
positive (pos n) = ltb 0 n
positive (negsuc n) = false

-- The answer of `PushUser`; an error is logged.
unfoldable pub reached : ℕ → Result ℤ → PushResp
reached id (err e) = queued id
reached id (ok delivered) = record {
  id = id;
  delivered_ws = positive delivered;
  device_count = delivered;
}

-- `marshal` is json.Marshal of the message with its id.
module _ {S : Type 0} (live : LiveClient S) (marshal : ℕ → PushReq → Bytes) where
  -- What `Push` does once the row is stored under an id.
  unfoldable pub deliver : Bool → PushReq → ℕ → S → S × PushResp
  unfolding reached
  deliver is_on req id s =
      let (s', r) = live.push_user s req.user_id (marshal id req) in
      if is_on then (s', reached id r) else (s, queued id)

  unfoldable pub push : Outcome → ℕ → Time → PushReq → Rows × S → (Rows × S) × Result PushResp
  unfolding is_empty notification_of online
  push outcome id now req (rows, s) =
      if is_empty req.user_id || is_empty req.type || is_empty req.title
      then ((rows, s), err (invalid_argument "user_id, type, title are required"))
      else (let (s', on) = live.is_online s req.user_id in
          let (rows', stored) = insert outcome id now (notification_of req) rows in
          elim stored [
            | err e ↦ ((rows', s'), err (internal e))
            | ok row_id ↦
                let (s'', resp) = deliver (online on) req row_id s' in ((rows', s''), ok resp)
          ])

-- `pb.NotificationItem`
pub record NotificationItem : Type 0 where
  pub id : ℕ
  pub type : String
  pub title : String
  pub body : String
  pub payload : List ℕ
  pub is_read : Bool
  pub created_at : ℕ

pub item_of : Notification → NotificationItem
item_of n = record {
  id = n.id;
  type = n.type;
  title = n.title;
  body = n.body;
  payload = n.payload;
  is_read = elim n.read_at [ none ↦ false | some t ↦ true ];
  created_at = n.created_at / 1000000;
}

-- `status.Errorf(codes.Internal, …)` around a failed call of the store.
abbrev internally {ℓ} : {A : Type ℓ} → Result A → Result A
internally (ok a) = ok a
internally (err e) = err (internal e)

unfoldable pub list_notifications :
    (Rows → Rows) → Outcome → String → ℤ → ℤ → Rows → Result (List NotificationItem × ℕ)
unfolding is_empty item_of
list_notifications by_time outcome user_id cursor page_size rows =
    if is_empty user_id then err (invalid_argument "user_id is required") else (do
      (items, next_cursor) ←
          internally (list_by_user by_time outcome user_id cursor (page_size_of page_size) rows)
      ok (map item_of items, next_cursor))

unfoldable pub mark_read_req :
    (String → Option ℕ) → Outcome → Time → String → String → Rows → Rows × Result Bool
unfolding is_empty
mark_read_req parse_id outcome now user_id notification_id rows =
    if is_empty user_id || is_empty notification_id
    then (rows, err (invalid_argument "user_id and notification_id are required"))
    else (let (rows', done) = mark_read parse_id outcome now user_id notification_id rows in
        (rows', internally done >>= λ _. ok true))

unfoldable pub get_unread_count : Outcome → String → Rows → Result ℕ
unfolding is_empty
get_unread_count outcome user_id rows =
    if is_empty user_id
    then err (invalid_argument "user_id is required")
    else internally (unread_count outcome user_id rows)
