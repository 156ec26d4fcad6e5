-- ===== src/Tests/Notify.antt =====
-- Runs of the notifications.
use feeds.Prelude.{
  suc, Bool, Result, List, ℕ, ◌≤◌, ◌≡◌, ◌≢◌, ◌↔◌, refl, String, true, Option, none, some, [], ◌∷◌,
  ok, answered, arith, text_dec, ne_of_test,
}
use feeds.Prelude.Int.{ℤ, pos}
use feeds.Notify.Store.{
  Notification, Rows, mark_read, unread_count, list_by_user, keep, belongs, id_at,
}
use feeds.Notify.Store.Pages.{cursor_after, all_of, list_by_user-page}
use feeds.Notify.Store.Unread.{Marked, IsAsked, mark_read-unread_count}
use feeds.Notify.Service.{notification_of, LiveClient, positive, online, PushReq, PushResp, push}
use feeds.Notify.Service.Delivery.{push-stores}
use mathlib.Core.List.{lookup}
use feeds.Prelude.{length}
use feeds.Comet.Frame.{Bytes}
use feeds.Comet.ConnManager.{members_of}
use feeds.Comet.Core.{State}
use feeds.Comet.Ws.{Heap, WsConn, new}
use feeds.Comet.Ws.Delivery.{run}
use feeds.Comet.Ws.Draining.{rounds}
use feeds.Comet.Client.Loops.{read_frames}
use feeds.Comet.Delivery.{carried}
use feeds.Notify.Reaching.{live_client, push_arrives}
use feeds.Tests.Comet.{tablet, tablet_online, listener, tablet-IsRoom, tablet-IsReady}

abbrev note : ℕ → String → Notification
note id user_id = record {
  id = id;
  user_id = user_id;
  type = "like";
  title = "t";
  body = "";
  payload = [];
  read_at = none;
  created_at = id;
}

-- Newest first.
abbrev notes : Rows
notes = note 7 "u1" ∷ note 6 "u2" ∷ note 5 "u1" ∷ note 3 "u1" ∷ []

-- The second page of one notification, under the cursor that the first leads to.
list_by_user-page_example :
    list_by_user (λ rs. rs) answered "u1" (pos 7) 1 notes ≡ ok (note 5 "u1" ∷ [], 5)
unfolding all_of cursor_after keep belongs id_at text_dec
list_by_user-page_example =
    list_by_user-page (λ rs. rs) "u1" notes 100 1 1 (λ p rs. refl)
      (omega arith, omega arith, (omega arith, omega arith, (omega arith, omega arith, tt)))
      (omega arith) (omega arith)

abbrev parse_seven : String → Option ℕ
parse_seven s = some 7

mark_read-unread_count_example :
    let rows' = (mark_read parse_seven answered 50 "u1" "all" notes).0 in
    Marked (IsAsked parse_seven "u1" "all") 50 notes rows'
    × (◌≢◌ {A = String} "u2" "u1"
        → unread_count answered "u2" rows' ≡ unread_count answered "u2" notes)
    × ((before after : ℕ)
        → unread_count answered "u1" notes ≡ ok before
        → unread_count answered "u1" rows' ≡ ok after
        → after ≤ before)
    × (◌≡◌ {A = String} "all" "all" → unread_count answered "u1" rows' ≡ ok 0)
mark_read-unread_count_example = mark_read-unread_count parse_seven 50 "u1" "all" "u2" notes

-- It counts the pushes.
abbrev live : LiveClient ℕ
live = record {
  is_online = λ n user_id. (n, ok true);
  push_user = λ n user_id payload. (suc n, ok (pos 2));
}

abbrev marshal : ℕ → PushReq → List ℕ
marshal id req = id ∷ []

abbrev request : PushReq
request = record {
  user_id = "u1";
  type = "like";
  title = "t";
  body = "";
  payload = b'{' ∷ b'}' ∷ [];
}

push-stores_example :
    (resp : PushResp) × (push live marshal answered 9 9 request ([], 0)
      ≡ ((record (note 9 "u1") { payload = request.payload } ∷ [], 1), ok resp))
    × (resp.id ≡ 9)
    × ((resp.delivered_ws ≡ true) ↔ (
        (devices : ℤ) × (◌≡◌ {A = Result Bool} (ok true) (ok true))
        × (◌≡◌ {A = Result ℤ} (ok (pos 2)) (ok devices))
        × (positive devices ≡ true)))
unfolding notification_of online
push-stores_example =
    push-stores live marshal 9 9 request [] 0 (ne_of_test _ _ refl) (ne_of_test _ _ refl)
      (ne_of_test _ _ refl)

abbrev to_tablet : PushReq
to_tablet = record request { user_id = "u2" }

push_arrives_example :
    (s : State Heap) × (resp : PushResp) × (ws : WsConn) × (frame : Bytes) × (push live_client
        marshal answered 9 9 to_tablet
        ([], tablet_online)
      ≡ ((record (note 9 "u2") { payload = request.payload } ∷ [], s), ok resp))
    × (resp.delivered_ws ≡ true)
    × (lookup text_dec "c2" s.world ≡ some ws)
    × ((run ws (rounds (length ws.send))).sent ≡ frame ∷ [])
    × ((read_frames listener (carried (frame ∷ []))).received ≡ (9 ∷ []) ∷ [])
unfolding notification_of members_of lookup text_dec new
push_arrives_example =
    push_arrives marshal 9 9 to_tablet [] tablet_online "c2" tablet new listener
      (ne_of_test _ _ refl) (ne_of_test _ _ refl) (ne_of_test _ _ refl) tablet-IsRoom (omega arith)
      refl refl tablet-IsReady refl refl (omega arith)
