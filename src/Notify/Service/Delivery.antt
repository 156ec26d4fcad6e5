-- ===== src/Notify/Service/Delivery.antt =====
-- What a push stores and answers.
use feeds.Prelude.{
  ℕ, ◌≡◌, ◌≢◌, ◌↔◌, Bool, true, false, none, [], ◌∷◌, ◌++◌, Result, ok, err, message, answered,
  arith, refl, if◌then◌else◌, inl, inr, Bool-cases,
}
use feeds.Prelude.Int.{ℤ}
use feeds.Comet.Frame.{Bytes}
use feeds.Notify.Store.{Rows, Time, insert}
use feeds.Notify.Service.{
  PushReq, PushResp, LiveClient, notification_of, positive, reached, deliver, push, online,
}

reached-id : (id : ℕ) (r : Result ℤ) → PushResp.id (reached id r) ≡ id
unfolding reached
reached-id id (ok n) = ground arith
reached-id id (err e) = ground arith

reached-delivered :
    (id : ℕ) (r : Result ℤ)
    → (PushResp.delivered_ws (reached id r) ≡ true)
      ↔ ((devices : ℤ) × (r ≡ ok devices) × (positive devices ≡ true))
unfolding reached
reached-delivered id (ok n) = (λ h. (n, ground arith, h), λ (m, e, h). cc (e, h))
reached-delivered id (err e) = (λ h. absurd (cc h), λ (m, e', h). absurd (cc e'))

online-true : (r : Result Bool) → (online r ≡ true) ↔ (r ≡ ok true)
unfolding online
online-true (ok b) = (λ h. cc h, λ h. cc h)
online-true (err e) = (λ h. absurd (cc h), λ h. absurd (cc h))

module _ {S : Type 0} (live : LiveClient S) (marshal : ℕ → PushReq → Bytes) where
  deliver-on :
      (req : PushReq) (id : ℕ) (s : S)
      → let told = live.push_user s req.user_id (marshal id req) in
        deliver live marshal true req id s ≡ (told.0, reached id told.1)
  unfolding deliver
  deliver-on req id s = refl

  deliver-off :
      (req : PushReq) (id : ℕ) (s : S)
      → deliver live marshal false req id s ≡ (s, reached id (err (message "offline")))
  unfolding deliver reached
  deliver-off req id s = refl

  deliver-told :
      (req : PushReq) (id : ℕ) (s : S) (on : Result Bool)
      → let told = live.push_user s req.user_id (marshal id req) in
        let (s', resp) = deliver live marshal (online on) req id s in
        (s' ≡ (if online on then told.0 else s))
        × (PushResp.id resp ≡ id)
        × ((PushResp.delivered_ws resp ≡ true)
            ↔ ((devices : ℤ) × (on ≡ ok true) × (told.1 ≡ ok devices) × (positive devices ≡ true)))
  deliver-told req id s on = elim (Bool-cases (online on)) [
    | inl yes_on ↦
        let told = live.push_user s req.user_id (marshal id req) in
        let (to, from) = reached-delivered id told.1 in
        rw yes_on (
          rw (deliver-on req id s) (
            refl,
            reached-id id told.1,
            (
              λ h. let (n, e, p) = to h in (n, (online-true on).0 yes_on, e, p),
              λ (n, is_on, e, p). from (n, e, p),
            ),
          ))
    | inr not_on ↦ rw not_on (
        rw (deliver-off req id s) (
          refl,
          reached-id id _,
          (
            λ h.
                let (n, e, p) = (reached-delivered id (err (message "offline"))).0 h in
                absurd (cc e),
            λ (n, is_on, e, p). absurd (cc ((online-true on).1 is_on, not_on)),
          ),
        ))
  ]

  -- A valid push that the database answers stores exactly one unread row for its user, whatever the
  -- live service does; the answer carries the row's id; the live service is asked to push the encoded
  -- message only if it has reported the user online; and the answer says delivered exactly if the user was
  -- reported online and the push then reached a device.
  pub push-stores :
      (id : ℕ) (now : Time) (req : PushReq) (rows : Rows) (s : S)
      → req.user_id ≢ ""
      → req.type ≢ ""
      → req.title ≢ ""
      → let (s', on) = live.is_online s req.user_id in
        let (s'', told) = live.push_user s' req.user_id (marshal id req) in
        (resp : PushResp) × (push live marshal answered id now req (rows, s) ≡ (
          (
            rows
                ++ (record (notification_of req) { id = id; read_at = none; created_at = now }
                    ∷ []),
            if online on then s'' else s',
          ),
          ok resp,
        ))
        × (resp.id ≡ id)
        × ((resp.delivered_ws ≡ true)
            ↔ ((devices : ℤ) × (on ≡ ok true) × (told ≡ ok devices) × (positive devices ≡ true)))
  unfolding push insert
  push-stores id now req rows s user type title =
      let (s', on) = live.is_online s req.user_id in
      let (left, own, delivered) = deliver-told req id s' on in
      (
        (deliver live marshal (online on) req id s').1,
        ground (arith, user, type, title, left),
        own,
        delivered,
      )
