-- ===== src/Comet/Core/Sessions.antt =====
-- What a client can bring about by the frames that it sends on one connection, against a
-- specification that keeps one text: the user whom the connection speaks for.
use feeds.Prelude.{
  String, ◌≡◌, ◌≢◌, refl, sym, ite, Option, List, [], ◌∷◌, ◌++◌, Error, Result, ok, err, text_dec,
  arith, ◌==◌, ◌&&◌, if◌then◌else◌, Result-cases, inl, inr,
}
use mathlib.Core.List.{append_assoc, append-nil}
use feeds.Comet.Frame.{Bytes}
use feeds.Comet.ConnManager.{Conn, room_of}
use feeds.Comet.ConnManager.Laws.{room_of-bind}
use feeds.Comet.Core.{Business, Call, State, dispatch}

-- The user after a token: unchanged if it is refused or names nobody.
abbrev authenticated : Result String → String → String
authenticated (err e) user = user
authenticated (ok user_id) user = ite (text_dec user_id "") user user_id

-- The user after a frame.
unfoldable pub user_after : Business → String → Bytes → String
user_after b user [] = user
user_after b user (x ∷ []) = user
user_after b user (x ∷ y ∷ payload) =
    if x == 0 && y == 2 then authenticated (b.on_auth payload) user else user

-- The business calls of a frame that comes from a connection of this user.
unfoldable pub calls_of : String → String → Bytes → List Call
calls_of id user [] = []
calls_of id user (x ∷ []) = []
calls_of id user (x ∷ y ∷ payload) =
    if x == 0 && y == 3
    then ite (text_dec user "") [] (record { conn_id = id; user_id = user; payload = payload } ∷ [])
    else []

unfoldable pub session_calls : Business → String → String → List Bytes → List Call
session_calls b id user [] = []
session_calls b id user (raw ∷ frames) =
    calls_of id user raw ++ session_calls b id (user_after b user raw) frames

unfoldable pub session_user : Business → String → List Bytes → String
session_user b user [] = user
session_user b user (raw ∷ frames) = session_user b (user_after b user raw) frames

module _ {World : Type 0} (write : Conn → Bytes → World → World × Option Error) (b : Business) where
  -- The frames of one connection, in the order in which its `ReadLoop` reads them.
  unfoldable pub dispatch_all : State World → Conn → List Bytes → State World
  dispatch_all s c [] = s
  dispatch_all s c (raw ∷ frames) = dispatch_all (dispatch write b s c raw) c frames

  dispatch-room_of :
      (s : State World) (c : Conn) (raw : Bytes)
      → room_of (dispatch write b s c raw).manager c.id ≡ user_after b (room_of s.manager c.id) raw
  unfolding dispatch user_after
  dispatch-room_of s c [] = refl
  dispatch-room_of s c (x ∷ []) = refl
  dispatch-room_of s c (x ∷ y ∷ payload) = elim (Result-cases (b.on_auth payload)) [
    | inl (user_id, e) ↦ ground (arith, e, room_of-bind s.manager user_id c c.id)
    | inr (refusal, e) ↦ ground (arith, e)
  ]

  dispatch-calls :
      (s : State World) (c : Conn) (raw : Bytes)
      → (dispatch write b s c raw).calls ≡ s.calls ++ calls_of c.id (room_of s.manager c.id) raw
  unfolding dispatch calls_of
  dispatch-calls s c [] = sym (append-nil s.calls)
  dispatch-calls s c (x ∷ []) = sym (append-nil s.calls)
  dispatch-calls s c (x ∷ y ∷ payload) = ground (arith, append-nil s.calls)

  -- For every sequence of frames that arrives on one connection, the calls of the business layer
  -- are those of the specification, in order, each under the user of the last accepted token
  -- before it, and none before the first; and the connection's room is the last accepted user.
  pub dispatch_all-session :
      (s : State World) (c : Conn) (frames : List Bytes)
      → ((dispatch_all s c frames).calls
          ≡ s.calls ++ session_calls b c.id (room_of s.manager c.id) frames)
        × (room_of (dispatch_all s c frames).manager c.id
            ≡ session_user b (room_of s.manager c.id) frames)
  unfolding dispatch_all session_calls session_user
  dispatch_all-session s c [] = (sym (append-nil s.calls), refl)
  dispatch_all-session s c (raw ∷ frames) =
      let ih = dispatch_all-session (dispatch write b s c raw) c frames in
      simp (dispatch-room_of s c raw, dispatch-calls s c raw, append_assoc) at ih

  -- Frames of one connection leave the rooms of the others alone.
  pub dispatch-room_of_other :
      (s : State World) (c : Conn) (raw : Bytes) (j : String)
      → j ≢ c.id
      → room_of (dispatch write b s c raw).manager j ≡ room_of s.manager j
  unfolding dispatch
  dispatch-room_of_other s c [] j other = refl
  dispatch-room_of_other s c (x ∷ []) j other = refl
  dispatch-room_of_other s c (x ∷ y ∷ payload) j other = elim (Result-cases (b.on_auth payload)) [
    | inl (user_id, e) ↦ ground (arith, e, room_of-bind s.manager user_id c j)
    | inr (refusal, e) ↦ ground (arith, e)
  ]
