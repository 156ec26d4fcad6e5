-- ===== src/Comet/Client/Handshake.antt =====
-- The client and the server together: the authentication handshake, and the two directions of
-- messages.
use mathlib.Core.List.{append-nil, append_assoc}
use feeds.Prelude.{
  some, err, Result, String, ◌≡◌, ◌≢◌, ◌↔◌, refl, Option, none, List, [], ◌∷◌, ◌++◌, Error, ok,
  text_dec, arith, Result-cases, inl, inr, true, map, length, length-map,
}
use feeds.Comet.Frame.{Bytes, type_message}
use feeds.Comet.ConnManager.{Conn, room_of, members_of, push_to_room, deliver}
use feeds.Comet.ConnManager.Laws.{room_of-bind}
use feeds.Comet.Core.{Business, State, dispatch, push}
use feeds.Comet.Client.{
  err_auth_failed, dial, dial_addr, ClientConn, auth_frame, check_reply, send_message, handle_frame,
}

-- A world that records what is written to each connection, in order.
abbrev pub Wire : Type 0
Wire = List (String × Bytes)

unfoldable pub record_write : Conn → Bytes → Wire → Wire × Option Error
record_write c frame w = (w ++ ((c.id, frame) ∷ []), none)

-- A world in which other goroutines push these payloads to the connection just before a write.
unfoldable pub write_after : List Bytes → Conn → Bytes → Wire → Wire × Option Error
write_after pushes c frame w =
    (w ++ (map (λ p. (c.id, type_message ++ p)) pushes ++ ((c.id, frame) ∷ [])), none)

-- The frame that arrives first.
unfoldable pub first_of : List Bytes → Bytes → Bytes
first_of [] frame = frame
first_of (p ∷ pushes) frame = type_message ++ p

first-accepted :
    (pushes : List Bytes) (reply : Bytes)
    → (check_reply (first_of pushes reply) ≡ ok tt) ↔ ((pushes ≡ []) × (check_reply reply ≡ ok tt))
unfolding first_of check_reply
first-accepted [] reply = (λ h. (refl, h), λ (_, h). h)
first-accepted (p ∷ pushes) reply = (λ h. cc h, λ (e, h). cc e)

-- A refusal is not taken for success.
first-refused : (pushes : List Bytes) → check_reply (first_of pushes (0 ∷ 0 ∷ [])) ≢ ok tt
unfolding check_reply
first-refused pushes h = let (_, taken) = (first-accepted pushes (0 ∷ 0 ∷ [])).0 h in cc taken

-- Where every write succeeds: the server answers an auth frame by one frame, behind the messages that
-- are pushed to the connection before it, and the client, who reads the first frame, takes it for
-- success exactly when no message came before the answer and the server has bound the connection to a
-- user whom the token names.
pub handshake_agrees :
    (b : Business) (s : State Wire) (c : Conn) (token : Bytes) (pushes : List Bytes)
    → let s' = dispatch (write_after pushes) b s c (auth_frame token) in
      (reply : Bytes) × (s'.world
        ≡ s.world ++ (map (λ p. (c.id, type_message ++ p)) pushes ++ ((c.id, reply) ∷ [])))
      × ((check_reply (first_of pushes reply) ≡ ok tt) ↔ (
          (user_id : String) × (pushes ≡ [])
          × (b.on_auth token ≡ ok user_id)
          × (user_id ≢ "")
          × (room_of s'.manager c.id ≡ user_id)))
unfolding dispatch auth_frame write_after check_reply first_of
handshake_agrees b s c token pushes = elim (Result-cases (b.on_auth token)) [
  | inl (user_id, e) ↦ elim (text_dec user_id "") [
    | yes p ↦ (
      0 ∷ 0 ∷ [],
      ground (arith, e),
      (λ h. absurd (first-refused pushes h), λ (u, _, q, r, t). absurd (ground (arith, e, q, r))),
    )
    | no n ↦ (
      0 ∷ 1 ∷ [],
      ground (arith, e),
      (
        λ h. (
          user_id,
          ((first-accepted pushes (0 ∷ 1 ∷ [])).0 h).0,
          e,
          n,
          ground (arith, e, room_of-bind s.manager user_id c c.id),
        ),
        λ (u, alone, q, r, t). (first-accepted pushes (0 ∷ 1 ∷ [])).1 (alone, refl),
      ),
    )
  ]
  | inr (refusal, e) ↦ (
    0 ∷ 0 ∷ [],
    ground (arith, e),
    (λ h. absurd (first-refused pushes h), λ (u, _, q, r, t). absurd (ground (arith, e, q, r))),
  )
]

-- A message pushed between the binding and the answer: the server has bound the connection, and the
-- client takes the message for a refusal.
pub pushed_first :
    (b : Business) (s : State Wire) (c : Conn) (token push reply : Bytes) (pushes : List Bytes)
    (user_id : String)
    → b.on_auth token ≡ ok user_id
    → user_id ≢ ""
    → (room_of (dispatch (write_after (push ∷ pushes)) b s c (auth_frame token)).manager c.id
        ≡ user_id)
      × (check_reply (first_of (push ∷ pushes) reply) ≡ err err_auth_failed)
unfolding dispatch auth_frame write_after check_reply first_of
pushed_first b s c token push reply pushes user_id e named =
    (ground (arith, e, named, room_of-bind s.manager user_id c c.id), refl)

-- A message that a client's `Send` takes stands last in its channel, as a frame whose dispatch is
-- one call of the business layer with the payload as given, if the connection has a user.
pub send_message-arrives :
    {World : Type 0} (write : Conn → Bytes → World → World × Option Error) (b : Business)
    (s : State World) (c : Conn) (client : ClientConn) (payload : Bytes)
    → room_of s.manager c.id ≢ ""
    → (send_message client payload).1 ≡ none
    → (frame : Bytes) × ((send_message client payload).0.send ≡ client.send ++ (frame ∷ []))
      × ((dispatch write b s c frame).calls
          ≡ s.calls
            ++ (record { conn_id = c.id; user_id = room_of s.manager c.id; payload = payload }
                ∷ []))
unfolding send_message dispatch
send_message-arrives write b s c client payload named taken =
    (type_message ++ payload, ground arith, ground (arith, named))

deliver-record_write :
    (conns : List Conn) (frame : Bytes) (w : Wire)
    → deliver record_write conns frame w ≡ (w ++ map (λ c. (c.id, frame)) conns, length conns)
unfolding deliver record_write
deliver-record_write [] frame w = ground (arith, append-nil w)
deliver-record_write (c ∷ conns) frame w = ground (
  arith,
  deliver-record_write conns frame (w ++ ((c.id, frame) ∷ [])),
  append_assoc w ((c.id, frame) ∷ []) (map (λ c. (c.id, frame)) conns),
)

-- A push to a room writes one frame to each of its connections, counts them, and a listening
-- client hands the payload of that frame to its callback as it was given.
pub push-arrives :
    (s : State Wire) (room_id : String) (payload : Bytes)
    → (frame : Bytes) × (push record_write s room_id payload ≡ (
      record s {
        world = s.world ++ map (λ c. (c.id, frame)) (map (λ e. e.1) (members_of s.manager room_id));
      },
      length (members_of s.manager room_id),
    ))
      × ((client : ClientConn)
          → client.listening ≡ true
          → (handle_frame client frame).received ≡ client.received ++ (payload ∷ []))
unfolding push push_to_room handle_frame
push-arrives s room_id payload =
    let conns = map (λ e. e.1) (members_of s.manager room_id) in
    (
      type_message ++ payload,
      ground (
        arith,
        deliver-record_write conns (type_message ++ payload) s.world,
        length-map (λ (e : String × Conn). e.1) (members_of s.manager room_id),
      ),
      λ client on. ground arith,
    )

-- A connection stands only for an address that is parsed, a socket that is opened, a token that is
-- sent and a reply that accepts it.
dial_addr-accepted :
    (parsed opened sent : Option Error) (reply : Result Bytes) (client : ClientConn)
    → dial_addr parsed opened sent reply ≡ ok client
    → (parsed ≡ none)
      × (opened ≡ none)
      × (sent ≡ none)
      × ((raw : Bytes) × (reply ≡ ok raw) × (check_reply raw ≡ ok tt))
unfolding dial_addr dial
dial_addr-accepted (some e) opened sent reply client h = cc h
dial_addr-accepted none (some e) sent reply client h = cc h
dial_addr-accepted none none (some e) reply client h = cc h
dial_addr-accepted none none none (err e) client h = cc h
dial_addr-accepted none none none (ok raw) client h = elim (Result-cases (check_reply raw)) [
  | inl (u, e) ↦ (refl, refl, refl, (raw, refl, e))
  | inr (e, refused) ↦ ground (arith, h, refused)
]
