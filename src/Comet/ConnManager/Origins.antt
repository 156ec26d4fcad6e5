-- ===== src/Comet/ConnManager/Origins.antt =====
-- Where the members of a room and the room of a connection come from: only a binding adds any.
use mathlib.Core.List.{lookup}
use mathlib.Core.Path.{subst}
use feeds.Prelude.{
  ◌≡◌, ◌≢◌, sym, ◌∙◌, String, Bool, true, false, List, [], ite, if_pos, if_neg, length, text_dec,
  arith, Option-cases, inl, inr, ◌==◌, if◌then◌else◌,
}
use feeds.Prelude.Maps.{insert, delete, lookup-insert, lookup-delete}
use feeds.Prelude.All.{All, All-insert, All-delete}
use feeds.Comet.ConnManager.{Conn, ConnManager, Members, leave, room_of, pop, members_of, bind}
use feeds.Comet.ConnManager.Laws.{members_in, members_of-bind, room_of-bind, room_of-pop}

members_in-insert :
    (r s : String) (ms : Members) (rooms : List (String × Members))
    → members_in (insert text_dec r ms rooms) s ≡ ite (text_dec s r) ms (members_in rooms s)
members_in-insert r s ms rooms = ground (arith, lookup-insert text_dec s r ms rooms)

members_in-delete :
    (r s : String) (rooms : List (String × Members))
    → members_in (delete text_dec r rooms) s ≡ ite (text_dec s r) [] (members_in rooms s)
members_in-delete r s rooms = ground (arith, lookup-delete text_dec s r rooms)

-- `P r c`: the connection may be a member of the room.
module _ {ℓ} (P : String → Conn → Type ℓ) where
  abbrev pub MembersOf : String → Members → Type ℓ
  MembersOf r ms = All (λ (e : String × Conn). P r e.1) ms

  MembersOf-ite :
      (r s : String) (d : Dec (s ≡ r)) (xs ys : Members)
      → MembersOf r xs
      → MembersOf s ys
      → MembersOf s (ite d xs ys)
  MembersOf-ite r s (yes e) xs ys h k = subst (λ x. MembersOf x xs) (sym e) h
  MembersOf-ite r s (no n) xs ys h k = k

  MembersOf-if :
      (s : String) (b : Bool) (xs ys : List (String × Members))
      → MembersOf s (members_in xs s)
      → MembersOf s (members_in ys s)
      → MembersOf s (members_in (if b then xs else ys) s)
  MembersOf-if s true xs ys h k = h
  MembersOf-if s false xs ys h k = k

  MembersOf-leave :
      (r id : String) (rooms : List (String × Members))
      → ((s : String) → MembersOf s (members_in rooms s))
      → (s : String) → MembersOf s (members_in (leave r id rooms) s)
  unfolding leave
  MembersOf-leave r id rooms h s = elim (Option-cases (lookup text_dec r rooms)) [
    | inl e ↦ rw (e, leave) (h s)
    | inr (ms, e) ↦
        let rest = delete text_dec id ms in
        let old : MembersOf r ms = rw (e, members_in) at (h r) in
        rw (e, leave)
          (MembersOf-if s (length rest == 0) (delete text_dec r rooms)
            (insert text_dec r rest rooms)
            (subst (MembersOf s) (sym (members_in-delete r s rooms))
              (MembersOf-ite r s (text_dec s r) [] (members_in rooms s) tt (h s)))
            (subst (MembersOf s) (sym (members_in-insert r s rest rooms)) (
              MembersOf-ite r s (text_dec s r) rest (members_in rooms s)
                (All-delete text_dec (λ e. P r e.1) id ms old) (h s))))
  ]

  pub MembersOf-pop :
      (m : ConnManager) (c : Conn)
      → ((s : String) → MembersOf s (members_of m s))
      → (s : String) → MembersOf s (members_of (pop m c) s)
  unfolding pop members_of
  MembersOf-pop m c h s = elim (text_dec (room_of m c.id) "") [
    | yes e ↦ rw (if_pos _ e) (h s)
    | no n ↦ rw (if_neg _ n) (MembersOf-leave (room_of m c.id) c.id m.rooms h s)
  ]

  pub MembersOf-bind :
      (m : ConnManager) (r : String) (c : Conn)
      → P r c
      → ((s : String) → MembersOf s (members_of m s))
      → (s : String) → MembersOf s (members_of (bind m r c) s)
  MembersOf-bind m r c p h s = subst (MembersOf s) (sym (members_of-bind m r s c)) (
      MembersOf-ite r s (text_dec s r) (insert text_dec c.id c (members_of m r)) (members_of m s)
        (All-insert text_dec (λ e. P r e.1) c.id c (members_of m r) p (h r)) (h s))

-- `P id r`: the connection may have the room.
module _ {ℓ} (P : String → String → Type ℓ) where
  abbrev pub RoomsOf : ConnManager → Type ℓ
  RoomsOf m = (id : String) → room_of m id ≢ "" → P id (room_of m id)

  pub RoomsOf-bind :
      (m : ConnManager) (r : String) (c : Conn) → P c.id r → RoomsOf m → RoomsOf (bind m r c)
  RoomsOf-bind m r c p h id named = elim (text_dec id c.id) [
    | yes e ↦
        let now : room_of (bind m r c) id ≡ r = ground (arith, room_of-bind m r c id, e) in
        subst (P id) (sym now) (subst (λ j. P j r) (sym e) p)
    | no n ↦
        let now : room_of (bind m r c) id ≡ room_of m id =
          ground (arith, room_of-bind m r c id, n) in
        subst (P id) (sym now) (h id (λ k. named (now ∙ k)))
  ]

  pub RoomsOf-pop : (m : ConnManager) (c : Conn) → RoomsOf m → RoomsOf (pop m c)
  RoomsOf-pop m c h id named = elim (text_dec id c.id) [
    | yes e ↦ absurd (named (ground (arith, room_of-pop m c id, e)))
    | no n ↦
        let now : room_of (pop m c) id ≡ room_of m id = ground (arith, room_of-pop m c id, n) in
        subst (P id) (sym now) (h id (λ k. named (now ∙ k)))
  ]
