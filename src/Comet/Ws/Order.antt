-- ===== src/Comet/Ws/Order.antt =====
-- A push walks a Go map, whose order is any: what it does does not depend on the order.
use mathlib.Core.List.{lookup, Perm, Permᴰ}
use mathlib.Core.Path.{subst}
use mathlib.Core.Logic.{∥∥₁_elim}
use native.Mathlib.Nat.{ℕ_set}
use feeds.Prelude.{
  ℕ, ◌+◌, ◌≡◌, refl, sym, ap, ◌∙◌, String, Option, none, some, List, [], ◌∷◌, ite, text_dec, arith,
  Option-cases, inl, inr, Error,
}
use feeds.Prelude.Maps.{lookup-insert}
use feeds.Comet.Frame.{Bytes}
use feeds.Comet.ConnManager.{Conn, deliver}
use feeds.Comet.Ws.{WsConn, Heap, write, write_conn, err_conn_closed}

-- Two heaps with the same connections.
abbrev pub Same : Heap → Heap → Type 0
Same h h' = (i : String) → lookup text_dec i h ≡ lookup text_dec i h'

-- What becomes of a connection, and the answer, when the frame is written to it.
written : Bytes → Option WsConn → Option WsConn
written frame none = none
written frame (some ws) = some (write ws frame).0

answer : Bytes → Option WsConn → Option Error
answer frame none = some err_conn_closed
answer frame (some ws) = (write ws frame).1

write_conn-lookup :
    (c : Conn) (frame : Bytes) (h : Heap) (i : String)
    → lookup text_dec i (write_conn c frame h).0
      ≡ ite (text_dec i c.id) (written frame (lookup text_dec i h)) (lookup text_dec i h)
unfolding write_conn written
write_conn-lookup c frame h i = elim (Option-cases (lookup text_dec c.id h)) [
  | inl e ↦ ground (arith, e)
  | inr (ws, e) ↦ ground (arith, e, lookup-insert text_dec i c.id (write ws frame).0 h)
]

write_conn-answer :
    (c : Conn) (frame : Bytes) (h : Heap)
    → (write_conn c frame h).1 ≡ answer frame (lookup text_dec c.id h)
unfolding write_conn answer
write_conn-answer c frame h = elim (Option-cases (lookup text_dec c.id h)) [
  | inl e ↦ ground (arith, e)
  | inr (ws, e) ↦ ground (arith, e)
]

write_conn-Same :
    (c : Conn) (frame : Bytes) (h h' : Heap)
    → Same h h'
    → Same (write_conn c frame h).0 (write_conn c frame h').0
write_conn-Same c frame h h' same i =
    ground (arith, same i, write_conn-lookup c frame h i, write_conn-lookup c frame h' i)

-- Two writes commute.
write_conn-swap :
    (a b : Conn) (frame : Bytes) (h : Heap)
    → Same
        (write_conn b frame (write_conn a frame h).0).0
        (write_conn a frame (write_conn b frame h).0).0
write_conn-swap a b frame h i = ground (
  arith,
  write_conn-lookup b frame (write_conn a frame h).0 i,
  write_conn-lookup a frame (write_conn b frame h).0 i,
  write_conn-lookup a frame h i,
  write_conn-lookup b frame h i,
)

-- One for a write that succeeded.
success : Option Error → ℕ
success none = 1
success (some e) = 0

deliver-cons :
    (c : Conn) (conns : List Conn) (frame : Bytes) (h : Heap)
    → ((deliver write_conn (c ∷ conns) frame h).0
        ≡ (deliver write_conn conns frame (write_conn c frame h).0).0)
      × ((deliver write_conn (c ∷ conns) frame h).1
          ≡ success (write_conn c frame h).1
            + (deliver write_conn conns frame (write_conn c frame h).0).1)
unfolding deliver success
deliver-cons c conns frame h = elim (Option-cases (write_conn c frame h).1) [
  | inl e ↦ ground (arith, e)
  | inr (x, e) ↦ ground (arith, e)
]

-- The same answers, and the same connections afterwards.
record Agree (frame : Bytes) (conns conns' : List Conn) (h h' : Heap) : Type 0 where
  delivered : (deliver write_conn conns frame h).1 ≡ (deliver write_conn conns' frame h').1
  left : Same (deliver write_conn conns frame h).0 (deliver write_conn conns' frame h').0

cons-Agree :
    (frame : Bytes) (c : Conn) (conns conns' : List Conn) (h h' : Heap)
    → Same h h'
    → Agree frame conns conns' (write_conn c frame h).0 (write_conn c frame h').0
    → Agree frame (c ∷ conns) (c ∷ conns') h h'
cons-Agree frame c conns conns' h h' same v = record {
  delivered = ground (
    arith,
    v.delivered,
    deliver-cons c conns frame h,
    deliver-cons c conns' frame h',
    write_conn-answer c frame h,
    write_conn-answer c frame h',
    same c.id,
  );
  left = λ i.
      ap (lookup text_dec i) (deliver-cons c conns frame h).0
      ∙ v.left i
      ∙ sym (ap (lookup text_dec i) (deliver-cons c conns' frame h').0);
}

deliver-Same :
    (frame : Bytes) (conns : List Conn) (h h' : Heap) → Same h h' → Agree frame conns conns h h'
unfolding deliver
deliver-Same frame [] h h' same = record { delivered = refl; left = same }
deliver-Same frame (c ∷ conns) h h' same = cons-Agree frame c conns conns h h' same (
    deliver-Same frame conns (write_conn c frame h).0 (write_conn c frame h').0
      (write_conn-Same c frame h h' same))

trans-Agree :
    (frame : Bytes) (xs ys zs : List Conn) (h h' h'' : Heap)
    → Agree frame xs ys h h'
    → Agree frame ys zs h' h''
    → Agree frame xs zs h h''
trans-Agree frame xs ys zs h h' h'' v w = record {
  delivered = v.delivered ∙ w.delivered;
  left = λ i. v.left i ∙ w.left i;
}

swap-Agree :
    (frame : Bytes) (a b : Conn) (conns : List Conn) (h : Heap)
    → Agree frame (a ∷ b ∷ conns) (b ∷ a ∷ conns) h h
swap-Agree frame a b conns h =
    let ha = (write_conn a frame h).0 in
    let hb = (write_conn b frame h).0 in
    let rest =
      deliver-Same frame conns (write_conn b frame ha).0 (write_conn a frame hb).0
        (write_conn-swap a b frame h) in
    record {
      delivered = ground (
        arith,
        rest.delivered,
        deliver-cons a (b ∷ conns) frame h,
        deliver-cons b conns frame ha,
        deliver-cons b (a ∷ conns) frame h,
        deliver-cons a conns frame hb,
        write_conn-answer a frame h,
        write_conn-answer b frame ha,
        write_conn-answer b frame h,
        write_conn-answer a frame hb,
        write_conn-lookup a frame h b.id,
        write_conn-lookup b frame h a.id,
      );
      left = λ i.
          ap (lookup text_dec i)
            ((deliver-cons a (b ∷ conns) frame h).0 ∙ (deliver-cons b conns frame ha).0)
          ∙ rest.left i
          ∙ sym (
              ap (lookup text_dec i)
                ((deliver-cons b (a ∷ conns) frame h).0 ∙ (deliver-cons a conns frame hb).0));
    }

permuted :
    (frame : Bytes) (conns conns' : List Conn) (h h' : Heap)
    → Permᴰ conns conns'
    → Same h h'
    → Agree frame conns conns' h h'
permuted frame [] [] h h' Permᴰ.nil same = deliver-Same frame [] h h' same
permuted frame (c ∷ conns) (d ∷ conns') h h' (Permᴰ.cons e p) same =
    subst (λ z. Agree frame (c ∷ conns) (z ∷ conns') h h') e
      (cons-Agree frame c conns conns' h h' same (
        permuted frame conns conns' (write_conn c frame h).0 (write_conn c frame h').0 p
          (write_conn-Same c frame h h' same)))
permuted frame (a ∷ b ∷ conns) (a' ∷ b' ∷ _) h h' (Permᴰ.swap e e') same =
    subst (λ z. Agree frame (a ∷ b ∷ conns) (z ∷ b' ∷ conns) h h') e'
      (subst (λ z. Agree frame (a ∷ b ∷ conns) (b ∷ z ∷ conns) h h') e
        (trans-Agree frame (a ∷ b ∷ conns) (b ∷ a ∷ conns) (b ∷ a ∷ conns) h h h'
          (swap-Agree frame a b conns h) (deliver-Same frame (b ∷ a ∷ conns) h h' same)))
permuted frame xs zs h h' (Permᴰ.trans {l₂ = ys} p q) same =
    trans-Agree frame xs ys zs h h h' (permuted frame xs ys h h p (λ i. refl))
      (permuted frame ys zs h h' q same)

connections-set : IsSet (Option WsConn)
connections-set = hlevel (ℕ_set)

-- In whatever order a push walks the connections of a room, as many take the frame, and every
-- connection of the server is afterwards the same.
pub deliver-perm :
    (conns conns' : List Conn) (frame : Bytes) (h : Heap)
    → Perm conns conns'
    → ((deliver write_conn conns frame h).1 ≡ (deliver write_conn conns' frame h).1)
      × ((id : String)
          → lookup text_dec id (deliver write_conn conns frame h).0
            ≡ lookup text_dec id (deliver write_conn conns' frame h).0)
deliver-perm conns conns' frame h p = (
  ∥∥₁_elim p (ℕ_set _ _) (λ d. (permuted frame conns conns' h h d (λ i. refl)).delivered),
  λ id.
      ∥∥₁_elim p (connections-set _ _)
        (λ d. (permuted frame conns conns' h h d (λ i. refl)).left id),
)
