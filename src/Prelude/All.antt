-- ===== src/Prelude/All.antt =====
-- What holds of every element of a list.
use mathlib.Core.Logic.{ite}
use mathlib.Core.List.{List, [], ◌∷◌, ◌++◌, map}
use feeds.Prelude.Maps.{insert, delete}

module _ {ℓ κ} {A : Type ℓ} where
  abbrev pub All : (A → Type κ) → List A → Type κ
  All P [] = Unit
  All P (x ∷ xs) = P x × All P xs

  pub All-weaken : (P Q : A → Type κ) → ((x : A) → P x → Q x) → (xs : List A) → All P xs → All Q xs
  All-weaken P Q f [] h = tt
  All-weaken P Q f (x ∷ xs) h = (f x h.0, All-weaken P Q f xs h.1)

  pub All-append : (P : A → Type κ) (xs ys : List A) → All P xs → All P ys → All P (xs ++ ys)
  All-append P [] ys h k = k
  All-append P (x ∷ xs) ys h k = (h.0, All-append P xs ys h.1 k)

  -- An element in the middle, apart from the others.
  pub All-split :
      (P : A → Type κ) (xs : List A) (y : A) (ys : List A)
      → All P (xs ++ (y ∷ ys))
      → P y × All P (xs ++ ys)
  All-split P [] y ys h = h
  All-split P (x ∷ xs) y ys h = let (p, rest) = All-split P xs y ys h.1 in (p, (h.0, rest))

  pub All-join :
      (P : A → Type κ) (xs : List A) (y : A) (ys : List A)
      → P y
      → All P (xs ++ ys)
      → All P (xs ++ (y ∷ ys))
  All-join P [] y ys p h = (p, h)
  All-join P (x ∷ xs) y ys p h = (h.0, All-join P xs y ys p h.1)

module _ {ℓ κ} {A B : Type ℓ} where
  pub All-map :
      (P : B → Type κ) (Q : A → Type κ) (f : A → B)
      → ((x : A) → Q x → P (f x))
      → (xs : List A) → All Q xs
      → All P (map f xs)
  All-map P Q f step [] h = tt
  All-map P Q f step (x ∷ xs) h = (step x h.0, All-map P Q f step xs h.1)

module _ {ℓ κ} {A : Type ℓ} (P : A → Type κ) where
  pub All-ite :
      {X : Type ℓ} (d : Dec X) (xs ys : List A) → All P xs → All P ys → All P (ite d xs ys)
  All-ite (yes e) xs ys h k = h
  All-ite (no n) xs ys h k = k

module _ {ℓ κ} {K V : Type ℓ} (dec : Discrete K) (P : K × V → Type κ) where
  pub All-insert :
      (k : K) (v : V) (m : List (K × V)) → P (k, v) → All P m → All P (insert dec k v m)
  unfolding insert
  All-insert k v [] p h = (p, tt)
  All-insert k v ((j, w) ∷ m) p h =
      All-ite P (dec k j) ((k, v) ∷ m) ((j, w) ∷ insert dec k v m) (p, h.1)
        (h.0, All-insert k v m p h.1)

  pub All-delete : (k : K) (m : List (K × V)) → All P m → All P (delete dec k m)
  unfolding delete
  All-delete k [] h = tt
  All-delete k ((j, w) ∷ m) h =
      All-ite P (dec k j) (delete dec k m) ((j, w) ∷ delete dec k m) (All-delete k m h.1)
        (h.0, All-delete k m h.1)
