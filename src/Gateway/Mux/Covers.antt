-- ===== src/Gateway/Mux/Covers.antt =====
-- Patterns of the mux: which match one request, and which are the more general.
use feeds.Prelude.{◌≡◌, ◌≢◌, refl, String, true, false, none, List, [], ◌∷◌, ◌||◌, arith}
use feeds.Gateway.Mux.{Segment, lit, param, Pattern, match, serves, covers, overlap, conflicts}

pub match-overlap :
    (p q : List Segment) (parts : List String)
    → match p parts ≢ none
    → match q parts ≢ none
    → overlap p q ≡ true
unfolding match overlap
match-overlap [] [] parts h k = refl
match-overlap [] (t ∷ q) [] h k = absurd (k refl)
match-overlap [] (t ∷ q) (part ∷ parts) h k = absurd (h refl)
match-overlap (t ∷ p) [] [] h k = absurd (h refl)
match-overlap (t ∷ p) [] (part ∷ parts) h k = absurd (k refl)
match-overlap (t ∷ p) (t' ∷ q) [] h k = absurd (h refl)
match-overlap (lit text ∷ p) (lit other ∷ q) (part ∷ parts) h k =
    ground (arith, h, k, match-overlap p q parts)
match-overlap (lit text ∷ p) (param name ∷ q) (part ∷ parts) h k =
    ground (arith, h, k, match-overlap p q parts)
match-overlap (param name ∷ p) (lit text ∷ q) (part ∷ parts) h k =
    ground (arith, h, k, match-overlap p q parts)
match-overlap (param name ∷ p) (param other ∷ q) (part ∷ parts) h k =
    ground (arith, h, k, match-overlap p q parts)

pub covers_refl : (p : List Segment) → covers p p ≡ true
unfolding covers
covers_refl [] = refl
covers_refl (lit text ∷ p) = ground (arith, covers_refl p)
covers_refl (param name ∷ p) = covers_refl p

pub covers_trans :
    (p q r : List Segment) → covers p q ≡ true → covers q r ≡ true → covers p r ≡ true
unfolding covers
covers_trans [] [] r h k = k
covers_trans [] (t ∷ q) r h k = cc h
covers_trans (t ∷ p) [] r h k = cc h
covers_trans (t ∷ p) (t' ∷ q) [] h k = cc k
covers_trans (lit text ∷ p) (lit other ∷ q) (lit third ∷ r) h k =
    ground (arith, h, k, covers_trans p q r)
covers_trans (lit text ∷ p) (lit other ∷ q) (param name ∷ r) h k = cc k
covers_trans (lit text ∷ p) (param name ∷ q) (t ∷ r) h k = cc h
covers_trans (param name ∷ p) (lit other ∷ q) (lit third ∷ r) h k =
    ground (arith, h, k, covers_trans p q r)
covers_trans (param name ∷ p) (lit other ∷ q) (param third ∷ r) h k = cc k
covers_trans (param name ∷ p) (param other ∷ q) (t ∷ r) h k = covers_trans p q r h k

pub serves-meet :
    (m m' asked : String)
    → serves m asked ≡ true
    → serves m' asked ≡ true
    → (serves m m' || serves m' m) ≡ true
unfolding serves
serves-meet m m' asked h k = ground (arith, h, k)

-- Of two patterns that do not conflict and match one request, one covers the other.
pub covers-total :
    (p q : Pattern)
    → conflicts p q ≡ false
    → (serves p.method q.method || serves q.method p.method) ≡ true
    → overlap p.segments q.segments ≡ true
    → covers p.segments q.segments ≡ false
    → covers q.segments p.segments ≡ true
unfolding conflicts
covers-total p q free meet both e = ground (arith, free, meet, both, e)
