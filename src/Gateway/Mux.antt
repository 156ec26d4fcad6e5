-- ===== src/Gateway/Mux.antt =====
-- net/http `ServeMux` as the gateway uses it: patterns of a method and a path with named segments, and
-- the most specific of those that match. A path that is not in clean form is not modelled.
pub mod Covers
pub mod Best
use Prim.Native.Char.{Char, code}
use Prim.Native.String
use feeds.Prelude.{
  ℕ, String, ite, Bool, true, false, ◌&&◌, ◌||◌, not, Option, none, some, List, [], ◌∷◌, text_dec,
  ◌==◌, if◌then◌else◌,
}

pub data Segment : Type 0 where
  lit : String → Segment
  param : String → Segment

pub record Pattern : Type 0 where
  pub method : String
  pub segments : List Segment

-- The text up to the first slash is the first of the parts.
add_char : Char → List String → List String
add_char c [] = String.◌∷◌ c String.[] ∷ []
add_char c (part ∷ parts) = String.◌∷◌ c part ∷ parts

split_slash : String → List String
unfolding add_char
split_slash String.[] = "" ∷ []
split_slash (String.◌∷◌ c s) =
    let rest = split_slash s in if code c == b'/' then "" ∷ rest else add_char c rest

-- The segments of a path, which begins with a slash.
unfoldable pub segments_of : String → List String
unfolding split_slash
segments_of path = elim (split_slash path) [ [] ↦ [] | first ∷ parts ↦ parts ]

-- The values of the names, if the path matches. A name never takes an empty segment.
unfoldable pub match : List Segment → List String → Option (List (String × String))
match [] [] = some []
match [] (part ∷ parts) = none
match (segment ∷ segments) [] = none
match (lit text ∷ segments) (part ∷ parts) =
    let rest = match segments parts in ite (text_dec part text) rest none
match (param name ∷ segments) (part ∷ parts) =
    let rest = match segments parts in
    ite (text_dec part "") none
      (elim rest [ none ↦ none | some values ↦ some ((name, part) ∷ values) ])

-- A pattern for GET serves HEAD as well.
unfoldable pub serves : String → String → Bool
serves method asked =
    ite (text_dec asked method) true
      (ite (text_dec method "GET") (ite (text_dec asked "HEAD") true false) false)

-- Whether the first matches whatever the second matches.
unfoldable pub covers : List Segment → List Segment → Bool
covers [] [] = true
covers [] (segment ∷ segments) = false
covers (segment ∷ segments) [] = false
covers (param name ∷ p) (segment ∷ q) = covers p q
covers (lit text ∷ p) (lit other ∷ q) =
    let rest = covers p q in ite (text_dec text other) rest false
covers (lit text ∷ p) (param name ∷ q) = false

-- Whether some path matches both.
unfoldable pub overlap : List Segment → List Segment → Bool
overlap [] [] = true
overlap [] (segment ∷ segments) = false
overlap (segment ∷ segments) [] = false
overlap (lit text ∷ p) (lit other ∷ q) =
    let rest = overlap p q in ite (text_dec text other) rest false
overlap (lit text ∷ p) (param name ∷ q) = overlap p q
overlap (param name ∷ p) (segment ∷ q) = overlap p q

-- Patterns conflict if some request matches both, and neither is more specific: registering them
-- panics. No pattern of the gateway is for HEAD.
abbrev same : Bool → Bool → Bool
same true b = b
same false b = not b

unfoldable pub conflicts : Pattern → Pattern → Bool
unfolding serves overlap covers
conflicts p q =
    (serves p.method q.method || serves q.method p.method)
    && overlap p.segments q.segments
    && same (covers p.segments q.segments) (covers q.segments p.segments)

pub record Route (Handler : Type 0) : Type 0 where
  pub pattern : Pattern
  pub handler : Handler

pub record Found (Handler : Type 0) : Type 0 where
  pub route : Route Handler
  pub values : List (String × String)

module _ {Handler : Type 0} where
  -- The more specific of a match and what is found among the later routes.
  better : Found Handler → Option (Found Handler) → Found Handler
  better f none = f
  better f (some g) = if covers f.route.pattern.segments g.route.pattern.segments then g else f

  -- The most specific match among the routes.
  unfoldable pub find : String → List String → List (Route Handler) → Option (Found Handler)
  unfolding better
  find method parts [] = none
  find method parts (r ∷ routes) =
      let rest = find method parts routes in
      if serves r.pattern.method method
      then (elim (match r.pattern.segments parts) [
        | none ↦ rest
        | some values ↦ some (better (record { route = r; values = values }) rest)
      ])
      else rest

  -- Whether another method would find a route: the answer is 405 then, and 404 otherwise.
  unfoldable pub known : List String → List (Route Handler) → Bool
  known parts [] = false
  known parts (r ∷ routes) =
      let rest = known parts routes in
      elim (match r.pattern.segments parts) [ none ↦ rest | some values ↦ true ]

  conflicts_with_none : Pattern → List (Route Handler) → Bool
  conflicts_with_none p [] = true
  conflicts_with_none p (r ∷ routes) = not (conflicts p r.pattern) && conflicts_with_none p routes

  -- Whether the registrations of the routes go through.
  unfoldable pub conflict_free : List (Route Handler) → Bool
  unfolding conflicts_with_none
  conflict_free [] = true
  conflict_free (r ∷ routes) = conflicts_with_none r.pattern routes && conflict_free routes
