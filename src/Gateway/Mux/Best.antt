-- ===== src/Gateway/Mux/Best.antt =====
-- Which route `find` finds.
use mathlib.Core.List.{Memᴰ}
use mathlib.Core.Option.{some-injective}
use mathlib.Core.Path.{subst}
use feeds.Prelude.{
  ◌≡◌, ◌≢◌, refl, sym, ◌∙◌, ◌⊎◌, inl, inr, String, Bool, true, false, Option, none, some, List, [],
  ◌∷◌, ◌&&◌, arith, Bool-cases, Option-cases,
}
use feeds.Gateway.Mux.{
  Pattern, Route, Found, match, serves, covers, conflicts, conflicts_with_none, conflict_free,
  better, find,
}
use feeds.Gateway.Mux.Covers.{match-overlap, covers_refl, covers_trans, serves-meet, covers-total}

module _ {Handler : Type 0} where
  -- The route stands among the routes and matches the request, with the values of its names.
  pub record Fits (method : String) (parts : List String) (routes : List (Route Handler))
      (f : Found Handler) : Type 0 where
    pub among : Memᴰ f.route routes
    pub served : serves f.route.pattern.method method ≡ true
    pub matched : match f.route.pattern.segments parts ≡ some f.values

  better-Fits :
      (method : String) (parts : List String) (routes : List (Route Handler)) (f : Found Handler)
      (rest : Option (Found Handler))
      → Fits method parts routes f
      → ((g : Found Handler) → rest ≡ some g → Fits method parts routes g)
      → Fits method parts routes (better f rest)
  unfolding better
  better-Fits method parts routes f none h k = h
  better-Fits method parts routes f (some g) h k =
      elim (Bool-cases (covers f.route.pattern.segments g.route.pattern.segments)) [
        | inl more ↦ rw more (k g refl)
        | inr less ↦ rw less h
      ]

  later-Fits :
      (method : String) (parts : List String) (r : Route Handler) (routes : List (Route Handler))
      (f : Found Handler)
      → Fits method parts routes f
      → Fits method parts (r ∷ routes) f
  later-Fits method parts r routes f h = record {
    among = Memᴰ.tail h.among;
    served = h.served;
    matched = h.matched;
  }

  -- A route that does not fit is passed over.
  Skipped : String → List String → Route Handler → List (Route Handler) → Type 0
  Skipped method parts r routes =
      (find method parts (r ∷ routes) ≡ find method parts routes)
      × ((g : Found Handler) → Fits method parts (r ∷ routes) g → g.route ≢ r)

  Taken : String → List String → Route Handler → List (Route Handler) → Type 0
  Taken method parts r routes =
      (values : List (String × String)) × (find method parts (r ∷ routes)
        ≡ some (better (record { route = r; values = values }) (find method parts routes)))
      × Fits method parts (r ∷ routes) (record { route = r; values = values })

  find-step :
      (method : String) (parts : List String) (r : Route Handler) (routes : List (Route Handler))
      → Skipped method parts r routes ⊎ Taken method parts r routes
  unfolding find Skipped Taken
  find-step method parts r routes = elim (Bool-cases (serves r.pattern.method method)) [
    | inr off ↦ inl (rw off refl, λ g h e. cc (off, h.served, e))
    | inl on ↦ elim (Option-cases (match r.pattern.segments parts)) [
      | inl e ↦ inl (rw (on, e) refl, λ g h e'. cc (e, h.matched, e'))
      | inr (values, e) ↦
          inr (values, rw (on, e) refl, record { among = Memᴰ.head refl; served = on; matched = e })
    ]
  ]

  pub find-Fits :
      (method : String) (parts : List String) (routes : List (Route Handler)) (f : Found Handler)
      → find method parts routes ≡ some f
      → Fits method parts routes f
  unfolding find Skipped Taken
  find-Fits method parts [] f h = cc h
  find-Fits method parts (r ∷ routes) f h =
      let later = λ (g : Found Handler) (e : find method parts routes ≡ some g).
        later-Fits method parts r routes g (find-Fits method parts routes g e) in
      elim (find-step method parts r routes) [
        | inl (e, other) ↦ later f (sym e ∙ h)
        | inr (values, e, fits) ↦
            subst (Fits method parts (r ∷ routes)) (some-injective _ _ (sym e ∙ h)) (
              better-Fits method parts (r ∷ routes) (record { route = r; values = values })
                (find method parts routes) fits later)
      ]

both : (a b : Bool) → (a && b) ≡ true → (a ≡ true) × (b ≡ true)
both a b h = ground (arith, h)

module _ {Handler : Type 0} (method : String) (parts : List String) where
  Fits-tail :
      (r : Route Handler) (routes : List (Route Handler)) (g : Found Handler)
      → Fits method parts (r ∷ routes) g
      → (g.route ≡ r) ⊎ Fits method parts routes g
  Fits-tail r routes g h = elim h.among [
    | Memᴰ.head e ↦ inl e
    | Memᴰ.tail m ↦ inr (record { among = m; served = h.served; matched = h.matched })
  ]

  conflicts-mem :
      (p : Pattern) (r : Route Handler) (routes : List (Route Handler))
      → conflicts_with_none p routes ≡ true
      → Memᴰ r routes
      → conflicts p r.pattern ≡ false
  unfolding conflicts_with_none
  conflicts-mem p r [] h m = elim m [ ]
  conflicts-mem p r (r' ∷ routes) h (Memᴰ.head e) = ground (arith, h, e)
  conflicts-mem p r (r' ∷ routes) h (Memᴰ.tail m) = conflicts-mem p r routes (both _ _ h).1 m

  -- If none is found, none fits.
  pub find-none :
      (routes : List (Route Handler)) (g : Found Handler)
      → find method parts routes ≡ none
      → Fits method parts routes g
      → ⊥
  unfolding Skipped Taken
  find-none [] g h k = elim k.among [ ]
  find-none (r ∷ routes) g h k = elim (find-step method parts r routes) [
    | inl (e, other) ↦ elim (Fits-tail r routes g k) [
      | inl first ↦ other g k first
      | inr later ↦ find-none routes g (sym e ∙ h) later
    ]
    | inr (values, e, fits) ↦ cc (e, h)
  ]

  pub Covered : List (Route Handler) → Found Handler → Type 0
  Covered routes f =
      (g : Found Handler)
      → Fits method parts routes g
      → covers g.route.pattern.segments f.route.pattern.segments ≡ true

  -- The more specific of a route and the best of the later ones is the best of all.
  better-Covered :
      (f : Found Handler) (routes : List (Route Handler)) (rest : Option (Found Handler))
      → conflicts_with_none f.route.pattern routes ≡ true
      → Fits method parts (f.route ∷ routes) f
      → (rest ≡ none → (g : Found Handler) → Fits method parts routes g → ⊥)
      → ((b : Found Handler) → rest ≡ some b → Fits method parts routes b × Covered routes b)
      → Covered (f.route ∷ routes) (better f rest)
  unfolding better Covered
  better-Covered f routes none free fits nothing best g k = elim (Fits-tail f.route routes g k) [
    | inl first ↦ rw first (covers_refl f.route.pattern.segments)
    | inr later ↦ absurd (nothing refl g later)
  ]
  better-Covered f routes (some b) free fits nothing best g k =
      let (fits_b, covered) = best b refl in
      let p = f.route.pattern in
      let q = b.route.pattern in
      elim (Bool-cases (covers p.segments q.segments)) [
        | inl more ↦ elim (Fits-tail f.route routes g k) [
          | inl first ↦ rw (more, first) more
          | inr later ↦ rw more (covered g later)
        ]
        | inr less ↦
            let back : covers q.segments p.segments ≡ true =
              covers-total p q (conflicts-mem p b.route routes free fits_b.among)
                (serves-meet p.method q.method method fits.served fits_b.served)
                (match-overlap p.segments q.segments parts (λ e. cc (e, fits.matched))
                  (λ e. cc (e, fits_b.matched)))
                less in
            elim (Fits-tail f.route routes g k) [
              | inl first ↦ rw (less, first) (covers_refl p.segments)
              | inr later ↦ rw less (
                  covers_trans g.route.pattern.segments q.segments p.segments (covered g later)
                    back)
            ]
      ]

  pub find-Covered :
      (routes : List (Route Handler)) (f : Found Handler)
      → conflict_free routes ≡ true
      → find method parts routes ≡ some f
      → Covered routes f
  unfolding Skipped Taken Covered conflict_free
  find-Covered [] f free h = λ g k. elim k.among [ ]
  find-Covered (r ∷ routes) f free h = elim (find-step method parts r routes) [
    | inl (e, other) ↦ λ g k. elim (Fits-tail r routes g k) [
      | inl first ↦ absurd (other g k first)
      | inr later ↦ find-Covered routes f (both _ _ free).1 (sym e ∙ h) g later
    ]
    | inr (values, e, fits) ↦ subst (Covered (r ∷ routes)) (some-injective _ _ (sym e ∙ h)) (
        better-Covered (record { route = r; values = values }) routes (find method parts routes)
          (both _ _ free).0 fits (λ e' g k. find-none routes g e' k)
          (λ b e'.
            (find-Fits method parts routes b e', find-Covered routes b (both _ _ free).1 e')))
  ]
