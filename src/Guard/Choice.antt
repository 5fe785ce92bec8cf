-- ===== src/Guard/Choice.antt =====
-- The downgrade target of guard/state_machine.py: the cheapest path that meets the success bar.
use agent_roi_console.Common.{
  ◌≡◌, refl, ◌↔◌, subst, Bool, true, false, ◌⊎◌, inl, inr, List, [], ◌∷◌, String, none, some, arith,
  Has, if◌then◌else◌,
}
use agent_roi_console.Common.Dict.{Dict}
use agent_roi_console.Float.{Float, IsMonotone, fle, ◌≼◌}
use agent_roi_console.Guard.{
  PathStats, qualifying, pick, least, least_path, cheapest_qualifying_path,
}

module _ {F : Type 0} ⦃fl : Float F⦄ where
  -- Path `p` is in the statistics with success at the bar and the mean cost `cost`.
  abbrev pub Qualifies : Dict (PathStats F) → F → String → F → Type 0
  Qualifies stats bar p cost =
      (s : PathStats F) × Has (p, s) stats × (bar ≼ s.success_rate) × (s.mean_cost_usd ≡ cost)

  pick-cases : (best x : F × String) → (pick best x ≡ best) ⊎ (pick best x ≡ x)
  unfolding pick
  pick-cases best x = ground arith

  least-Has : (best : F × String) (xs : List (F × String)) → Has (least best xs) (best ∷ xs)
  unfolding least
  least-Has best [] = inl refl
  least-Has best (x ∷ xs) = ground (arith, pick-cases best x, least-Has (pick best x) xs)

  qualifying-deeper :
      (q : String) (s : PathStats F) (d : Dict (PathStats F)) (bar c : F) (p : String)
      → Qualifies d bar p c
      → Qualifies ((q, s) ∷ d) bar p c
  qualifying-deeper q s d bar c p (t, m, b, e) = (t, inr m, b, e)

  qualifying_sound :
      (stats : Dict (PathStats F)) (bar c : F) (p : String)
      → Has (c, p) (qualifying stats bar)
      → Qualifies stats bar p c
  unfolding qualifying
  qualifying_sound [] bar c p h = absurd h
  qualifying_sound ((q, s) ∷ d) bar c p h =
      later (λ m. qualifying-deeper q s d bar c p (qualifying_sound d bar c p m))
        (fle bar s.success_rate) refl h
    where
      later :
          (Has (c, p) (qualifying d bar) → Qualifies ((q, s) ∷ d) bar p c)
          → (o : Bool) → fle bar s.success_rate ≡ o
          → Has (c, p) (if o then (s.mean_cost_usd, q) ∷ qualifying d bar else qualifying d bar)
          → Qualifies ((q, s) ∷ d) bar p c
      later ih true b (inl e) = (s, inl (ground arith), b, ground arith)
      later ih true b (inr m) = ih m
      later ih false b m = ih m

  qualifying-complete :
      (stats : Dict (PathStats F)) (bar c : F) (p : String)
      → Qualifies stats bar p c
      → Has (c, p) (qualifying stats bar)
  unfolding qualifying
  qualifying-complete [] bar c p q = absurd q.1
  qualifying-complete ((q, s) ∷ d) bar c p (t, inl h, b, e) = ground arith
  qualifying-complete ((q, s) ∷ d) bar c p (t, inr h, b, e) =
      ground (arith, qualifying-complete d bar c p (t, h, b, e))

module _ {F : Type 0} ⦃fl : Float F⦄ (laws : IsMonotone F) where
  pick-le : (best x : F × String) → ((pick best x).0 ≼ best.0) × ((pick best x).0 ≼ x.0)
  unfolding pick
  pick-le best x =
      ground (arith, laws.fle_total x.0 best.0, laws.fle_refl x.0, laws.fle_refl best.0)

  least-le :
      (best : F × String) (xs : List (F × String)) (y : F × String)
      → Has y (best ∷ xs)
      → (least best xs).0 ≼ y.0
  unfolding least
  least-le best [] y (inl e) = subst (λ (z : F × String). best.0 ≼ z.0) e (laws.fle_refl best.0)
  least-le best [] y (inr h) = absurd h
  least-le best (x ∷ xs) y (inl e) =
      subst (λ (z : F × String). (least (pick best x) xs).0 ≼ z.0) e
        (laws.fle_trans _ _ _ (least-le (pick best x) xs (pick best x) (inl refl))
          (pick-le best x).0)
  least-le best (x ∷ xs) y (inr (inl e)) =
      subst (λ (z : F × String). (least (pick best x) xs).0 ≼ z.0) e
        (laws.fle_trans _ _ _ (least-le (pick best x) xs (pick best x) (inl refl))
          (pick-le best x).1)
  least-le best (x ∷ xs) y (inr (inr h)) = least-le (pick best x) xs y (inr h)

  chosen :
      (xs : List (F × String)) (p : String)
      → least_path xs ≡ some p
      → (cost : F) × Has (cost, p) xs × ((y : F × String) → Has y xs → cost ≼ y.0)
  unfolding least_path
  chosen [] p h = cc
  chosen (x ∷ xs) p h = (
    (least x xs).0,
    subst (λ q. Has ((least x xs).0, q) (x ∷ xs)) (ground arith) (least-Has x xs),
    least-le x xs,
  )

  -- The path that a downgrade picks meets the success bar, and no path that meets it is cheaper.
  pub cheapest_qualifying_path-some :
      (stats : Dict (PathStats F)) (bar : F) (p : String)
      → cheapest_qualifying_path stats bar ≡ some p
      → (cost : F) × Qualifies stats bar p cost
        × ((q : String) (c : F) → Qualifies stats bar q c → cost ≼ c)
  unfolding cheapest_qualifying_path
  cheapest_qualifying_path-some stats bar p h =
      let (cost, m, most) = chosen (qualifying stats bar) p h in
      (
        cost,
        qualifying_sound stats bar cost p m,
        λ q c k. most (c, q) (qualifying-complete stats bar c q k),
      )

module _ {F : Type 0} ⦃fl : Float F⦄ where
  unchosen : (xs : List (F × String)) → least_path xs ≡ none → (y : F × String) → ¬ Has y xs
  unfolding least_path
  unchosen [] e y h = h
  unchosen (x ∷ xs) e y h = cc

  empty : (xs : List (F × String)) → ((y : F × String) → ¬ Has y xs) → least_path xs ≡ none
  unfolding least_path
  empty [] h = refl
  empty (x ∷ xs) h = absurd (h x (inl refl))

  -- No path is picked exactly when none meets the success bar.
  pub cheapest_qualifying_path-none :
      (stats : Dict (PathStats F)) (bar : F)
      → (cheapest_qualifying_path stats bar ≡ none)
        ↔ ((p : String) (c : F) → ¬ Qualifies stats bar p c)
  unfolding cheapest_qualifying_path
  cheapest_qualifying_path-none stats bar = (
    λ e p c k. unchosen (qualifying stats bar) e (c, p) (qualifying-complete stats bar c p k),
    λ no. empty (qualifying stats bar) λ y m. no y.1 y.0 (qualifying_sound stats bar y.0 y.1 m),
  )
