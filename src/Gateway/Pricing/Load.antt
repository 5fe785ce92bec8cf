-- ===== src/Gateway/Pricing/Load.antt =====
-- Which models gateway/pricing.py finds a price for.
use agent_roi_console.Common.{
  ◌≡◌, refl, ◌≢◌, ap, subst, inl, inr, true, List, [], ◌∷◌, String, Option, some, arith, Has,
  eq_iff,
}
use agent_roi_console.Common.Dict.{contains-insert}
use agent_roi_console.Float.{Float}
use agent_roi_console.Gateway.Pricing.{
  ModelPrice, Priced, ok, missing_price, value_error, Entry, computed, fixed, SelfHosted,
  Throughput, PriceTable, price_per_mtok, computed_selfhosted_price, file_price, entry_price,
  load_entries, load, has, bind-eq-ok,
}

module _ {F : Type 0} ⦃fl : Float F⦄ (host : SelfHosted F) where
  -- A price that is filed stays, and with the throughput measured no price is missing.
  file_price-has :
      (model k : String) (p : Priced (ModelPrice F)) (t u : PriceTable F)
      → file_price model p t ≡ ok u
      → has t k ≡ true
      → has u k ≡ true
  unfolding file_price has
  file_price-has model k (ok p) t u e h = ground (arith, contains-insert model k p t.prices)
  file_price-has model k (missing_price r) t u e h = ground arith
  file_price-has model k value_error t u e h = cc

  file_price-ok :
      (model : String) (p : Priced (ModelPrice F)) (t u : PriceTable F)
      → ((r : String) → p ≢ missing_price r)
      → file_price model p t ≡ ok u
      → has u model ≡ true
  unfolding file_price has
  file_price-ok model (ok q) t u priced h =
      ground (arith, contains-insert model model q t.prices, eq_iff model model)
  file_price-ok model (missing_price r) t u priced h = absurd (priced r refl)
  file_price-ok model value_error t u priced h = cc

  entry_price-measured :
      (measured : Throughput F) (model : String) (e : Entry F) (r : String)
      → entry_price host (some measured) model e ≢ missing_price r
  unfolding entry_price computed_selfhosted_price price_per_mtok
  entry_price-measured measured model (fixed e) r h = cc
  entry_price-measured measured model (computed provider name) r h = ground arith

  load_entries-has :
      (measured : Option (Throughput F)) (k : String) (es : List (String × Entry F))
      (t u : PriceTable F)
      → load_entries host measured es t ≡ ok u
      → has t k ≡ true
      → has u k ≡ true
  unfolding load_entries
  load_entries-has measured k [] t u e h = ground arith
  load_entries-has measured k ((model, e) ∷ es) t u l h =
      let (v, filed, rest) =
        bind-eq-ok (file_price model (entry_price host measured model e) t) _ l in
      load_entries-has measured k es v u rest
        (file_price-has model k (entry_price host measured model e) t v filed h)

  load_entries-new :
      (measured : Throughput F) (model : String) (e : Entry F) (es : List (String × Entry F))
      (t u : PriceTable F)
      → load_entries host (some measured) es t ≡ ok u
      → Has (model, e) es
      → has u model ≡ true
  unfolding load_entries
  load_entries-new measured model e [] t u l m = absurd m
  load_entries-new measured model e ((k, f) ∷ es) t u l (inr m) =
      let (v, _, rest) = bind-eq-ok (file_price k (entry_price host (some measured) k f) t) _ l in
      load_entries-new measured model e es v u rest m
  load_entries-new measured model e ((k, f) ∷ es) t u l (inl m) =
      let (v, filed, rest) =
        bind-eq-ok (file_price k (entry_price host (some measured) k f) t) _ l in
      subst (λ name. has u name ≡ true) (ap (λ x. x.0) m)
        (load_entries-has (some measured) k es v u rest
          (file_price-ok k _ t v (entry_price-measured measured k f) filed))

  -- Once the throughput is measured, a loaded price table has a price for every model of its
  -- configuration.
  load-has :
      (measured : Throughput F) (es : List (String × Entry F)) (t : PriceTable F) (model : String)
      (e : Entry F)
      → load host (some measured) es ≡ ok t
      → Has (model, e) es
      → has t model ≡ true
  unfolding load
  load-has measured es t model e h m = load_entries-new measured model e es _ t h m
