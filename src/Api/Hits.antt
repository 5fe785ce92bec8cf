-- ===== src/Api/Hits.antt =====
-- What the sliding window of api/rate_limit.py lets through.
use agent_roi_console.Common.{
  ℕ, ◌≤◌, ◌<◌, ◌≡◌, ◌≢◌, refl, sym, keep_if, eq_iff, Bool, true, false, List, [], ◌∷◌, ◌++◌, String,
  some, arith, All, length, length-append, length-keep_if-le, leb, ltb, str_eq, ◌⊎◌, inl, inr, ◌↔◌,
  Bool-cases, if◌then◌else◌,
}
use agent_roi_console.Common.Dict.{
  Dict, lookup, insert, contains, lookup-insert_self, contains-lookup, contains-insert,
}
use agent_roi_console.Float.{Float, IsMonotone, flt, float, ◌⊖◌, ◌≼◌}
use agent_roi_console.Api.{
  SlidingWindow, drop_expired, prune, recent_hits, or_none, check, refused, any_recent,
  max_tracked_clients,
}

-- No client has more hits than the limit.
abbrev pub IsLimited : {F : Type 0} → SlidingWindow F → Type 0
IsLimited w = All (λ e. length e.1 ≤ w.limit) w.hits

-- Every client has one entry, as the keys of a dict do.
abbrev pub IsUnique : {F : Type 0} → Dict (List F) → Type 0
IsUnique [] = Unit
IsUnique ((c, hs) ∷ d) = (contains c d ≡ false) × IsUnique d

module _ {F : Type 0} ⦃fl : Float F⦄ where
  drop_expired-All :
      (P : String × List F → Type 0) (cutoff : F) (d : Dict (List F))
      → All P d
      → All P (drop_expired cutoff d)
  unfolding drop_expired
  drop_expired-All P cutoff [] h = tt
  drop_expired-All P cutoff ((c, hs) ∷ d) h = ground (arith, drop_expired-All P cutoff d h.1)

  prune-All :
      (P : String × List F → Type 0) (cutoff : F) (d : Dict (List F))
      → All P d
      → All P (prune cutoff d)
  unfolding prune
  prune-All P cutoff d h = ground (arith, drop_expired-All P cutoff d h)

  insert-All :
      (P : String × List F → Type 0) (k : String) (hs : List F) (d : Dict (List F))
      → P (k, hs)
      → All P d
      → All P (insert k hs d)
  unfolding insert
  insert-All P k hs [] p h = (p, tt)
  insert-All P k hs ((j, gs) ∷ d) p h = elim (Bool-cases (str_eq j k)) [
    | inl e ↦ rw e (p, h.1)
    | inr e ↦ rw e (h.0, insert-All P k hs d p h.1)
  ]

  lookup-All :
      (n : ℕ) (k : String) (d : Dict (List F))
      → All (λ e. length e.1 ≤ n) d
      → length (or_none (lookup k d)) ≤ n
  unfolding lookup
  lookup-All n k [] h = omega arith
  lookup-All n k ((j, gs) ∷ d) h = ground (arith, lookup-All n k d h.1)

  recent-le :
      (n : ℕ) (cutoff : F) (k : String) (d : Dict (List F))
      → All (λ e. length e.1 ≤ n) d
      → length (recent_hits cutoff k d) ≤ n
  unfolding recent_hits
  recent-le n cutoff k d h =
      omega (arith, length-keep_if-le (flt cutoff) (or_none (lookup k d)), lookup-All n k d h)

  -- A check of the sliding window leaves every client with at most as many hits as the limit, if
  -- each had no more before.
  pub check-IsLimited :
      (now : F) (client_id : String) (w : SlidingWindow F)
      → IsLimited w
      → IsLimited (check now client_id w).1
  unfolding check
  check-IsLimited now client_id w h =
      let cutoff = now ⊖ w.window_seconds in
      let pruned = prune cutoff w.hits in
      let fits = prune-All _ cutoff w.hits h in
      let recent = recent_hits cutoff client_id pruned in
      elim (Bool-cases (leb w.limit (length recent))) [
        | inl e ↦ rw e (
            insert-All _ client_id recent pruned (recent-le w.limit cutoff client_id pruned fits)
              fits)
        | inr e ↦ rw e (
            insert-All _ client_id (recent ++ now ∷ []) pruned
              (ground (arith, length-append recent (now ∷ []))) fits)
      ]

  not_allowed : (window now x : F) (hs : List F) → refused window now hs ≢ some (true, x)
  unfolding refused
  not_allowed window now x [] e = cc
  not_allowed window now x (h ∷ hs) e = cc

  -- The hits of a client behind the cutoff.
  abbrev pub inside : F → String → Dict (List F) → List F
  inside cutoff client_id hits = keep_if (λ h. flt cutoff h) (or_none (lookup client_id hits))

  -- The clients that have such a hit.
  abbrev pub tracked : F → Dict (List F) → Dict (List F)
  tracked cutoff hits = keep_if (λ e. ltb 0 (length (keep_if (λ h. flt cutoff h) e.1))) hits

  -- The hits that count: none once there are too many clients.
  abbrev pub counted : F → String → Dict (List F) → List F
  counted cutoff client_id hits =
      if ltb max_tracked_clients (length (tracked cutoff hits))
      then []
      else inside cutoff client_id hits

  any_recent_lem :
      (cutoff : F) (hs : List F)
      → any_recent cutoff hs ≡ ltb 0 (length (keep_if (λ h. flt cutoff h) hs))
  unfolding any_recent
  any_recent_lem cutoff [] = refl
  any_recent_lem cutoff (h ∷ hs) = ground (arith, any_recent_lem cutoff hs)

  drop_expired_lem : (cutoff : F) (d : Dict (List F)) → drop_expired cutoff d ≡ tracked cutoff d
  unfolding drop_expired
  drop_expired_lem cutoff [] = refl
  drop_expired_lem cutoff ((c, hs) ∷ d) =
      ground (arith, any_recent_lem cutoff hs, drop_expired_lem cutoff d)

  inside-missing :
      (cutoff : F) (k : String) (d : Dict (List F)) → contains k d ≡ false → inside cutoff k d ≡ []
  unfolding lookup
  inside-missing cutoff k d h = ground (arith, contains-lookup k d)

  -- A client without hits behind the cutoff may be dropped.
  inside-drop_expired :
      (cutoff : F) (k : String) (d : Dict (List F))
      → IsUnique d
      → inside cutoff k (drop_expired cutoff d) ≡ inside cutoff k d
  unfolding drop_expired lookup
  inside-drop_expired cutoff k [] u = refl
  inside-drop_expired cutoff k ((j, hs) ∷ d) u =
      let rest = inside-drop_expired cutoff k d u.1 in
      ground (arith, any_recent_lem cutoff hs, rest, eq_iff j k, inside-missing cutoff k d, u.0)

  recent_hits-prune :
      (cutoff : F) (k : String) (d : Dict (List F))
      → IsUnique d
      → recent_hits cutoff k (prune cutoff d) ≡ counted cutoff k d
  unfolding recent_hits prune lookup
  recent_hits-prune cutoff k d u =
      ground (arith, drop_expired_lem cutoff d, inside-drop_expired cutoff k d u)

  contains-drop_expired :
      (cutoff : F) (k : String) (d : Dict (List F))
      → contains k d ≡ false
      → contains k (drop_expired cutoff d) ≡ false
  unfolding drop_expired contains
  contains-drop_expired cutoff k [] h = refl
  contains-drop_expired cutoff k ((j, hs) ∷ d) h = ground (arith, contains-drop_expired cutoff k d)

  drop_expired-IsUnique :
      (cutoff : F) (d : Dict (List F)) → IsUnique d → IsUnique (drop_expired cutoff d)
  unfolding drop_expired
  drop_expired-IsUnique cutoff [] u = tt
  drop_expired-IsUnique cutoff ((j, hs) ∷ d) u =
      ground (arith, contains-drop_expired cutoff j d u.0, drop_expired-IsUnique cutoff d u.1)

  insert-IsUnique :
      (k : String) (hs : List F) (d : Dict (List F)) → IsUnique d → IsUnique (insert k hs d)
  unfolding insert contains
  insert-IsUnique k hs [] u = (refl, tt)
  insert-IsUnique k hs ((j, gs) ∷ d) u =
      ground (arith, eq_iff j k, eq_iff k j, contains-insert k j hs d, insert-IsUnique k hs d u.1)

  prune-IsUnique : (cutoff : F) (d : Dict (List F)) → IsUnique d → IsUnique (prune cutoff d)
  unfolding prune
  prune-IsUnique cutoff d u = ground (arith, drop_expired-IsUnique cutoff d u)

  -- Where each client has one entry, a request is allowed exactly if the client has fewer hits
  -- behind the start of the window than the limit, none of which count once more than 4096 clients
  -- have such hits; then its time is added to them, otherwise none is, other hits of the client
  -- go, and each client still has one entry.
  pub check_iff :
      (now : F) (client_id : String) (w : SlidingWindow F)
      → IsUnique w.hits
      → let recent = counted (now ⊖ w.window_seconds) client_id w.hits in
        (((check now client_id w).0 ≡ some (true, float 0)) ↔ (length recent < w.limit))
        × (lookup client_id (check now client_id w).1.hits
            ≡ some (if ltb (length recent) w.limit then recent ++ now ∷ [] else recent))
        × IsUnique (check now client_id w).1.hits
  unfolding check
  check_iff now client_id w u =
      let cutoff = now ⊖ w.window_seconds in
      let pruned = prune cutoff w.hits in
      let recent = recent_hits cutoff client_id pruned in
      let same = recent_hits-prune cutoff client_id w.hits u in
      let unique = prune-IsUnique cutoff w.hits u in
      (
        rw (sym same) (ground (arith, not_allowed w.window_seconds now (float 0) recent)),
        rw (sym same) (
            ground (
              arith,
              lookup-insert_self client_id recent pruned,
              lookup-insert_self client_id (recent ++ now ∷ []) pruned,
            )),
        ground (
          arith,
          insert-IsUnique client_id recent pruned unique,
          insert-IsUnique client_id (recent ++ now ∷ []) pruned unique,
        ),
      )

module _ {F : Type 0} ⦃fl : Float F⦄ (laws : IsMonotone F) where
  refused-nonneg :
      (window now : F) (hs : List F) (allowed : Bool) (retry : F)
      → refused window now hs ≡ some (allowed, retry)
      → (allowed ≡ false) × (float 0 ≼ retry)
  unfolding refused
  refused-nonneg window now [] allowed retry e = cc
  refused-nonneg window now (h ∷ hs) allowed retry e = ground (arith, laws.fle_refl (float 0))

  -- The wait that an answer names is not negative, and an allowed request is told not to wait.
  pub check-retry :
      (now : F) (client_id : String) (w : SlidingWindow F) (allowed : Bool) (retry : F)
      → (check now client_id w).0 ≡ some (allowed, retry)
      → (float 0 ≼ retry) × ((allowed ≡ false) ⊎ (retry ≡ float 0))
  unfolding check
  check-retry now client_id w allowed retry e =
      let cutoff = now ⊖ w.window_seconds in
      let recent = recent_hits cutoff client_id (prune cutoff w.hits) in
      ground
        (arith, laws.fle_refl (float 0), refused-nonneg w.window_seconds now recent allowed retry)
