-- ===== src/Api.antt =====
-- api/rate_limit.py: the sliding window of requests by client. The monotonic clock's reading is an
-- argument, and a call holds the lock from its first look at the table to the last.
pub mod Hits
use agent_roi_console.Common.{
  ℕ, ◌+◌, Bool, true, false, ◌&&◌, not, List, [], ◌∷◌, ◌++◌, String, Option, none, some, length,
  keep_if, leb, ltb, str_eq, if◌then◌else◌,
}
use agent_roi_console.Common.Dict.{Dict, lookup, insert}
use agent_roi_console.Float.{Float, fle, flt, fmax, float, ◌⊖◌}

abbrev pub max_tracked_clients : ℕ
max_tracked_clients = 4096

pub record SlidingWindow (F : Type 0) : Type 0 where
  pub limit : ℕ
  pub window_seconds : F
  -- oldest first
  pub hits : Dict (List F)

module _ {F : Type 0} ⦃fl : Float F⦄ where
  unfoldable pub new : ℕ → F → SlidingWindow F
  new limit window_seconds = record { limit = limit; window_seconds = window_seconds; hits = [] }

  -- `any(h > cutoff for h in hits)`
  unfoldable pub any_recent : F → List F → Bool
  any_recent cutoff [] = false
  any_recent cutoff (h ∷ hs) = if flt cutoff h then true else any_recent cutoff hs

  unfoldable pub drop_expired : F → Dict (List F) → Dict (List F)
  drop_expired cutoff [] = []
  drop_expired cutoff ((c, hs) ∷ d) =
      let rest = drop_expired cutoff d in if any_recent cutoff hs then (c, hs) ∷ rest else rest

  -- `_prune`
  unfoldable pub prune : F → Dict (List F) → Dict (List F)
  unfolding drop_expired any_recent
  prune cutoff hits =
      let kept = drop_expired cutoff hits in
      if ltb max_tracked_clients (length kept) then [] else kept

  abbrev pub or_none : Option (List F) → List F
  or_none none = []
  or_none (some hs) = hs

  -- The hits of a client inside the window.
  unfoldable pub recent_hits : F → String → Dict (List F) → List F
  recent_hits cutoff client_id hits = keep_if (flt cutoff) (or_none (lookup client_id hits))

  -- A refusal: `recent_list[0]` of no hits is an `IndexError`, which a limit of 0 meets.
  refused : F → F → List F → Option (Bool × F)
  refused window_seconds now [] = none
  refused window_seconds now (h ∷ hs) = some (false, fmax (window_seconds ⊖ (now ⊖ h)) (float 0))

  -- `check`: whether the request is allowed, and the seconds until the next may be.
  unfoldable pub check : F → String → SlidingWindow F → Option (Bool × F) × SlidingWindow F
  unfolding prune recent_hits refused
  check now client_id w =
      let cutoff = now ⊖ w.window_seconds in
      let pruned = prune cutoff w.hits in
      let recent = recent_hits cutoff client_id pruned in
      if leb w.limit (length recent)
      then (refused w.window_seconds now recent, record w { hits = insert client_id recent pruned })
      else (some (true, float 0), record w { hits = insert client_id (recent ++ now ∷ []) pruned })

  unfoldable pub reset : SlidingWindow F → SlidingWindow F
  reset w = record w { hits = [] }
