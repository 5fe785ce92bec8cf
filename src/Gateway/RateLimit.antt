-- ===== src/Gateway/RateLimit.antt =====
-- gateway/ratelimit.py: two token buckets per workflow, polled until both give or the wait is over.
-- The readings of the clocks in one round of the loop are a `Poll`; a loop without further rounds is
-- still waiting.
pub mod Wait
use agent_roi_console.Common.{
  ℕ, Bool, true, false, not, List, [], ◌∷◌, String, Option, none, some, join, if◌then◌else◌,
}
use agent_roi_console.Common.Dict.{Dict, lookup}
use agent_roi_console.Float.{Float, fle, fmin, float, ◌⊖◌, ◌⊘◌}
use agent_roi_console.Gateway.Store.{MemoryStore, take_tokens}

pub record RateLimit (F : Type 0) : Type 0 where
  pub requests_per_minute : F
  pub tokens_per_minute : F

pub record Limiter (F : Type 0) : Type 0 where
  pub limits : Dict (RateLimit F)
  pub max_wait_s : F

pub record Poll (F : Type 0) : Type 0 where
  pub request_at : F
  pub tokens_at : F
  -- `time.monotonic()` at the end of the round
  pub ended_at : F

pub data Acquired (F : Type 0) : Type 0 where
  waited : F → Acquired F
  exceeded : Acquired F
  waiting : Acquired F
  -- no entry "default"
  key_error : Acquired F

abbrev pub requests_key : String → String
requests_key workflow_id = join ("rl:" ∷ workflow_id ∷ ":requests" ∷ [])

abbrev pub tokens_key : String → String
tokens_key workflow_id = join ("rl:" ∷ workflow_id ∷ ":tokens" ∷ [])

abbrev pub or_else {ℓ} : {A : Type ℓ} → Option A → A → A
or_else none d = d
or_else (some a) d = a

-- `limits_dict.get(workflow_id, limits_dict["default"])`
unfoldable pub limit_for : {F : Type 0} → Limiter F → String → Option (RateLimit F)
limit_for l workflow_id = elim (lookup "default" l.limits) [
  | none ↦ none
  | some d ↦ some (or_else (lookup workflow_id l.limits) d)
]

module _ {F : Type 0} ⦃fl : Float F⦄ where
  abbrev pub seconds_per_minute : F
  seconds_per_minute = float 60

  -- The request token: taken once, and not asked for again.
  unfoldable pub take_request :
      Bool → F → RateLimit F → String → MemoryStore F → Bool × MemoryStore F
  take_request true at limit workflow_id s = (true, s)
  take_request false at limit workflow_id s =
      let (taken, s') =
        take_tokens at (requests_key workflow_id) limit.requests_per_minute
          (limit.requests_per_minute ⊘ seconds_per_minute) (float 1) s in
      (taken.0, s')

  -- The tokens, once the request token is there.
  unfoldable pub take_cost :
      Bool → F → RateLimit F → F → String → MemoryStore F → Bool × MemoryStore F
  take_cost false at limit token_cost workflow_id s = (false, s)
  take_cost true at limit token_cost workflow_id s =
      let (taken, s') =
        take_tokens at (tokens_key workflow_id) limit.tokens_per_minute
          (limit.tokens_per_minute ⊘ seconds_per_minute) token_cost s in
      (taken.0, s')

  unfoldable pub rounds :
      List (Poll F)
      → Bool
      → F
      → RateLimit F
      → F
      → F
      → String
      → MemoryStore F
      → Acquired F × MemoryStore F
  rounds [] o_request_taken started limit token_cost max_wait_s workflow_id s = (waiting, s)
  rounds (p ∷ ps) o_request_taken started limit token_cost max_wait_s workflow_id s =
      let (request, s') = take_request o_request_taken p.request_at limit workflow_id s in
      let (both, s'') = take_cost request p.tokens_at limit token_cost workflow_id s' in
      let elapsed = p.ended_at ⊖ started in
      let rest = rounds ps request started limit token_cost max_wait_s workflow_id s'' in
      if both
      then (waited elapsed, s'')
      else if fle max_wait_s elapsed
      then (exceeded, s'')
      else rest

  acquire_at :
      Option (RateLimit F)
      → List (Poll F)
      → F
      → F
      → String
      → ℕ
      → MemoryStore F
      → Acquired F × MemoryStore F
  acquire_at none ps started max_wait_s workflow_id estimated_tokens s = (key_error, s)
  acquire_at (some limit) ps started max_wait_s workflow_id estimated_tokens s =
      let token_cost = fmin (float estimated_tokens) limit.tokens_per_minute in
      rounds ps false started limit token_cost max_wait_s workflow_id s

  unfoldable pub acquire :
      List (Poll F) → F → Limiter F → String → ℕ → MemoryStore F → Acquired F × MemoryStore F
  unfolding acquire_at
  acquire ps started l workflow_id estimated_tokens s =
      acquire_at (limit_for l workflow_id) ps started l.max_wait_s workflow_id estimated_tokens s
