-- ===== src/Gateway/Store.antt =====
-- gateway/store.py: the in-process store of counters, cached texts and token buckets. Each reading
-- of a clock is an argument. The Redis client and the Lua script are not modelled.
pub mod Values
pub mod Buckets
use agent_roi_console.Common.{
  ℕ, Bool, true, false, ◌&&◌, not, List, [], ◌∷◌, String, Option, none, some, str_eq, if◌then◌else◌,
}
use agent_roi_console.Common.Dict.{Dict, lookup, insert, remove}
use agent_roi_console.Float.{Float, fle, flt, fmin, float, ◌⊕◌, ◌⊖◌, ◌⊗◌}

pub record MemoryStore (F : Type 0) : Type 0 where
  -- a text and the time at which it expires
  pub values : Dict (String × F)
  -- the tokens of a bucket and the time of its last refill
  pub buckets : Dict (F × F)

abbrev pub empty : {F : Type 0} → MemoryStore F
empty = record { values = []; buckets = [] }

module _ {F : Type 0} ⦃fl : Float F⦄ where
  -- `expires_at and time.time() > expires_at`, where 0.0 is false
  abbrev pub is_expired : F → F → Bool
  is_expired now expires_at =
      not (fle expires_at (float 0) && fle (float 0) expires_at) && flt expires_at now

  live_entry : F → String → Option (String × F) → MemoryStore F → Option String × MemoryStore F
  live_entry now key none s = (none, s)
  live_entry now key (some (value, expires_at)) s =
      if is_expired now expires_at
      then (none, record s { values = remove key s.values })
      else (some value, s)

  -- `_live`
  unfoldable pub live : F → String → MemoryStore F → Option String × MemoryStore F
  unfolding live_entry
  live now key s = live_entry now key (lookup key s.values) s

  -- `float(text or 0.0)`; `none` is a `ValueError`.
  unfoldable pub to_float : Option String → Option F
  to_float none = some (float 0)
  to_float (some t) = if str_eq t "" then some (float 0) else fl.parse t

  unfoldable pub get_float : F → String → MemoryStore F → Option F × MemoryStore F
  unfolding live to_float
  get_float now key s = let (v, s') = live now key s in (to_float v, s')

  add_to : Option F → F → String → F → ℕ → MemoryStore F → Option F × MemoryStore F
  add_to none later key amount ttl_s s = (none, s)
  add_to (some current) later key amount ttl_s s =
      let sum = current ⊕ amount in
      (some sum, record s { values = insert key (fl.repr sum, later ⊕ float ttl_s) s.values })

  -- The clock is read twice, for the expiry of the old value and for that of the new one.
  unfoldable pub incr_float : F → F → String → F → ℕ → MemoryStore F → Option F × MemoryStore F
  unfolding get_float add_to
  incr_float now later key amount ttl_s s =
      let (current, s') = get_float now key s in add_to current later key amount ttl_s s'

  unfoldable pub get : F → String → MemoryStore F → Option String × MemoryStore F
  unfolding live
  get now key s = live now key s

  unfoldable pub set : F → String → String → ℕ → MemoryStore F → MemoryStore F
  set now key value ttl_s s = record s { values = insert key (value, now ⊕ float ttl_s) s.values }

  bucket_of : Option (F × F) → F → F → F × F
  bucket_of none capacity now = (capacity, now)
  bucket_of (some b) capacity now = b

  unfoldable pub refilled : F × F → F → F → F → F
  refilled (tokens, last) capacity refill_per_s now =
      fmin capacity (tokens ⊕ (now ⊖ last) ⊗ refill_per_s)

  unfoldable pub take_tokens : F → String → F → F → F → MemoryStore F → (Bool × F) × MemoryStore F
  unfolding bucket_of refilled
  take_tokens now key capacity refill_per_s cost s =
      let tokens =
        refilled (bucket_of (lookup key s.buckets) capacity now) capacity refill_per_s now in
      let allowed = fle cost tokens in
      let left = if allowed then tokens ⊖ cost else tokens in
      ((allowed, left), record s { buckets = insert key (left, now) s.buckets })
