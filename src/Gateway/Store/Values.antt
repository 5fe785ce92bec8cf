-- ===== src/Gateway/Store/Values.antt =====
-- The counters of gateway/store.py: what an increment leaves behind, and what a read returns.
use agent_roi_console.Common.{ℕ, ◌≡◌, false, String, some, arith, eq_iff, str_eq, if◌then◌else◌}
use agent_roi_console.Common.Dict.{lookup, lookup-insert, lookup-remove}
use agent_roi_console.Float.{Float, HasRepr, float, ◌⊕◌}
use agent_roi_console.Gateway.Store.{
  MemoryStore, is_expired, live, live_entry, to_float, get_float, incr_float, add_to,
}

module _ {F : Type 0} ⦃fl : Float F⦄ where
  -- A read drops at most its own expired key.
  pub lookup-live :
      (now : F) (key j : String) (s : MemoryStore F)
      → str_eq key j ≡ false
      → lookup j (live now key s).1.values ≡ lookup j s.values
  unfolding live live_entry
  lookup-live now key j s ne = ground (arith, lookup-remove key j s.values)

  pub buckets-live :
      (now : F) (key : String) (s : MemoryStore F) → (live now key s).1.buckets ≡ s.buckets
  unfolding live live_entry
  buckets-live now key s = ground arith

  -- The value that a read finds under another key is not touched by it.
  pub get_float-lookup :
      (now : F) (key : String) (s u : MemoryStore F)
      → lookup key s.values ≡ lookup key u.values
      → (get_float now key s).0 ≡ (get_float now key u).0
  unfolding get_float live live_entry
  get_float-lookup now key s u e = ground arith

  pub incr_float-value :
      (now later amount current : F) (key : String) (ttl_s : ℕ) (s : MemoryStore F)
      → (get_float now key s).0 ≡ some current
      → (incr_float now later key amount ttl_s s).0 ≡ some (current ⊕ amount)
  unfolding incr_float add_to
  incr_float-value now later amount current key ttl_s s e = ground arith

  pub lookup-incr_float :
      (now later amount current : F) (key j : String) (ttl_s : ℕ) (s : MemoryStore F)
      → (get_float now key s).0 ≡ some current
      → lookup j (incr_float now later key amount ttl_s s).1.values ≡ (
          if str_eq key j
          then some (fl.repr (current ⊕ amount), later ⊕ float ttl_s)
          else lookup j s.values)
  unfolding incr_float get_float add_to
  lookup-incr_float now later amount current key j ttl_s s e = ground (
    arith,
    lookup-insert key j (fl.repr (current ⊕ amount), later ⊕ float ttl_s) (live now key s).1.values,
    lookup-live now key j s,
  )

module _ {F : Type 0} ⦃fl : Float F⦄ (repr : HasRepr F) where
  pub get_float-stored :
      (t x expires_at : F) (key : String) (s : MemoryStore F)
      → lookup key s.values ≡ some (fl.repr x, expires_at)
      → is_expired t expires_at ≡ false
      → (get_float t key s).0 ≡ some x
  unfolding get_float live live_entry to_float
  get_float-stored t x expires_at key s e fresh =
      ground (arith, eq_iff (fl.repr x) "", repr.parse-repr x, repr.repr_ne x)

  -- Until it expires, a counter that was incremented reads as the old value and the amount.
  pub get_float-incr_float :
      (now later t amount current : F) (key : String) (ttl_s : ℕ) (s : MemoryStore F)
      → (get_float now key s).0 ≡ some current
      → is_expired t (later ⊕ float ttl_s) ≡ false
      → (get_float t key (incr_float now later key amount ttl_s s).1).0 ≡ some (current ⊕ amount)
  get_float-incr_float now later t amount current key ttl_s s e fresh =
      get_float-stored t (current ⊕ amount) (later ⊕ float ttl_s) key _
        (ground
          (arith, lookup-incr_float now later amount current key key ttl_s s e, eq_iff key key))
        fresh
