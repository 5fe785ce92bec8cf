-- ===== src/Gateway/Store/Buckets.antt =====
-- The token buckets of gateway/store.py and their bounds.
use agent_roi_console.Common.{◌≡◌, refl, String, Option, none, some, arith, if◌then◌else◌}
use agent_roi_console.Common.Dict.{lookup, lookup-insert_self}
use agent_roi_console.Float.{Float, IsMonotone, fle, float, ◌⊕◌, ◌⊖◌, ◌⊗◌, ◌≼◌}
use agent_roi_console.Float.Laws.{fmin-le, sub_nonneg, mul_nonneg, le-add_nonneg, sub_nonneg-le}
use agent_roi_console.Gateway.Store.{MemoryStore, bucket_of, refilled, take_tokens}

-- Between empty and full, and filled no later than `now`.
pub record IsBucket {F : Type 0} ⦃fl : Float F⦄ (capacity now : F) (b : F × F) : Type 0 where
  pub nonneg : float 0 ≼ b.0
  pub within : b.0 ≼ capacity
  pub past : b.1 ≼ now

module _ {F : Type 0} ⦃fl : Float F⦄ (laws : IsMonotone F) where
  -- Time that has passed refills: the tokens do not fall, and do not pass the capacity.
  refilled_bounds :
      (tokens last capacity refill now : F)
      → float 0 ≼ refill
      → IsBucket capacity now (tokens, last)
      → (tokens ≼ refilled (tokens, last) capacity refill now)
        × (refilled (tokens, last) capacity refill now ≼ capacity)
  unfolding refilled
  refilled_bounds tokens last capacity refill now r v =
      let earned = (now ⊖ last) ⊗ refill in
      let more =
        le-add_nonneg laws tokens earned
          (mul_nonneg laws (now ⊖ last) refill (sub_nonneg laws last now v.past) r) in
      (ground (arith, more, v.within), (fmin-le laws capacity (tokens ⊕ earned)).0)

  spend : F → F → F
  spend cost tokens = if fle cost tokens then tokens ⊖ cost else tokens

  spend-IsBucket :
      (cost tokens capacity now : F)
      → float 0 ≼ cost
      → float 0 ≼ tokens
      → tokens ≼ capacity
      → IsBucket capacity now (spend cost tokens, now)
  unfolding spend
  spend-IsBucket cost tokens capacity now c n w = record {
    nonneg = ground (arith, sub_nonneg laws cost tokens);
    within =
        ground
          (arith, sub_nonneg-le laws tokens cost c, laws.fle_trans (tokens ⊖ cost) tokens capacity);
    past = laws.fle_refl now;
  }

  bucket_of-IsBucket :
      (o : Option (F × F)) (capacity now : F)
      → float 0 ≼ capacity
      → ((b : F × F) → o ≡ some b → IsBucket capacity now b)
      → IsBucket capacity now (bucket_of o capacity now)
  unfolding bucket_of
  bucket_of-IsBucket none capacity now k v = record {
    nonneg = k;
    within = laws.fle_refl capacity;
    past = laws.fle_refl now;
  }
  bucket_of-IsBucket (some b) capacity now k v = v b refl

  -- A bucket is left with a number of tokens between 0 and its capacity, and with the time of the
  -- call, if it was such before and rate, cost and capacity are not negative.
  pub take_tokens-IsBucket :
      (now capacity refill cost : F) (key : String) (s : MemoryStore F)
      → float 0 ≼ refill
      → float 0 ≼ cost
      → float 0 ≼ capacity
      → ((b : F × F) → lookup key s.buckets ≡ some b → IsBucket capacity now b)
      → let (taken, s') = take_tokens now key capacity refill cost s in
        (lookup key s'.buckets ≡ some (taken.1, now)) × IsBucket capacity now (taken.1, now)
  unfolding take_tokens
  take_tokens-IsBucket now capacity refill cost key s r c k v =
      let b = bucket_of (lookup key s.buckets) capacity now in
      let ready = bucket_of-IsBucket (lookup key s.buckets) capacity now k v in
      let bounds = refilled_bounds b.0 b.1 capacity refill now r ready in
      (
        lookup-insert_self key _ s.buckets,
        unfold spend in
            spend-IsBucket cost (refilled b capacity refill now) capacity now c
              (laws.fle_trans _ _ _ ready.nonneg bounds.0) bounds.1,
      )
