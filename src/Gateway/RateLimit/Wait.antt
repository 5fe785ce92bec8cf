-- ===== src/Gateway/RateLimit/Wait.antt =====
-- The wait of gateway/ratelimit.py, round by round.
use agent_roi_console.Common.{
  ◌≡◌, refl, sym, ap, ◌∙◌, ◌≢◌, Bool, true, false, List, [], ◌∷◌, String, arith, eq_iff, str_eq,
  ◌⊎◌, inl, inr, Has, Bool-cases, size, size-append_text,
}
use agent_roi_console.Common.Dict.{lookup, lookup-insert}
use agent_roi_console.Float.{Float, fle, ◌⊖◌, ◌≼◌}
use agent_roi_console.Gateway.Store.{MemoryStore, take_tokens}
use agent_roi_console.Gateway.RateLimit.{
  RateLimit, Poll, waited, exceeded, waiting, take_request, take_cost, rounds, tokens_key,
  requests_key,
}

tokens_key-ne-requests_key :
    (workflow_id : String) → str_eq (tokens_key workflow_id) (requests_key workflow_id) ≡ false
tokens_key-ne-requests_key workflow_id =
    ground (arith, eq_iff (tokens_key workflow_id) (requests_key workflow_id), differ)
  where
    differ : tokens_key workflow_id ≢ requests_key workflow_id
    differ e = absurd (
        unfold size in
        omega (
          arith,
          ap size e,
          size-append_text workflow_id ":tokens",
          size-append_text workflow_id ":requests",
        ))

take_cost-requests :
    {F : Type 0} ⦃fl : Float F⦄ (taken : Bool) (at : F) (limit : RateLimit F) (token_cost : F)
    (workflow_id : String) (s : MemoryStore F)
    → lookup
        (requests_key workflow_id)
        (take_cost taken at limit token_cost workflow_id s).1.buckets
      ≡ lookup (requests_key workflow_id) s.buckets
unfolding take_cost take_tokens
take_cost-requests false at limit token_cost workflow_id s = refl
take_cost-requests true at limit token_cost workflow_id s =
    simp (lookup-insert, tokens_key-ne-requests_key)

module _ {F : Type 0} ⦃fl : Float F⦄ (started : F) (limit : RateLimit F) (token_cost max_wait_s : F)
    (workflow_id : String) where
  -- A round returns the time waited, gives up, or leaves it to the next rounds.
  round-cases :
      (q : Poll F) (ps : List (Poll F)) (taken : Bool) (s : MemoryStore F)
      → let result = rounds (q ∷ ps) taken started limit token_cost max_wait_s workflow_id s in
        (result.0 ≡ waited (q.ended_at ⊖ started))
        ⊎ ((result.0 ≡ exceeded) × (max_wait_s ≼ q.ended_at ⊖ started))
        ⊎ ((taken' : Bool) × (s' : MemoryStore F) × (result
              ≡ rounds ps taken' started limit token_cost max_wait_s workflow_id s')
            × (fle max_wait_s (q.ended_at ⊖ started) ≡ false))
  unfolding rounds
  round-cases q ps taken s =
      let request = take_request taken q.request_at limit workflow_id s in
      let both = take_cost request.0 q.tokens_at limit token_cost workflow_id request.1 in
      elim (Bool-cases both.0) [
        | inl t ↦ inl (ground arith)
        | inr f ↦ elim (Bool-cases (fle max_wait_s (q.ended_at ⊖ started))) [
          | inl over ↦ inr (inl (ground arith, over))
          | inr more ↦ inr (inr (request.0, both.1, ground arith, more))
        ]
      ]

  -- A wait with a round that ends after the longest wait is decided: it does not go on.
  pub rounds-decides :
      (ps : List (Poll F)) (p : Poll F) (taken : Bool) (s : MemoryStore F)
      → Has p ps
      → max_wait_s ≼ p.ended_at ⊖ started
      → (rounds ps taken started limit token_cost max_wait_s workflow_id s).0 ≢ waiting
  rounds-decides [] p taken s m h e = m
  rounds-decides (q ∷ ps) p taken s m h e = elim (round-cases q ps taken s) [
    | inl w ↦ cc
    | inr (inl (x, _)) ↦ cc
    | inr (inr (taken', s', same, more)) ↦ elim m [
      | inl here ↦ cc (ap (λ (r : Poll F). fle max_wait_s (r.ended_at ⊖ started)) here)
      | inr there ↦ rounds-decides ps p taken' s' there h (ap (λ r. r.0) (sym same) ∙ e)
    ]
  ]

  -- A request is refused for its rate only in a round that ends after the longest wait.
  pub rounds-exceeded :
      (ps : List (Poll F)) (taken : Bool) (s : MemoryStore F)
      → (rounds ps taken started limit token_cost max_wait_s workflow_id s).0 ≡ exceeded
      → (p : Poll F) × Has p ps × (max_wait_s ≼ p.ended_at ⊖ started)
  rounds-exceeded [] taken s e = absurd (unfold rounds in cc)
  rounds-exceeded (q ∷ ps) taken s e = elim (round-cases q ps taken s) [
    | inl w ↦ absurd (cc)
    | inr (inl (x, over)) ↦ (q, inl refl, over)
    | inr (inr (taken', s', same, more)) ↦
        let (p, m, over) = rounds-exceeded ps taken' s' (ap (λ r. r.0) (sym same) ∙ e) in
        (p, inr m, over)
  ]

  -- Once a request has its request token, the wait for tokens takes no further request token.
  pub rounds-requests :
      (ps : List (Poll F)) (s : MemoryStore F)
      → lookup
          (requests_key workflow_id)
          (rounds ps true started limit token_cost max_wait_s workflow_id s).1.buckets
        ≡ lookup (requests_key workflow_id) s.buckets
  unfolding rounds take_request
  rounds-requests [] s = refl
  rounds-requests (q ∷ ps) s = ground (
    arith,
    take_cost-requests true q.tokens_at limit token_cost workflow_id s,
    rounds-requests ps (take_cost true q.tokens_at limit token_cost workflow_id s).1,
  )
