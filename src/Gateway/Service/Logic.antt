-- ===== src/Gateway/Service/Logic.antt =====
-- Reasoning about the parts of `complete` in gateway/service.py, one behind another.
use agent_roi_console.Common.{◌≡◌, refl, subst, Option, some, inl, inr, arith, Option-cases}
use agent_roi_console.Gateway.Store.{MemoryStore}
use agent_roi_console.Gateway.Planning.{GatewayError, Step, done, refuses, crashes}
use agent_roi_console.Gateway.Service.{Gateway, Run, after, ◌>>=◌, lift, on_memory}

module _ {F S : Type 0}
    -- what a refusal and an exception promise of the gateway that they leave
    (E : GatewayError F → Gateway F S → Type 0) (C : Gateway F S → Type 0) where
  abbrev pub Post : {A : Type 0} → (A → Gateway F S → Type 0) → Step F A × Gateway F S → Type 0
  Post D (done a, s) = D a s
  Post D (refuses e, s) = E e s
  Post D (crashes, s) = C s

  after_lem :
      {A B : Type 0} (D : A → Gateway F S → Type 0) (D' : B → Gateway F S → Type 0)
      (r : Step F A × Gateway F S) (f : A → Run F S B)
      → Post D r
      → ((a : A) (s : Gateway F S) → D a s → Post D' (f a s))
      → Post D' (after r f)
  after_lem D D' (done a, s) f h k = k a s h
  after_lem D D' (refuses e, s) f h k = h
  after_lem D D' (crashes, s) f h k = h

  pub bind :
      {A B : Type 0} (D : A → Gateway F S → Type 0) (D' : B → Gateway F S → Type 0) (m : Run F S A)
      (f : A → Run F S B) (s : Gateway F S)
      → Post D (m s)
      → ((a : A) (s' : Gateway F S) → D a s' → Post D' (f a s'))
      → Post D' ((m >>= f) s)
  unfolding ◌>>=◌
  bind D D' m f s h k = after_lem D D' (m s) f h k

  -- The same without a promise on values.
  pub from_memory :
      {A : Type 0} (D : A → Gateway F S → Type 0) (f : MemoryStore F → Option A × MemoryStore F)
      (s : Gateway F S)
      → ((memory : MemoryStore F) → C (record s { memory = memory }))
      → ((a : A) (memory : MemoryStore F)
          → f s.memory ≡ (some a, memory)
          → D a (record s { memory = memory }))
      → Post D (on_memory f s)
  unfolding on_memory
  from_memory D f s crash h = elim (Option-cases (f s.memory).0) [
    | inl e ↦ rw e (crash (f s.memory).1)
    | inr (a, e) ↦ rw e (h a (f s.memory).1 (ground arith))
  ]

  pub from_step :
      {A : Type 0} (D : A → Gateway F S → Type 0) (r : Step F A) (s : Gateway F S)
      → ((a : A) → r ≡ done a → D a s)
      → ((e : GatewayError F) → r ≡ refuses e → E e s)
      → C s
      → Post D (lift r s)
  unfolding lift
  from_step D (done a) s h k c = h a refl
  from_step D (refuses e) s h k c = k e refl
  from_step D crashes s h k c = c

  pub done-Post :
      {A : Type 0} (D : A → Gateway F S → Type 0) (r : Step F A × Gateway F S) (a : A)
      → r.0 ≡ done a
      → Post D r
      → D a r.1
  done-Post D (done b, s) a e h = subst (λ x. D x s) (ground arith) h
  done-Post D (refuses x, s) a e h = cc
  done-Post D (crashes, s) a e h = cc
