-- ===== src/Paths/Asks.antt =====
-- paths/base.py: how many answers of the gateway a piece of a path adds.
use agent_roi_console.Common.{
  ℕ, ◌+◌, ◌≤◌, ◌≡◌, refl, Bool, true, false, Bool-cases, inl, inr, List, [], ◌∷◌, length,
  length-append, String, Option, arith, if◌then◌else◌,
}
use agent_roi_console.Common.Text.{replace_first_dunder}
use agent_roi_console.Json.{Value, Fields}
use agent_roi_console.Paths.{
  Result, done, stops, crashes, Services, Context, Trail, Step, Answer, Chat, LlmCallError,
  LlmResult, after, ◌>>=◌, lift, llm_step, tool_step, chat_of, answered, tool_answered, not_allowed,
  is_listed,
}
use agent_roi_console.Paths.Total.{Gives}

module _ {F W A : Type 0} where
  -- A piece of a run adds at most so many answers of the gateway.
  abbrev pub Asks : ℕ → Step F W A → Type 0
  Asks n m = (s : Trail F W) → length (m s).1.llm_results ≤ length s.llm_results + n

module _ {F W A B : Type 0} where
  after-Asks :
      (n k : ℕ) (s : Trail F W) (p : Result A × Trail F W) (f : A → Step F W B)
      → length p.1.llm_results ≤ length s.llm_results + n
      → ((a : A) → p.0 ≡ done a → Asks k (f a))
      → length (after p f).1.llm_results ≤ length s.llm_results + (n + k)
  unfolding after
  after-Asks n k s (done a, t) f h g = omega (arith, g a refl t)
  after-Asks n k s (stops e, t) f h g = omega arith
  after-Asks n k s (crashes, t) f h g = omega arith

  pub bind-Asks :
      (P : A → Type 0) (n k : ℕ) (m : Step F W A) (f : A → Step F W B)
      → Asks n m
      → Gives P m
      → ((a : A) → P a → Asks k (f a))
      → Asks (n + k) (m >>= f)
  unfolding ◌>>=◌
  bind-Asks P n k m f h g c s = after-Asks n k s (m s) f (h s) (λ a e. c a (g s a e))

module _ {F W A : Type 0} where
  pub lift-Asks : (n : ℕ) (r : Result A) → Asks {F = F} {W = W} n (lift r)
  unfolding lift
  lift-Asks n r s = omega arith

  pub if-Asks :
      (n : ℕ) (b : Bool) (m k : Step F W A) → Asks n m → Asks n k → Asks n (if b then m else k)
  if-Asks n true m k h g = h
  if-Asks n false m k h g = g

module _ {F W A B : Type 0} where
  pub bind_any-Asks :
      (n k : ℕ) (m : Step F W A) (f : A → Step F W B)
      → Asks n m
      → ((a : A) → Asks k (f a))
      → Asks (n + k) (m >>= f)
  bind_any-Asks n k m f h c = bind-Asks (λ a. Unit) n k m f h (λ s a e. tt) (λ a u. c a)

module _ {F W : Type 0} (services : Services F W) (ctx : Context) where
  answered-Asks :
      (c : Chat) (a : Answer LlmCallError (LlmResult F)) (s : Trail F W)
      → length (answered c a s).1.llm_results ≤ length s.llm_results + 1
  unfolding answered
  answered-Asks c (Answer.returns r) s = omega (arith, length-append s.llm_results (r ∷ []))
  answered-Asks c (Answer.raises e) s = omega arith

  pub llm_step-Asks :
      (step_id step_class : String) (messages : List Value) (max_tokens : ℕ)
      (tools : Option (List Value)) (o_json : Bool)
      → Asks 1 (llm_step services ctx step_id step_class messages max_tokens tools o_json)
  unfolding llm_step
  llm_step-Asks step_id step_class messages max_tokens tools o_json s =
      let c = chat_of ctx step_id step_class messages max_tokens tools o_json in
      answered-Asks c (services.chat c s.world).0 (record s { world = (services.chat c s.world).1 })

  tool_answered-Asks :
      (step_id name : String) (a : Answer String Fields) (s : Trail F W)
      → length (tool_answered step_id name a s).1.llm_results ≤ length s.llm_results + 0
  unfolding tool_answered
  tool_answered-Asks step_id name (Answer.returns r) s = omega arith
  tool_answered-Asks step_id name (Answer.raises e) s = omega arith

  pub tool_step-Asks :
      (step_id called : String) (args : Fields)
      → Asks 0 (tool_step services ctx step_id called args)
  unfolding tool_step not_allowed
  tool_step-Asks step_id called args s =
      let name = replace_first_dunder called in
      let answer = services.call_tool name args ctx.run step_id s.world in
      elim (Bool-cases (is_listed name ctx.tool_list)) [
        | inl h ↦ rw h (tool_answered-Asks step_id name answer.0 (record s { world = answer.1 }))
        | inr h ↦ rw h (omega arith)
      ]
