-- ===== src/Paths/Traces.antt =====
-- paths/base.py: what any piece of a path adds to the trail of its run.
use agent_roi_console.Common.{
  ℕ, ◌+◌, ◌≡◌, refl, sym, ◌⊎◌, inl, inr, Bool, true, false, Bool-cases, List, [], ◌∷◌, ◌++◌, String,
  Option, some, All, All-append, length, length-append, arith, if◌then◌else◌,
}
use agent_roi_console.Common.Text.{replace_first_dunder}
use agent_roi_console.Json.{Value, Fields}
use agent_roi_console.Workflows.{StepType}
use agent_roi_console.Paths.{
  Context, Services, Trail, Step, StepTrace, StepStatus, Detail, LlmResult, LlmCallError, Chat,
  Answer, PathResult, finish, Result, done, stops, crashes, after, ◌>>=◌, lift, llm_step, tool_step,
  chat_of, answered, tool_answered, not_allowed, is_listed,
}
use mathlib.Core.List.{append-nil, append_assoc}

abbrev is_completion_at : StepType → StepStatus → Bool
is_completion_at StepType.llm StepStatus.completed = true
is_completion_at _ _ = false

module _ {F : Type 0} where
  -- A trace of a completion of the gateway.
  abbrev pub is_completion : StepTrace F → Bool
  is_completion t = is_completion_at t.kind t.status

  unfoldable pub completions : List (StepTrace F) → ℕ
  completions [] = 0
  completions (t ∷ ts) = (if is_completion t then 1 else 0) + completions ts

  completions-append :
      (ts us : List (StepTrace F)) → completions (ts ++ us) ≡ completions ts + completions us
  unfolding completions
  completions-append [] us = omega arith
  completions-append (t ∷ ts) us = omega (arith, completions-append ts us)

  -- A trace of a tool is of a tool of the workflow, or of a call that was refused and not made.
  abbrev IsAllowedAt : StepType → Context → StepTrace F → Type 0
  IsAllowedAt StepType.tool ctx t =
      (is_listed t.name ctx.tool_list ≡ true) ⊎ (t.detail ≡ Detail.error "tool not allowed")
  IsAllowedAt _ ctx t = Unit

  abbrev pub IsAllowed : Context → StepTrace F → Type 0
  IsAllowed ctx t = IsAllowedAt t.kind ctx t

module _ {F W : Type 0} where
  -- The trail `u` is the trail `s` with traces and results behind it: a completion traced for each
  -- result, and tools only of the workflow.
  pub record Grows (ctx : Context) (s u : Trail F W) : Type 0 where
    pub added : List (StepTrace F)
    pub gained : List (LlmResult F)
    pub traces_eq : u.traces ≡ s.traces ++ added
    pub results_eq : u.llm_results ≡ s.llm_results ++ gained
    pub counted : completions added ≡ length gained
    pub allowed : All (IsAllowed ctx) added

  pub Grows-refl : (ctx : Context) (s : Trail F W) → Grows ctx s s
  unfolding completions
  Grows-refl ctx s = record {
    added = [];
    gained = [];
    traces_eq = sym (append-nil s.traces);
    results_eq = sym (append-nil s.llm_results);
    counted = refl;
    allowed = tt;
  }

  pub Grows-trans :
      (ctx : Context) (s t u : Trail F W) → Grows ctx s t → Grows ctx t u → Grows ctx s u
  Grows-trans ctx s t u g h = record {
    added = g.added ++ h.added;
    gained = g.gained ++ h.gained;
    traces_eq = simp (h.traces_eq, g.traces_eq, append_assoc);
    results_eq = simp (h.results_eq, g.results_eq, append_assoc);
    counted = omega (
      arith,
      g.counted,
      h.counted,
      completions-append g.added h.added,
      length-append g.gained h.gained,
    );
    allowed = All-append (IsAllowed ctx) g.added h.added g.allowed h.allowed;
  }

  abbrev pub Growing : {A : Type 0} → Context → Step F W A → Type 0
  Growing ctx m = (s : Trail F W) → Grows ctx s (m s).1

module _ {F W A B : Type 0} (ctx : Context) where
  after-Grows :
      (s : Trail F W) (p : Result A × Trail F W) (f : A → Step F W B)
      → Grows ctx s p.1
      → ((a : A) → Growing ctx (f a))
      → Grows ctx s (after p f).1
  unfolding after
  after-Grows s (done a, t) f g h = Grows-trans ctx s t (f a t).1 g (h a t)
  after-Grows s (stops e, t) f g h = g
  after-Grows s (crashes, t) f g h = g

  pub bind-Growing :
      (m : Step F W A) (f : A → Step F W B)
      → Growing ctx m
      → ((a : A) → Growing ctx (f a))
      → Growing ctx (m >>= f)
  unfolding ◌>>=◌
  bind-Growing m f g h s = after-Grows s (m s) f (g s) h

module _ {F W A : Type 0} (ctx : Context) where
  pub lift-Growing : (r : Result A) → Growing {F = F} {W = W} ctx (lift r)
  unfolding lift
  lift-Growing r s = Grows-refl ctx s

module _ {F W A : Type 0} (ctx : Context) where
  pub if-Growing :
      (b : Bool) (m n : Step F W A)
      → Growing ctx m
      → Growing ctx n
      → Growing ctx (if b then m else n)
  if-Growing true m n h k = h
  if-Growing false m n h k = k

module _ {F W : Type 0} (services : Services F W) (ctx : Context) where
  answered-Grows :
      (c : Chat) (a : Answer LlmCallError (LlmResult F)) (s : Trail F W)
      → Grows ctx s (answered c a s).1
  unfolding answered completions
  answered-Grows c (Answer.returns r) s = record {
    added = _ ∷ [];
    gained = r ∷ [];
    traces_eq = refl;
    results_eq = refl;
    counted = omega arith;
    allowed = (tt, tt);
  }
  answered-Grows c (Answer.raises e) s = record {
    added = _ ∷ [];
    gained = [];
    traces_eq = refl;
    results_eq = sym (append-nil s.llm_results);
    counted = omega arith;
    allowed = (tt, tt);
  }

  -- The world is no part of what grows.
  Grows-world :
      (s : Trail F W) (world : W) (u : Trail F W)
      → Grows ctx (record s { world = world }) u
      → Grows ctx s u
  Grows-world s world u g = record {
    added = g.added;
    gained = g.gained;
    traces_eq = g.traces_eq;
    results_eq = g.results_eq;
    counted = g.counted;
    allowed = g.allowed;
  }

  pub llm_step-Growing :
      (step_id step_class : String) (messages : List Value) (max_tokens : ℕ)
      (tools : Option (List Value)) (o_json : Bool)
      → Growing ctx (llm_step services ctx step_id step_class messages max_tokens tools o_json)
  unfolding llm_step
  llm_step-Growing step_id step_class messages max_tokens tools o_json s =
      let c = chat_of ctx step_id step_class messages max_tokens tools o_json in
      Grows-world s _ _ (answered-Grows c _ _)

  tool_answered-Grows :
      (step_id name : String) (a : Answer String Fields) (s : Trail F W)
      → is_listed name ctx.tool_list ≡ true
      → Grows ctx s (tool_answered step_id name a s).1
  unfolding tool_answered completions
  tool_answered-Grows step_id name (Answer.returns r) s h = record {
    added = _ ∷ [];
    gained = [];
    traces_eq = refl;
    results_eq = sym (append-nil s.llm_results);
    counted = omega arith;
    allowed = (inl h, tt);
  }
  tool_answered-Grows step_id name (Answer.raises e) s h = record {
    added = _ ∷ [];
    gained = [];
    traces_eq = refl;
    results_eq = sym (append-nil s.llm_results);
    counted = omega arith;
    allowed = (inl h, tt);
  }

  pub tool_step-Growing :
      (step_id called : String) (args : Fields)
      → Growing ctx (tool_step services ctx step_id called args)
  unfolding tool_step not_allowed completions
  tool_step-Growing step_id called args s =
      elim (Bool-cases (is_listed (replace_first_dunder called) ctx.tool_list)) [
        | inl h ↦ rw h (Grows-world s _ _ (tool_answered-Grows step_id _ _ _ h))
        | inr h ↦ rw h (record {
          added = _ ∷ [];
          gained = [];
          traces_eq = refl;
          results_eq = sym (append-nil s.llm_results);
          counted = omega arith;
          allowed = (inr refl, tt);
        })
      ]

module _ {F : Type 0} where
  -- A result with one traced completion for each answer of the gateway, and tools of the workflow.
  abbrev pub IsAccounted : Context → PathResult F → Type 0
  IsAccounted ctx result =
      (completions result.path_traces ≡ length result.results)
      × All (IsAllowed ctx) result.path_traces

module _ {F W : Type 0} (ctx : Context) where
  IsAccounted-of :
      (s u : Trail F W) (result : PathResult F)
      → result.path_traces ≡ u.traces
      → result.results ≡ u.llm_results
      → s.traces ≡ []
      → s.llm_results ≡ []
      → Grows ctx s u
      → IsAccounted ctx result
  IsAccounted-of s u result et er zt zr g =
      let traced : result.path_traces ≡ g.added = simp (et, g.traces_eq, zt) in
      let answers : result.results ≡ g.gained = simp (er, g.results_eq, zr) in
      (rw traced (rw answers g.counted), rw traced g.allowed)

module _ {F W A : Type 0} (ctx : Context) where
  pub finish-IsAccounted :
      (s : Trail F W) (p : Result A × Trail F W) (result : PathResult F)
      → s.traces ≡ []
      → s.llm_results ≡ []
      → finish p ≡ some result
      → Grows ctx s p.1
      → IsAccounted ctx result
  unfolding finish
  finish-IsAccounted s (done a, t) result zt zr e g =
      IsAccounted-of ctx s t result (ground arith) (ground arith) zt zr g
  finish-IsAccounted s (stops x, t) result zt zr e g =
      IsAccounted-of ctx s t result (ground arith) (ground arith) zt zr g
  finish-IsAccounted s (crashes, t) result zt zr e g = absurd (ground arith)
