-- ===== src/Paths/Pipeline/Progress.antt =====
-- paths/pipeline.py: the steps that a piece of a run traces, and how such pieces compose.
use agent_roi_console.Common.{
  ℕ, ◌+◌, ◌≤◌, ◌≡◌, refl, sym, ◌∙◌, Bool, true, false, List, [], ◌∷◌, ◌++◌, map, String, some,
  arith, if◌then◌else◌,
}
use agent_roi_console.Paths.{
  Trail, Step, StepTrace, StepStatus, Result, done, stops, crashes, PathResult, finish, after,
  ◌>>=◌, lift,
}
use mathlib.Core.List.{append-nil, append_assoc, map-append}

module _ {A : Type 0} where
  abbrev pub is_done : Result A → Bool
  is_done (done a) = true
  is_done _ = false

abbrev pub is_failed : StepStatus → Bool
is_failed StepStatus.failed = true
is_failed StepStatus.completed = false

module _ {F : Type 0} where
  abbrev pub ids_of : List (StepTrace F) → List String
  ids_of ts = map (λ t. t.step_id) ts

  unfoldable pub failures : List (StepTrace F) → ℕ
  failures [] = 0
  failures (t ∷ ts) = (if is_failed t.status then 1 else 0) + failures ts

  failures-append : (ts us : List (StepTrace F)) → failures (ts ++ us) ≡ failures ts + failures us
  unfolding failures
  failures-append [] us = omega arith
  failures-append (t ∷ ts) us = omega (arith, failures-append ts us)

module _ {F W A : Type 0} where
  -- A piece of a run with the given steps leaves one trace for each that it gets to, in their order.
  -- At most one of them failed; none did where the piece is done, and then it got to all.
  pub record Ran (ids : List String) (s : Trail F W) (p : Result A × Trail F W) : Type 0 where
    pub added : List (StepTrace F)
    pub unreached : List String
    pub traces_eq : p.1.traces ≡ s.traces ++ added
    pub ids_eq : ids ≡ ids_of added ++ unreached
    pub at_most_one : failures added ≤ 1
    pub to_the_end : is_done p.0 ≡ true → (unreached ≡ []) × (failures added ≡ 0)

module _ {F W A : Type 0} where
  unreached_all :
      (ids : List String) (s : Trail F W) (p : Result A × Trail F W)
      → p.1.traces ≡ s.traces
      → is_done p.0 ≡ false
      → Ran ids s p
  unfolding failures
  unreached_all ids s p e h = record {
    added = [];
    unreached = ids;
    traces_eq = e ∙ sym (append-nil s.traces);
    ids_eq = refl;
    at_most_one = omega arith;
    to_the_end = λ d. absurd (cc (d, h));
  }

module _ {F W A : Type 0} where
  pub one_trace :
      (s : Trail F W) (t : StepTrace F) (p : Result A × Trail F W)
      → p.1.traces ≡ s.traces ++ t ∷ []
      → (is_done p.0 ≡ true → is_failed t.status ≡ false)
      → Ran (t.step_id ∷ []) s p
  unfolding failures
  one_trace s t p e h = record {
    added = t ∷ [];
    unreached = [];
    traces_eq = e;
    ids_eq = refl;
    at_most_one = ground arith;
    to_the_end = λ d. (refl, rw (h d) refl);
  }

module _ {F W A B : Type 0} where
  pub after-Ran :
      (xs ys : List String) (s : Trail F W) (p : Result A × Trail F W) (f : A → Step F W B)
      → Ran xs s p
      → ((a : A) (t : Trail F W) → Ran ys t (f a t))
      → Ran (xs ++ ys) s (after p f)
  unfolding after
  after-Ran xs ys s (done a, t) f r h =
      let q = h a t in
      let e = r.to_the_end refl in
      record {
        added = r.added ++ q.added;
        unreached = q.unreached;
        traces_eq = simp (q.traces_eq, r.traces_eq, append_assoc);
        ids_eq = simp (r.ids_eq, e.0, q.ids_eq, append-nil, append_assoc, map-append);
        at_most_one = omega (arith, e.1, q.at_most_one, failures-append r.added q.added);
        to_the_end = λ d. (
          (q.to_the_end d).0,
          omega (arith, e.1, (q.to_the_end d).1, failures-append r.added q.added),
        );
      }
  after-Ran xs ys s (stops e, t) f r h = record {
    added = r.added;
    unreached = r.unreached ++ ys;
    traces_eq = r.traces_eq;
    ids_eq = simp (r.ids_eq, append_assoc);
    at_most_one = r.at_most_one;
    to_the_end = λ d. absurd (ground arith);
  }
  after-Ran xs ys s (crashes, t) f r h = record {
    added = r.added;
    unreached = r.unreached ++ ys;
    traces_eq = r.traces_eq;
    ids_eq = simp (r.ids_eq, append_assoc);
    at_most_one = r.at_most_one;
    to_the_end = λ d. absurd (ground arith);
  }

  pub bind-Ran :
      (xs ys : List String) (m : Step F W A) (f : A → Step F W B) (s : Trail F W)
      → Ran xs s (m s)
      → ((a : A) (t : Trail F W) → Ran ys t (f a t))
      → Ran (xs ++ ys) s ((m >>= f) s)
  unfolding ◌>>=◌
  bind-Ran xs ys m f s r h = after-Ran xs ys s (m s) f r h

module _ {F W A : Type 0} where
  pub lift-Ran : (r : Result A) (s : Trail F W) → Ran [] s (lift r s)
  unfolding lift failures
  lift-Ran r s = record {
    added = [];
    unreached = [];
    traces_eq = sym (append-nil s.traces);
    ids_eq = refl;
    at_most_one = omega arith;
    to_the_end = λ d. (refl, refl);
  }

module _ {F : Type 0} where
  -- The steps that a result shows, of those with the given ids.
  abbrev pub Shows : List String → PathResult F → Type 0
  Shows ids result =
      (unreached : List String) × (ids ≡ ids_of result.path_traces ++ unreached)
      × (failures result.path_traces ≤ 1)
      × (result.path_status ≡ StepStatus.completed
          → (unreached ≡ []) × (failures result.path_traces ≡ 0))

module _ {F W A : Type 0} where
  Shows-of :
      (ids : List String) (s : Trail F W) (p : Result A × Trail F W) (result : PathResult F)
      → result.path_traces ≡ p.1.traces
      → s.traces ≡ []
      → (result.path_status ≡ StepStatus.completed → is_done p.0 ≡ true)
      → Ran ids s p
      → Shows ids result
  Shows-of ids s p result e z c r =
      let same : result.path_traces ≡ r.added = simp (e, r.traces_eq, z) in
      (
        r.unreached,
        rw same r.ids_eq,
        rw same r.at_most_one,
        λ h. ((r.to_the_end (c h)).0, rw same (r.to_the_end (c h)).1),
      )

  -- A run from an empty trail, once finished.
  pub finish-Shows :
      (ids : List String) (s : Trail F W) (p : Result A × Trail F W) (result : PathResult F)
      → s.traces ≡ []
      → finish p ≡ some result
      → Ran ids s p
      → Shows ids result
  unfolding finish
  finish-Shows ids s (done a, t) result z e r =
      Shows-of ids s (done a, t) result (ground arith) z (λ h. refl) r
  finish-Shows ids s (stops x, t) result z e r =
      Shows-of ids s (stops x, t) result (ground arith) z (λ h. absurd (ground arith)) r
  finish-Shows ids s (crashes, t) result z e r = absurd (ground arith)
