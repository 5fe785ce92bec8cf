-- ===== src/Paths/Total.antt =====
-- paths/base.py: pieces of a path that raise nothing but a PathError.
use agent_roi_console.Common.{
  ℕ, ◌≡◌, refl, subst, Bool, true, false, Bool-cases, inl, inr, List, String, Option, some, arith,
  if◌then◌else◌,
}
use agent_roi_console.Common.Text.{replace_first_dunder}
use agent_roi_console.Json.{Value, Fields}
use agent_roi_console.Paths.{
  PathError, PathResult, finish, Result, done, stops, crashes, Services, Context, Trail, Step,
  Answer, LlmResult, LlmCallError, Chat, after, ◌>>=◌, lift, llm_step, tool_step, chat_of, answered,
  tool_answered, not_allowed, is_listed,
}

module _ {A : Type 0} where
  abbrev pub is_crash : Result A → Bool
  is_crash crashes = true
  is_crash _ = false

module _ {A : Type 0} where
  pub done_injective : (a b : A) → done a ≡ done b → a ≡ b
  done_injective a b e = ground arith

module _ {F W A : Type 0} where
  -- A piece of a run that ends in a value or in a PathError.
  abbrev pub IsTotal : Step F W A → Type 0
  IsTotal m = (s : Trail F W) → is_crash (m s).0 ≡ false

module _ {F W A B : Type 0} where
  after-IsTotal :
      (p : Result A × Trail F W) (f : A → Step F W B)
      → is_crash p.0 ≡ false
      → ((a : A) → p.0 ≡ done a → IsTotal (f a))
      → is_crash (after p f).0 ≡ false
  unfolding after
  after-IsTotal (done a, t) f h k = k a refl t
  after-IsTotal (stops e, t) f h k = refl
  after-IsTotal (crashes, t) f h k = absurd (ground arith)

  pub bind-IsTotal :
      (m : Step F W A) (f : A → Step F W B)
      → IsTotal m
      → ((a : A) → IsTotal (f a))
      → IsTotal (m >>= f)
  unfolding ◌>>=◌
  bind-IsTotal m f h k s = after-IsTotal (m s) f (h s) (λ a e. k a)

  pub lift_bind-IsTotal :
      (r : Result A) (f : A → Step F W B)
      → is_crash r ≡ false
      → ((a : A) → r ≡ done a → IsTotal (f a))
      → IsTotal (lift r >>= f)
  unfolding ◌>>=◌ lift
  lift_bind-IsTotal r f h k s = after-IsTotal (r, s) f h k

module _ {F W A : Type 0} where
  -- What holds of the value of a piece that is done.
  abbrev pub Gives : (A → Type 0) → Step F W A → Type 0
  Gives P m = (s : Trail F W) (a : A) → (m s).0 ≡ done a → P a

module _ {F W A B : Type 0} where
  after-Gives :
      (P : B → Type 0) (p : Result A × Trail F W) (f : A → Step F W B)
      → ((a : A) → Gives P (f a))
      → (b : B) → (after p f).0 ≡ done b
      → P b
  unfolding after
  after-Gives P (done a, t) f h b e = h a t b e
  after-Gives P (stops x, t) f h b e = absurd (ground arith)
  after-Gives P (crashes, t) f h b e = absurd (ground arith)

  pub bind-Gives :
      (P : B → Type 0) (m : Step F W A) (f : A → Step F W B)
      → ((a : A) → Gives P (f a))
      → Gives P (m >>= f)
  unfolding ◌>>=◌
  bind-Gives P m f h s b e = after-Gives P (m s) f h b e

  after_given-Gives :
      (P : A → Type 0) (Q : B → Type 0) (p : Result A × Trail F W) (f : A → Step F W B)
      → ((a : A) → p.0 ≡ done a → P a)
      → ((a : A) → P a → Gives Q (f a))
      → (b : B) → (after p f).0 ≡ done b
      → Q b
  unfolding after
  after_given-Gives P Q (done a, t) f g h b e = h a (g a refl) t b e
  after_given-Gives P Q (stops x, t) f g h b e = absurd (ground arith)
  after_given-Gives P Q (crashes, t) f g h b e = absurd (ground arith)

  pub bind_given-Gives :
      (P : A → Type 0) (Q : B → Type 0) (m : Step F W A) (f : A → Step F W B)
      → Gives P m
      → ((a : A) → P a → Gives Q (f a))
      → Gives Q (m >>= f)
  unfolding ◌>>=◌
  bind_given-Gives P Q m f g h s b e = after_given-Gives P Q (m s) f (g s) h b e

  pub bind_given-IsTotal :
      (P : A → Type 0) (m : Step F W A) (f : A → Step F W B)
      → IsTotal m
      → Gives P m
      → ((a : A) → P a → IsTotal (f a))
      → IsTotal (m >>= f)
  unfolding ◌>>=◌
  bind_given-IsTotal P m f h g k s = after-IsTotal (m s) f (h s) (λ a e. k a (g s a e))

module _ {F W A : Type 0} where
  pub done-Gives : (P : A → Type 0) (a : A) → P a → Gives {F = F} {W = W} P (lift (done a))
  unfolding lift
  done-Gives P a h s b e = subst P (done_injective a b e) h

  pub lift-IsTotal : (r : Result A) → is_crash r ≡ false → IsTotal {F = F} {W = W} (lift r)
  unfolding lift
  lift-IsTotal r h s = h

module _ {F W : Type 0} (services : Services F W) (ctx : Context) where
  answered-is_crash :
      (c : Chat) (a : Answer LlmCallError (LlmResult F)) (t : Trail F W)
      → is_crash (answered c a t).0 ≡ false
  unfolding answered
  answered-is_crash c (Answer.returns r) t = refl
  answered-is_crash c (Answer.raises e) t = refl

  pub llm_step-IsTotal :
      (step_id step_class : String) (messages : List Value) (max_tokens : ℕ)
      (tools : Option (List Value)) (o_json : Bool)
      → IsTotal (llm_step services ctx step_id step_class messages max_tokens tools o_json)
  unfolding llm_step
  llm_step-IsTotal step_id step_class messages max_tokens tools o_json s =
      let c = chat_of ctx step_id step_class messages max_tokens tools o_json in
      answered-is_crash c (services.chat c s.world).0 _

  tool_answered-is_crash :
      (step_id name : String) (a : Answer String Fields) (t : Trail F W)
      → is_crash (tool_answered step_id name a t).0 ≡ false
  unfolding tool_answered
  tool_answered-is_crash step_id name (Answer.returns r) t = refl
  tool_answered-is_crash step_id name (Answer.raises e) t = refl

  pub tool_step-IsTotal :
      (step_id called : String) (args : Fields)
      → IsTotal (tool_step services ctx step_id called args)
  unfolding tool_step not_allowed
  tool_step-IsTotal step_id called args s =
      elim (Bool-cases (is_listed (replace_first_dunder called) ctx.tool_list)) [
        | inl h ↦ rw h (tool_answered-is_crash step_id _ _ _)
        | inr h ↦ rw h refl
      ]

module _ {F W A : Type 0} where
  pub if-IsTotal :
      (b : Bool) (m n : Step F W A) → IsTotal m → IsTotal n → IsTotal (if b then m else n)
  if-IsTotal true m n h k = h
  if-IsTotal false m n h k = k

  pub not_done : (e : PathError) (s : Trail F W) (a : A) → (lift (stops e) s).0 ≡ done a → ⊥
  unfolding lift
  not_done e s a h = ground arith

  -- A run that does not crash has a result.
  pub finish-total :
      (p : Result A × Trail F W)
      → is_crash p.0 ≡ false
      → (result : PathResult F) × (finish p ≡ some result)
  unfolding finish
  finish-total (done a, s) h = (_, refl)
  finish-total (stops e, s) h = (_, refl)
  finish-total (crashes, s) h = absurd (ground arith)

  pub finish-results :
      (p : Result A × Trail F W) (result : PathResult F)
      → finish p ≡ some result
      → result.results ≡ p.1.llm_results
  unfolding finish
  finish-results (done a, s) result e = ground arith
  finish-results (stops x, s) result e = ground arith
  finish-results (crashes, s) result e = absurd (ground arith)
