-- ===== src/Paths/React/Replies.antt =====
-- paths/react.py: the calls of a reply that has the parts which the agent reads.
use agent_roi_console.Common.{
  ℕ, suc, ◌≡◌, refl, subst, sym, ap, ◌∙◌, Bool, false, Bool-cases, inl, inr, List, [], ◌∷◌, ◌++◌,
  All, String, Option, none, some, arith, ltb,
}
use agent_roi_console.Json.{Value, Fields, get, elements}
use agent_roi_console.Workflows.{AgentSettings}
use agent_roi_console.Workflows.Transforms.{items_of}
use agent_roi_console.Paths.{
  Result, done, stops, crashes, Services, Context, Trail, Answer, LlmResult, LlmCallError, Chat,
  llm_step, answered, chat_of,
}
use agent_roi_console.Paths.Total.{
  is_crash, not_done, done_injective, IsTotal, Gives, bind_given-Gives, done-Gives, bind-IsTotal,
  lift_bind-IsTotal, lift-IsTotal, tool_step-IsTotal,
}
use agent_roi_console.Paths.React.{
  ReactState, agent_node, answer_of, called, function_of, name_text, arguments_text, call_content,
  calls_of, run_calls, tools_node, assistant_message,
}

-- The function of a call is an object or missing, its name is a text or missing, and its arguments
-- are a text, missing or empty.
pub record IsCall (call : Value) : Type 0 where
  pub function : Fields
  pub has_function : function_of call ≡ done function
  pub has_name : is_crash (name_text (get "name" function)) ≡ false
  pub has_arguments : is_crash (arguments_text (get "arguments" function)) ≡ false

elements-items_of : (vs : List Value) → elements (items_of vs) ≡ vs
elements-items_of [] = refl
elements-items_of (v ∷ vs) = ap (◌∷◌ v) (elements-items_of vs)

module _ {F W : Type 0} (services : Services F W) (ctx : Context) (agent : AgentSettings) where
  answer_of-is_crash :
      (p : Result Fields × Trail F W)
      → is_crash p.0 ≡ false
      → is_crash (answer_of services ctx agent p).0 ≡ false
  unfolding answer_of
  answer_of-is_crash (done output, s) h = refl
  answer_of-is_crash (stops e, s) h = refl
  answer_of-is_crash (crashes, s) h = h

  called-IsTotal :
      (step_id : String) (function : Fields) (args : Option Fields)
      → is_crash (name_text (get "name" function)) ≡ false
      → IsTotal (called services ctx agent step_id function args)
  unfolding called
  called-IsTotal step_id function none h = lift-IsTotal (done _) refl
  called-IsTotal step_id function (some args) h =
      lift_bind-IsTotal (name_text (get "name" function)) _ h
        (λ name e s. answer_of-is_crash _ (tool_step-IsTotal services ctx step_id name args s))

  call_content-IsTotal :
      (step_id : String) (call : Value)
      → IsCall call
      → IsTotal (call_content services ctx agent step_id call)
  unfolding call_content
  call_content-IsTotal step_id call h =
      lift_bind-IsTotal (function_of call) _ (rw h.has_function refl) (λ function e.
        let same = done_injective h.function function (sym h.has_function ∙ e) in
        lift_bind-IsTotal (arguments_text (get "arguments" function)) _
          (subst (λ f. is_crash (arguments_text (get "arguments" f)) ≡ false) same h.has_arguments)
          (λ text u.
            called-IsTotal step_id function _
              (subst (λ f. is_crash (name_text (get "name" f)) ≡ false) same h.has_name)))

  run_calls-IsTotal :
      (turn index : ℕ) (calls : List Value)
      → All IsCall calls
      → IsTotal (run_calls services ctx agent turn index calls)
  unfolding run_calls
  run_calls-IsTotal turn index [] h = lift-IsTotal (done []) refl
  run_calls-IsTotal turn index (call ∷ calls) h =
      bind-IsTotal _ _ (call_content-IsTotal _ call h.0) (λ content.
        bind-IsTotal _ _ (run_calls-IsTotal turn (suc index) calls h.1)
          (λ rest. lift-IsTotal (done _) refl))

  pub tools_node-IsTotal :
      (state : ReactState)
      → All IsCall (calls_of services ctx agent state.messages)
      → IsTotal (tools_node services ctx agent state)
  unfolding tools_node
  tools_node-IsTotal state h =
      bind-IsTotal _ _ (run_calls-IsTotal _ _ _ h) (λ answers. lift-IsTotal (done _) refl)

  -- Only the last message counts.
  calls_of-append :
      (ms : List Value) (m : Value)
      → calls_of services ctx agent (ms ++ m ∷ []) ≡ calls_of services ctx agent (m ∷ [])
  calls_of-append [] m = refl
  calls_of-append (k ∷ []) m = refl
  calls_of-append (k ∷ j ∷ ms) m = calls_of-append (j ∷ ms) m

  calls_of-assistant_message :
      (content : Option String) (calls : List Value)
      → calls_of services ctx agent (assistant_message content calls ∷ []) ≡ calls
  unfolding get
  calls_of-assistant_message content [] = refl
  calls_of-assistant_message content (c ∷ cs) = elements-items_of (c ∷ cs)

  -- Every reply of the gateway has only such calls.
  abbrev pub HasCalls : Type 0
  HasCalls =
      (c : Chat) (world : W) (r : LlmResult F)
      → (services.chat c world).0 ≡ Answer.returns r
      → All IsCall r.tool_calls

  answered-Gives :
      (c : Chat) (a : Answer LlmCallError (LlmResult F)) (s : Trail F W) (r : LlmResult F)
      → (answered c a s).0 ≡ done r
      → a ≡ Answer.returns r
  unfolding answered
  answered-Gives c (Answer.returns q) s r e = ap Answer.returns (done_injective q r e)
  answered-Gives c (Answer.raises x) s r e = absurd (ground arith)

  llm_step-Gives :
      (step_id step_class : String) (messages : List Value) (max_tokens : ℕ)
      (tools : Option (List Value)) (o_json : Bool)
      → HasCalls
      → Gives
          (λ r. All IsCall r.tool_calls)
          (llm_step services ctx step_id step_class messages max_tokens tools o_json)
  unfolding llm_step
  llm_step-Gives step_id step_class messages max_tokens tools o_json h s r e =
      let c = chat_of ctx step_id step_class messages max_tokens tools o_json in
      h c s.world r (answered-Gives c (services.chat c s.world).0 _ r e)

  pub agent_node-Gives :
      (tools : List Value) (state : ReactState)
      → HasCalls
      → Gives
          (λ next. All IsCall (calls_of services ctx agent next.messages))
          (agent_node services ctx agent tools state)
  unfolding agent_node
  agent_node-Gives tools state h s next e =
      elim (Bool-cases (ltb agent.max_iterations (suc state.turn))) [
        | inl l ↦ absurd (not_done _ s next (rw l at e))
        | inr l ↦
            bind_given-Gives (λ r. All IsCall r.tool_calls)
              (λ next. All IsCall (calls_of services ctx agent next.messages)) _ _
              (llm_step-Gives _ _ _ _ _ _ h)
              (λ r cs.
                done-Gives (λ next. All IsCall (calls_of services ctx agent next.messages)) _
                  (subst (All IsCall)
                    (sym (
                      calls_of-append state.messages (assistant_message r.content r.tool_calls)
                      ∙ calls_of-assistant_message r.content r.tool_calls))
                    cs))
              s next (rw l at e)
      ]
