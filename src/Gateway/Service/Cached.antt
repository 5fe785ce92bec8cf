-- ===== src/Gateway/Service/Cached.antt =====
-- The caches of `complete`: the exact cache of gateway/cache.py, the semantic one behind its
-- interface, and `_serve_cached`.
use agent_roi_console.Common.{
  Bool, true, false, List, [], ◌∷◌, String, Option, none, some, str_eq, join, map, if◌then◌else◌,
}
use agent_roi_console.Common.Dict.{Dict}
use agent_roi_console.Float.{Float, float}
use agent_roi_console.Gateway.Store
use agent_roi_console.Gateway.Calls.{truncate}
use agent_roi_console.Gateway.Planning.{Message, Request, StepClass, Step, done, crashes, or_empty}
use agent_roi_console.Gateway.Service.{
  CacheKind, exact, semantic, row_ok, Completion, SemanticLookup, GatewayDeps, Moments, Gateway,
  Run, ◌>>=◌, lift, on_memory, persisted, row_of,
}

-- `f"{m.get('role')}"`
abbrev pub or_none_text : Option String → String
or_none_text none = "None"
or_none_text (some t) = t

abbrev pub prompt_line : Message → String
prompt_line m = join (or_none_text m.role ∷ ": " ∷ or_empty m.content ∷ [])

abbrev pub lines_after : List String → List String
lines_after [] = []
lines_after (l ∷ ls) = "\n" ∷ l ∷ lines_after ls

abbrev pub join_lines : List String → String
join_lines [] = ""
join_lines (l ∷ ls) = join (l ∷ lines_after ls)

unfoldable pub prompt_text : List Message → String
prompt_text ms = join_lines (map prompt_line ms)

abbrev pub map_some :
    {F : Type 0} → CacheKind → Option (Completion F) → Option (CacheKind × Completion F)
map_some kind none = none
map_some kind (some c) = some (kind, c)

module _ {F S : Type 0} ⦃fl : Float F⦄ (deps : GatewayDeps F S) (at : Moments F) where
  -- `json.loads(value) if value else None`
  unfoldable pub decoded : Option String → Step F (Option (Completion F))
  decoded none = done none
  decoded (some t) =
      if str_eq t ""
      then done none
      else elim (deps.codec.loads t) [ none ↦ crashes | some c ↦ done (some c) ]

  -- `ExactCache.get`
  unfoldable pub exact_get : Run F S (Option (Completion F))
  unfolding decoded
  exact_get = do
    value ← on_memory (λ m. let (t, m') = Store.get at.cache_read at.cache_key m in (some t, m'))
    lift (decoded value)

  -- `ExactCache.put`
  unfoldable pub exact_put : Completion F → Gateway F S → Gateway F S
  exact_put c s = record s {
    memory = Store.set at.cache_written at.cache_key (deps.codec.dumps c) deps.cache_ttl_s s.memory;
  }

  -- The semantic cache, if `o_semantic`.
  unfoldable pub semantic_for : Bool → Option (StepClass F) → Option (SemanticLookup F S)
  semantic_for false definition = none
  semantic_for true none = none
  semantic_for true (some c) = if c.cacheable then deps.semantic_cache else none

  unfoldable pub semantic_get :
      Option (SemanticLookup F S) → Request → String → Run F S (Option (CacheKind × Completion F))
  semantic_get none r step_class = λ s. (done none, s)
  semantic_get (some cache) r step_class = λ s. (
    done (map_some semantic (cache.find (prompt_text r.messages) step_class r.model s.semantic)),
    s,
  )

  unfoldable pub or_semantic :
      Option (SemanticLookup F S)
      → Request
      → String
      → Option (Completion F)
      → Run F S (Option (CacheKind × Completion F))
  unfolding semantic_get
  or_semantic cache r step_class none = semantic_get cache r step_class
  or_semantic cache r step_class (some c) = lift (done (some (exact, c)))

  -- What either cache has, with the kind of the hit.
  unfoldable pub cached :
      Bool
      → Option (SemanticLookup F S)
      → Request
      → String
      → Run F S (Option (CacheKind × Completion F))
  unfolding or_semantic
  cached false cache r step_class = lift (done none)
  cached true cache r step_class = do found ← exact_get; or_semantic cache r step_class found

  -- The response that `_serve_cached` makes of a cached one.
  unfoldable pub recalled : CacheKind → Completion F → Completion F
  recalled kind c =
      let details = c.x_roi in
      record c {
        id = join ("chatcmpl-" ∷ truncate 24 at.request_id ∷ []);
        x_roi = record details {
          request_id = at.request_id;
          cost_usd = float 0;
          cache = kind;
          fallback_depth = 0;
          attempts = [];
        };
      }

  -- `_serve_cached`
  unfoldable pub serve_cached : Dict String → CacheKind → Completion F → Run F S (Completion F)
  unfolding recalled
  serve_cached d kind c =
      persisted deps
        (row_of at d c.x_roi.model c.x_roi.provider c.prompt_tokens c.completion_tokens (float 0)
          kind 0 row_ok none)
        (done (recalled kind c))
