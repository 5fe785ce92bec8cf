-- ===== src/Gateway/Streaming.antt =====
-- `stream_chunks` of gateway/schemas.py: a completion as the chunks that a streaming client gets.
use agent_roi_console.Common.{
  ℕ, suc, ◌≡◌, refl, ap, sym, ◌∙◌, map, append_text, List, [], ◌∷◌, ◌++◌, String, Option, none,
  some, str_eq, eq_iff, Bool-cases, inl, inr, if◌then◌else◌,
}
use agent_roi_console.Gateway.Service.{Completion, RoiDetails}

pub record Usage : Type 0 where
  pub prompt_tokens : ℕ
  pub completion_tokens : ℕ
  pub total_tokens : ℕ

pub data Delta : Type 0 where
  role : String → Delta
  -- content and tool calls, numbered, where they are there
  said : Option String → List (ℕ × String) → Delta
  nothing : Delta

pub record Chunk (F : Type 0) : Type 0 where
  pub id : String
  pub model : String
  pub delta : Delta
  pub finish_reason : Option String
  pub usage : Option Usage
  pub x_roi : Option (RoiDetails F)

-- `if message.get("content")`
abbrev pub if_said : Option String → Option String
if_said none = none
if_said (some t) = if str_eq t "" then none else some t

-- `enumerate`, from a first index
abbrev pub numbered : ℕ → List String → List (ℕ × String)
numbered n [] = []
numbered n (c ∷ cs) = (n, c) ∷ numbered (suc n) cs

module _ {F : Type 0} where
  unfoldable pub stream_chunks : Completion F → List (Chunk F)
  stream_chunks c =
      record {
        id = c.id;
        model = c.model;
        delta = role "assistant";
        finish_reason = none;
        usage = none;
        x_roi = none;
      }
      ∷ record {
        id = c.id;
        model = c.model;
        delta = said (if_said c.content) (numbered 0 c.tool_calls);
        finish_reason = none;
        usage = none;
        x_roi = none;
      }
      ∷ record {
        id = c.id;
        model = c.model;
        delta = nothing;
        finish_reason = some c.finish_reason;
        usage = some (record {
          prompt_tokens = c.prompt_tokens;
          completion_tokens = c.completion_tokens;
          total_tokens = c.total_tokens;
        });
        x_roi = some c.x_roi;
      }
      ∷ []

-- What a client hears in the chunks: the content, the tool calls in order, and the last reason.
abbrev pub content_of : Delta → String
content_of (role r) = ""
content_of (said none cs) = ""
content_of (said (some t) cs) = t
content_of nothing = ""

abbrev pub calls_of : Delta → List String
calls_of (role r) = []
calls_of (said t cs) = map (λ c. c.1) cs
calls_of nothing = []

abbrev pub heard_content : {F : Type 0} → List (Chunk F) → String
heard_content [] = ""
heard_content (k ∷ ks) = append_text (content_of k.delta) (heard_content ks)

abbrev pub heard_calls : {F : Type 0} → List (Chunk F) → List String
heard_calls [] = []
heard_calls (k ∷ ks) = calls_of k.delta ++ heard_calls ks

abbrev pub or_empty_text : Option String → String
or_empty_text none = ""
or_empty_text (some t) = t

append_text-empty : (t : String) → append_text t "" ≡ t
append_text-empty String.[] = refl
append_text-empty (String.◌∷◌ c t) = ap (String.◌∷◌ c) (append_text-empty t)

map-numbered : (n : ℕ) (cs : List String) → map (λ c. c.1) (numbered n cs) ≡ cs
map-numbered n [] = refl
map-numbered n (c ∷ cs) = ap (◌∷◌ c) (map-numbered (suc n) cs)

append-nil : (cs : List String) → cs ++ [] ≡ cs
append-nil [] = refl
append-nil (c ∷ cs) = ap (◌∷◌ c) (append-nil cs)

heard-if_said :
    (t : Option String) (cs : List (ℕ × String))
    → append_text (content_of (said (if_said t) cs)) "" ≡ or_empty_text t
heard-if_said none cs = refl
heard-if_said (some t) cs = elim (Bool-cases (str_eq t "")) [
  | inl e ↦ rw e (sym ((eq_iff t "").0 e))
  | inr e ↦ rw e (append_text-empty t)
]

-- A client that streams hears the content of the completion, or the empty text where it has none,
-- and its tool calls in their order.
pub stream_chunks-heard :
    {F : Type 0} (c : Completion F)
    → (heard_content (stream_chunks c) ≡ or_empty_text c.content)
      × (heard_calls (stream_chunks c) ≡ c.tool_calls)
unfolding stream_chunks
stream_chunks-heard c =
    (heard-if_said c.content (numbered 0 c.tool_calls), append-nil _ ∙ map-numbered 0 c.tool_calls)
