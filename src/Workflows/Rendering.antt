-- ===== src/Workflows/Rendering.antt =====
-- workflows/templating.py: templates in the arguments and prompts of steps. Jinja itself is a
-- parameter: what it makes of an expression and of a template, with the failures that the code tells
-- apart.
use agent_roi_console.Common.{◌-◌, Bool, not, ◌&&◌, String, append_text, size, leb, if◌then◌else◌}
use agent_roi_console.Common.Text.{strip, starts_with, ends_with, has_text, take_text, drop_text}
use agent_roi_console.Json.{Value, Items, Fields}

-- What a call of Jinja ends with. An exception of another class goes through.
pub data Jinja (A : Type 0) : Type 0 where
  evaluates : A → Jinja A
  undefined : Jinja A
  template_error : String → Jinja A
  shape_error : String → Jinja A
  other_error : Jinja A

pub record Templates : Type 0 where
  -- `compile_expression` and the call of what it returns
  pub evaluate : String → Fields → Jinja Value
  -- `from_string` and `render`
  pub render : String → Fields → Jinja String

-- A value, a TemplateRenderError, or an exception that is none.
pub data Rendered (A : Type 0) : Type 0 where
  rendered : A → Rendered A
  render_error : String → Rendered A
  escapes : Rendered A

module _ {A B : Type 0} where
  abbrev pub bind : Rendered A → (A → Rendered B) → Rendered B
  bind (rendered a) f = f a
  bind (render_error e) f = render_error e
  bind escapes f = escapes

module _ {A : Type 0} where
  abbrev caught : String → Jinja A → Rendered A
  caught template (evaluates a) = rendered a
  caught template undefined = render_error (append_text "undefined value in template: " template)
  caught template (template_error e) = render_error (append_text "template failed: " e)
  caught template (shape_error e) = render_error (append_text "template failed on value shape: " e)
  caught template other_error = escapes

-- A match of SINGLE_EXPRESSION_RE; its group is the text between the braces.
unfoldable pub is_expression : String → Bool
unfolding strip starts_with ends_with
is_expression template =
    let t = strip template in leb 4 (size t) && starts_with "{{" t && ends_with "}}" t

unfoldable pub expression_of : String → String
unfolding strip take_text drop_text
expression_of template = let t = drop_text 2 (strip template) in take_text (size t - 2) t

unfoldable pub render_string : Templates → String → Fields → Rendered Value
unfolding is_expression expression_of has_text strip
render_string jinja template context =
    let inner = expression_of template in
    if is_expression template && not (has_text "{{" inner) && not (has_text "{%" template)
    then caught template (jinja.evaluate (strip inner) context)
    else bind (caught template (jinja.render template context)) (λ s. rendered (Value.text s))

unfoldable mutual
  unfolding render_string

  pub render_value : Templates → Fields → Value → Rendered Value
  render_value jinja context (Value.text s) = render_string jinja s context
  render_value jinja context (Value.dict d) =
      bind (render_fields jinja context d) (λ e. rendered (Value.dict e))
  render_value jinja context (Value.list vs) =
      bind (render_items jinja context vs) (λ ws. rendered (Value.list ws))
  render_value jinja context Value.null = rendered Value.null
  render_value jinja context (Value.boolean b) = rendered (Value.boolean b)
  render_value jinja context (Value.number n) = rendered (Value.number n)

  pub render_items : Templates → Fields → Items → Rendered Items
  render_items jinja context Items.nil = rendered Items.nil
  render_items jinja context (Items.cons v vs) =
      bind (render_value jinja context v)
        (λ w. bind (render_items jinja context vs) (λ ws. rendered (Items.cons w ws)))

  pub render_fields : Templates → Fields → Fields → Rendered Fields
  render_fields jinja context Fields.empty = rendered Fields.empty
  render_fields jinja context (Fields.field k v d) =
      bind (render_value jinja context v)
        (λ w. bind (render_fields jinja context d) (λ e. rendered (Fields.field k w e)))
