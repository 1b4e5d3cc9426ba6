-- ===== src/Server/ToolCalls/Split.antt =====
-- `_string_parameters`, `_coerce`, `_to_openai` and `_split` of python/src/edge0/server/tool_calls.py,
-- with its two entry points. The random identifier of a call is left out.
use edge.Base.{
  ℕ, zero, suc, List, [], ◌∷◌, ◌++◌, Option, none, some, Bool, true, false, length, if◌then◌else◌,
}
use edge.Server.Text.{Text, codes, same, strip, lazy}
use edge.Server.Json.{
  Json, Items, Fields, no_items, item, no_fields, field, text, get_or_none, as_object, as_array,
  is_text,
}
use edge.Server.ToolCalls.{RawArgs, tool_call_block, parse_ling_block, parse_qwen_block, is_blank}

-- `json.loads` that rejects the constants of JavaScript, and `json.dumps` of a dictionary.
pub record JsonText (N : Type 0) : Type 0 where
  pub loads : Text → Option (Json N)
  pub dumps : List (Text × Json N) → Text

pub record Call : Type 0 where
  pub name : Text
  pub arguments : Text

unfoldable pub member : Text → List Text → Bool
unfolding same
member t [] = false
member t (s ∷ ss) = let rest = member t ss in if same s t then true else rest

module _ {N : Type 0} where
  unfoldable pub is_string_schema : Json N → Bool
  unfolding as_object is_text get_or_none
  is_string_schema schema = elim (as_object schema) [
    | none ↦ false
    | some d ↦ is_text (codes "string") (get_or_none (codes "type") d)
  ]

  unfoldable pub string_keys : Fields N → List Text
  unfolding is_string_schema
  string_keys no_fields = []
  string_keys (field key schema rest) =
      let keys = string_keys rest in if is_string_schema schema then key ∷ keys else keys

  unfoldable pub properties_of : Fields N → Option (Fields N)
  unfolding as_object get_or_none
  properties_of function = elim (as_object (get_or_none (codes "parameters") function)) [
    | none ↦ none
    | some parameters ↦ as_object (get_or_none (codes "properties") parameters)
  ]

  -- The function that an entry of the tools declares.
  unfoldable pub function_of : Json N → Option (Fields N)
  unfolding as_object get_or_none
  function_of tool = elim (as_object tool) [
    | none ↦ none
    | some t ↦ as_object (get_or_none (codes "function") t)
  ]

  unfoldable pub declared_strings : Items N → (name : Text) → List Text
  unfolding function_of is_text get_or_none properties_of string_keys
  declared_strings no_items name = []
  declared_strings (item tool rest) name =
      let later = declared_strings rest name in
      elim (function_of tool) [
        | none ↦ later
        | some f ↦
            if is_text name (get_or_none (codes "name") f)
            then elim (properties_of f) [ none ↦ [] | some d ↦ string_keys d ]
            else later
      ]

  -- `_string_parameters`
  unfoldable pub string_parameters : (tools : Json N) → (name : Text) → List Text
  unfolding as_array declared_strings
  string_parameters tools name = elim (as_array tools) [
    | none ↦ []
    | some items ↦ declared_strings items name
  ]

module _ {N : Type 0} (json : JsonText N) (is_space : ℕ → Bool) where
  -- `_coerce`
  unfoldable pub coerce : Text → Json N
  coerce raw = elim (json.loads raw) [ none ↦ text raw | some v ↦ v ]

  unfoldable pub coerce_args : (strings : List Text) → RawArgs → List (Text × Json N)
  unfolding member coerce
  coerce_args strings [] = []
  coerce_args strings ((key, raw) ∷ args) =
      (key, if member key strings then text raw else coerce raw) ∷ coerce_args strings args

  -- What `_split` makes of a parsed block, with `_to_openai`.
  unfoldable pub call_of : (tools : Json N) → Text × RawArgs → Call
  unfolding strip string_parameters coerce_args
  call_of tools (name, raw_args) = record {
    name = strip is_space name;
    arguments = json.dumps (coerce_args (string_parameters tools (strip is_space name)) raw_args);
  }

  module _ (parse_block : Text → Option (Text × RawArgs)) (tools : Json N) where
    -- One block: left in the content if it cannot be parsed, a call otherwise.
    unfoldable pub add_block : (before body : Text) → Text × List Call → Text × List Call
    unfolding call_of
    add_block before body (content, calls) = elim (parse_block body) [
      | none ↦
          (before ++ (codes "<tool_call>" ++ (body ++ (codes "</tool_call>" ++ content))), calls)
      | some parsed ↦ (before ++ content, call_of tools parsed ∷ calls)
    ]

    -- The loop of `_split`: the content that is left, and the calls. The number bounds the loop.
    unfoldable pub split_from : ℕ → Text → Text × List Call
    unfolding lazy tool_call_block add_block
    split_from zero s = (s, [])
    split_from (suc fuel) s = elim (lazy tool_call_block s) [
      | none ↦ (s, [])
      | some (before, (body, after)) ↦ add_block before body (split_from fuel after)
    ]

    unfoldable pub finish_split : Text × List Call → Option Text × List Call
    unfolding strip is_blank
    finish_split (content, []) = (some (strip is_space content), [])
    finish_split (content, call ∷ calls) =
        (if is_blank is_space content then none else some (strip is_space content), call ∷ calls)

    -- `_split`. Every match takes at least one character, so the length bounds the loop.
    unfoldable pub split : Text → Option Text × List Call
    unfolding split_from finish_split
    split s = finish_split (split_from (suc (length s)) s)

  unfoldable pub parse_ling_tool_calls : Text → (tools : Json N) → Option Text × List Call
  unfolding split parse_ling_block
  parse_ling_tool_calls s tools = split (parse_ling_block is_space) tools s

  unfoldable pub parse_qwen_tool_calls : Text → (tools : Json N) → Option Text × List Call
  unfolding split parse_qwen_block
  parse_qwen_tool_calls s tools = split (parse_qwen_block is_space) tools s
