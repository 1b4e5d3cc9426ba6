-- ===== src/Server/ToolCalls.antt =====
-- python/src/edge0/server/tool_calls.py: the tool calls in a generated text, in both dialects. The
-- regular expressions are written out as functions from a text to what they match and what follows;
-- `json.loads` with the constants rejected, `json.dumps` and the random identifiers are parameters.
pub mod Split
pub mod Ling
pub mod RoundTrip
pub mod Enough
use edge.Base.{
  ℕ, zero, suc, ◌+◌, List, [], ◌∷◌, ◌++◌, Option, none, some, Bool, true, false, not, length,
  if◌then◌else◌, ◌==◌,
}
use edge.Server.Text.{Text, codes, same, startswith, literal, lstrip, strip, lazy, cut}
use edge.Server.Json.{
  Json, Items, Fields, no_items, item, no_fields, field, text, get_or_none, as_object, as_array,
  is_text,
}

-- One argument as the block writes it, in the order of the keys, each once.
abbrev pub RawArgs : Type 0
RawArgs = List (Text × Text)

-- `args[key] = value`
unfoldable pub set_arg {ℓ} : {V : Type ℓ} → Text → V → List (Text × V) → List (Text × V)
unfolding same
set_arg key v [] = (key, v) ∷ []
set_arg key v ((k, w) ∷ args) =
    let rest = set_arg key v args in if same k key then (k, v) ∷ args else (k, w) ∷ rest

-- `[^c]+`: the longest text without `c`, which must not be empty, and what follows it.
unfoldable pub until : ℕ → Text → Text × Text
until c [] = ([], [])
until c (x ∷ s) = let (a, r) = until c s in if x == c then ([], x ∷ s) else (x ∷ a, r)

unfoldable pub some_text : Text × Text → Option (Text × Text)
some_text ([], r) = none
some_text (c ∷ a, r) = some (c ∷ a, r)

unfoldable pub until_some : ℕ → Text → Option (Text × Text)
unfolding until some_text
until_some c s = some_text (until c s)

module _ (is_space : ℕ → Bool) where
  -- `\s*<arg_value>(.*?)</arg_value>`
  unfoldable pub ling_value : Text → Option (Text × Text)
  unfolding literal lstrip cut
  ling_value s = elim (literal (codes "<arg_value>") (lstrip is_space s)) [
    | none ↦ none
    | some r ↦ cut (codes "</arg_value>") r
  ]

  -- `</arg_key>` and the value behind it
  unfoldable pub ling_key_end : Text → Option (Text × Text)
  unfolding literal ling_value
  ling_key_end s = elim (literal (codes "</arg_key>") s) [ none ↦ none | some r ↦ ling_value r ]

  -- `_LING_ARG` at this place: the key, the value, and what follows.
  unfoldable pub ling_arg : Text → Option (Text × (Text × Text))
  unfolding literal lazy ling_key_end
  ling_arg s = elim (literal (codes "<arg_key>") s) [ none ↦ none | some r ↦ lazy ling_key_end r ]

-- `>\n(.*?)\n</parameter>`
unfoldable pub qwen_value : Text → Option (Text × Text)
unfolding literal cut
qwen_value s = elim (literal (codes ">\n") s) [
  | none ↦ none
  | some r ↦ cut (codes "\n</parameter>") r
]

unfoldable pub qwen_key : Option (Text × Text) → Option (Text × (Text × Text))
unfolding qwen_value
qwen_key none = none
qwen_key (some (key, s)) = elim (qwen_value s) [ none ↦ none | some vr ↦ some (key, vr) ]

-- `_QWEN_PARAM` at this place; 62 is `>`.
unfoldable pub qwen_param : Text → Option (Text × (Text × Text))
unfolding literal until_some qwen_key
qwen_param s = elim (literal (codes "<parameter=") s) [
  | none ↦ none
  | some r ↦ qwen_key (until_some 62 r)
]

-- A match of a pattern at a place: the two groups and what follows.
abbrev pub Pattern : Type 0
Pattern = Text → Option (Text × (Text × Text))

module _ (is_space : ℕ → Bool) where
  unfoldable pub is_blank : Text → Bool
  unfolding strip
  is_blank s = elim (strip is_space s) [ [] ↦ true | c ∷ t ↦ false ]

  -- `_parse_arguments`, with the arguments read so far; the first number bounds the loop.
  unfoldable pub arguments_from : ℕ → Pattern → Text → RawArgs → Option RawArgs
  unfolding lazy is_blank strip set_arg
  arguments_from zero pattern s args = none
  arguments_from (suc fuel) pattern s args = elim (lazy pattern s) [
    | none ↦ if is_blank s then some args else none
    | some (between, (key, (value, after))) ↦
        let rest = arguments_from fuel pattern after (set_arg (strip is_space key) value args) in
        if is_blank between then if is_blank key then none else rest else none
  ]

  -- Every match takes at least one character, so the length bounds the loop.
  unfoldable pub parse_arguments : Text → Pattern → Option RawArgs
  unfolding arguments_from
  parse_arguments s pattern = arguments_from (suc (length s)) pattern s []

  unfoldable pub named : (name : Text) → Option RawArgs → Option (Text × RawArgs)
  unfolding is_blank strip
  named name none = none
  named name (some args) = if is_blank name then none else some (strip is_space name, args)

  -- 60 is `<`.
  unfoldable pub parse_ling_block : Text → Option (Text × RawArgs)
  unfolding until_some named parse_arguments ling_arg
  parse_ling_block body = elim (until_some 60 body) [
    | none ↦ none
    | some (name, rest) ↦ named name (parse_arguments rest (ling_arg is_space))
  ]

  -- `\s*</function>\s*` up to the end of the text.
  unfoldable pub function_end : Text → Option Text
  unfolding literal lstrip is_blank
  function_end s = elim (literal (codes "</function>") (lstrip is_space s)) [
    | none ↦ none
    | some r ↦ if is_blank r then some r else none
  ]

  -- `_QWEN_FUNCTION.fullmatch` after `<function=`: the name and the parameters.
  unfoldable pub function_rest : Option (Text × Text) → Option (Text × Text)
  unfolding literal lstrip lazy function_end
  function_rest none = none
  function_rest (some (name, s)) = elim (literal (codes ">") s) [
    | none ↦ none
    | some r ↦ elim (lazy function_end (lstrip is_space r)) [
      | none ↦ none
      | some (params, end) ↦ some (name, params)
    ]
  ]

  unfoldable pub qwen_function : Text → Option (Text × Text)
  unfolding literal lstrip until_some function_rest
  qwen_function body = elim (literal (codes "<function=") (lstrip is_space body)) [
    | none ↦ none
    | some r ↦ function_rest (until_some 62 r)
  ]

  unfoldable pub parse_qwen_block : Text → Option (Text × RawArgs)
  unfolding qwen_function named parse_arguments qwen_param
  parse_qwen_block body = elim (qwen_function body) [
    | none ↦ none
    | some (name, params) ↦ named name (parse_arguments params qwen_param)
  ]

-- `_TOOL_CALL_BLOCK` at this place: the body and what follows.
unfoldable pub tool_call_block : Text → Option (Text × Text)
unfolding literal cut
tool_call_block s = elim (literal (codes "<tool_call>") s) [
  | none ↦ none
  | some r ↦ cut (codes "</tool_call>") r
]
