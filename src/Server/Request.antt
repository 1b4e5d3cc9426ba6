-- ===== src/Server/Request.antt =====
-- python/src/edge0/server/chat.py: the data of a request, `_template_tool_calls` and
-- `parse_chat_request`. What `str` gives for a value that is not a string, and `json.loads`, are
-- parameters; `raw`, which keeps the payload, is left out.
pub mod Laws
use edge.Base.{ℕ, List, [], ◌∷◌, ◌++◌, Option, none, some, Bool, true, false, if◌then◌else◌}
use edge.Server.Text.{Text, codes, same}
use edge.Server.Json.{
  Json, Items, Fields, null, boolean, number, text, array, object, no_items, item, no_fields, field,
  get, get_or_none, set_field, as_object, as_array, truthy,
}

-- The exceptions that the parser raises: a ValueError, which the routes answer, or a TypeError.
pub data Parsed {ℓ} (A : Type ℓ) : Type ℓ where
  parsed : A → Parsed A
  value_error : Parsed A
  type_error : Parsed A

unfoldable pub and_then {ℓ κ} : {A : Type ℓ} {B : Type κ} → Parsed A → (A → Parsed B) → Parsed B
and_then (parsed a) f = f a
and_then value_error f = value_error
and_then type_error f = type_error

pub record Python (N : Type 0) : Type 0 where
  pub nonzero : N → Bool
  pub str_of : Json N → Text
  pub loads : Text → Option (Json N)

pub record ChatMessage (N : Type 0) : Type 0 where
  pub role : Text
  pub content : Text
  pub tool_calls : Option (Items N)
  pub tool_call_id : Json N
  pub name : Json N

pub record ChatRequest (N : Type 0) : Type 0 where
  pub model : Text
  pub messages : List (ChatMessage N)
  pub temperature : Json N
  pub top_p : Json N
  pub top_k : Json N
  pub max_tokens : Json N
  pub seed : Json N
  pub stream : Bool
  pub enable_thinking : Json N
  pub tools : Json N
  pub tool_choice : Json N

module _ {N : Type 0} where
  unfoldable pub object_or_error : Json N → Parsed (Fields N)
  unfolding as_object
  object_or_error v = elim (as_object v) [ none ↦ value_error | some d ↦ parsed d ]

  -- `v is None`
  unfoldable pub is_null : Json N → Bool
  is_null null = true
  is_null (boolean b) = false
  is_null (number n) = false
  is_null (text t) = false
  is_null (array items) = false
  is_null (object d) = false

module _ {N : Type 0} (py : Python N) where
  -- `str(v)`
  unfoldable pub str : Json N → Text
  str (text t) = t
  str null = py.str_of null
  str (boolean b) = py.str_of (boolean b)
  str (number n) = py.str_of (number n)
  str (array items) = py.str_of (array items)
  str (object d) = py.str_of (object d)

  -- The arguments of a call as an object; a missing key reads as `{}`, and a string is decoded.
  unfoldable pub arguments_object : Option (Json N) → Parsed (Fields N)
  unfolding object_or_error
  arguments_object none = parsed no_fields
  arguments_object (some (text t)) = elim (py.loads t) [
    | none ↦ value_error
    | some v ↦ object_or_error v
  ]
  arguments_object (some null) = value_error
  arguments_object (some (boolean b)) = value_error
  arguments_object (some (number n)) = value_error
  arguments_object (some (array items)) = value_error
  arguments_object (some (object d)) = parsed d

  -- `{**call, "function": {**function, "arguments": arguments}}`
  unfoldable pub with_arguments : (call function arguments : Fields N) → Json N
  unfolding set_field
  with_arguments call function arguments = object (
      set_field (codes "function")
        (object (set_field (codes "arguments") (object arguments) function)) call)

  unfoldable pub template_function : (call : Fields N) → Option (Fields N) → Parsed (Json N)
  unfolding and_then arguments_object get with_arguments
  template_function call none = value_error
  template_function call (some function) =
      and_then (arguments_object (get (codes "arguments") function))
        (λ arguments. parsed (with_arguments call function arguments))

  unfoldable pub template_call : Option (Fields N) → Parsed (Json N)
  unfolding template_function as_object get_or_none
  template_call none = value_error
  template_call (some call) =
      template_function call (as_object (get_or_none (codes "function") call))

  unfoldable pub template_items : Items N → Parsed (Items N)
  unfolding and_then template_call as_object
  template_items no_items = parsed no_items
  template_items (item call calls) =
      let rest = template_items calls in
      and_then (template_call (as_object call)) (λ c. and_then rest (λ cs. parsed (item c cs)))

  -- `_template_tool_calls`
  unfoldable pub template_tool_calls : Json N → Parsed (Option (Items N))
  unfolding and_then template_items
  template_tool_calls null = parsed none
  template_tool_calls (array items) = and_then (template_items items) (λ cs. parsed (some cs))
  template_tool_calls (boolean b) = value_error
  template_tool_calls (number n) = value_error
  template_tool_calls (text t) = value_error
  template_tool_calls (object d) = value_error

  -- `p.get("text", "")` of a part, which `join` takes only if it is a string.
  unfoldable pub part_text : Option (Json N) → Parsed Text
  part_text none = parsed []
  part_text (some (text t)) = parsed t
  part_text (some null) = type_error
  part_text (some (boolean b)) = type_error
  part_text (some (number n)) = type_error
  part_text (some (array items)) = type_error
  part_text (some (object d)) = type_error

  unfoldable pub part_of : Option (Fields N) → Parsed Text
  unfolding part_text get
  part_of none = parsed []
  part_of (some p) = part_text (get (codes "text") p)

  -- `"".join(p.get("text", "") for p in content if isinstance(p, dict))`
  unfoldable pub join_parts : Items N → Parsed Text
  unfolding and_then part_of as_object
  join_parts no_items = parsed []
  join_parts (item p ps) =
      let rest = join_parts ps in
      and_then (part_of (as_object p)) (λ t. and_then rest (λ ts. parsed (t ++ ts)))

  unfoldable pub content_of : Json N → Parsed Text
  unfolding truthy str join_parts as_array
  content_of v =
      if truthy py.nonzero v
      then elim (as_array v) [ none ↦ parsed (str v) | some parts ↦ join_parts parts ]
      else parsed []

  unfoldable pub role_of : Option (Json N) → Text
  unfolding str same
  role_of none = codes "user"
  role_of (some v) = if same (str v) (codes "developer") then codes "system" else str v

  unfoldable pub parse_message : Fields N → Parsed (ChatMessage N)
  unfolding and_then content_of template_tool_calls role_of get get_or_none
  parse_message m = and_then (content_of (get_or_none (codes "content") m)) (λ content.
      and_then (template_tool_calls (get_or_none (codes "tool_calls") m)) (λ calls. parsed (record {
        role = role_of (get (codes "role") m);
        content = content;
        tool_calls = calls;
        tool_call_id = get_or_none (codes "tool_call_id") m;
        name = get_or_none (codes "name") m;
      })))

  unfoldable pub parse_messages : List (Fields N) → Parsed (List (ChatMessage N))
  unfolding and_then parse_message
  parse_messages [] = parsed []
  parse_messages (m ∷ ms) =
      let rest = parse_messages ms in
      and_then (parse_message m) (λ msg. and_then rest (λ msgs. parsed (msg ∷ msgs)))

  -- The messages as objects, if each is one.
  unfoldable pub all_objects : Items N → Option (List (Fields N))
  unfolding as_object
  all_objects no_items = some []
  all_objects (item m ms) =
      let rest = all_objects ms in
      elim (as_object m) [
        | none ↦ none
        | some d ↦ elim rest [ none ↦ none | some ds ↦ some (d ∷ ds) ]
      ]

  -- `payload.get("messages", [])` as a list of objects.
  unfoldable pub message_objects : Option (Json N) → Parsed (List (Fields N))
  unfolding all_objects as_array
  message_objects none = parsed []
  message_objects (some v) = elim (as_array v) [
    | none ↦ value_error
    | some ms ↦ elim (all_objects ms) [ none ↦ value_error | some ds ↦ parsed ds ]
  ]

  unfoldable pub request_of : Fields N → List (ChatMessage N) → ChatRequest N
  unfolding get get_or_none truthy str is_null
  request_of payload msgs =
      let completion = get_or_none (codes "max_completion_tokens") payload in
      record {
        model = elim (get (codes "model") payload) [ none ↦ [] | some v ↦ str v ];
        messages = msgs;
        temperature = get_or_none (codes "temperature") payload;
        top_p = get_or_none (codes "top_p") payload;
        top_k = get_or_none (codes "top_k") payload;
        max_tokens =
            if is_null completion then get_or_none (codes "max_tokens") payload else completion;
        seed = get_or_none (codes "seed") payload;
        stream = truthy py.nonzero (get_or_none (codes "stream") payload);
        enable_thinking = get_or_none (codes "enable_thinking") payload;
        tools = get_or_none (codes "tools") payload;
        tool_choice = get_or_none (codes "tool_choice") payload;
      }

  unfoldable pub parse_object : Fields N → Parsed (ChatRequest N)
  unfolding and_then message_objects parse_messages request_of get
  parse_object payload =
      and_then (message_objects (get (codes "messages") payload))
        (λ ms. and_then (parse_messages ms) (λ msgs. parsed (request_of payload msgs)))

  unfoldable pub parse_chat_request : Json N → Parsed (ChatRequest N)
  unfolding and_then object_or_error parse_object
  parse_chat_request payload = and_then (object_or_error payload) parse_object
