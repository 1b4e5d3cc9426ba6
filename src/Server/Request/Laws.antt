-- ===== src/Server/Request/Laws.antt =====
-- What the parser of requests guarantees.
use edge.Base.{List, [], ◌∷◌, Option, none, some, false, ◌≡◌, refl, ap, ◌∙◌, arith, Bool-cases}
use edge.Server.Text.{Text, codes, same}
use edge.Server.Text.Laws.{same_self}
use edge.Server.Json.{
  Json, Items, Fields, null, boolean, number, text, array, object, no_items, item, no_fields, field,
  get, get_or_none, set_field, as_object,
}
use edge.Server.Request.{
  Python, Parsed, parsed, value_error, type_error, and_then, ChatMessage, with_arguments,
  template_function, template_call, template_items, template_tool_calls, arguments_object, role_of,
  parse_message, parse_messages, parse_object, request_of, parse_chat_request, str, content_of,
  message_objects, object_or_error,
}

-- What holds of the value, if there is one.
abbrev pub OnParsed {ℓ} : {A : Type ℓ} → (A → Type 0) → Parsed A → Type 0
OnParsed P (parsed a) = P a
OnParsed P value_error = Unit
OnParsed P type_error = Unit

and_then-OnParsed {ℓ κ} :
    {A : Type ℓ} {B : Type κ} (P : B → Type 0) (r : Parsed A) (f : A → Parsed B)
    → ((a : A) → r ≡ parsed a → OnParsed P (f a))
    → OnParsed P (and_then r f)
unfolding and_then
and_then-OnParsed P (parsed a) f h = h a refl
and_then-OnParsed P value_error f h = tt
and_then-OnParsed P type_error f h = tt

and_then-both {ℓ κ} :
    {A : Type ℓ} {B : Type κ} (Q : A → Type 0) (P : B → Type 0) (r : Parsed A) (f : A → Parsed B)
    → OnParsed Q r
    → ((a : A) → Q a → OnParsed P (f a))
    → OnParsed P (and_then r f)
unfolding and_then
and_then-both Q P (parsed a) f q h = h a q
and_then-both Q P value_error f q h = tt
and_then-both Q P type_error f q h = tt

-- The other way: what a sequence gives was given by its parts.
and_then-parsed {ℓ κ} :
    {A : Type ℓ} {B : Type κ} (r : Parsed A) (f : A → Parsed B) (b : B)
    → and_then r f ≡ parsed b
    → (a : A) × (r ≡ parsed a) × (f a ≡ parsed b)
unfolding and_then
and_then-parsed (parsed a) f b h = (a, refl, h)
and_then-parsed value_error f b h = absurd (ground arith)
and_then-parsed type_error f b h = absurd (ground arith)

module _ {N : Type 0} where
  get-set_field : (k : Text) (v : Json N) (d : Fields N) → get k (set_field k v d) ≡ some v
  unfolding get set_field
  get-set_field k v no_fields = rw (same_self k) refl
  get-set_field k v (field j w d) = ground (arith, get-set_field k v d, same_self k)

  set_field-set_field :
      (k : Text) (v : Json N) (d : Fields N) → set_field k v (set_field k v d) ≡ set_field k v d
  unfolding set_field
  set_field-set_field k v no_fields = rw (same_self k) refl
  set_field-set_field k v (field j w d) = ground (arith, set_field-set_field k v d)

module _ {N : Type 0} (py : Python N) where
  -- A message has no role that the templates do not have.
  abbrev pub NoDeveloper : List (ChatMessage N) → Type 0
  NoDeveloper [] = Unit
  NoDeveloper (m ∷ ms) = (same m.role (codes "developer") ≡ false) × NoDeveloper ms

  role_of-developer : (o : Option (Json N)) → same (role_of py o) (codes "developer") ≡ false
  unfolding role_of same
  role_of-developer none = refl
  role_of-developer (some v) = ground (arith, Bool-cases (same (str py v) (codes "developer")))

  parse_message-role :
      (m : Fields N)
      → OnParsed (λ msg. same msg.role (codes "developer") ≡ false) (parse_message py m)
  unfolding parse_message
  parse_message-role m =
      and_then-OnParsed _ (content_of py (get_or_none (codes "content") m)) _ (λ c e.
        and_then-OnParsed _ (template_tool_calls py (get_or_none (codes "tool_calls") m)) _
          (λ t e'. role_of-developer (get (codes "role") m)))

  parse_messages-NoDeveloper : (ms : List (Fields N)) → OnParsed NoDeveloper (parse_messages py ms)
  unfolding parse_messages
  parse_messages-NoDeveloper [] = tt
  parse_messages-NoDeveloper (m ∷ ms) =
      and_then-both _ NoDeveloper (parse_message py m) _ (parse_message-role m) (λ msg h.
        and_then-both NoDeveloper NoDeveloper (parse_messages py ms) _
          (parse_messages-NoDeveloper ms) (λ msgs hs. (h, hs)))

  -- No message of a parsed request has the role `developer`, which no checkpoint template knows.
  pub parse_chat_request-NoDeveloper :
      (payload : Json N)
      → OnParsed (λ req. NoDeveloper req.messages) (parse_chat_request py payload)
  unfolding parse_chat_request parse_object request_of
  parse_chat_request-NoDeveloper payload = and_then-OnParsed _ (object_or_error payload) _ (λ d e.
      and_then-OnParsed _ (message_objects py (get (codes "messages") d)) _ (λ ms e'.
        and_then-both NoDeveloper _ (parse_messages py ms) _ (parse_messages-NoDeveloper ms)
          (λ msgs h. h)))

  -- A call with an object for its arguments, both in their places, is already in normal form.
  template_call-fixed :
      (call function args : Fields N)
      → get (codes "function") call ≡ some (object function)
      → get (codes "arguments") function ≡ some (object args)
      → template_call py (some call) ≡ parsed (with_arguments py call function args)
  unfolding template_call template_function get_or_none and_then arguments_object as_object
  template_call-fixed call function args ef ea =
      ap (λ o. template_function py call (as_object (elim o [ none ↦ null | some v ↦ v ]))) ef
      ∙ ap (λ o. and_then (arguments_object py o) (λ a. parsed (with_arguments py call function a)))
          ea

  template_call_again :
      (call function args : Fields N)
      → template_call py (as_object (with_arguments py call function args))
        ≡ parsed (with_arguments py call function args)
  unfolding with_arguments as_object
  template_call_again call function args =
      let f = set_field (codes "arguments") (object args) function in
      let c = set_field (codes "function") (object f) call in
      template_call-fixed c f args (get-set_field (codes "function") (object f) call)
        (get-set_field (codes "arguments") (object args) function)
      ∙ ap (λ g. parsed (object (set_field (codes "function") (object g) c)))
          (set_field-set_field (codes "arguments") (object args) function)
      ∙ ap (λ d. parsed (object d)) (set_field-set_field (codes "function") (object f) call)

  -- A call that was given by the normal form is in normal form.
  abbrev IsNormal : Json N → Type 0
  IsNormal c = template_call py (as_object c) ≡ parsed c

  template_function-IsNormal :
      (call : Fields N) (o : Option (Fields N)) → OnParsed IsNormal (template_function py call o)
  unfolding template_function
  template_function-IsNormal call none = tt
  template_function-IsNormal call (some function) =
      and_then-OnParsed IsNormal (arguments_object py (get (codes "arguments") function)) _
        (λ args e. template_call_again call function args)

  template_call-IsNormal : (o : Option (Fields N)) → OnParsed IsNormal (template_call py o)
  unfolding template_call
  template_call-IsNormal none = tt
  template_call-IsNormal (some call) =
      template_function-IsNormal call (as_object (get_or_none (codes "function") call))

  abbrev AreNormal : Items N → Type 0
  AreNormal cs = template_items py cs ≡ parsed cs

  template_items-AreNormal : (cs : Items N) → OnParsed AreNormal (template_items py cs)
  unfolding template_items and_then
  template_items-AreNormal no_items = refl
  template_items-AreNormal (item c cs) =
      and_then-both IsNormal AreNormal (template_call py (as_object c)) _
        (template_call-IsNormal (as_object c))
        (λ d h.
          and_then-both AreNormal AreNormal (template_items py cs) _ (template_items-AreNormal cs)
            (λ ds hs.
              ap
                (λ r.
                  and_then r (λ c'. and_then (template_items py ds) (λ cs'. parsed (item c' cs'))))
                h
              ∙ ap (λ r. and_then r (λ cs'. parsed (item d cs'))) hs))

  -- The calls that `_template_tool_calls` gives are a fixed point of it.
  abbrev pub IsFixed : Option (Items N) → Type 0
  IsFixed none = Unit
  IsFixed (some cs) = template_tool_calls py (array cs) ≡ parsed (some cs)

  -- Normalizing tool calls is idempotent: the calls it gives are a list that it leaves as it is.
  pub template_tool_calls-IsFixed :
      (calls : Json N) → OnParsed IsFixed (template_tool_calls py calls)
  unfolding template_tool_calls and_then
  template_tool_calls-IsFixed null = tt
  template_tool_calls-IsFixed (array items) =
      and_then-both AreNormal IsFixed (template_items py items) _ (template_items-AreNormal items)
        (λ cs h. ap (λ r. and_then r (λ cs'. parsed (some cs'))) h)
  template_tool_calls-IsFixed (boolean b) = tt
  template_tool_calls-IsFixed (number n) = tt
  template_tool_calls-IsFixed (text t) = tt
  template_tool_calls-IsFixed (object d) = tt
