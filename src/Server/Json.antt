-- ===== src/Server/Json.antt =====
-- The values that `json.loads` gives, as python/src/edge0/server reads them. Numbers and their truth are
-- parameters: a JSON number may be an `int` or a `float`.
use edge.Base.{[], ◌∷◌, Option, none, some, Bool, true, false, if◌then◌else◌}
use edge.Server.Text.{Text, same}

mutual
  -- A JSON value; `items` and `fields` keep the order of the document, and a key occurs once.
  pub data Json (N : Type 0) : Type 0 where
    null : Json N
    boolean : Bool → Json N
    number : N → Json N
    text : Text → Json N
    array : Items N → Json N
    object : Fields N → Json N

  pub data Items (N : Type 0) : Type 0 where
    no_items : Items N
    item : Json N → Items N → Items N

  pub data Fields (N : Type 0) : Type 0 where
    no_fields : Fields N
    field : Text → Json N → Fields N → Fields N

module _ {N : Type 0} where
  -- `d.get(key)`: `none` for a missing key.
  unfoldable pub get : Text → Fields N → Option (Json N)
  unfolding same
  get key no_fields = none
  get key (field k v rest) = let r = get key rest in if same k key then some v else r

  -- `d.get(key)` where a missing key and a null are told apart no further.
  unfoldable pub get_or_none : Text → Fields N → Json N
  unfolding get
  get_or_none key d = elim (get key d) [ none ↦ null | some v ↦ v ]

  -- `{**d, key: value}`
  unfoldable pub set_field : Text → Json N → Fields N → Fields N
  unfolding same
  set_field key v no_fields = field key v no_fields
  set_field key v (field k w rest) =
      let r = set_field key v rest in if same k key then field k v rest else field k w r

  -- `isinstance(v, dict)`
  unfoldable pub as_object : Json N → Option (Fields N)
  as_object null = none
  as_object (boolean b) = none
  as_object (number n) = none
  as_object (text t) = none
  as_object (array items) = none
  as_object (object d) = some d

  -- `isinstance(v, list)`
  unfoldable pub as_array : Json N → Option (Items N)
  as_array null = none
  as_array (boolean b) = none
  as_array (number n) = none
  as_array (text t) = none
  as_array (array items) = some items
  as_array (object d) = none

  -- `v == t` for a string `t`
  unfoldable pub is_text : Text → Json N → Bool
  unfolding same
  is_text t null = false
  is_text t (boolean b) = false
  is_text t (number n) = false
  is_text t (text s) = same s t
  is_text t (array items) = false
  is_text t (object d) = false

  -- `bool(v)`
  unfoldable pub truthy : (N → Bool) → Json N → Bool
  truthy nonzero null = false
  truthy nonzero (boolean b) = b
  truthy nonzero (number n) = nonzero n
  truthy nonzero (text []) = false
  truthy nonzero (text (c ∷ s)) = true
  truthy nonzero (array no_items) = false
  truthy nonzero (array (item x xs)) = true
  truthy nonzero (object no_fields) = false
  truthy nonzero (object (field k v d)) = true
