-- ===== src/Registry.antt =====
-- python/src/edge0/registry.py: the models by name, and how a name is found for a checkpoint. The
-- `config.json` of a directory is a parameter, decoded or not; `A` is the type of adapters, and what they
-- build is theirs. An exception is `none`, of whichever class.
pub mod Resolved
use edge.Base.{ℕ, List, [], ◌∷◌, ◌++◌, Option, none, some, Bool, true, false, if◌then◌else◌}
use edge.Server.Text.{Text, codes, same}
use edge.Server.Json.{
  Json, Items, Fields, null, text, array, no_items, item, get_or_none, as_object, truthy, is_text,
}
use edge.Server.Request.{Python, str}

abbrev pub Names : Type 0 → Type 0
Names A = List (Text × A)

unfoldable pub find {ℓ} : {A : Type ℓ} → Text → List (Text × A) → Option A
unfolding same
find key [] = none
find key ((k, a) ∷ names) = let rest = find key names in if same k key then some a else rest

-- `TYPE_ALIASES`
abbrev pub type_aliases : Names Text
type_aliases =
    (codes "qwen3_5_moe_text", codes "edge0-35b")
    ∷ (codes "qwen3_5_moe", codes "edge0-35b")
    ∷ (codes "bailing_hybrid", codes "edge0-8b")
    ∷ (codes "bailing_moe_linear", codes "edge0-8b")
    ∷ (codes "BailingMoeV3ForCausalLM", codes "edge0-8b")
    ∷ []

-- `register_model`: a name that is registered raises.
unfoldable pub register_model : {A : Type 0} → Text → A → Names A → Option (Names A)
unfolding find
register_model name adapter registry = elim (find name registry) [
  | none ↦ some (registry ++ (name, adapter) ∷ [])
  | some _ ↦ none
]

-- What `from_pretrained` knows of a checkpoint: the basename of its directory, and its `config.json` if
-- there is one that can be decoded.
pub record Directory (N : Type 0) : Type 0 where
  pub basename : Text
  pub config_json : Option (Json N)

unfoldable pub or_text : Text → Text → Text
or_text [] other = other
or_text (c ∷ t) other = c ∷ t

module _ {N : Type 0} (py : Python N) where
  -- `str(archs[0])` of a list that is not empty.
  unfoldable pub first_architecture : Json N → Text
  unfolding str
  first_architecture (array (item a rest)) = str py a
  -- The first character of a string; other values raise.
  first_architecture (text []) = []
  first_architecture (text (c ∷ t)) = c ∷ []
  first_architecture v = []

  -- `str(cfg.get("model_type", "") or "")`
  unfoldable pub model_type_of : Fields N → Text
  unfolding get_or_none truthy str
  model_type_of cfg =
      let v = get_or_none (codes "model_type") cfg in if truthy py.nonzero v then str py v else []

  -- The type that a decoded `config.json` names; empty if it names none, or raises on the way.
  unfoldable pub config_type : Option (Json N) → Text
  unfolding as_object or_text model_type_of first_architecture get_or_none
  config_type none = []
  config_type (some v) = elim (as_object v) [
    | none ↦ []
    | some cfg ↦
        or_text (model_type_of cfg) (first_architecture (get_or_none (codes "architectures") cfg))
  ]

  unfoldable pub known_basename : Text → Text
  unfolding same
  known_basename base = if same base (codes ".") then [] else base

  -- `_model_type_from_dir`
  unfoldable pub model_type_from_dir : Directory N → Text
  unfolding or_text config_type known_basename
  model_type_from_dir dir = or_text (config_type dir.config_json) (known_basename dir.basename)

  -- The key that `_resolve_name` looks up; the name goes first, and one that is empty counts as none.
  unfoldable pub key_of : Option (Directory N) → Option Text → Option Text
  unfolding model_type_from_dir
  key_of dir (some (c ∷ name)) = some (c ∷ name)
  key_of none (some []) = none
  key_of none none = none
  key_of (some dir) (some []) = some (model_type_from_dir dir)
  key_of (some dir) none = some (model_type_from_dir dir)

unfoldable pub resolve_key : {A : Type 0} → Names A → Names Text → Text → Option Text
unfolding find
resolve_key registry aliases key = elim (find key registry) [
  | some _ ↦ some key
  | none ↦ find key aliases
]

-- `_resolve_name`
unfoldable pub resolve_name :
    {N A : Type 0} → Python N → Names A → Option (Directory N) → Option Text → Option Text
unfolding key_of resolve_key
resolve_name py registry dir name = elim (key_of py dir name) [
  | none ↦ none
  | some key ↦ resolve_key registry type_aliases key
]

-- `MODEL_REGISTRY[key]` in the three `from_pretrained`.
unfoldable pub adapter_of :
    {N A : Type 0} → Python N → Names A → Option (Directory N) → Option Text → Option A
unfolding resolve_name find
adapter_of py registry dir name = elim (resolve_name py registry dir name) [
  | none ↦ none
  | some key ↦ find key registry
]

-- `demo_kwargs`, as far as the prerouter: whether it is given by the caller, and whether the tier is shown
-- without one; true if it is switched off.
unfoldable pub demo_switches_off : (given : Bool) → (demo_no_prerouter : Bool) → Bool
demo_switches_off true demo_no_prerouter = false
demo_switches_off false demo_no_prerouter = demo_no_prerouter
