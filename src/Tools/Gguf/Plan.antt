-- ===== src/Tools/Gguf/Plan.antt =====
-- windows/tools/repack_mlx_to_gguf.py: `classify`, which decides how each tensor of the checkpoint is
-- stored, and `tensor_shape`. The index is a dictionary. What raises is `none`; the reason of a skip is
-- always the same and left out.
pub mod Accounted
pub mod Shaped
use edge.Base.{
  ℕ, ◌+◌, ◌*◌, ◌/◌, ◌==◌, List, [], ◌∷◌, ◌++◌, Option, none, some, Bool, true, false, ◌&&◌, ◌||◌,
  if◌then◌else◌, ltb, leb,
}
use edge.Server.Text.{Text, codes, same, cut}
use edge.Registry.{find}
use edge.Adapters.{without, comes_first}

pub record Info : Type 0 where
  pub dtype : Text
  pub shape : List ℕ

abbrev pub StIndex : Type 0
StIndex = List (Text × Info)

pub data PlanKind : Type 0 where
  kind_q41 : PlanKind
  kind_f32i8 : PlanKind
  kind_f16 : PlanKind
  kind_f32 : PlanKind

unfoldable pub kind_text : PlanKind → Text
kind_text kind_q41 = codes "q41"
kind_text kind_f32i8 = codes "f32i8"
kind_text kind_f16 = codes "f16"
kind_text kind_f32 = codes "f32"

pub record Planned : Type 0 where
  pub kind : PlanKind
  pub weight_name : Text
  pub base : Text

-- What the loop of `classify` does with a tensor.
pub data Verdict : Type 0 where
  passed_over : Verdict
  skipped : Verdict
  planned : Planned → Verdict

unfoldable pub endswith : Text → Text → Bool
unfolding without
endswith suffix name = elim (without suffix name) [ none ↦ false | some t ↦ true ]

-- The letters A to Z in lower case.
unfoldable pub lower : Text → Text
lower [] = []
lower (c ∷ t) = (if leb 65 c && leb c 90 then c + 32 else c) ∷ lower t

unfoldable pub occurs : Text → Text → Bool
unfolding cut
occurs word t = elim (cut word t) [ none ↦ false | some found ↦ true ]

-- `re.search(r"lora|pregate|prerouter|mtp", name, re.I)`
unfoldable pub is_external : Text → Bool
unfolding occurs lower
is_external name =
    let t = lower name in
    occurs (codes "lora") t
    || (occurs (codes "pregate") t || (occurs (codes "prerouter") t || occurs (codes "mtp") t))

-- `name[:-7] if name.endswith(".weight") else name`
unfoldable pub base_of : Text → Text
unfolding without
base_of name = elim (without (codes ".weight") name) [ none ↦ name | some base ↦ base ]

-- `shape[-1]`
unfoldable pub last_axis : List ℕ → Option ℕ
last_axis [] = none
last_axis (n ∷ []) = some n
last_axis (n ∷ m ∷ ns) = last_axis (m ∷ ns)

-- `shape[:-1]`
unfoldable pub lead_axes : List ℕ → List ℕ
lead_axes [] = []
lead_axes (n ∷ []) = []
lead_axes (n ∷ m ∷ ns) = n ∷ lead_axes (m ∷ ns)

unfoldable pub prod : List ℕ → ℕ
prod [] = 1
prod (n ∷ ns) = n * prod ns

unfoldable pub reversed_onto : List ℕ → List ℕ → List ℕ
reversed_onto [] acc = acc
reversed_onto (n ∷ ns) acc = reversed_onto ns (n ∷ acc)

-- What `tensor_shape` gives; `k` is `None` for tensors that are not quantized.
pub record Shape : Type 0 where
  pub tt : ℕ
  pub dims_ne : List ℕ
  pub size_bytes : ℕ
  pub k : Option ℕ

-- The order of `sorted(plan)`: by kind, then by name.
unfoldable pub insert_planned : Planned → List Planned → List Planned
unfolding kind_text same comes_first
insert_planned p [] = p ∷ []
insert_planned p (q ∷ plan) =
    let rest = insert_planned p plan in
    let first =
      if same (kind_text p.kind) (kind_text q.kind)
      then comes_first p.weight_name q.weight_name
      else comes_first (kind_text p.kind) (kind_text q.kind) in
    if first then p ∷ q ∷ plan else q ∷ rest

unfoldable pub insert_text : Text → List Text → List Text
unfolding comes_first
insert_text t [] = t ∷ []
insert_text t (u ∷ us) =
    let rest = insert_text t us in if comes_first t u then t ∷ u ∷ us else u ∷ rest

-- A tensor joins the plan or what is skipped, both kept in order.
unfoldable pub add_verdict : Text → Verdict → List Planned × List Text → List Planned × List Text
unfolding insert_planned insert_text
add_verdict name passed_over (plan, left_out) = (plan, left_out)
add_verdict name skipped (plan, left_out) = (plan, insert_text name left_out)
add_verdict name (planned p) (plan, left_out) = (insert_planned p plan, left_out)

unfoldable pub keys_of : List (Text × Info) → List Text
keys_of [] = []
keys_of ((name, info) ∷ rest) = name ∷ keys_of rest

module _ (idx : StIndex) where
  -- The last axes of a tensor and of its scales, if both are there.
  unfoldable pub group_axes : Info → (base : Text) → Option (ℕ × ℕ)
  unfolding find last_axis
  group_axes info base = elim (find (base ++ codes ".scales") idx) [
    | none ↦ none
    | some scales ↦ elim (last_axis scales.shape) [
      | none ↦ none
      | some g ↦ elim (last_axis info.shape) [ none ↦ none | some words ↦ some (g, words) ]
    ]
  ]

  unfoldable pub quantized : (name base : Text) → Info → Option Verdict
  unfolding group_axes
  quantized name base info = elim (group_axes info base) [
    | none ↦ none
    | some (g, words) ↦
        if g * 64 == words * 8
        then some (planned (record { kind = kind_q41; weight_name = name; base = base }))
        else if g * 64 == words * 4
        then some (planned (record { kind = kind_f32i8; weight_name = name; base = base }))
        else none
  ]

  unfoldable pub by_dtype : (name base : Text) → Info → Option Verdict
  unfolding same quantized
  by_dtype name base info =
      if same info.dtype (codes "U32")
      then quantized name base info
      else if same info.dtype (codes "F16")
      then some (planned (record { kind = kind_f16; weight_name = name; base = base }))
      else if same info.dtype (codes "BF16") || same info.dtype (codes "F32")
      then some (planned (record { kind = kind_f32; weight_name = name; base = base }))
      else none

  unfoldable pub verdict : Text → Option Verdict
  unfolding endswith is_external find by_dtype base_of
  verdict name =
      if endswith (codes ".scales") name || endswith (codes ".biases") name
      then some passed_over
      else if is_external name
      then some skipped
      else elim (find name idx) [ none ↦ none | some info ↦ by_dtype name (base_of name) info ]

  -- `classify` over the names of the index: the plan, and what is skipped.
  unfoldable pub classify_names : List Text → Option (List Planned × List Text)
  unfolding verdict add_verdict
  classify_names [] = some ([], [])
  classify_names (name ∷ names) = elim (verdict name) [
    | none ↦ none
    | some v ↦ elim (classify_names names) [
      | none ↦ none
      | some sorted ↦ some (add_verdict name v sorted)
    ]
  ]

  unfoldable pub classify : Option (List Planned × List Text)
  unfolding keys_of classify_names
  classify = classify_names (keys_of idx)

  -- The shape of a quantized tensor with `per_word` codes in a word, if its scales fit.
  unfoldable pub quantized_shape :
      (tt per_word : ℕ) → (bytes_of : ℕ → ℕ) → Info → (base : Text) → Option Shape
  unfolding group_axes lead_axes prod reversed_onto
  quantized_shape tt per_word bytes_of info base = elim (group_axes info base) [
    | none ↦ none
    | some (g, words) ↦
        let k = words * per_word in
        let lead = lead_axes info.shape in
        if g * 64 == k
        then some (record {
          tt = tt;
          dims_ne = k ∷ reversed_onto lead [];
          size_bytes = prod lead * bytes_of k;
          k = some k;
        })
        else none
  ]

  unfoldable pub shape_of : PlanKind → (base : Text) → Info → Option Shape
  unfolding quantized_shape
  shape_of kind_f16 base info = some (record {
    tt = 1;
    dims_ne = reversed_onto info.shape [];
    size_bytes = prod info.shape * 2;
    k = none;
  })
  shape_of kind_f32 base info = some (record {
    tt = 0;
    dims_ne = reversed_onto info.shape [];
    size_bytes = prod info.shape * 4;
    k = none;
  })
  shape_of kind_q41 base info = quantized_shape 3 8 (λ k. k / 32 * 20) info base
  shape_of kind_f32i8 base info = quantized_shape 0 4 (λ k. k * 4) info base

  unfoldable pub tensor_shape : PlanKind → (name base : Text) → Option Shape
  unfolding find shape_of
  tensor_shape kind name base = elim (find name idx) [
    | none ↦ none
    | some info ↦ shape_of kind base info
  ]
