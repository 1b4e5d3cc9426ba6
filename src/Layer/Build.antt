-- ===== src/Layer/Build.antt =====
-- python/src/edge0/streaming/layer.py: `_build`, which reads one expert's tensors, and the hot stack
-- that `load_hot_layer` copies.
pub mod Exact
use edge.Base.{
  ℕ, zero, suc, ◌+◌, ◌-◌, ◌*◌, ◌/◌, ◌<◌, ◌≤◌, ◌≡◌, refl, ap, sym, List, [], ◌∷◌, ◌++◌, Option, none,
  some, Bool, true, false, length, take, drop, replicate, contains, AllBelow, arith, length-take,
  length-drop, length-append, length-replicate, take-append, drop-add-append, ==_iff, ◌==◌,
  if◌then◌else◌, Bool-cases, fun_ext, append_assoc, min, ltb, ◌∙◌, contains-AllBelow, inl, inr,
}
use native.Mathlib.Nat.{div-mul-le_self, mul-div_cancel_left, zero-mul, suc-mul, add_comm}
use edge.Layer.State.{
  Proj, gate_proj, up_proj, down_proj, gate_up_proj, Part, Bundle, Config, HotBacking, Stores,
  has_proj,
}

-- `raw[e * per:(e + 1) * per]`
abbrev pub slice : ℕ → ℕ → List ℕ → List ℕ
slice per e raw = take per (drop (e * per) raw)

module _ {T F : Type 0} (c : Config T F) where
  -- The bytes of one expert in a stacked tensor of the checkpoint.
  unfoldable pub read_rows : Proj → Part → ℕ → List ℕ
  read_rows proj part expert =
      slice (length (c.raw proj part) / c.num_experts) expert (c.raw proj part)

  -- The bytes of one expert in a bundle: fused, the gate rows stand on top of the up rows.
  unfoldable pub bundle_bytes : Proj → Part → ℕ → List ℕ
  bundle_bytes gate_up_proj part expert =
      read_rows gate_proj part expert ++ read_rows up_proj part expert
  bundle_bytes gate_proj part expert = read_rows gate_proj part expert
  bundle_bytes up_proj part expert = read_rows up_proj part expert
  bundle_bytes down_proj part expert = read_rows down_proj part expert

  -- `_build` from the checkpoint.
  unfoldable pub build_cold : ℕ → Bundle T
  unfolding has_proj
  build_cold expert proj part =
      if has_proj c.fuse_gu proj
      then some (c.to_tensor proj part (bundle_bytes proj part expert))
      else none

  -- One expert's bytes as `load_hot_layer` cuts them: the gate's row size also for the up rows.
  unfoldable pub hot_bytes : Proj → Part → ℕ → List ℕ
  hot_bytes gate_up_proj part expert =
      let per = length (c.raw gate_proj part) / c.num_experts in
      slice per expert (c.raw gate_proj part) ++ slice per expert (c.raw up_proj part)
  hot_bytes gate_proj part expert = read_rows gate_proj part expert
  hot_bytes up_proj part expert = read_rows up_proj part expert
  hot_bytes down_proj part expert = read_rows down_proj part expert

  -- The rows of the hot stack: those of the hot experts in order.
  unfoldable pub concat_rows : List ℕ → Proj → Part → List ℕ
  concat_rows [] proj part = []
  concat_rows (e ∷ es) proj part = hot_bytes proj part e ++ concat_rows es proj part

  -- `np.zeros_like(rows[0])`
  unfoldable pub zero_row : List ℕ → Proj → Part → List ℕ
  zero_row [] proj part = []
  zero_row (e ∷ es) proj part = replicate (length (hot_bytes proj part e)) 0

-- `key.index(e)`
unfoldable pub index_of : ℕ → List ℕ → ℕ
index_of e [] = 0
index_of e (x ∷ xs) = if x == e then 0 else suc (index_of e xs)

module _ {T F : Type 0} (c : Config T F) where
  -- `_build` from the hot stack.
  unfoldable pub build_hot : HotBacking → ℕ → Bundle T
  unfolding has_proj
  build_hot h expert proj part =
      let buf = h.rows proj part in
      let per = length buf / (length h.key + 1) in
      if has_proj c.fuse_gu proj
      then some (c.to_tensor proj part (slice per (index_of expert h.key) buf))
      else none

  -- `_build`
  unfoldable pub build : Option HotBacking → ℕ → Bundle T
  build none expert = build_cold c expert
  build (some h) expert = if contains expert h.key then build_hot h expert else build_cold c expert

  -- The stack as `load_hot_layer` fills it for the hot experts.
  unfoldable pub stack_hot : List ℕ → HotBacking
  unfolding concat_rows zero_row
  stack_hot hot = record {
    key = hot;
    rows = λ proj part. concat_rows c hot proj part ++ zero_row c hot proj part;
  }
