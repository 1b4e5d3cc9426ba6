-- ===== src/Layer/Build/Exact.antt =====
-- Whether `_build` reads an expert from the checkpoint or from the hot stack, it gives the same tensors.
use edge.Base.{
  ℕ, suc, ◌+◌, ◌*◌, ◌/◌, ◌<◌, ◌≤◌, ◌≡◌, refl, List, [], ◌∷◌, ◌++◌, Option, none, some, true, length,
  drop, contains, AllBelow, arith, length-take, length-drop, length-append, length-replicate,
  take-append, drop-add-append, ==_iff, ◌==◌, Bool-cases, fun_ext, append_assoc, ◌∙◌, inl, inr,
}
use native.Mathlib.Nat.{div-mul-le_self, mul-div_cancel_left, zero-mul, suc-mul, add_comm}
use edge.Layer.State.{Proj, gate_proj, up_proj, down_proj, gate_up_proj, Part, Config, HotBacking}
use edge.Layer.Build.{
  slice, read_rows, bundle_bytes, build_cold, hot_bytes, concat_rows, zero_row, index_of, build_hot,
  build, stack_hot,
}

module _ {T F : Type 0} (c : Config T F) where
  -- Gate and up projections are stored at the same size.
  abbrev pub IsPaired : Type 0
  IsPaired = (part : Part) → length (c.raw gate_proj part) ≡ length (c.raw up_proj part)

  pub hot_bytes-eq :
      IsPaired
      → (proj : Proj) (part : Part) (e : ℕ) → hot_bytes c proj part e ≡ bundle_bytes c proj part e
  unfolding hot_bytes bundle_bytes read_rows
  hot_bytes-eq h gate_up_proj part e = rw (h part)
  hot_bytes-eq h gate_proj part e = refl
  hot_bytes-eq h up_proj part e = refl
  hot_bytes-eq h down_proj part e = refl

  row_fits : (n e : ℕ) → e < c.num_experts → e * (n / c.num_experts) + n / c.num_experts ≤ n
  row_fits n e h = grind (arith, div-mul-le_self n c.num_experts)

  length-read_rows :
      (proj : Proj) (part : Part) (e : ℕ)
      → e < c.num_experts
      → length (read_rows c proj part e) ≡ length (c.raw proj part) / c.num_experts
  unfolding read_rows
  length-read_rows proj part e h =
      let raw = c.raw proj part in
      let per = length raw / c.num_experts in
      omega (
        arith,
        length-take per (drop (e * per) raw),
        length-drop (e * per) raw,
        row_fits (length raw) e h,
      )

  -- The number of bytes of every expert in a bundle.
  unfoldable pub row_size : Proj → Part → ℕ
  row_size gate_up_proj part =
      length (c.raw gate_proj part) / c.num_experts + length (c.raw up_proj part) / c.num_experts
  row_size gate_proj part = length (c.raw gate_proj part) / c.num_experts
  row_size up_proj part = length (c.raw up_proj part) / c.num_experts
  row_size down_proj part = length (c.raw down_proj part) / c.num_experts

  length-bundle_bytes :
      (proj : Proj) (part : Part) (e : ℕ)
      → e < c.num_experts
      → length (bundle_bytes c proj part e) ≡ row_size proj part
  unfolding bundle_bytes row_size
  length-bundle_bytes gate_up_proj part e h = omega (
    arith,
    length-append (read_rows c gate_proj part e) (read_rows c up_proj part e),
    length-read_rows gate_proj part e h,
    length-read_rows up_proj part e h,
  )
  length-bundle_bytes gate_proj part e h = length-read_rows gate_proj part e h
  length-bundle_bytes up_proj part e h = length-read_rows up_proj part e h
  length-bundle_bytes down_proj part e h = length-read_rows down_proj part e h

  module _ (paired : IsPaired) (proj : Proj) (part : Part) where
    pub length-hot_bytes :
        (e : ℕ) → e < c.num_experts → length (hot_bytes c proj part e) ≡ row_size proj part
    length-hot_bytes e h = rw (hot_bytes-eq paired proj part e) (length-bundle_bytes proj part e h)

    pub length-concat_rows :
        (hot : List ℕ)
        → AllBelow c.num_experts hot
        → length (concat_rows c hot proj part) ≡ length hot * row_size proj part
    unfolding concat_rows
    length-concat_rows [] h = omega arith
    length-concat_rows (e ∷ es) h = grind (
      arith,
      length-append (hot_bytes c proj part e) (concat_rows c es proj part),
      length-hot_bytes e h.0,
      length-concat_rows es h.1,
    )

    pub length-zero_row :
        (e : ℕ) (es : List ℕ)
        → e < c.num_experts
        → length (zero_row c (e ∷ es) proj part) ≡ row_size proj part
    unfolding zero_row
    length-zero_row e es h = length-replicate _ 0 ∙ length-hot_bytes e h

    pub slice-concat_rows :
        (e : ℕ) (hot tail : List ℕ)
        → AllBelow c.num_experts hot
        → contains e hot ≡ true
        → slice (row_size proj part) (index_of e hot) (concat_rows c hot proj part ++ tail)
          ≡ hot_bytes c proj part e
    unfolding concat_rows index_of contains
    slice-concat_rows e [] tail h m = absurd (ground arith)
    slice-concat_rows e (x ∷ xs) tail h m =
        let w = row_size proj part in
        let first = hot_bytes c proj part x in
        let rest = concat_rows c xs proj part in
        let size = length-hot_bytes x h.0 in
        elim (Bool-cases (x == e)) [
          | inl same ↦
              rw (same, append_assoc, (==_iff x e).0 same)
                (rw zero-mul
                  (take-append w (hot_bytes c proj part e) _ (rw ((==_iff x e).0 same) at size)))
          | inr other ↦
              rw (other, append_assoc, suc-mul, add_comm _ w)
                (rw (drop-add-append w (index_of e xs * w) first (rest ++ tail) size)
                  (slice-concat_rows e xs tail h.1 (ground arith)))
        ]

    -- The size of a hot stack tells the size of its rows.
    pub stack_hot-row_size :
        (e : ℕ) (es : List ℕ)
        → AllBelow c.num_experts (e ∷ es)
        → length ((stack_hot c (e ∷ es)).rows proj part) / (length (e ∷ es) + 1)
          ≡ row_size proj part
    unfolding stack_hot
    stack_hot-row_size e es h =
        let w = row_size proj part in
        let total : length (concat_rows c (e ∷ es) proj part ++ zero_row c (e ∷ es) proj part)
            ≡ (suc (length es) + 1) * w =
          grind (
            arith,
            length-append (concat_rows c (e ∷ es) proj part) (zero_row c (e ∷ es) proj part),
            length-concat_rows (e ∷ es) h,
            length-zero_row e es h.0,
          ) in
        rw total (mul-div_cancel_left w (omega arith))

    slice-stack_hot :
        (e : ℕ) (hot : List ℕ)
        → AllBelow c.num_experts hot
        → contains e hot ≡ true
        → slice
            (length ((stack_hot c hot).rows proj part) / (length hot + 1))
            (index_of e hot)
            ((stack_hot c hot).rows proj part)
          ≡ hot_bytes c proj part e
    unfolding stack_hot contains
    slice-stack_hot e [] h m = absurd (ground arith)
    slice-stack_hot e (x ∷ xs) h m =
        rw (stack_hot-row_size x xs h) (slice-concat_rows e (x ∷ xs) _ h m)

  pub build_hot-eq :
      IsPaired
      → (hot : List ℕ) (e : ℕ) → AllBelow c.num_experts hot
      → contains e hot ≡ true
      → build_hot c (stack_hot c hot) e ≡ build_cold c e
  unfolding build_hot build_cold stack_hot
  build_hot-eq paired hot e h m = fun_ext (λ proj.
      fun_ext
        (λ part. rw (slice-stack_hot paired proj part e hot h m, hot_bytes-eq paired proj part e)))

  -- The hot stack that a layer may have: none, or one that `stack_hot` filled.
  pub data IsBacking : Option HotBacking → Type 0 where
    no_backing : IsBacking none
    backed : (hot : List ℕ) → AllBelow c.num_experts hot → IsBacking (some (stack_hot c hot))

  -- Whether an expert is read from the checkpoint or sliced from the hot stack, its tensors are
  -- those of the checkpoint.
  pub build-eq-cold :
      IsPaired
      → (backing : Option HotBacking) (e : ℕ) → IsBacking backing
      → build c backing e ≡ build_cold c e
  unfolding build stack_hot
  build-eq-cold paired backing e no_backing = refl
  build-eq-cold paired backing e (backed hot h) = elim (Bool-cases (contains e hot)) [
    | inl hit ↦ rw hit (build_hot-eq paired hot e h hit)
    | inr miss ↦ rw miss refl
  ]
