-- ===== src/Tools/Gguf/Plan/Shaped.antt =====
-- Every tensor that `classify` plans has a shape for the writer.
use edge.Base.{
  ℕ, ◌*◌, ◌/◌, ◌%◌, ◌==◌, ◌≡◌, refl, sym, ap, subst, ◌∙◌, List, [], ◌∷◌, Option, none, some, ◌||◌,
  if◌then◌else◌, arith, Bool-cases, Option-cases, inl, inr, if_true, if_false,
}
use edge.Server.Text.{Text, codes, same}
use edge.Registry.{find}
use edge.Adapters.{comes_first}
use edge.Tools.Gguf.Plan.{
  Info, StIndex, PlanKind, kind_q41, kind_f32i8, kind_f16, kind_f32, kind_text, Planned, Verdict,
  passed_over, skipped, planned, endswith, is_external, base_of, lead_axes, prod, reversed_onto,
  group_axes, quantized, by_dtype, verdict, insert_planned, add_verdict, classify_names, keys_of,
  classify, Shape, quantized_shape, shape_of, tensor_shape,
}

-- The columns of a quantized tensor are whole groups of 64.
abbrev pub HasWholeGroups : Option ℕ → Type 0
HasWholeGroups none = Unit
HasWholeGroups (some k) = k % 64 ≡ 0

module _ (idx : StIndex) where
  abbrev pub IsShaped : Planned → Type 0
  IsShaped p =
      (s : Shape) × (tensor_shape idx p.kind p.weight_name p.base ≡ some s) × HasWholeGroups s.k

  abbrev pub AreShaped : List Planned → Type 0
  AreShaped [] = Unit
  AreShaped (p ∷ plan) = IsShaped p × AreShaped plan

  -- The tensor that a verdict plans.
  abbrev planned_or : Planned → Option Verdict → Planned
  planned_or q none = q
  planned_or q (some passed_over) = q
  planned_or q (some skipped) = q
  planned_or q (some (planned p)) = p

  IsShaped-planned : (q p : Planned) → some (planned q) ≡ some (planned p) → IsShaped q → IsShaped p
  IsShaped-planned q p e h = subst IsShaped (ap (planned_or q) e) h

  tensor_shape-found :
      (kind : PlanKind) (name base : Text) (info : Info)
      → find name idx ≡ some info
      → tensor_shape idx kind name base ≡ shape_of idx kind base info
  unfolding tensor_shape
  tensor_shape-found kind name base info found = rw (found, tensor_shape) refl

  quantized_shape-some :
      (type per_word : ℕ) (bytes_of : ℕ → ℕ) (info : Info) (base : Text) (g words : ℕ)
      → group_axes idx info base ≡ some (g, words)
      → g * 64 ≡ words * per_word
      → (s : Shape) × (quantized_shape idx type per_word bytes_of info base ≡ some s)
        × HasWholeGroups s.k
  unfolding quantized_shape
  quantized_shape-some type per_word bytes_of info base g words axes fit = (
    record {
      tt = type;
      dims_ne = words * per_word ∷ reversed_onto (lead_axes info.shape) [];
      size_bytes = prod (lead_axes info.shape) * bytes_of (words * per_word);
      k = some (words * per_word);
    },
    rw (axes, quantized_shape) (if_true _ _ (g * 64 == words * per_word) (ground (arith, fit))),
    subst (λ k. k % 64 ≡ 0) fit (omega arith),
  )

  -- A tensor with a shape for the kind that is planned for it.
  of_shape :
      (kind : PlanKind) (name base : Text) (info : Info) (s : Shape)
      → find name idx ≡ some info
      → shape_of idx kind base info ≡ some s
      → HasWholeGroups s.k
      → IsShaped (record { kind = kind; weight_name = name; base = base })
  of_shape kind name base info s found e groups =
      (s, tensor_shape-found kind name base info found ∙ e, groups)

  quantized-IsShaped :
      (name base : Text) (info : Info) (p : Planned)
      → find name idx ≡ some info
      → quantized idx name base info ≡ some (planned p)
      → IsShaped p
  unfolding quantized shape_of
  quantized-IsShaped name base info p found h = elim (Option-cases (group_axes idx info base)) [
    | inl bad ↦ absurd (ground (arith, bad, h))
    | inr ((g, words), axes) ↦ elim (Bool-cases (g * 64 == words * 8)) [
      | inl eight ↦
          let fit : g * 64 ≡ words * 8 = ground (arith, eight) in
          let (s, e, groups) =
            quantized_shape-some 3 8 (λ k. k / 32 * 20) info base g words axes fit in
          let q : Planned = record { kind = kind_q41; weight_name = name; base = base } in
          IsShaped-planned q p (sym (rw (axes, quantized) (if_true _ _ _ eight)) ∙ h)
            (of_shape kind_q41 name base info s found e groups)
      | inr not_eight ↦ elim (Bool-cases (g * 64 == words * 4)) [
        | inl four ↦
            let fit : g * 64 ≡ words * 4 = ground (arith, four) in
            let (s, e, groups) = quantized_shape-some 0 4 (λ k. k * 4) info base g words axes fit in
            let q : Planned = record { kind = kind_f32i8; weight_name = name; base = base } in
            IsShaped-planned q p
              (sym (rw (axes, quantized) (if_false _ _ _ not_eight ∙ if_true _ _ _ four)) ∙ h)
              (of_shape kind_f32i8 name base info s found e groups)
        | inr neither ↦ absurd (ground (arith, axes, not_eight, neither, h))
      ]
    ]
  ]

  by_dtype-IsShaped :
      (name base : Text) (info : Info) (p : Planned)
      → find name idx ≡ some info
      → by_dtype idx name base info ≡ some (planned p)
      → IsShaped p
  unfolding by_dtype shape_of
  by_dtype-IsShaped name base info p found h = elim (Bool-cases (same info.dtype (codes "U32"))) [
    | inl words ↦ quantized-IsShaped name base info p found (sym (if_true _ _ _ words) ∙ h)
    | inr no_words ↦ elim (Bool-cases (same info.dtype (codes "F16"))) [
      | inl halves ↦
          IsShaped-planned _ p (sym (if_false _ _ _ no_words ∙ if_true _ _ _ halves) ∙ h)
            (of_shape kind_f16 name base info _ found refl tt)
      | inr no_halves ↦
          elim (Bool-cases (same info.dtype (codes "BF16") || same info.dtype (codes "F32"))) [
            | inl floats ↦
                IsShaped-planned _ p
                  (sym (if_false _ _ _ no_words ∙ if_false _ _ _ no_halves ∙ if_true _ _ _ floats)
                    ∙ h)
                  (of_shape kind_f32 name base info _ found refl tt)
            | inr other ↦ absurd (ground (arith, no_words, no_halves, other, h))
          ]
    ]
  ]

  verdict-IsShaped : (name : Text) (p : Planned) → verdict idx name ≡ some (planned p) → IsShaped p
  unfolding verdict
  verdict-IsShaped name p h =
      elim (Bool-cases (endswith (codes ".scales") name || endswith (codes ".biases") name)) [
        | inl part ↦ absurd (ground (arith, part, h))
        | inr whole ↦ elim (Bool-cases (is_external name)) [
          | inl external ↦ absurd (ground (arith, whole, external, h))
          | inr internal ↦ elim (Option-cases (find name idx)) [
            | inl bad ↦ absurd (ground (arith, whole, internal, bad, h))
            | inr (info, found) ↦
                by_dtype-IsShaped name (base_of name) info p found
                  (sym (if_false _ _ _ whole ∙ if_false _ _ _ internal ∙ rw (found) refl) ∙ h)
          ]
        ]
      ]

  insert_planned-AreShaped :
      (p : Planned) (plan : List Planned)
      → IsShaped p
      → AreShaped plan
      → AreShaped (insert_planned p plan)
  unfolding insert_planned
  insert_planned-AreShaped p [] h hs = (h, tt)
  insert_planned-AreShaped p (q ∷ plan) h (hq, hs) =
      let first =
        if same (kind_text p.kind) (kind_text q.kind)
        then comes_first p.weight_name q.weight_name
        else comes_first (kind_text p.kind) (kind_text q.kind) in
      elim (Bool-cases first) [
        | inl before ↦ subst AreShaped (sym (if_true _ _ first before)) (h, (hq, hs))
        | inr after ↦
            subst AreShaped (sym (if_false _ _ first after))
              (hq, insert_planned-AreShaped p plan h hs)
      ]

  add_verdict-AreShaped :
      (name : Text) (v : Verdict) (sorted : List Planned × List Text)
      → verdict idx name ≡ some v
      → AreShaped (sorted.0)
      → AreShaped ((add_verdict name v sorted).0)
  unfolding add_verdict
  add_verdict-AreShaped name passed_over (plan, left_out) e h = h
  add_verdict-AreShaped name skipped (plan, left_out) e h = h
  add_verdict-AreShaped name (planned p) (plan, left_out) e h =
      insert_planned-AreShaped p plan (verdict-IsShaped name p e) h

  -- The plan of a result.
  abbrev plan_of : Option (List Planned × List Text) → List Planned
  plan_of none = []
  plan_of (some (plan, left_out)) = plan

  classify_names-AreShaped :
      (names : List Text) (plan : List Planned) (left_out : List Text)
      → classify_names idx names ≡ some (plan, left_out)
      → AreShaped plan
  unfolding classify_names
  classify_names-AreShaped [] plan left_out h = subst AreShaped (ap plan_of h) tt
  classify_names-AreShaped (name ∷ names) plan left_out h = elim (Option-cases (verdict idx name)) [
    | inl bad ↦ absurd (ground (arith, bad, h))
    | inr (v, one) ↦ elim (Option-cases (classify_names idx names)) [
      | inl bad ↦ absurd (ground (arith, one, bad, h))
      | inr ((rest, others), more) ↦
          let joined : classify_names idx (name ∷ names)
              ≡ some (add_verdict name v (rest, others)) =
            rw (one, more, classify_names) refl in
          subst AreShaped (ap plan_of (sym joined ∙ h)) (
            add_verdict-AreShaped name v (rest, others) one
              (classify_names-AreShaped names rest others more))
    ]
  ]

  -- When `classify` accepts an index, `tensor_shape` succeeds on every tensor of the plan, and the columns
  -- of the quantized ones are whole groups of 64.
  pub classify-AreShaped :
      (plan : List Planned) (left_out : List Text)
      → classify idx ≡ some (plan, left_out)
      → AreShaped plan
  unfolding classify
  classify-AreShaped plan left_out h = classify_names-AreShaped (keys_of idx) plan left_out h
