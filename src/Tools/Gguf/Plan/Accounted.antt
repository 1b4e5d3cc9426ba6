-- ===== src/Tools/Gguf/Plan/Accounted.antt =====
-- Where `classify` puts each tensor of the index.
use edge.Base.{
  ◌*◌, ◌==◌, ◌≡◌, refl, sym, ap, subst, ◌∙◌, List, [], ◌∷◌, Option, none, some, Bool, true, false,
  not, ◌&&◌, ◌||◌, if◌then◌else◌, arith, Bool-cases, Option-cases, inl, inr, if_true, if_false,
}
use edge.Server.Text.{Text, codes, same}
use edge.Server.Text.Laws.{same→eq}
use edge.Registry.{find}
use edge.Adapters.{comes_first}
use edge.Server.Text.Member.{has}
use edge.Tools.Gguf.Plan.{
  Info, StIndex, kind_text, Planned, Verdict, passed_over, skipped, planned, endswith, is_external,
  base_of, group_axes, quantized, by_dtype, verdict, insert_planned, insert_text, add_verdict,
  classify_names, keys_of, classify,
}
use edge.Tools.Gguf.Plan.Shaped.{AreShaped, classify-AreShaped}

abbrev pub weight_names : List Planned → List Text
weight_names [] = []
weight_names (p ∷ plan) = p.weight_name ∷ weight_names plan

-- The scales and the biases of a quantized tensor.
abbrev pub is_part : Text → Bool
is_part name = endswith (codes ".scales") name || endswith (codes ".biases") name

has-insert_planned :
    (n : Text) (p : Planned) (plan : List Planned)
    → has n (weight_names (insert_planned p plan))
      ≡ (same p.weight_name n || has n (weight_names plan))
unfolding has insert_planned
has-insert_planned n p [] = refl
has-insert_planned n p (q ∷ plan) =
    let rest = has-insert_planned n p plan in
    let first =
      if same (kind_text p.kind) (kind_text q.kind)
      then comes_first p.weight_name q.weight_name
      else comes_first (kind_text p.kind) (kind_text q.kind) in
    elim (Bool-cases first) [
      | inl before ↦ ap (λ l. has n (weight_names l)) (if_true _ _ first before)
      | inr after ↦
          ap (λ l. has n (weight_names l)) (if_false _ _ first after) ∙ ground (arith, rest)
    ]

has-insert_text : (n t : Text) (us : List Text) → has n (insert_text t us) ≡ (same t n || has n us)
unfolding has insert_text
has-insert_text n t [] = refl
has-insert_text n t (u ∷ us) = ground (arith, has-insert_text n t us)

holds_if {ℓ} :
    {A : Type ℓ} (P : A → Type 0) (x y : A) (b : Bool) → P x → P y → P (if b then x else y)
holds_if P x y true hx hy = hx
holds_if P x y false hx hy = hy

-- What a verdict says of its tensor.
abbrev IsOutcome : Text → Verdict → Type 0
IsOutcome name passed_over = is_part name ≡ true
IsOutcome name skipped = (is_part name ≡ false) × (is_external name ≡ true)
IsOutcome name (planned p) =
    (is_part name ≡ false) × (is_external name ≡ false) × (p.weight_name ≡ name)

abbrev Plans : Text → Option Verdict → Type 0
Plans name none = Unit
Plans name (some passed_over) = ⊥
Plans name (some skipped) = ⊥
Plans name (some (planned p)) = p.weight_name ≡ name

Plans-IsOutcome :
    (name : Text) (v : Verdict)
    → is_part name ≡ false
    → is_external name ≡ false
    → Plans name (some v)
    → IsOutcome name v
Plans-IsOutcome name passed_over whole internal h = absurd h
Plans-IsOutcome name skipped whole internal h = absurd h
Plans-IsOutcome name (planned p) whole internal h = (whole, internal, h)

module _ (idx : StIndex) where
  quantized-Plans : (name base : Text) (info : Info) → Plans name (quantized idx name base info)
  unfolding quantized
  quantized-Plans name base info = elim (Option-cases (group_axes idx info base)) [
    | inl bad ↦ rw (bad, quantized) tt
    | inr ((g, words), axes) ↦
        rw (axes, quantized)
          (holds_if (Plans name) _ _ (g * 64 == words * 8) refl
            (holds_if (Plans name) _ _ (g * 64 == words * 4) refl tt))
  ]

  by_dtype-Plans : (name base : Text) (info : Info) → Plans name (by_dtype idx name base info)
  unfolding by_dtype
  by_dtype-Plans name base info =
      holds_if (Plans name) _ _ (same info.dtype (codes "U32")) (quantized-Plans name base info) (
        holds_if (Plans name) _ _ (same info.dtype (codes "F16")) refl (
          holds_if (Plans name) _ _
            (same info.dtype (codes "BF16") || same info.dtype (codes "F32")) refl tt))

  -- The verdict of a result.
  abbrev verdict_of : Verdict → Option Verdict → Verdict
  verdict_of v none = v
  verdict_of v (some w) = w

  verdict-IsOutcome : (name : Text) (v : Verdict) → verdict idx name ≡ some v → IsOutcome name v
  unfolding verdict
  verdict-IsOutcome name v h = elim (Bool-cases (is_part name)) [
    | inl part ↦ subst (IsOutcome name) (ap (verdict_of v) (sym (if_true _ _ _ part) ∙ h)) part
    | inr whole ↦ elim (Bool-cases (is_external name)) [
      | inl external ↦
          subst (IsOutcome name)
            (ap (verdict_of v) (sym (if_false _ _ _ whole ∙ if_true _ _ _ external) ∙ h))
            (whole, external)
      | inr internal ↦ elim (Option-cases (find name idx)) [
        | inl bad ↦ absurd (ground (arith, whole, internal, bad, h))
        | inr (info, found) ↦ Plans-IsOutcome name v whole internal (
            subst (Plans name)
              (sym (if_false _ _ _ whole ∙ if_false _ _ _ internal ∙ rw (found) refl) ∙ h)
              (by_dtype-Plans name (base_of name) info))
      ]
    ]
  ]

-- A tensor that is to be in the plan, and one that is not to be in the file.
abbrev pub is_kept : Text → Bool
is_kept name = not (is_part name) && not (is_external name)

abbrev pub is_left_out : Text → Bool
is_left_out name = not (is_part name) && is_external name

has-add_verdict_plan :
    (n name : Text) (v : Verdict) (plan : List Planned) (left_out : List Text)
    → IsOutcome name v
    → has n (weight_names ((add_verdict name v (plan, left_out)).0))
      ≡ ((same name n && is_kept name) || has n (weight_names plan))
unfolding add_verdict
has-add_verdict_plan n name passed_over plan left_out part = ground (arith, part)
has-add_verdict_plan n name skipped plan left_out (whole, external) =
    ground (arith, whole, external)
has-add_verdict_plan n name (planned p) plan left_out (whole, internal, e) =
    has-insert_planned n p plan
    ∙ ap (λ t. same t n || has n (weight_names plan)) e
    ∙ ground (arith, whole, internal)

has-add_verdict_left_out :
    (n name : Text) (v : Verdict) (plan : List Planned) (left_out : List Text)
    → IsOutcome name v
    → has n ((add_verdict name v (plan, left_out)).1)
      ≡ ((same name n && is_left_out name) || has n left_out)
unfolding add_verdict
has-add_verdict_left_out n name passed_over plan left_out part = ground (arith, part)
has-add_verdict_left_out n name skipped plan left_out (whole, external) =
    has-insert_text n name left_out ∙ ground (arith, whole, external)
has-add_verdict_left_out n name (planned p) plan left_out (whole, internal, e) =
    ground (arith, whole, internal)

-- A test of a name may be taken of an equal one.
same_and :
    (test : Text → Bool) (name n : Text) → (same name n && test name) ≡ (same name n && test n)
same_and test name n = elim (Bool-cases (same name n)) [
  | inl equal ↦ ap (λ t. same name n && test t) (same→eq name n equal)
  | inr other ↦ ground (arith, other)
]

module _ (idx : StIndex) (n : Text) where
  -- The plan has the kept ones of the names, and what is left out has the external ones.
  abbrev pub IsAccounted : (names : List Text) → List Planned × List Text → Type 0
  IsAccounted names (plan, left_out) =
      (has n (weight_names plan) ≡ (has n names && is_kept n))
      × (has n left_out ≡ (has n names && is_left_out n))

  abbrev sorted_of : Option (List Planned × List Text) → List Planned × List Text
  sorted_of none = ([], [])
  sorted_of (some sorted) = sorted

  classify_names-IsAccounted :
      (names : List Text) (sorted : List Planned × List Text)
      → classify_names idx names ≡ some sorted
      → IsAccounted names sorted
  unfolding classify_names has
  classify_names-IsAccounted [] sorted h = subst (IsAccounted []) (ap sorted_of h) (refl, refl)
  classify_names-IsAccounted (name ∷ names) sorted h = elim (Option-cases (verdict idx name)) [
    | inl bad ↦ absurd (ground (arith, bad, h))
    | inr (v, one) ↦ elim (Option-cases (classify_names idx names)) [
      | inl bad ↦ absurd (ground (arith, one, bad, h))
      | inr ((plan, left_out), more) ↦
          let joined : classify_names idx (name ∷ names)
              ≡ some (add_verdict name v (plan, left_out)) =
            rw (one, more, classify_names) refl in
          let (kept, dropped) = classify_names-IsAccounted names (plan, left_out) more in
          let outcome = verdict-IsOutcome idx name v one in
          subst (IsAccounted (name ∷ names)) (ap sorted_of (sym joined ∙ h)) (
            has-add_verdict_plan n name v plan left_out outcome
                ∙ ground (arith, kept, same_and is_kept name n),
            has-add_verdict_left_out n name v plan left_out outcome
                ∙ ground (arith, dropped, same_and is_left_out name n),
          )
    ]
  ]

  -- When `classify` accepts an index, a name is in the plan exactly if it is in the index and is neither a
  -- scale or a bias nor external, and it is left out exactly if it is in the index, external and neither
  -- of the two; `tensor_shape` succeeds on every tensor of the plan, and the columns of the quantized ones
  -- are whole groups of 64.
  pub classify-IsAccounted :
      (plan : List Planned) (left_out : List Text)
      → classify idx ≡ some (plan, left_out)
      → IsAccounted (keys_of idx) (plan, left_out) × AreShaped idx plan
  unfolding classify
  classify-IsAccounted plan left_out h = (
    classify_names-IsAccounted (keys_of idx) (plan, left_out) h,
    classify-AreShaped idx plan left_out h,
  )
