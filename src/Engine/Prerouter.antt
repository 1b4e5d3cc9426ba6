-- ===== src/Engine/Prerouter.antt =====
-- python/src/edge0/prerouter/state.py and stager.py: the double buffer of the prerouter, and the
-- qwen stager, which turns the heads' outputs into the experts that the next step is routed to.
-- `A` is the type of device arrays. The heads and the selection are arguments, row by row; the
-- arrays of a batch are lists of their rows.
pub mod Laws
pub mod Ling
use edge.Base.{
  ℕ, zero, suc, ◌+◌, ◌-◌, ◌==◌, List, [], ◌∷◌, map, Option, none, some, Bool, true, false,
  if◌then◌else◌, sorted_set,
}
use edge.Layer.Pins.{count_from}

-- A Python list of `n` entries, by index; the stager only reads and writes within it.
abbrev pub Slots : Type 0 → Type 0
Slots A = ℕ → Option A

unfoldable pub empty : {A : Type 0} → Slots A
empty i = none

unfoldable pub assign_slot : {A : Type 0} → Slots A → ℕ → A → Slots A
assign_slot slots i a q = if i == q then some a else slots q

-- PrerouterState
pub record PrerouterState (A : Type 0) : Type 0 where
  pub n : ℕ
  pub start : ℕ
  pub owners : List ℕ
  pub logits : Slots A
  pub logits_prev : Slots A
  pub pred_inds : Slots A
  pub pred_scores : Slots A
  pub oh : Slots A
  pub oh_prev : Slots A

unfoldable pub init : {A : Type 0} → (n start : ℕ) → Option (List ℕ) → PrerouterState A
unfolding empty count_from
init n start owners = record {
  n = n;
  start = start;
  -- `range(start_layer - 1, n_layers - 1)`, for a start of at least one
  owners = elim owners [ none ↦ count_from (start - 1) ((n - 1) - (start - 1)) | some l ↦ l ];
  logits = empty;
  logits_prev = empty;
  pred_inds = empty;
  pred_scores = empty;
  oh = empty;
  oh_prev = empty;
}

unfoldable pub swap : {A : Type 0} → PrerouterState A → PrerouterState A
unfolding empty
swap st = record st { logits_prev = st.logits; logits = empty; oh_prev = st.oh; oh = empty }

unfoldable pub reset : {A : Type 0} → PrerouterState A → PrerouterState A
unfolding empty
reset st = record st {
  logits = empty;
  logits_prev = empty;
  pred_inds = empty;
  pred_scores = empty;
  oh = empty;
  oh_prev = empty;
}

-- What the patched block of a layer keeps of the last single-token pass: `prerouter_m_in` and
-- `prerouter_oh`.
pub record Capture (A : Type 0) : Type 0 where
  pub m_in : Option A
  pub captured_oh : Option A

-- The heads and the selection.
pub record Heads (A : Type 0) : Type 0 where
  -- `_head_of(owner)` on the three features
  pub head : (owner : ℕ) → (m_in cur_oh prev_oh : A) → A
  -- `core.zeros((1, 1, num_experts))`
  pub zero_oh : A
  -- `select_from_logits` for one row: indices and scores
  pub select : A → A × A
  -- `tolist` of a row of indices
  pub to_list : A → List ℕ

module _ {A : Type 0} (h : Heads A) where
  -- CrossTokenStager._features
  unfoldable pub features : PrerouterState A → Capture A → ℕ → Option (A × A × A)
  features st block owner =
      let prev = elim (st.oh_prev owner) as (λ _. A) [ none ↦ h.zero_oh | some prev ↦ prev ] in
      elim block.m_in [
        | none ↦ none
        | some m ↦ elim block.captured_oh [ none ↦ none | some oh ↦ some (m, oh, prev) ]
      ]

  -- What a head gives for its owner.
  unfoldable pub predict : ℕ → A × A × A → A
  predict owner (m_in, cur_oh, prev_oh) = h.head owner m_in cur_oh prev_oh

  -- The first loop of `stage_all`: the owners that have features.
  unfoldable pub collect_features :
      PrerouterState A → (blocks : ℕ → Capture A) → List ℕ → List (ℕ × (A × A × A))
  unfolding features
  collect_features st blocks [] = []
  collect_features st blocks (owner ∷ owners) =
      let rest = collect_features st blocks owners in
      elim (features st (blocks owner) owner) [ none ↦ rest | some feats ↦ (owner, feats) ∷ rest ]

  unfoldable pub metas_of : List (ℕ × (A × A × A)) → List ℕ
  metas_of [] = []
  metas_of ((owner, feats) ∷ ps) = owner ∷ metas_of ps

  -- `_logits`
  unfoldable pub logits_of : List (ℕ × (A × A × A)) → List A
  unfolding predict
  logits_of [] = []
  logits_of ((owner, feats) ∷ ps) = predict owner feats ∷ logits_of ps

  -- `flat`, which is only made if some layer keeps slots.
  unfoldable pub flat_rows : (staged : Bool) → (inds_all : List A) → Option (List (List ℕ))
  flat_rows true inds_all = some (map h.to_list inds_all)
  flat_rows false inds_all = none

  -- The set of the first row, and the rows behind it.
  unfoldable pub first_set : Option (List (List ℕ)) → List ℕ
  first_set none = []
  first_set (some []) = []
  first_set (some (row ∷ rows)) = sorted_set row

  unfoldable pub later_rows : Option (List (List ℕ)) → Option (List (List ℕ))
  later_rows none = none
  later_rows (some []) = some []
  later_rows (some (row ∷ rows)) = some rows

  -- CrossTokenStager._store for a consumer, less the fill that it submits.
  unfoldable pub store_prediction :
      PrerouterState A → (consumer : ℕ) → (logits_i inds_i scores_i : A) → PrerouterState A
  unfolding assign_slot
  store_prediction st consumer logits_i inds_i scores_i = record st {
    pred_inds = assign_slot st.pred_inds consumer inds_i;
    pred_scores = assign_slot st.pred_scores consumer scores_i;
    logits = assign_slot st.logits (consumer - 1) logits_i;
  }

  -- The second loop: the rows of the batch in step with the owners. The arrays have a row for each.
  unfoldable pub store_rows :
      (metas : List ℕ)
      → (logits inds_all scores_all : List A) → Option (List (List ℕ))
      → PrerouterState A
      → PrerouterState A × List (ℕ × List ℕ)
  unfolding store_prediction first_set later_rows
  store_rows (owner ∷ metas) (l ∷ logits) (i ∷ inds_all) (s ∷ scores_all) flat st =
      let (st', sets) =
        store_rows metas logits inds_all scores_all (later_rows flat)
          (store_prediction st (owner + 1) l i s) in
      (st', (owner + 1, first_set flat) ∷ sets)
  store_rows metas logits inds_all scores_all flat st = (st, [])

  -- `stage_all`; `staged` tells whether some layer keeps slots.
  unfoldable pub stage_all :
      (staged : Bool)
      → (blocks : ℕ → Capture A) → List ℕ
      → PrerouterState A
      → PrerouterState A × List (ℕ × List ℕ)
  unfolding collect_features metas_of logits_of flat_rows store_rows
  stage_all staged blocks owners st =
      let ps = collect_features st blocks owners in
      let logits = logits_of ps in
      let inds_all = map (λ l. (h.select l).0) logits in
      store_rows (metas_of ps) logits inds_all (map (λ l. (h.select l).1) logits)
        (flat_rows staged inds_all) st
