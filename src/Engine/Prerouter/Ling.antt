-- ===== src/Engine/Prerouter/Ling.antt =====
-- python/src/edge0/prerouter/stager.py: the ling stager. The heads and the selection are arguments, as
-- for the qwen stager; a one-hot feature is the row of its counts. `pg_cache` is indexed by consumer.
pub mod Agree
use edge.Base.{
  ℕ, zero, suc, ◌+◌, ◌-◌, ◌==◌, List, [], ◌∷◌, map, Option, none, some, Bool, true, false,
  if◌then◌else◌, leb, length, get_elem?, replicate, sorted_set,
}
use edge.Layer.Pins.{count_from}
use edge.Engine.Prerouter.{Slots, empty, assign_slot}

-- The position argument: from the start, or that many from the end.
pub data Position : Type 0 where
  from_start : ℕ → Position
  from_end : ℕ → Position

-- The place of a position among `t`, if it is one.
unfoldable pub place_of : ℕ → Position → Option ℕ
place_of t (from_start lo) = if leb t lo then none else some lo
place_of t (from_end zero) = none
place_of t (from_end (suc k)) = if leb (suc k) t then some (t - suc k) else none

-- How often an expert stands in a row of indices.
unfoldable pub count : ℕ → List ℕ → ℕ
count e [] = 0
count e (x ∷ xs) = let rest = count e xs in if x == e then suc rest else rest

unfoldable pub one_hot : (num_experts : ℕ) → List ℕ → List ℕ
unfolding count count_from
one_hot num_experts row = map (λ e. count e row) (count_from 0 num_experts)

-- `_topk_onehot_pos` on the rows of a batch of one, by position; `none` also if there are no rows.
unfoldable pub topk_onehot_pos :
    (num_experts : ℕ) → Option (List (List ℕ)) → Position → Option (List ℕ)
unfolding place_of one_hot
topk_onehot_pos num_experts none pos = none
topk_onehot_pos num_experts (some rows) pos = elim (place_of (length rows) pos) [
  | none ↦ none
  | some lo ↦ elim (get_elem? rows lo) [ none ↦ none | some row ↦ some (one_hot num_experts row) ]
]

-- What a layer and its block keep of the last pass.
pub record LingCapture (A : Type 0) : Type 0 where
  pub m_in_cache : Option A
  pub last_topk : Option (List (List ℕ))
  pub prev_topk_oh : Option (List ℕ)

pub record LingHeads (A : Type 0) : Type 0 where
  pub num_experts : ℕ
  -- `m[..., -1:, :]`
  pub last_position : A → A
  -- `_head_of(owner)` on the three features
  pub head : (owner : ℕ) → (m_in : A) → (cur_oh prev_oh : List ℕ) → A
  -- `group_select_from_logits` for one row: indices and scores
  pub select : A → A × A
  -- `tolist` of a row of indices
  pub to_list : A → List ℕ

-- What the stager changes: the cache of logits, and the captures.
pub record LingState (A : Type 0) : Type 0 where
  pub pg_cache : Slots A
  pub blocks : ℕ → LingCapture A

-- A prediction: its owner, the feature of this token, and the logits.
abbrev pub Prediction : Type 0 → Type 0
Prediction A = ℕ × (List ℕ × A)

unfoldable pub or_zeros : ℕ → Option (List ℕ) → List ℕ
or_zeros num_experts none = replicate num_experts 0
or_zeros num_experts (some oh) = oh

unfoldable pub or_else : {A : Type 0} → Option A → Option A → Option A
or_else none b = b
or_else (some a) b = some a

unfoldable pub set_block :
    {A : Type 0} → ℕ → LingCapture A → (ℕ → LingCapture A) → ℕ → LingCapture A
set_block owner b blocks q = if owner == q then b else blocks q

module _ {A : Type 0} (h : LingHeads A) where
  -- LingPrerouterStager._features
  unfoldable pub ling_features : LingCapture A → Option (A × (List ℕ × List ℕ))
  unfolding or_zeros or_else topk_onehot_pos
  ling_features block = elim block.m_in_cache [
    | none ↦ none
    | some m ↦ some (
      h.last_position m,
      (
        or_zeros h.num_experts (topk_onehot_pos h.num_experts block.last_topk (from_end 1)),
        or_zeros h.num_experts (
            or_else block.prev_topk_oh
              (topk_onehot_pos h.num_experts block.last_topk (from_end 2))),
      ),
    )
  ]

  -- The first loop of `stage_all` and the heads: a prediction for each owner that has features.
  unfoldable pub predictions : (ℕ → LingCapture A) → List ℕ → List (Prediction A)
  unfolding ling_features
  predictions blocks [] = []
  predictions blocks (owner ∷ owners) =
      let rest = predictions blocks owners in
      elim (ling_features (blocks owner)) [
        | none ↦ rest
        | some (m_in, (cur_oh, prev_oh)) ↦
            (owner, (cur_oh, h.head owner m_in cur_oh prev_oh)) ∷ rest
      ]

  -- `_store`, less the fill that it submits, and `_note`, for each prediction.
  unfoldable pub store_all : List (Prediction A) → LingState A → LingState A
  unfolding assign_slot set_block
  store_all [] st = st
  store_all ((owner, (cur_oh, logits)) ∷ ps) st = store_all ps (record {
    pg_cache = assign_slot st.pg_cache (owner + 1) logits;
    blocks = set_block owner (record (st.blocks owner) { prev_topk_oh = some cur_oh }) st.blocks;
  })

  -- The set of experts for each consumer; without a layer that keeps slots no set is computed.
  unfoldable pub expert_sets : (staged : Bool) → List (Prediction A) → List (ℕ × List ℕ)
  expert_sets staged [] = []
  expert_sets staged ((owner, (cur_oh, logits)) ∷ ps) =
      (owner + 1, if staged then sorted_set (h.to_list (h.select logits).0) else [])
      ∷ expert_sets staged ps

  -- `stage_all`
  unfoldable pub ling_stage_all :
      (staged : Bool) → List ℕ → LingState A → LingState A × List (ℕ × List ℕ)
  unfolding predictions store_all expert_sets
  ling_stage_all staged owners st =
      let ps = predictions st.blocks owners in (store_all ps st, expert_sets staged ps)

-- `reset` of the stager, and the captures that `_reset_state` of ling.py drops for each owner.
unfoldable pub drop_captures : {A : Type 0} → List ℕ → (ℕ → LingCapture A) → ℕ → LingCapture A
unfolding set_block
drop_captures [] blocks = blocks
drop_captures (owner ∷ owners) blocks =
    drop_captures owners
      (set_block owner (record { m_in_cache = none; last_topk = none; prev_topk_oh = none }) blocks)

unfoldable pub ling_reset : {A : Type 0} → List ℕ → LingState A → LingState A
unfolding drop_captures empty
ling_reset owners st = record { pg_cache = empty; blocks = drop_captures owners st.blocks }
