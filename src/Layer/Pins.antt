-- ===== src/Layer/Pins.antt =====
-- python/src/edge0/streaming/layer.py: what a layer keeps because it is used often. The pinned
-- experts, the resident hot stack, the whole-layer weights, and `reset`.
pub mod Exact
use edge.Base.{
  ℕ, zero, suc, ◌+◌, ◌/◌, ◌==◌, List, [], ◌∷◌, Option, none, some, Bool, false, not, ◌||◌, foldl,
  lookup, store, keys, contains, take, if◌then◌else◌, length, ℕ_discrete, leb, max,
}
use edge.Cache
use edge.Layer.State.{
  Proj, gate_proj, up_proj, down_proj, gate_up_proj, Part, has_proj, Bundle, Config, key_discrete,
  HotBacking, Stores, Layer,
}
use edge.Layer.Build.{build, stack_hot, slice, concat_rows}

-- `list(range(n))`
unfoldable pub count_from : ℕ → ℕ → List ℕ
count_from i zero = []
count_from i (suc n) = i ∷ count_from (suc i) n

module _ {F : Type 0} (above : F → F → Bool) (score : ℕ → F) where
  unfoldable pub insert_ranked : ℕ → List ℕ → List ℕ
  insert_ranked e [] = e ∷ []
  insert_ranked e (x ∷ xs) =
      if above (score x) (score e) || not (above (score e) (score x))
      then x ∷ insert_ranked e xs
      else e ∷ x ∷ xs

  -- `sorted(l, key=score, reverse=True)`, which leaves equal scores in their order.
  unfoldable pub rank_onto : List ℕ → List ℕ → List ℕ
  unfolding insert_ranked
  rank_onto acc [] = acc
  rank_onto acc (e ∷ es) = rank_onto (insert_ranked e acc) es

unfoldable pub count_of {ℓ} : {F : Type ℓ} → F → List (ℕ × F) → ℕ → F
count_of zero_count counts e = elim (lookup ℕ_discrete e counts) [ none ↦ zero_count | some f ↦ f ]

unfoldable pub keep_in {ℓ} : {V : Type ℓ} → List ℕ → List (ℕ × V) → List (ℕ × V)
keep_in target [] = []
keep_in target ((e, v) ∷ rest) =
    if contains e target then (e, v) ∷ keep_in target rest else keep_in target rest

module _ {T F : Type 0} (c : Config T F) where
  -- The score of a candidate: its count, and the bonus of a predicted expert. The bonus is added once
  -- for each time that the expert stands in the predictions.
  unfoldable pub pin_score : List (ℕ × F) → List ℕ → ℕ → F
  unfolding count_of
  pin_score counts [] e = count_of c.floats.zero_count counts e
  pin_score counts (p ∷ ps) e =
      let rest = pin_score counts ps e in if p == e then c.floats.add_bonus rest else rest

  -- The target of `_refresh_hot_pins`: `cands` lists the candidates in the order of the set.
  unfoldable pub pin_target : List (ℕ × F) → (predicted cands : List ℕ) → List ℕ
  unfolding pin_score rank_onto
  pin_target counts predicted cands =
      take c.hot_per_layer (rank_onto c.floats.above (pin_score counts predicted) [] cands)

  -- One round of the loop over the target.
  unfoldable pub pin_expert : Stores T F → ℕ → Stores T F
  pin_expert s e =
      let (cache, cached) = Cache.pop key_discrete s.shared_cache (c.layer_idx, e) in
      elim cached [
        | some b ↦ record s { shared_cache = cache; pinned = store ℕ_discrete e b s.pinned }
        | none ↦ elim (lookup ℕ_discrete e s.pinned) [
          | some b ↦ s
          | none ↦ record s { pinned = store ℕ_discrete e (build c s.hot_backing e) s.pinned }
        ]
      ]

  -- `_refresh_hot_pins`
  unfoldable pub refresh_hot_pins : Stores T F → (predicted cands : List ℕ) → Stores T F
  unfolding pin_target keep_in pin_expert
  refresh_hot_pins s predicted cands =
      let target = pin_target s.hot_counts predicted cands in
      if c.hot_per_layer == 0
      then s
      else foldl pin_expert (record s { pinned = keep_in target s.pinned }) target

  -- The experts that `load_hot_layer` selects.
  unfoldable pub hot_experts : List (ℕ × F) → ℕ → List ℕ
  unfolding count_from rank_onto count_of
  hot_experts [] n_hot = count_from 0 n_hot
  hot_experts (kv ∷ counts) n_hot = take n_hot (
      rank_onto c.floats.above (count_of c.floats.zero_count (kv ∷ counts)) [] (keys (kv ∷ counts)))

  -- `len([e for e in key if e not in old_set])`
  unfoldable pub changed : List ℕ → List ℕ → ℕ
  changed old [] = 0
  changed old (e ∷ es) = let rest = changed old es in if contains e old then rest else suc rest

  -- Whether the resident stack still serves.
  unfoldable pub still_serves : Option HotBacking → List ℕ → ℕ → Bool
  unfolding changed
  still_serves none hot n_hot = false
  still_serves (some old) hot n_hot = leb (changed old.key hot) (max 1 (n_hot / 8))

  -- `load_hot_layer`; `rows[0]` of an empty selection raises.
  unfoldable pub load_hot_layer : Layer T F → ℕ → Option (Layer T F)
  unfolding hot_experts still_serves
  load_hot_layer l n_hot =
      let hot = hot_experts l.stores.hot_counts n_hot in
      if still_serves l.stores.hot_backing hot n_hot then some l else elim hot [
        | [] ↦ none
        | e ∷ es ↦ some (record l {
          stores = record l.stores { hot_backing = some (stack_hot c (e ∷ es)) };
          hot_weights = none;
        })
      ]

  -- The rows of the materialized stack: `n_e` rows of the same size, for each projection and part.
  unfoldable pub hot_row : HotBacking → ℕ → Bundle T
  hot_row h i proj part =
      let buf = h.rows proj part in
      if has_proj c.fuse_gu proj
      then some (c.to_tensor proj part (slice (length buf / (length h.key + 1)) i buf))
      else none

  unfoldable pub materialize_hot : Layer T F → Layer T F
  unfolding hot_row
  materialize_hot l = elim l.hot_weights [
    | some w ↦ l
    | none ↦ elim l.stores.hot_backing [
      | none ↦ l
      | some h ↦ record l { hot_weights = some (hot_row h) }
    ]
  ]

  unfoldable pub dematerialize_hot : Layer T F → Layer T F
  dematerialize_hot l = record l { hot_weights = none }

  unfoldable pub clear_hot_layer : Layer T F → Layer T F
  clear_hot_layer l = record l {
    hot_weights = none;
    stores = record l.stores { hot_backing = none };
  }

  -- The bytes of a projection and part that `load_full_layer` reads: fused, the gate's and the up rows
  -- expert by expert; the size of a row is the gate's.
  unfoldable pub full_bytes : Proj → Part → List ℕ
  unfolding count_from concat_rows
  full_bytes gate_up_proj part = concat_rows c (count_from 0 c.num_experts) gate_up_proj part
  full_bytes gate_proj part = c.raw gate_proj part
  full_bytes up_proj part = c.raw up_proj part
  full_bytes down_proj part = c.raw down_proj part

  -- An expert's row of the whole-layer tensors, which `reshape` cuts into `num_experts` rows.
  unfoldable pub full_row : ℕ → Bundle T
  unfolding full_bytes
  full_row e proj part =
      let buf = full_bytes proj part in
      if has_proj c.fuse_gu proj
      then some (c.to_tensor proj part (slice (length buf / c.num_experts) e buf))
      else none

  unfoldable pub load_full_layer : Layer T F → Layer T F
  unfolding full_row
  load_full_layer l = elim l.full_weights [
    | some w ↦ l
    | none ↦ record l { full_weights = some full_row }
  ]

  unfoldable pub clear_full_layer : Layer T F → Layer T F
  clear_full_layer l = record l { full_weights = none }

  -- `reset`
  unfoldable pub reset : Layer T F → Layer T F
  reset l = record l {
    pending_indices = none;
    staged_at_use = none;
    last_prefill_topk = none;
    staged_state = none;
    staged_state_next = none;
    staged_pending = none;
    last_used = [];
    full_weights = none;
  }
