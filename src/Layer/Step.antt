-- ===== src/Layer/Step.antt =====
-- python/src/edge0/streaming/layer.py: what a decode step does after `__call__` (`sync_actuals`), and
-- what primes the first one (`stage_from_prefill`, `prefetch_from_prefill`).
pub mod Exact
use edge.Base.{
  ℕ, zero, suc, ◌+◌, ◌-◌, ◌==◌, ◌%◌, List, [], ◌∷◌, ◌++◌, map, Option, none, some, Bool, true,
  false, not, ◌&&◌, ◌||◌, foldl, lookup, keys, contains, sorted_set, drop, if◌then◌else◌, length,
  ℕ_discrete, ltb, get_elem?, replicate,
}
use edge.Cache
use edge.Layer.State.{
  Proj, gate_proj, up_proj, down_proj, gate_up_proj, Part, weight, scales, biases, Bundle, Config,
  Key, key_discrete, HotBacking, Stores, Stats, Layer, Staged, Incr,
}
use edge.Layer.Build.{build, index_of}
use edge.Layer.Bundles.{bump_count, get_bundles, prefetch, is_some}
use edge.Layer.Incr.{zero_bundle}
use edge.Layer.Pins.{count_from, refresh_hot_pins}
use edge.Layer.Staging.{Built, Submission, number_from, zip_dict, stage_experts, wait_staged}

module _ {T F : Type 0} (c : Config T F) where
  -- The bundles that `sync_actuals` puts into the shared cache.
  unfoldable pub promote_used : List (ℕ × Bundle T) → Stores T F → ℕ → Stores T F
  promote_used smap s e = elim (lookup ℕ_discrete e s.pinned) [
    | some p ↦ s
    | none ↦ elim (lookup ℕ_discrete e smap) [
      | none ↦ s
      | some b ↦ record s {
        shared_cache = Cache.put key_discrete s.shared_cache (c.layer_idx, e) b;
      }
    ]
  ]

  unfoldable pub promote_all : Option (Staged T) → List ℕ → Stores T F → Stores T F
  unfolding promote_used zip_dict
  promote_all none unique s = s
  promote_all (some st) unique s = foldl (promote_used (zip_dict st.experts st.bundles)) s unique

  -- `len([e for e in unique if e not in used_exp])`
  unfoldable pub dropped : Option (List ℕ) → List ℕ → ℕ
  dropped none unique = 0
  dropped (some used) [] = 0
  dropped (some used) (e ∷ es) =
      let rest = dropped (some used) es in if contains e used then rest else suc rest

  -- `sync_actuals`
  unfoldable pub sync_actuals : Layer T F → Layer T F
  unfolding promote_all dropped bump_count
  sync_actuals l = elim l.pending_indices [
    | none ↦ l
    | some [] ↦ record l { pending_indices = none }
    | some (v ∷ vs) ↦
        let unique = sorted_set (v ∷ vs) in
        let s = l.stores in
        let counted : Stores T F = record s {
          hot_counts = foldl (bump_count c) s.hot_counts unique;
          stats = record s.stats {
            staged_dropped = s.stats.staged_dropped + dropped l.staged_at_use unique;
          };
        } in
        record l {
          pending_indices = none;
          last_used = unique;
          stores = if c.incr_writeback then counted else promote_all l.staged_state unique counted;
        }
  ]

  -- `stage_from_prefill`
  unfoldable pub stage_from_prefill :
      Layer T F → (built : Built T) → (again sub : Submission) → Option (Layer T F)
  stage_from_prefill l built again sub =
      if not c.staged_mode then some l else elim l.last_prefill_topk [
        | none ↦ some l
        | some [] ↦ some l
        | some (e ∷ es) ↦
            let unique = sorted_set (e ∷ es) in
            stage_experts c (record l { last_used = unique }) unique built again sub
      ]

  -- `prefetch_from_prefill`
  unfoldable pub prefetch_from_prefill : Layer T F → Layer T F
  prefetch_from_prefill l = elim l.last_prefill_topk [
    | none ↦ l
    | some [] ↦ l
    | some (e ∷ es) ↦
        let unique = sorted_set (e ∷ es) in
        record l { last_used = unique; stores = prefetch c l.stores unique }
  ]
