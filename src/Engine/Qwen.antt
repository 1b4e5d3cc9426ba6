-- ===== src/Engine/Qwen.antt =====
-- python/src/edge0/engine/qwen.py: which layers keep staged slots, what is staged before and after a
-- decode step and at the end of a prefill, and the reset of a request. hooks.py: the callbacks.
-- A layer that raises in a callback raises there; the calls are in the order of the layers.
pub mod ZeroDrop
use edge.Base.{
  length, ℕ, zero, suc, ◌+◌, ◌-◌, ◌*◌, ◌/◌, ◌==◌, List, [], ◌∷◌, map, Option, none, some, Bool,
  true, false, not, ◌&&◌, ◌||◌, min, max, if◌then◌else◌, ltb, leb, lookup, ℕ_discrete,
}
use edge.Layer.State.{Config, Layer}
use edge.Layer.Staging.{Built, Submission, stage_experts, swap_staged}
use edge.Layer.Pins.{
  count_from, load_full_layer, clear_full_layer, load_hot_layer, materialize_hot, dematerialize_hot,
  refresh_hot_pins,
}
use edge.Layer.Pins
use edge.Layer.Step.{sync_actuals, stage_from_prefill, prefetch_from_prefill}
use edge.Layer.Bundles.{prefetch}
use edge.Engine.Prerouter.{PrerouterState, Capture}
use edge.Engine.Prerouter

-- `start` and `n` of an installed prerouter.
pub record Scope : Type 0 where
  pub start_layer : ℕ
  pub n_layers : ℕ

-- A layer of the engine with its configuration.
pub record Twin (T F : Type 0) : Type 0 where
  pub config : Config T F
  pub layer : Layer T F

-- What the pool does at a layer: what a fill that was done when submitted gives, and whether the next
-- submissions start.
pub record Pool (T : Type 0) : Type 0 where
  pub built : Built T
  pub again : Submission
  pub sub : Submission

-- `all_stream_layers`: the layers that stream, in order.
abbrev pub Layers : Type 0 → Type 0 → Type 0
Layers T F = List (ℕ × Twin T F)

-- `lo <= li <= hi` with `hi = n_layers - 2`; there is no such layer when there are fewer than two.
unfoldable pub in_scope : Scope → ℕ → Bool
in_scope s li = leb s.start_layer li && ltb (li + 1) s.n_layers

-- `li < st.start or li >= st.n - 1`
unfoldable pub routes_itself : Scope → ℕ → Bool
routes_itself s li = ltb li s.start_layer || leb (s.n_layers - 1) li

-- The scoping in `load_installed`: `none` is an engine without a prerouter.
unfoldable pub scope_staging :
    {T F : Type 0} → (history_slots : Bool) → Option Scope → Layers T F → Layers T F
unfolding in_scope
scope_staging history_slots prerouter [] = []
scope_staging history_slots prerouter ((li, t) ∷ layers) =
    let rest = scope_staging history_slots prerouter layers in
    let keeps = history_slots || elim prerouter [ none ↦ false | some scope ↦ in_scope scope li ] in
    let config = if keeps then t.config else record t.config { staged_mode = false } in
    (li, record t { config = config }) ∷ rest

-- `stream_layers`: the layers that keep slots.
unfoldable pub stream_layers : {T F : Type 0} → Layers T F → Layers T F
stream_layers [] = []
stream_layers ((li, t) ∷ layers) =
    let rest = stream_layers layers in if t.config.staged_mode then (li, t) ∷ rest else rest

module _ {T F : Type 0} where
  unfoldable pub on_layer : Twin T F → Layer T F → Twin T F
  on_layer t l = record t { layer = l }

  -- A loop over the layers whose body may raise.
  unfoldable pub for_layers : (ℕ → Twin T F → Option (Layer T F)) → Layers T F → Option (Layers T F)
  unfolding on_layer
  for_layers body [] = some []
  for_layers body ((li, t) ∷ layers) =
      let rest = for_layers body layers in
      elim (body li t) [
        | none ↦ none
        | some l ↦ elim rest [ none ↦ none | some ls ↦ some ((li, on_layer t l) ∷ ls) ]
      ]

  -- A loop whose body does not raise.
  unfoldable pub each_layer : (ℕ → Twin T F → Layer T F) → Layers T F → Layers T F
  unfolding on_layer
  each_layer body [] = []
  each_layer body ((li, t) ∷ layers) =
      let rest = each_layer body layers in (li, on_layer t (body li t)) ∷ rest

  -- The body of `_step_pre` with a prerouter.
  unfoldable pub stage_history : Scope → (ℕ → Pool T) → ℕ → Twin T F → Option (Layer T F)
  unfolding routes_itself
  stage_history scope pool li t =
      let p = pool li in
      if routes_itself scope li && t.config.staged_mode
      then elim t.layer.last_used [
        | [] ↦ some t.layer
        | e ∷ es ↦ stage_experts t.config t.layer (e ∷ es) p.built p.again p.sub
      ]
      else some t.layer

  -- `history_prefetch` of hooks.py on a layer: the loop runs over `range(1, count)`, `count` being the
  -- number of layers that stream.
  unfoldable pub prefetch_history : (count : ℕ) → ℕ → Twin T F → Layer T F
  prefetch_history count li t =
      if li == 0 || leb count li then t.layer else elim t.layer.last_used [
        | [] ↦ t.layer
        | e ∷ es ↦ record t.layer { stores = prefetch t.config t.layer.stores (e ∷ es) }
      ]

  -- `_step_pre`
  unfoldable pub step_pre :
      Option Scope → (history_prefetch : Bool) → (ℕ → Pool T) → Layers T F → Option (Layers T F)
  unfolding for_layers stage_history each_layer prefetch_history
  step_pre (some scope) enabled pool layers = for_layers (stage_history scope pool) layers
  step_pre none enabled pool layers =
      some (if enabled then each_layer (prefetch_history (length layers)) layers else layers)

  unfoldable pub sync_unrouted : Scope → ℕ → Twin T F → Layer T F
  unfolding routes_itself
  sync_unrouted scope li t =
      if routes_itself scope li && (t.config.staged_mode || ltb 0 t.config.hot_per_layer)
      then sync_actuals t.config t.layer
      else t.layer

  -- The body of the last loop of `_step_post`; `landed` is the argument of `wait_staged`.
  unfoldable pub sync_and_stage :
      (ℕ → Pool T) → (ℕ → Option (Built T × Submission)) → ℕ → Twin T F → Option (Layer T F)
  sync_and_stage pool landed li t =
      let p = pool li in
      let synced = sync_actuals t.config t.layer in
      elim (stage_experts t.config synced synced.last_used p.built p.again p.sub) [
        | none ↦ none
        | some l ↦ some (swap_staged t.config l p.built p.again (landed li))
      ]

  -- `_step_post`
  unfoldable pub step_post :
      Option Scope
      → (ℕ → Pool T)
      → (ℕ → Option (Built T × Submission))
      → Layers T F
      → Option (Layers T F)
  unfolding sync_unrouted each_layer stream_layers for_layers sync_and_stage
  step_post (some scope) pool landed layers = some (each_layer (sync_unrouted scope) layers)
  step_post none pool landed layers = elim (stream_layers layers) [
    | [] ↦ some layers
    | _ ∷ _ ↦ for_layers (sync_and_stage pool landed) layers
  ]

  -- The last loop of `_prefill_end` on a layer.
  unfoldable pub prime : (prefetches : Bool) → (ℕ → Pool T) → ℕ → Twin T F → Option (Layer T F)
  prime prefetches pool li t =
      let p = pool li in
      if not t.config.staged_mode
      then some t.layer
      else if prefetches
      then some (prefetch_from_prefill t.config t.layer)
      else stage_from_prefill t.config t.layer p.built p.again p.sub

  unfoldable pub refresh_pins : (cands : ℕ → List ℕ) → ℕ → Twin T F → Layer T F
  refresh_pins cands li t = record t.layer {
    stores = refresh_hot_pins t.config t.layer.stores t.layer.predicted_experts (cands li);
  }

  -- `_prefill_end`. The candidates of the pins are in the order of their set.
  unfoldable pub prefill_end :
      Option Scope
      → (history_slots : Bool) → (cands : ℕ → List ℕ) → (ℕ → Pool T)
      → Layers T F
      → Option (Layers T F)
  unfolding each_layer for_layers prime refresh_pins
  prefill_end prerouter history_slots cands pool layers =
      let cleared = each_layer (λ li t. clear_full_layer t.config t.layer) layers in
      let prefetches = not history_slots && elim prerouter [ none ↦ false | some _ ↦ true ] in
      for_layers (prime prefetches pool) (each_layer (refresh_pins cands) cleared)

  -- `after_layer` of hooks.py
  unfoldable pub intra_after_layer : (ℕ → Pool T) → ℕ → Twin T F → Option (Layer T F)
  intra_after_layer pool li t =
      let p = pool li in
      elim t.layer.last_used [
        | [] ↦ some t.layer
        | e ∷ es ↦ stage_experts t.config t.layer (e ∷ es) p.built p.again p.sub
      ]
