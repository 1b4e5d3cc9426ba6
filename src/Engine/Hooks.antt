-- ===== src/Engine/Hooks.antt =====
-- python/src/edge0/engine/hooks.py: `make_prefill_before_layer`, which loads a layer's weights before
-- it runs in a prefill, and drops those of the layers behind it. The keys of the layers are distinct.
pub mod OneLayer
pub mod Window
use edge.Base.{
  ℕ, zero, suc, ◌+◌, ◌-◌, ◌/◌, ◌==◌, List, [], ◌∷◌, Option, none, some, Bool, true, false, not,
  ◌&&◌, min, max, if◌then◌else◌, ltb, leb, length,
}
use edge.Layer.State.{Layer}
use edge.Layer.Pins.{
  load_full_layer, clear_full_layer, load_hot_layer, materialize_hot, dematerialize_hot,
}
use edge.Engine.Qwen.{Twin, Layers, on_layer, for_layers, each_layer}

module _ {T F : Type 0} where
  -- `all_stream_layers.get(li)`, on which `body` is called if there is such a layer.
  unfoldable pub at_layer : ℕ → (Twin T F → Layer T F) → Layers T F → Layers T F
  unfolding each_layer
  at_layer li body = each_layer (λ q t. if q == li then body t else t.layer)

  unfoldable pub try_at_layer :
      ℕ → (Twin T F → Option (Layer T F)) → Layers T F → Option (Layers T F)
  unfolding for_layers
  try_at_layer li body = for_layers (λ q t. if q == li then body t else some t.layer)

  -- `load_hot_layer` and `materialize_hot`
  unfoldable pub warm_hot : ℕ → Twin T F → Option (Layer T F)
  warm_hot hot_n t = elim (load_hot_layer t.config t.layer hot_n) [
    | none ↦ none
    | some l ↦ some (materialize_hot t.config l)
  ]

  -- The loop over the window: `n` layers from `lj` on.
  unfoldable pub warm_window : (hot_n n lj : ℕ) → Layers T F → Option (Layers T F)
  unfolding try_at_layer warm_hot
  warm_window hot_n zero lj layers = some layers
  warm_window hot_n (suc n) lj layers = elim (try_at_layer lj (warm_hot hot_n) layers) [
    | none ↦ none
    | some warmed ↦ warm_window hot_n n (suc lj) warmed
  ]

  -- The loop over the layers below `bound`, which have left the window.
  unfoldable pub cool_below : ℕ → Layers T F → Layers T F
  unfolding each_layer
  cool_below bound =
      each_layer (λ q t. if ltb q bound then dematerialize_hot t.config t.layer else t.layer)

  -- Drop the whole-layer weights of the layer before.
  unfoldable pub drop_previous : ℕ → Layers T F → Layers T F
  unfolding at_layer
  drop_previous zero layers = layers
  drop_previous (suc p) layers = at_layer p (λ t. clear_full_layer t.config t.layer) layers

  unfoldable pub load_whole : ℕ → Layers T F → Layers T F
  unfolding at_layer
  load_whole li = at_layer li (λ t. load_full_layer t.config t.layer)

  -- `before_layer`; `none` is an exception of `load_hot_layer`.
  unfoldable pub before_layer :
      (full_layer : Bool)
      → (full_n hot_n hot_window : ℕ) → (li : ℕ) → Layers T F
      → Option (Layers T F)
  unfolding drop_previous warm_window cool_below load_whole
  before_layer full_layer full_n hot_n hot_window li layers =
      let w = max 1 hot_window in
      let ahead = max 1 (w / 2) in
      let dropped = drop_previous li layers in
      let window = min (li + ahead + 1) (length layers) - li in
      if ltb 0 full_n && leb full_n li
      then some dropped
      else if hot_n == 0
      then some (if full_layer then load_whole li dropped else dropped)
      else elim (warm_window hot_n window li dropped) [
        | none ↦ none
        | some warmed ↦
            let cooled = cool_below (li - (w - ahead)) warmed in
            some (if ltb 0 full_n && full_layer then load_whole li cooled else cooled)
      ]
