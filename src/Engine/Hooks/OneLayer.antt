-- ===== src/Engine/Hooks/OneLayer.antt =====
-- The whole-layer prefill keeps the weights of one layer at a time.
use edge.Base.{
  ℕ, suc, ◌==◌, ◌≡◌, refl, ◌∙◌, ap, [], ◌∷◌, none, some, Bool, true, false, not, ◌&&◌, ◌⊎◌, inl,
  inr, Bool-cases, ltb, leb, subst, arith, if_true, if_false,
}
use edge.Layer.State.{Layer}
use edge.Layer.Pins.{full_row, load_full_layer, clear_full_layer}
use edge.Engine.Qwen.{Twin, Layers, on_layer, each_layer}
use edge.Engine.Hooks.{at_layer, drop_previous, load_whole, before_layer}

-- The layers that run with their whole weights: all when `full_n` is 0, else those below it.
abbrev pub runs_whole : (full_layer : Bool) → (full_n li : ℕ) → Bool
runs_whole full_layer full_n li = full_layer && not (ltb 0 full_n && leb full_n li)

module _ {T F : Type 0} where
  -- Layer `li` holds its whole weights, if there is such a layer, and no other layer does.
  abbrev pub OnlyWhole : ℕ → Layers T F → Type 0
  OnlyWhole li [] = Unit
  OnlyWhole li ((q, t) ∷ layers) =
      ((((q == li) ≡ true) × (t.layer.full_weights ≡ some (full_row t.config)))
        ⊎ (((q == li) ≡ false) × (t.layer.full_weights ≡ none)))
      × OnlyWhole li layers

  -- No layer holds its whole weights.
  abbrev pub NoneWhole : Layers T F → Type 0
  NoneWhole [] = Unit
  NoneWhole ((q, t) ∷ layers) = (t.layer.full_weights ≡ none) × NoneWhole layers

  drop_previous-NoneWhole :
      (p : ℕ) (layers : Layers T F) → OnlyWhole p layers → NoneWhole (drop_previous (suc p) layers)
  unfolding drop_previous at_layer each_layer on_layer clear_full_layer
  drop_previous-NoneWhole p [] h = tt
  drop_previous-NoneWhole p ((q, t) ∷ layers) h =
      let rest = drop_previous-NoneWhole p layers h.1 in
      elim h.0 [
        | inl (same, full) ↦
            (ap (λ (l : Layer T F). l.full_weights) (if_true _ _ (q == p) same), rest)
        | inr (other, empty) ↦
            (ap (λ (l : Layer T F). l.full_weights) (if_false _ _ (q == p) other) ∙ empty, rest)
      ]

  load_full_layer-whole :
      (t : Twin T F)
      → t.layer.full_weights ≡ none
      → (load_full_layer t.config t.layer).full_weights ≡ some (full_row t.config)
  unfolding load_full_layer
  load_full_layer-whole t h = rw (h, load_full_layer) refl

  load_whole-OnlyWhole :
      (li : ℕ) (layers : Layers T F) → NoneWhole layers → OnlyWhole li (load_whole li layers)
  unfolding load_whole at_layer each_layer on_layer
  load_whole-OnlyWhole li [] h = tt
  load_whole-OnlyWhole li ((q, t) ∷ layers) h =
      let rest = load_whole-OnlyWhole li layers h.1 in
      elim (Bool-cases (q == li)) [
        | inl same ↦ (
          inl (
            same,
            ap (λ (l : Layer T F). l.full_weights) (if_true _ _ (q == li) same)
                ∙ load_full_layer-whole t h.0,
          ),
          rest,
        )
        | inr other ↦ (
          inr (other, ap (λ (l : Layer T F). l.full_weights) (if_false _ _ (q == li) other) ∙ h.0),
          rest,
        )
      ]

  abbrev pub WholeIf : Bool → ℕ → Layers T F → Type 0
  WholeIf true li layers = OnlyWhole li layers
  WholeIf false li layers = NoneWhole layers

  -- With the hot stack off, if the layer before held its whole weights and no other did, `before_layer`
  -- succeeds. If `full_layer` is on, and `full_n` is 0 or above the layer that is about to run, that layer
  -- then holds its whole weights and no other does; otherwise no layer does.
  pub before_layer-WholeIf :
      (full_layer : Bool) (full_n p hot_window : ℕ) (layers : Layers T F)
      → OnlyWhole p layers
      → (layers' : Layers T F) × (before_layer full_layer full_n 0 hot_window (suc p) layers
          ≡ some layers')
        × WholeIf (runs_whole full_layer full_n (suc p)) (suc p) layers'
  unfolding before_layer
  before_layer-WholeIf full_layer full_n p hot_window layers h =
      let none_whole = drop_previous-NoneWhole p layers h in
      let past = ltb 0 full_n && leb full_n (suc p) in
      elim (Bool-cases past) [
        | inl behind ↦ (
          drop_previous (suc p) layers,
          if_true _ _ past behind,
          subst (λ b. WholeIf b (suc p) (drop_previous (suc p) layers)) {x = false}
              (ground (arith, behind)) none_whole,
        )
        | inr ahead ↦ loads full_layer full_n p hot_window layers none_whole ahead
      ]
    where
      loads :
          (full_layer : Bool) (full_n p hot_window : ℕ) (layers : Layers T F)
          → NoneWhole (drop_previous (suc p) layers)
          → (ltb 0 full_n && leb full_n (suc p)) ≡ false
          → (layers' : Layers T F) × (before_layer full_layer full_n 0 hot_window (suc p) layers
              ≡ some layers')
            × WholeIf (runs_whole full_layer full_n (suc p)) (suc p) layers'
      loads true full_n p hot_window layers none_whole ahead = (
        load_whole (suc p) (drop_previous (suc p) layers),
        if_false _ _ _ ahead,
        subst (λ b. WholeIf b (suc p) (load_whole (suc p) (drop_previous (suc p) layers)))
            {x = true} (ground (arith, ahead))
            (load_whole-OnlyWhole (suc p) (drop_previous (suc p) layers) none_whole),
      )
      loads false full_n p hot_window layers none_whole ahead =
          (drop_previous (suc p) layers, if_false _ _ _ ahead, none_whole)
