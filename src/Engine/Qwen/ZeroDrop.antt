-- ===== src/Engine/Qwen/ZeroDrop.antt =====
-- The scoping of the staged slots in `load_installed`: which layers a decode step may stage.
use edge.Base.{
  ℕ, ◌≡◌, refl, [], ◌∷◌, Option, some, Bool, true, false, not, ◌&&◌, if◌then◌else◌, arith, if_false,
}
use edge.Layer.State.{Config, Layer}
use edge.Engine.Qwen.{
  Scope, Twin, Layers, Pool, in_scope, routes_itself, scope_staging, on_layer, for_layers,
  stage_history, step_pre,
}

-- A layer is in the scope exactly when it does not route with its own gate.
in_scope-routes_itself : (s : Scope) (li : ℕ) → in_scope s li ≡ not (routes_itself s li)
unfolding in_scope routes_itself
in_scope-routes_itself s li = ground arith

module _ {T F : Type 0} where
  stage_history-idle :
      (scope : Scope) (pool : ℕ → Pool T) (li : ℕ) (t : Twin T F)
      → (routes_itself scope li && t.config.staged_mode) ≡ false
      → stage_history scope pool li t ≡ some t.layer
  unfolding stage_history
  stage_history-idle scope pool li t h =
      if_false _ _ (routes_itself scope li && t.config.staged_mode) h

  pub for_layers-cons :
      (body : ℕ → Twin T F → Option (Layer T F)) (li : ℕ) (t : Twin T F) (l : Layer T F)
      (layers ls : Layers T F)
      → body li t ≡ some l
      → for_layers body layers ≡ some ls
      → for_layers body ((li, t) ∷ layers) ≡ some ((li, on_layer t l) ∷ ls)
  unfolding for_layers
  for_layers-cons body li t l layers ls here rest = rw (here, rest, for_layers) refl

  -- What the scoping leaves of a layer's configuration.
  abbrev scoped : Bool → Config T F → Config T F
  scoped keeps config = if keeps then config else record config { staged_mode = false }

  scoped-idle :
      (keeps routes : Bool) (config : Config T F)
      → keeps ≡ not routes
      → (routes && (scoped keeps config).staged_mode) ≡ false
  scoped-idle true true config h = absurd (ground (arith, h))
  scoped-idle true false config h = refl
  scoped-idle false true config h = refl
  scoped-idle false false config h = refl

  -- After the scoping with a prerouter, `_step_pre` stages nothing: no layer that routes with its own
  -- gate is given slots from its history.
  pub step_pre-scope_staging :
      (scope : Scope) (enabled : Bool) (pool : ℕ → Pool T) (layers : Layers T F)
      → step_pre (some scope) enabled pool (scope_staging false (some scope) layers)
        ≡ some (scope_staging false (some scope) layers)
  unfolding step_pre scope_staging for_layers on_layer
  step_pre-scope_staging scope enabled pool [] = refl
  step_pre-scope_staging scope enabled pool ((li, t) ∷ layers) =
      let t' : Twin T F = record t { config = scoped (in_scope scope li) t.config } in
      for_layers-cons (stage_history scope pool) li t' t.layer
        (scope_staging false (some scope) layers) (scope_staging false (some scope) layers)
        (stage_history-idle scope pool li t' (
          scoped-idle (in_scope scope li) (routes_itself scope li) t.config
            (in_scope-routes_itself scope li)))
        (step_pre-scope_staging scope enabled pool layers)
