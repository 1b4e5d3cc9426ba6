-- ===== src/Engine/Ling/Scoped.antt =====
-- The scoping of the ling engine: after it, only predicted layers are staged.
use edge.Base.{
  ℕ, ◌≡◌, refl, [], ◌∷◌, Option, some, Bool, true, false, not, ◌&&◌, if◌then◌else◌, arith, if_false,
  ltb,
}
use edge.Layer.State.{Layer}
use edge.Layer.Staging.{Built, Submission}
use edge.Layer.Step.{sync_actuals}
use edge.Engine.Qwen.{Twin, Layers, Pool, on_layer, for_layers, each_layer}
use edge.Engine.Qwen.ZeroDrop.{for_layers-cons}
use edge.Engine.Ling.{
  first_pg_consumer, scope_ling, scope_config, stage_unpredicted, ling_step_pre, post_predicted,
  ling_step_post,
}

module _ {T F : Type 0} where
  for_layers_same :
      (body : ℕ → Twin T F → Option (Layer T F)) (work : ℕ → Twin T F → Layer T F) (li : ℕ)
      (t : Twin T F) (layers : Layers T F)
      → body li t ≡ some (work li t)
      → for_layers body layers ≡ some (each_layer work layers)
      → for_layers body ((li, t) ∷ layers) ≡ some (each_layer work ((li, t) ∷ layers))
  unfolding for_layers each_layer
  for_layers_same body work li t layers here rest = rw (here, rest, for_layers) refl

  -- What a decode step does after its pass to a layer of the scoped engine.
  abbrev pub sync_staged : ℕ → Twin T F → Layer T F
  sync_staged li t = if t.config.staged_mode then sync_actuals t.config t.layer else t.layer

  sync_or_keep :
      (staged before : Bool) (kept synced : Layer T F) (stage : Option (Layer T F))
      → before ≡ false
      → (if not staged then some kept else if before then stage else some synced)
        ≡ some (if staged then synced else kept)
  sync_or_keep false before kept synced stage h = refl
  sync_or_keep true true kept synced stage h = absurd (ground (arith, h))
  sync_or_keep true false kept synced stage h = refl

  scoped_pre :
      (start li : ℕ) (off : Bool) (pool : ℕ → Pool T) (t : Twin T F)
      → ltb li (first_pg_consumer (some start)) ≡ off
      → stage_unpredicted
          (first_pg_consumer (some start))
          pool
          li
          (record t { config = scope_config false off t.config })
        ≡ some t.layer
  unfolding stage_unpredicted scope_config
  scoped_pre start li true pool t h =
      if_false _ _ (ltb li (first_pg_consumer (some start)) && false) (ground arith)
  scoped_pre start li false pool t h =
      if_false _ _ (ltb li (first_pg_consumer (some start)) && t.config.staged_mode)
        (ground (arith, h))

  scoped_post :
      (start li : ℕ) (off : Bool) (pool : ℕ → Pool T) (landed : ℕ → Option (Built T × Submission))
      (t : Twin T F)
      → ltb li (first_pg_consumer (some start)) ≡ off
      → post_predicted
          (first_pg_consumer (some start))
          pool
          landed
          li
          (record t { config = scope_config false off t.config })
        ≡ some (sync_staged li (record t { config = scope_config false off t.config }))
  unfolding post_predicted scope_config
  scoped_post start li true pool landed t h = refl
  scoped_post start li false pool landed t h =
      sync_or_keep t.config.staged_mode (ltb li (first_pg_consumer (some start))) t.layer
        (sync_actuals t.config t.layer) _ h

  -- After the scoping with a prerouter, a decode step stages nothing by itself: `_step_pre` leaves the layers as they are,
  -- and `_step_post` does not raise and only records the actuals of the layers that keep slots.
  pub ling_step-scope_ling :
      (start : ℕ) (enabled : Bool) (pool : ℕ → Pool T) (landed : ℕ → Option (Built T × Submission))
      (layers : Layers T F)
      → (ling_step_pre (some start) enabled pool (scope_ling false (some start) layers)
          ≡ some (scope_ling false (some start) layers))
        × (ling_step_post (some start) pool landed (scope_ling false (some start) layers)
            ≡ some (each_layer sync_staged (scope_ling false (some start) layers)))
  unfolding ling_step_pre ling_step_post scope_ling for_layers each_layer on_layer
  ling_step-scope_ling start enabled pool landed [] = (refl, refl)
  ling_step-scope_ling start enabled pool landed ((li, t) ∷ layers) =
      let off = ltb li (first_pg_consumer (some start)) in
      let t' : Twin T F = record t { config = scope_config false off t.config } in
      let rest = ling_step-scope_ling start enabled pool landed layers in
      (
        for_layers-cons (stage_unpredicted (first_pg_consumer (some start)) pool) li t' t.layer
            (scope_ling false (some start) layers) (scope_ling false (some start) layers)
            (scoped_pre start li off pool t refl) rest.0,
        for_layers_same (post_predicted (first_pg_consumer (some start)) pool landed) sync_staged li
            t' (scope_ling false (some start) layers) (scoped_post start li off pool landed t refl)
            rest.1,
      )
