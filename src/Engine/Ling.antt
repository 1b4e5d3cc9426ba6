-- ===== src/Engine/Ling.antt =====
-- python/src/edge0/engine/ling.py: which layers keep staged slots, what a forward pass of this engine and
-- of engine/qwen.py asks of the model, what is staged around a decode step and at the end of a prefill,
-- and the warm-up. An installed prerouter is given by its start layer. Tokenizing is left out.
pub mod Scoped
use edge.Base.{
  ℕ, zero, suc, ◌+◌, List, [], ◌∷◌, Option, none, some, Bool, true, false, not, ◌&&◌, ◌||◌,
  if◌then◌else◌, ltb, length, lookup, ℕ_discrete,
}
use edge.Options.{LayerOptions}
use edge.Layer.State.{Config, Layer}
use edge.Layer.Staging.{Built, Submission, stage_experts, swap_staged}
use edge.Layer.Pins.{clear_full_layer}
use edge.Layer.Pins
use edge.Layer.Step.{sync_actuals, stage_from_prefill}
use edge.Engine.Qwen.{Twin, Layers, Pool, for_layers, each_layer, prefetch_history}
use edge.Engine.Loop.{Family, Engine, prefill, step}
use edge.Engine.Loop

-- `first_pg_consumer`
unfoldable pub first_pg_consumer : Option ℕ → ℕ
first_pg_consumer none = 0
first_pg_consumer (some start_layer) = start_layer + 1

-- `cfg.prerouter is None or li < first_pg_consumer`
unfoldable pub unpredicted : Option ℕ → ℕ → Bool
unfolding first_pg_consumer
unpredicted none li = true
unpredicted (some start_layer) li = ltb li (first_pg_consumer (some start_layer))

-- What the scoping in `load_installed` leaves of a layer's configuration.
unfoldable pub scope_config : {T F : Type 0} → (history_slots off : Bool) → Config T F → Config T F
scope_config true off config = config
scope_config false true config = record config { staged_mode = false }
scope_config false false config = config

unfoldable pub scope_ling :
    {T F : Type 0} → (history_slots : Bool) → Option ℕ → Layers T F → Layers T F
unfolding unpredicted scope_config
scope_ling history_slots prerouter [] = []
scope_ling history_slots prerouter ((li, t) ∷ layers) =
    let rest = scope_ling history_slots prerouter layers in
    (li, record t { config = scope_config history_slots (unpredicted prerouter li) t.config })
    ∷ rest

-- What a forward pass asks of the model and of the stager.
pub record Plan : Type 0 where
  pub before_layer : Bool
  pub after_layer : Bool
  pub async_eval : Bool
  pub stages : Bool

unfoldable pub is_multi : (prefill_active : Bool) → List ℕ → Bool
is_multi prefill_active ids = ltb 1 (length ids) && prefill_active

unfoldable pub is_full : LayerOptions → (has_layers prefill_multi : Bool) → Bool
is_full opts has_layers prefill_multi = prefill_multi && (has_layers && opts.full_layer_prefill)

-- `_forward` of ling.py
unfoldable pub ling_plan :
    LayerOptions → (has_layers has_stager prefill_active : Bool) → List ℕ → Plan
unfolding is_multi is_full
ling_plan opts has_layers has_stager prefill_active ids =
    let multi = is_multi prefill_active ids in
    let full = is_full opts has_layers multi in
    record {
      before_layer = multi && (full || ltb 0 opts.prefill_hot);
      after_layer = false;
      async_eval = multi && full;
      stages = has_stager && (not prefill_active && (ltb 0 (length ids) && ltb (length ids) 2));
    }

-- `_forward` of qwen.py; `intra` tells whether it may stage within the pass and has the callback.
unfoldable pub qwen_plan :
    LayerOptions → (has_layers has_stager intra prefill_active : Bool) → List ℕ → Plan
unfolding is_multi is_full
qwen_plan opts has_layers has_stager intra prefill_active ids =
    let multi = is_multi prefill_active ids in
    let full = is_full opts has_layers multi in
    record {
      before_layer = multi && (full || ltb 0 opts.prefill_hot);
      after_layer = not full && (intra && (ltb 0 (length ids) && ltb (length ids) 2));
      async_eval = multi && full;
      stages = has_stager && not full;
    }

module _ {T F : Type 0} where
  -- `if exp.last_used: exp.stage_experts(list(exp.last_used))`
  unfoldable pub stage_last : Pool T → Twin T F → Option (Layer T F)
  stage_last p t = elim t.layer.last_used [
    | [] ↦ some t.layer
    | e ∷ es ↦ stage_experts t.config t.layer (e ∷ es) p.built p.again p.sub
  ]

  -- The body of `_step_pre` with a prerouter.
  unfoldable pub stage_unpredicted : (first : ℕ) → (ℕ → Pool T) → ℕ → Twin T F → Option (Layer T F)
  unfolding stage_last
  stage_unpredicted first pool li t =
      if ltb li first && t.config.staged_mode then stage_last (pool li) t else some t.layer

  -- `_step_pre`
  unfoldable pub ling_step_pre :
      Option ℕ → (history_prefetch : Bool) → (ℕ → Pool T) → Layers T F → Option (Layers T F)
  unfolding for_layers stage_unpredicted each_layer prefetch_history first_pg_consumer
  ling_step_pre (some start) enabled pool layers =
      for_layers (stage_unpredicted (first_pg_consumer (some start)) pool) layers
  ling_step_pre none enabled pool layers =
      some (if enabled then each_layer (prefetch_history (length layers)) layers else layers)

  -- `sync_actuals`, and if anything was used `stage_experts` and `swap_staged`.
  unfoldable pub sync_stage_swap :
      Pool T → Option (Built T × Submission) → Twin T F → Option (Layer T F)
  sync_stage_swap p landed t =
      let synced = sync_actuals t.config t.layer in
      elim synced.last_used [
        | [] ↦ some synced
        | e ∷ es ↦ elim (stage_experts t.config synced (e ∷ es) p.built p.again p.sub) [
          | none ↦ none
          | some l ↦ some (swap_staged t.config l p.built p.again landed)
        ]
      ]

  -- The body of the loop of `_step_post` with a prerouter.
  unfoldable pub post_predicted :
      (first : ℕ)
      → (ℕ → Pool T)
      → (ℕ → Option (Built T × Submission))
      → ℕ
      → Twin T F
      → Option (Layer T F)
  unfolding sync_stage_swap
  post_predicted first pool landed li t =
      if not t.config.staged_mode
      then some t.layer
      else if ltb li first
      then sync_stage_swap (pool li) (landed li) t
      else some (sync_actuals t.config t.layer)

  -- The body of the loop over `_stream_layers`.
  unfoldable pub post_history :
      (ℕ → Pool T) → (ℕ → Option (Built T × Submission)) → ℕ → Twin T F → Option (Layer T F)
  unfolding sync_stage_swap
  post_history pool landed li t =
      if t.config.staged_mode then sync_stage_swap (pool li) (landed li) t else some t.layer

  -- `_step_post`
  unfoldable pub ling_step_post :
      Option ℕ
      → (ℕ → Pool T)
      → (ℕ → Option (Built T × Submission))
      → Layers T F
      → Option (Layers T F)
  unfolding for_layers post_predicted post_history first_pg_consumer
  ling_step_post (some start) pool landed layers =
      for_layers (post_predicted (first_pg_consumer (some start)) pool landed) layers
  ling_step_post none pool landed layers = for_layers (post_history pool landed) layers

  -- The fills that `_store` of the stager submits: a set that is not empty, to a layer with slots.
  unfoldable pub submit_set : List (ℕ × List ℕ) → (ℕ → Pool T) → ℕ → Twin T F → Option (Layer T F)
  submit_set sets pool li t =
      let p = pool li in
      if t.config.staged_mode
      then elim (lookup ℕ_discrete li sets) [
        | none ↦ some t.layer
        | some [] ↦ some t.layer
        | some (e ∷ es) ↦ stage_experts t.config t.layer (e ∷ es) p.built p.again p.sub
      ]
      else some t.layer

  unfoldable pub prime_unpredicted :
      (below : Option ℕ) → (ℕ → Pool T) → ℕ → Twin T F → Option (Layer T F)
  prime_unpredicted below pool li t =
      let p = pool li in
      if t.config.staged_mode && elim below [ none ↦ true | some first ↦ ltb li first ]
      then stage_from_prefill t.config t.layer p.built p.again p.sub
      else some t.layer

  -- `_prefill_end`; `sets` is what `stage_all` gives.
  unfoldable pub ling_prefill_end :
      Option ℕ
      → (history_slots : Bool) → (sets : List (ℕ × List ℕ)) → (ℕ → Pool T)
      → Layers T F
      → Option (Layers T F)
  unfolding each_layer for_layers submit_set prime_unpredicted first_pg_consumer
  ling_prefill_end prerouter history_slots sets pool layers =
      let cleared = each_layer (λ li t. clear_full_layer t.config t.layer) layers in
      elim prerouter [
        | none ↦ for_layers (prime_unpredicted none pool) cleared
        | some start ↦ elim (for_layers (submit_set sets pool) cleared) [
          | none ↦ none
          | some staged ↦
              if history_slots
              then for_layers (prime_unpredicted (some (first_pg_consumer (some start))) pool)
                  staged
              else some staged
        ]
      ]

  -- `_reset_state`, as far as it changes the layers; also that of qwen.py.
  unfoldable pub reset_layers : Layers T F → Layers T F
  unfolding each_layer
  reset_layers = each_layer (λ li t. edge.Layer.Pins.reset t.config t.layer)

-- `_prewarm`, less the reading of the shards; what raises in it is dropped.
unfoldable pub prewarm :
    {S L : Type 0} → Family S L → (chunk_size : ℕ) → Engine S L → (dummy : ℕ) → Engine S L
unfolding prefill step edge.Engine.Loop.reset
prewarm f chunk_size e dummy =
    let (e', total) =
      prefill f chunk_size (edge.Engine.Loop.reset f e) (dummy ∷ dummy ∷ dummy ∷ dummy ∷ []) in
    elim total [
      | none ↦ e'
      | some _ ↦
          let (e'', logits) = step f e' dummy in
          elim logits [ none ↦ e'' | some _ ↦ edge.Engine.Loop.reset f e'' ]
    ]
