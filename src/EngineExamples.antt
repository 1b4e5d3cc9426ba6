-- ===== src/EngineExamples.antt =====
-- A small engine whose forward pass counts, with a prerouter of two heads: the theorems of the engine
-- applied to it.
use edge.Base.{
  inl, inr, ℕ, ◌+◌, ◌≡◌, refl, List, [], ◌∷◌, none, some, Bool, true, false, length, lookup,
  sorted_set, ℕ_discrete, contains, IsDistinct,
}
use edge.Layer.Staging.{running}
use edge.Engine.Prerouter.{
  PrerouterState, Capture, Heads, stage_all, collect_features, metas_of, logits_of, flat_rows,
  store_rows, features, predict,
}
use edge.Engine.Prerouter.Laws.{Agrees, stage_all-Agrees}
use edge.Engine.Qwen.{Scope, Layers, Pool, scope_staging, step_pre}
use edge.Engine.Qwen.ZeroDrop.{step_pre-scope_staging}
use edge.Engine.Loop.{Family, GenerationConfig, Sampler, Engine, prefill, generate}
use edge.Engine.Loop.Laws.{Prefilled, prefill_raises, prefill-Prefilled, Ended, generate-Ended}
use edge.Engine.Loop.Total.{generate-total}
use edge.Layer.Pins.{full_row}
use edge.Engine.Qwen.{each_layer}
use edge.Engine.Ling.{scope_ling, ling_step_pre, ling_step_post}
use edge.Engine.Ling.Scoped.{sync_staged, ling_step-scope_ling}
use edge.Engine.Prerouter.Ling.{LingHeads, LingState, ling_stage_all, ling_reset}
use edge.Engine.Prerouter.Ling.Agree.{IsRouted, ling_stage_all-IsRouted, ling_stage_all-ling_reset}
use edge.Engine.Hooks.{before_layer}
use edge.Engine.Hooks.Window.{Windowed, before_layers, before_layers-InWindow}
use edge.Engine.Hooks.OneLayer.{runs_whole, WholeIf, before_layer-WholeIf}
use edge.Examples.{config, fresh_layer}

-- The state is the number of tokens read; it is also the logits.
abbrev pub family : Family ℕ ℕ
family = record {
  forward = λ active s ids. (s + length ids, some (s + length ids));
  step_pre = λ s token. (s, true);
  step_post = λ s token. (s, true);
  prefill_end = λ s. (s, true);
  reset_state = λ s. 0;
}

abbrev pub sampler : Sampler ℕ
sampler = record { argmax = λ l. l; sample = λ l history. l + length history }

abbrev pub gen : GenerationConfig
gen = record { max_new_tokens = 3; first_token_greedy = true; eos_ids = 99 ∷ [] }

abbrev pub engine : Engine ℕ ℕ
engine = record { family = 0; pos = 0; prefill_active = false; last_logits = none }

generate-Ended_example :
    Ended family sampler gen 3 2 (generate family sampler gen 4 engine (5 ∷ 6 ∷ []))
generate-Ended_example = generate-Ended family sampler gen 4 engine (5 ∷ 6 ∷ [])

pub responds :
    (active : Bool) (s : ℕ) (ids : List ℕ) → (l : ℕ) × ((family.forward active s ids).1 ≡ some l)
responds active s ids = (s + length ids, refl)

generate-total_example :
    (out : List ℕ) × ((generate family sampler gen 4 engine (5 ∷ 6 ∷ [])).1 ≡ some out)
generate-total_example =
    generate-total family responds (λ s token. refl) (λ s token. refl) (λ s. refl) sampler gen 3
      engine 5 (6 ∷ [])

prefill-Prefilled_example :
    Prefilled family 3 3
      (prefill_raises family 2 0 (5 ∷ 6 ∷ 7 ∷ []))
      (prefill family 2 engine (5 ∷ 6 ∷ 7 ∷ []))
prefill-Prefilled_example = prefill-Prefilled family 2 engine (5 ∷ 6 ∷ 7 ∷ [])

-- The seventh and the eighth of forty layers, with the prerouter's first consumer at seven.
abbrev two_layers : Layers (List ℕ) ℕ
two_layers =
    (6, record { config = config; layer = record fresh_layer { last_used = 1 ∷ 2 ∷ [] } })
    ∷ (7, record { config = config; layer = fresh_layer })
    ∷ []

abbrev forty : Scope
forty = record { start_layer = 7; n_layers = 40 }

abbrev pool : ℕ → Pool (List ℕ)
pool li = record { built = none; again = running; sub = running }

step_pre-scope_staging_example :
    step_pre (some forty) true pool (scope_staging false (some forty) two_layers)
    ≡ some (scope_staging false (some forty) two_layers)
step_pre-scope_staging_example = step_pre-scope_staging forty true pool two_layers

abbrev heads : Heads (List ℕ)
heads = record {
  head = λ owner m_in cur_oh prev_oh. owner ∷ m_in;
  zero_oh = [];
  select = λ logits. (logits, logits);
  to_list = λ inds. inds;
}

abbrev captured : ℕ → Capture (List ℕ)
captured owner = record { m_in = some (3 ∷ 1 ∷ []); captured_oh = some [] }

abbrev state : PrerouterState (List ℕ)
state = record {
  n = 4;
  start = 2;
  owners = 1 ∷ 2 ∷ [];
  logits = λ i. none;
  logits_prev = λ i. none;
  pred_inds = λ i. none;
  pred_scores = λ i. none;
  oh = λ i. none;
  oh_prev = λ i. none;
}

owners-IsDistinct : IsDistinct (1 ∷ 2 ∷ [])
unfolding contains
owners-IsDistinct = (refl, (refl, tt))

second_set :
    lookup ℕ_discrete 3 (stage_all heads true captured (1 ∷ 2 ∷ []) state).1
    ≡ some (sorted_set (2 ∷ 3 ∷ 1 ∷ []))
unfolding lookup ℕ_discrete stage_all collect_features metas_of logits_of flat_rows store_rows
    features predict
second_set = refl

stage_all-Agrees_example :
    Agrees heads true
      (stage_all heads true captured (1 ∷ 2 ∷ []) state).0
      3
      (sorted_set (2 ∷ 3 ∷ 1 ∷ []))
stage_all-Agrees_example =
    stage_all-Agrees heads true captured (1 ∷ 2 ∷ []) state 3 (sorted_set (2 ∷ 3 ∷ 1 ∷ []))
      owners-IsDistinct second_set

-- Layer six holds its whole weights, and layer seven is about to run.
abbrev one_whole : Layers (List ℕ) ℕ
one_whole =
    (
      6,
      record {
        config = config;
        layer = record fresh_layer { full_weights = some (full_row config) };
      },
    )
    ∷ (7, record { config = config; layer = fresh_layer })
    ∷ []

before_layer-WholeIf_example :
    (layers : Layers (List ℕ) ℕ) × (before_layer true 20 0 4 7 one_whole ≡ some layers)
    × WholeIf (runs_whole true 20 7) 7 layers
before_layer-WholeIf_example =
    before_layer-WholeIf true 20 6 4 one_whole (inl (refl, refl), (inr (refl, refl), tt))

-- Two layers with counts, so that a hot stack is made of each.
abbrev counted_layers : Layers (List ℕ) ℕ
counted_layers =
    let l = record fresh_layer {
      stores = record fresh_layer.stores { hot_counts = (2, 5) ∷ (0, 3) ∷ [] };
    } in
    (0, record { config = config; layer = l }) ∷ (1, record { config = config; layer = l }) ∷ []

before_layers-InWindow_example : Windowed 0 4 (before_layers false 2 4 2 counted_layers)
before_layers-InWindow_example =
    before_layers-InWindow false 1 4 1 counted_layers (inl refl, (inl refl, tt))

ling_step-scope_ling_example :
    (ling_step_pre (some 7) true pool (scope_ling false (some 7) two_layers)
      ≡ some (scope_ling false (some 7) two_layers))
    × (ling_step_post (some 7) pool (λ li. none) (scope_ling false (some 7) two_layers)
        ≡ some (each_layer sync_staged (scope_ling false (some 7) two_layers)))
ling_step-scope_ling_example = ling_step-scope_ling 7 true pool (λ li. none) two_layers

abbrev ling_heads : LingHeads (List ℕ)
ling_heads = record {
  num_experts = 4;
  last_position = λ m. m;
  head = λ owner m_in cur_oh prev_oh. owner ∷ m_in;
  select = λ logits. (logits, logits);
  to_list = λ inds. inds;
}

abbrev ling_state : LingState (List ℕ)
ling_state = record {
  pg_cache = λ i. none;
  blocks = λ owner. record {
    m_in_cache = some (3 ∷ 1 ∷ []);
    last_topk = some ((1 ∷ 2 ∷ []) ∷ (0 ∷ 2 ∷ []) ∷ []);
    prev_topk_oh = none;
  };
}

ling_stage_all-IsRouted_example :
    IsRouted ling_heads
      (ling_stage_all ling_heads true (1 ∷ 2 ∷ []) ling_state).0
      3
      (sorted_set (2 ∷ 3 ∷ 1 ∷ []))
unfolding lookup ℕ_discrete ling_stage_all
ling_stage_all-IsRouted_example =
    ling_stage_all-IsRouted ling_heads (1 ∷ 2 ∷ []) ling_state 3 (sorted_set (2 ∷ 3 ∷ 1 ∷ []))
      owners-IsDistinct refl

ling_stage_all-ling_reset_example :
    ((ling_stage_all ling_heads true (1 ∷ 2 ∷ []) (ling_reset (1 ∷ 2 ∷ []) ling_state)).1 ≡ [])
    × ((ling_stage_all ling_heads true (1 ∷ 2 ∷ []) (ling_reset (1 ∷ 2 ∷ []) ling_state)).0.pg_cache
          3
        ≡ none)
ling_stage_all-ling_reset_example =
    ling_stage_all-ling_reset ling_heads true (1 ∷ 2 ∷ []) ling_state 3
