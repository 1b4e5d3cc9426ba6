-- ===== src/Examples.antt =====
-- A layer with three experts in the production mode: the theorems of the layer applied to it.
use edge.Base.{
  inl, ℕ, ◌+◌, ◌*◌, ◌≡◌, ◌≢◌, refl, List, [], ◌∷◌, map, ap, none, some, true, false, lookup, take,
  contains, sorted_set, ℕ_discrete, arith, ltb, IsDistinct, AllBelow,
}
use native.Mathlib.Nat.{zero-mul}
use edge.Layer.State.{has_proj, Bundle, Config, Floats, Key, Layer, Stores, no_stats, Incr, Staged}
use edge.Layer.Build.{build, build_cold, stack_hot}
use edge.Layer.Build.Exact.{IsPaired, no_backing, backed, build-eq-cold, row_size}
use edge.Layer.Bundles.{get_bundles}
use edge.Layer.Bundles.Steps.{IsExact}
use edge.Layer.Bundles.Exact.{get_bundles-IsExact}
use edge.Layer.Incr.{stage_incr}
use edge.Layer.Incr.Sticky.{unallocated, Restaged}
use edge.Layer.Incr.Staging.{table_of, stage_incr-Restaged}
use edge.Layer.Staging.{running, stage_experts, wait_staged, build_staged_bundles}
use edge.Layer.Staging.{fill_staged, on_stage_done}
use edge.Layer.Async.{
  Fill, System, begin_fill, fill_one, end_fill, here, then_step, begun, resolved, ended, landed,
  waited,
}
use edge.Layer.Async.Settled.{IsSettled, IsSystem, Reach-IsSystem}
use edge.Layer.Staging.Failure.{submitted, first_landed, on_stage_done-stale}
use edge.Layer.Staging.Exact.{IsStagedSet, build_staged_bundles-Exact}
use edge.Layer.Staging.Sync.{IsIdle, Ready, wait_staged-stage_experts}
use edge.Layer.Pins.{full_row, hot_row}
use edge.Layer.Forward.{
  Kernels, experts_of, expert_math, gate_up, project, qmm_of, exact_path, prefill_output, decode,
}
use edge.Layer.Forward.Exact.{reference, exact_path-reference}
use edge.Layer.Forward.Prefill.{resident, prefill_output-reference, ZeroVanishes}
use edge.Layer.Forward.Decode.{served, decode-stage_experts}

abbrev counts : Floats ℕ
counts = record {
  zero_count = 0;
  bump = λ c. c + 1;
  add_bonus = λ c. c + 2;
  above = λ a b. ltb b a;
}

-- Three experts of one byte in each stacked tensor; two slots; the production mode.
abbrev pub config : Config (List ℕ) ℕ
config = record {
  layer_idx = 7;
  num_experts = 3;
  fuse_gu = false;
  staged_mode = true;
  staged_replace = false;
  staged_n = 2;
  staged_trigger = 2;
  staged_sync = true;
  incr_mode = true;
  incr_writeback = true;
  warm_willneed = false;
  keeps_asm = true;
  hot_per_layer = 1;
  hot_update_interval = 4;
  floats = counts;
  raw = λ proj part. 11 ∷ 12 ∷ 13 ∷ [];
  to_tensor = λ proj part bytes. bytes;
  zeros = λ proj part. 0 ∷ [];
}

paired : IsPaired config
paired part = refl

abbrev checkpoint : Key → Bundle (List ℕ)
checkpoint (li, e) = build_cold config e

own : (e : ℕ) → checkpoint (config.layer_idx, e) ≡ build_cold config e
own e = refl

abbrev fresh_stores : Stores (List ℕ) ℕ
fresh_stores = record {
  pinned = [];
  hot_counts = [];
  shared_cache = record { slots = 4; items = [] };
  prefetch_buf = record { cap = 4; entries = [] };
  inflight = [];
  hot_backing = none;
  stats = no_stats;
}

fresh_stores-IsExact : IsExact config paired checkpoint own fresh_stores
fresh_stores-IsExact = record { pinned = tt; cached = tt; buffered = tt; backed = no_backing }

abbrev pub fresh_layer : Layer (List ℕ) ℕ
fresh_layer = record {
  stores = fresh_stores;
  calls = 0;
  full_weights = none;
  hot_weights = none;
  predicted_experts = [];
  last_used = [];
  staged_state = none;
  staged_state_next = none;
  staging_future = none;
  staged_rearm = false;
  staged_pending = none;
  pending_indices = none;
  staged_at_use = none;
  last_prefill_topk = none;
  incr = none;
  incr_bundles = [];
}

fresh_layer-IsIdle : IsIdle config paired checkpoint own fresh_layer
fresh_layer-IsIdle = record {
  exact = fresh_stores-IsExact;
  active = tt;
  stack = unallocated;
  no_future = refl;
  no_rearm = refl;
}

abbrev total : List ℕ → ℕ
total [] = 0
total (n ∷ ns) = n + total ns

abbrev kernels : Kernels (List ℕ) ℕ
kernels = record {
  qmm = λ x w s b. total w * x;
  halves = λ x. (x, x);
  swiglu = λ up gate. up * gate;
  add = λ a b. a + b;
  zeros_like = λ x. 0;
}

-- A token whose two experts are the first, which is staged, and the last, which is not.
abbrev two_rows : List (ℕ × ℕ)
two_rows = (5, 0) ∷ (5, 2) ∷ []

some_expert : sorted_set (1 ∷ 0 ∷ []) ≢ []
unfolding sorted_set
some_expert h = ground (arith, h)

decode-stage_experts_example :
    (l' : Layer (List ℕ) ℕ) × (stage_experts config fresh_layer (1 ∷ 0 ∷ []) none running running
      ≡ some l')
    × ((decode config kernels l' two_rows none running none).1
        ≡ map
            (λ (r : ℕ × ℕ).
              expert_math config kernels r.0 (
                served config kernels paired checkpoint own (take 2 (sorted_set (1 ∷ 0 ∷ []))) r.1))
            two_rows)
decode-stage_experts_example =
    decode-stage_experts config kernels paired checkpoint own fresh_layer (1 ∷ 0 ∷ []) two_rows none
      none running running running refl refl some_expert refl fresh_layer-IsIdle

stage_incr-Restaged_example :
    (s' : Stores (List ℕ) ℕ) × (t' : Incr (List ℕ)) × (bundles : List (ℕ × Bundle (List ℕ)))
    × (staged : Staged (List ℕ)) × (stage_incr config fresh_stores none [] (2 ∷ 1 ∷ 0 ∷ [])
        ≡ some (s', t', bundles, staged))
    × Restaged config paired checkpoint own s'
        (table_of config none)
        []
        (take 2 (sorted_set (2 ∷ 1 ∷ 0 ∷ [])))
        t'
        bundles
        staged
stage_incr-Restaged_example =
    stage_incr-Restaged config paired checkpoint own fresh_stores none [] (2 ∷ 1 ∷ 0 ∷ [])
      unallocated fresh_stores-IsExact

two_experts-IsDistinct : IsDistinct (2 ∷ 1 ∷ [])
unfolding contains
two_experts-IsDistinct = (refl, (refl, tt))

one_inside : contains 1 (2 ∷ 1 ∷ []) ≡ true
unfolding contains
one_inside = refl

get_bundles-IsExact_example :
    IsExact config paired checkpoint own (get_bundles config fresh_stores (2 ∷ 1 ∷ [])).0
    × (lookup ℕ_discrete 1 (get_bundles config fresh_stores (2 ∷ 1 ∷ [])).1
        ≡ some (some (build_cold config 1)))
get_bundles-IsExact_example =
    get_bundles-IsExact config paired checkpoint own fresh_stores (2 ∷ 1 ∷ []) 1
      fresh_stores-IsExact two_experts-IsDistinct one_inside

exact_path-reference_example :
    IsExact config paired checkpoint own (exact_path config kernels fresh_layer two_rows).0.stores
    × ((exact_path config kernels fresh_layer two_rows).1 ≡ reference config kernels two_rows)
exact_path-reference_example =
    exact_path-reference config kernels paired checkpoint own fresh_layer two_rows
      fresh_stores-IsExact

-- Nine rows, more than the eight of a decode step.
abbrev nine_rows : List (ℕ × ℕ)
nine_rows = (5, 0) ∷ (5, 2) ∷ (4, 1) ∷ (3, 0) ∷ (3, 2) ∷ (4, 1) ∷ (1, 2) ∷ (1, 0) ∷ (2, 1) ∷ []

abbrev full_layer : Layer (List ℕ) ℕ
full_layer = record fresh_layer { full_weights = some (full_row config) }

abbrev hot_layer : Layer (List ℕ) ℕ
hot_layer = record fresh_layer {
  hot_weights = some (hot_row config (stack_hot config (2 ∷ 0 ∷ [])));
  stores = record fresh_stores { hot_backing = some (stack_hot config (2 ∷ 0 ∷ [])) };
}

zero_vanishes : ZeroVanishes config kernels paired
unfolding expert_math gate_up project qmm_of row_size has_proj
zero_vanishes x = (0, ap some (zero-mul (0 * x * (0 * x))), λ y. omega arith)

nine_below : AllBelow 3 (experts_of config kernels nine_rows)
nine_below = (
  omega arith,
  (
    omega arith,
    (
      omega arith,
      (omega arith, (omega arith, (omega arith, (omega arith, (omega arith, (omega arith, tt)))))),
    ),
  ),
)

prefill_output-reference_example :
    prefill_output config kernels hot_layer nine_rows ≡ some (reference config kernels nine_rows)
prefill_output-reference_example =
    prefill_output-reference config kernels paired hot_layer nine_rows
      (resident 2 (0 ∷ []) (omega arith, (omega arith, tt)) refl refl refl) refl nine_below
      zero_vanishes

wait_staged-stage_experts_example :
    (l' : Layer (List ℕ) ℕ) × (st : Staged (List ℕ)) × (stage_experts config fresh_layer
        (1 ∷ 0 ∷ [])
        none
        running
        running
      ≡ some l')
    × IsIdle config paired checkpoint own l'
    × (l'.staged_state ≡ none)
    × IsIdle config paired checkpoint own (wait_staged config l' none running none)
    × ((wait_staged config l' none running none).staged_state ≡ some st)
    × (st.experts ≡ take 2 (sorted_set (1 ∷ 0 ∷ [])))
    × IsStagedSet config paired checkpoint own (some st)
    × ((wait_staged config l' none running none).incr ≡ l'.incr)
    × Ready config paired checkpoint own (take 2 (sorted_set (1 ∷ 0 ∷ []))) l'.incr st
wait_staged-stage_experts_example =
    wait_staged-stage_experts config paired checkpoint own fresh_layer (1 ∷ 0 ∷ []) none none
      running running running refl refl some_expert fresh_layer-IsIdle

build_staged_bundles-Exact_example :
    IsExact config paired checkpoint own
      (build_staged_bundles config none fresh_stores (2 ∷ 0 ∷ [])).0
    × ((build_staged_bundles config none fresh_stores (2 ∷ 0 ∷ [])).1.experts
        ≡ take 2 (sorted_set (2 ∷ 0 ∷ [])))
    × IsStagedSet config paired checkpoint own
        (some (build_staged_bundles config none fresh_stores (2 ∷ 0 ∷ [])).1)
build_staged_bundles-Exact_example =
    build_staged_bundles-Exact config paired checkpoint own none fresh_stores (2 ∷ 0 ∷ []) tt
      fresh_stores-IsExact

build-eq-cold_example : build config (some (stack_hot config (2 ∷ 0 ∷ []))) 0 ≡ build_cold config 0
build-eq-cold_example =
    build-eq-cold config paired (some (stack_hot config (2 ∷ 0 ∷ []))) 0
      (backed (2 ∷ 0 ∷ []) (omega arith, (omega arith, tt)))

-- A layer after a step that used a staged expert and one that was not staged.
abbrev used_layer : Layer (List ℕ) ℕ
used_layer = record fresh_layer {
  staged_state =
      some (record { bundles = build_cold config 1 ∷ []; slot_of = λ e. 0; experts = 1 ∷ [] });
  pending_indices = some (2 ∷ 1 ∷ []);
  staged_at_use = some (1 ∷ []);
}

-- A layer in the asynchronous mode with a fill in flight and a set that waits.
abbrev async_config : Config (List ℕ) ℕ
async_config = record config { staged_sync = false; incr_mode = false; incr_writeback = false }

abbrev waiting_layer : Layer (List ℕ) ℕ
waiting_layer = record fresh_layer {
  staging_future = some (0 ∷ []);
  staged_pending = some (1 ∷ []);
}

-- The set of one expert.
abbrev set_of : ℕ → Staged (List ℕ)
set_of e = record { bundles = build_cold async_config e ∷ []; slot_of = λ q. 0; experts = e ∷ [] }

on_stage_done-stale_example :
    (fill_staged async_config
        (on_stage_done async_config waiting_layer none running)
        (2 ∷ [])
        running
      ≡ some (submitted async_config waiting_layer (2 ∷ [])))
    × ((first_landed async_config waiting_layer (2 ∷ []) (set_of 2)).staged_state_next
        ≡ some (set_of 2))
    × ((first_landed async_config waiting_layer (2 ∷ []) (set_of 2)).staging_future ≡ some (1 ∷ []))
    × (on_stage_done async_config
          (first_landed async_config waiting_layer (2 ∷ []) (set_of 2))
          (some (set_of 1))
          running
        ≡ record waiting_layer {
          staged_state_next = some (set_of 1);
          staged_pending = none;
          staging_future = none;
        })
on_stage_done-stale_example =
    on_stage_done-stale async_config waiting_layer (0 ∷ []) (1 ∷ []) (2 ∷ []) running (set_of 2)
      (set_of 1) refl refl refl

async_paired : IsPaired async_config
async_paired part = refl

abbrev async_checkpoint : Key → Bundle (List ℕ)
async_checkpoint (li, e) = build_cold async_config e

async_own : (e : ℕ) → async_checkpoint (async_config.layer_idx, e) ≡ build_cold async_config e
async_own e = refl

waiting_layer-IsSettled :
    IsSettled async_config async_paired async_checkpoint async_own waiting_layer
waiting_layer-IsSettled = record {
  exact = record { pinned = tt; cached = tt; buffered = tt; backed = no_backing };
  active = tt;
  next = tt;
}

-- The fill in flight begins, resolves its expert, ends and lands, and its set is made active.
abbrev waiting_system : System (List ℕ) ℕ
waiting_system = record { layer = waiting_layer; work = none; results = [] }

abbrev first_fill : Fill (List ℕ)
first_fill = begin_fill async_config waiting_layer (0 ∷ [])

abbrev resolved_system : System (List ℕ) ℕ
resolved_system = record waiting_system {
  layer = (fill_one async_config waiting_layer first_fill 0 []).0;
  work = some (fill_one async_config waiting_layer first_fill 0 []).1;
}

abbrev landed_set : Staged (List ℕ)
landed_set = end_fill async_config (fill_one async_config waiting_layer first_fill 0 []).1

abbrev landed_system : System (List ℕ) ℕ
landed_system = record {
  layer =
      wait_staged async_config
        (on_stage_done async_config resolved_system.layer (some landed_set) running) none running
        none;
  work = none;
  results = landed_set ∷ [];
}

waiting_system-IsSystem :
    IsSystem async_config async_paired async_checkpoint async_own waiting_system
waiting_system-IsSystem = record { settled = waiting_layer-IsSettled; filling = tt; good = tt }

Reach-IsSystem_example : IsSystem async_config async_paired async_checkpoint async_own landed_system
unfolding begin_fill fill_one sorted_set
Reach-IsSystem_example =
    Reach-IsSystem async_config async_paired async_checkpoint async_own waiting_system landed_system
      refl
      (then_step
        (then_step
          (then_step
            (then_step (then_step here (begun (0 ∷ []) refl)) (resolved first_fill 0 [] refl refl))
            (ended _ refl refl))
          (landed (some landed_set) running (inl refl)))
        (waited none running none tt tt))
      waiting_system-IsSystem
