-- ===== src/Layer/Forward.antt =====
-- python/src/edge0/streaming/layer.py: `__call__`, which picks one of five paths. `X` is the
-- type of one token's activations. The gathered multiplications work row by row, so a call is a list of
-- rows, each a token with the expert that it is routed to; sorting the rows by expert and putting
-- them back, the compiled variants, and the cache of assembled stacks (`_staged_asm_cache`, whose
-- entries are what `_build_asm` gives) are left out.
pub mod Exact
pub mod Prefill
pub mod Decode
use edge.Base.{
  ℕ, zero, suc, ◌+◌, ◌-◌, ◌==◌, ◌%◌, List, [], ◌∷◌, ◌++◌, map, Option, none, some, Bool, true,
  false, not, ◌&&◌, ◌||◌, foldl, lookup, keys, contains, sorted_set, drop, if◌then◌else◌, length,
  ℕ_discrete, ltb, get_elem?, replicate,
}
use edge.Cache
use edge.Layer.State.{
  Proj, gate_proj, up_proj, down_proj, gate_up_proj, Part, weight, scales, biases, Bundle, Config,
  Key, key_discrete, HotBacking, Stores, Stats, Layer, Staged, Incr,
}
use edge.Layer.Build.{build, index_of}
use edge.Layer.Bundles.{bump_count, get_bundles, prefetch, is_some}
use edge.Layer.Incr.{zero_bundle}
use edge.Layer.Pins.{count_from, refresh_hot_pins}
use edge.Layer.Staging.{Built, Submission, number_from, zip_dict, stage_experts, wait_staged}

-- The operations of the tensor library.
pub record Kernels (T X : Type 0) : Type 0 where
  -- `quant.gather_qmm` for one row
  pub qmm : X → T → T → T → X
  -- `core.split(x, 2, axis=-1)`
  pub halves : X → X × X
  -- `_swiglu(x_up, x_gate)`
  pub swiglu : X → X → X
  pub add : X → X → X
  pub zeros_like : X → X

-- Whether a list of rows is long enough for a prefill path.
abbrev pub many : {X : Type 0} → List X → Bool
many rows = ltb 8 (length rows)

module _ {T F X : Type 0} (c : Config T F) (k : Kernels T X) where
  unfoldable pub qmm_of : X → Option T → Option T → Option T → Option X
  qmm_of x (some w) (some s) (some b) = some (k.qmm x w s b)
  qmm_of x (some w) (some s) none = none
  qmm_of x (some w) none _ = none
  qmm_of x none _ _ = none

  unfoldable pub project : X → Bundle T → Proj → Option X
  unfolding qmm_of
  project x b proj = qmm_of x (b proj weight) (b proj scales) (b proj biases)

  -- `_gather_gate_up`: the up and the gate projection of a row.
  unfoldable pub gate_up : X → Bundle T → Option (X × X)
  unfolding project
  gate_up x b =
      if c.fuse_gu
      then elim (project x b gate_up_proj) [
        | none ↦ none
        | some x_gu ↦ let (x_gate, x_up) = k.halves x_gu in some (x_up, x_gate)
      ]
      else elim (project x b up_proj) [
        | none ↦ none
        | some x_up ↦ elim (project x b gate_proj) [
          | none ↦ none
          | some x_gate ↦ some (x_up, x_gate)
        ]
      ]

  -- The output of one expert for one row; `none` is a missing tensor.
  unfoldable pub expert_math : X → Bundle T → Option X
  unfolding gate_up project
  expert_math x b = elim (gate_up x b) [
    | none ↦ none
    | some (x_up, x_gate) ↦ project (k.swiglu x_up x_gate) b down_proj
  ]

  -- `_moe_math`: the rows through a stack of experts, `local` telling the row of the stack.
  unfoldable pub gather : (ℕ → Bundle T) → (ℕ → ℕ) → List (X × ℕ) → List (Option X)
  unfolding expert_math
  gather stack local [] = []
  gather stack local ((x, e) ∷ rows) = expert_math x (stack (local e)) ∷ gather stack local rows

  abbrev pub experts_of : List (X × ℕ) → List ℕ
  experts_of rows = map (λ (r : X × ℕ). r.1) rows

  -- A stack of bundles; reading past its end gives no tensor.
  unfoldable pub stack_of : List (Bundle T) → ℕ → Bundle T
  stack_of bundles i = elim (get_elem? bundles i) [ none ↦ λ proj part. none | some b ↦ b ]

  -- `_build_asm`: the staged bundles, and zero slots up to `staged_n + 1`.
  unfoldable pub assemble : List (Bundle T) → List (Bundle T)
  unfolding zero_bundle
  assemble bundles = bundles ++ replicate (c.staged_n + 1 - length bundles) (zero_bundle c)

  -- A row on the hot path: the resident stack, whose last row is zero, and the exact output for a miss.
  -- The experts of the key are distinct, so `index_of` is `pos`.
  unfoldable pub hot_output : HotBacking → (ℕ → Bundle T) → X × ℕ → Option X
  unfolding expert_math
  hot_output h w (x, e) =
      if contains e h.key
      then expert_math x (w (index_of e h.key))
      else elim (expert_math x (w (length h.key))) [
        | none ↦ none
        | some z ↦ elim (expert_math x (build c (some h) e)) [
          | none ↦ none
          | some ze ↦ some (k.add z ze)
        ]
      ]

  -- The hot counts and the last token's experts, which both prefill paths record. `used` lists the
  -- routed experts in the order of the set and `width` is the number of experts of a token.
  unfoldable pub record_usage : Layer T F → (routed used : List ℕ) → (width : ℕ) → Layer T F
  unfolding bump_count
  record_usage l routed used width = record l {
    stores = record l.stores { hot_counts = foldl (bump_count c) l.stores.hot_counts used };
    last_prefill_topk =
        if c.staged_mode then some (drop (length routed - width) routed) else l.last_prefill_topk;
  }

  -- The bundle of an expert in a dictionary that `_get_bundles` filled.
  unfoldable pub value_of : Option (Option (Bundle T)) → Bundle T
  value_of none proj part = none
  value_of (some none) proj part = none
  value_of (some (some b)) proj part = b proj part

  -- `bundles.values()`, in the order of the experts asked for.
  unfoldable pub values_in : List (ℕ × Option (Bundle T)) → List ℕ → List (Bundle T)
  unfolding value_of
  values_in d experts = map (λ e. value_of (lookup ℕ_discrete e d)) experts

  -- The exact path.
  unfoldable pub exact_path : Layer T F → List (X × ℕ) → Layer T F × List (Option X)
  unfolding gather stack_of values_in number_from
  exact_path l rows =
      let unique = sorted_set (experts_of rows) in
      let (s, bundles) = get_bundles c l.stores unique in
      (
        record l { last_used = unique; stores = s },
        gather (stack_of (values_in bundles unique)) (number_from 0 unique (λ e. length unique))
            rows,
      )

  -- The slots of a set serve `n` rows.
  unfoldable pub consume : Layer T F → Staged T → ℕ → Layer T F
  consume l st n =
      let stats = l.stores.stats in
      record l {
        staged_at_use = some st.experts;
        stores = record l.stores { stats = record stats { staged_used = stats.staged_used + n } };
      }

  -- No set is ready.
  unfoldable pub fall_back : Layer T F → Layer T F
  fall_back l =
      let stats = l.stores.stats in
      record l {
        staged_at_use = none;
        stores = record l.stores {
          stats = record stats { staged_fallback = stats.staged_fallback + 1 };
        };
      }

  -- The row that an expert's slot has, in the persistent stack or in a stack assembled from the
  -- bundles.
  unfoldable pub staged_row : Option (Incr T) → Staged T → ℕ → Bundle T
  unfolding stack_of assemble
  staged_row none st e = stack_of (assemble st.bundles) (st.slot_of e)
  staged_row (some t) st e =
      if c.incr_mode then t.rows (t.slot_table e) else stack_of (assemble st.bundles) (st.slot_of e)

  unfoldable pub staged_output : Option (Incr T) → Staged T → List (X × ℕ) → List (Option X)
  unfolding gather staged_row
  staged_output t st rows = gather (staged_row t st) (λ e. e) rows

  -- The staged path after `wait_staged`.
  unfoldable pub staged_path : Layer T F → List (X × ℕ) → Layer T F × List (Option X)
  unfolding exact_path staged_output consume fall_back
  staged_path l rows = elim l.staged_state [
    | none ↦ exact_path (fall_back l) rows
    | some st ↦ (consume l st (length rows), staged_output l.incr st rows)
  ]

  -- The start of `__call__`.
  unfoldable pub begin_call : Layer T F → Option (List ℕ) → (cands : List ℕ) → Layer T F
  begin_call l routed cands =
      let calls = l.calls + 1 in
      let s =
        if calls % c.hot_update_interval == 0
        then refresh_hot_pins c l.stores l.predicted_experts cands
        else l.stores in
      record l { calls = calls; pending_indices = routed; stores = s }

  -- The output of the two prefill paths, of the resident stack and of the whole layer, if one is taken.
  unfoldable pub prefill_output : Layer T F → List (X × ℕ) → Option (List (Option X))
  unfolding hot_output gather
  prefill_output l rows =
      if many rows
      then elim l.full_weights [
        | some w ↦ some (gather w (λ e. e) rows)
        | none ↦ elim l.hot_weights [
          | none ↦ none
          | some w ↦ elim l.stores.hot_backing [
            | none ↦ none
            | some h ↦ some (map (hot_output h w) rows)
          ]
        ]
      ]
      else none

  -- The staged path if the number of rows is the trigger, else the exact path.
  unfoldable pub decode :
      Layer T F
      → List (X × ℕ)
      → (built : Built T) → (again : Submission) → (landed : Option (Built T × Submission))
      → Layer T F × List (Option X)
  unfolding staged_path exact_path
  decode l rows built again landed =
      if c.staged_mode && (length rows == c.staged_trigger)
      then staged_path (wait_staged c l built again landed) rows
      else exact_path l rows

  -- `__call__` with router indices. `used` and `cands` list sets in the order of their iteration, the
  -- arguments after them are those of `wait_staged`.
  unfoldable pub call :
      Layer T F
      → (rows : List (X × ℕ)) → (width : ℕ) → (used cands : List ℕ) → (built : Built T)
      → (again : Submission) → (landed : Option (Built T × Submission))
      → Layer T F × List (Option X)
  unfolding begin_call prefill_output record_usage decode
  call l rows width used cands built again landed =
      let routed = experts_of rows in
      let l' = begin_call l (some routed) cands in
      elim (prefill_output l' rows) [
        | some out ↦ (record_usage l' routed used width, out)
        | none ↦ decode l' rows built again landed
      ]

  -- `__call__` without router indices: the staged set is the routing. Nothing staged gives zero.
  unfoldable pub call_replace :
      Layer T F
      → X
      → (cands : List ℕ) → (built : Built T) → (again : Submission)
      → (landed : Option (Built T × Submission)) → Layer T F × List (Option X)
  unfolding begin_call gather stack_of assemble consume fall_back count_from
  call_replace l x cands built again landed =
      let l' = wait_staged c (begin_call l none cands) built again landed in
      elim l'.staged_state [
        | none ↦ (fall_back l', some (k.zeros_like x) ∷ [])
        | some st ↦ (
          record (consume l' st (length st.experts)) { last_used = st.experts },
          gather (stack_of (assemble st.bundles)) (λ i. i)
              (map (λ i. (x, i)) (count_from 0 (length st.experts))),
        )
      ]
