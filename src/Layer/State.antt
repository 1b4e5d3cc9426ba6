-- ===== src/Layer/State.antt =====
-- The state of a StreamingSwitchGLU. `T` is the type of device tensors and `F` that of the floats
-- that count how often an expert is used. What `__init__` fixes is the Config, the rest is the Layer.
-- Wall-clock statistics are left out.
use edge.Base.{ℕ, List, [], ◌∷◌, Option, Bool, true, false, not, ◌&&◌, max, ℕ_discrete}
use edge.Options.{LayerOptions}
use edge.Cache.{SharedExpertCache}
use edge.Buffer.{PrefetchBuffer}

pub data Proj : Type 0 where
  gate_proj up_proj down_proj gate_up_proj : Proj

pub data Part : Type 0 where
  weight scales biases : Part

-- `spec.bundle_projs`: the projections that a bundle contains, for either weight layout.
unfoldable pub bundle_projs : Bool → List Proj
bundle_projs true = gate_up_proj ∷ down_proj ∷ []
bundle_projs false = up_proj ∷ gate_proj ∷ down_proj ∷ []

unfoldable pub has_proj : Bool → Proj → Bool
has_proj true gate_proj = false
has_proj true up_proj = false
has_proj true down_proj = true
has_proj true gate_up_proj = true
has_proj false gate_up_proj = false
has_proj false _ = true

-- One expert's tensors, by projection and part; `none` is a missing key.
abbrev pub Bundle : Type 0 → Type 0
Bundle T = Proj → Part → Option T

-- The floats of the usage counts.
pub record Floats (F : Type 0) : Type 0 where
  pub zero_count : F
  -- `c * decay + 1.0`
  pub bump : F → F
  -- `c + pin_bonus`
  pub add_bonus : F → F
  -- `a > b`
  pub above : F → F → Bool

pub record Config (T F : Type 0) : Type 0 where
  pub layer_idx : ℕ
  pub num_experts : ℕ
  pub fuse_gu : Bool
  pub staged_mode : Bool
  pub staged_replace : Bool
  pub staged_n : ℕ
  pub staged_trigger : ℕ
  pub staged_sync : Bool
  pub incr_mode : Bool
  pub incr_writeback : Bool
  pub warm_willneed : Bool
  pub keeps_asm : Bool
  pub hot_per_layer : ℕ
  pub hot_update_interval : ℕ
  pub floats : Floats F
  -- The bytes of the stacked tensor of a projection and part in the checkpoint.
  pub raw : Proj → Part → List ℕ
  -- `core.array` of the bytes, viewed and shaped for one expert.
  pub to_tensor : Proj → Part → List ℕ → T
  -- `core.zeros` of one expert's shape.
  pub zeros : Proj → Part → T

-- The part of `__init__` that reads the options.
unfoldable pub configure :
    {T F : Type 0}
    → LayerOptions
    → (layer_idx num_experts : ℕ) → (fuse_gu : Bool) → Floats F
    → (raw : Proj → Part → List ℕ) → (to_tensor : Proj → Part → List ℕ → T)
    → (zeros : Proj → Part → T) → Config T F
configure o layer_idx num_experts fuse_gu floats raw to_tensor zeros =
    let incr_mode = o.incr_stack && (o.staged && (o.staged_sync && not o.staged_replace)) in
    record {
      layer_idx = layer_idx;
      num_experts = num_experts;
      fuse_gu = fuse_gu;
      staged_mode = o.staged;
      staged_replace = o.staged_replace;
      staged_n = max 1 o.staged_n;
      staged_trigger = o.staged_trigger;
      staged_sync = o.staged_sync;
      incr_mode = incr_mode;
      incr_writeback = incr_mode && o.incr_writeback;
      warm_willneed = o.warm_willneed;
      keeps_asm = o.asm_cache;
      hot_per_layer = o.hot_per_layer;
      hot_update_interval = o.hot_update_interval;
      floats = floats;
      raw = raw;
      to_tensor = to_tensor;
      zeros = zeros;
    }

pub record Stats : Type 0 where
  pub loads : ℕ
  pub hits : ℕ
  pub prefetch_submitted : ℕ
  pub prefetch_hits : ℕ
  pub prefetch_wasted : ℕ
  pub staged_used : ℕ
  pub staged_dropped : ℕ
  pub staged_fallback : ℕ
  pub stage_delta_hits : ℕ
  pub stage_cache_hits : ℕ
  pub stage_builds : ℕ
  pub incr_writes : ℕ

abbrev pub no_stats : Stats
no_stats = record {
  loads = 0;
  hits = 0;
  prefetch_submitted = 0;
  prefetch_hits = 0;
  prefetch_wasted = 0;
  staged_used = 0;
  staged_dropped = 0;
  staged_fallback = 0;
  stage_delta_hits = 0;
  stage_cache_hits = 0;
  stage_builds = 0;
  incr_writes = 0;
}

-- A key of the shared caches: the layer and the expert.
abbrev pub Key : Type 0
Key = ℕ × ℕ

unfoldable pub key_discrete : Discrete Key
key_discrete = hlevel ℕ_discrete

-- `_hot_backing` with `_hot_key`, which are set and cleared together; `_hot_set` is the key's set.
pub record HotBacking : Type 0 where
  pub key : List ℕ
  pub rows : Proj → Part → List ℕ

-- A set of staged slots: `(bundles, slot_of, experts)`.
pub record Staged (T : Type 0) : Type 0 where
  pub bundles : List (Bundle T)
  pub slot_of : ℕ → ℕ
  pub experts : List ℕ

-- The persistent stack: the rows of `_incr_tensors` by slot, `_incr_slot_table` by expert and
-- `_incr_occupancy` by slot.
pub record Incr (T : Type 0) : Type 0 where
  pub rows : ℕ → Bundle T
  pub slot_table : ℕ → ℕ
  pub occupancy : ℕ → Option ℕ

-- Where bundles are kept: what `_get_bundles` and `prefetch` work on.
pub record Stores (T F : Type 0) : Type 0 where
  pub pinned : List (ℕ × Bundle T)
  pub hot_counts : List (ℕ × F)
  pub shared_cache : SharedExpertCache Key (Bundle T)
  pub prefetch_buf : PrefetchBuffer Key (Bundle T)
  pub inflight : List ℕ
  pub hot_backing : Option HotBacking
  pub stats : Stats

pub record Layer (T F : Type 0) : Type 0 where
  pub stores : Stores T F
  pub calls : ℕ
  pub full_weights : Option (ℕ → Bundle T)
  pub hot_weights : Option (ℕ → Bundle T)
  pub predicted_experts : List ℕ
  pub last_used : List ℕ
  pub staged_state : Option (Staged T)
  pub staged_state_next : Option (Staged T)
  -- The experts of the fill that `_staging_future` computes.
  pub staging_future : Option (List ℕ)
  -- `_staged_rearm` holds that future, which is done and whose callback has not run.
  pub staged_rearm : Bool
  pub staged_pending : Option (List ℕ)
  pub pending_indices : Option (List ℕ)
  pub staged_at_use : Option (List ℕ)
  pub last_prefill_topk : Option (List ℕ)
  pub incr : Option (Incr T)
  pub incr_bundles : List (ℕ × Bundle T)
