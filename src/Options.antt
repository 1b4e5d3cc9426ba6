-- ===== src/Options.antt =====
-- python/src/edge0/streaming/options.py: the options of a streaming layer and the tier presets. The
-- two fractions are written in hundredths (`hot_decay = 75` is 0.75).
use edge.Base.{ℕ, Bool, true, false, Option, none, some}

pub record LayerOptions : Type 0 where
  pub staged : Bool
  pub staged_replace : Bool
  pub staged_n : ℕ
  pub staged_trigger : ℕ
  pub staged_sync : Bool
  pub asm_cache : Bool
  pub incr_stack : Bool
  pub incr_writeback : Bool
  pub history_prefetch : Bool
  pub hot_per_layer : ℕ
  pub hot_update_interval : ℕ
  pub hot_decay : ℕ
  pub pin_bonus : ℕ
  pub cache_slots : ℕ
  pub prefetch_cap : ℕ
  pub load_threads : ℕ
  pub prefetch_threads : ℕ
  pub use_compile : Bool
  pub top_k : Option ℕ
  pub full_layer_prefill : Bool
  pub prefill_full_layers : ℕ
  pub prefill_hot : ℕ
  pub warm_willneed : Bool

abbrev pub default_options : LayerOptions
default_options = record {
  staged = false;
  staged_replace = false;
  staged_n = 8;
  staged_trigger = 8;
  staged_sync = true;
  asm_cache = true;
  incr_stack = false;
  incr_writeback = false;
  history_prefetch = true;
  hot_per_layer = 0;
  hot_update_interval = 4;
  hot_decay = 75;
  pin_bonus = 200;
  cache_slots = 64;
  prefetch_cap = 48;
  load_threads = 8;
  prefetch_threads = 4;
  use_compile = true;
  top_k = none;
  full_layer_prefill = false;
  prefill_full_layers = 0;
  prefill_hot = 0;
  warm_willneed = false;
}

abbrev pub staged_k4 : LayerOptions
staged_k4 = record default_options {
  staged = true;
  staged_n = 4;
  staged_trigger = 4;
  incr_stack = true;
  incr_writeback = true;
  warm_willneed = true;
  top_k = some 4;
  prefill_hot = 32;
}

abbrev pub staged_k8 : LayerOptions
staged_k8 = record default_options { staged = true; top_k = some 8; full_layer_prefill = true }

abbrev pub prod_k8 : LayerOptions
prod_k8 = record default_options {
  staged = true;
  history_prefetch = false;
  top_k = some 8;
  full_layer_prefill = true;
}
