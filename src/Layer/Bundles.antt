-- ===== src/Layer/Bundles.antt =====
-- python/src/edge0/streaming/layer.py: `_get_bundles`, `prefetch`, `prefetch_all` and
-- `_on_prefetch_done`. A future of the prefetch pool is the expert that it builds: its value is what
-- `_build` gives when it is asked for. That `_build` raises in it is left out.
pub mod Steps
pub mod Exact
use edge.Base.{
  ℕ, zero, suc, ◌+◌, ◌==◌, ◌≡◌, List, [], ◌∷◌, ◌++◌, Option, none, some, Bool, true, false, not,
  ◌||◌, foldl, lookup, store, contains, sorted_set, if◌then◌else◌, ltb, length, ℕ_discrete, arith,
}
use edge.Cache
use edge.Buffer
use edge.Layer.State.{Bundle, Config, Key, key_discrete, Stores, Stats}
use edge.Layer.Build.{build}

-- The local variables of `_get_bundles` beside the state.
pub record Fetch (T F : Type 0) : Type 0 where
  pub stores : Stores T F
  pub bundles : List (ℕ × Option (Bundle T))
  pub missing : List ℕ

-- `o is not None`
unfoldable pub is_some {ℓ} : {A : Type ℓ} → Option A → Bool
is_some none = false
is_some (some a) = true

-- `d.pop(e, None)` on the dictionary of futures.
unfoldable pub settle : ℕ → List ℕ → List ℕ
settle e [] = []
settle e (x ∷ xs) = if x == e then settle e xs else x ∷ settle e xs

module _ {T F : Type 0} (c : Config T F) where
  -- `self._hot_counts[e] = self._hot_counts.get(e, 0.0) * self.hot_decay + 1.0`
  unfoldable pub bump_count : List (ℕ × F) → ℕ → List (ℕ × F)
  bump_count counts e =
      let old : F = elim (lookup ℕ_discrete e counts) [ none ↦ c.floats.zero_count | some n ↦ n ] in
      store ℕ_discrete e (c.floats.bump old) counts

  unfoldable pub take_pinned : Fetch T F → ℕ → Fetch T F
  take_pinned a e = elim (lookup ℕ_discrete e a.stores.pinned) [
    | some p ↦ record a { bundles = store ℕ_discrete e (some p) a.bundles }
    | none ↦ record a { bundles = store ℕ_discrete e none a.bundles; missing = a.missing ++ e ∷ [] }
  ]

  unfoldable pub take_cached : Fetch T F → ℕ → Fetch T F
  take_cached a e =
      let s = a.stores in
      let (cache, found) = Cache.get key_discrete s.shared_cache (c.layer_idx, e) in
      elim found [
        | some b ↦ record a {
          stores = record s {
            shared_cache = cache;
            stats = record s.stats { hits = s.stats.hits + 1 };
          };
          bundles = store ℕ_discrete e (some b) a.bundles;
        }
        | none ↦ record a {
          stores = record s { shared_cache = cache };
          missing = a.missing ++ e ∷ [];
        }
      ]

  -- A bundle from the prefetch buffer or from a prefetch in flight moves to the shared cache.
  unfoldable pub promote : Stores T F → ℕ → Bundle T → Stores T F
  unfolding bump_count
  promote s e b = record s {
    hot_counts = bump_count s.hot_counts e;
    shared_cache = Cache.put key_discrete s.shared_cache (c.layer_idx, e) b;
    stats = record s.stats { prefetch_hits = s.stats.prefetch_hits + 1; hits = s.stats.hits + 1 };
  }

  unfoldable pub take_prefetched : Fetch T F → ℕ → Fetch T F
  unfolding promote
  take_prefetched a e =
      let s = a.stores in
      let (buf, found) = Buffer.pop key_discrete s.prefetch_buf (c.layer_idx, e) in
      let s' : Stores T F = record s { prefetch_buf = buf } in
      elim found [
        | some b ↦ record a {
          stores = promote s' e b;
          bundles = store ℕ_discrete e (some b) a.bundles;
        }
        | none ↦ record a { stores = s'; missing = a.missing ++ e ∷ [] }
      ]

  unfoldable pub take_inflight : Fetch T F → ℕ → Fetch T F
  unfolding promote settle
  take_inflight a e =
      let s = a.stores in
      let b = build c s.hot_backing e in
      if contains e s.inflight
      then record a {
        stores = promote (record s { inflight = settle e s.inflight }) e b;
        bundles = store ℕ_discrete e (some b) a.bundles;
      }
      else record a { missing = a.missing ++ e ∷ [] }

  unfoldable pub take_built : Fetch T F → ℕ → Fetch T F
  unfolding bump_count
  take_built a e =
      let s = a.stores in
      record a {
        stores = record s {
          hot_counts = bump_count s.hot_counts e;
          stats = record s.stats { loads = s.stats.loads + 1 };
        };
        bundles = store ℕ_discrete e (some (build c s.hot_backing e)) a.bundles;
      }

  unfoldable pub cache_built : Fetch T F → ℕ → Fetch T F
  cache_built a e =
      let s = a.stores in
      record a {
        stores = record s {
          shared_cache =
              Cache.put key_discrete s.shared_cache (c.layer_idx, e) (build c s.hot_backing e);
        };
      }

  -- One loop of `_get_bundles` over the experts that are still missing.
  unfoldable pub round : (Fetch T F → ℕ → Fetch T F) → Fetch T F → Fetch T F
  round step a = foldl step (record a { missing = [] }) a.missing

  -- The first four loops, which look at what is at hand.
  unfoldable pub look_up : Stores T F → List ℕ → Fetch T F
  unfolding round take_pinned take_cached take_prefetched take_inflight
  look_up s experts =
      let a = foldl take_pinned (record { stores = s; bundles = []; missing = [] }) experts in
      round take_inflight (round take_prefetched (round take_cached a))

  unfoldable pub get_bundles : Stores T F → List ℕ → Stores T F × List (ℕ × Option (Bundle T))
  unfolding look_up take_built cache_built
  get_bundles s experts =
      let a = look_up s experts in
      let cached = foldl cache_built (round take_built a) a.missing in
      (cached.stores, cached.bundles)

  -- What `prefetch` does not submit: an expert at hand, or on its way.
  unfoldable pub is_at_hand : Stores T F → ℕ → Bool
  is_at_hand s e =
      is_some (lookup ℕ_discrete e s.pinned)
      || contains e s.inflight
      || is_some (Cache.peek key_discrete s.shared_cache (c.layer_idx, e))
      || Buffer.contains key_discrete s.prefetch_buf (c.layer_idx, e)

  unfoldable pub missing_of : Stores T F → List ℕ → List ℕ
  unfolding is_at_hand
  missing_of s [] = []
  missing_of s (e ∷ es) = if is_at_hand s e then missing_of s es else e ∷ missing_of s es

  -- The locked part of `prefetch`. The readahead hint changes nothing here. The callbacks are
  -- registered afterwards, and run as `on_prefetch_done`.
  unfoldable pub prefetch : Stores T F → List ℕ → Stores T F
  unfolding missing_of
  prefetch s experts =
      let missing = missing_of s (sorted_set experts) in
      record s {
        inflight = s.inflight ++ missing;
        stats = record s.stats { prefetch_submitted = s.stats.prefetch_submitted + length missing };
      }

  -- `range(n)` from `start`
  unfoldable pub range_from : ℕ → ℕ → List ℕ
  range_from start zero = []
  range_from start (suc n) = start ∷ range_from (suc start) n

  unfoldable pub prefetch_all : Stores T F → Stores T F
  unfolding prefetch range_from
  prefetch_all s =
      let n = c.num_experts in
      let buf =
        if ltb s.prefetch_buf.cap (n + 32)
        then Buffer.set_cap s.prefetch_buf (n + 32)
        else s.prefetch_buf in
      prefetch (record s { prefetch_buf = buf }) (range_from 0 n)

  -- The callback of a prefetch; `none` is a build that raised.
  unfoldable pub on_prefetch_done : Stores T F → ℕ → Option (Bundle T) → Stores T F
  on_prefetch_done s e none = record s { inflight = settle e s.inflight }
  on_prefetch_done s e (some b) =
      let s' : Stores T F = record s { inflight = settle e s.inflight } in
      let (buf, evicted) = Buffer.put key_discrete s.prefetch_buf (c.layer_idx, e) b in
      if is_some (Cache.peek key_discrete s.shared_cache (c.layer_idx, e)) then s' else record s' {
        prefetch_buf = buf;
        stats =
            if is_some evicted
            then record s.stats { prefetch_wasted = s.stats.prefetch_wasted + 1 }
            else s.stats;
      }
