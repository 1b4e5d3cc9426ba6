-- ===== src/Layer/Pins/Exact.antt =====
-- The pins hold the checkpoint's bundles, and no more of them than they may.
use edge.Base.{
  ℕ, ◌≡◌, ◌∙◌, List, [], ◌∷◌, ◌==◌, foldl, lookup, IsSound, store-IsSound, ℕ_discrete, inl, inr,
  Option-cases, Bool-cases, contains, if_ind,
}
use edge.Cache
use edge.Layer.State.{Bundle, Config, Key, key_discrete, Stores}
use edge.Layer.Build.{build, build_cold}
use edge.Layer.Build.Exact.{IsPaired, build-eq-cold}
use edge.Layer.Bundles.Steps.{IsExact}
use edge.Layer.Pins.{keep_in, pin_target, pin_expert, refresh_hot_pins}

module _ {T F : Type 0} (c : Config T F) (paired : IsPaired c) (ckpt : Key → Bundle T)
    (own : (e : ℕ) → ckpt (c.layer_idx, e) ≡ build_cold c e) where
  abbrev Exact : Stores T F → Type 0
  Exact s = IsExact c paired ckpt own s

  keep_in-IsSound :
      (target : List ℕ) (d : List (ℕ × Bundle T))
      → IsSound ℕ_discrete (build_cold c) d
      → IsSound ℕ_discrete (build_cold c) (keep_in target d)
  unfolding keep_in
  keep_in-IsSound target [] h = tt
  keep_in-IsSound target ((e, b) ∷ d) h = elim (Bool-cases (contains e target)) [
    | inl kept ↦ rw kept (h.0, keep_in-IsSound target d h.1)
    | inr gone ↦ rw gone (keep_in-IsSound target d h.1)
  ]

  pin_expert-Exact : (s : Stores T F) (e : ℕ) → Exact s → Exact (pin_expert c s e)
  unfolding pin_expert
  pin_expert-Exact s e h =
      let key : Key = (c.layer_idx, e) in
      let popped = Cache.pop key_discrete s.shared_cache key in
      let kept = Cache.Laws.pop-IsSound key_discrete ckpt s.shared_cache key h.cached in
      elim (Option-cases popped.1) [
        | inr (b, hit) ↦
            rw (hit, pin_expert)
              (record {
                pinned = store-IsSound ℕ_discrete (build_cold c) e b s.pinned h.pinned (
                    Cache.Laws.pop_hit-IsSound key_discrete ckpt s.shared_cache key b h.cached hit
                    ∙ own e);
                cached = kept;
                buffered = h.buffered;
                backed = h.backed;
              })
        | inl cold ↦ elim (Option-cases (lookup ℕ_discrete e s.pinned)) [
          | inr (b, pin) ↦ rw (cold, pin, pin_expert) h
          | inl loose ↦
              rw (cold, loose, pin_expert)
                (record {
                  pinned =
                      store-IsSound ℕ_discrete (build_cold c) e (build c s.hot_backing e) s.pinned
                        h.pinned (build-eq-cold c paired s.hot_backing e h.backed);
                  cached = h.cached;
                  buffered = h.buffered;
                  backed = h.backed;
                })
        ]
      ]

  foldl-pin_expert : (es : List ℕ) (s : Stores T F) → Exact s → Exact (foldl (pin_expert c) s es)
  foldl-pin_expert [] s h = h
  foldl-pin_expert (e ∷ es) s h = foldl-pin_expert es (pin_expert c s e) (pin_expert-Exact s e h)

  -- Refreshing the pins moves bundles from the shared cache, keeps or builds them; the stores still
  -- hold nothing but the checkpoint's bundles.
  pub refresh_hot_pins-IsExact :
      (s : Stores T F) (predicted cands : List ℕ)
      → Exact s
      → Exact (refresh_hot_pins c s predicted cands)
  unfolding refresh_hot_pins
  refresh_hot_pins-IsExact s predicted cands h = if_ind Exact (c.hot_per_layer == 0) h (
      foldl-pin_expert (pin_target c s.hot_counts predicted cands)
        (record s { pinned = keep_in (pin_target c s.hot_counts predicted cands) s.pinned })
        (record {
          pinned = keep_in-IsSound (pin_target c s.hot_counts predicted cands) s.pinned h.pinned;
          cached = h.cached;
          buffered = h.buffered;
          backed = h.backed;
        }))
