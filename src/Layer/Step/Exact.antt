-- ===== src/Layer/Step/Exact.antt =====
-- What `sync_actuals` promotes into the shared cache is the checkpoint's.
use edge.Base.{
  ℕ, ◌+◌, ◌≡◌, ◌∙◌, sym, List, [], ◌∷◌, Option, none, some, foldl, lookup, IsSound, lookup-IsSound,
  ℕ_discrete, inl, inr, Option-cases, sorted_set, if_ind,
}
use edge.Cache
use edge.Layer.State.{Bundle, Config, Key, key_discrete, Stores, Staged, Layer}
use edge.Layer.Build.{build_cold}
use edge.Layer.Build.Exact.{IsPaired}
use edge.Layer.Bundles.Steps.{IsExact}
use edge.Layer.Bundles.{bump_count}
use edge.Layer.Staging.{zip_dict}
use edge.Layer.Staging.Exact.{IsStagedSet, zip_dict-IsSound}
use edge.Layer.Step.{promote_used, promote_all, dropped, sync_actuals}

module _ {T F : Type 0} (c : Config T F) (paired : IsPaired c) (ckpt : Key → Bundle T)
    (own : (e : ℕ) → ckpt (c.layer_idx, e) ≡ build_cold c e) where
  abbrev Exact : Stores T F → Type 0
  Exact s = IsExact c paired ckpt own s

  promote_used-Exact :
      (smap : List (ℕ × Bundle T)) (s : Stores T F) (e : ℕ)
      → IsSound ℕ_discrete (build_cold c) smap
      → Exact s
      → Exact (promote_used c smap s e)
  unfolding promote_used
  promote_used-Exact smap s e sound h = elim (Option-cases (lookup ℕ_discrete e s.pinned)) [
    | inr (p, pin) ↦ rw (pin, promote_used) h
    | inl loose ↦ elim (Option-cases (lookup ℕ_discrete e smap)) [
      | inl absent ↦ rw (loose, absent, promote_used) h
      | inr (b, staged) ↦
          rw (loose, staged, promote_used)
            (record {
              pinned = h.pinned;
              cached =
                  Cache.Laws.put-IsSound key_discrete ckpt s.shared_cache (c.layer_idx, e) b
                    h.cached
                    (lookup-IsSound ℕ_discrete (build_cold c) e smap b sound staged ∙ sym (own e));
              buffered = h.buffered;
              backed = h.backed;
            })
    ]
  ]

  foldl-promote_used :
      (smap : List (ℕ × Bundle T)) (es : List ℕ) (s : Stores T F)
      → IsSound ℕ_discrete (build_cold c) smap
      → Exact s
      → Exact (foldl (promote_used c smap) s es)
  foldl-promote_used smap [] s sound h = h
  foldl-promote_used smap (e ∷ es) s sound h =
      foldl-promote_used smap es (promote_used c smap s e) sound
        (promote_used-Exact smap s e sound h)

  promote_all-Exact :
      (active : Option (Staged T)) (es : List ℕ) (s : Stores T F)
      → IsStagedSet c paired ckpt own active
      → Exact s
      → Exact (promote_all c active es s)
  unfolding promote_all
  promote_all-Exact none es s ok h = h
  promote_all-Exact (some st) es s ok h =
      foldl-promote_used (zip_dict st.experts st.bundles) es s
        (rw ok (zip_dict-IsSound c paired ckpt own st.experts)) h

  abbrev counted : Layer T F → List ℕ → Stores T F
  counted l unique = record l.stores {
    hot_counts = foldl (bump_count c) l.stores.hot_counts unique;
    stats = record l.stores.stats {
      staged_dropped = l.stores.stats.staged_dropped + dropped c l.staged_at_use unique;
    };
  }

  sync_actuals-some :
      (l : Layer T F) (flat : List ℕ)
      → l.pending_indices ≡ some flat
      → IsStagedSet c paired ckpt own l.staged_state
      → Exact l.stores
      → Exact (sync_actuals c l).stores
  unfolding sync_actuals
  sync_actuals-some l [] e ok h = rw (e, sync_actuals) h
  sync_actuals-some l (v ∷ vs) e ok h =
      let unique = sorted_set (v ∷ vs) in
      let after : Exact (counted l unique) = record {
        pinned = h.pinned;
        cached = h.cached;
        buffered = h.buffered;
        backed = h.backed;
      } in
      rw (e, sync_actuals)
        (if_ind Exact c.incr_writeback after
          (promote_all-Exact l.staged_state unique (counted l unique) ok after))

  -- With an active set that holds the checkpoint's bundles, `sync_actuals` leaves stores that hold
  -- nothing else, whether it promotes what the step used or not.
  pub sync_actuals-IsExact :
      (l : Layer T F)
      → IsStagedSet c paired ckpt own l.staged_state
      → Exact l.stores
      → Exact (sync_actuals c l).stores
  unfolding sync_actuals
  sync_actuals-IsExact l ok h = elim (Option-cases l.pending_indices) [
    | inl idle ↦ rw (idle, sync_actuals) h
    | inr (flat, e) ↦ sync_actuals-some l flat e ok h
  ]
