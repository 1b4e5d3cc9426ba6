-- ===== src/Layer/Staging/Exact.antt =====
-- `_build_staged_bundles` gives each staged expert its bundle of the checkpoint.
use edge.Base.{
  ℕ, ◌≡◌, refl, List, [], ◌∷◌, ◌++◌, map, Option, none, some, foldl, lookup, take, sorted_set,
  ℕ_discrete, Option-cases, inl, inr, IsSound, lookup-IsSound, append_assoc, append-nil, ◌∙◌, sym,
  ap,
}
use edge.Cache
use edge.Layer.State.{Bundle, Config, Key, key_discrete, Stores, Staged}
use edge.Layer.Build.{build, build_cold}
use edge.Layer.Build.Exact.{IsPaired, build-eq-cold}
use edge.Layer.Bundles.Steps.{IsExact}
use edge.Layer.Staging.{zip_dict, previous, resolve_staged, build_staged_bundles}

module _ {T F : Type 0} (c : Config T F) (paired : IsPaired c) (ckpt : Key → Bundle T)
    (own : (e : ℕ) → ckpt (c.layer_idx, e) ≡ build_cold c e) where
  abbrev Exact : Stores T F → Type 0
  Exact s = IsExact c paired ckpt own s

  -- A staged set holds the checkpoint bundle of each of its experts.
  abbrev pub IsStagedSet : Option (Staged T) → Type 0
  IsStagedSet none = Unit
  IsStagedSet (some st) = st.bundles ≡ map (build_cold c) st.experts

  pub zip_dict-IsSound :
      (es : List ℕ) → IsSound ℕ_discrete (build_cold c) (zip_dict es (map (build_cold c) es))
  unfolding zip_dict
  zip_dict-IsSound [] = tt
  zip_dict-IsSound (e ∷ es) = (refl, zip_dict-IsSound es)

  pub previous-IsSound :
      (active : Option (Staged T))
      → IsStagedSet active
      → IsSound ℕ_discrete (build_cold c) (previous c active)
  unfolding previous
  previous-IsSound none h = tt
  previous-IsSound (some st) h = rw h (zip_dict-IsSound st.experts)

  pub resolve_staged-Exact :
      (prev : List (ℕ × Bundle T)) (s : Stores T F) (bundles : List (Bundle T)) (e : ℕ)
      → IsSound ℕ_discrete (build_cold c) prev
      → Exact s
      → Exact (resolve_staged c prev (s, bundles) e).0
        × ((resolve_staged c prev (s, bundles) e).1 ≡ bundles ++ build_cold c e ∷ [])
  unfolding resolve_staged
  resolve_staged-Exact prev s bundles e sound h =
      let key : Key = (c.layer_idx, e) in
      let after = Cache.get key_discrete s.shared_cache key in
      let kept = Cache.Laws.get-IsSound key_discrete ckpt s.shared_cache key h.cached in
      let eq = build-eq-cold c paired s.hot_backing e h.backed in
      elim (Option-cases (lookup ℕ_discrete e prev)) [
        | inr (b, old) ↦
            rw (old, resolve_staged)
              (
                record {
                  pinned = h.pinned;
                  cached = h.cached;
                  buffered = h.buffered;
                  backed = h.backed;
                },
                rw (lookup-IsSound ℕ_discrete (build_cold c) e prev b sound old),
              )
        | inl fresh ↦ elim (Option-cases (lookup ℕ_discrete e s.pinned)) [
          | inr (b, pin) ↦
              rw (fresh, pin, resolve_staged)
                (h, rw (lookup-IsSound ℕ_discrete (build_cold c) e s.pinned b h.pinned pin))
          | inl loose ↦ elim (Option-cases after.1) [
            | inr (b, hit) ↦
                rw (fresh, loose, hit, resolve_staged)
                  (
                    record {
                      pinned = h.pinned;
                      cached = kept;
                      buffered = h.buffered;
                      backed = h.backed;
                    },
                    rw (
                        Cache.Laws.get_hit-IsSound key_discrete ckpt s.shared_cache key b h.cached
                          hit
                        ∙ own e),
                  )
            | inl cold ↦
                rw (fresh, loose, cold, resolve_staged)
                  (
                    record {
                      pinned = h.pinned;
                      cached =
                          Cache.Laws.put-IsSound key_discrete ckpt after.0 key
                            (build c s.hot_backing e) kept (eq ∙ sym (own e));
                      buffered = h.buffered;
                      backed = h.backed;
                    },
                    rw eq,
                  )
          ]
        ]
      ]

  foldl-resolve_staged :
      (prev : List (ℕ × Bundle T)) (es : List ℕ) (s : Stores T F) (bundles : List (Bundle T))
      → IsSound ℕ_discrete (build_cold c) prev
      → Exact s
      → Exact (foldl (resolve_staged c prev) (s, bundles) es).0
        × ((foldl (resolve_staged c prev) (s, bundles) es).1 ≡ bundles ++ map (build_cold c) es)
  foldl-resolve_staged prev [] s bundles sound h = (h, sym (append-nil bundles))
  foldl-resolve_staged prev (e ∷ es) s bundles sound h =
      let one = resolve_staged-Exact prev s bundles e sound h in
      let (s', bundles') = resolve_staged c prev (s, bundles) e in
      let rest = foldl-resolve_staged prev es s' bundles' sound one.0 in
      (
        rest.0,
        rest.1
            ∙ ap (λ (l : List (Bundle T)). l ++ map (build_cold c) es) one.1
            ∙ append_assoc bundles (build_cold c e ∷ []) (map (build_cold c) es),
      )

  -- `_build_staged_bundles` fills the first `staged_n` of the sorted experts, each with its bundle of
  -- the checkpoint.
  pub build_staged_bundles-Exact :
      (active : Option (Staged T)) (s : Stores T F) (experts : List ℕ)
      → IsStagedSet active
      → Exact s
      → Exact (build_staged_bundles c active s experts).0
        × ((build_staged_bundles c active s experts).1.experts
            ≡ take c.staged_n (sorted_set experts))
        × IsStagedSet (some (build_staged_bundles c active s experts).1)
  unfolding build_staged_bundles
  build_staged_bundles-Exact active s experts ok h =
      let filled =
        foldl-resolve_staged (previous c active) (take c.staged_n (sorted_set experts)) s []
          (previous-IsSound active ok) h in
      (filled.0, refl, filled.1)
