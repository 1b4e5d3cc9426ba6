-- ===== src/Layer/Bundles/Steps.antt =====
-- The stores that hold nothing but the checkpoint's bundles, and what one step of each loop of
-- `_get_bundles` does to them.
use edge.Base.{
  ℕ, ◌≡◌, refl, ◌⊎◌, inl, inr, List, [], ◌∷◌, ◌++◌, Option, none, some, true, ◌||◌, lookup, store,
  contains, IsSound, lookup-store, lookup-IsSound, Option-cases, Bool-cases, ℕ_discrete, arith,
  ◌==◌, ◌∙◌, sym,
}
use edge.Cache
use edge.Buffer
use edge.Layer.State.{Bundle, Config, Key, key_discrete, Stores}
use edge.Layer.Build.{build, build_cold}
use edge.Layer.Build.Exact.{IsPaired, IsBacking, build-eq-cold}
use edge.Layer.Bundles.{
  Fetch, promote, take_pinned, take_cached, take_prefetched, take_inflight, take_built, settle,
}

-- `ckpt` gives the bundle of every layer's experts in the checkpoint, this layer's among them.

module _ {T F : Type 0} (c : Config T F) (paired : IsPaired c) (ckpt : Key → Bundle T)
    (own : (e : ℕ) → ckpt (c.layer_idx, e) ≡ build_cold c e) where
  -- Every store holds, under each key, the checkpoint's bundle of that expert.
  pub record IsExact (s : Stores T F) : Type 0 where
    pub pinned : IsSound ℕ_discrete (build_cold c) s.pinned
    pub cached : IsSound key_discrete ckpt s.shared_cache.items
    pub buffered : IsSound key_discrete ckpt s.prefetch_buf.entries
    pub backed : IsBacking c s.hot_backing

  -- The expert has its checkpoint bundle in the result.
  abbrev pub IsServed : Fetch T F → ℕ → Type 0
  IsServed a e = lookup ℕ_discrete e a.bundles ≡ some (some (build_cold c e))

  -- What one step of a loop does at an expert.
  pub record Advances (a b : Fetch T F) (e : ℕ) : Type 0 where
    pub exact : IsExact b.stores
    pub keeps_served : (q : ℕ) → IsServed a q → IsServed b q
    pub keeps_missing : (q : ℕ) → contains q a.missing ≡ true → contains q b.missing ≡ true
    pub settled : IsServed b e ⊎ (contains e b.missing ≡ true)

  pub contains_snoc : (q e : ℕ) (l : List ℕ) → contains q (l ++ e ∷ []) ≡ contains q l || (e == q)
  unfolding contains
  contains_snoc q e [] = ground arith
  contains_snoc q e (x ∷ xs) = ground (arith, contains_snoc q e xs)

  pub served_store :
      (q e : ℕ) (b : Bundle T) (d : List (ℕ × Option (Bundle T)))
      → b ≡ build_cold c e
      → lookup ℕ_discrete q d ≡ some (some (build_cold c q))
      → lookup ℕ_discrete q (store ℕ_discrete e (some b) d) ≡ some (some (build_cold c q))
  served_store q e b d h k = ground (arith, lookup-store ℕ_discrete q e (some b) d)

  pub serve :
      (a b : Fetch T F) (e : ℕ) (v : Bundle T)
      → v ≡ build_cold c e
      → IsExact b.stores
      → b.bundles ≡ store ℕ_discrete e (some v) a.bundles
      → b.missing ≡ a.missing
      → Advances a b e
  serve a b e v h exact eb em = record {
    exact = exact;
    keeps_served = λ q k. rw eb (served_store q e v a.bundles h k);
    keeps_missing = λ q k. rw em k;
    settled = inl (rw eb (ground (arith, lookup-store ℕ_discrete e e (some v) a.bundles)));
  }

  pub leave :
      (a b : Fetch T F) (e : ℕ)
      → IsExact b.stores
      → b.bundles ≡ a.bundles
      → b.missing ≡ a.missing ++ e ∷ []
      → Advances a b e
  leave a b e exact eb em = record {
    exact = exact;
    keeps_served = λ q k. rw eb k;
    keeps_missing = λ q k. rw em (ground (arith, contains_snoc q e a.missing));
    settled = inr (rw em (ground (arith, contains_snoc e e a.missing)));
  }

  pub take_cached-Advances :
      (a : Fetch T F) (e : ℕ) → IsExact a.stores → Advances a (take_cached c a e) e
  unfolding take_cached
  take_cached-Advances a e h =
      let s = a.stores in
      let key : Key = (c.layer_idx, e) in
      let after = Cache.get key_discrete s.shared_cache key in
      let kept = Cache.Laws.get-IsSound key_discrete ckpt s.shared_cache key h.cached in
      elim (Option-cases after.1) [
        | inl no_hit ↦
            rw (no_hit, take_cached)
              (leave a _ e
                (record {
                  pinned = h.pinned;
                  cached = kept;
                  buffered = h.buffered;
                  backed = h.backed;
                })
                refl refl)
        | inr (b, hit) ↦
            rw (hit, take_cached)
              (serve a _ e b
                (Cache.Laws.get_hit-IsSound key_discrete ckpt s.shared_cache key b h.cached hit
                  ∙ own e)
                (record {
                  pinned = h.pinned;
                  cached = kept;
                  buffered = h.buffered;
                  backed = h.backed;
                })
                refl refl)
      ]

  pub promote-IsExact :
      (s : Stores T F) (e : ℕ) (b : Bundle T)
      → IsExact s
      → b ≡ build_cold c e
      → IsExact (promote c s e b)
  unfolding promote
  promote-IsExact s e b h eq = record {
    pinned = h.pinned;
    cached =
        Cache.Laws.put-IsSound key_discrete ckpt s.shared_cache (c.layer_idx, e) b h.cached
          (eq ∙ sym (own e));
    buffered = h.buffered;
    backed = h.backed;
  }

  pub take_prefetched-Advances :
      (a : Fetch T F) (e : ℕ) → IsExact a.stores → Advances a (take_prefetched c a e) e
  unfolding take_prefetched
  take_prefetched-Advances a e h =
      let s = a.stores in
      let key : Key = (c.layer_idx, e) in
      let after = Buffer.pop key_discrete s.prefetch_buf key in
      let s' : Stores T F = record s { prefetch_buf = after.0 } in
      let exact : IsExact s' = record {
        pinned = h.pinned;
        cached = h.cached;
        buffered = Buffer.Laws.pop-IsSound key_discrete ckpt s.prefetch_buf key h.buffered;
        backed = h.backed;
      } in
      elim (Option-cases after.1) [
        | inl no_hit ↦ rw (no_hit, take_prefetched) (leave a _ e exact refl refl)
        | inr (b, hit) ↦
            let eq =
              Buffer.Laws.pop_hit-IsSound key_discrete ckpt s.prefetch_buf key b h.buffered hit
              ∙ own e in
            rw (hit, take_prefetched) (serve a _ e b eq (promote-IsExact s' e b exact eq) refl refl)
      ]

  pub take_inflight-Advances :
      (a : Fetch T F) (e : ℕ) → IsExact a.stores → Advances a (take_inflight c a e) e
  unfolding take_inflight
  take_inflight-Advances a e h =
      let s = a.stores in
      let eq = build-eq-cold c paired s.hot_backing e h.backed in
      let s' : Stores T F = record s { inflight = settle e s.inflight } in
      let exact : IsExact s' = record {
        pinned = h.pinned;
        cached = h.cached;
        buffered = h.buffered;
        backed = h.backed;
      } in
      elim (Bool-cases (contains e s.inflight)) [
        | inl flies ↦ rw flies (
            serve a _ e (build c s.hot_backing e) eq
              (promote-IsExact s' e (build c s.hot_backing e) exact eq) refl refl)
        | inr grounded ↦ rw grounded (leave a _ e h refl refl)
      ]

  pub take_built-Advances :
      (a : Fetch T F) (e : ℕ) → IsExact a.stores → Advances a (take_built c a e) e
  unfolding take_built
  take_built-Advances a e h =
      serve a _ e (build c a.stores.hot_backing e)
        (build-eq-cold c paired a.stores.hot_backing e h.backed)
        (record { pinned = h.pinned; cached = h.cached; buffered = h.buffered; backed = h.backed })
        refl refl

  pub take_pinned-Advances :
      (a : Fetch T F) (e : ℕ)
      → IsExact a.stores
      → lookup ℕ_discrete e a.bundles ≡ none
      → Advances a (take_pinned c a e) e
  unfolding take_pinned
  take_pinned-Advances a e h fresh = elim (Option-cases (lookup ℕ_discrete e a.stores.pinned)) [
    | inr (p, hit) ↦
        rw (hit, take_pinned)
          (serve a _ e p (lookup-IsSound ℕ_discrete (build_cold c) e a.stores.pinned p h.pinned hit)
            h refl refl)
    | inl miss ↦
        rw (miss, take_pinned)
          (record {
            exact = h;
            keeps_served =
                λ q k. ground (arith, k, fresh, lookup-store ℕ_discrete q e none a.bundles);
            keeps_missing = λ q k. ground (arith, k, contains_snoc q e a.missing);
            settled = inr (ground (arith, contains_snoc e e a.missing));
          })
  ]
