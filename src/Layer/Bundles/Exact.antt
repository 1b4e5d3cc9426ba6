-- ===== src/Layer/Bundles/Exact.antt =====
-- Every bundle that `_get_bundles` hands out is the checkpoint's, whichever store it comes from, and
-- no expert is left out.
use edge.Base.{
  ℕ, ◌≡◌, refl, ◌⊎◌, inl, inr, List, [], ◌∷◌, Option, none, some, true, false, foldl, lookup,
  contains, lookup-store, Option-cases, Bool-cases, ℕ_discrete, arith, ◌==◌, ◌∙◌, sym, subst,
  foldl_inv, IsDistinct, contains-ne,
}
use edge.Cache
use edge.Buffer
use edge.Layer.State.{Bundle, Config, Key, key_discrete, Stores}
use edge.Layer.Build.{build, build_cold}
use edge.Layer.Build.Exact.{IsPaired, build-eq-cold}
use edge.Layer.Bundles.{
  Fetch, take_pinned, take_cached, take_prefetched, take_inflight, take_built, cache_built, round,
  look_up, get_bundles, on_prefetch_done, is_some,
}
-- `ckpt` gives the bundle of every layer's experts in the checkpoint, this layer's among them.
use edge.Layer.Bundles.Steps.{
  take_prefetched-Advances, take_inflight-Advances, take_cached-Advances, take_pinned-Advances,
  take_built-Advances, IsServed, Advances, IsExact,
}

module _ {T F : Type 0} (c : Config T F) (paired : IsPaired c) (ckpt : Key → Bundle T)
    (own : (e : ℕ) → ckpt (c.layer_idx, e) ≡ build_cold c e) where
  -- What a whole loop does at the experts that it goes through.
  record Sweeps (a b : Fetch T F) (es : List ℕ) : Type 0 where
    exact : IsExact c paired ckpt own b.stores
    keeps_served : (q : ℕ) → IsServed c paired ckpt own a q → IsServed c paired ckpt own b q
    keeps_missing : (q : ℕ) → contains q a.missing ≡ true → contains q b.missing ≡ true
    settled :
        (q : ℕ)
        → contains q es ≡ true
        → IsServed c paired ckpt own b q ⊎ (contains q b.missing ≡ true)

  still_settled :
      {a b : Fetch T F} {es : List ℕ} (q : ℕ)
      → Sweeps a b es
      → IsServed c paired ckpt own a q ⊎ (contains q a.missing ≡ true)
      → IsServed c paired ckpt own b q ⊎ (contains q b.missing ≡ true)
  still_settled q w (inl k) = inl (w.keeps_served q k)
  still_settled q w (inr m) = inr (w.keeps_missing q m)

  Sweeps-cons :
      (a m b : Fetch T F) (e : ℕ) (es : List ℕ)
      → Advances c paired ckpt own a m e
      → Sweeps m b es
      → Sweeps a b (e ∷ es)
  unfolding contains
  Sweeps-cons a m b e es first rest = record {
    exact = rest.exact;
    keeps_served = λ q k. rest.keeps_served q (first.keeps_served q k);
    keeps_missing = λ q k. rest.keeps_missing q (first.keeps_missing q k);
    settled = λ q k. elim (ℕ_discrete e q) [
      | yes same ↦
          subst (λ n. IsServed c paired ckpt own b n ⊎ (contains n b.missing ≡ true)) same
            (still_settled e rest first.settled)
      | no other ↦ rest.settled q (ground arith)
    ];
  }

  foldl-Sweeps :
      (step : Fetch T F → ℕ → Fetch T F)
      → ((a : Fetch T F) (e : ℕ)
          → IsExact c paired ckpt own a.stores
          → Advances c paired ckpt own a (step a e) e)
      → (es : List ℕ) (a : Fetch T F) → IsExact c paired ckpt own a.stores
      → Sweeps a (foldl step a es) es
  unfolding contains
  foldl-Sweeps step adv [] a h = record {
    exact = h;
    keeps_served = λ q k. k;
    keeps_missing = λ q k. k;
    settled = λ q k. absurd (ground arith);
  }
  foldl-Sweeps step adv (e ∷ es) a h =
      Sweeps-cons a (step a e) (foldl step (step a e) es) e es (adv a e h)
        (foldl-Sweeps step adv es (step a e) (adv a e h).exact)

  -- Every requested expert is served or still to be looked for.
  record Covers (experts : List ℕ) (a : Fetch T F) : Type 0 where
    exact : IsExact c paired ckpt own a.stores
    covered :
        (q : ℕ)
        → contains q experts ≡ true
        → IsServed c paired ckpt own a q ⊎ (contains q a.missing ≡ true)

  round-Covers :
      (experts : List ℕ) (step : Fetch T F → ℕ → Fetch T F)
      → ((a : Fetch T F) (e : ℕ)
          → IsExact c paired ckpt own a.stores
          → Advances c paired ckpt own a (step a e) e)
      → (a : Fetch T F) → Covers experts a
      → Covers experts (round c step a)
  unfolding round
  round-Covers experts step adv a h =
      let swept = foldl-Sweeps step adv a.missing (record a { missing = [] }) h.exact in
      record {
        exact = swept.exact;
        covered = λ q k. elim (h.covered q k) [
          | inl served ↦ inl (swept.keeps_served q served)
          | inr missing ↦ swept.settled q missing
        ];
      }

  lookup-take_pinned :
      (a : Fetch T F) (e q : ℕ)
      → (e == q) ≡ false
      → lookup ℕ_discrete q (take_pinned c a e).bundles ≡ lookup ℕ_discrete q a.bundles
  unfolding take_pinned
  lookup-take_pinned a e q ne = elim (Option-cases (lookup ℕ_discrete e a.stores.pinned)) [
    | inr (p, hit) ↦
        rw (hit, take_pinned) (ground (arith, lookup-store ℕ_discrete q e (some p) a.bundles))
    | inl miss ↦ rw (miss, take_pinned) (ground (arith, lookup-store ℕ_discrete q e none a.bundles))
  ]

  pinned-Sweeps :
      (es : List ℕ) (a : Fetch T F)
      → IsExact c paired ckpt own a.stores
      → IsDistinct es
      → ((q : ℕ) → contains q es ≡ true → lookup ℕ_discrete q a.bundles ≡ none)
      → Sweeps a (foldl (take_pinned c) a es) es
  unfolding contains
  pinned-Sweeps [] a h d fresh = record {
    exact = h;
    keeps_served = λ q k. k;
    keeps_missing = λ q k. k;
    settled = λ q k. absurd (ground arith);
  }
  pinned-Sweeps (e ∷ es) a h d fresh =
      let first = take_pinned-Advances c paired ckpt own a e h (fresh e (ground arith)) in
      Sweeps-cons a (take_pinned c a e) (foldl (take_pinned c) (take_pinned c a e) es) e es first (
        pinned-Sweeps es (take_pinned c a e) first.exact d.1
          (λ q k. lookup-take_pinned a e q (contains-ne e q es d.0 k) ∙ fresh q (ground arith)))

  look_up-Covers :
      (s : Stores T F) (experts : List ℕ)
      → IsExact c paired ckpt own s
      → IsDistinct experts
      → Covers experts (look_up c s experts)
  unfolding look_up lookup
  look_up-Covers s experts h d =
      let start : Fetch T F = record { stores = s; bundles = []; missing = [] } in
      let swept = pinned-Sweeps experts start h d (λ q k. refl) in
      round-Covers experts (take_inflight c) (take_inflight-Advances c paired ckpt own) _ (
        round-Covers experts (take_prefetched c) (take_prefetched-Advances c paired ckpt own) _ (
          round-Covers experts (take_cached c) (take_cached-Advances c paired ckpt own) _
            (record { exact = swept.exact; covered = swept.settled })))

  round-take_built-missing : (a : Fetch T F) → (round c (take_built c) a).missing ≡ []
  unfolding round take_built
  round-take_built-missing a =
      foldl_inv (λ b. b.missing ≡ []) (take_built c) (λ b e k. k) a.missing _ refl

  cache_built-keeps :
      (bundles : List (ℕ × Option (Bundle T))) (es : List ℕ) (a : Fetch T F)
      → IsExact c paired ckpt own a.stores × (a.bundles ≡ bundles)
      → IsExact c paired ckpt own (foldl (cache_built c) a es).stores
        × ((foldl (cache_built c) a es).bundles ≡ bundles)
  unfolding cache_built
  cache_built-keeps bundles es a =
      foldl_inv (λ b. IsExact c paired ckpt own b.stores × (b.bundles ≡ bundles)) (cache_built c)
        (λ b e k. (
          record {
            pinned = k.0.pinned;
            cached =
                Cache.Laws.put-IsSound key_discrete ckpt b.stores.shared_cache (c.layer_idx, e)
                  (build c b.stores.hot_backing e) k.0.cached
                  (build-eq-cold c paired b.stores.hot_backing e k.0.backed ∙ sym (own e));
            buffered = k.0.buffered;
            backed = k.0.backed;
          },
          k.1,
        ))
        es a

  pub get_bundles-all :
      (s : Stores T F) (experts : List ℕ)
      → IsExact c paired ckpt own s
      → IsDistinct experts
      → IsExact c paired ckpt own (get_bundles c s experts).0
        × ((e : ℕ)
            → contains e experts ≡ true
            → lookup ℕ_discrete e (get_bundles c s experts).1 ≡ some (some (build_cold c e)))
  unfolding get_bundles contains
  get_bundles-all s experts h d =
      let a = look_up c s experts in
      let covers =
        round-Covers experts (take_built c) (take_built-Advances c paired ckpt own) a
          (look_up-Covers s experts h d) in
      let built = round c (take_built c) a in
      let kept = cache_built-keeps built.bundles a.missing built (covers.exact, refl) in
      (
        kept.0,
        λ e m. elim (covers.covered e m) [
          | inl served ↦ rw kept.1 served
          | inr missing ↦ absurd (ground (arith, round-take_built-missing a))
        ],
      )

  -- From stores that hold nothing but the checkpoint's bundles, `_get_bundles` gives each of the
  -- distinct experts that it is asked for its bundle of the checkpoint, and leaves such stores.
  pub get_bundles-IsExact :
      (s : Stores T F) (experts : List ℕ) (e : ℕ)
      → IsExact c paired ckpt own s
      → IsDistinct experts
      → contains e experts ≡ true
      → IsExact c paired ckpt own (get_bundles c s experts).0
        × (lookup ℕ_discrete e (get_bundles c s experts).1 ≡ some (some (build_cold c e)))
  get_bundles-IsExact s experts e h d m =
      let (exact, served) = get_bundles-all s experts h d in (exact, served e m)

  -- When a prefetch lands with the expert's bundle of the checkpoint, the stores still hold nothing
  -- but the checkpoint's bundles, whether the bundle is kept or dropped and whatever it evicts.
  pub on_prefetch_done-IsExact :
      (s : Stores T F) (e : ℕ) (b : Bundle T)
      → IsExact c paired ckpt own s
      → b ≡ build_cold c e
      → IsExact c paired ckpt own (on_prefetch_done c s e (some b))
  unfolding on_prefetch_done
  on_prefetch_done-IsExact s e b h eq =
      let stored =
        Buffer.Laws.put-IsSound key_discrete ckpt s.prefetch_buf (c.layer_idx, e) b h.buffered
          (eq ∙ sym (own e)) in
      elim (Bool-cases (is_some (Cache.peek key_discrete s.shared_cache (c.layer_idx, e)))) [
        | inl present ↦
            rw (present, on_prefetch_done)
              (record {
                pinned = h.pinned;
                cached = h.cached;
                buffered = h.buffered;
                backed = h.backed;
              })
        | inr absent ↦
            rw (absent, on_prefetch_done)
              (record {
                pinned = h.pinned;
                cached = h.cached;
                buffered = stored;
                backed = h.backed;
              })
      ]
