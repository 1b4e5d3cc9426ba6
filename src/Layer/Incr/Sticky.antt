-- ===== src/Layer/Incr/Sticky.antt =====
-- `_stage_incr` as a whole: every staged expert ends up in a slot with its checkpoint bundle, all
-- others map to the zero row, and an expert that stays keeps its slot.
use edge.Base.{
  ℕ, ◌<◌, ◌≤◌, ◌==◌, ◌≡◌, refl, List, [], ◌∷◌, Option, none, some, true, false, ◌||◌, lookup,
  contains, foldl, map, length, arith, ℕ_discrete, Option-cases, inl, inr, IsDistinct, IsSound,
  lookup-store, lookup-IsSound, store-IsSound, contains-ne, foldl_inv, if_ind, ◌∙◌, sym,
}
use mathlib.Core.List.{foldl-append}
use edge.Cache
use edge.Layer.State.{Bundle, Config, Key, key_discrete, Stores, Staged, Incr}
use edge.Layer.Build.{build, build_cold}
use edge.Layer.Build.Exact.{IsPaired, build-eq-cold}
use edge.Layer.Bundles.{is_some}
use edge.Layer.Bundles.Steps.{IsExact}
use edge.Layer.Incr.{
  update, assign, collect, Place, zero_bundle, resolve, place, write_back, write_row, set_entry,
  allocate,
}
use edge.Layer.Incr.Stack.{IsStack, IsStack-put}

module _ {T F : Type 0} (c : Config T F) (paired : IsPaired c) (ckpt : Key → Bundle T)
    (own : (e : ℕ) → ckpt (c.layer_idx, e) ≡ build_cold c e) where
  abbrev pub Exact : Stores T F → Type 0
  Exact s = IsExact c paired ckpt own s

  -- Whatever store it comes from, a resolved bundle is the checkpoint's.
  resolve-Exact :
      (s : Stores T F) (e : ℕ)
      → Exact s
      → Exact (resolve c s e).0 × ((resolve c s e).1 ≡ build_cold c e)
  unfolding resolve
  resolve-Exact s e h =
      let key : Key = (c.layer_idx, e) in
      let after = Cache.get key_discrete s.shared_cache key in
      let kept = Cache.Laws.get-IsSound key_discrete ckpt s.shared_cache key h.cached in
      let eq = build-eq-cold c paired s.hot_backing e h.backed in
      elim (Option-cases (lookup ℕ_discrete e s.pinned)) [
        | inr (p, pin) ↦
            rw (pin, resolve)
              (h, lookup-IsSound ℕ_discrete (build_cold c) e s.pinned p h.pinned pin)
        | inl loose ↦ elim (Option-cases after.1) [
          | inr (b, hit) ↦
              rw (loose, hit, resolve)
                (
                  record {
                    pinned = h.pinned;
                    cached = kept;
                    buffered = h.buffered;
                    backed = h.backed;
                  },
                  Cache.Laws.get_hit-IsSound key_discrete ckpt s.shared_cache key b h.cached hit
                      ∙ own e,
                )
          | inl cold ↦
              rw (loose, cold, resolve)
                (
                  record {
                    pinned = h.pinned;
                    cached =
                        if_ind {A = Cache.SharedExpertCache Key (Bundle T)}
                          (λ k. IsSound key_discrete ckpt k.items) c.incr_writeback kept
                          (Cache.Laws.put-IsSound key_discrete ckpt after.0 key
                            (build c s.hot_backing e) kept (eq ∙ sym (own e)));
                    buffered = h.buffered;
                    backed = h.backed;
                  },
                  eq,
                )
        ]
      ]

  module _ (rows : ℕ → Bundle T) where
    -- The loop's variables and the table, with the rows that the pending writes lead to.
    pub record Holds (a : Place T F) (table : ℕ → ℕ) : Type 0 where
      pub stack :
          IsStack
            (zero_bundle c)
            c.staged_n
            a.occ
            table
            (foldl (write_row c) rows a.writes)
            a.bundles
      pub sound : IsSound ℕ_discrete (build_cold c) a.bundles
      pub exact : Exact a.stores

    place-Holds :
        (a : Place T F) (table : ℕ → ℕ) (e slot : ℕ)
        → Holds a table
        → lookup ℕ_discrete e a.bundles ≡ none
        → a.occ slot ≡ none
        → slot < c.staged_n
        → Holds (place c a (e, some slot)) (update table e slot)
    unfolding place
    place-Holds a table e slot h fresh free fits =
        let (exact, eq) = resolve-Exact a.stores e h.exact in
        let b = (resolve c a.stores e).1 in
        record {
          stack = rw (foldl-append (write_row c) rows a.writes ((slot, b) ∷ [])) (
              IsStack-put (zero_bundle c) c.staged_n a.occ table (foldl (write_row c) rows a.writes)
                a.bundles e slot b h.stack fresh free fits);
          sound = store-IsSound ℕ_discrete (build_cold c) e b a.bundles h.sound eq;
          exact = exact;
        }

    is_some-place :
        (a : Place T F) (e slot q : ℕ)
        → is_some (lookup ℕ_discrete q (place c a (e, some slot)).bundles)
          ≡ (e == q) || is_some (lookup ℕ_discrete q a.bundles)
    unfolding place is_some
    is_some-place a e slot q =
        ground (arith, lookup-store ℕ_discrete q e (resolve c a.stores e).1 a.bundles)

    lookup-place :
        (a : Place T F) (e slot q : ℕ)
        → (e == q) ≡ false
        → lookup ℕ_discrete q (place c a (e, some slot)).bundles ≡ lookup ℕ_discrete q a.bundles
    unfolding place
    lookup-place a e slot q ne =
        ground (arith, lookup-store ℕ_discrete q e (resolve c a.stores e).1 a.bundles)

    occ-place :
        (a : Place T F) (e slot r : ℕ)
        → (slot == r) ≡ false
        → (place c a (e, some slot)).occ r ≡ a.occ r
    unfolding place
    occ-place a e slot r ne = ground arith

    -- What the loop over the new slots leaves.
    pub record Filled (new : List ℕ) (a a' : Place T F) (table table' : ℕ → ℕ) : Type 0 where
      pub holds : Holds a' table'
      pub bundled :
          (q : ℕ)
          → is_some (lookup ℕ_discrete q a'.bundles)
            ≡ contains q new || is_some (lookup ℕ_discrete q a.bundles)
      pub sticky : (q : ℕ) → contains q new ≡ false → table' q ≡ table q

    pub place_all :
        (new free : List ℕ) (a : Place T F) (table : ℕ → ℕ)
        → length new ≤ length free
        → IsDistinct new
        → IsDistinct free
        → ((q : ℕ) → contains q new ≡ true → lookup ℕ_discrete q a.bundles ≡ none)
        → ((s : ℕ) → contains s free ≡ true → (a.occ s ≡ none) × (s < c.staged_n))
        → Holds a table
        → Filled new a
            (foldl (place c) a (assign new free))
            table
            (foldl (set_entry c) table (assign new free))
    unfolding assign contains
    place_all [] free a table room dn df fresh open_slots h = record {
      holds = h;
      bundled = λ q. refl;
      sticky = λ q k. refl;
    }
    place_all (e ∷ es) [] a table room dn df fresh open_slots h = absurd (omega arith)
    place_all (e ∷ es) (s ∷ free) a table room dn df fresh open_slots h =
        let at = open_slots s (ground arith) in
        let a1 = place c a (e, some s) in
        let rest =
          place_all es free a1 (update table e s) (omega arith) dn.1 df.1
            (λ q k. lookup-place a e s q (contains-ne e q es dn.0 k) ∙ fresh q (ground arith))
            (λ r k.
              let old = open_slots r (ground arith) in
              (occ-place a e s r (contains-ne s r free df.0 k) ∙ old.0, old.1))
            (place-Holds a table e s h (fresh e (ground arith)) at.0 at.1) in
        record {
          holds = rest.holds;
          bundled = λ q. ground (arith, rest.bundled q, is_some-place a e s q);
          sticky = λ q k. ground (arith, rest.sticky q (ground arith));
        }

  -- What `_incr_tensors` and `_incr_bundles` may be between two calls.
  pub data IsStaged : Option (Incr T) → List (ℕ × Bundle T) → Type 0 where
    unallocated : IsStaged none []
    allocated :
        (t : Incr T) (bundles : List (ℕ × Bundle T))
        → IsStack (zero_bundle c) c.staged_n t.occupancy t.slot_table t.rows bundles
        → IsSound ℕ_discrete (build_cold c) bundles
        → IsStaged (some t) bundles

  pub allocate-IsStack :
      IsStack
        (zero_bundle c)
        c.staged_n
        (allocate c).occupancy
        (allocate c).slot_table
        (allocate c).rows
        []
  unfolding allocate lookup
  allocate-IsStack = record {
    held = λ i e k. absurd (ground arith);
    kept = λ e b k. absurd (ground arith);
    absent = λ e k. refl;
    overflow = refl;
  }

  pub collect_total :
      (bundles : List (ℕ × Bundle T)) (exp : List ℕ)
      → ((q : ℕ) → contains q exp ≡ true → is_some (lookup ℕ_discrete q bundles) ≡ true)
      → (bs : List (Bundle T)) × (collect bundles exp ≡ some bs)
  unfolding collect contains is_some
  collect_total bundles [] h = ([], refl)
  collect_total bundles (e ∷ es) h =
      let (bs, rest) = collect_total bundles es (λ q k. h q (ground arith)) in
      elim (Option-cases (lookup ℕ_discrete e bundles)) [
        | inl gone ↦ absurd (ground (arith, h e (ground arith)))
        | inr (b, here) ↦ (b ∷ bs, ground arith)
      ]

  pub collect-IsSound :
      (bundles : List (ℕ × Bundle T)) (exp : List ℕ) (bs : List (Bundle T))
      → IsSound ℕ_discrete (build_cold c) bundles
      → collect bundles exp ≡ some bs
      → bs ≡ map (build_cold c) exp
  unfolding collect
  collect-IsSound bundles [] bs h e = ground arith
  collect-IsSound bundles (x ∷ xs) bs h e = elim (Option-cases (lookup ℕ_discrete x bundles)) [
    | inl gone ↦ absurd (ground arith)
    | inr (b, here) ↦ elim (Option-cases (collect bundles xs)) [
      | inl failed ↦ absurd (ground arith)
      | inr (rest, ok) ↦ ground (
        arith,
        lookup-IsSound ℕ_discrete (build_cold c) x bundles b h here,
        collect-IsSound bundles xs rest h ok,
      )
    ]
  ]

  pub write_back-Exact :
      (old : List (ℕ × Bundle T)) (es : List ℕ) (s : Stores T F)
      → IsSound ℕ_discrete (build_cold c) old
      → Exact s
      → Exact (foldl (write_back c old) s es)
  unfolding write_back
  write_back-Exact old es s sound =
      foldl_inv Exact (write_back c old)
        (λ s e h. elim (Option-cases (lookup ℕ_discrete e old)) [
          | inl gone ↦ rw (gone, write_back) h
          | inr (b, here) ↦
              rw (here, write_back)
                (record {
                  pinned = h.pinned;
                  cached =
                      Cache.Laws.put-IsSound key_discrete ckpt s.shared_cache (c.layer_idx, e) b
                        h.cached
                        (lookup-IsSound ℕ_discrete (build_cold c) e old b sound here ∙ sym (own e));
                  buffered = h.buffered;
                  backed = h.backed;
                })
        ])
        es s

  -- Where the call leaves the stack.
  pub record Restaged (s' : Stores T F) (table : ℕ → ℕ) (old : List (ℕ × Bundle T)) (exp : List ℕ)
      (t' : Incr T) (bundles : List (ℕ × Bundle T)) (staged : Staged T) : Type 0 where
    pub exact : Exact s'
    pub again : IsStaged (some t') bundles
    pub experts : staged.experts ≡ exp
    pub bundles_eq : staged.bundles ≡ map (build_cold c) exp
    -- A staged expert's row is its checkpoint bundle.
    pub present :
        (e : ℕ)
        → contains e exp ≡ true
        → (t'.slot_table e < c.staged_n) × (t'.rows (t'.slot_table e) ≡ build_cold c e)
    -- Any other expert is sent to the overflow row, which is all zero.
    pub dropped : (e : ℕ) → contains e exp ≡ false → t'.slot_table e ≡ c.staged_n
    pub overflow : t'.rows c.staged_n ≡ zero_bundle c
    -- An expert that was staged before keeps its slot.
    pub sticky :
        (e : ℕ)
        → contains e exp ≡ true
        → is_some (lookup ℕ_discrete e old) ≡ true
        → t'.slot_table e ≡ table e
