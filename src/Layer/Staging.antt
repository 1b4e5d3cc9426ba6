-- ===== src/Layer/Staging.antt =====
-- python/src/edge0/streaming/layer.py: the staged slots of a layer, from `_build_staged_bundles` and
-- `stage_experts` to `sync_actuals`, the hot pins and `reset`. What the thread pool does is an
-- argument: how a submission ends, and what a build gave, if it did not raise.
pub mod Exact
pub mod Sync
pub mod Failure
use edge.Base.{
  ℕ, zero, suc, ◌+◌, ◌==◌, List, [], ◌∷◌, ◌++◌, map, Option, none, some, Bool, true, false, not,
  ◌&&◌, ◌||◌, foldl, lookup, store, remove, keys, contains, sorted_set, take, if◌then◌else◌, length,
  ℕ_discrete, ltb,
}
use edge.Cache
use edge.Layer.State.{Bundle, Config, Floats, Key, key_discrete, Stores, Stats, Staged, Incr, Layer}
use edge.Layer.Build.{build}
use edge.Layer.Bundles.{bump_count, prefetch}
use edge.Layer.Incr.{update, outside, stage_incr}

-- `for i, e in enumerate(exp): slot_of[e] = i`
unfoldable pub number_from : ℕ → List ℕ → (ℕ → ℕ) → ℕ → ℕ
number_from i [] table = table
number_from i (e ∷ es) table = number_from (suc i) es (update table e i)

-- `{e: bundles[i] for i, e in enumerate(exp)}`; a later expert overwrites an earlier one.
unfoldable pub zip_dict {ℓ} : {V : Type ℓ} → List ℕ → List V → List (ℕ × V)
zip_dict [] bundles = []
zip_dict (e ∷ es) [] = []
zip_dict (e ∷ es) (b ∷ bs) = (e, b) ∷ zip_dict es bs

-- What the pool does with a fill: it is shut down, it is done at once, or it will be done.
pub data Submission : Type 0 where
  refused finished running : Submission

-- How a fill ends: with a set, or `none` for a build that raised.
abbrev pub Built : Type 0 → Type 0
Built T = Option (Staged T)

module _ {T F : Type 0} (c : Config T F) where
  -- The bundles of the active set by expert.
  unfoldable pub previous : Option (Staged T) → List (ℕ × Bundle T)
  unfolding zip_dict
  previous none = []
  previous (some st) = zip_dict st.experts st.bundles

  -- One round of the loop of `_build_staged_bundles`.
  unfoldable pub resolve_staged :
      List (ℕ × Bundle T) → Stores T F × List (Bundle T) → ℕ → Stores T F × List (Bundle T)
  resolve_staged prev (s, bundles) e =
      let (cache, found) = Cache.get key_discrete s.shared_cache (c.layer_idx, e) in
      let built = build c s.hot_backing e in
      elim (lookup ℕ_discrete e prev) [
        | some b ↦ (
          record s { stats = record s.stats { stage_delta_hits = s.stats.stage_delta_hits + 1 } },
          bundles ++ b ∷ [],
        )
        | none ↦ elim (lookup ℕ_discrete e s.pinned) [
          | some b ↦ (s, bundles ++ b ∷ [])
          | none ↦ elim found [
            | some b ↦ (
              record s {
                shared_cache = cache;
                stats = record s.stats { stage_cache_hits = s.stats.stage_cache_hits + 1 };
              },
              bundles ++ b ∷ [],
            )
            | none ↦ (
              record s {
                shared_cache = Cache.put key_discrete cache (c.layer_idx, e) built;
                stats = record s.stats { stage_builds = s.stats.stage_builds + 1 };
              },
              bundles ++ built ∷ [],
            )
          ]
        ]
      ]

  unfoldable pub build_staged_bundles :
      Option (Staged T) → Stores T F → List ℕ → Stores T F × Staged T
  unfolding previous resolve_staged number_from
  build_staged_bundles active s experts =
      let exp = take c.staged_n (sorted_set experts) in
      let (s', bundles) = foldl (resolve_staged (previous active)) (s, []) exp in
      (
        s',
        record { bundles = bundles; slot_of = number_from 0 exp (λ e. c.staged_n); experts = exp },
      )

  unfoldable pub submit_stage_locked : Layer T F → List ℕ → Submission → Layer T F
  submit_stage_locked l unique refused = record l { staging_future = none }
  submit_stage_locked l unique finished = record l {
    staging_future = some unique;
    staged_rearm = true;
  }
  submit_stage_locked l unique running = record l { staging_future = some unique }

  -- The callback of the fill in flight, with what it gives. The build runs in the pool before; what it
  -- changes in the stores on the way is a step of its own, in Layer/Async.
  unfoldable pub on_stage_done : Layer T F → Built T → Submission → Layer T F
  unfolding submit_stage_locked
  on_stage_done l built sub = elim l.staging_future [
    | none ↦ l
    | some unique ↦ elim built [
      | none ↦ record l { staging_future = none }
      | some staged ↦
          let l' : Layer T F = record l {
            staged_state_next = some staged;
            staging_future = none;
          } in
          elim l.staged_pending [
            | none ↦ l'
            | some p ↦ submit_stage_locked (record l' { staged_pending = none }) p sub
          ]
    ]
  ]

  unfoldable pub drain_rearm : Layer T F → Built T → Submission → Layer T F
  unfolding on_stage_done
  drain_rearm l built sub =
      if l.staged_rearm then on_stage_done (record l { staged_rearm = false }) built sub else l

  -- The synchronous fill. `none` is an exception.
  unfoldable pub stage_now : Layer T F → List ℕ → Option (Layer T F)
  unfolding build_staged_bundles
  stage_now l unique =
      let (s, staged) = build_staged_bundles l.staged_state l.stores unique in
      if c.incr_mode
      then elim (stage_incr c l.stores l.incr l.incr_bundles unique) [
        | none ↦ none
        | some (s', t, bundles, staged') ↦ some (record l {
          stores = s';
          incr = some t;
          incr_bundles = bundles;
          staged_state_next = some staged';
        })
      ]
      else some (record l { stores = s; staged_state_next = some staged })

  -- The end of `stage_experts`: at most one fill is in flight, and a set that comes meanwhile waits.
  unfoldable pub fill_staged : Layer T F → List ℕ → Submission → Option (Layer T F)
  unfolding stage_now submit_stage_locked
  fill_staged l unique sub = elim l.staging_future [
    | some fill ↦ some (record l { staged_pending = some unique })
    | none ↦ if c.staged_sync then stage_now l unique else some (submit_stage_locked l unique sub)
  ]

  -- `stage_experts`. `built` and `again` are for a fill that was done when it was submitted, and `sub`
  -- is for the fill that this call submits. The readahead hint changes nothing here.
  unfoldable pub stage_experts :
      Layer T F → List ℕ → (built : Built T) → (again sub : Submission) → Option (Layer T F)
  unfolding drain_rearm fill_staged
  stage_experts l experts built again sub =
      let unique = sorted_set experts in
      let l' = drain_rearm l built again in
      if not c.staged_mode
      then some l
      else elim unique [ [] ↦ some l | e ∷ es ↦ fill_staged l' (e ∷ es) sub ]

  unfoldable pub promote_next : Layer T F → Layer T F
  promote_next l = elim l.staged_state_next [
    | none ↦ l
    | some st ↦ record l { staged_state = some st; staged_state_next = none }
  ]

  -- `wait_staged`. `landed` tells how the fill in flight ended, if its callback ran before the
  -- promotion: a future's waiters may go on before its callbacks do.
  unfoldable pub wait_staged :
      Layer T F
      → (built : Built T) → (again : Submission) → (landed : Option (Built T × Submission))
      → Layer T F
  unfolding drain_rearm on_stage_done promote_next
  wait_staged l built again landed =
      let l' = drain_rearm l built again in
      promote_next (elim landed [ none ↦ l' | some (ok, sub) ↦ on_stage_done l' ok sub ])

  unfoldable pub swap_staged :
      Layer T F
      → (built : Built T) → (again : Submission) → (landed : Option (Built T × Submission))
      → Layer T F
  unfolding wait_staged promote_next
  swap_staged l built again landed = record (promote_next (wait_staged l built again landed)) {
    staged_pending = none;
  }
