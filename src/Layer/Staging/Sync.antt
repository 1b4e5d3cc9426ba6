-- ===== src/Layer/Staging/Sync.antt =====
-- Staging in the synchronous mode, which is the production default: what is staged becomes the active
-- set at the next `wait_staged`, and until then the active set is left alone.
use edge.Base.{
  contains, ℕ, ◌≡◌, ◌≢◌, refl, List, [], ◌∷◌, map, Option, none, some, true, false, not, take,
  sorted_set, sorted_set-sorted_set, arith, Bool-cases, inl, inr, ◌∙◌, sym, ap, if_true, if_false,
  elim_none, subst,
}
use edge.Layer.State.{Bundle, Config, Key, Stores, Staged, Incr, Layer}
use edge.Layer.Build.{build_cold}
use edge.Layer.Build.Exact.{IsPaired}
use edge.Layer.Bundles.Steps.{IsExact}
use edge.Layer.Incr.{zero_bundle}
use edge.Layer.Incr.Sticky.{IsStaged}
use edge.Layer.Incr.Staging.{stage_incr-Restaged}
use edge.Layer.Staging.{
  Built, Submission, number_from, number_from, build_staged_bundles, drain_rearm, stage_now,
  fill_staged, stage_experts, promote_next, wait_staged,
}
use edge.Layer.Staging.Exact.{IsStagedSet, build_staged_bundles-Exact}

module _ {T F : Type 0} (c : Config T F) (paired : IsPaired c) (ckpt : Key → Bundle T)
    (own : (e : ℕ) → ckpt (c.layer_idx, e) ≡ build_cold c e) where
  abbrev Exact : Stores T F → Type 0
  Exact s = IsExact c paired ckpt own s

  -- A layer between two calls in the synchronous mode: no fill is in flight.
  pub record IsIdle (l : Layer T F) : Type 0 where
    pub exact : Exact l.stores
    pub active : IsStagedSet c paired ckpt own l.staged_state
    pub stack : IsStaged c paired ckpt own l.incr l.incr_bundles
    pub no_future : l.staging_future ≡ none
    pub no_rearm : l.staged_rearm ≡ false

  -- What serves the experts `exp` once the set `st` is active: the persistent stack, or the set alone.
  pub record Ready (exp : List ℕ) (t : Option (Incr T)) (st : Staged T) : Type 0 where
    pub stacked :
        c.incr_mode ≡ true
        → (t' : Incr T) × (t ≡ some t')
          × ((e : ℕ) → contains e exp ≡ true → t'.rows (t'.slot_table e) ≡ build_cold c e)
          × ((e : ℕ) → contains e exp ≡ false → t'.rows (t'.slot_table e) ≡ zero_bundle c)
    pub plain :
        c.incr_mode ≡ false
        → (st.slot_of ≡ number_from 0 exp (λ e. c.staged_n)) × (st.bundles ≡ map (build_cold c) exp)

  stage_now-IsIdle :
      (l : Layer T F) (unique : List ℕ)
      → IsIdle l
      → (l' : Layer T F) × (st : Staged T) × (stage_now c l unique ≡ some l')
        × IsIdle l'
        × (l'.staged_state ≡ l.staged_state)
        × (l'.staged_state_next ≡ some st)
        × (st.experts ≡ take c.staged_n (sorted_set unique))
        × IsStagedSet c paired ckpt own (some st)
        × Ready (take c.staged_n (sorted_set unique)) l'.incr st
  unfolding stage_now build_staged_bundles
  stage_now-IsIdle l unique h = elim (Bool-cases c.incr_mode) [
    | inl incr ↦
        let (s', t', bundles, st, e, r) =
          stage_incr-Restaged c paired ckpt own l.stores l.incr l.incr_bundles unique h.stack
            h.exact in
        (
          record l {
            stores = s';
            incr = some t';
            incr_bundles = bundles;
            staged_state_next = some st;
          },
          st,
          rw (if_true _ _ c.incr_mode incr, e),
          record {
            exact = r.exact;
            active = h.active;
            stack = r.again;
            no_future = h.no_future;
            no_rearm = h.no_rearm;
          },
          refl,
          refl,
          r.experts,
          r.bundles_eq ∙ ap (map (build_cold c)) (sym r.experts),
          record {
            stacked = λ _. (
              t',
              refl,
              λ e m. (r.present e m).1,
              λ e m. ap t'.rows (r.dropped e m) ∙ r.overflow,
            );
            plain = λ h. absurd (ground (arith, incr, h));
          },
        )
    | inr plain ↦
        let filled =
          build_staged_bundles-Exact c paired ckpt own l.staged_state l.stores unique h.active
            h.exact in
        let (s', st) = build_staged_bundles c l.staged_state l.stores unique in
        (
          record l { stores = s'; staged_state_next = some st },
          st,
          rw (if_false _ _ c.incr_mode plain),
          record {
            exact = filled.0;
            active = h.active;
            stack = h.stack;
            no_future = h.no_future;
            no_rearm = h.no_rearm;
          },
          refl,
          refl,
          filled.1,
          filled.2,
          record {
            stacked = λ h. absurd (ground (arith, plain, h));
            plain = λ _. (refl, filled.2);
          },
        )
  ]

  drain_rearm-idle :
      (l : Layer T F) (built : Built T) (sub : Submission)
      → l.staged_rearm ≡ false
      → drain_rearm c l built sub ≡ l
  unfolding drain_rearm
  drain_rearm-idle l built sub h = if_false _ _ l.staged_rearm h

  promote_next-some :
      (l : Layer T F) (st : Staged T)
      → l.staged_state_next ≡ some st
      → promote_next c l ≡ record l { staged_state = some st; staged_state_next = none }
  unfolding promote_next
  promote_next-some l st h = rw h refl

  wait_staged-idle :
      (l : Layer T F) (built : Built T) (again : Submission)
      → l.staged_rearm ≡ false
      → wait_staged c l built again none ≡ promote_next c l
  unfolding wait_staged
  wait_staged-idle l built again h = ap (promote_next c) (drain_rearm-idle l built again h)

  fill_staged-sync :
      (l : Layer T F) (unique : List ℕ) (sub : Submission)
      → c.staged_sync ≡ true
      → l.staging_future ≡ none
      → fill_staged c l unique sub ≡ stage_now c l unique
  unfolding fill_staged
  fill_staged-sync l unique sub sync free =
      elim_none _ _ l.staging_future free ∙ if_true _ _ c.staged_sync sync

  stage_experts-sync :
      (l : Layer T F) (experts : List ℕ) (built : Built T) (again sub : Submission)
      → c.staged_mode ≡ true
      → c.staged_sync ≡ true
      → sorted_set experts ≢ []
      → l.staging_future ≡ none
      → l.staged_rearm ≡ false
      → stage_experts c l experts built again sub ≡ stage_now c l (sorted_set experts)
  unfolding stage_experts
  stage_experts-sync l experts built again sub on sync some_expert free still =
      if_false _ _ (not c.staged_mode) (ap not on) ∙ go (sorted_set experts) some_expert
    where
      go :
          (unique : List ℕ)
          → unique ≢ []
          → elim unique [
            | [] ↦ some l
            | e ∷ es ↦ fill_staged c (drain_rearm c l built again) (e ∷ es) sub
          ]
            ≡ stage_now c l unique
      go [] h = absurd (h refl)
      go (e ∷ es) h =
          ap (λ l'. fill_staged c l' (e ∷ es) sub) (drain_rearm-idle l built again still)
          ∙ fill_staged-sync l (e ∷ es) sub sync free

  -- In the synchronous mode `stage_experts` succeeds and leaves the active set as it was, and the next
  -- `wait_staged` makes the first `staged_n` of the sorted experts active, each with its bundle of
  -- the checkpoint. The layer is idle again after each, and `Ready` says what serves the set.
  pub wait_staged-stage_experts :
      (l : Layer T F) (experts : List ℕ) (built built' : Built T) (again sub again' : Submission)
      → c.staged_mode ≡ true
      → c.staged_sync ≡ true
      → sorted_set experts ≢ []
      → IsIdle l
      → (l' : Layer T F) × (st : Staged T) × (stage_experts c l experts built again sub ≡ some l')
        × IsIdle l'
        × (l'.staged_state ≡ l.staged_state)
        × IsIdle (wait_staged c l' built' again' none)
        × ((wait_staged c l' built' again' none).staged_state ≡ some st)
        × (st.experts ≡ take c.staged_n (sorted_set experts))
        × IsStagedSet c paired ckpt own (some st)
        × ((wait_staged c l' built' again' none).incr ≡ l'.incr)
        × Ready (take c.staged_n (sorted_set experts)) l'.incr st
  wait_staged-stage_experts l experts built built' again sub again' on sync some_expert h =
      let (l', st, e, idle, kept, next, exps, bundles, ready) =
        stage_now-IsIdle l (sorted_set experts) h in
      let waited = wait_staged-idle l' built' again' idle.no_rearm ∙ promote_next-some l' st next in
      (
        l',
        st,
        stage_experts-sync l experts built again sub on sync some_expert h.no_future h.no_rearm ∙ e,
        idle,
        kept,
        subst IsIdle (sym waited) (record {
          exact = idle.exact;
          active = bundles;
          stack = idle.stack;
          no_future = idle.no_future;
          no_rearm = idle.no_rearm;
        }),
        ap (λ (w : Layer T F). w.staged_state) waited,
        exps ∙ ap (take c.staged_n) (sorted_set-sorted_set experts),
        bundles,
        ap (λ (w : Layer T F). w.incr) waited,
        subst (λ unique. Ready (take c.staged_n unique) l'.incr st) (sorted_set-sorted_set experts)
            ready,
      )
