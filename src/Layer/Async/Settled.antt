-- ===== src/Layer/Async/Settled.antt =====
-- In every interleaving the sets of the layer hold the bundles of the checkpoint.
use edge.Base.{
  ℕ, ◌≡◌, refl, sym, ap, subst, ◌∙◌, List, [], ◌∷◌, ◌++◌, map, Option, none, some, false, not,
  sorted_set, Option-cases, inl, inr, if_ind, IsSound, ℕ_discrete, append_assoc, append-nil,
}
use edge.Layer.State.{Bundle, Config, Key, Staged, Layer}
use edge.Layer.Build.{build_cold}
use edge.Layer.Build.Exact.{IsPaired}
use edge.Layer.Bundles.Steps.{IsExact}
use edge.Layer.Staging.{
  Built, Submission, refused, finished, running, submit_stage_locked, on_stage_done, drain_rearm,
  fill_staged, stage_experts, promote_next, wait_staged, swap_staged,
}
use edge.Layer.Staging.Exact.{IsStagedSet, previous-IsSound, resolve_staged-Exact}
use edge.Layer.Step.{sync_actuals}
use edge.Layer.Step.Exact.{sync_actuals-IsExact}
use edge.Layer.Pins.{reset}
use edge.Layer.Async.{
  Fill, System, IsResult, AreResults, begin_fill, fill_one, end_fill, Step, Reach, staged, begun,
  resolved, ended, raised, landed, waited, swapped, synced, was_reset, here, then_step,
}

module _ {T F : Type 0} (c : Config T F) (paired : IsPaired c) (ckpt : Key → Bundle T)
    (own : (e : ℕ) → ckpt (c.layer_idx, e) ≡ build_cold c e) where
  -- The stores hold only checkpoint bundles, and so do the active set and the next one.
  pub record IsSettled (l : Layer T F) : Type 0 where
    pub exact : IsExact c paired ckpt own l.stores
    pub active : IsStagedSet c paired ckpt own l.staged_state
    pub next : IsStagedSet c paired ckpt own l.staged_state_next

  submit-IsSettled :
      (l : Layer T F) (unique : List ℕ) (sub : Submission)
      → IsSettled l
      → IsSettled (submit_stage_locked c l unique sub)
  unfolding submit_stage_locked
  submit-IsSettled l unique refused h = record { exact = h.exact; active = h.active; next = h.next }
  submit-IsSettled l unique finished h = record {
    exact = h.exact;
    active = h.active;
    next = h.next;
  }
  submit-IsSettled l unique running h = record { exact = h.exact; active = h.active; next = h.next }

  -- What waits is submitted, if anything does.
  waiting-IsSettled :
      (l : Layer T F) (o : Option (List ℕ)) (sub : Submission)
      → IsSettled l
      → IsSettled (elim o [
        | none ↦ l
        | some p ↦ submit_stage_locked c (record l { staged_pending = none }) p sub
      ])
  waiting-IsSettled l none sub h = h
  waiting-IsSettled l (some p) sub h =
      submit-IsSettled (record l { staged_pending = none }) p sub
        (record { exact = h.exact; active = h.active; next = h.next })

  -- What a fill gives, if anything, is a set with the bundles of the checkpoint.
  abbrev IsGood : Built T → Type 0
  IsGood built = IsStagedSet c paired ckpt own built

  abbrev AreGood : Option (Built T × Submission) → Type 0
  AreGood none = Unit
  AreGood (some (built, sub)) = IsGood built

  on_stage_done-IsSettled :
      (l : Layer T F) (built : Built T) (sub : Submission)
      → IsGood built
      → IsSettled l
      → IsSettled (on_stage_done c l built sub)
  unfolding on_stage_done
  on_stage_done-IsSettled l none sub g h = elim (Option-cases l.staging_future) [
    | inl idle ↦ rw (idle, on_stage_done) h
    | inr (unique, flying) ↦
        rw (flying, on_stage_done) (record { exact = h.exact; active = h.active; next = h.next })
  ]
  on_stage_done-IsSettled l (some set) sub g h = elim (Option-cases l.staging_future) [
    | inl idle ↦ rw (idle, on_stage_done) h
    | inr (unique, flying) ↦
        rw (flying, on_stage_done)
          (waiting-IsSettled (record l { staged_state_next = some set; staging_future = none })
            l.staged_pending sub (record { exact = h.exact; active = h.active; next = g }))
  ]

  drain-IsSettled :
      (l : Layer T F) (built : Built T) (sub : Submission)
      → IsGood built
      → IsSettled l
      → IsSettled (drain_rearm c l built sub)
  unfolding drain_rearm
  drain-IsSettled l built sub g h =
      if_ind IsSettled l.staged_rearm
        (on_stage_done-IsSettled (record l { staged_rearm = false }) built sub g
          (record { exact = h.exact; active = h.active; next = h.next }))
        h

  promote-IsSettled : (l : Layer T F) → IsSettled l → IsSettled (promote_next c l)
  unfolding promote_next
  promote-IsSettled l h = elim (Option-cases l.staged_state_next) [
    | inl nothing ↦ rw (nothing, promote_next) h
    | inr (st, ready) ↦
        rw (ready, promote_next)
          (record {
            exact = h.exact;
            active = subst (IsStagedSet c paired ckpt own) ready h.next;
            next = tt;
          })
  ]

  wait-IsSettled :
      (l : Layer T F) (built : Built T) (again : Submission)
      (landing : Option (Built T × Submission))
      → IsGood built
      → AreGood landing
      → IsSettled l
      → IsSettled (wait_staged c l built again landing)
  unfolding wait_staged
  wait-IsSettled l built again none g gs h =
      promote-IsSettled (drain_rearm c l built again) (drain-IsSettled l built again g h)
  wait-IsSettled l built again (some (set, sub)) g gs h =
      promote-IsSettled (on_stage_done c (drain_rearm c l built again) set sub) (
        on_stage_done-IsSettled (drain_rearm c l built again) set sub gs
          (drain-IsSettled l built again g h))

  swap-IsSettled :
      (l : Layer T F) (built : Built T) (again : Submission)
      (landing : Option (Built T × Submission))
      → IsGood built
      → AreGood landing
      → IsSettled l
      → IsSettled (swap_staged c l built again landing)
  unfolding swap_staged
  swap-IsSettled l built again landing g gs h =
      let k =
        promote-IsSettled (wait_staged c l built again landing)
          (wait-IsSettled l built again landing g gs h) in
      record { exact = k.exact; active = k.active; next = k.next }

  -- What holds of a layer that a call may give.
  abbrev OnLayer : Option (Layer T F) → Type 0
  OnLayer none = Unit
  OnLayer (some l) = IsSettled l

  fill-OnLayer :
      (l : Layer T F) (unique : List ℕ) (sub : Submission)
      → c.staged_sync ≡ false
      → IsSettled l
      → OnLayer (fill_staged c l unique sub)
  unfolding fill_staged
  fill-OnLayer l unique sub async h = elim (Option-cases l.staging_future) [
    | inr (fill, flying) ↦
        rw (flying, fill_staged) (record { exact = h.exact; active = h.active; next = h.next })
    | inl idle ↦ rw (idle, fill_staged, async) (submit-IsSettled l unique sub h)
  ]

  stage-OnLayer :
      (l : Layer T F) (experts : List ℕ) (built : Built T) (again sub : Submission)
      → c.staged_sync ≡ false
      → IsGood built
      → IsSettled l
      → OnLayer (stage_experts c l experts built again sub)
  unfolding stage_experts
  stage-OnLayer l experts built again sub async g h =
      if_ind OnLayer (not c.staged_mode) h (any_set (sorted_set experts))
    where
      any_set :
          (unique : List ℕ)
          → OnLayer (elim unique [
            | [] ↦ some l
            | e ∷ es ↦ fill_staged c (drain_rearm c l built again) (e ∷ es) sub
          ])
      any_set [] = h
      any_set (e ∷ es) =
          fill-OnLayer (drain_rearm c l built again) (e ∷ es) sub async
            (drain-IsSettled l built again g h)

  -- The accounting leaves both sets alone.
  abbrev SameSets : Layer T F → Layer T F → Type 0
  SameSets l l' = (l.staged_state ≡ l'.staged_state) × (l.staged_state_next ≡ l'.staged_state_next)

  counted-SameSets :
      (l : Layer T F) (flat : List ℕ)
      → l.pending_indices ≡ some flat
      → SameSets l (sync_actuals c l)
  unfolding sync_actuals
  counted-SameSets l [] e = rw (e, sync_actuals) (refl, refl)
  counted-SameSets l (v ∷ vs) e = rw (e, sync_actuals) (refl, refl)

  sync-SameSets : (l : Layer T F) → SameSets l (sync_actuals c l)
  unfolding sync_actuals
  sync-SameSets l = elim (Option-cases l.pending_indices) [
    | inl idle ↦ rw (idle, sync_actuals) (refl, refl)
    | inr (flat, e) ↦ counted-SameSets l flat e
  ]

  sync-IsSettled : (l : Layer T F) → IsSettled l → IsSettled (sync_actuals c l)
  sync-IsSettled l h =
      let (same, same_next) = sync-SameSets l in
      record {
        exact = sync_actuals-IsExact c paired ckpt own l h.active h.exact;
        active = subst (IsStagedSet c paired ckpt own) same h.active;
        next = subst (IsStagedSet c paired ckpt own) same_next h.next;
      }

  reset-IsSettled : (l : Layer T F) → IsSettled l → IsSettled (reset c l)
  unfolding reset
  reset-IsSettled l h = record { exact = h.exact; active = tt; next = tt }

  -- The bundles of a run in the pool, with those of the experts that are left, are those of its experts.
  abbrev IsFilling : Option (Fill T) → Type 0
  IsFilling none = Unit
  IsFilling (some fill) =
      IsSound ℕ_discrete (build_cold c) fill.prev
      × (fill.bundles ++ map (build_cold c) fill.left ≡ map (build_cold c) fill.exp)

  abbrev AllGood : List (Staged T) → Type 0
  AllGood [] = Unit
  AllGood (set ∷ results) = IsGood (some set) × AllGood results

  -- The layer is settled, and so are the run in the pool and what the runs have given.
  pub record IsSystem (s : System T F) : Type 0 where
    pub settled : IsSettled s.layer
    pub filling : IsFilling s.work
    pub good : AllGood s.results

  IsResult-IsGood :
      (results : List (Staged T)) (built : Built T)
      → AllGood results
      → IsResult results built
      → IsGood built
  IsResult-IsGood results none g r = tt
  IsResult-IsGood [] (some set) g r = absurd r
  IsResult-IsGood (x ∷ results) (some set) g (inl e) = subst (λ y. IsGood (some y)) e g.0
  IsResult-IsGood (x ∷ results) (some set) g (inr r) = IsResult-IsGood results (some set) g.1 r

  AreResults-AreGood :
      (results : List (Staged T)) (landing : Option (Built T × Submission))
      → AllGood results
      → AreResults results landing
      → AreGood landing
  AreResults-AreGood results none g r = tt
  AreResults-AreGood results (some (built, sub)) g r = IsResult-IsGood results built g r

  fill_one-IsSystem :
      (l : Layer T F) (fill : Fill T) (e : ℕ) (left : List ℕ)
      → IsSettled l
      → IsFilling (some fill)
      → fill.left ≡ e ∷ left
      → IsSettled (fill_one c l fill e left).0 × IsFilling (some (fill_one c l fill e left).1)
  unfolding fill_one
  fill_one-IsSystem l fill e left h (sound, eq) at =
      let one =
        resolve_staged-Exact c paired ckpt own fill.prev l.stores fill.bundles e sound h.exact in
      (
        record { exact = one.0; active = h.active; next = h.next },
        (
          sound,
          ap (λ bs. bs ++ map (build_cold c) left) one.1
              ∙ append_assoc fill.bundles (build_cold c e ∷ []) (map (build_cold c) left)
              ∙ ap (λ es. fill.bundles ++ map (build_cold c) es) (sym at)
              ∙ eq,
        ),
      )

  end_fill-IsGood :
      (fill : Fill T) → IsFilling (some fill) → fill.left ≡ [] → IsGood (some (end_fill c fill))
  unfolding end_fill
  end_fill-IsGood fill (sound, eq) at =
      sym (append-nil fill.bundles) ∙ ap (λ es. fill.bundles ++ map (build_cold c) es) (sym at) ∙ eq

  Step-IsSystem :
      (s s' : System T F) → c.staged_sync ≡ false → Step c s s' → IsSystem s → IsSystem s'
  unfolding begin_fill
  Step-IsSystem s s' async (staged experts built again sub r e) h = record {
    settled = subst OnLayer e (
        stage-OnLayer s.layer experts built again sub async
          (IsResult-IsGood s.results built h.good r) h.settled);
    filling = h.filling;
    good = h.good;
  }
  Step-IsSystem s s' async (begun unique flying) h = record {
    settled = h.settled;
    filling = (previous-IsSound c paired ckpt own s.layer.staged_state h.settled.active, refl);
    good = h.good;
  }
  Step-IsSystem s s' async (resolved fill e left at head) h =
      let one =
        fill_one-IsSystem s.layer fill e left h.settled (subst IsFilling at h.filling) head in
      record { settled = one.0; filling = one.1; good = h.good }
  Step-IsSystem s s' async (ended fill at nothing) h = record {
    settled = h.settled;
    filling = tt;
    good = (end_fill-IsGood fill (subst IsFilling at h.filling) nothing, h.good);
  }
  Step-IsSystem s s' async raised h = record { settled = h.settled; filling = tt; good = h.good }
  Step-IsSystem s s' async (landed built sub r) h = record {
    settled =
        on_stage_done-IsSettled s.layer built sub (IsResult-IsGood s.results built h.good r)
          h.settled;
    filling = h.filling;
    good = h.good;
  }
  Step-IsSystem s s' async (waited built again landing r rs) h = record {
    settled =
        wait-IsSettled s.layer built again landing (IsResult-IsGood s.results built h.good r)
          (AreResults-AreGood s.results landing h.good rs) h.settled;
    filling = h.filling;
    good = h.good;
  }
  Step-IsSystem s s' async (swapped built again landing r rs) h = record {
    settled =
        swap-IsSettled s.layer built again landing (IsResult-IsGood s.results built h.good r)
          (AreResults-AreGood s.results landing h.good rs) h.settled;
    filling = h.filling;
    good = h.good;
  }
  Step-IsSystem s s' async synced h = record {
    settled = sync-IsSettled s.layer h.settled;
    filling = h.filling;
    good = h.good;
  }
  Step-IsSystem s s' async was_reset h = record {
    settled = reset-IsSettled s.layer h.settled;
    filling = h.filling;
    good = h.good;
  }

  -- In the asynchronous mode, let the stores, both sets, the run in the pool and what the runs have given
  -- hold only checkpoint bundles. Then they do in every state that is reached by stagings, runs that
  -- resolve one expert after the other and may raise on the way, landings, promotions, accounting and
  -- resets in any order.
  pub Reach-IsSystem :
      (s s' : System T F) → c.staged_sync ≡ false → Reach c s s' → IsSystem s → IsSystem s'
  Reach-IsSystem s s' async here h = h
  Reach-IsSystem s s' async (then_step {s' = m} r step) h =
      Step-IsSystem m s' async step (Reach-IsSystem s m async r h)
