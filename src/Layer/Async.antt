-- ===== src/Layer/Async.antt =====
-- python/src/edge0/streaming/layer.py: the staging of a layer in the asynchronous mode as a step relation.
-- The caller's thread and the pool's callbacks take the layer's lock, and the pool resolves one expert of
-- a fill after the other, so what happens is a sequence of these steps in any order.
pub mod Settled
use edge.Base.{ℕ, ◌≡◌, ◌⊎◌, List, [], ◌∷◌, Option, none, some, take, sorted_set}
use edge.Layer.State.{Bundle, Config, Staged, Layer}
use edge.Layer.Staging.{
  Built, Submission, number_from, previous, resolve_staged, stage_experts, on_stage_done,
  wait_staged, swap_staged,
}
use edge.Layer.Step.{sync_actuals}
use edge.Layer.Pins.{reset}

-- A run of `_build_staged_bundles` in the pool: what was active when it began, the experts, those that are
-- left, and the bundles of those that are done.
pub record Fill (T : Type 0) : Type 0 where
  pub prev : List (ℕ × Bundle T)
  pub exp : List ℕ
  pub left : List ℕ
  pub bundles : List (Bundle T)

-- The layer, the run in the pool, and what the runs have given so far.
pub record System (T F : Type 0) : Type 0 where
  pub layer : Layer T F
  pub work : Option (Fill T)
  pub results : List (Staged T)

-- What a fill ends with is an exception or what some run gave.
abbrev pub IsResult : {T : Type 0} → List (Staged T) → Built T → Type 0
IsResult results none = Unit
IsResult [] (some set) = ⊥
IsResult (r ∷ results) (some set) = (r ≡ set) ⊎ IsResult results (some set)

abbrev pub AreResults : {T : Type 0} → List (Staged T) → Option (Built T × Submission) → Type 0
AreResults results none = Unit
AreResults results (some (built, sub)) = IsResult results built

module _ {T F : Type 0} (c : Config T F) where
  unfoldable pub begin_fill : Layer T F → List ℕ → Fill T
  unfolding previous
  begin_fill l unique =
      let exp = take c.staged_n (sorted_set unique) in
      record { prev = previous c l.staged_state; exp = exp; left = exp; bundles = [] }

  -- One expert is resolved, which changes the stores.
  unfoldable pub fill_one : Layer T F → Fill T → (e : ℕ) → (left : List ℕ) → Layer T F × Fill T
  unfolding resolve_staged
  fill_one l fill e left =
      let (s, bundles) = resolve_staged c fill.prev (l.stores, fill.bundles) e in
      (record l { stores = s }, record fill { left = left; bundles = bundles })

  unfoldable pub end_fill : Fill T → Staged T
  unfolding number_from
  end_fill fill = record {
    bundles = fill.bundles;
    slot_of = number_from 0 fill.exp (λ e. c.staged_n);
    experts = fill.exp;
  }

  pub data Step : System T F → System T F → Type 0 where
    -- A caller stages a set; a call that raises leaves no layer to go on with.
    staged :
        {s : System T F} {l' : Layer T F} (experts : List ℕ) (built : Built T)
        (again sub : Submission)
        → IsResult s.results built
        → stage_experts c s.layer experts built again sub ≡ some l'
        → Step s (record s { layer = l' })
    -- The pool begins with the set in flight, resolves an expert, ends, or raises.
    begun :
        {s : System T F} (unique : List ℕ)
        → s.layer.staging_future ≡ some unique
        → Step s (record s { work = some (begin_fill s.layer unique) })
    resolved :
        {s : System T F} (fill : Fill T) (e : ℕ) (left : List ℕ)
        → s.work ≡ some fill
        → fill.left ≡ e ∷ left
        → Step s (record s {
          layer = (fill_one s.layer fill e left).0;
          work = some (fill_one s.layer fill e left).1;
        })
    ended :
        {s : System T F} (fill : Fill T)
        → s.work ≡ some fill
        → fill.left ≡ []
        → Step s (record s { work = none; results = end_fill fill ∷ s.results })
    raised : {s : System T F} → Step s (record s { work = none })
    -- The callback of the fill in flight runs.
    landed :
        {s : System T F} (built : Built T) (sub : Submission)
        → IsResult s.results built
        → Step s (record s { layer = on_stage_done c s.layer built sub })
    waited :
        {s : System T F} (built : Built T) (again : Submission)
        (landing : Option (Built T × Submission))
        → IsResult s.results built
        → AreResults s.results landing
        → Step s (record s { layer = wait_staged c s.layer built again landing })
    swapped :
        {s : System T F} (built : Built T) (again : Submission)
        (landing : Option (Built T × Submission))
        → IsResult s.results built
        → AreResults s.results landing
        → Step s (record s { layer = swap_staged c s.layer built again landing })
    synced : {s : System T F} → Step s (record s { layer = sync_actuals c s.layer })
    was_reset : {s : System T F} → Step s (record s { layer = reset c s.layer })

  pub data Reach : System T F → System T F → Type 0 where
    here : {s : System T F} → Reach s s
    then_step : {s s' s'' : System T F} → Reach s s' → Step s' s'' → Reach s s''
