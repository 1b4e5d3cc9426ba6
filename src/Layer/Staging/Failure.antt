-- ===== src/Layer/Staging/Failure.antt =====
-- What a fill that raises leaves behind in the asynchronous mode.
use edge.Base.{ℕ, ◌≡◌, refl, ◌∙◌, ap, List, none, some, false, if_false, elim_none}
use edge.Layer.State.{Config, Staged, Layer}
use edge.Layer.Staging.{Submission, running, submit_stage_locked, on_stage_done, fill_staged}

module _ {T F : Type 0} (c : Config T F) where
  on_stage_done-raise :
      (l : Layer T F) (fill : List ℕ) (sub : Submission)
      → l.staging_future ≡ some fill
      → on_stage_done c l none sub ≡ record l { staging_future = none }
  unfolding on_stage_done
  on_stage_done-raise l fill sub h = rw (h, on_stage_done) refl

  fill_staged-async :
      (l : Layer T F) (unique : List ℕ)
      → c.staged_sync ≡ false
      → l.staging_future ≡ none
      → fill_staged c l unique running ≡ some (record l { staging_future = some unique })
  unfolding fill_staged submit_stage_locked
  fill_staged-async l unique sync free =
      elim_none _ _ l.staging_future free ∙ if_false _ _ c.staged_sync sync

  on_stage_done-pending :
      (l : Layer T F) (fill waiting : List ℕ) (set : Staged T)
      → l.staging_future ≡ some fill
      → l.staged_pending ≡ some waiting
      → on_stage_done c l (some set) running ≡ record l {
        staged_state_next = some set;
        staged_pending = none;
        staging_future = some waiting;
      }
  unfolding on_stage_done submit_stage_locked
  on_stage_done-pending l fill waiting set h w = rw (h, w, on_stage_done) refl

  on_stage_done-last :
      (l : Layer T F) (fill : List ℕ) (set : Staged T)
      → l.staging_future ≡ some fill
      → l.staged_pending ≡ none
      → on_stage_done c l (some set) running
        ≡ record l { staged_state_next = some set; staged_pending = none; staging_future = none }
  unfolding on_stage_done
  on_stage_done-last l fill set h w =
      rw (h, w, on_stage_done)
        (ap
          (λ p. record l {
            staged_state_next = some set;
            staged_pending = p;
            staging_future = none;
          })
          w)

  -- The layer of the scenario below after a newer set was submitted, after that landed, and after the
  -- older one landed.
  abbrev pub submitted : Layer T F → (newer : List ℕ) → Layer T F
  submitted l newer = record l { staging_future = some newer }

  abbrev pub first_landed : Layer T F → (newer : List ℕ) → Staged T → Layer T F
  first_landed l newer set = on_stage_done c (submitted l newer) (some set) running

  -- In the asynchronous mode, let a fill raise while an older set waits, and a newer set be staged then.
  -- The newer set is what is filled, while the older one goes on waiting. When the newer one lands it is
  -- the next set, and the older one is submitted. When that lands, it replaces the newer one as the next
  -- set, and nothing is in flight or waits.
  pub on_stage_done-stale :
      (l : Layer T F) (fill older newer : List ℕ) (sub : Submission)
      (newer_set older_set : Staged T)
      → c.staged_sync ≡ false
      → l.staging_future ≡ some fill
      → l.staged_pending ≡ some older
      → (fill_staged c (on_stage_done c l none sub) newer running ≡ some (submitted l newer))
        × ((first_landed l newer newer_set).staged_state_next ≡ some newer_set)
        × ((first_landed l newer newer_set).staging_future ≡ some older)
        × (on_stage_done c (first_landed l newer newer_set) (some older_set) running ≡ record l {
          staged_state_next = some older_set;
          staged_pending = none;
          staging_future = none;
        })
  on_stage_done-stale l fill older newer sub newer_set older_set async h w =
      let landed = on_stage_done-pending (submitted l newer) newer older newer_set refl w in
      (
        ap (λ (r : Layer T F). fill_staged c r newer running) (on_stage_done-raise l fill sub h)
            ∙ fill_staged-async (record l { staging_future = none }) newer async refl,
        ap (λ (r : Layer T F). r.staged_state_next) landed,
        ap (λ (r : Layer T F). r.staging_future) landed,
        ap (λ (r : Layer T F). on_stage_done c r (some older_set) running) landed
            ∙ on_stage_done-last _ older older_set refl refl,
      )
