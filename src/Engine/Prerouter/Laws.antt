-- ===== src/Engine/Prerouter/Laws.antt =====
-- What `stage_all` stages is what the consumers route with.
use edge.Base.{
  ℕ, ◌+◌, ◌==◌, ◌≡◌, refl, ◌∙◌, sym, ap, subst, ◌⊎◌, List, [], ◌∷◌, map, some, Bool, true, false,
  lookup, ℕ_discrete, contains, IsDistinct, sorted_set, arith, inl, inr, Option-cases, if_false,
  if_true, if◌then◌else◌,
}
use edge.Engine.Prerouter.{
  PrerouterState, Capture, Heads, features, predict, collect_features, metas_of, logits_of,
  flat_rows, first_set, later_rows, store_prediction, store_rows, stage_all, assign_slot,
}

module _ {A : Type 0} (h : Heads A) where
  -- The second loop on the rows that belong to what was collected.
  abbrev stored :
      (staged : Bool)
      → List (ℕ × (A × A × A))
      → PrerouterState A
      → PrerouterState A × List (ℕ × List ℕ)
  stored staged ps st =
      let logits = logits_of h ps in
      let inds_all = map (λ l. (h.select l).0) logits in
      store_rows h (metas_of h ps) logits inds_all (map (λ l. (h.select l).1) logits)
        (flat_rows h staged inds_all) st

  -- A prediction is not overwritten by those of other owners.
  stored-keeps :
      (staged : Bool) (ps : List (ℕ × (A × A × A))) (st : PrerouterState A) (owner : ℕ)
      → contains owner (metas_of h ps) ≡ false
      → (stored staged ps st).0.pred_inds (owner + 1) ≡ st.pred_inds (owner + 1)
  unfolding store_rows metas_of logits_of flat_rows later_rows contains store_prediction assign_slot
  stored-keeps staged [] st owner m = refl
  stored-keeps true ((o, feats) ∷ ps) st owner m =
      stored-keeps true ps _ owner (ground arith)
      ∙ if_false _ _ ((o + 1) == (owner + 1)) (ground arith)
  stored-keeps false ((o, feats) ∷ ps) st owner m =
      stored-keeps false ps _ owner (ground arith)
      ∙ if_false _ _ ((o + 1) == (owner + 1)) (ground arith)

  lookup_cons :
      (q key : ℕ) (v w : List ℕ) (d : List (ℕ × List ℕ))
      → lookup ℕ_discrete q ((key, v) ∷ d) ≡ some w
      → ((q ≡ key) × (w ≡ v)) ⊎ (lookup ℕ_discrete q d ≡ some w)
  unfolding lookup
  lookup_cons q key v w d m = ground arith

  -- What is staged for a consumer, by the indices that it routes with.
  abbrev pub Agrees : (staged : Bool) → PrerouterState A → ℕ → List ℕ → Type 0
  Agrees staged st consumer experts =
      (inds : A) × (st.pred_inds consumer ≡ some inds)
      × (experts ≡ (if staged then sorted_set (h.to_list inds) else []))

  first_set-flat_rows :
      (staged : Bool) (i : A) (inds : List A)
      → first_set h (flat_rows h staged (i ∷ inds))
        ≡ (if staged then sorted_set (h.to_list i) else [])
  unfolding first_set flat_rows
  first_set-flat_rows true i inds = refl
  first_set-flat_rows false i inds = refl

  later_rows-flat_rows :
      (staged : Bool) (i : A) (inds : List A)
      → later_rows h (flat_rows h staged (i ∷ inds)) ≡ flat_rows h staged inds
  unfolding later_rows flat_rows
  later_rows-flat_rows true i inds = refl
  later_rows-flat_rows false i inds = refl

  -- The state after the first row.
  abbrev after_first : ℕ → A × A × A → PrerouterState A → PrerouterState A
  after_first o feats st =
      let l = predict h o feats in store_prediction h st (o + 1) l (h.select l).0 (h.select l).1

  stored-cons :
      (staged : Bool) (o : ℕ) (feats : A × A × A) (ps : List (ℕ × (A × A × A)))
      (st : PrerouterState A)
      → stored staged ((o, feats) ∷ ps) st ≡ (
        (stored staged ps (after_first o feats st)).0,
        (o + 1, if staged then sorted_set (h.to_list (h.select (predict h o feats)).0) else [])
            ∷ (stored staged ps (after_first o feats st)).1,
      )
  unfolding store_rows metas_of logits_of flat_rows first_set later_rows
  stored-cons true o feats ps st = refl
  stored-cons false o feats ps st = refl

  stored-Agrees :
      (staged : Bool) (ps : List (ℕ × (A × A × A))) (st : PrerouterState A) (consumer : ℕ)
      (experts : List ℕ)
      → IsDistinct (metas_of h ps)
      → lookup ℕ_discrete consumer (stored staged ps st).1 ≡ some experts
      → Agrees staged (stored staged ps st).0 consumer experts
  unfolding metas_of lookup store_rows store_prediction assign_slot
  stored-Agrees staged [] st consumer experts d m = absurd (ground arith)
  stored-Agrees staged ((o, feats) ∷ ps) st consumer experts d m =
      let eq = stored-cons staged o feats ps st in
      subst (λ (r : PrerouterState A × List (ℕ × List ℕ)). Agrees staged r.0 consumer experts)
        (sym eq)
        (elim (lookup_cons consumer (o + 1) _ experts _ (
          subst
            (λ (r : PrerouterState A × List (ℕ × List ℕ)).
              lookup ℕ_discrete consumer r.1 ≡ some experts)
            eq m)) [
              | inl (here, set) ↦ (
                (h.select (predict h o feats)).0,
                ap (stored staged ps (after_first o feats st)).0.pred_inds here
                    ∙ stored-keeps staged ps (after_first o feats st) o d.0
                    ∙ if_true _ _ ((o + 1) == (o + 1)) (ground arith),
                set,
              )
              | inr there ↦
                  stored-Agrees staged ps (after_first o feats st) consumer experts d.1 there
            ])

  module _ (before : PrerouterState A) (blocks : ℕ → Capture A) where
    contains-collect_features :
        (x : ℕ) (owners : List ℕ)
        → contains x owners ≡ false
        → contains x (metas_of h (collect_features h before blocks owners)) ≡ false
    unfolding contains collect_features metas_of
    contains-collect_features x [] m = refl
    contains-collect_features x (o ∷ owners) m =
        elim (Option-cases (features h before (blocks o) o)) [
          | inl skip ↦
              rw (skip, collect_features) (contains-collect_features x owners (ground arith))
          | inr (feats, e) ↦
              let rest = contains-collect_features x owners (ground arith) in
              rw (e, collect_features) (ground (arith, m, rest))
        ]

    collect_features-IsDistinct :
        (owners : List ℕ)
        → IsDistinct owners
        → IsDistinct (metas_of h (collect_features h before blocks owners))
    unfolding collect_features metas_of
    collect_features-IsDistinct [] d = tt
    collect_features-IsDistinct (o ∷ owners) d =
        elim (Option-cases (features h before (blocks o) o)) [
          | inl skip ↦ rw (skip, collect_features) (collect_features-IsDistinct owners d.1)
          | inr (feats, e) ↦
              rw (e, collect_features)
                (contains-collect_features o owners d.0, collect_features-IsDistinct owners d.1)
        ]

  -- For distinct owners, the indices that `stage_all` leaves for a consumer to route with are those of the
  -- set that it gives for that consumer, if some layer keeps slots; if none does, the set is empty.
  pub stage_all-Agrees :
      (staged : Bool) (blocks : ℕ → Capture A) (owners : List ℕ) (st : PrerouterState A)
      (consumer : ℕ) (experts : List ℕ)
      → IsDistinct owners
      → lookup ℕ_discrete consumer (stage_all h staged blocks owners st).1 ≡ some experts
      → Agrees staged (stage_all h staged blocks owners st).0 consumer experts
  unfolding stage_all
  stage_all-Agrees staged blocks owners st consumer experts d m =
      stored-Agrees staged (collect_features h st blocks owners) st consumer experts
        (collect_features-IsDistinct st blocks owners d) m
