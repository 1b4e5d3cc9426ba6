-- ===== src/Engine/Prerouter/Ling/Agree.antt =====
-- The ling stager: what is staged is what the consumer routes with, and a reset leaves no prediction.
use edge.Base.{
  ℕ, ◌+◌, ◌==◌, ◌≡◌, refl, ◌∙◌, ap, List, [], ◌∷◌, none, some, Bool, true, false, ◌⊎◌, lookup,
  ℕ_discrete, contains, IsDistinct, sorted_set, arith, inl, inr, Option-cases, if_false, if_true,
  Bool-cases,
}
use edge.Engine.Prerouter.{assign_slot}
use edge.Engine.Prerouter.Ling.{
  LingCapture, LingHeads, LingState, Prediction, ling_features, predictions, store_all, expert_sets,
  ling_stage_all, set_block, drop_captures, ling_reset,
}

lookup_first :
    (q key : ℕ) (v w : List ℕ) (d : List (ℕ × List ℕ))
    → lookup ℕ_discrete q ((key, v) ∷ d) ≡ some w
    → ((q ≡ key) × (w ≡ v)) ⊎ (lookup ℕ_discrete q d ≡ some w)
unfolding lookup
lookup_first q key v w d m = ground arith

module _ {A : Type 0} (h : LingHeads A) where
  abbrev owners_of : List (Prediction A) → List ℕ
  owners_of [] = []
  owners_of ((owner, p) ∷ ps) = owner ∷ owners_of ps

  -- Only owners that were asked for have a prediction.
  predictions-owners :
      (blocks : ℕ → LingCapture A) (q : ℕ) (owners : List ℕ)
      → contains q owners ≡ false
      → contains q (owners_of (predictions h blocks owners)) ≡ false
  unfolding predictions contains
  predictions-owners blocks q [] m = refl
  predictions-owners blocks q (o ∷ owners) m =
      ground (arith, predictions-owners blocks q owners, Option-cases (ling_features h (blocks o)))

  predictions-IsDistinct :
      (blocks : ℕ → LingCapture A) (owners : List ℕ)
      → IsDistinct owners
      → IsDistinct (owners_of (predictions h blocks owners))
  unfolding predictions contains
  predictions-IsDistinct blocks [] d = tt
  predictions-IsDistinct blocks (o ∷ owners) d = elim (Option-cases (ling_features h (blocks o))) [
    | inl e ↦ rw (e, predictions) (predictions-IsDistinct blocks owners d.1)
    | inr (feats, e) ↦
        rw (e, predictions)
          (predictions-owners blocks o owners d.0, predictions-IsDistinct blocks owners d.1)
  ]

  store_all-keeps :
      (ps : List (Prediction A)) (st : LingState A) (owner : ℕ)
      → contains owner (owners_of ps) ≡ false
      → (store_all h ps st).pg_cache (owner + 1) ≡ st.pg_cache (owner + 1)
  unfolding store_all contains assign_slot
  store_all-keeps [] st owner m = refl
  store_all-keeps ((o, (cur, logits)) ∷ ps) st owner m =
      store_all-keeps ps _ owner (ground arith)
      ∙ if_false _ _ ((o + 1) == (owner + 1)) (ground arith)

  -- A set belongs to the selection from the logits that are cached for its consumer.
  abbrev pub IsRouted : LingState A → ℕ → List ℕ → Type 0
  IsRouted st q experts =
      (logits : A) × (st.pg_cache q ≡ some logits)
      × (experts ≡ sorted_set (h.to_list (h.select logits).0))

  sets-IsRouted :
      (ps : List (Prediction A)) (st : LingState A) (q : ℕ) (experts : List ℕ)
      → IsDistinct (owners_of ps)
      → lookup ℕ_discrete q (expert_sets h true ps) ≡ some experts
      → IsRouted (store_all h ps st) q experts
  unfolding store_all expert_sets lookup assign_slot
  sets-IsRouted [] st q experts d m = absurd (ground arith)
  sets-IsRouted ((o, (cur, logits)) ∷ ps) st q experts d m =
      let here : LingState A = record {
        pg_cache = assign_slot st.pg_cache (o + 1) logits;
        blocks = set_block o (record (st.blocks o) { prev_topk_oh = some cur }) st.blocks;
      } in
      elim (lookup_first q (o + 1) (sorted_set (h.to_list (h.select logits).0)) experts
        (expert_sets h true ps) m) [
          | inl (at, set) ↦ (
            logits,
            ap (λ k. (store_all h ps here).pg_cache k) at
                ∙ store_all-keeps ps here o d.0
                ∙ if_true (some logits) (st.pg_cache (o + 1)) ((o + 1) == (o + 1)) (ground arith),
            set,
          )
          | inr later ↦ sets-IsRouted ps here q experts d.1 later
        ]

  -- For distinct owners, the set that `stage_all` stages for a consumer is the selection from the very
  -- logits that it leaves in the cache for that consumer.
  pub ling_stage_all-IsRouted :
      (owners : List ℕ) (st : LingState A) (q : ℕ) (experts : List ℕ)
      → IsDistinct owners
      → lookup ℕ_discrete q (ling_stage_all h true owners st).1 ≡ some experts
      → IsRouted (ling_stage_all h true owners st).0 q experts
  unfolding ling_stage_all
  ling_stage_all-IsRouted owners st q experts d m =
      sets-IsRouted (predictions h st.blocks owners) st q experts
        (predictions-IsDistinct st.blocks owners d) m

  dropped-elsewhere :
      (q : ℕ) (owners : List ℕ) (blocks : ℕ → LingCapture A)
      → (blocks q).m_in_cache ≡ none
      → (drop_captures owners blocks q).m_in_cache ≡ none
  unfolding drop_captures set_block
  dropped-elsewhere q [] blocks e = e
  dropped-elsewhere q (o ∷ owners) blocks e = dropped-elsewhere q owners _ (ground (arith, e))

  dropped-here :
      (q : ℕ) (owners : List ℕ) (blocks : ℕ → LingCapture A)
      → contains q owners ≡ true
      → (drop_captures owners blocks q).m_in_cache ≡ none
  unfolding drop_captures set_block contains
  dropped-here q [] blocks m = absurd (ground arith)
  dropped-here q (o ∷ owners) blocks m = elim (Bool-cases (o == q)) [
    | inl at ↦ dropped-elsewhere q owners _ (rw at refl)
    | inr off ↦ dropped-here q owners _ (ground arith)
  ]

  features_none : (b : LingCapture A) → b.m_in_cache ≡ none → ling_features h b ≡ none
  unfolding ling_features
  features_none b e = rw (e, ling_features) refl

  predictions-dropped :
      (owners : List ℕ) (blocks : ℕ → LingCapture A)
      → ((q : ℕ) → contains q owners ≡ true → (blocks q).m_in_cache ≡ none)
      → predictions h blocks owners ≡ []
  unfolding predictions contains
  predictions-dropped [] blocks gone = refl
  predictions-dropped (o ∷ owners) blocks gone =
      rw (features_none (blocks o) (gone o (ground arith)), predictions)
        (predictions-dropped owners blocks (λ q m. gone q (ground (arith, m))))

  -- After the reset of a request `stage_all` gives no set and leaves no logits in the cache for any layer,
  -- whatever the captures and the cache of the request before.
  pub ling_stage_all-ling_reset :
      (staged : Bool) (owners : List ℕ) (st : LingState A) (q : ℕ)
      → ((ling_stage_all h staged owners (ling_reset owners st)).1 ≡ [])
        × ((ling_stage_all h staged owners (ling_reset owners st)).0.pg_cache q ≡ none)
  unfolding ling_stage_all ling_reset store_all expert_sets
  ling_stage_all-ling_reset staged owners st q =
      let nothing =
        predictions-dropped owners (drop_captures owners st.blocks)
          (λ q m. dropped-here q owners st.blocks m) in
      (
        ap (expert_sets h staged) nothing,
        ap (λ ps. (store_all h ps (ling_reset owners st)).pg_cache q) nothing,
      )
