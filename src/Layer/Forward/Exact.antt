-- ===== src/Layer/Forward/Exact.antt =====
-- What `__call__` computes on each of its paths, against the reference: every row through the
-- checkpoint bundle of its expert.
use edge.Base.{
  ℕ, suc, ◌+◌, ◌≡◌, refl, ◌∙◌, sym, ap, subst, List, [], ◌∷◌, ◌++◌, map, Option, some, true, false,
  lookup, contains, sorted_set, sorted_set-IsAscending, contains-sorted_set, IsAscending-IsDistinct,
  IsDistinct, length, get_elem?, ℕ_discrete, ◌==◌, ==_iff, append-nil, arith, inl, inr, Bool-cases,
}
use edge.Layer.State.{Bundle, Config, Key, Layer}
use edge.Layer.Build.{build_cold, index_of}
use edge.Layer.Build.Exact.{IsPaired}
use edge.Layer.Bundles.{get_bundles}
use edge.Layer.Bundles.Steps.{IsExact}
use edge.Layer.Bundles.Exact.{get_bundles-all}
use edge.Layer.Staging.{number_from}
use edge.Layer.Incr.{update}
use edge.Layer.Forward.{
  Kernels, experts_of, expert_math, gather, stack_of, value_of, values_in, exact_path,
}

module _ {T F X : Type 0} (c : Config T F) (k : Kernels T X) where
  -- Every row through the checkpoint bundle of its expert.
  abbrev pub reference : List (X × ℕ) → List (Option X)
  reference rows = map (λ (r : X × ℕ). expert_math c k r.0 (build_cold c r.1)) rows

  pub gather-eq :
      (stack : ℕ → Bundle T) (local : ℕ → ℕ) (want : ℕ → Bundle T) (rows : List (X × ℕ))
      → ((e : ℕ) → contains e (experts_of c k rows) ≡ true → stack (local e) ≡ want e)
      → gather c k stack local rows ≡ map (λ (r : X × ℕ). expert_math c k r.0 (want r.1)) rows
  unfolding gather contains
  gather-eq stack local want [] h = refl
  gather-eq stack local want ((x, e) ∷ rows) h =
      rw (h e (ground arith), gather-eq stack local want rows (λ q m. h q (ground arith)))

  pub number_from-index :
      (i : ℕ) (es : List ℕ) (table : ℕ → ℕ) (e : ℕ)
      → IsDistinct es
      → (contains e es ≡ true → number_from i es table e ≡ i + index_of e es)
        × (contains e es ≡ false → number_from i es table e ≡ table e)
  unfolding number_from index_of contains
  number_from-index i [] table e d = (λ m. ground arith, λ m. refl)
  number_from-index i (x ∷ xs) table e d =
      let rest = number_from-index (suc i) xs (update table x i) e d.1 in
      elim (Bool-cases (x == e)) [
        | inl same ↦ (
          λ m. rw same (
              rest.1 (subst (λ q. contains q xs ≡ false) ((==_iff x e).0 same) d.0) ∙ ground arith),
          λ m. absurd (ground arith),
        )
        | inr other ↦ (
          λ m. rw other (rest.0 (ground arith) ∙ omega arith),
          λ m. rest.1 (ground arith) ∙ ground arith,
        )
      ]

  get_index :
      {A : Type 0} (f : ℕ → A) (es : List ℕ) (tail : List A) (e : ℕ)
      → contains e es ≡ true
      → get_elem? (map f es ++ tail) (index_of e es) ≡ some (f e)
  unfolding index_of contains
  get_index f [] tail e m = absurd (ground arith)
  get_index f (x ∷ xs) tail e m = elim (Bool-cases (x == e)) [
    | inl same ↦ rw (same, (==_iff x e).0 same) refl
    | inr other ↦ rw other (get_index f xs tail e (ground arith))
  ]

  pub stack_of-get :
      (bundles : List (Bundle T)) (i : ℕ) (b : Bundle T)
      → get_elem? bundles i ≡ some b
      → stack_of c k bundles i ≡ b
  unfolding stack_of
  stack_of-get bundles i b h = rw (h, stack_of) refl

  -- The row of an expert in a stack of the bundles of distinct experts.
  pub stack_of-index :
      (es : List ℕ) (tail : List (Bundle T)) (table : ℕ → ℕ) (e : ℕ)
      → IsDistinct es
      → contains e es ≡ true
      → stack_of c k (map (build_cold c) es ++ tail) (number_from 0 es table e) ≡ build_cold c e
  stack_of-index es tail table e d m =
      ap (stack_of c k (map (build_cold c) es ++ tail))
        ((number_from-index 0 es table e d).0 m ∙ omega arith)
      ∙ stack_of-get _ _ (build_cold c e) (get_index (build_cold c) es tail e m)

  values_in-eq :
      (d : List (ℕ × Option (Bundle T))) (es : List ℕ)
      → ((e : ℕ) → contains e es ≡ true → lookup ℕ_discrete e d ≡ some (some (build_cold c e)))
      → values_in c k d es ≡ map (build_cold c) es
  unfolding values_in contains
  values_in-eq d [] h = refl
  values_in-eq d (e ∷ es) h =
      let first : value_of c k (lookup ℕ_discrete e d) ≡ build_cold c e =
        ap (value_of c k) (h e (ground arith)) in
      rw (first, values_in-eq d es (λ q m. h q (ground arith)))

  module _ (paired : IsPaired c) (ckpt : Key → Bundle T)
      (own : (e : ℕ) → ckpt (c.layer_idx, e) ≡ build_cold c e) where
    -- The exact path computes the reference, from any stores that hold the checkpoint's bundles, and
    -- leaves such stores.
    pub exact_path-reference :
        (l : Layer T F) (rows : List (X × ℕ))
        → IsExact c paired ckpt own l.stores
        → IsExact c paired ckpt own (exact_path c k l rows).0.stores
          × ((exact_path c k l rows).1 ≡ reference rows)
    unfolding exact_path
    exact_path-reference l rows h =
        let unique = sorted_set (experts_of c k rows) in
        let distinct =
          IsAscending-IsDistinct 0 unique (sorted_set-IsAscending (experts_of c k rows)) in
        let (exact, served) = get_bundles-all c paired ckpt own l.stores unique h distinct in
        (
          exact,
          gather-eq (stack_of c k (values_in c k (get_bundles c l.stores unique).1 unique))
              (number_from 0 unique (λ e. length unique)) (build_cold c) rows
              (λ e m.
                let inside : contains e unique ≡ true =
                  contains-sorted_set e (experts_of c k rows) ∙ m in
                ap (λ vals. stack_of c k vals (number_from 0 unique (λ e. length unique) e))
                  (values_in-eq (get_bundles c l.stores unique).1 unique served
                    ∙ sym (append-nil (map (build_cold c) unique)))
                ∙ stack_of-index unique [] (λ e. length unique) e distinct inside),
        )
