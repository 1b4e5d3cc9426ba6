-- ===== src/Layer/Incr/Stack.antt =====
-- The invariant of the incremental stack, and that releasing slots and placing one expert keep it.
use edge.Base.{
  ℕ, ◌<◌, ◌≡◌, refl, List, [], ◌∷◌, Option, none, some, false, lookup, store, contains, foldl,
  if◌then◌else◌, arith, ℕ_discrete, Option-cases, inl, inr, keys, lookup-store,
}
use edge.Layer.Bundles.{is_some}
use edge.Layer.Incr.{update, release, restrict, outside}

module _ {B : Type 0} (zero_row : B) (n : ℕ) where
  -- A slot that holds an expert has its bundle in its row and its table entry; a bundle that is kept
  -- is in the slot that the table gives; any other expert's entry is the overflow row `n`, which
  -- is all zero.
  pub record IsStack (occ : ℕ → Option ℕ) (table : ℕ → ℕ) (rows : ℕ → B) (bundles : List (ℕ × B))
      : Type 0 where
    pub held :
        (i e : ℕ)
        → occ i ≡ some e
        → (i < n) × (table e ≡ i) × (lookup ℕ_discrete e bundles ≡ some (rows i))
    pub kept : (e : ℕ) (b : B) → lookup ℕ_discrete e bundles ≡ some b → occ (table e) ≡ some e
    pub absent : (e : ℕ) → lookup ℕ_discrete e bundles ≡ none → table e ≡ n
    pub overflow : rows n ≡ zero_row

  -- An expert that the stack does not hold goes into a free slot.
  pub IsStack-put :
      (occ : ℕ → Option ℕ) (table : ℕ → ℕ) (rows : ℕ → B) (bundles : List (ℕ × B)) (e slot : ℕ)
      (b : B)
      → IsStack occ table rows bundles
      → lookup ℕ_discrete e bundles ≡ none
      → occ slot ≡ none
      → slot < n
      → IsStack
          (update occ slot (some e))
          (update table e slot)
          (update rows slot b)
          (store ℕ_discrete e b bundles)
  IsStack-put occ table rows bundles e slot b h fresh free fits = record {
    held = λ i q k. elim (ℕ_discrete slot i) [
      | yes here ↦ ground (arith, lookup-store ℕ_discrete q e b bundles)
      | no there ↦ ground (arith, h.held i q (ground arith), lookup-store ℕ_discrete q e b bundles)
    ];
    kept = λ q v k. elim (ℕ_discrete e q) [
      | yes same ↦ ground arith
      | no other ↦
          ground (arith, h.kept q v (ground (arith, lookup-store ℕ_discrete q e b bundles)))
    ];
    absent = λ q k. elim (ℕ_discrete e q) [
      | yes same ↦ absurd (ground (arith, lookup-store ℕ_discrete q e b bundles))
      | no other ↦
          ground (arith, h.absent q (ground (arith, lookup-store ℕ_discrete q e b bundles)))
    ];
    overflow = ground (arith, h.overflow);
  }

  pub lookup-restrict :
      (q : ℕ) (bundles : List (ℕ × B)) (es : List ℕ)
      → lookup ℕ_discrete q (restrict bundles es)
        ≡ (if contains q es then lookup ℕ_discrete q bundles else none)
  unfolding restrict contains lookup
  lookup-restrict q bundles [] = refl
  lookup-restrict q bundles (e ∷ es) = elim (ℕ_discrete e q) [
    | yes same ↦ elim (Option-cases (lookup ℕ_discrete e bundles)) [
      | inl gone ↦ rw (gone, restrict) (ground (arith, lookup-restrict q bundles es))
      | inr (b, here) ↦ rw (here, restrict) (ground (arith, lookup-restrict q bundles es))
    ]
    | no other ↦ elim (Option-cases (lookup ℕ_discrete e bundles)) [
      | inl gone ↦ rw (gone, restrict) (ground (arith, lookup-restrict q bundles es))
      | inr (b, here) ↦ rw (here, restrict) (ground (arith, lookup-restrict q bundles es))
    ]
  ]

  pub contains-outside :
      (q : ℕ) (exp es : List ℕ)
      → contains q (outside exp es) ≡ (if contains q exp then false else contains q es)
  unfolding outside contains
  contains-outside q exp [] = ground arith
  contains-outside q exp (e ∷ es) = elim (ℕ_discrete e q) [
    | yes same ↦ ground (arith, contains-outside q exp es)
    | no other ↦ ground (arith, contains-outside q exp es)
  ]

  contains-keys :
      (q : ℕ) (bundles : List (ℕ × B))
      → contains q (keys bundles) ≡ is_some (lookup ℕ_discrete q bundles)
  unfolding contains lookup is_some
  contains-keys q [] = refl
  contains-keys q ((e, b) ∷ d) = elim (ℕ_discrete e q) [
    | yes same ↦ ground (arith, contains-keys q d)
    | no other ↦ ground (arith, contains-keys q d)
  ]

  -- Entries that are overwritten with `v`.
  pub foldl-update_all :
      (v q : ℕ) (es : List ℕ) (table : ℕ → ℕ)
      → foldl (λ (t : ℕ → ℕ) (e : ℕ). update t e v) table es q
        ≡ (if contains q es then v else table q)
  unfolding contains
  foldl-update_all v q [] table = refl
  foldl-update_all v q (e ∷ es) table = ground (arith, foldl-update_all v q es (update table e v))

  -- Evicting what is not staged again leaves a stack of the survivors, each in its slot.
  pub IsStack-release :
      (occ : ℕ → Option ℕ) (table : ℕ → ℕ) (rows : ℕ → B) (bundles : List (ℕ × B)) (exp : List ℕ)
      → IsStack occ table rows bundles
      → IsStack
          (release exp occ)
          (foldl (λ (t : ℕ → ℕ) (e : ℕ). update t e n) table (outside exp (keys bundles)))
          rows
          (restrict bundles exp)
  unfolding release is_some
  IsStack-release occ table rows bundles exp h = record {
    held = λ i q k. elim (Option-cases (occ i)) [
      | inl free ↦ absurd (ground arith)
      | inr (x, full) ↦ ground (
        arith,
        h.held i x full,
        lookup-restrict q bundles exp,
        foldl-update_all n q (outside exp (keys bundles)) table,
        contains-outside q exp (keys bundles),
      )
    ];
    kept = λ q v k. ground (
      arith,
      h.kept q v (ground (arith, lookup-restrict q bundles exp)),
      lookup-restrict q bundles exp,
      foldl-update_all n q (outside exp (keys bundles)) table,
      contains-outside q exp (keys bundles),
    );
    absent = λ q k. elim (Option-cases (lookup ℕ_discrete q bundles)) [
      | inl gone ↦
          ground (arith, h.absent q gone, foldl-update_all n q (outside exp (keys bundles)) table)
      | inr (b, here) ↦ ground (
        arith,
        lookup-restrict q bundles exp,
        foldl-update_all n q (outside exp (keys bundles)) table,
        contains-outside q exp (keys bundles),
        contains-keys q bundles,
      )
    ];
    overflow = h.overflow;
  }
