-- ===== src/Layer/Incr/Slots.antt =====
-- Counting slots: there is always a free slot for a newly staged expert.
use edge.Base.{
  ℕ, zero, suc, ◌+◌, ◌<◌, ◌≤◌, ◌≡◌, refl, List, [], ◌∷◌, Option, none, some, true, false, lookup,
  contains, IsDistinct, IsAscending, IsAscending-mono, IsAscending-IsDistinct, length_of_subset,
  length, if◌then◌else◌, arith, ℕ_discrete, Option-cases, Bool-cases, inl, inr,
}
use edge.Layer.Bundles.{is_some}
use edge.Layer.Incr.{free_from, not_in}

-- The experts in the occupied slots.
held_from : (ℕ → Option ℕ) → ℕ → ℕ → List ℕ
held_from occ start zero = []
held_from occ start (suc k) = elim (occ start) [
  | none ↦ held_from occ (suc start) k
  | some e ↦ e ∷ held_from occ (suc start) k
]

length-held-free :
    (occ : ℕ → Option ℕ) (start k : ℕ)
    → length (held_from occ start k) + length (free_from occ start k) ≡ k
unfolding held_from free_from
length-held-free occ start zero = omega arith
length-held-free occ start (suc k) = ground (arith, length-held-free occ (suc start) k)

pub contains-free_from :
    (occ : ℕ → Option ℕ) (s start k : ℕ)
    → contains s (free_from occ start k) ≡ true
    → (occ s ≡ none) × (s < start + k)
unfolding free_from contains
contains-free_from occ s start zero h = absurd (ground arith)
contains-free_from occ s start (suc k) h = ground (arith, contains-free_from occ s (suc start) k)

free_from-IsAscending :
    (occ : ℕ → Option ℕ) (start k : ℕ) → IsAscending start (free_from occ start k)
unfolding free_from
free_from-IsAscending occ start zero = tt
free_from-IsAscending occ start (suc k) = elim (Option-cases (occ start)) [
  | inl e ↦ rw (e, free_from) (omega arith, free_from-IsAscending occ (suc start) k)
  | inr (x, e) ↦
      rw (e, free_from)
        (IsAscending-mono (suc start) start _ (omega arith)
          (free_from-IsAscending occ (suc start) k))
]

pub free_from-IsDistinct : (occ : ℕ → Option ℕ) (k : ℕ) → IsDistinct (free_from occ 0 k)
free_from-IsDistinct occ k = IsAscending-IsDistinct 0 _ (free_from-IsAscending occ 0 k)

-- Each expert is in the slot that the table gives for it.
module _ (occ : ℕ → Option ℕ) (table : ℕ → ℕ)
    (placed : (i e : ℕ) → occ i ≡ some e → table e ≡ i) where
  contains-held_from :
      (e start k : ℕ)
      → contains e (held_from occ start k) ≡ true
      → (start ≤ table e) × (occ (table e) ≡ some e)
  unfolding held_from contains
  contains-held_from e start zero h = absurd (ground arith)
  contains-held_from e start (suc k) h = elim (Option-cases (occ start)) [
    | inl free ↦ ground (arith, contains-held_from e (suc start) k)
    | inr (x, held) ↦ elim (ℕ_discrete x e) [
      | yes same ↦ ground (arith, placed start x held)
      | no other ↦ ground (arith, contains-held_from e (suc start) k)
    ]
  ]

  held_from-IsDistinct : (start k : ℕ) → IsDistinct (held_from occ start k)
  unfolding held_from
  held_from-IsDistinct start zero = tt
  held_from-IsDistinct start (suc k) = elim (Option-cases (occ start)) [
    | inl free ↦ rw (free, held_from) (held_from-IsDistinct (suc start) k)
    | inr (x, held) ↦
        rw (held, held_from)
          (
            elim (Bool-cases (contains x (held_from occ (suc start) k))) [
              | inl again ↦
                  absurd (
                    omega
                      (arith, (contains-held_from x (suc start) k again).0, placed start x held))
              | inr fresh ↦ fresh
            ],
            held_from-IsDistinct (suc start) k,
          )
  ]

-- The staged experts that have a bundle already.
in_dict {ℓ} : {V : Type ℓ} → List (ℕ × V) → List ℕ → List ℕ
in_dict bundles [] = []
in_dict bundles (e ∷ es) =
    if is_some (lookup ℕ_discrete e bundles) then e ∷ in_dict bundles es else in_dict bundles es

module _ {V : Type 0} (bundles : List (ℕ × V)) where
  length-in_dict-not_in :
      (es : List ℕ) → length (in_dict bundles es) + length (not_in bundles es) ≡ length es
  unfolding in_dict not_in
  length-in_dict-not_in [] = omega arith
  length-in_dict-not_in (e ∷ es) = ground (arith, length-in_dict-not_in es)

  contains-in_dict :
      (q : ℕ) (es : List ℕ)
      → contains q es ≡ true
      → is_some (lookup ℕ_discrete q bundles) ≡ true
      → contains q (in_dict bundles es) ≡ true
  unfolding in_dict contains
  contains-in_dict q [] h k = absurd (ground arith)
  contains-in_dict q (e ∷ es) h k = elim (ℕ_discrete e q) [
    | yes same ↦ ground arith
    | no other ↦ ground (arith, contains-in_dict q es)
  ]

  pub contains-not_in :
      (q : ℕ) (es : List ℕ)
      → contains q (not_in bundles es) ≡ true
      → (contains q es ≡ true) × (lookup ℕ_discrete q bundles ≡ none)
  unfolding not_in contains is_some
  contains-not_in q [] h = absurd (ground arith)
  contains-not_in q (e ∷ es) h = elim (ℕ_discrete e q) [
    | yes same ↦ elim (Option-cases (lookup ℕ_discrete e bundles)) [
      | inl absent ↦ ground arith
      | inr (b, present) ↦ ground (arith, contains-not_in q es)
    ]
    | no other ↦ ground (arith, contains-not_in q es)
  ]

  pub contains-not_in_of_absent :
      (q : ℕ) (es : List ℕ)
      → contains q es ≡ true
      → lookup ℕ_discrete q bundles ≡ none
      → contains q (not_in bundles es) ≡ true
  unfolding not_in contains is_some
  contains-not_in_of_absent q [] h k = absurd (ground arith)
  contains-not_in_of_absent q (e ∷ es) h k = elim (ℕ_discrete e q) [
    | yes same ↦ ground arith
    | no other ↦ ground (arith, contains-not_in_of_absent q es)
  ]

  not_in-absent :
      (q : ℕ) (es : List ℕ) → contains q es ≡ false → contains q (not_in bundles es) ≡ false
  unfolding not_in contains
  not_in-absent q [] h = refl
  not_in-absent q (e ∷ es) h = ground (arith, not_in-absent q es)

  pub not_in-IsDistinct : (es : List ℕ) → IsDistinct es → IsDistinct (not_in bundles es)
  unfolding not_in
  not_in-IsDistinct [] d = tt
  not_in-IsDistinct (e ∷ es) d = ground (arith, not_in-IsDistinct es d.1, not_in-absent e es)

-- At most `n` distinct experts are staged, so the new ones fit into the free slots.
pub length-not_in-le-free :
    {V : Type 0} (bundles : List (ℕ × V)) (occ : ℕ → Option ℕ) (table : ℕ → ℕ) (exp : List ℕ)
    (n : ℕ)
    → length exp ≤ n
    → ((i e : ℕ) → occ i ≡ some e → table e ≡ i)
    → ((i e : ℕ)
        → occ i ≡ some e
        → (contains e exp ≡ true) × (is_some (lookup ℕ_discrete e bundles) ≡ true))
    → length (not_in bundles exp) ≤ length (free_from occ 0 n)
length-not_in-le-free bundles occ table exp n short placed staged =
    let held = held_from occ 0 n in
    let fits =
      length_of_subset held (in_dict bundles exp) (held_from-IsDistinct occ table placed 0 n)
        (λ e m.
          let at = (contains-held_from occ table placed e 0 n m).1 in
          let known = staged (table e) e at in contains-in_dict bundles e exp known.0 known.1) in
    omega (arith, fits, length-held-free occ 0 n, length-in_dict-not_in bundles exp)
