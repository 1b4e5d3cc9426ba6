-- ===== src/Tools/R3/Interleaved.antt =====
-- Both tensors are found again in the interleaved one.
use edge.Base.{
  ℕ, zero, suc, ◌+◌, ◌*◌, ◌≤◌, ◌<◌, ◌≡◌, refl, sym, ap, ◌∙◌, List, [], ◌∷◌, some, arith, get_elem?,
  length,
}
use edge.Tools.R3.{perm_from, ssm_ba_perm, row_of, gather, load_ba}

module _ {A : Type 0} where
  get_elem?-some : (xs : List A) (i : ℕ) → i < length xs → (x : A) × (get_elem? xs i ≡ some x)
  get_elem?-some [] i h = absurd (omega (arith, h))
  get_elem?-some (x ∷ xs) zero h = (x, refl)
  get_elem?-some (x ∷ xs) (suc i) h = get_elem?-some xs i (omega (arith, h))

  -- The rows from group `g` on: each row of both tensors in its place.
  abbrev IsInterleaved : (b a : List A) → (n g : ℕ) → List A → Type 0
  IsInterleaved b a zero g rows = rows ≡ []
  IsInterleaved b a (suc n) g (w ∷ x ∷ y ∷ z ∷ rows) =
      (get_elem? b (2 * g) ≡ some w)
      × (get_elem? b (2 * g + 1) ≡ some x)
      × (get_elem? a (2 * g) ≡ some y)
      × (get_elem? a (2 * g + 1) ≡ some z)
      × IsInterleaved b a n (suc g) rows
  IsInterleaved b a (suc n) g rows = ⊥

  gather-IsInterleaved :
      (b a : List A) (n g : ℕ)
      → 2 * (g + n) ≤ length b
      → 2 * (g + n) ≤ length a
      → (rows : List A) × (gather b a (perm_from n g) ≡ some rows) × IsInterleaved b a n g rows
  unfolding gather perm_from row_of
  gather-IsInterleaved b a zero g hb ha = ([], refl, refl)
  gather-IsInterleaved b a (suc n) g hb ha =
      let (w, ew) = get_elem?-some b (2 * g) (omega (arith, hb)) in
      let (x, ex) = get_elem?-some b (2 * g + 1) (omega (arith, hb)) in
      let (y, ey) = get_elem?-some a (2 * g) (omega (arith, ha)) in
      let (z, ez) = get_elem?-some a (2 * g + 1) (omega (arith, ha)) in
      let (rows, e, laid) =
        gather-IsInterleaved b a n (suc g) (omega (arith, hb)) (omega (arith, ha)) in
      (
        w ∷ x ∷ y ∷ z ∷ rows,
        rw (ew, ex, ey, ez, e, gather, perm_from, row_of) refl,
        (ew, ex, ey, ez, laid),
      )

  -- The four rows of group `h`, counted from group `g`.
  abbrev pub HasGroup : (b a rows : List A) → (g h : ℕ) → Type 0
  HasGroup b a rows g h =
      (get_elem? rows (4 * h) ≡ get_elem? b (2 * (g + h)))
      × (get_elem? rows (4 * h + 1) ≡ get_elem? b (2 * (g + h) + 1))
      × (get_elem? rows (4 * h + 2) ≡ get_elem? a (2 * (g + h)))
      × (get_elem? rows (4 * h + 3) ≡ get_elem? a (2 * (g + h) + 1))

  -- A row stands where it is looked for.
  found_at :
      (rows source : List A) (i i' k k' : ℕ) (x : A)
      → i ≡ i'
      → k ≡ k'
      → get_elem? rows i ≡ some x
      → get_elem? source k ≡ some x
      → get_elem? rows i' ≡ get_elem? source k'
  found_at rows source i i' k k' x e e' here there =
      ap (get_elem? rows) (sym e) ∙ here ∙ sym there ∙ ap (get_elem? source) e'

  IsInterleaved-HasGroup :
      (b a rows : List A) (n g h : ℕ) → IsInterleaved b a n g rows → h < n → HasGroup b a rows g h
  IsInterleaved-HasGroup b a rows zero g h laid lt = absurd (omega (arith, lt))
  IsInterleaved-HasGroup b a [] (suc n) g h laid lt = absurd laid
  IsInterleaved-HasGroup b a (w ∷ []) (suc n) g h laid lt = absurd laid
  IsInterleaved-HasGroup b a (w ∷ x ∷ []) (suc n) g h laid lt = absurd laid
  IsInterleaved-HasGroup b a (w ∷ x ∷ y ∷ []) (suc n) g h laid lt = absurd laid
  IsInterleaved-HasGroup b a (w ∷ x ∷ y ∷ z ∷ rows) (suc n) g zero (ew, ex, ey, ez, laid) lt =
      let all = w ∷ x ∷ y ∷ z ∷ rows in
      (
        found_at all b 0 (4 * 0) (2 * g) (2 * (g + 0)) w (omega arith) (omega arith) refl ew,
        found_at all b 1 (4 * 0 + 1) (2 * g + 1) (2 * (g + 0) + 1) x (omega arith) (omega arith)
            refl ex,
        found_at all a 2 (4 * 0 + 2) (2 * g) (2 * (g + 0)) y (omega arith) (omega arith) refl ey,
        found_at all a 3 (4 * 0 + 3) (2 * g + 1) (2 * (g + 0) + 1) z (omega arith) (omega arith)
            refl ez,
      )
  IsInterleaved-HasGroup b a (w ∷ x ∷ y ∷ z ∷ rows) (suc n) g (suc h) (ew, ex, ey, ez, laid) lt =
      let (p, q, r, s) = IsInterleaved-HasGroup b a rows n (suc g) h laid (omega (arith, lt)) in
      let all = w ∷ x ∷ y ∷ z ∷ rows in
      let shift : (j : ℕ) → suc (suc (suc (suc (4 * h + j)))) ≡ 4 * suc h + j = λ j. omega arith in
      let first : 4 * suc h ≡ suc (suc (suc (suc (4 * h)))) = omega arith in
      let next : 2 * (suc g + h) ≡ 2 * (g + suc h) = omega arith in
      (
        ap (get_elem? all) first ∙ p ∙ ap (get_elem? b) next,
        ap (get_elem? all) (sym (shift 1)) ∙ q ∙ ap (λ k. get_elem? b (k + 1)) next,
        ap (get_elem? all) (sym (shift 2)) ∙ r ∙ ap (get_elem? a) next,
        ap (get_elem? all) (sym (shift 3)) ∙ s ∙ ap (λ k. get_elem? a (k + 1)) next,
      )

  length-IsInterleaved :
      (b a rows : List A) (n g : ℕ) → IsInterleaved b a n g rows → length rows ≡ 4 * n
  length-IsInterleaved b a rows zero g laid = ap length laid
  length-IsInterleaved b a [] (suc n) g laid = absurd laid
  length-IsInterleaved b a (w ∷ []) (suc n) g laid = absurd laid
  length-IsInterleaved b a (w ∷ x ∷ []) (suc n) g laid = absurd laid
  length-IsInterleaved b a (w ∷ x ∷ y ∷ []) (suc n) g laid = absurd laid
  length-IsInterleaved b a (w ∷ x ∷ y ∷ z ∷ rows) (suc n) g (ew, ex, ey, ez, laid) =
      omega (arith, length-IsInterleaved b a rows n (suc g) laid)

  -- With two value heads for each key head `load_ba` succeeds with all rows of both tensors, and in each
  -- group the two rows of either tensor stand in their order, those of the first tensor before.
  pub load_ba-HasGroup :
      (b a : List A) (n_k h : ℕ)
      → length b ≡ 2 * n_k
      → length a ≡ 2 * n_k
      → h < n_k
      → (rows : List A) × (load_ba b a n_k ≡ some rows)
        × (length rows ≡ length b + length a)
        × HasGroup b a rows 0 h
  unfolding load_ba ssm_ba_perm
  load_ba-HasGroup b a n_k h size_b size_a lt =
      let (rows, e, laid) =
        gather-IsInterleaved b a n_k 0 (omega (arith, size_b)) (omega (arith, size_a)) in
      (
        rows,
        e,
        omega (arith, length-IsInterleaved b a rows n_k 0 laid, size_b, size_a),
        IsInterleaved-HasGroup b a rows n_k 0 h laid lt,
      )
