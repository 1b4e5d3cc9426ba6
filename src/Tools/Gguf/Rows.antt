-- ===== src/Tools/Gguf/Rows.antt =====
-- A row that is packed keeps its values, but for the groups on the exemption list.
use native.Mathlib.Nat.{zero-add, suc-add}
use edge.Base.{
  ℕ, zero, suc, ◌+◌, ◌*◌, ◌==◌, ◌≡◌, refl, sym, ap, subst, ◌∙◌, ◌⊎◌, inl, inr, List, [], ◌∷◌, ◌++◌,
  map, some, true, false, ◌&&◌, arith, Bool-cases, contains, length, take, drop, length-take,
  length-drop,
}
use edge.Tools.Gguf.{
  Numbers, Block, pack_block, pack_row, is_malign, exempt_from, pack_q41_row, deq_block,
}
use edge.Tools.Gguf.Parity.{
  AreCodes, take-AreCodes, drop-AreCodes, map-append, IsExact, AreMild, AreNumbers, value,
  half_value, deq_block-pack_block, group-value,
}

take-take-drop :
    {A : Type 0} (n k : ℕ) (xs : List A) → take n xs ++ take k (drop n xs) ≡ take (n + k) xs
take-take-drop zero k xs = rw (zero-add) refl
take-take-drop (suc n) zero [] = rw (suc-add) refl
take-take-drop (suc n) (suc k) [] = rw (suc-add) refl
take-take-drop (suc n) k (x ∷ xs) = rw (suc-add) (ap (λ l. x ∷ l) (take-take-drop n k xs))

-- Two numbers at the front of a list.
contains_first : (a b : ℕ) (r : List ℕ) → contains a (a ∷ b ∷ r) ≡ true
unfolding contains
contains_first a b r = ground arith

contains_second : (a b : ℕ) (r : List ℕ) → contains b (a ∷ b ∷ r) ≡ true
unfolding contains
contains_second a b r = ground arith

contains_later : (n a b : ℕ) (r : List ℕ) → contains n r ≡ true → contains n (a ∷ b ∷ r) ≡ true
unfolding contains
contains_later n a b r h = ground (arith, h)

module _ {F H : Type 0} (num : Numbers F H) where
  exempt_from-malign :
      (g : ℕ) (q : List ℕ) (s b : F) (scales biases : List F)
      → is_malign num s b (take 64 q) ≡ true
      → 2 * g ∷ (2 * g + 1) ∷ exempt_from num (suc g) (drop 64 q) scales biases
        ≡ exempt_from num g q (s ∷ scales) (b ∷ biases)
  unfolding exempt_from
  exempt_from-malign g q s b scales biases h = rw (h) refl

  exempt_from-fine :
      (g : ℕ) (q : List ℕ) (s b : F) (scales biases : List F)
      → is_malign num s b (take 64 q) ≡ false
      → exempt_from num (suc g) (drop 64 q) scales biases
        ≡ exempt_from num g q (s ∷ scales) (b ∷ biases)
  unfolding exempt_from
  exempt_from-fine g q s b scales biases h = rw (h) refl

  -- For each group either both blocks are on the list, and the 16-bit format changes the bias or the scale
  -- of a code that is not zero; or the blocks have exactly the values of the checkpoint.
  abbrev pub AgreesRow :
      (exempt : List ℕ)
      → (g : ℕ) → (q : List ℕ) → (scales biases : List F) → List (Block H)
      → Type 0
  AgreesRow exempt g q [] [] [] = Unit
  AgreesRow exempt g q (s ∷ scales) (b ∷ biases) (k ∷ k' ∷ ks) =
      (((is_malign num s b (take 64 q) ≡ true)
          × (contains (2 * g) exempt ≡ true)
          × (contains (2 * g + 1) exempt ≡ true))
        ⊎ (deq_block num k ++ deq_block num k' ≡ map (value num s b) (take 64 q)))
      × AgreesRow exempt (suc g) (drop 64 q) scales biases ks
  AgreesRow exempt g q scales biases blocks = ⊥

  pack_row-AgreesRow :
      (exempt : List ℕ) (g : ℕ) (q : List ℕ) (scales biases : List F)
      → IsExact num
      → AreMild num scales
      → AreNumbers num biases
      → AreCodes q
      → length q ≡ 64 * length scales
      → length biases ≡ length scales
      → ((n : ℕ) → contains n (exempt_from num g q scales biases) ≡ true → contains n exempt ≡ true)
      → AgreesRow exempt g q scales biases (pack_row num q scales biases)
  unfolding pack_row
  pack_row-AgreesRow exempt g q [] [] exact mild numbers codes size even listed = tt
  pack_row-AgreesRow exempt g q [] (b ∷ biases) exact mild numbers codes size even listed =
      absurd (omega (arith, even))
  pack_row-AgreesRow exempt g q (s ∷ scales) [] exact mild numbers codes size even listed =
      absurd (omega (arith, even))
  pack_row-AgreesRow exempt g q (s ∷ scales) (b ∷ biases) exact mild numbers codes size even
        listed =
      let first : length (take 32 q) ≡ 32 = omega (arith, length-take 32 q, size) in
      let second : length (take 32 (drop 32 q)) ≡ 32 =
        omega (arith, length-take 32 (drop 32 q), length-drop 32 q, size) in
      let values : deq_block num (pack_block num s b (take 32 q))
            ++ deq_block num (pack_block num s b (take 32 (drop 32 q)))
          ≡ map (half_value num s b) (take 64 q) =
        ap (λ l. l ++ deq_block num (pack_block num s b (take 32 (drop 32 q))))
          (deq_block-pack_block num s b (take 32 q) (take-AreCodes 32 q codes) first)
        ∙ ap (λ l. map (half_value num s b) (take 32 q) ++ l)
            (deq_block-pack_block num s b (take 32 (drop 32 q))
              (take-AreCodes 32 (drop 32 q) (drop-AreCodes 32 q codes)) second)
        ∙ sym (map-append (half_value num s b) (take 32 q) (take 32 (drop 32 q)))
        ∙ ap (map (half_value num s b)) (take-take-drop 32 32 q) in
      let rest = exempt_from num (suc g) (drop 64 q) scales biases in
      elim (Bool-cases (is_malign num s b (take 64 q))) [
        | inl malign ↦ (
          inl (
            malign,
            listed (2 * g) (
                subst (λ l. contains (2 * g) l ≡ true)
                  (exempt_from-malign g q s b scales biases malign)
                  (contains_first (2 * g) (2 * g + 1) rest)),
            listed (2 * g + 1) (
                subst (λ l. contains (2 * g + 1) l ≡ true)
                  (exempt_from-malign g q s b scales biases malign)
                  (contains_second (2 * g) (2 * g + 1) rest)),
          ),
          pack_row-AgreesRow exempt (suc g) (drop 64 q) scales biases exact mild.2 numbers.1
              (drop-AreCodes 64 q codes) (omega (arith, length-drop 64 q, size))
              (omega (arith, even))
              (λ n h. listed n (
                subst (λ l. contains n l ≡ true) (exempt_from-malign g q s b scales biases malign)
                  (contains_later n (2 * g) (2 * g + 1) rest h))),
        )
        | inr fine ↦ (
          inr (values ∙ group-value num s b (take 64 q) exact mild.0 numbers.0 mild.1 fine),
          pack_row-AgreesRow exempt (suc g) (drop 64 q) scales biases exact mild.2 numbers.1
              (drop-AreCodes 64 q codes) (omega (arith, length-drop 64 q, size))
              (omega (arith, even))
              (λ n h.
                listed n (
                  subst (λ l. contains n l ≡ true) (exempt_from-fine g q s b scales biases fine)
                    h)),
        )
      ]

  -- For scales and biases that are numbers, and scales that stay finite, a row of codes that is as long
  -- as its groups is packed; and in each group either both blocks are exempt, for a bias or a scale of a
  -- nonzero code that the 16-bit format changes, or they have exactly the values of the checkpoint.
  pub pack_q41_row-AgreesRow :
      (q : List ℕ) (scales biases : List F)
      → IsExact num
      → AreMild num scales
      → AreNumbers num biases
      → AreCodes q
      → length q ≡ 64 * length scales
      → length biases ≡ length scales
      → (blocks : List (Block H)) × (exempt : List ℕ) × (pack_q41_row num q scales biases
          ≡ some (blocks, exempt))
        × AgreesRow exempt 0 q scales biases blocks
  unfolding pack_q41_row
  pack_q41_row-AgreesRow q scales biases exact mild numbers codes size even =
      let ok : ((length q == 64 * length scales) && (length biases == length scales)) ≡ true =
        ground (arith, size, even) in
      (
        pack_row num q scales biases,
        exempt_from num 0 q scales biases,
        rw (ok, pack_q41_row) refl,
        pack_row-AgreesRow (exempt_from num 0 q scales biases) 0 q scales biases exact mild numbers
            codes size even (λ n h. h),
      )
