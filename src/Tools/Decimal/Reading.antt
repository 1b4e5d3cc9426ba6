-- ===== src/Tools/Decimal/Reading.antt =====
-- A number is read back from its decimal form.
use edge.Base.{
  ℕ, zero, suc, ◌+◌, ◌-◌, ◌*◌, ◌/◌, ◌%◌, ◌<◌, ◌≡◌, refl, ap, ◌∙◌, [], ◌∷◌, ◌++◌, arith, Bool-cases,
  inl, inr, if_true, if_false, if◌then◌else◌, ltb,
}
use edge.Server.Text.{Text}
use edge.Tools.Decimal.{digits_onto, decimal}

digits_onto-append :
    (fuel n : ℕ) (more rest : Text)
    → digits_onto fuel n more ++ rest ≡ digits_onto fuel n (more ++ rest)
unfolding digits_onto
digits_onto-append zero n more rest = refl
digits_onto-append (suc fuel) n more rest =
    ground (arith, digits_onto-append fuel (n / 10) ((48 + n % 10) ∷ more) rest)

-- The number that the digits before another character stand for.
abbrev pub reading : ℕ → Text → ℕ
reading acc [] = acc
reading acc (d ∷ t) = let more = reading (acc * 10 + (d - 48)) t in if ltb d 48 then acc else more

reading-digits_onto :
    (fuel n : ℕ) (rest : Text) → n < fuel → reading 0 (digits_onto fuel n rest) ≡ reading n rest
unfolding digits_onto
reading-digits_onto zero n rest h = absurd (omega arith)
reading-digits_onto (suc fuel) n rest h = elim (Bool-cases (ltb n 10)) [
  | inl small ↦
      ap (reading 0) (if_true _ _ (ltb n 10) small)
      ∙ if_false _ _ (ltb (48 + n) 48) (ground arith)
      ∙ ap (λ k. reading k rest) (omega arith)
  | inr large ↦
      ap (reading 0) (if_false _ _ (ltb n 10) large)
      ∙ reading-digits_onto fuel (n / 10) ((48 + n % 10) ∷ rest) (ground (arith, large))
      ∙ if_false _ _ (ltb (48 + n % 10) 48) (ground arith)
      ∙ ap (λ k. reading k rest) (omega arith)
]

-- The digits end at a character below them.
pub reading-decimal : (n c : ℕ) (rest : Text) → c < 48 → reading 0 (decimal n ++ (c ∷ rest)) ≡ n
unfolding decimal
reading-decimal n c rest h =
    ap (reading 0) (digits_onto-append (suc n) n [] (c ∷ rest))
    ∙ reading-digits_onto (suc n) n (c ∷ rest) (omega arith)
    ∙ if_true _ _ (ltb c 48) (ground (arith, h))
