-- ===== src/Tools/Experts/Names.antt =====
-- Two layers have two files.
use edge.Base.{
  ℕ, ◌≡◌, sym, ap, ◌∙◌, ◌++◌, true, arith, Bool-cases, inl, inr, if_true, if_false, drop, ltb,
}
use edge.Server.Text.{codes, same}
use edge.Server.Text.Laws.{same→eq}
use edge.Tools.Decimal.Reading.{reading, reading-decimal}
use edge.Tools.Experts.{decimal_02, layer_file}

reading-decimal_02 : (n : ℕ) → reading 0 (decimal_02 n ++ codes ".bin") ≡ n
unfolding decimal_02
reading-decimal_02 n = elim (Bool-cases (ltb n 10)) [
  | inl small ↦
      ap (λ t. reading 0 (t ++ codes ".bin")) (if_true _ _ (ltb n 10) small)
      ∙ reading-decimal n 46 (codes "bin") (omega arith)
  | inr large ↦
      ap (λ t. reading 0 (t ++ codes ".bin")) (if_false _ _ (ltb n 10) large)
      ∙ reading-decimal n 46 (codes "bin") (omega arith)
]

reading-layer_file : (n : ℕ) → reading 0 (drop 9 (layer_file n)) ≡ n
unfolding layer_file
reading-layer_file n = reading-decimal_02 n

pub layer_file_injective : (a b : ℕ) → same (layer_file a) (layer_file b) ≡ true → a ≡ b
layer_file_injective a b h =
    sym (reading-layer_file a)
    ∙ ap (λ t. reading 0 (drop 9 t)) (same→eq (layer_file a) (layer_file b) h)
    ∙ reading-layer_file b
