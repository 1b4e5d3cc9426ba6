-- ===== src/Tools/Experts/Sound.antt =====
-- What it means that `verify` accepts a directory.
use edge.Base.{
  ℕ, zero, suc, ◌+◌, ◌-◌, ◌*◌, ◌/◌, ◌%◌, ◌==◌, ◌≤◌, ◌<◌, ◌≡◌, sym, ap, subst, ◌∙◌, List, [], ◌∷◌,
  some, true, arith, Bool-cases, Option-cases, inl, inr, if_true, take, drop, ltb, max,
}
use native.Mathlib.Nat.{
  div-lt_iff_lt-mul, mul-add-div_right, div-eq_of_lt, mod-eq_of_lt, mul-add-mod_self_right,
}
use edge.Server.Text.{same}
use edge.Server.Text.Laws.{same→eq}
use edge.Registry.{find}
use edge.Tools.Experts.{tensor_name, layer_file, Shards, slice_of, PartEntry, Directory, Index}
use edge.Tools.Experts.Verify.{
  range_step, pairs_of, picks, parts_match, block_matches, all_match, verify,
}

module _ (shards : Shards) where
  -- Each part of the block that starts at `base` has the bytes of the expert's tensor.
  abbrev pub IsCopied :
      (packed : List ℕ) → (base layer expert experts : ℕ) → List PartEntry → Type 0
  IsCopied packed base layer expert experts [] = Unit
  IsCopied packed base layer expert experts (e ∷ es) =
      (slice_of shards (tensor_name layer e.projection e.part) expert experts
        ≡ some (take e.bytes (drop (base + e.offset) packed)))
      × IsCopied packed base layer expert experts es

  parts_match-IsCopied :
      (packed : List ℕ) (base layer expert experts : ℕ) (es : List PartEntry)
      → parts_match shards packed base layer expert experts es ≡ true
      → IsCopied packed base layer expert experts es
  unfolding parts_match
  parts_match-IsCopied packed base layer expert experts [] h = tt
  parts_match-IsCopied packed base layer expert experts (e ∷ es) h =
      elim (Option-cases (slice_of shards (tensor_name layer e.projection e.part) expert experts)) [
        | inl bad ↦ absurd (ground (arith, bad, h))
        | inr (original, found) ↦
            let written = take e.bytes (drop (base + e.offset) packed) in
            let here : same written original ≡ true = ground (arith, found, h) in
            let later : parts_match shards packed base layer expert experts es ≡ true =
              ground (arith, found, h) in
            (
              found ∙ ap some (sym (same→eq written original here)),
              parts_match-IsCopied packed base layer expert experts es later,
            )
      ]

  module _ (dir : Directory) (index : Index) where
    -- With a step of one every block is picked.
    all_match-block_matches :
        (fuel flat n x : ℕ)
        → flat ≤ x
        → x < n
        → n ≤ flat + fuel
        → all_match shards dir index (pairs_of index.experts_per_layer (range_step fuel flat n 1))
          ≡ true
        → block_matches shards dir index (x / index.experts_per_layer, x % index.experts_per_layer)
          ≡ true
    unfolding all_match pairs_of range_step
    all_match-block_matches zero flat n x low high enough h =
        absurd (omega (arith, low, high, enough))
    all_match-block_matches (suc fuel) flat n x low high enough h =
        let inside : ltb flat n ≡ true = ground (arith, low, high) in
        let more : all_match shards dir index
              (pairs_of index.experts_per_layer (flat ∷ range_step fuel (flat + 1) n 1))
            ≡ true =
          sym (
            ap (λ fl. all_match shards dir index (pairs_of index.experts_per_layer fl))
              (if_true (flat ∷ range_step fuel (flat + 1) n 1) [] (ltb flat n) inside))
          ∙ h in
        elim (Bool-cases (flat == x)) [
          | inl here ↦
              let eq : flat ≡ x = ground (arith, here) in
              subst
                (λ y.
                  block_matches shards dir index
                    (y / index.experts_per_layer, y % index.experts_per_layer)
                  ≡ true)
                eq (ground (arith, more))
          | inr there ↦
              all_match-block_matches fuel (flat + 1) n x (ground (arith, there, low)) high
                (omega (arith, enough)) (ground (arith, more))
        ]

    verify-all_match :
        (samples checked : ℕ)
        → verify shards dir index samples ≡ some checked
        → all_match shards dir index (picks index.layers index.experts_per_layer samples) ≡ true
    unfolding verify
    verify-all_match samples checked h = ground (arith, h)

    block_matches-IsCopied :
        (layer expert : ℕ)
        → block_matches shards dir index (layer, expert) ≡ true
        → (packed : List ℕ) × (find (layer_file layer) dir ≡ some packed)
          × IsCopied packed
              (expert * index.block_bytes)
              layer
              expert
              index.experts_per_layer
              index.parts_of_block
    unfolding block_matches
    block_matches-IsCopied layer expert h = elim (Option-cases (find (layer_file layer) dir)) [
      | inl missing ↦ absurd (ground (arith, missing, h))
      | inr (packed, found) ↦ (
        packed,
        found,
        parts_match-IsCopied packed (expert * index.block_bytes) layer expert
            index.experts_per_layer index.parts_of_block (ground (arith, found, h)),
      )
    ]

    -- If `verify` accepts with more samples than half the blocks and four more, the file of every layer is
    -- there, and each part of each block has the bytes of the expert's slice of its tensor.
    pub verify-IsCopied :
        (samples checked layer expert : ℕ)
        → verify shards dir index samples ≡ some checked
        → index.layers * index.experts_per_layer < 2 * (samples - 4)
        → layer < index.layers
        → expert < index.experts_per_layer
        → (packed : List ℕ) × (find (layer_file layer) dir ≡ some packed)
          × IsCopied packed
              (expert * index.block_bytes)
              layer
              expert
              index.experts_per_layer
              index.parts_of_block
    unfolding picks all_match
    verify-IsCopied samples checked layer expert accepted dense in_layers in_experts =
        let experts = index.experts_per_layer in
        let n = index.layers * experts in
        let x = layer * experts + expert in
        let m = max 1 (samples - 4) in
        let m_pos : 0 < m = omega arith in
        let few : n / m < 2 = (div-lt_iff_lt-mul m_pos).1 (omega (arith, dense)) in
        let step : max 1 (n / m) ≡ 1 = omega (arith, few) in
        let pos : 0 < experts = omega (arith, in_experts) in
        let spread : all_match shards dir index
              (pairs_of experts (range_step n 0 n (max 1 (n / m))))
            ≡ true =
          ground (arith, verify-all_match samples checked accepted) in
        let dense_spread =
          subst (λ k. all_match shards dir index (pairs_of experts (range_step n 0 n k)) ≡ true)
            step spread in
        let inside : x < n = grind (arith, in_layers, in_experts) in
        let matched =
          all_match-block_matches n 0 n x (omega arith) inside (omega arith) dense_spread in
        let quotient : x / experts ≡ layer =
          omega (arith, mul-add-div_right pos layer expert, div-eq_of_lt in_experts) in
        let remainder : x % experts ≡ expert =
          mul-add-mod_self_right layer experts expert ∙ mod-eq_of_lt in_experts in
        block_matches-IsCopied layer expert (
          subst (λ e. block_matches shards dir index (layer, e) ≡ true) remainder
            (subst (λ l. block_matches shards dir index (l, x % experts) ≡ true) quotient matched))
