-- ===== src/Tools/Experts/Packed.antt =====
-- What `pack` writes passes `verify`.
use edge.Base.{
  ℕ, zero, suc, ◌+◌, ◌-◌, ◌*◌, ◌==◌, ◌≤◌, ◌<◌, ◌≡◌, refl, ap, subst, ◌∙◌, List, [], ◌∷◌, ◌++◌, some,
  true, false, arith, Bool-cases, inl, inr, length, ltb,
}
use native.Mathlib.Nat.{div-lt_iff_lt-mul, mod-lt}
use edge.Server.Text.{codes, same}
use edge.Server.Text.Laws.{same_self}
use edge.Registry.{find}
use edge.Tools.Experts.{
  parts, tensor_name, layer_file, Shards, Source, entry, PartEntry, describe_from, describe,
  Directory, Index, format_name,
}
use edge.Tools.Experts.Pack.{
  write_block, write_layer, pack_layer, pack_layers, leading, pack_described, pack,
}
use edge.Tools.Experts.Verify.{
  is_whole, all_whole, range_step, pairs_of, picks, parts_match, block_matches, all_match, verify,
}
use edge.Tools.Experts.Blocks.{IsUniform, parts_match-write_block}
use edge.Tools.Experts.Names.{layer_file_injective}
use edge.Tools.Experts.Written.{
  sources_of-some, write_block-counted, length-write_block, write_layer-counted, length-write_layer,
  write_layer-block,
}

distinct-lt :
    (layer k : ℕ) → layer ≤ k → same (layer_file layer) (layer_file k) ≡ false → suc layer ≤ k
distinct-lt layer k low other = elim (Bool-cases (ltb layer k)) [
  | inl lt ↦ ground (arith, lt)
  | inr ge ↦
      let eq : layer ≡ k = ground (arith, ge, low) in
      let self =
        subst (λ x. same (layer_file layer) (layer_file x) ≡ true) eq
          (same_self (layer_file layer)) in
      absurd (ground (arith, self, other))
]

module _ (shards : Shards) (experts size : ℕ) (es : List PartEntry) (pos : 0 < experts)
    (described : describe_from shards experts 0 parts ≡ some (es, size)) where
  -- The file of a layer has its size, and each block in its place.
  abbrev IsLayer : ℕ → List ℕ → Type 0
  IsLayer layer file =
      (length file ≡ experts * size)
      × ((expert : ℕ)
          → expert < experts
          → parts_match shards file (expert * size) layer expert experts es ≡ true)

  pack_layer-IsLayer :
      (layer : ℕ)
      → IsUniform shards layer parts
      → (file : List ℕ) × (pack_layer shards experts (experts * size) layer ≡ some file)
        × IsLayer layer file
  unfolding pack_layer
  pack_layer-IsLayer layer u =
      let (ss, o) = sources_of-some shards experts layer parts u in
      let counted = λ (expert : ℕ).
        write_block-counted shards experts layer expert parts 0 size es ss u described o in
      let count : (expert : ℕ) → (write_block experts expert ss).1 ≡ size =
        λ expert. omega (arith, counted expert) in
      let measured : (expert : ℕ)
          → expert < experts
          → length (write_block experts expert ss).0 ≡ size =
        λ expert lt.
          length-write_block shards experts layer expert parts ss lt u o ∙ count expert in
      let whole : ((write_layer experts experts 0 ss).1 == experts * size) ≡ true =
        ground (arith, write_layer-counted experts size ss count measured experts 0) in
      (
        (write_layer experts experts 0 ss).0,
        rw (o, whole, pack_layer) refl,
        (
          length-write_layer experts size ss count measured experts 0 (omega arith),
          λ expert lt.
              let (pre, rest, at, eq) =
                write_layer-block experts size ss count measured experts 0 expert lt
                  (omega arith) in
              parts_match-write_block shards layer experts expert (expert * size) lt parts 0 size es
                ss pre rest (write_layer experts experts 0 ss).0 u described o (omega (arith, at))
                (eq ∙ ap (λ k. pre ++ ((write_block experts k ss).0 ++ rest)) (omega arith)),
        ),
      )

  pack_layers-IsLayer :
      (n layer : ℕ)
      → ((k : ℕ) → layer ≤ k → k < layer + n → IsUniform shards k parts)
      → (dir : Directory) × (pack_layers shards experts (experts * size) n layer ≡ some dir)
        × ((k : ℕ)
            → layer ≤ k
            → k < layer + n
            → (file : List ℕ) × (find (layer_file k) dir ≡ some file) × IsLayer k file)
  unfolding pack_layers find
  pack_layers-IsLayer zero layer u = ([], refl, λ k low high. absurd (omega (arith, low, high)))
  pack_layers-IsLayer (suc n) layer u =
      let (file, e, laid) = pack_layer-IsLayer layer (u layer (omega arith) (omega arith)) in
      let (dir, e', rest) =
        pack_layers-IsLayer n (suc layer)
          (λ k low high. u k (omega (arith, low)) (omega (arith, high))) in
      (
        (layer_file layer, file) ∷ dir,
        rw (e, e', pack_layers) refl,
        λ k low high. elim (Bool-cases (same (layer_file layer) (layer_file k))) [
          | inl here ↦
              let eq = layer_file_injective layer k here in
              (file, rw (here) refl, subst (λ x. IsLayer x file) eq laid)
          | inr there ↦
              let distinct : suc layer ≤ k = distinct-lt layer k low there in
              let (file', f', laid') = rest k distinct (omega (arith, high)) in
              (file', rw (there) f', laid')
        ],
      )

  -- Picks of layers and experts that there are.
  abbrev AreBlocks : ℕ → List (ℕ × ℕ) → Type 0
  AreBlocks layers [] = Unit
  AreBlocks layers ((layer, expert) ∷ ps) =
      (layer < layers) × (expert < experts) × AreBlocks layers ps

  pairs_of-AreBlocks :
      (fuel flat layers step : ℕ)
      → AreBlocks layers (pairs_of experts (range_step fuel flat (layers * experts) step))
  unfolding range_step pairs_of
  pairs_of-AreBlocks zero flat layers step = tt
  pairs_of-AreBlocks (suc fuel) flat layers step = elim (Bool-cases (ltb flat (layers * experts))) [
    | inl lt ↦ rw (lt) (
      (div-lt_iff_lt-mul pos).1 (ground (arith, lt)),
      mod-lt flat pos,
      pairs_of-AreBlocks fuel (flat + step) layers step,
    )
    | inr ge ↦ rw (ge) tt
  ]

  picks-AreBlocks :
      (layers samples : ℕ) → 0 < layers → AreBlocks layers (picks layers experts samples)
  unfolding picks
  picks-AreBlocks layers samples some_layer =
      let last_layer : layers - 1 < layers = omega (arith, some_layer) in
      let last_expert : experts - 1 < experts = omega (arith, pos) in
      (
        some_layer,
        pos,
        (
          some_layer,
          last_expert,
          (
            last_layer,
            pos,
            (last_layer, last_expert, pairs_of-AreBlocks (layers * experts) 0 layers _),
          ),
        ),
      )

  -- A directory that holds every layer.
  module _ (layers : ℕ) (dir : Directory)
      (kept : (k : ℕ)
        → 0 ≤ k
        → k < 0 + layers
        → (file : List ℕ) × (find (layer_file k) dir ≡ some file) × IsLayer k file) where
    abbrev index : Index
    index = record {
      format = format_name;
      layers = layers;
      experts_per_layer = experts;
      block_bytes = size;
      layer_bytes = experts * size;
      parts_of_block = es;
    }

    all_whole-kept :
        (n layer : ℕ) → layer + n ≤ layers → all_whole dir (experts * size) n layer ≡ true
    unfolding all_whole is_whole
    all_whole-kept zero layer h = refl
    all_whole-kept (suc n) layer h =
        let (file, found, laid) = kept layer (omega arith) (omega (arith, h)) in
        let whole : (length file == experts * size) ≡ true = ground (arith, laid.0) in
        rw (found, is_whole, whole) (all_whole-kept n (suc layer) (omega (arith, h)))

    block_matches-kept :
        (layer expert : ℕ)
        → layer < layers
        → expert < experts
        → block_matches shards dir index (layer, expert) ≡ true
    unfolding block_matches
    block_matches-kept layer expert in_layers in_experts =
        let (file, found, laid) = kept layer (omega arith) (omega (arith, in_layers)) in
        rw (found, block_matches) (laid.1 expert in_experts)

    all_match-kept :
        (ps : List (ℕ × ℕ)) → AreBlocks layers ps → all_match shards dir index ps ≡ true
    unfolding all_match
    all_match-kept [] h = refl
    all_match-kept ((layer, expert) ∷ ps) (in_layers, in_experts, h) =
        rw (block_matches-kept layer expert in_layers in_experts) (all_match-kept ps h)

    verify-kept :
        (samples : ℕ)
        → 0 < layers
        → verify shards dir index samples ≡ some (length (picks layers experts samples))
    unfolding verify same
    verify-kept samples some_layer =
        let whole = all_whole-kept layers 0 (omega arith) in
        let matched =
          all_match-kept (picks layers experts samples)
            (picks-AreBlocks layers samples some_layer) in
        rw (whole, matched, verify) refl

-- If the tensors of every layer are there, as long as those of the first, and there is space for the
-- files, `pack` succeeds and `verify` accepts what it wrote, whatever the number of samples.
pub verify-pack :
    (shards : Shards) (layers experts size free samples : ℕ) (es : List PartEntry) (s : Source)
    → entry shards (tensor_name 0 (codes "gate_proj") (codes "weight")) ≡ some s
    → leading s.shape ≡ some experts
    → describe shards experts ≡ some (es, size)
    → ((layer : ℕ) → layer < layers → IsUniform shards layer parts)
    → layers * experts * size ≤ free
    → 0 < layers
    → (dir : Directory) × (index : Index) × (pack shards layers free ≡ some (dir, index))
      × (verify shards dir index samples ≡ some (length (picks layers experts samples)))
unfolding pack pack_described describe
verify-pack shards layers experts size free samples es s found axis described uniform space
      some_layer =
    elim (Bool-cases (experts == 0)) [
      | inl nothing ↦ absurd (ground (arith, nothing, described))
      | inr something ↦
          let pos : 0 < experts = ground (arith, something) in
          let loop : describe_from shards experts 0 parts ≡ some (es, size) =
            ground (arith, something, described) in
          let (dir, packed, kept) =
            pack_layers-IsLayer shards experts size es pos loop layers 0
              (λ k low high. uniform k (omega (arith, high))) in
          let enough : ltb free (layers * experts * size) ≡ false = ground (arith, space) in
          (
            dir,
            index shards experts size es pos loop layers dir kept,
            rw (found, axis, described, enough, packed, pack, pack_described) refl,
            verify-kept shards experts size es pos loop layers dir kept samples some_layer,
          )
    ]
