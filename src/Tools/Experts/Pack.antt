-- ===== src/Tools/Experts/Pack.antt =====
-- ios/tools/repack_experts.py: `pack`, which writes one file for each layer.
use edge.Base.{
  ℕ, zero, suc, ◌+◌, ◌*◌, ◌/◌, ◌==◌, List, [], ◌∷◌, ◌++◌, Option, none, some, if◌then◌else◌, ltb,
}
use edge.Server.Text.{Text, codes}
use edge.Tools.Experts.{
  parts, tensor_name, layer_file, Shards, Source, entry, slice_at, PartEntry, describe, Directory,
  Index, format_name,
}

-- The `sources` of a layer, in the order of the parts.
unfoldable pub sources_of : Shards → (layer : ℕ) → List (Text × Text) → Option (List Source)
unfolding entry tensor_name
sources_of shards layer [] = some []
sources_of shards layer ((projection, part) ∷ rest) =
    elim (entry shards (tensor_name layer projection part)) [
      | none ↦ none
      | some s ↦ elim (sources_of shards layer rest) [ none ↦ none | some ss ↦ some (s ∷ ss) ]
    ]

-- What the inner loop writes for an expert, and how much it counts.
unfoldable pub write_block : (experts expert : ℕ) → List Source → List ℕ × ℕ
unfolding slice_at
write_block experts expert [] = ([], 0)
write_block experts expert (s ∷ ss) =
    let (block, counted) = write_block experts expert ss in
    (slice_at experts s expert ++ block, s.total / experts + counted)

-- The outer loop: `n` experts from `expert` on.
unfoldable pub write_layer : (experts n expert : ℕ) → List Source → List ℕ × ℕ
unfolding write_block
write_layer experts zero expert ss = ([], 0)
write_layer experts (suc n) expert ss =
    let (block, counted) = write_block experts expert ss in
    let (rest, more) = write_layer experts n (suc expert) ss in (block ++ rest, counted + more)

-- The file of a layer; a count that is not the size of a layer exits.
unfoldable pub pack_layer : Shards → (experts per_layer layer : ℕ) → Option (List ℕ)
unfolding sources_of write_layer
pack_layer shards experts per_layer layer = elim (sources_of shards layer parts) [
  | none ↦ none
  | some ss ↦
      let (file, layer_written) = write_layer experts experts 0 ss in
      if layer_written == per_layer then some file else none
]

-- The loop over the layers: `n` of them from `layer` on.
unfoldable pub pack_layers : Shards → (experts per_layer n layer : ℕ) → Option Directory
unfolding pack_layer layer_file
pack_layers shards experts per_layer zero layer = some []
pack_layers shards experts per_layer (suc n) layer =
    elim (pack_layer shards experts per_layer layer) [
      | none ↦ none
      | some file ↦ elim (pack_layers shards experts per_layer n (suc layer)) [
        | none ↦ none
        | some dir ↦ some ((layer_file layer, file) ∷ dir)
      ]
    ]

-- The length of the leading axis; a tensor without axes raises.
unfoldable pub leading : List ℕ → Option ℕ
leading [] = none
leading (n ∷ ns) = some n

-- What `pack` does once the layout of a block is known.
unfoldable pub pack_described :
    Shards → (layers experts free : ℕ) → List PartEntry × ℕ → Option (Directory × Index)
unfolding pack_layers
pack_described shards layers experts free (entries, block) =
    if ltb free (layers * experts * block)
    then none
    else elim (pack_layers shards experts (experts * block) layers 0) [
      | none ↦ none
      | some dir ↦ some (
        dir,
        record {
          format = format_name;
          layers = layers;
          experts_per_layer = experts;
          block_bytes = block;
          layer_bytes = experts * block;
          parts_of_block = entries;
        },
      )
    ]

-- `pack`; `free` is the number of bytes that are free in the directory.
unfoldable pub pack : Shards → (layers free : ℕ) → Option (Directory × Index)
unfolding entry tensor_name leading describe pack_described
pack shards layers free = elim (entry shards (tensor_name 0 (codes "gate_proj") (codes "weight"))) [
  | none ↦ none
  | some s ↦ elim (leading s.shape) [
    | none ↦ none
    | some experts ↦ elim (describe shards experts) [
      | none ↦ none
      | some d ↦ pack_described shards layers experts free d
    ]
  ]
]
