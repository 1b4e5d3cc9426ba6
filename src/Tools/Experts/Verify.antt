-- ===== src/Tools/Experts/Verify.antt =====
-- ios/tools/repack_experts.py: `verify`, which compares blocks of the written files with the tensors.
-- The order of the picks decides only which mismatch is reported, so they are not sorted; the index has
-- at least one layer and one expert, as `pack` writes it, and the blocks are not empty: the files are
-- mapped, which raises for an empty one.
use edge.Base.{
  ℕ, zero, suc, ◌+◌, ◌-◌, ◌*◌, ◌/◌, ◌%◌, ◌==◌, List, [], ◌∷◌, Option, none, some, Bool, true, false,
  not, ◌&&◌, length, take, drop, if◌then◌else◌, ltb, max,
}
use edge.Server.Text.{same}
use edge.Registry.{find}
use edge.Tools.Experts.{
  tensor_name, layer_file, Shards, slice_of, PartEntry, Directory, Index, format_name,
}

-- Whether a file is there and has the size of a layer.
unfoldable pub is_whole : (layer_bytes : ℕ) → Option (List ℕ) → Bool
is_whole layer_bytes none = false
is_whole layer_bytes (some file) = length file == layer_bytes

-- Whether none of the `n` layers from `layer` on is `broken`.
unfoldable pub all_whole : Directory → (layer_bytes n layer : ℕ) → Bool
unfolding is_whole find layer_file
all_whole dir layer_bytes zero layer = true
all_whole dir layer_bytes (suc n) layer =
    is_whole layer_bytes (find (layer_file layer) dir) && all_whole dir layer_bytes n (suc layer)

-- `range(flat, n, step)`, of which there are at most `fuel` numbers.
unfoldable pub range_step : (fuel flat n step : ℕ) → List ℕ
range_step zero flat n step = []
range_step (suc fuel) flat n step =
    let rest = range_step fuel (flat + step) n step in if ltb flat n then flat ∷ rest else []

unfoldable pub pairs_of : (experts : ℕ) → List ℕ → List (ℕ × ℕ)
pairs_of experts [] = []
pairs_of experts (flat ∷ flats) = (flat / experts, flat % experts) ∷ pairs_of experts flats

-- `picks`: the corners, then a spread.
unfoldable pub picks : (layers experts samples : ℕ) → List (ℕ × ℕ)
unfolding range_step pairs_of
picks layers experts samples =
    let n = layers * experts in
    let step = max 1 (n / max 1 (samples - 4)) in
    (0, 0)
    ∷ (0, experts - 1)
    ∷ (layers - 1, 0)
    ∷ (layers - 1, experts - 1)
    ∷ pairs_of experts (range_step n 0 n step)

-- The loop over the parts of a block that starts at `base`: whether each has the bytes of its tensor.
unfoldable pub parts_match :
    Shards → (packed : List ℕ) → (base layer expert experts : ℕ) → List PartEntry → Bool
unfolding tensor_name slice_of same
parts_match shards packed base layer expert experts [] = true
parts_match shards packed base layer expert experts (e ∷ es) =
    elim (slice_of shards (tensor_name layer e.projection e.part) expert experts) [
      | none ↦ false
      | some original ↦
          same (take e.bytes (drop (base + e.offset) packed)) original
          && parts_match shards packed base layer expert experts es
    ]

unfoldable pub block_matches : Shards → Directory → Index → ℕ × ℕ → Bool
unfolding parts_match find layer_file
block_matches shards dir index (layer, expert) = elim (find (layer_file layer) dir) [
  | none ↦ false
  | some packed ↦
      parts_match shards packed (expert * index.block_bytes) layer expert index.experts_per_layer
        index.parts_of_block
]

unfoldable pub all_match : Shards → Directory → Index → List (ℕ × ℕ) → Bool
unfolding block_matches
all_match shards dir index [] = true
all_match shards dir index (p ∷ ps) =
    block_matches shards dir index p && all_match shards dir index ps

-- `verify`: the number of blocks that were checked, if it does not exit.
unfoldable pub verify : Shards → Directory → Index → (samples : ℕ) → Option ℕ
unfolding same all_whole picks all_match
verify shards dir index samples =
    let chosen = picks index.layers index.experts_per_layer samples in
    if not (same index.format format_name)
    then none
    else if not (all_whole dir index.layer_bytes index.layers 0)
    then none
    else if all_match shards dir index chosen
    then some (length chosen)
    else none
