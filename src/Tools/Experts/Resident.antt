-- ===== src/Tools/Experts/Resident.antt =====
-- ios/tools/repack_experts.py: `resident`, which writes everything but the routed experts to one
-- safetensors file. `json.dumps` of a header is a parameter. What raises or exits is `none`.
pub mod RoundTrip
use edge.Base.{
  ℕ, zero, suc, ◌+◌, ◌-◌, ◌==◌, List, [], ◌∷◌, ◌++◌, map, Option, none, some, Bool, true, false,
  not, ◌&&◌, length, take, drop, if◌then◌else◌, ltb,
}
use edge.Server.Text.{Text, codes, same, cut}
use edge.Registry.{find}
use edge.Adapters.{comes_first}
use edge.Checkpoint.{Meta}
use edge.Checkpoint.RoundTrip.{le_bytes, bytes_max}
use edge.Tools.Experts.{Shards, Source, entry}

-- `".switch_mlp." in n`
unfoldable pub is_routed : Text → Bool
unfolding cut
is_routed n = elim (cut (codes ".switch_mlp.") n) [ none ↦ false | some found ↦ true ]

unfoldable pub insert_name : Text → List Text → List Text
unfolding comes_first
insert_name n [] = n ∷ []
insert_name n (m ∷ ms) =
    let rest = insert_name n ms in if comes_first n m then n ∷ m ∷ ms else m ∷ rest

-- `sorted(n for n in shards.weight_map if ...)`
unfoldable pub resident_names : List (Text × Text) → List Text
unfolding is_routed insert_name
resident_names [] = []
resident_names ((n, filename) ∷ weight_map) =
    let rest = resident_names weight_map in if is_routed n then rest else insert_name n rest

-- The first loop: the header, and where the cursor ends.
unfoldable pub header_from : Shards → (cursor : ℕ) → List Text → Option (List (Text × Meta) × ℕ)
unfolding entry
header_from shards cursor [] = some ([], cursor)
header_from shards cursor (n ∷ names) = elim (entry shards n) [
  | none ↦ none
  | some s ↦ elim (header_from shards (cursor + s.total) names) [
    | none ↦ none
    | some (header, end) ↦ some (
      (
        n,
        record {
          begin_offset = cursor;
          end_offset = cursor + s.total;
          dtype = s.dtype;
          shape = s.shape;
        },
      )
          ∷ header,
      end,
    )
  ]
]

-- The bytes of a whole tensor.
unfoldable pub tensor_bytes : Source → List ℕ
tensor_bytes s = take s.total (drop s.offset s.mapping)

-- The second loop: what is written, and how much is counted.
unfoldable pub write_tensors : Shards → List Text → Option (List ℕ × ℕ)
unfolding entry tensor_bytes
write_tensors shards [] = some ([], 0)
write_tensors shards (n ∷ names) = elim (entry shards n) [
  | none ↦ none
  | some s ↦ elim (write_tensors shards names) [
    | none ↦ none
    | some (bytes, written) ↦ some (tensor_bytes s ++ bytes, s.total + written)
  ]
]

-- The last loop: whether each tensor is read back from the file.
unfoldable pub reads_back :
    Shards → (packed : List ℕ) → (base : ℕ) → List (Text × Meta) → List Text → Bool
unfolding entry find tensor_bytes same
reads_back shards packed base header [] = true
reads_back shards packed base header (n ∷ names) = elim (entry shards n) [
  | none ↦ false
  | some s ↦ elim (find n header) [
    | none ↦ false
    | some field ↦
        same (take s.total (drop (base + field.begin_offset) packed)) (tensor_bytes s)
        && reads_back shards packed base header names
  ]
]

-- The file that is written; a header too long for its length field raises.
unfoldable pub resident_file :
    (List (Text × Meta) → List ℕ) → List (Text × Meta) → (payload : List ℕ) → Option (List ℕ)
resident_file dumps header payload =
    let blob = dumps header in
    if ltb (length blob) (bytes_max 8)
    then some (le_bytes 8 (length blob) ++ (blob ++ payload))
    else none

-- What `resident` does with the names: the file, if both counts agree and every tensor is read back.
unfoldable pub write_resident : (List (Text × Meta) → List ℕ) → Shards → List Text → Option (List ℕ)
unfolding header_from write_tensors resident_file reads_back
write_resident dumps shards names = elim (header_from shards 0 names) [
  | none ↦ none
  | some (header, cursor) ↦ elim (write_tensors shards names) [
    | none ↦ none
    | some (payload, written) ↦ elim (resident_file dumps header payload) [
      | none ↦ none
      | some file ↦
          if not (written == cursor)
          then none
          else if reads_back shards file (8 + length (dumps header)) header names
          then some file
          else none
    ]
  ]
]

-- `resident`: resident.safetensors, and the weight map of the new index.
unfoldable pub resident :
    (List (Text × Meta) → List ℕ) → Shards → Option (List ℕ × List (Text × Text))
unfolding resident_names write_resident
resident dumps shards =
    let names = resident_names shards.weight_map in
    elim (write_resident dumps shards names) [
      | none ↦ none
      | some file ↦ some (file, map (λ (n : Text). (n, codes "resident.safetensors")) names)
    ]
