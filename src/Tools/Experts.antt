-- ===== src/Tools/Experts.antt =====
-- ios/tools/repack_experts.py: the routed experts of a checkpoint, written so that one expert is one
-- contiguous read. The mapped files and their decoded headers are given; a directory is the list of its
-- files. What raises or exits is `none`. Sizes are as a header gives them: the end of a tensor is not
-- before its start. What is printed and the times are left out, and so is the reading of the number of
-- layers off the names: it is an argument.
pub mod Blocks
pub mod Names
pub mod Written
pub mod Pack
pub mod Packed
pub mod Resident
pub mod Sound
pub mod Verify
use edge.Base.{
  ℕ, zero, suc, ◌+◌, ◌-◌, ◌*◌, ◌/◌, ◌%◌, ◌==◌, List, [], ◌∷◌, ◌++◌, Option, none, some, Bool, true,
  false, not, ◌&&◌, length, take, drop, if◌then◌else◌, ltb, max,
}
use edge.Server.Text.{Text, codes, same}
use edge.Registry.{find}
use edge.Checkpoint.{Meta}
use edge.Tools.Decimal.{decimal}

-- `PARTS`
abbrev pub parts : List (Text × Text)
parts =
    (codes "gate_proj", codes "weight")
    ∷ (codes "gate_proj", codes "scales")
    ∷ (codes "gate_proj", codes "biases")
    ∷ (codes "up_proj", codes "weight")
    ∷ (codes "up_proj", codes "scales")
    ∷ (codes "up_proj", codes "biases")
    ∷ (codes "down_proj", codes "weight")
    ∷ (codes "down_proj", codes "scales")
    ∷ (codes "down_proj", codes "biases")
    ∷ []

-- `f"{n:02d}"`
unfoldable pub decimal_02 : ℕ → Text
unfolding decimal
decimal_02 n = if ltb n 10 then 48 ∷ decimal n else decimal n

unfoldable pub tensor_name : ℕ → Text → Text → Text
unfolding decimal
tensor_name layer projection part =
    codes "language_model.model.layers."
    ++ (decimal layer ++ (codes ".mlp.switch_mlp." ++ (projection ++ (codes "." ++ part))))

unfoldable pub layer_file : ℕ → Text
unfolding decimal_02
layer_file layer = codes "experts-L" ++ (decimal_02 layer ++ codes ".bin")

-- One of the shards: its header, where its payload starts, and its bytes.
pub record Mapped : Type 0 where
  pub header : List (Text × Meta)
  pub base : ℕ
  pub bytes : List ℕ

pub record Shards : Type 0 where
  pub weight_map : List (Text × Text)
  pub maps : List (Text × Mapped)

-- What `entry` gives, with the mapping in the place of its filename.
pub record Source : Type 0 where
  pub mapping : List ℕ
  pub offset : ℕ
  pub total : ℕ
  pub dtype : Text
  pub shape : List ℕ

unfoldable pub source_of : Mapped → Meta → Source
source_of m field = record {
  mapping = m.bytes;
  offset = m.base + field.begin_offset;
  total = field.end_offset - field.begin_offset;
  dtype = field.dtype;
  shape = field.shape;
}

-- `Shards.entry`
unfoldable pub entry : Shards → Text → Option Source
unfolding find source_of
entry shards name = elim (find name shards.weight_map) [
  | none ↦ none
  | some filename ↦ elim (find filename shards.maps) [
    | none ↦ none
    | some m ↦ elim (find name m.header) [ none ↦ none | some field ↦ some (source_of m field) ]
  ]
]

-- The bytes of one expert in a stacked tensor, of which there is at least one.
unfoldable pub slice_at : (experts : ℕ) → Source → (expert : ℕ) → List ℕ
slice_at experts s expert =
    let per = s.total / experts in take per (drop (s.offset + expert * per) s.mapping)

-- `Shards.slice_of`
unfoldable pub slice_of : Shards → Text → (expert experts : ℕ) → Option (List ℕ)
unfolding entry slice_at
slice_of shards name expert experts = elim (entry shards name) [
  | none ↦ none
  | some s ↦ if experts == 0 then none else some (slice_at experts s expert)
]

-- One element of `parts` in experts.json.
pub record PartEntry : Type 0 where
  pub projection : Text
  pub part : Text
  pub dtype : Text
  pub shape : List ℕ
  pub offset : ℕ
  pub bytes : ℕ

-- The first of `shape` dropped.
unfoldable pub tail_of : List ℕ → List ℕ
tail_of [] = []
tail_of (n ∷ ns) = ns

-- The loop of `describe` from a cursor: the entries, and where the cursor ends.
unfoldable pub describe_from :
    Shards → (experts cursor : ℕ) → List (Text × Text) → Option (List PartEntry × ℕ)
unfolding entry tail_of tensor_name
describe_from shards experts cursor [] = some ([], cursor)
describe_from shards experts cursor ((projection, part) ∷ rest) =
    elim (entry shards (tensor_name 0 projection part)) [
      | none ↦ none
      | some s ↦ elim (describe_from shards experts (cursor + s.total / experts) rest) [
        | none ↦ none
        | some (es, end) ↦ some (
          record {
            projection = projection;
            part = part;
            dtype = s.dtype;
            shape = tail_of s.shape;
            offset = cursor;
            bytes = s.total / experts;
          }
              ∷ es,
          end,
        )
      ]
    ]

-- `describe`; no expert at all raises.
unfoldable pub describe : Shards → (experts : ℕ) → Option (List PartEntry × ℕ)
unfolding describe_from
describe shards experts = if experts == 0 then none else describe_from shards experts 0 parts

abbrev pub Directory : Type 0
Directory = List (Text × List ℕ)

-- experts.json
pub record Index : Type 0 where
  pub format : Text
  pub layers : ℕ
  pub experts_per_layer : ℕ
  pub block_bytes : ℕ
  pub layer_bytes : ℕ
  pub parts_of_block : List PartEntry

abbrev pub format_name : Text
format_name = codes "edge0-expert-repack-v1"
