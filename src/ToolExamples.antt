-- ===== src/ToolExamples.antt =====
-- The theorems of the expert repacking tool applied to a checkpoint of two layers with two experts.
use edge.Base.{
  ℕ, zero, suc, ◌*◌, ◌<◌, ◌≡◌, refl, subst, List, [], ◌∷◌, ◌++◌, map, some, Bool, true, ◌&&◌, arith,
  replicate, length,
}
use edge.Server.Text.{Text, codes, same}
use edge.Server.Text.Laws.{same→eq}
use edge.Registry.{find}
use edge.Checkpoint.{Meta, Shard, open_shard, raw}
use edge.Server.Text.Member.{has}
use edge.Tools.Experts.{
  parts, tensor_name, layer_file, Shards, Source, entry, PartEntry, source_of, describe, Directory,
  Index, format_name,
}
use edge.Tools.Decimal.{digits_onto}
use edge.Tools.Experts.Blocks.{IsUniform}
use edge.Tools.Experts.Pack.{leading, pack}
use edge.Tools.Experts.Verify.{picks, verify}
use edge.Tools.Experts.Packed.{verify-pack}
use edge.Tools.Experts.Sound.{IsCopied, verify-IsCopied}
use edge.Tools.Experts.Resident.{resident_names, header_from, tensor_bytes, resident}
use edge.Tools.Experts.Resident.RoundTrip.{IsPlaced, raw-resident}

-- Every tensor is the same two bytes, one for each expert.
abbrev stacked : Meta
stacked = record { begin_offset = 0; end_offset = 2; dtype = codes "U8"; shape = 2 ∷ 1 ∷ [] }

abbrev layer_names : ℕ → List (Text × Text) → List Text
layer_names layer [] = []
layer_names layer ((projection, part) ∷ ps) =
    tensor_name layer projection part ∷ layer_names layer ps

abbrev all_names : List Text
all_names = codes "w" ∷ (layer_names 0 parts ++ layer_names 1 parts)

abbrev shards : Shards
shards = record {
  weight_map = map (λ (n : Text). (n, codes "f")) all_names;
  maps =
      (
        codes "f",
        record {
          header = map (λ (n : Text). (n, stacked)) all_names;
          base = 1;
          bytes = 0 ∷ 11 ∷ 22 ∷ [];
        },
      )
      ∷ [];
}

abbrev source : Source
source = record {
  mapping = 0 ∷ 11 ∷ 22 ∷ [];
  offset = 1;
  total = 2;
  dtype = codes "U8";
  shape = 2 ∷ 1 ∷ [];
}

find-map :
    {A : Type 0} (a : A) (n : Text) (ns : List Text)
    → has n ns ≡ true
    → find n (map (λ (m : Text). (m, a)) ns) ≡ some a
unfolding find has
find-map a n [] h = absurd (ground arith)
find-map a n (m ∷ ns) h = ground (arith, h, find-map a n ns)

entry-shards : (n : Text) → has n all_names ≡ true → entry shards n ≡ some source
unfolding entry source_of find
entry-shards n h =
    rw (find-map (codes "f") n all_names h, find-map stacked n all_names h, entry) refl

-- All tensors of a layer are there.
unfoldable are_named : ℕ → List (Text × Text) → Bool
unfolding has
are_named layer [] = true
are_named layer ((projection, part) ∷ ps) =
    has (tensor_name layer projection part) all_names && are_named layer ps

IsUniform-shards :
    (layer : ℕ) (ps : List (Text × Text))
    → are_named 0 ps ≡ true
    → are_named layer ps ≡ true
    → IsUniform shards layer ps
unfolding are_named
IsUniform-shards layer [] first here = tt
IsUniform-shards layer ((projection, part) ∷ ps) first here = (
  source,
  source,
  entry-shards (tensor_name 0 projection part) (ground (arith, first)),
  entry-shards (tensor_name layer projection part) (ground (arith, here)),
  refl,
  omega arith,
  IsUniform-shards layer ps (ground (arith, first)) (ground (arith, here)),
)

uniform : (layer : ℕ) → layer < 2 → IsUniform shards layer parts
unfolding are_named has tensor_name digits_onto
uniform zero h = IsUniform-shards 0 parts refl refl
uniform (suc zero) h = IsUniform-shards 1 parts refl refl
uniform (suc (suc layer)) h = absurd (omega (arith, h))

-- One byte for each part of a block.
abbrev part_entries : ℕ → List (Text × Text) → List PartEntry
part_entries offset [] = []
part_entries offset ((projection, part) ∷ ps) =
    record {
      projection = projection;
      part = part;
      dtype = codes "U8";
      shape = 1 ∷ [];
      offset = offset;
      bytes = 1;
    }
    ∷ part_entries (suc offset) ps

verify-pack_example :
    (dir : Directory) × (index : Index) × (pack shards 2 100 ≡ some (dir, index))
    × (verify shards dir index 64 ≡ some (length (picks 2 2 64)))
unfolding entry tensor_name find digits_onto leading describe
verify-pack_example =
    verify-pack shards 2 2 9 100 64 (part_entries 0 parts) source refl refl refl uniform
      (omega arith) (omega arith)

abbrev layer_bytes : List ℕ
layer_bytes = replicate 9 11 ++ replicate 9 22

abbrev directory : Directory
directory = (layer_file 0, layer_bytes) ∷ (layer_file 1, layer_bytes) ∷ []

abbrev index : Index
index = record {
  format = format_name;
  layers = 2;
  experts_per_layer = 2;
  block_bytes = 9;
  layer_bytes = 18;
  parts_of_block = part_entries 0 parts;
}

verify-IsCopied_example :
    (packed : List ℕ) × (find (layer_file 1) directory ≡ some packed)
    × IsCopied shards packed (1 * 9) 1 1 2 (part_entries 0 parts)
unfolding verify
verify-IsCopied_example =
    verify-IsCopied shards directory index 16 8 1 1 refl (omega arith) (omega arith) (omega arith)

abbrev header : List (Text × Meta)
header = (codes "w", stacked) ∷ []

resident_names_shards : resident_names shards.weight_map ≡ codes "w" ∷ []
unfolding resident_names tensor_name
resident_names_shards = refl

has_only : (n m : Text) → has n (m ∷ []) ≡ true → same m n ≡ true
unfolding has
has_only n m h = ground (arith, h)

w-IsPlaced : IsPlaced shards (codes "w")
unfolding entry find
w-IsPlaced = (source, refl, omega arith)

resident-IsPlaced : (n : Text) → has n (resident_names shards.weight_map) ≡ true → IsPlaced shards n
resident-IsPlaced n h =
    let here = subst (λ names. has n names ≡ true) resident_names_shards h in
    subst (IsPlaced shards) (same→eq (codes "w") n (has_only n (codes "w") here)) w-IsPlaced

raw-resident_example :
    (file : List ℕ) × (weight_map : List (Text × Text)) × (shard : Shard) × (s : Source) × (resident
        (λ h. 1 ∷ [])
        shards
      ≡ some (file, weight_map))
    × (open_shard (λ bytes. some header) file ≡ some shard)
    × (entry shards (codes "w") ≡ some s)
    × (raw shard (codes "w") ≡ some (tensor_bytes s))
unfolding has entry find resident_names header_from tensor_name
raw-resident_example =
    raw-resident (λ h. 1 ∷ []) (λ bytes. some header) shards (codes "w") header 2 resident-IsPlaced
      refl refl (omega arith) refl refl refl
