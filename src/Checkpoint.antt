-- ===== src/Checkpoint.antt =====
-- python/src/edge0/streaming/mmap.py: SafetensorsMmap. A shard is the bytes of its file; decoding the
-- JSON of the header is a parameter. What cannot be read raises, which is `none`. Offsets of a header
-- are ordered, as the format demands. A hint to the kernel is what `madvise` is called with.
pub mod Laws
pub mod RoundTrip
use edge.Base.{
  ℕ, zero, suc, ◌+◌, ◌-◌, ◌*◌, ◌/◌, ◌%◌, ◌==◌, List, [], ◌∷◌, ◌++◌, Option, none, some, Bool, true,
  false, length, take, drop, if◌then◌else◌, ltb, leb, min,
}
use edge.Server.Text.{Text, codes, same}
use edge.Engine.Loop.{chunks}

-- The value of a name in the header, as far as it is read; `__metadata__` has none.
pub record Meta : Type 0 where
  pub begin_offset : ℕ
  pub end_offset : ℕ
  pub dtype : Text
  pub shape : List ℕ

pub record Entry : Type 0 where
  pub offset : ℕ
  pub size : ℕ
  pub dtype : Text
  pub shape : List ℕ

pub record Shard : Type 0 where
  pub file : List ℕ
  pub payload_base : ℕ
  pub entries : List (Text × Entry)

-- `struct.unpack("<Q", ...)`
unfoldable pub little_endian : List ℕ → ℕ
little_endian [] = 0
little_endian (b ∷ bs) = b + 256 * little_endian bs

unfoldable pub entry_of : (payload_base : ℕ) → Meta → Entry
entry_of payload_base meta = record {
  offset = payload_base + meta.begin_offset;
  size = meta.end_offset - meta.begin_offset;
  dtype = meta.dtype;
  shape = meta.shape;
}

unfoldable pub entries_of : (payload_base : ℕ) → List (Text × Meta) → List (Text × Entry)
unfolding same entry_of
entries_of payload_base [] = []
entries_of payload_base ((name, meta) ∷ header) =
    let rest = entries_of payload_base header in
    if same name (codes "__metadata__") then rest else (name, entry_of payload_base meta) ∷ rest

-- `__init__`
unfoldable pub open_shard : (List ℕ → Option (List (Text × Meta))) → List ℕ → Option Shard
unfolding little_endian entries_of
open_shard parse_header file =
    let header_len = little_endian (take 8 file) in
    if ltb (length file) 8 then none else elim (parse_header (take header_len (drop 8 file))) [
      | none ↦ none
      | some header ↦ some (record {
        file = file;
        payload_base = 8 + header_len;
        entries = entries_of (8 + header_len) header;
      })
    ]

unfoldable pub find_entry : Text → List (Text × Entry) → Option Entry
unfolding same
find_entry name [] = none
find_entry name ((k, e) ∷ entries) =
    let rest = find_entry name entries in if same k name then some e else rest

-- `np.frombuffer` for an entry, which raises if the file is too short.
unfoldable pub raw_entry : List ℕ → Entry → Option (List ℕ)
raw_entry file e =
    if leb (e.offset + e.size) (length file) then some (take e.size (drop e.offset file)) else none

-- `raw`
unfoldable pub raw : Shard → Text → Option (List ℕ)
unfolding find_entry raw_entry
raw shard name = elim (find_entry name shard.entries) [
  | none ↦ none
  | some e ↦ raw_entry shard.file e
]

-- `advise_willneed_range`: the start and the length that `madvise` is given, if it is called.
unfoldable pub advise_willneed_range : (page total offset len : ℕ) → Option (ℕ × ℕ)
advise_willneed_range page total offset len =
    let start = offset / page * page in
    let end = min ((offset + len + page - 1) / page * page) total in
    if len == 0 then none else if ltb start end then some (start, end - start) else none

-- `seq_read`: the slices that are read, one after the other.
unfoldable pub seq_read : (chunk : ℕ) → Shard → List (List ℕ)
unfolding chunks
seq_read chunk shard = chunks (length shard.file) chunk shard.file
