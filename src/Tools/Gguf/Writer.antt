-- ===== src/Tools/Gguf/Writer.antt =====
-- windows/tools/repack_mlx_to_gguf.py: GgufWriter, which registers every tensor before it writes any, and
-- the two passes of `run`. Names and keys are given encoded. Where a number does not fit its field
-- `struct.pack` raises; the model cuts it off, and the theorems take it to fit. A failed assertion is `none`.
use edge.Base.{
  ℕ, ◌+◌, ◌-◌, ◌*◌, ◌/◌, ◌%◌, ◌==◌, List, [], ◌∷◌, ◌++◌, Option, none, some, Bool, true, false,
  length, if◌then◌else◌, replicate,
}
use edge.Server.Text.{codes}
use edge.Checkpoint.RoundTrip.{le_bytes}

-- An element of `recs`
pub record Rec : Type 0 where
  pub name : List ℕ
  pub tt : ℕ
  pub dims_ne : List ℕ
  pub offset : ℕ
  pub size : ℕ

pub record GgufWriter : Type 0 where
  pub kvs : List (List ℕ)
  pub recs : List Rec
  pub dlen : ℕ
  pub hdr_done : Bool
  pub file : List ℕ

-- `__init__`
abbrev pub new_writer : GgufWriter
new_writer = record { kvs = []; recs = []; dlen = 0; hdr_done = false; file = [] }

-- `_str`
unfoldable pub str_bytes : List ℕ → List ℕ
str_bytes s = le_bytes 8 (length s) ++ s

unfoldable pub kv : (key : List ℕ) → (ty : ℕ) → (payload : List ℕ) → GgufWriter → Option GgufWriter
unfolding str_bytes
kv key ty payload w =
    if w.hdr_done
    then none
    else some (record w { kvs = w.kvs ++ ((str_bytes key ++ (le_bytes 4 ty ++ payload)) ∷ []) })

-- `kv_s`
unfoldable pub kv_s : (key v : List ℕ) → GgufWriter → Option GgufWriter
unfolding kv str_bytes
kv_s key v w = kv key 8 (str_bytes v) w

-- `(-size) % ALIGN`
unfoldable pub pad_of : ℕ → ℕ
pad_of size = (32 - size % 32) % 32

unfoldable pub register :
    (name : List ℕ) → (tt : ℕ) → (dims_ne : List ℕ) → (size : ℕ) → GgufWriter → Option GgufWriter
unfolding pad_of
register name tt dims_ne size w =
    if w.hdr_done
    then none
    else some (record w {
      recs =
          w.recs
          ++ (record { name = name; tt = tt; dims_ne = dims_ne; offset = w.dlen; size = size }
              ∷ []);
      dlen = w.dlen + (size + pad_of size);
    })

unfoldable pub joined_bytes : List (List ℕ) → List ℕ
joined_bytes [] = []
joined_bytes (b ∷ bs) = b ++ joined_bytes bs

unfoldable pub dims_bytes : List ℕ → List ℕ
dims_bytes [] = []
dims_bytes (d ∷ ds) = le_bytes 8 d ++ dims_bytes ds

-- The description of a tensor in the header.
unfoldable pub info_bytes : List Rec → List ℕ
unfolding str_bytes dims_bytes
info_bytes [] = []
info_bytes (r ∷ recs) =
    str_bytes r.name
    ++ (le_bytes 4 (length r.dims_ne)
        ++ (dims_bytes r.dims_ne ++ (le_bytes 4 r.tt ++ (le_bytes 8 r.offset ++ info_bytes recs))))

unfoldable pub header_bytes : GgufWriter → List ℕ
unfolding joined_bytes info_bytes
header_bytes w =
    codes "GGUF"
    ++ (le_bytes 4 3
        ++ (le_bytes 8 (length w.recs)
            ++ (le_bytes 8 (length w.kvs) ++ (joined_bytes w.kvs ++ info_bytes w.recs))))

-- `finalize`: where the tensors start, and the writer.
unfoldable pub finalize : GgufWriter → ℕ × GgufWriter
unfolding header_bytes
finalize w =
    let header = header_bytes w in
    let ds = (length header + 32 - 1) / 32 * 32 in
    (ds, record w { hdr_done = true; file = header ++ replicate (ds - length header) 0 })

unfoldable pub write : List ℕ → GgufWriter → Option GgufWriter
write bytes w = if w.hdr_done then some (record w { file = w.file ++ bytes }) else none

unfoldable pub align_pad : GgufWriter → GgufWriter
align_pad w =
    let p = length w.file % 32 in
    if p == 0 then w else record w { file = w.file ++ replicate (32 - p) 0 }

-- A tensor with what pass A registers and what pass B writes.
pub record Tensor : Type 0 where
  pub name : List ℕ
  pub tt : ℕ
  pub dims_ne : List ℕ
  pub size : ℕ
  pub payload : List ℕ

-- Pass A
unfoldable pub register_all : List Tensor → GgufWriter → Option GgufWriter
unfolding register
register_all [] w = some w
register_all (t ∷ ts) w = elim (register t.name t.tt t.dims_ne t.size w) [
  | none ↦ none
  | some w' ↦ register_all ts w'
]

-- Pass B
unfoldable pub write_all : List Tensor → GgufWriter → Option GgufWriter
unfolding write align_pad
write_all [] w = some w
write_all (t ∷ ts) w = elim (write t.payload w) [
  | none ↦ none
  | some w' ↦ write_all ts (align_pad w')
]

-- Both passes, from a writer with its keys.
unfoldable pub write_container : List Tensor → GgufWriter → Option (ℕ × GgufWriter)
unfolding register_all finalize write_all
write_container ts w = elim (register_all ts w) [
  | none ↦ none
  | some w' ↦
      let (ds, w'') = finalize w' in
      elim (write_all ts w'') [ none ↦ none | some done ↦ some (ds, done) ]
]
