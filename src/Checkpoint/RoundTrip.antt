-- ===== src/Checkpoint/RoundTrip.antt =====
-- A tensor is read back from a shard that was written as the format says.
use edge.Base.{
  ℕ, zero, suc, ◌+◌, ◌-◌, ◌*◌, ◌/◌, ◌%◌, ◌≤◌, ◌<◌, ◌≡◌, refl, ap, ◌∙◌, List, [], ◌∷◌, ◌++◌, Option,
  none, some, false, length, take, drop, if◌then◌else◌, ltb, leb, arith, take-append, drop-append,
  drop-add-append, length-append, if_true, elim_some,
}
use edge.Server.Text.{Text, codes, same}
use edge.Server.Text.Laws.{same→eq}
use edge.Checkpoint.{
  Meta, Shard, little_endian, entry_of, entries_of, open_shard, find_entry, raw_entry, raw,
}

-- A number in `k` bytes, the lowest first, and how many numbers these hold.
abbrev pub le_bytes : ℕ → ℕ → List ℕ
le_bytes zero n = []
le_bytes (suc k) n = n % 256 ∷ le_bytes k (n / 256)

abbrev pub bytes_max : ℕ → ℕ
bytes_max zero = 1
bytes_max (suc k) = 256 * bytes_max k

pub little_endian-le_bytes : (k n : ℕ) → n < bytes_max k → little_endian (le_bytes k n) ≡ n
unfolding little_endian
little_endian-le_bytes zero n h = omega arith
little_endian-le_bytes (suc k) n h = omega (arith, little_endian-le_bytes k (n / 256) (omega arith))

pub length-le_bytes : (k n : ℕ) → length (le_bytes k n) ≡ k
length-le_bytes zero n = refl
length-le_bytes (suc k) n = ap suc (length-le_bytes k (n / 256))

-- The file of a header and a payload.
abbrev pub written_shard : (header payload : List ℕ) → List ℕ
written_shard header payload = le_bytes 8 (length header) ++ (header ++ payload)

abbrev pub find_meta : Text → List (Text × Meta) → Option Meta
find_meta name [] = none
find_meta name ((k, meta) ∷ metas) = if same k name then some meta else find_meta name metas

find_entry-entries_of :
    (base : ℕ) (name : Text) (metas : List (Text × Meta)) (meta : Meta)
    → same name (codes "__metadata__") ≡ false
    → find_meta name metas ≡ some meta
    → find_entry name (entries_of base metas) ≡ some (entry_of base meta)
unfolding find_entry entries_of
find_entry-entries_of base name [] meta h e = absurd (ground arith)
find_entry-entries_of base name ((k, m) ∷ metas) meta h e =
    ground (arith, find_entry-entries_of base name metas meta h, same→eq k name)

module _ (parse_header : List ℕ → Option (List (Text × Meta))) where
  open_shard-some :
      (file : List ℕ) (n : ℕ) (metas : List (Text × Meta))
      → ltb (length file) 8 ≡ false
      → little_endian (take 8 file) ≡ n
      → parse_header (take n (drop 8 file)) ≡ some metas
      → open_shard parse_header file
        ≡ some (record { file = file; payload_base = 8 + n; entries = entries_of (8 + n) metas })
  unfolding open_shard
  open_shard-some file n metas long len parsed =
      rw (long, ap (λ m. parse_header (take m (drop 8 file))) len ∙ parsed, open_shard)
        (ap
          (λ m.
            some (record { file = file; payload_base = 8 + m; entries = entries_of (8 + m) metas }))
          len)

  -- From a file with the length of its header, less than two to the 64, the header and the payload, each
  -- tensor that the header names within the payload is read back as its bytes there.
  pub raw-written_shard :
      (header payload : List ℕ) (name : Text) (metas : List (Text × Meta)) (meta : Meta)
      → length header < bytes_max 8
      → parse_header header ≡ some metas
      → same name (codes "__metadata__") ≡ false
      → find_meta name metas ≡ some meta
      → meta.begin_offset ≤ meta.end_offset
      → meta.end_offset ≤ length payload
      → (shard : Shard) × (open_shard parse_header (written_shard header payload) ≡ some shard)
        × (raw shard name
            ≡ some (take (meta.end_offset - meta.begin_offset) (drop meta.begin_offset payload)))
  unfolding raw raw_entry entry_of
  raw-written_shard header payload name metas meta small parsed named found ordered fits =
      let n = length header in
      let prefix = le_bytes 8 n in
      let file = written_shard header payload in
      let size = meta.end_offset - meta.begin_offset in
      let long = length-append prefix (header ++ payload) in
      let longer = length-append header payload in
      let eight = length-le_bytes 8 n in
      let sums : 8 + n + meta.begin_offset ≡ 8 + (n + meta.begin_offset) = omega arith in
      (
        record { file = file; payload_base = 8 + n; entries = entries_of (8 + n) metas },
        open_shard-some file n metas (ground (arith, long, eight))
            (ap little_endian (take-append 8 prefix (header ++ payload) eight)
              ∙ little_endian-le_bytes 8 n small)
            (ap (λ b. parse_header (take n b)) (drop-append 8 prefix (header ++ payload) eight)
              ∙ ap parse_header (take-append n header payload refl)
              ∙ parsed),
        elim_some none (raw_entry file) (find_entry name (entries_of (8 + n) metas))
              (entry_of (8 + n) meta) (find_entry-entries_of (8 + n) name metas meta named found)
            ∙ if_true (some (take size (drop (8 + n + meta.begin_offset) file))) none
                (leb (8 + n + meta.begin_offset + size) (length file))
                (ground (arith, long, longer, eight))
            ∙ ap (λ k. some (take size (drop k file))) sums
            ∙ ap (λ b. some (take size b))
                (drop-add-append 8 (n + meta.begin_offset) prefix (header ++ payload) eight
                  ∙ drop-add-append n meta.begin_offset header payload refl),
      )
