-- ===== src/Tools/Experts/Resident/RoundTrip.antt =====
-- The resident tensors are read back through python/src/edge0/streaming/mmap.py.
use edge.Base.{
  ℕ, ◌+◌, ◌-◌, ◌==◌, ◌≤◌, ◌<◌, ◌≡◌, refl, sym, ap, subst, ◌∙◌, List, [], ◌∷◌, ◌++◌, map, Option,
  some, true, false, ◌||◌, arith, Bool-cases, inl, inr, length, take, drop, length-append,
  length-take, length-drop, drop-add-append, append_assoc, ltb,
}
use edge.Server.Text.{Text, codes, same}
use edge.Server.Text.Laws.{same→eq, same_self}
use edge.Registry.{find}
use edge.Server.Text.Member.{has}
use edge.Checkpoint.{Meta, Shard, open_shard, raw}
use edge.Checkpoint.RoundTrip.{
  le_bytes, bytes_max, length-le_bytes, find_meta, written_shard, raw-written_shard,
}
use edge.Tools.Experts.{Shards, Source, entry}
use edge.Tools.Experts.Blocks.{take-drop-append}
use edge.Tools.Experts.Resident.{
  is_routed, insert_name, resident_names, header_from, tensor_bytes, write_tensors, reads_back,
  resident_file, write_resident, resident,
}

add-zero-sym : (n : ℕ) → n ≡ n + 0
add-zero-sym n = omega arith

find-find_meta : (n : Text) (header : List (Text × Meta)) → find n header ≡ find_meta n header
unfolding find
find-find_meta n [] = refl
find-find_meta n ((k, m) ∷ header) = ground (arith, find-find_meta n header)

has-insert_name : (n m : Text) (ms : List Text) → has n (insert_name m ms) ≡ (same m n || has n ms)
unfolding has insert_name
has-insert_name n m [] = refl
has-insert_name n m (k ∷ ms) = ground (arith, has-insert_name n m ms)

has-resident_names :
    (n : Text) (weight_map : List (Text × Text))
    → is_routed n ≡ false
    → has n (map (λ (e : Text × Text). e.0) weight_map) ≡ true
    → has n (resident_names weight_map) ≡ true
unfolding has resident_names
has-resident_names n [] kept h = absurd (ground (arith, h))
has-resident_names n ((m, filename) ∷ weight_map) kept h =
    let later = has-resident_names n weight_map kept in
    elim (Bool-cases (same m n)) [
      | inl here ↦
          let kept_m = subst (λ x. is_routed x ≡ false) (sym (same→eq m n here)) kept in
          ground (arith, kept_m, here, has-insert_name n m (resident_names weight_map))
      | inr there ↦
          let more = later (ground (arith, there, h)) in
          ground (arith, more, has-insert_name n m (resident_names weight_map))
    ]

module _ (shards : Shards) where
  -- The tensor is in the shards, within its file.
  abbrev pub IsPlaced : Text → Type 0
  IsPlaced n = (s : Source) × (entry shards n ≡ some s) × (s.offset + s.total ≤ length s.mapping)

  -- The header names the tensor's bytes in the payload.
  abbrev IsNamed : List (Text × Meta) → (payload : List ℕ) → (end : ℕ) → Text → Type 0
  IsNamed header payload end n =
      (s : Source) × (field : Meta) × (entry shards n ≡ some s)
      × (find n header ≡ some field)
      × (field.end_offset ≡ field.begin_offset + s.total)
      × (field.end_offset ≤ end)
      × (take s.total (drop field.begin_offset payload) ≡ tensor_bytes s)

  length-tensor_bytes :
      (s : Source) → s.offset + s.total ≤ length s.mapping → length (tensor_bytes s) ≡ s.total
  unfolding tensor_bytes
  length-tensor_bytes s fits =
      omega (arith, length-take s.total (drop s.offset s.mapping), length-drop s.offset s.mapping)

  write_tensors-IsNamed :
      (names : List Text) (cursor : ℕ)
      → ((n : Text) → has n names ≡ true → IsPlaced n)
      → (header : List (Text × Meta)) × (bytes : List ℕ) × (written : ℕ) × (header_from shards
            cursor names
          ≡ some (header, cursor + written))
        × (write_tensors shards names ≡ some (bytes, written))
        × (length bytes ≡ written)
        × ((pre : List ℕ) (n : Text)
            → length pre ≡ cursor
            → has n names ≡ true
            → IsNamed header (pre ++ bytes) (cursor + written) n)
  unfolding header_from write_tensors has find
  write_tensors-IsNamed [] cursor placed = (
    [],
    [],
    0,
    ap (λ k. some ([], k)) (add-zero-sym cursor),
    refl,
    refl,
    λ pre n at h. absurd (ground (arith, h)),
  )
  write_tensors-IsNamed (m ∷ names) cursor placed =
      let (s, found, fits) = placed m (ground (arith, same_self m)) in
      let (header, bytes, written, made, wrote, size, named) =
        write_tensors-IsNamed names (cursor + s.total) (λ n h. placed n (ground (arith, h))) in
      let whole = length-tensor_bytes s fits in
      let sums : cursor + s.total + written ≡ cursor + (s.total + written) = omega arith in
      let field : Meta = record {
        begin_offset = cursor;
        end_offset = cursor + s.total;
        dtype = s.dtype;
        shape = s.shape;
      } in
      (
        (m, field) ∷ header,
        tensor_bytes s ++ bytes,
        s.total + written,
        rw (found, made, header_from) (ap (λ k. some ((m, field) ∷ header, k)) sums),
        rw (found, wrote, write_tensors) refl,
        omega (arith, length-append (tensor_bytes s) bytes, whole, size),
        λ pre n at h. elim (Bool-cases (same m n)) [
          | inl here ↦
              let eq = same→eq m n here in
              (
                s,
                field,
                ap (entry shards) (sym eq) ∙ found,
                rw (here) refl,
                refl,
                omega arith,
                take-drop-append cursor s.total pre (tensor_bytes s) bytes at whole,
              )
          | inr there ↦
              let (s', field', found', f', ends, within, read) =
                named (pre ++ tensor_bytes s) n
                  (omega (arith, length-append pre (tensor_bytes s), at, whole))
                  (ground (arith, there, h)) in
              (
                s',
                field',
                found',
                rw (there) f',
                ends,
                omega (arith, within),
                ap (λ p. take s'.total (drop field'.begin_offset p))
                      (sym (append_assoc pre (tensor_bytes s) bytes))
                    ∙ read,
              )
        ],
      )

  -- What the header names is read back, from a file with the payload behind `base` bytes.
  reads_back-IsNamed :
      (front payload : List ℕ) (base end : ℕ) (header : List (Text × Meta)) (names : List Text)
      → length front ≡ base
      → ((n : Text) → has n names ≡ true → IsNamed header payload end n)
      → reads_back shards (front ++ payload) base header names ≡ true
  unfolding reads_back has
  reads_back-IsNamed front payload base end header [] at named = refl
  reads_back-IsNamed front payload base end header (m ∷ names) at named =
      let (s, field, found, f, ends, within, read) = named m (ground (arith, same_self m)) in
      let there : take s.total (drop (base + field.begin_offset) (front ++ payload))
          ≡ tensor_bytes s =
        ap (take s.total) (drop-add-append base field.begin_offset front payload at) ∙ read in
      rw (found, f, reads_back, there, same_self (tensor_bytes s))
        (reads_back-IsNamed front payload base end header names at
          (λ n h. named n (ground (arith, h))))

module _ (dumps : List (Text × Meta) → List ℕ) (parse : List ℕ → Option (List (Text × Meta))) where
  -- If every resident tensor is in the shards within its file, and the header that is made is decoded to
  -- itself from what is dumped and fits its length field, `resident` succeeds, and from its file each resident tensor is read back as
  -- its bytes in the shards.
  pub raw-resident :
      (shards : Shards) (name : Text) (header : List (Text × Meta)) (end : ℕ)
      → ((n : Text) → has n (resident_names shards.weight_map) ≡ true → IsPlaced shards n)
      → header_from shards 0 (resident_names shards.weight_map) ≡ some (header, end)
      → parse (dumps header) ≡ some header
      → length (dumps header) < bytes_max 8
      → has name (map (λ (e : Text × Text). e.0) shards.weight_map) ≡ true
      → is_routed name ≡ false
      → same name (codes "__metadata__") ≡ false
      → (file : List ℕ) × (weight_map : List (Text × Text)) × (shard : Shard) × (s : Source)
        × (resident dumps shards ≡ some (file, weight_map))
        × (open_shard parse file ≡ some shard)
        × (entry shards name ≡ some s)
        × (raw shard name ≡ some (tensor_bytes s))
  unfolding resident write_resident resident_file
  raw-resident shards name header0 end placed first decoded0 small0 there kept plain =
      let names = resident_names shards.weight_map in
      let (header, payload, written, made, wrote, size, named) =
        write_tensors-IsNamed shards names 0 placed in
      let eq : header0 ≡ header = ground (arith, made, first) in
      let decoded = subst (λ h. parse (dumps h) ≡ some h) eq decoded0 in
      let small = subst (λ h. length (dumps h) < bytes_max 8) eq small0 in
      let blob = dumps header in
      let front = le_bytes 8 (length blob) ++ blob in
      let file = written_shard blob payload in
      let same_count : (written == 0 + written) ≡ true = ground arith in
      let fits : ltb (length blob) (bytes_max 8) ≡ true = ground (arith, small) in
      let at : length front ≡ 8 + length blob =
        omega
          (arith, length-append (le_bytes 8 (length blob)) blob, length-le_bytes 8 (length blob)) in
      let read_all : reads_back shards file (8 + length blob) header names ≡ true =
        ap (λ p. reads_back shards p (8 + length blob) header names)
          (sym (append_assoc (le_bytes 8 (length blob)) blob payload))
        ∙ reads_back-IsNamed shards front payload (8 + length blob) (0 + written) header names at
            (λ n. named [] n refl) in
      let (s, field, found, f, ends, within, read) =
        named [] name refl (has-resident_names name shards.weight_map kept there) in
      let (shard, opened, got) =
        raw-written_shard parse blob payload name header field small decoded plain
          (sym (find-find_meta name header) ∙ f) (omega (arith, ends))
          (omega (arith, within, size)) in
      let span : field.end_offset - field.begin_offset ≡ s.total = omega (arith, ends) in
      (
        file,
        map (λ (n : Text). (n, codes "resident.safetensors")) names,
        shard,
        s,
        rw (made, wrote, fits, same_count, read_all, resident, write_resident, resident_file) refl,
        opened,
        found,
        got ∙ ap some (ap (λ k. take k (drop field.begin_offset payload)) span ∙ read),
      )
