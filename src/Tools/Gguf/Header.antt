-- ===== src/Tools/Gguf/Header.antt =====
-- The header of a written file is read back by the format's own rules.
use edge.Base.{
  ℕ, zero, suc, ◌%◌, ◌<◌, ◌≤◌, ◌≡◌, refl, sym, ap, subst, ◌∙◌, List, [], ◌∷◌, ◌++◌, map, some,
  length, take, drop, append_assoc, take-append, drop-append, take-append-drop,
}
use edge.Server.Text.{codes}
use edge.Checkpoint.{little_endian}
use edge.Checkpoint.RoundTrip.{le_bytes, bytes_max, little_endian-le_bytes}
use edge.Tools.Gguf.Writer.{
  Rec, GgufWriter, str_bytes, joined_bytes, dims_bytes, info_bytes, header_bytes, Tensor,
  new_writer, write_container,
}
use edge.Tools.Gguf.Stored.{recs_from, AreSized, AreStored, write_container-AreStored}

-- A tensor as a reader of the format finds it.
pub record Found : Type 0 where
  pub name : List ℕ
  pub dims_ne : List ℕ
  pub tt : ℕ
  pub offset : ℕ

pub record Header : Type 0 where
  pub magic : List ℕ
  pub version : ℕ
  pub tensor_count : ℕ
  pub kv_count : ℕ
  pub kv_section : List ℕ
  pub infos : List Found

-- A string is its length in eight bytes and its bytes.
abbrev read_str : List ℕ → List ℕ × List ℕ
read_str bs = let n = little_endian (take 8 bs) in (take n (drop 8 bs), drop n (drop 8 bs))

abbrev read_dims : (n : ℕ) → List ℕ → List ℕ × List ℕ
read_dims zero bs = ([], bs)
read_dims (suc n) bs =
    let (ds, rest) = read_dims n (drop 8 bs) in (little_endian (take 8 bs) ∷ ds, rest)

abbrev read_infos : (n : ℕ) → List ℕ → List Found
read_infos zero bs = []
read_infos (suc n) bs =
    let named = read_str bs in
    let dims = read_dims (little_endian (take 4 named.1)) (drop 4 named.1) in
    record {
      name = named.0;
      dims_ne = dims.0;
      tt = little_endian (take 4 dims.1);
      offset = little_endian (take 8 (drop 4 dims.1));
    }
    ∷ read_infos n (drop 12 dims.1)

-- What a reader finds at the start of a file whose keys take `kv_size` bytes.
abbrev pub read_header : (kv_size : ℕ) → (file : List ℕ) → Header
read_header kv_size file = record {
  magic = take 4 file;
  version = little_endian (take 4 (drop 4 file));
  tensor_count = little_endian (take 8 (drop 8 file));
  kv_count = little_endian (take 8 (drop 16 file));
  kv_section = take kv_size (drop 24 file);
  infos = read_infos (little_endian (take 8 (drop 8 file))) (drop kv_size (drop 24 file));
}

abbrev pub info_of : Rec → Found
info_of r = record { name = r.name; dims_ne = r.dims_ne; tt = r.tt; offset = r.offset }

-- The header that the keys and the tensors are to have.
abbrev pub header_of : List (List ℕ) → List Rec → Header
header_of kvs recs = record {
  magic = codes "GGUF";
  version = 3;
  tensor_count = length recs;
  kv_count = length kvs;
  kv_section = joined_bytes kvs;
  infos = map info_of recs;
}

-- The numbers fit their fields, in which `struct.pack` does not raise.
abbrev DimsFit : List ℕ → Type 0
DimsFit [] = Unit
DimsFit (d ∷ ds) = (d < bytes_max 8) × DimsFit ds

abbrev pub RecsFit : List Rec → Type 0
RecsFit [] = Unit
RecsFit (r ∷ recs) =
    ((length r.name < bytes_max 8)
      × (length r.dims_ne < bytes_max 4)
      × DimsFit r.dims_ne
      × (r.tt < bytes_max 4)
      × (r.offset < bytes_max 8))
    × RecsFit recs

read_str-str_bytes :
    (s rest : List ℕ) → length s < bytes_max 8 → read_str (str_bytes s ++ rest) ≡ (s, rest)
unfolding str_bytes
read_str-str_bytes s rest h =
    ap (λ n. (take n (s ++ rest), drop n (s ++ rest))) (little_endian-le_bytes 8 (length s) h)
    ∙ ap (λ t. (t, drop (length s) (s ++ rest))) (take-append (length s) s rest refl)
    ∙ ap (λ t. (s, t)) (drop-append (length s) s rest refl)

read_dims-dims_bytes :
    (ds rest : List ℕ) → DimsFit ds → read_dims (length ds) (dims_bytes ds ++ rest) ≡ (ds, rest)
unfolding dims_bytes
read_dims-dims_bytes [] rest fit = refl
read_dims-dims_bytes (d ∷ ds) rest fit =
    ap (λ (r : List ℕ × List ℕ). (little_endian (le_bytes 8 d) ∷ r.0, r.1))
      (read_dims-dims_bytes ds rest fit.1)
    ∙ ap (λ n. (n ∷ ds, rest)) (little_endian-le_bytes 8 d fit.0)

-- What follows the name of a tensor in its description, and what follows the dimensions.
abbrev after_dims : Rec → List ℕ → List ℕ
after_dims r rest = le_bytes 4 r.tt ++ (le_bytes 8 r.offset ++ rest)

abbrev after_name : Rec → List ℕ → List ℕ
after_name r rest = le_bytes 4 (length r.dims_ne) ++ (dims_bytes r.dims_ne ++ after_dims r rest)

info_bytes-cons :
    (r : Rec) (recs : List Rec) (rest : List ℕ)
    → info_bytes (r ∷ recs) ++ rest ≡ str_bytes r.name ++ after_name r (info_bytes recs ++ rest)
unfolding info_bytes
info_bytes-cons r recs rest =
    append_assoc (str_bytes r.name) (after_name r (info_bytes recs)) rest
    ∙ ap (λ t. str_bytes r.name ++ (le_bytes 4 (length r.dims_ne) ++ t))
        (append_assoc (dims_bytes r.dims_ne) (after_dims r (info_bytes recs)) rest)

-- A description behind its name and its dimensions.
abbrev read_from : (n : ℕ) → (name dims : List ℕ) → List ℕ → List Found
read_from n name dims bs =
    record {
      name = name;
      dims_ne = dims;
      tt = little_endian (take 4 bs);
      offset = little_endian (take 8 (drop 4 bs));
    }
    ∷ read_infos n (drop 12 bs)

read_infos-info_bytes :
    (recs : List Rec) (rest : List ℕ)
    → RecsFit recs
    → read_infos (length recs) (info_bytes recs ++ rest) ≡ map info_of recs
read_infos-info_bytes [] rest fit = refl
read_infos-info_bytes (r ∷ recs) rest ((named, counted, dims, typed, placed), fit) =
    let later = info_bytes recs ++ rest in
    let n = length recs in
    ap (read_infos (suc n)) (info_bytes-cons r recs rest)
    ∙ ap
        (λ (p : List ℕ × List ℕ).
          let d = read_dims (little_endian (take 4 p.1)) (drop 4 p.1) in read_from n p.0 d.0 d.1)
        (read_str-str_bytes r.name (after_name r later) named)
    ∙ ap
        (λ k.
          let d = read_dims k (dims_bytes r.dims_ne ++ after_dims r later) in
          read_from n r.name d.0 d.1)
        (little_endian-le_bytes 4 (length r.dims_ne) counted)
    ∙ ap (λ (d : List ℕ × List ℕ). read_from n r.name d.0 d.1)
        (read_dims-dims_bytes r.dims_ne (after_dims r later) dims)
    ∙ ap
        (λ t.
          record {
            name = r.name;
            dims_ne = r.dims_ne;
            tt = t;
            offset = little_endian (le_bytes 8 r.offset);
          }
          ∷ read_infos n later)
        (little_endian-le_bytes 4 r.tt typed)
    ∙ ap
        (λ o.
          record { name = r.name; dims_ne = r.dims_ne; tt = r.tt; offset = o } ∷ read_infos n later)
        (little_endian-le_bytes 8 r.offset placed)
    ∙ ap (λ is. info_of r ∷ is) (read_infos-info_bytes recs rest fit)

-- A header behind its counts.
abbrev behind_counts : GgufWriter → (section rest : List ℕ) → Header
behind_counts w section rest = record (header_of w.kvs w.recs) {
  kv_section = section;
  infos = read_infos (length w.recs) rest;
}

read_header-header_bytes :
    (w : GgufWriter) (rest : List ℕ)
    → length w.kvs < bytes_max 8
    → length w.recs < bytes_max 8
    → RecsFit w.recs
    → read_header (length (joined_bytes w.kvs)) (header_bytes w ++ rest) ≡ header_of w.kvs w.recs
unfolding header_bytes little_endian
read_header-header_bytes w rest keys counted fit =
    let kv = joined_bytes w.kvs in
    let infos = info_bytes w.recs in
    ap
      (λ n. record {
        magic = codes "GGUF";
        version = 3;
        tensor_count = n;
        kv_count = little_endian (le_bytes 8 (length w.kvs));
        kv_section = take (length kv) ((kv ++ infos) ++ rest);
        infos = read_infos n (drop (length kv) ((kv ++ infos) ++ rest));
      })
      (little_endian-le_bytes 8 (length w.recs) counted)
    ∙ ap
        (λ k. record {
          magic = codes "GGUF";
          version = 3;
          tensor_count = length w.recs;
          kv_count = k;
          kv_section = take (length kv) ((kv ++ infos) ++ rest);
          infos = read_infos (length w.recs) (drop (length kv) ((kv ++ infos) ++ rest));
        })
        (little_endian-le_bytes 8 (length w.kvs) keys)
    ∙ ap (λ section. behind_counts w section (drop (length kv) ((kv ++ infos) ++ rest)))
        (ap (take (length kv)) (append_assoc kv infos rest)
          ∙ take-append (length kv) kv (infos ++ rest) refl)
    ∙ ap (behind_counts w kv) (
        ap (drop (length kv)) (append_assoc kv infos rest)
        ∙ drop-append (length kv) kv (infos ++ rest) refl)
    ∙ ap (λ is. record (header_of w.kvs w.recs) { infos = is })
        (read_infos-info_bytes w.recs rest fit)

-- From a writer with any keys, both passes succeed on tensors that are as long as they are registered, if
-- the counts, the lengths of the names, the dimensions, the types and the offsets fit their fields. A
-- reader of the format finds at the start of the file the magic, version 3, both counts, the keys, and
-- every tensor with its name, dimensions, type and offset; the data starts on a multiple of 32 behind
-- that, and every tensor stands aligned and whole at its offset.
pub write_container-read_header :
    (kvs : List (List ℕ)) (ts : List Tensor)
    → AreSized ts
    → length kvs < bytes_max 8
    → length (recs_from 0 ts) < bytes_max 8
    → RecsFit (recs_from 0 ts)
    → (ds : ℕ) × (done : GgufWriter) × (write_container ts (record new_writer { kvs = kvs })
        ≡ some (ds, done))
      × (ds % 32 ≡ 0)
      × (length (header_bytes done) ≤ ds)
      × (read_header (length (joined_bytes kvs)) done.file ≡ header_of kvs (recs_from 0 ts))
      × AreStored done.file ds (recs_from 0 ts) ts
write_container-read_header kvs ts sized keys counted fit =
    let (ds, done, wrote, aligned, behind, header, same_kvs, same_recs, stored) =
      write_container-AreStored kvs ts sized in
    let n = length (header_bytes done) in
    let file : done.file ≡ header_bytes done ++ drop n done.file =
      sym (take-append-drop n done.file) ∙ ap (λ t. t ++ drop n done.file) header in
    (
      ds,
      done,
      wrote,
      aligned,
      behind,
      ap (read_header (length (joined_bytes kvs))) file
          ∙ ap (λ k. read_header (length (joined_bytes k)) (header_bytes done ++ drop n done.file))
              (sym same_kvs)
          ∙ read_header-header_bytes done (drop n done.file)
              (subst (λ k. length k < bytes_max 8) (sym same_kvs) keys)
              (subst (λ r. length r < bytes_max 8) (sym same_recs) counted)
              (subst RecsFit (sym same_recs) fit)
          ∙ ap (λ k. header_of k done.recs) same_kvs
          ∙ ap (header_of kvs) same_recs,
      subst (λ r. AreStored done.file ds r ts) same_recs stored,
    )
