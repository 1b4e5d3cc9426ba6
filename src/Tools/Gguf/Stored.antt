-- ===== src/Tools/Gguf/Stored.antt =====
-- Every tensor stands where the header says.
use edge.Base.{
  ℕ, ◌+◌, ◌-◌, ◌*◌, ◌/◌, ◌%◌, ◌==◌, ◌≤◌, ◌≡◌, refl, sym, ap, subst, ◌∙◌, List, [], ◌∷◌, ◌++◌,
  Option, none, some, true, false, arith, Bool-cases, inl, inr, length, take, drop, replicate,
  length-append, length-replicate, append_assoc, append-nil, take-append, elim_some, if_true,
  if_false,
}
use edge.Tools.Experts.Blocks.{take-drop-append}
use edge.Tools.Gguf.Writer.{
  Rec, GgufWriter, pad_of, register, header_bytes, finalize, write, align_pad, Tensor, new_writer,
  register_all, write_all, write_container,
}

-- What the header is to say of the tensors, the first of which starts at `offset`.
abbrev pub recs_from : (offset : ℕ) → List Tensor → List Rec
recs_from offset [] = []
recs_from offset (t ∷ ts) =
    record { name = t.name; tt = t.tt; dims_ne = t.dims_ne; offset = offset; size = t.size }
    ∷ recs_from (offset + (t.size + pad_of t.size)) ts

abbrev end_from : (offset : ℕ) → List Tensor → ℕ
end_from offset [] = offset
end_from offset (t ∷ ts) = end_from (offset + (t.size + pad_of t.size)) ts

-- Each tensor is as long as it was registered.
abbrev pub AreSized : List Tensor → Type 0
AreSized [] = Unit
AreSized (t ∷ ts) = (length t.payload ≡ t.size) × AreSized ts

-- Each tensor starts on a multiple of 32 in the data, and its bytes stand there in the file.
abbrev pub AreStored : (file : List ℕ) → (ds : ℕ) → List Rec → List Tensor → Type 0
AreStored file ds [] [] = Unit
AreStored file ds (r ∷ recs) (t ∷ ts) =
    (r.offset % 32 ≡ 0)
    × (take r.size (drop (ds + r.offset) file) ≡ t.payload)
    × AreStored file ds recs ts
AreStored file ds recs ts = ⊥

register_all-recs :
    (ts : List Tensor) (w : GgufWriter)
    → w.hdr_done ≡ false
    → register_all ts w
      ≡ some (record w { recs = w.recs ++ recs_from w.dlen ts; dlen = end_from w.dlen ts })
unfolding register_all register
register_all-recs [] w open_header = rw (append-nil) refl
register_all-recs (t ∷ ts) w open_header =
    let r : Rec = record {
      name = t.name;
      tt = t.tt;
      dims_ne = t.dims_ne;
      offset = w.dlen;
      size = t.size;
    } in
    let w' : GgufWriter = record w {
      recs = w.recs ++ (r ∷ []);
      dlen = w.dlen + (t.size + pad_of t.size);
    } in
    let rest = register_all-recs ts w' open_header in
    elim_some none (register_all ts) (register t.name t.tt t.dims_ne t.size w) w'
      (if_false _ _ w.hdr_done open_header)
    ∙ rest
    ∙ ap (λ x. some (record w { recs = x; dlen = end_from w'.dlen ts }))
        (append_assoc w.recs (r ∷ []) (recs_from w'.dlen ts))

-- What pass B adds to the file.
abbrev laid : List Tensor → List ℕ
laid [] = []
laid (t ∷ ts) = t.payload ++ (replicate (pad_of t.size) 0 ++ laid ts)

pad_of-aligned : (n size : ℕ) → n % 32 ≡ 0 → (n + (size + pad_of size)) % 32 ≡ 0
unfolding pad_of
pad_of-aligned n size h = omega (arith, h)

align_pad-file :
    (w : GgufWriter) (n size : ℕ)
    → length w.file ≡ n + size
    → n % 32 ≡ 0
    → align_pad w ≡ record w { file = w.file ++ replicate (pad_of size) 0 }
unfolding align_pad pad_of
align_pad-file w n size long aligned = elim (Bool-cases (length w.file % 32 == 0)) [
  | inl even ↦
      let none_left : (32 - size % 32) % 32 ≡ 0 = ground (arith, even, long, aligned) in
      if_true _ _ (length w.file % 32 == 0) even
      ∙ ap (λ x. record w { file = x }) (sym (append-nil w.file))
      ∙ ap (λ k. record w { file = w.file ++ replicate k 0 }) (sym none_left)
  | inr odd ↦
      let left : 32 - length w.file % 32 ≡ (32 - size % 32) % 32 =
        ground (arith, odd, long, aligned) in
      if_false _ _ (length w.file % 32 == 0) odd
      ∙ ap (λ k. record w { file = w.file ++ replicate k 0 }) left
]

write_all-laid :
    (ts : List Tensor) (w : GgufWriter)
    → w.hdr_done ≡ true
    → length w.file % 32 ≡ 0
    → AreSized ts
    → write_all ts w ≡ some (record w { file = w.file ++ laid ts })
unfolding write_all write
write_all-laid [] w done aligned sized =
    ap (λ x. some (record w { file = x })) (sym (append-nil w.file))
write_all-laid (t ∷ ts) w done aligned sized =
    let zeros : List ℕ = replicate (pad_of t.size) 0 in
    let wrote : GgufWriter = record w { file = w.file ++ t.payload } in
    let padded : GgufWriter = record w { file = (w.file ++ t.payload) ++ zeros } in
    let long = length-append w.file t.payload in
    let pad : align_pad wrote ≡ padded =
      align_pad-file wrote (length w.file) t.size (omega (arith, long, sized.0)) aligned in
    let longer : length padded.file ≡ length w.file + (t.size + pad_of t.size) = omega (
      arith,
      long,
      sized.0,
      length-append (w.file ++ t.payload) zeros,
      length-replicate {A = ℕ} (pad_of t.size) 0,
    ) in
    let rest =
      write_all-laid ts padded done
        (ap (λ k. k % 32) longer ∙ pad_of-aligned (length w.file) t.size aligned) sized.1 in
    elim_some none (λ w'. write_all ts (align_pad w')) (write t.payload w) wrote
      (if_true _ _ w.hdr_done done)
    ∙ ap (write_all ts) pad
    ∙ rest
    ∙ ap (λ x. some (record w { file = x }))
        (append_assoc (w.file ++ t.payload) zeros (laid ts)
          ∙ append_assoc w.file t.payload (zeros ++ laid ts))

laid-AreStored :
    (ts : List Tensor) (front : List ℕ) (ds offset : ℕ)
    → length front ≡ ds + offset
    → offset % 32 ≡ 0
    → AreSized ts
    → AreStored (front ++ laid ts) ds (recs_from offset ts) ts
laid-AreStored [] front ds offset at aligned sized = tt
laid-AreStored (t ∷ ts) front ds offset at aligned sized =
    let zeros : List ℕ = replicate (pad_of t.size) 0 in
    let next = (front ++ t.payload) ++ zeros in
    let longer : length next ≡ ds + (offset + (t.size + pad_of t.size)) = omega (
      arith,
      length-append front t.payload,
      sized.0,
      at,
      length-append (front ++ t.payload) zeros,
      length-replicate {A = ℕ} (pad_of t.size) 0,
    ) in
    (
      aligned,
      take-drop-append (ds + offset) t.size front t.payload (zeros ++ laid ts) at sized.0,
      subst (λ f. AreStored f ds (recs_from (offset + (t.size + pad_of t.size)) ts) ts)
          (append_assoc (front ++ t.payload) zeros (laid ts)
            ∙ append_assoc front t.payload (zeros ++ laid ts))
          (laid-AreStored ts next ds (offset + (t.size + pad_of t.size)) longer
            (pad_of-aligned offset t.size aligned) sized.1),
    )

-- From a writer with any keys, both passes succeed on tensors that are as long as they are registered;
-- the file starts with the header of all keys and tensors, the data starts behind it on a multiple of 32,
-- and every tensor stands aligned and whole where the header says.
pub write_container-AreStored :
    (kvs : List (List ℕ)) (ts : List Tensor)
    → AreSized ts
    → (ds : ℕ) × (done : GgufWriter) × (write_container ts (record new_writer { kvs = kvs })
        ≡ some (ds, done))
      × (ds % 32 ≡ 0)
      × (length (header_bytes done) ≤ ds)
      × (take (length (header_bytes done)) done.file ≡ header_bytes done)
      × (done.kvs ≡ kvs)
      × (done.recs ≡ recs_from 0 ts)
      × AreStored done.file ds done.recs ts
unfolding write_container finalize
write_container-AreStored kvs ts sized =
    let w : GgufWriter = record new_writer { kvs = kvs } in
    let registered : GgufWriter = record w { recs = recs_from 0 ts; dlen = end_from 0 ts } in
    let header = header_bytes registered in
    let n = length header in
    let ds = (n + 32 - 1) / 32 * 32 in
    let fill : List ℕ = replicate (ds - n) 0 in
    let started : GgufWriter = record registered { hdr_done = true; file = header ++ fill } in
    let done : GgufWriter = record started { file = (header ++ fill) ++ laid ts } in
    let behind : n ≤ ds = omega arith in
    let long : length (header ++ fill) ≡ ds =
      omega (arith, length-append header fill, length-replicate {A = ℕ} (ds - n) 0, behind) in
    let aligned : ds % 32 ≡ 0 = omega arith in
    let wrote : write_all ts started ≡ some done =
      write_all-laid ts started refl (ap (λ k. k % 32) long ∙ aligned) sized in
    (
      ds,
      done,
      ap both_passes (register_all-recs ts w refl) ∙ ap (ended ds) wrote,
      aligned,
      behind,
      ap (take n) (append_assoc header fill (laid ts))
          ∙ take-append n header (fill ++ laid ts) refl,
      refl,
      refl,
      laid-AreStored ts (header ++ fill) ds 0 (omega (arith, long)) refl sized,
    )
  where
    ended : ℕ → Option GgufWriter → Option (ℕ × GgufWriter)
    ended ds none = none
    ended ds (some done) = some (ds, done)

    both_passes : Option GgufWriter → Option (ℕ × GgufWriter)
    both_passes none = none
    both_passes (some w') = ended (finalize w').0 (write_all ts (finalize w').1)
