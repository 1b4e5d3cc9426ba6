-- ===== src/Tools/Experts/Blocks.antt =====
-- Where the parts of a block stand in what is written.
use edge.Base.{
  ℕ, suc, ◌+◌, ◌*◌, ◌/◌, ◌==◌, ◌≤◌, ◌<◌, ◌≡◌, refl, sym, ap, subst, ◌∙◌, List, [], ◌∷◌, ◌++◌, some,
  true, false, arith, inl, inr, Option-cases, length, take, drop, take-append, drop-append,
  length-append, append_assoc, length-take, length-drop,
}
use native.Mathlib.Nat.{mul-div-le}
use edge.Server.Text.{Text}
use edge.Server.Text.Laws.{same_self}
use edge.Tools.Experts.{
  tensor_name, Shards, Source, entry, slice_at, slice_of, PartEntry, tail_of, describe_from,
}
use edge.Tools.Experts.Pack.{sources_of, write_block}
use edge.Tools.Experts.Verify.{parts_match}

pub take-drop-append :
    {A : Type 0} (n k : ℕ) (pre mid rest : List A)
    → length pre ≡ n
    → length mid ≡ k
    → take k (drop n (pre ++ (mid ++ rest))) ≡ mid
take-drop-append n k pre mid rest p m =
    ap (take k) (drop-append n pre (mid ++ rest) p) ∙ take-append k mid rest m

-- An expert's share ends within the tensor.
share-le :
    (total experts expert : ℕ)
    → expert < experts
    → expert * (total / experts) + total / experts ≤ total
share-le total experts expert h =
    let within : suc expert * (total / experts) ≤ experts * (total / experts) = grind arith in
    omega (arith, within, mul-div-le total experts)

pub length-slice_at :
    (experts : ℕ) (s : Source) (expert : ℕ)
    → expert < experts
    → s.offset + s.total ≤ length s.mapping
    → length (slice_at experts s expert) ≡ s.total / experts
unfolding slice_at
length-slice_at experts s expert lt fits =
    let per = s.total / experts in
    let start = s.offset + expert * per in
    omega (
      arith,
      length-take per (drop start s.mapping),
      length-drop start s.mapping,
      share-le s.total experts expert lt,
    )

module _ (shards : Shards) (layer : ℕ) where
  -- The tensors of the layer are there, within their files, and as long as those of layer 0.
  abbrev pub IsUniform : List (Text × Text) → Type 0
  IsUniform [] = Unit
  IsUniform ((projection, part) ∷ rest) =
      (s0 : Source) × (s : Source) × (entry shards (tensor_name 0 projection part) ≡ some s0)
      × (entry shards (tensor_name layer projection part) ≡ some s)
      × (s.total ≡ s0.total)
      × (s.offset + s.total ≤ length s.mapping)
      × IsUniform rest

abbrev part_entry : Text → Text → (experts cursor : ℕ) → Source → PartEntry
part_entry projection part experts cursor s = record {
  projection = projection;
  part = part;
  dtype = s.dtype;
  shape = tail_of s.shape;
  offset = cursor;
  bytes = s.total / experts;
}

module _ (shards : Shards) (experts : ℕ) where
  pub describe_from-cons :
      (projection part : Text) (rest : List (Text × Text)) (cursor end : ℕ) (es : List PartEntry)
      (s : Source)
      → entry shards (tensor_name 0 projection part) ≡ some s
      → describe_from shards experts cursor ((projection, part) ∷ rest) ≡ some (es, end)
      → (es' : List PartEntry) × (describe_from shards experts (cursor + s.total / experts) rest
          ≡ some (es', end))
        × (es ≡ part_entry projection part experts cursor s ∷ es')
  unfolding describe_from
  describe_from-cons projection part rest cursor end es s found e =
      elim (Option-cases (describe_from shards experts (cursor + s.total / experts) rest)) [
        | inl bad ↦ absurd (ground (arith, found, bad, e))
        | inr ((es', end'), good) ↦
            (es', ground (arith, found, good, e), ground (arith, found, good, e))
      ]

  pub describe_from-nil :
      (cursor end : ℕ) (es : List PartEntry)
      → describe_from shards experts cursor [] ≡ some (es, end)
      → ([] ≡ es) × (cursor ≡ end)
  unfolding describe_from
  describe_from-nil cursor end es d = ground (arith, d)

  pub sources_of-nil :
      (layer : ℕ) (ss : List Source) → sources_of shards layer [] ≡ some ss → [] ≡ ss
  unfolding sources_of
  sources_of-nil layer ss o = ground (arith, o)

  pub sources_of-cons :
      (layer : ℕ) (projection part : Text) (rest : List (Text × Text)) (ss : List Source)
      (s : Source)
      → entry shards (tensor_name layer projection part) ≡ some s
      → sources_of shards layer ((projection, part) ∷ rest) ≡ some ss
      → (ss' : List Source) × (sources_of shards layer rest ≡ some ss') × (ss ≡ s ∷ ss')
  unfolding sources_of
  sources_of-cons layer projection part rest ss s found e =
      elim (Option-cases (sources_of shards layer rest)) [
        | inl bad ↦ absurd (ground (arith, found, bad, e))
        | inr (ss', good) ↦ (ss', good, ground (arith, found, good, e))
      ]

module _ (shards : Shards) (layer experts expert base : ℕ) (lt : expert < experts) where
  slice_of-entry :
      (name : Text) (s : Source)
      → entry shards name ≡ some s
      → slice_of shards name expert experts ≡ some (slice_at experts s expert)
  unfolding slice_of
  slice_of-entry name s found =
      let some_expert : (experts == 0) ≡ false = ground (arith, lt) in
      rw (found, slice_of, some_expert) refl

  -- The parts of a block match, wherever the block stands.
  pub parts_match-write_block :
      (ps : List (Text × Text)) (cursor end : ℕ) (es : List PartEntry) (ss : List Source)
      (pre rest packed : List ℕ)
      → IsUniform shards layer ps
      → describe_from shards experts cursor ps ≡ some (es, end)
      → sources_of shards layer ps ≡ some ss
      → length pre ≡ base + cursor
      → packed ≡ pre ++ ((write_block experts expert ss).0 ++ rest)
      → parts_match shards packed base layer expert experts es ≡ true
  unfolding parts_match write_block
  parts_match-write_block [] cursor end es ss pre rest packed u d o at eq =
      subst (λ x. parts_match shards packed base layer expert experts x ≡ true)
        (describe_from-nil shards experts cursor end es d).0 refl
  parts_match-write_block ((projection, part) ∷ ps) cursor end es ss pre rest packed
        (s0, s, found0, found, alike, fits, u) d o at eq =
      let (es', d', es_eq) =
        describe_from-cons shards experts projection part ps cursor end es s0 found0 d in
      let (ss', o', ss_eq) = sources_of-cons shards experts layer projection part ps ss s found o in
      let slice = slice_at experts s expert in
      let block = (write_block experts expert ss').0 in
      let size : length slice ≡ s0.total / experts =
        length-slice_at experts s expert lt fits ∙ ap (λ t. t / experts) alike in
      let laid : packed ≡ pre ++ (slice ++ (block ++ rest)) =
        eq
        ∙ ap (λ x. pre ++ ((write_block experts expert x).0 ++ rest)) ss_eq
        ∙ ap (λ x. pre ++ x) (append_assoc slice block rest) in
      let first : take (s0.total / experts) (drop (base + cursor) packed) ≡ slice =
        ap (λ p. take (s0.total / experts) (drop (base + cursor) p)) laid
        ∙ take-drop-append (base + cursor) (s0.total / experts) pre slice (block ++ rest) at size in
      let later =
        parts_match-write_block ps (cursor + s0.total / experts) end es' ss' (pre ++ slice) rest
          packed u d' o' (omega (arith, length-append pre slice, at, size))
          (laid ∙ sym (append_assoc pre slice (block ++ rest))) in
      subst (λ x. parts_match shards packed base layer expert experts x ≡ true) (sym es_eq)
        (rw
          (
            slice_of-entry (tensor_name layer projection part) s found,
            parts_match,
            first,
            same_self slice,
          )
          later)
