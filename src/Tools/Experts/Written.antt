-- ===== src/Tools/Experts/Written.antt =====
-- What `pack` writes: each layer is the blocks of its experts, one after the other.
use edge.Base.{
  ℕ, zero, suc, ◌+◌, ◌*◌, ◌/◌, ◌≤◌, ◌<◌, ◌≡◌, refl, sym, ap, subst, ◌∙◌, List, [], ◌∷◌, ◌++◌, some,
  arith, length, length-append, append_assoc,
}
use native.Mathlib.Nat.{add-zero, zero-mul, suc-mul}
use edge.Server.Text.{Text}
use edge.Tools.Experts.{Shards, Source, slice_at, PartEntry, describe_from}
use edge.Tools.Experts.Pack.{sources_of, write_block, write_layer}
use edge.Tools.Experts.Blocks.{
  IsUniform, describe_from-nil, describe_from-cons, sources_of-nil, sources_of-cons,
  length-slice_at,
}

module _ (shards : Shards) (experts : ℕ) where
  pub sources_of-some :
      (layer : ℕ) (ps : List (Text × Text))
      → IsUniform shards layer ps
      → (ss : List Source) × (sources_of shards layer ps ≡ some ss)
  unfolding sources_of
  sources_of-some layer [] u = ([], refl)
  sources_of-some layer ((projection, part) ∷ ps) (s0, s, found0, found, alike, fits, u) =
      let (ss, e) = sources_of-some layer ps u in (s ∷ ss, rw (found, e, sources_of) refl)

  -- What is counted for a block is where the layout of a block ends.
  pub write_block-counted :
      (layer expert : ℕ) (ps : List (Text × Text)) (cursor end : ℕ) (es : List PartEntry)
      (ss : List Source)
      → IsUniform shards layer ps
      → describe_from shards experts cursor ps ≡ some (es, end)
      → sources_of shards layer ps ≡ some ss
      → cursor + (write_block experts expert ss).1 ≡ end
  unfolding write_block
  write_block-counted layer expert [] cursor end es ss u d o =
      subst (λ x. cursor + (write_block experts expert x).1 ≡ end)
        (sources_of-nil shards experts layer ss o)
        (omega (arith, (describe_from-nil shards experts cursor end es d).1))
  write_block-counted layer expert ((projection, part) ∷ ps) cursor end es ss
        (s0, s, found0, found, alike, fits, u) d o =
      let (es', d', es_eq) =
        describe_from-cons shards experts projection part ps cursor end es s0 found0 d in
      let (ss', o', ss_eq) = sources_of-cons shards experts layer projection part ps ss s found o in
      let rest =
        write_block-counted layer expert ps (cursor + s0.total / experts) end es' ss' u d' o' in
      subst (λ x. cursor + (write_block experts expert x).1 ≡ end) (sym ss_eq)
        (omega (arith, rest, ap (λ t. t / experts) alike))

  pub length-write_block :
      (layer expert : ℕ) (ps : List (Text × Text)) (ss : List Source)
      → expert < experts
      → IsUniform shards layer ps
      → sources_of shards layer ps ≡ some ss
      → length (write_block experts expert ss).0 ≡ (write_block experts expert ss).1
  unfolding write_block
  length-write_block layer expert [] ss lt u o =
      subst (λ x. length (write_block experts expert x).0 ≡ (write_block experts expert x).1)
        (sources_of-nil shards experts layer ss o) refl
  length-write_block layer expert ((projection, part) ∷ ps) ss lt
        (s0, s, found0, found, alike, fits, u) o =
      let (ss', o', ss_eq) = sources_of-cons shards experts layer projection part ps ss s found o in
      let block = (write_block experts expert ss').0 in
      subst (λ x. length (write_block experts expert x).0 ≡ (write_block experts expert x).1)
        (sym ss_eq)
        (omega (
          arith,
          length-append (slice_at experts s expert) block,
          length-slice_at experts s expert lt fits,
          length-write_block layer expert ps ss' lt u o',
        ))

-- A layer whose blocks have one size.
module _ (experts size : ℕ) (ss : List Source)
    (counted : (expert : ℕ) → (write_block experts expert ss).1 ≡ size)
    (measured : (expert : ℕ)
      → expert < experts
      → length (write_block experts expert ss).0 ≡ size) where
  pub write_layer-counted : (n expert : ℕ) → (write_layer experts n expert ss).1 ≡ n * size
  unfolding write_layer
  write_layer-counted zero expert = sym (zero-mul size)
  write_layer-counted (suc n) expert =
      omega (arith, counted expert, write_layer-counted n (suc expert), suc-mul n size)

  pub length-write_layer :
      (n expert : ℕ) → expert + n ≤ experts → length (write_layer experts n expert ss).0 ≡ n * size
  unfolding write_layer
  length-write_layer zero expert h = sym (zero-mul size)
  length-write_layer (suc n) expert h = omega (
    arith,
    length-append (write_block experts expert ss).0 (write_layer experts n (suc expert) ss).0,
    measured expert (omega (arith, h)),
    length-write_layer n (suc expert) (omega (arith, h)),
    suc-mul n size,
  )

  -- The block of an expert stands behind the blocks of those before it.
  pub write_layer-block :
      (n expert i : ℕ)
      → i < n
      → expert + n ≤ experts
      → (pre : List ℕ) × (rest : List ℕ) × (length pre ≡ i * size)
        × ((write_layer experts n expert ss).0
            ≡ pre ++ ((write_block experts (expert + i) ss).0 ++ rest))
  unfolding write_layer
  write_layer-block zero expert i lt h = absurd (omega (arith, lt))
  write_layer-block (suc n) expert zero lt h =
      ([], (write_layer experts n (suc expert) ss).0, sym (zero-mul size), rw (add-zero) refl)
  write_layer-block (suc n) expert (suc i) lt h =
      let (pre, rest, at, eq) =
        write_layer-block n (suc expert) i (omega (arith, lt)) (omega (arith, h)) in
      let block = (write_block experts expert ss).0 in
      let shift : suc expert + i ≡ expert + suc i = omega arith in
      (
        block ++ pre,
        rest,
        omega (
          arith,
          length-append block pre,
          measured expert (omega (arith, h)),
          at,
          suc-mul i size,
        ),
        ap (λ x. block ++ x) eq
            ∙ sym (append_assoc block pre ((write_block experts (suc expert + i) ss).0 ++ rest))
            ∙ ap (λ k. (block ++ pre) ++ ((write_block experts k ss).0 ++ rest)) shift,
      )
