-- ===== src/Buffer/Laws.antt =====
-- What PrefetchBuffer keeps and what it reports as evicted.
use edge.Base.{
  ◌+◌, ◌≤◌, ◌<◌, ◌≡◌, refl, ◌⊎◌, inl, inr, List, [], ◌∷◌, none, some, ◌&&◌, length, lookup, store,
  IsDict, IsSound, arith, store-IsDict, remove-IsDict, length-store, length-remove, lookup-IsSound,
  store-IsSound, remove-IsSound, Bool-cases, ltb, ite,
}
use edge.Buffer.{PrefetchBuffer, pop_first, put, pop}

module _ {ℓ} {K V : Type ℓ} (dec : Discrete K) where
  pub record IsValid (b : PrefetchBuffer K V) : Type ℓ where
    pub distinct : IsDict dec b.entries
    pub bounded : (b.cap ≡ 0) ⊎ (length b.entries ≤ b.cap)

  pop_first-IsDict : (d : List (K × V)) → IsDict dec d → IsDict dec (pop_first d).0
  unfolding pop_first
  pop_first-IsDict [] h = h
  pop_first-IsDict ((k, v) ∷ d) h = h.1

  length-pop_first : (d : List (K × V)) → 0 < length d → length (pop_first d).0 + 1 ≡ length d
  unfolding pop_first
  length-pop_first [] h = absurd (omega arith)
  length-pop_first ((k, v) ∷ d) h = omega arith

  pub put-IsValid :
      (b : PrefetchBuffer K V) (key : K) (v : V) → IsValid b → IsValid (put dec b key v).0
  unfolding put
  put-IsValid b key v h =
      let entries = store dec key v b.entries in
      let distinct = store-IsDict dec key v b.entries h.distinct in
      record {
        distinct = ground (arith, distinct, pop_first-IsDict entries distinct);
        bounded =
            ground (arith, h.bounded, length-store dec key v b.entries, length-pop_first entries);
      }

  pub pop-IsValid : (b : PrefetchBuffer K V) (key : K) → IsValid b → IsValid (pop dec b key).0
  unfolding pop
  pop-IsValid b key h = record {
    distinct = remove-IsDict dec key b.entries h.distinct;
    bounded = ground (arith, h.bounded, length-remove dec key b.entries h.distinct);
  }

  lookup-pop_first :
      (q : K) (d : List (K × V))
      → IsDict dec d
      → lookup dec q (pop_first d).0 ≡ elim (pop_first d).1 [
        | none ↦ lookup dec q d
        | some k ↦ ite (dec q k) none (lookup dec q d)
      ]
  unfolding pop_first lookup
  lookup-pop_first q [] h = refl
  lookup-pop_first q ((k, v) ∷ d) h = ground arith

  -- After a `put` every key reads as in an unbounded dictionary, except the one that `put` reports
  -- as evicted, which is gone.
  pub lookup-put :
      (b : PrefetchBuffer K V) (key q : K) (v : V)
      → IsValid b
      → lookup dec q (put dec b key v).0.entries ≡ elim (put dec b key v).1 [
        | none ↦ lookup dec q (store dec key v b.entries)
        | some k ↦ ite (dec q k) none (lookup dec q (store dec key v b.entries))
      ]
  unfolding put
  lookup-put b key q v h =
      let entries = store dec key v b.entries in
      elim (Bool-cases (ltb 0 b.cap && ltb b.cap (length entries))) [
        | inl full ↦
            rw full (lookup-pop_first q entries (store-IsDict dec key v b.entries h.distinct))
        | inr free ↦ rw free refl
      ]

  pop_first-IsSound :
      (f : K → V) (d : List (K × V)) → IsSound dec f d → IsSound dec f (pop_first d).0
  unfolding pop_first
  pop_first-IsSound f [] h = h
  pop_first-IsSound f ((k, v) ∷ d) h = h.1

  pub put-IsSound :
      (f : K → V) (b : PrefetchBuffer K V) (key : K) (v : V)
      → IsSound dec f b.entries
      → v ≡ f key
      → IsSound dec f (put dec b key v).0.entries
  unfolding put
  put-IsSound f b key v h e =
      let stored = store-IsSound dec f key v b.entries h e in
      ground (arith, stored, pop_first-IsSound f (store dec key v b.entries) stored)

  pub pop-IsSound :
      (f : K → V) (b : PrefetchBuffer K V) (key : K)
      → IsSound dec f b.entries
      → IsSound dec f (pop dec b key).0.entries
  unfolding pop
  pop-IsSound f b key h = remove-IsSound dec f key b.entries h

  pub pop_hit-IsSound :
      (f : K → V) (b : PrefetchBuffer K V) (key : K) (v : V)
      → IsSound dec f b.entries
      → (pop dec b key).1 ≡ some v
      → v ≡ f key
  unfolding pop
  pop_hit-IsSound f b key v h e = lookup-IsSound dec f key b.entries v h e
