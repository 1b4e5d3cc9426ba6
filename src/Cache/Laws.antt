-- ===== src/Cache/Laws.antt =====
-- What the methods of SharedExpertCache do to its contents and its size.
use edge.Base.{
  ◌+◌, ◌≤◌, ◌<◌, ◌≡◌, refl, ◌⊎◌, inl, inr, List, [], ◌∷◌, none, some, length, lookup, store, IsDict,
  IsSound, arith, lookup-store, lookup-move_to_end, store-IsDict, remove-IsDict, move_to_end-IsDict,
  length-store, length-remove, length-move_to_end, lookup-IsSound, store-IsSound, remove-IsSound,
  move_to_end-IsSound, Option-cases,
}
use edge.Cache.{SharedExpertCache, pop_oldest, get, peek, put, pop}

module _ {ℓ} {K V : Type ℓ} (dec : Discrete K) where
  -- No key occurs twice, and a positive budget is kept. (`slots = 0` means no budget.)
  pub record IsValid (c : SharedExpertCache K V) : Type ℓ where
    pub distinct : IsDict dec c.items
    pub bounded : (c.slots ≡ 0) ⊎ (length c.items ≤ c.slots)

  pop_oldest-IsDict : (d : List (K × V)) → IsDict dec d → IsDict dec (pop_oldest d)
  unfolding pop_oldest
  pop_oldest-IsDict [] h = h
  pop_oldest-IsDict (e ∷ d) h = h.1

  length-pop_oldest : (d : List (K × V)) → 0 < length d → length (pop_oldest d) + 1 ≡ length d
  unfolding pop_oldest
  length-pop_oldest [] h = absurd (omega arith)
  length-pop_oldest (e ∷ d) h = omega arith

  pub get-IsValid : (c : SharedExpertCache K V) (key : K) → IsValid c → IsValid (get dec c key).0
  unfolding get
  get-IsValid c key h = elim (Option-cases (lookup dec key c.items)) [
    | inl e ↦ rw (e, get) h
    | inr (v, e) ↦
        rw (e, get)
          (record {
            distinct = move_to_end-IsDict dec key c.items h.distinct;
            bounded = ground (arith, h.bounded, length-move_to_end dec key c.items h.distinct);
          })
  ]

  -- `put` keeps the keys distinct and, with `slots` above 0, the cache within its slots.
  pub put-IsValid :
      (c : SharedExpertCache K V) (key : K) (v : V) → IsValid c → IsValid (put dec c key v)
  unfolding put
  put-IsValid c key v h =
      let items = store dec key v c.items in
      let distinct = store-IsDict dec key v c.items h.distinct in
      record {
        distinct = ground (arith, distinct, pop_oldest-IsDict items distinct);
        bounded =
            ground (arith, h.bounded, length-store dec key v c.items, length-pop_oldest items);
      }

  pub pop-IsValid : (c : SharedExpertCache K V) (key : K) → IsValid c → IsValid (pop dec c key).0
  unfolding pop
  pop-IsValid c key h = record {
    distinct = remove-IsDict dec key c.items h.distinct;
    bounded = ground (arith, h.bounded, length-remove dec key c.items h.distinct);
  }

  lookup-pop_oldest :
      (q : K) (d : List (K × V)) (v : V)
      → IsDict dec d
      → lookup dec q d ≡ none
      → lookup dec q (pop_oldest (store dec q v d)) ≡ some v ⊎ (d ≡ [])
  unfolding pop_oldest lookup store
  lookup-pop_oldest q [] v h e = inr refl
  lookup-pop_oldest q ((j, w) ∷ d) v h e = inl (ground (arith, lookup-store dec q q v d))

  -- A `get` or a `peek` right after a `put` finds the new bundle: `put` never evicts the entry
  -- that it has just written.
  pub peek-put_self :
      (c : SharedExpertCache K V) (key : K) (v : V)
      → IsValid c
      → peek dec (put dec c key v) key ≡ some v
  unfolding peek put
  peek-put_self c key v h = elim (Option-cases (lookup dec key c.items)) [
    | inr (w, e) ↦
        ground
          (arith, h.bounded, length-store dec key v c.items, lookup-store dec key key v c.items)
    | inl e ↦ ground (
      arith,
      lookup-pop_oldest key c.items v h.distinct e,
      lookup-store dec key key v c.items,
      length-store dec key v c.items,
    )
  ]

  -- A `get` changes what no later lookup sees, and answers like `peek`.
  pub get-peek :
      (c : SharedExpertCache K V) (key q : K)
      → ((get dec c key).1 ≡ peek dec c key) × (peek dec (get dec c key).0 q ≡ peek dec c q)
  unfolding get peek
  get-peek c key q = elim (Option-cases (lookup dec key c.items)) [
    | inl e ↦ rw (e, get) (refl, refl)
    | inr (v, e) ↦ rw (e, get) (refl, lookup-move_to_end dec q key c.items)
  ]

  pop_oldest-IsSound :
      (f : K → V) (d : List (K × V)) → IsSound dec f d → IsSound dec f (pop_oldest d)
  unfolding pop_oldest
  pop_oldest-IsSound f [] h = h
  pop_oldest-IsSound f (e ∷ d) h = h.1

  -- A cache that holds the value of `f` for each of its keys goes on doing so.
  pub get-IsSound :
      (f : K → V) (c : SharedExpertCache K V) (key : K)
      → IsSound dec f c.items
      → IsSound dec f (get dec c key).0.items
  unfolding get
  get-IsSound f c key h = elim (Option-cases (lookup dec key c.items)) [
    | inl e ↦ rw (e, get) h
    | inr (v, e) ↦ rw (e, get) (move_to_end-IsSound dec f key c.items h)
  ]

  pub get_hit-IsSound :
      (f : K → V) (c : SharedExpertCache K V) (key : K) (v : V)
      → IsSound dec f c.items
      → (get dec c key).1 ≡ some v
      → v ≡ f key
  unfolding peek
  get_hit-IsSound f c key v h e =
      lookup-IsSound dec f key c.items v h (ground (arith, (get-peek c key key).0))

  pub put-IsSound :
      (f : K → V) (c : SharedExpertCache K V) (key : K) (v : V)
      → IsSound dec f c.items
      → v ≡ f key
      → IsSound dec f (put dec c key v).items
  unfolding put
  put-IsSound f c key v h e =
      let stored = store-IsSound dec f key v c.items h e in
      ground (arith, stored, pop_oldest-IsSound f (store dec key v c.items) stored)

  pub pop-IsSound :
      (f : K → V) (c : SharedExpertCache K V) (key : K)
      → IsSound dec f c.items
      → IsSound dec f (pop dec c key).0.items
  unfolding pop
  pop-IsSound f c key h = remove-IsSound dec f key c.items h

  pub pop_hit-IsSound :
      (f : K → V) (c : SharedExpertCache K V) (key : K) (v : V)
      → IsSound dec f c.items
      → (pop dec c key).1 ≡ some v
      → v ≡ f key
  unfolding pop
  pop_hit-IsSound f c key v h e = lookup-IsSound dec f key c.items v h e
