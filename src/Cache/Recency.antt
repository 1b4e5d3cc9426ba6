-- ===== src/Cache/Recency.antt =====
-- SharedExpertCache evicts by recency of use: how far an entry is from being evicted.
use edge.Base.{
  ℕ, suc, ◌+◌, ◌≤◌, ◌<◌, ◌≡◌, ◌≢◌, ◌⊎◌, inl, inr, List, [], ◌∷◌, ◌++◌, none, some, length, lookup,
  store, remove, move_to_end, arith, lookup-store, lookup-remove, lookup-move_to_end, length-store,
  length-append, Option-cases, Bool-cases, ltb, ◌&&◌, ◌∙◌,
}
use edge.Cache.{SharedExpertCache, pop_oldest, get, peek, put, pop}
use edge.Cache.Laws.{IsValid, get-IsValid, put-IsValid, pop-IsValid}

-- A call of one of the methods that change the cache.
pub data Call {ℓ} (K V : Type ℓ) : Type ℓ where
  call_get : K → Call K V
  call_put : K → V → Call K V
  call_pop : K → Call K V

module _ {ℓ} {K V : Type ℓ} (dec : Discrete K) where
  -- The number of entries that are more recent than the key's.
  unfoldable pub behind : K → List (K × V) → ℕ
  behind k [] = 0
  behind k ((j, w) ∷ d) = elim (dec k j) [ yes _ ↦ length d | no _ ↦ behind k d ]

  unfoldable pub run : SharedExpertCache K V → List (Call K V) → SharedExpertCache K V
  run c [] = c
  run c (call_get k ∷ calls) = run (get dec c k).0 calls
  run c (call_put k v ∷ calls) = run (put dec c k v) calls
  run c (call_pop k ∷ calls) = run (pop dec c k).0 calls

  -- None of the calls writes or removes the key.
  abbrev pub Spares : K → List (Call K V) → Type ℓ
  Spares k [] = Unit
  Spares k (call_get j ∷ calls) = Spares k calls
  Spares k (call_put j v ∷ calls) = (k ≢ j) × Spares k calls
  Spares k (call_pop j ∷ calls) = (k ≢ j) × Spares k calls

  behind-lt : (k : K) (d : List (K × V)) (v : V) → lookup dec k d ≡ some v → behind k d < length d
  unfolding lookup behind
  behind-lt k [] v h = absurd (ground arith)
  behind-lt k ((j, w) ∷ d) v h = ground (arith, behind-lt k d v)

  length-remove-le : (k : K) (d : List (K × V)) → length (remove dec k d) ≤ length d
  unfolding remove
  length-remove-le k [] = omega arith
  length-remove-le k ((j, w) ∷ d) = ground (arith, length-remove-le k d)

  behind-remove-le : (k q : K) (d : List (K × V)) → k ≢ q → behind k (remove dec q d) ≤ behind k d
  unfolding behind remove
  behind-remove-le k q [] h = omega arith
  behind-remove-le k q ((j, w) ∷ d) h =
      ground (arith, behind-remove-le k q d h, length-remove-le q d)

  behind-append :
      (k q : K) (w : V) (d : List (K × V)) (v : V)
      → lookup dec k d ≡ some v
      → behind k (d ++ (q, w) ∷ []) ≡ behind k d + 1
  unfolding lookup behind
  behind-append k q w [] v h = absurd (ground arith)
  behind-append k q w ((j, x) ∷ d) v h =
      ground (arith, behind-append k q w d v, length-append d ((q, w) ∷ []))

  behind_fresh :
      (k : K) (w : V) (d : List (K × V)) → lookup dec k d ≡ none → behind k (d ++ (k, w) ∷ []) ≡ 0
  unfolding lookup behind
  behind_fresh k w [] h = ground arith
  behind_fresh k w ((j, x) ∷ d) h = ground (arith, behind_fresh k w d)

  behind-store-le :
      (k q : K) (w : V) (d : List (K × V)) (v : V)
      → k ≢ q
      → lookup dec k d ≡ some v
      → behind k (store dec q w d) ≤ behind k d + 1
  unfolding lookup behind store
  behind-store-le k q w [] v h e = absurd (ground arith)
  behind-store-le k q w ((j, x) ∷ d) v h e =
      ground (arith, behind-store-le k q w d v h, length-store dec q w d)

  -- An entry that is not the oldest survives `popitem`.
  lookup-pop_oldest :
      (k : K) (d : List (K × V)) (v : V)
      → lookup dec k d ≡ some v
      → suc (behind k d) < length d
      → (lookup dec k (pop_oldest d) ≡ some v) × (behind k (pop_oldest d) ≡ behind k d)
  unfolding lookup behind pop_oldest
  lookup-pop_oldest k [] v h e = absurd (ground arith)
  lookup-pop_oldest k ((j, x) ∷ d) v h e = ground arith

  -- The key is there with this value, and can take `left` more calls.
  record Holds (k : K) (v : V) (left : ℕ) (c : SharedExpertCache K V) : Type ℓ where
    valid : IsValid dec c
    found : lookup dec k c.items ≡ some v
    room : (c.slots ≡ 0) ⊎ (behind k c.items + left < c.slots)

  behind-move_to_end-le :
      (k q : K) (d : List (K × V)) (v : V)
      → lookup dec k d ≡ some v
      → behind k (move_to_end dec q d) ≤ behind k d + 1
  unfolding move_to_end
  behind-move_to_end-le k q d v h = elim (Option-cases (lookup dec q d)) [
    | inl e ↦ rw (e, move_to_end) (omega arith)
    | inr (w, e) ↦
        rw (e, move_to_end)
          (elim (dec k q) [
            | yes p ↦ rw p (
                omega (
                  arith,
                  behind_fresh q w (remove dec q d) (ground (arith, lookup-remove dec q q d)),
                ))
            | no n ↦ omega (
              arith,
              behind-append k q w (remove dec q d) v (ground (arith, lookup-remove dec k q d)),
              behind-remove-le k q d n,
            )
          ])
  ]

  Holds-get :
      (k q : K) (v : V) (left : ℕ) (c : SharedExpertCache K V)
      → Holds k v (suc left) c
      → Holds k v left (get dec c q).0
  unfolding get
  Holds-get k q v left c h = elim (Option-cases (lookup dec q c.items)) [
    | inl e ↦
        rw (e, get) (record { valid = h.valid; found = h.found; room = ground (arith, h.room) })
    | inr (w, e) ↦ record {
      valid = get-IsValid dec c q h.valid;
      found = rw (e, get) (lookup-move_to_end dec k q c.items ∙ h.found);
      room = rw (e, get) (ground (arith, h.room, behind-move_to_end-le k q c.items v h.found));
    }
  ]

  Holds-pop :
      (k q : K) (v : V) (left : ℕ) (c : SharedExpertCache K V)
      → k ≢ q
      → Holds k v (suc left) c
      → Holds k v left (pop dec c q).0
  unfolding pop
  Holds-pop k q v left c n h = record {
    valid = pop-IsValid dec c q h.valid;
    found = ground (arith, h.found, lookup-remove dec k q c.items);
    room = ground (arith, h.room, behind-remove-le k q c.items n);
  }

  Holds-put :
      (k q : K) (v w : V) (left : ℕ) (c : SharedExpertCache K V)
      → k ≢ q
      → Holds k v (suc left) c
      → Holds k v left (put dec c q w)
  unfolding put
  Holds-put k q v w left c n h =
      let items = store dec q w c.items in
      let kept : lookup dec k items ≡ some v =
        ground (arith, h.found, lookup-store dec k q w c.items) in
      let near = behind-store-le k q w c.items v n h.found in
      let spared = lookup-pop_oldest k items v kept in
      record {
        valid = put-IsValid dec c q w h.valid;
        found = elim (Bool-cases (ltb 0 c.slots && ltb c.slots (length items))) [
          | inl full ↦ rw full (spared (ground (arith, h.room))).0
          | inr free ↦ rw free kept
        ];
        room = elim (Bool-cases (ltb 0 c.slots && ltb c.slots (length items))) [
          | inl full ↦ rw full (ground (arith, h.room, (spared (ground (arith, h.room))).1))
          | inr free ↦ rw free (ground (arith, h.room))
        ];
      }

  run-Holds :
      (k : K) (v : V) (calls : List (Call K V)) (c : SharedExpertCache K V)
      → Spares k calls
      → Holds k v (length calls) c
      → lookup dec k (run c calls).items ≡ some v
  unfolding run
  run-Holds k v [] c s h = h.found
  run-Holds k v (call_get q ∷ calls) c s h =
      run-Holds k v calls (get dec c q).0 s (Holds-get k q v (length calls) c h)
  run-Holds k v (call_put q w ∷ calls) c s h =
      run-Holds k v calls (put dec c q w) s.1 (Holds-put k q v w (length calls) c s.0 h)
  run-Holds k v (call_pop q ∷ calls) c s h =
      run-Holds k v calls (pop dec c q).0 s.1 (Holds-pop k q v (length calls) c s.0 h)

  Holds-after_hit :
      (k : K) (v : V) (left : ℕ) (c : SharedExpertCache K V)
      → IsValid dec c
      → (get dec c k).1 ≡ some v
      → (c.slots ≡ 0) ⊎ (left < c.slots)
      → Holds k v left (get dec c k).0
  unfolding get move_to_end
  Holds-after_hit k v left c valid hit room = elim (Option-cases (lookup dec k c.items)) [
    | inl e ↦ absurd (ground arith)
    | inr (w, e) ↦ record {
      valid = get-IsValid dec c k valid;
      found = rw (e, get) (lookup-move_to_end dec k k c.items ∙ ground arith);
      room =
          rw (e, get, move_to_end)
            (rw (e, move_to_end)
              (ground (
                arith,
                room,
                behind_fresh k w (remove dec k c.items)
                    (ground (arith, lookup-remove dec k k c.items)),
              )));
    }
  ]

  -- Least recently used: after a `get` that finds the key, any fewer than `slots` calls that do not
  -- write or remove the key leave it in the cache with its bundle. With `slots` 0 any number does.
  pub peek-run_after_get :
      (c : SharedExpertCache K V) (k : K) (v : V) (calls : List (Call K V))
      → IsValid dec c
      → (get dec c k).1 ≡ some v
      → (c.slots ≡ 0) ⊎ (length calls < c.slots)
      → Spares k calls
      → peek dec (run (get dec c k).0 calls) k ≡ some v
  unfolding peek
  peek-run_after_get c k v calls valid hit room spares =
      run-Holds k v calls (get dec c k).0 spares
        (Holds-after_hit k v (length calls) c valid hit room)
