-- ===== src/Cache/Refines.antt =====
-- SharedExpertCache as a memory that may forget: what its callers may rely on whatever the slots and the
-- order of eviction.
use edge.Base.{
  ◌≡◌, refl, ◌∙◌, ap, fun_ext, List, [], ◌∷◌, Option, none, some, lookup, store, ite, IsDict, arith,
  lookup-store, lookup-remove, store-IsDict, Bool-cases, inl, inr, ltb, ◌&&◌, length,
}
use edge.Cache.{SharedExpertCache, pop_oldest, get, peek, put, pop}
use edge.Cache.Laws.{IsValid, get-IsValid, put-IsValid, pop-IsValid, peek-put_self, get-peek}
use edge.Cache.Recency.{Call, call_get, call_put, call_pop}

-- What a memory holds for each key.
abbrev pub Memory : Type 0 → Type 0 → Type 0
Memory K V = K → Option V

module _ {K V : Type 0} (dec : Discrete K) where
  -- The memory after it has forgotten a key, or none.
  abbrev pub forget : Option K → Memory K V → Memory K V
  forget none m = m
  forget (some k) m = λ q. ite (dec q k) none (m q)

  -- One call of a forgetful memory: a get answers what the memory holds and changes nothing; a put holds the new value and may
  -- forget one other key; a pop answers what the memory holds and drops the key.
  abbrev pub SpecStep : Memory K V → Call K V → Option V → Memory K V → Type 0
  SpecStep m (call_get k) answer m' = (answer ≡ m k) × ((q : K) → m' q ≡ m q)
  SpecStep m (call_put k v) answer m' =
      (answer ≡ none)
      × (m' k ≡ some v)
      × ((o : Option K) × ((q : K) → m' q ≡ forget o (λ j. ite (dec j k) (some v) (m j)) q))
  SpecStep m (call_pop k) answer m' = (answer ≡ m k) × ((q : K) → m' q ≡ ite (dec q k) none (m q))

  -- A run of a forgetful memory that gives these answers to these calls.
  abbrev pub SpecRun : Memory K V → List (Call K V) → List (Option V) → Type 0
  SpecRun m [] [] = Unit
  SpecRun m [] (a ∷ outs) = ⊥
  SpecRun m (call ∷ calls) [] = ⊥
  SpecRun m (call ∷ calls) (a ∷ outs) =
      (m' : Memory K V) × SpecStep m call a m' × SpecRun m' calls outs

  -- A call of the cache: the cache after it, and the answer.
  abbrev pub call_cache : SharedExpertCache K V → Call K V → SharedExpertCache K V × Option V
  call_cache c (call_get k) = get dec c k
  call_cache c (call_put k v) = (put dec c k v, none)
  call_cache c (call_pop k) = pop dec c k

  unfoldable pub answers : SharedExpertCache K V → List (Call K V) → List (Option V)
  answers c [] = []
  answers c (call ∷ calls) = let (c', a) = call_cache c call in a ∷ answers c' calls

  lookup-pop_oldest :
      (d : List (K × V))
      → IsDict dec d
      → (o : Option K) × ((q : K) → lookup dec q (pop_oldest d) ≡ forget o (λ j. lookup dec j d) q)
  unfolding pop_oldest lookup
  lookup-pop_oldest [] h = (none, λ q. refl)
  lookup-pop_oldest ((k, v) ∷ d) h = (some k, λ q. ground arith)

  put-forget :
      (c : SharedExpertCache K V) (k : K) (v : V)
      → IsValid dec c
      → (o : Option K) × ((q : K)
          → peek dec (put dec c k v) q ≡ forget o (λ j. ite (dec j k) (some v) (peek dec c j)) q)
  unfolding put peek
  put-forget c k v h =
      let items = store dec k v c.items in
      let same = fun_ext (λ j. lookup-store dec j k v c.items) in
      elim (Bool-cases (ltb 0 c.slots && ltb c.slots (length items))) [
        | inr free ↦ (none, λ q. rw free (lookup-store dec q k v c.items))
        | inl full ↦
            let (o, e) = lookup-pop_oldest items (store-IsDict dec k v c.items h.distinct) in
            (o, λ q. rw full (e q ∙ ap (λ m. forget o m q) same))
      ]

  call_cache-SpecStep :
      (c : SharedExpertCache K V) (call : Call K V)
      → IsValid dec c
      → SpecStep (peek dec c) call (call_cache c call).1 (peek dec (call_cache c call).0)
  unfolding pop peek
  call_cache-SpecStep c (call_get k) h = ((get-peek dec c k k).0, λ q. (get-peek dec c k q).1)
  call_cache-SpecStep c (call_put k v) h = (refl, peek-put_self dec c k v h, put-forget c k v h)
  call_cache-SpecStep c (call_pop k) h = (refl, λ q. lookup-remove dec q k c.items)

  call_cache-IsValid :
      (c : SharedExpertCache K V) (call : Call K V)
      → IsValid dec c
      → IsValid dec (call_cache c call).0
  call_cache-IsValid c (call_get k) h = get-IsValid dec c k h
  call_cache-IsValid c (call_put k v) h = put-IsValid dec c k v h
  call_cache-IsValid c (call_pop k) h = pop-IsValid dec c k h

  -- Refinement: the answers of a well-formed cache to any calls are those of a run of a forgetful memory
  -- that starts with what the cache holds.
  pub answers-SpecRun :
      (c : SharedExpertCache K V) (calls : List (Call K V))
      → IsValid dec c
      → SpecRun (peek dec c) calls (answers c calls)
  unfolding answers
  answers-SpecRun c [] h = tt
  answers-SpecRun c (call ∷ calls) h = (
    peek dec (call_cache c call).0,
    call_cache-SpecStep c call h,
    answers-SpecRun (call_cache c call).0 calls (call_cache-IsValid c call h),
  )
