-- ===== src/CacheExamples.antt =====
-- A cache and a buffer of two slots that are full: the theorems of streaming/cache.py applied to them.
use edge.Base.{
  ℕ, ◌≡◌, refl, inr, [], ◌∷◌, none, some, lookup, ℕ_discrete, arith, store, ite, IsDict,
}
use edge.Cache
use edge.Buffer
use edge.Cache.Refines.{SpecRun, answers, answers-SpecRun}
use edge.Cache.Recency.{call_get, call_pop, call_put, run, peek-run_after_get}
use edge.Cache.Laws

-- A cache of two slots that is full.
abbrev two_slots : Cache.SharedExpertCache ℕ ℕ
two_slots = record { slots = 2; items = (1, 10) ∷ (2, 20) ∷ [] }

two_keys : IsDict ℕ_discrete two_slots.items
unfolding lookup ℕ_discrete
two_keys = (refl, (refl, tt))

two_slots-IsValid : Cache.Laws.IsValid ℕ_discrete two_slots
two_slots-IsValid = record { distinct = two_keys; bounded = inr (omega arith) }

hit_one : (Cache.get ℕ_discrete two_slots 1).1 ≡ some 10
unfolding Cache.get lookup ℕ_discrete
hit_one = refl

peek-run_after_get_example :
    Cache.peek ℕ_discrete
      (run ℕ_discrete (Cache.get ℕ_discrete two_slots 1).0 (call_put 3 30 ∷ []))
      1
    ≡ some 10
peek-run_after_get_example =
    peek-run_after_get ℕ_discrete two_slots 1 10 (call_put 3 30 ∷ []) two_slots-IsValid hit_one
      (inr (omega arith)) (λ h. ground (arith, h), tt)

abbrev small_buffer : Buffer.PrefetchBuffer ℕ ℕ
small_buffer = record { cap = 2; entries = (1, 10) ∷ (2, 20) ∷ [] }

small_buffer-IsValid : Buffer.Laws.IsValid ℕ_discrete small_buffer
small_buffer-IsValid = record { distinct = two_keys; bounded = inr (omega arith) }

lookup-put_example :
    lookup ℕ_discrete 1 (Buffer.put ℕ_discrete small_buffer 3 30).0.entries
    ≡ elim (Buffer.put ℕ_discrete small_buffer 3 30).1 [
      | none ↦ lookup ℕ_discrete 1 (store ℕ_discrete 3 30 small_buffer.entries)
      | some k ↦
          ite
            (ℕ_discrete 1 k)
            none
            (lookup ℕ_discrete 1 (store ℕ_discrete 3 30 small_buffer.entries))
    ]
lookup-put_example = Buffer.Laws.lookup-put ℕ_discrete small_buffer 3 1 30 small_buffer-IsValid

answers-SpecRun_example :
    SpecRun ℕ_discrete
      (Cache.peek ℕ_discrete two_slots)
      (call_put 3 30 ∷ call_get 1 ∷ call_pop 2 ∷ [])
      (answers ℕ_discrete two_slots (call_put 3 30 ∷ call_get 1 ∷ call_pop 2 ∷ []))
answers-SpecRun_example =
    answers-SpecRun ℕ_discrete two_slots (call_put 3 30 ∷ call_get 1 ∷ call_pop 2 ∷ [])
      two_slots-IsValid
