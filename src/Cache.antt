-- ===== src/Cache.antt =====
-- python/src/edge0/streaming/cache.py, class SharedExpertCache: the LRU that all streaming layers
-- share. Each method holds the lock for its whole body, so a method is one step of the state.
pub mod Laws
pub mod Recency
pub mod Refines
use edge.Base.{
  ℕ, suc, List, [], ◌∷◌, Option, none, some, Bool, true, false, ◌&&◌, length, lookup, store, remove,
  move_to_end, ltb, if◌then◌else◌,
}

pub record SharedExpertCache {ℓ} (K V : Type ℓ) : Type ℓ where
  pub slots : ℕ
  pub items : List (K × V)

-- `popitem(last=False)`: the oldest entry goes.
unfoldable pub pop_oldest {ℓ} : {A : Type ℓ} → List A → List A
pop_oldest [] = []
pop_oldest (e ∷ d) = d

-- `SharedExpertCache(slots)`, for a number that is not negative.
unfoldable pub init {ℓ} : {K V : Type ℓ} → ℕ → SharedExpertCache K V
init slots = record { slots = slots; items = [] }

module _ {ℓ} {K V : Type ℓ} (dec : Discrete K) where
  unfoldable pub get : SharedExpertCache K V → K → SharedExpertCache K V × Option V
  get c key = elim (lookup dec key c.items) [
    | none ↦ (c, none)
    | some v ↦ (record c { items = move_to_end dec key c.items }, some v)
  ]

  unfoldable pub peek : SharedExpertCache K V → K → Option V
  peek c key = lookup dec key c.items

  unfoldable pub put : SharedExpertCache K V → K → V → SharedExpertCache K V
  unfolding pop_oldest
  put c key bundle =
      let items = store dec key bundle c.items in
      if ltb 0 c.slots && ltb c.slots (length items)
      then record c { items = pop_oldest items }
      else record c { items = items }

  unfoldable pub pop : SharedExpertCache K V → K → SharedExpertCache K V × Option V
  pop c key = (record c { items = remove dec key c.items }, lookup dec key c.items)

  unfoldable pub size : SharedExpertCache K V → ℕ
  size c = length c.items
