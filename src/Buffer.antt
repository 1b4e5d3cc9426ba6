-- ===== src/Buffer.antt =====
-- python/src/edge0/streaming/cache.py, class PrefetchBuffer: built bundles that no layer has used.
pub mod Laws
use edge.Base.{
  ℕ, zero, suc, List, [], ◌∷◌, Option, none, some, Bool, true, false, ◌&&◌, length, lookup, store,
  remove, ltb, if◌then◌else◌,
}

pub record PrefetchBuffer {ℓ} (K V : Type ℓ) : Type ℓ where
  pub cap : ℕ
  pub entries : List (K × V)

-- `popitem(last=False)[0]`: the key of the oldest entry, and the rest.
unfoldable pub pop_first {ℓ} : {K V : Type ℓ} → List (K × V) → List (K × V) × Option K
pop_first [] = ([], none)
pop_first ((k, v) ∷ d) = (d, some k)

unfoldable pub init {ℓ} : {K V : Type ℓ} → ℕ → PrefetchBuffer K V
init cap = record { cap = cap; entries = [] }

module _ {ℓ} {K V : Type ℓ} (dec : Discrete K) where
  -- The new buffer and the key that was evicted, if one was.
  unfoldable pub put : PrefetchBuffer K V → K → V → PrefetchBuffer K V × Option K
  unfolding pop_first
  put b key bundle =
      let entries = store dec key bundle b.entries in
      if ltb 0 b.cap && ltb b.cap (length entries)
      then (record b { entries = (pop_first entries).0 }, (pop_first entries).1)
      else (record b { entries = entries }, none)

  unfoldable pub pop : PrefetchBuffer K V → K → PrefetchBuffer K V × Option V
  pop b key = (record b { entries = remove dec key b.entries }, lookup dec key b.entries)

  unfoldable pub contains : PrefetchBuffer K V → K → Bool
  contains b key = elim (lookup dec key b.entries) [ none ↦ false | some _ ↦ true ]

unfoldable pub set_cap {ℓ} : {K V : Type ℓ} → PrefetchBuffer K V → ℕ → PrefetchBuffer K V
set_cap b cap = record b { cap = cap }
