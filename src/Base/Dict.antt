-- ===== src/Base/Dict.antt =====
-- Python's ordered dictionaries as association lists, the oldest entry first.
use Prim.Native.Nat.{◌+◌}
use mathlib.Core.Path.{◌≡◌, refl}
use mathlib.Core.Logic.{ite, inl, inr}
use mathlib.Core.List.{List, [], ◌∷◌, ◌++◌, map, lookup}
use mathlib.Core.Option.{none, some}
use native.Mathlib.Omega.{arith}
use edge.Base.Lists.{length, length-append}
use edge.Base.Tests.{Option-cases}

module _ {ℓ} {K V : Type ℓ} where
  abbrev pub keys : List (K × V) → List K
  keys = map (λ e. e.0)

module _ {ℓ} {K V : Type ℓ} (dec : Discrete K) where
  -- `d[k] = v`: a present key keeps its place, a new key goes to the end.
  unfoldable pub store : K → V → List (K × V) → List (K × V)
  store k v [] = (k, v) ∷ []
  store k v ((j, w) ∷ d) = ite (dec k j) ((k, v) ∷ d) ((j, w) ∷ store k v d)

  -- `d.pop(k, None)`, as far as it changes `d`.
  unfoldable pub remove : K → List (K × V) → List (K × V)
  remove k [] = []
  remove k ((j, w) ∷ d) = ite (dec k j) (remove k d) ((j, w) ∷ remove k d)

  -- `d.move_to_end(k)`
  unfoldable pub move_to_end : K → List (K × V) → List (K × V)
  move_to_end k d = elim (lookup dec k d) [ none ↦ d | some v ↦ remove k d ++ (k, v) ∷ [] ]

  -- No key occurs twice.
  abbrev pub IsDict : List (K × V) → Type ℓ
  IsDict [] = Unit
  IsDict ((k, v) ∷ d) = (lookup dec k d ≡ none) × IsDict d

  pub lookup-store :
      (q k : K) (v : V) (d : List (K × V))
      → lookup dec q (store k v d) ≡ ite (dec q k) (some v) (lookup dec q d)
  unfolding lookup store
  lookup-store q k v [] = ground arith
  lookup-store q k v ((j, w) ∷ d) = ground (arith, lookup-store q k v d)

  pub lookup-remove :
      (q k : K) (d : List (K × V)) → lookup dec q (remove k d) ≡ ite (dec q k) none (lookup dec q d)
  unfolding lookup remove
  lookup-remove q k [] = ground arith
  lookup-remove q k ((j, w) ∷ d) = ground (arith, lookup-remove q k d)

  pub lookup-append :
      (q : K) (d d' : List (K × V))
      → lookup dec q (d ++ d') ≡ elim (lookup dec q d) [ none ↦ lookup dec q d' | some v ↦ some v ]
  unfolding lookup
  lookup-append q [] d' = refl
  lookup-append q ((j, w) ∷ d) d' = ground (arith, lookup-append q d d')

  -- Moving an entry to the end changes nothing that a lookup sees.
  pub lookup-move_to_end :
      (q k : K) (d : List (K × V)) → lookup dec q (move_to_end k d) ≡ lookup dec q d
  unfolding lookup move_to_end
  lookup-move_to_end q k d = elim (Option-cases (lookup dec k d)) [
    | inl e ↦ rw (e, move_to_end)
    | inr (v, e) ↦
        rw (e, move_to_end)
          (ground (arith, lookup-append q (remove k d) ((k, v) ∷ []), lookup-remove q k d))
  ]

  pub store-IsDict : (k : K) (v : V) (d : List (K × V)) → IsDict d → IsDict (store k v d)
  unfolding lookup store
  store-IsDict k v [] h = ground arith
  store-IsDict k v ((j, w) ∷ d) h = ground (arith, store-IsDict k v d h.1, lookup-store j k v d)

  pub remove-IsDict : (k : K) (d : List (K × V)) → IsDict d → IsDict (remove k d)
  unfolding lookup remove
  remove-IsDict k [] h = tt
  remove-IsDict k ((j, w) ∷ d) h = ground (arith, remove-IsDict k d h.1, lookup-remove j k d)

  pub append-IsDict :
      (k : K) (v : V) (d : List (K × V))
      → IsDict d
      → lookup dec k d ≡ none
      → IsDict (d ++ (k, v) ∷ [])
  unfolding lookup
  append-IsDict k v [] h e = ground arith
  append-IsDict k v ((j, w) ∷ d) h e =
      ground (arith, append-IsDict k v d h.1, lookup-append j d ((k, v) ∷ []))

  pub move_to_end-IsDict : (k : K) (d : List (K × V)) → IsDict d → IsDict (move_to_end k d)
  unfolding move_to_end
  move_to_end-IsDict k d h = elim (Option-cases (lookup dec k d)) [
    | inl e ↦ rw (e, move_to_end) h
    | inr (v, e) ↦
        rw (e, move_to_end)
          (append-IsDict k v (remove k d) (remove-IsDict k d h)
            (ground (arith, lookup-remove k k d)))
  ]

  -- The length after a removal and after a store.
  pub remove_absent : (k : K) (d : List (K × V)) → lookup dec k d ≡ none → remove k d ≡ d
  unfolding lookup remove
  remove_absent k [] h = refl
  remove_absent k ((j, w) ∷ d) h = ground (arith, remove_absent k d)

  pub length-remove :
      (k : K) (d : List (K × V))
      → IsDict d
      → length d ≡ length (remove k d) + (elim (lookup dec k d) [ none ↦ 0 | some _ ↦ 1 ])
  unfolding lookup remove
  length-remove k [] h = omega arith
  length-remove k ((j, w) ∷ d) h = ground (arith, length-remove k d h.1, remove_absent k d)

  pub length-move_to_end :
      (k : K) (d : List (K × V)) → IsDict d → length (move_to_end k d) ≡ length d
  unfolding move_to_end
  length-move_to_end k d h = elim (Option-cases (lookup dec k d)) [
    | inl e ↦ rw (e, move_to_end)
    | inr (v, e) ↦
        rw (e, move_to_end)
          (ground (arith, length-append (remove k d) ((k, v) ∷ []), length-remove k d h))
  ]

  pub length-store :
      (k : K) (v : V) (d : List (K × V))
      → length (store k v d) ≡ length d + (elim (lookup dec k d) [ none ↦ 1 | some _ ↦ 0 ])
  unfolding lookup store
  length-store k v [] = omega arith
  length-store k v ((j, w) ∷ d) = ground (arith, length-store k v d)

  -- A new key goes behind all others.
  pub store-append :
      (k : K) (v : V) (d : List (K × V)) → lookup dec k d ≡ none → store k v d ≡ d ++ (k, v) ∷ []
  unfolding lookup store
  store-append k v [] h = refl
  store-append k v ((j, w) ∷ d) h = ground (arith, store-append k v d)

  -- Every value is the one that `f` gives for its key.
  abbrev pub IsSound : (K → V) → List (K × V) → Type ℓ
  IsSound f [] = Unit
  IsSound f ((k, v) ∷ d) = (v ≡ f k) × IsSound f d

  module _ (f : K → V) where
    pub lookup-IsSound :
        (k : K) (d : List (K × V)) (v : V) → IsSound f d → lookup dec k d ≡ some v → v ≡ f k
    unfolding lookup
    lookup-IsSound k [] v h e = cc
    lookup-IsSound k ((j, w) ∷ d) v h e = ground (arith, lookup-IsSound k d v h.1)

    pub store-IsSound :
        (k : K) (v : V) (d : List (K × V)) → IsSound f d → v ≡ f k → IsSound f (store k v d)
    unfolding store
    store-IsSound k v [] h e = ground arith
    store-IsSound k v ((j, w) ∷ d) h e = ground (arith, store-IsSound k v d h.1)

    pub remove-IsSound : (k : K) (d : List (K × V)) → IsSound f d → IsSound f (remove k d)
    unfolding remove
    remove-IsSound k [] h = tt
    remove-IsSound k ((j, w) ∷ d) h = ground (arith, remove-IsSound k d h.1)

    pub append-IsSound :
        (k : K) (v : V) (d : List (K × V)) → IsSound f d → v ≡ f k → IsSound f (d ++ (k, v) ∷ [])
    append-IsSound k v [] h e = (e, tt)
    append-IsSound k v ((j, w) ∷ d) h e = (h.0, append-IsSound k v d h.1 e)

    pub move_to_end-IsSound : (k : K) (d : List (K × V)) → IsSound f d → IsSound f (move_to_end k d)
    unfolding move_to_end
    move_to_end-IsSound k d h = elim (Option-cases (lookup dec k d)) [
      | inl e ↦ rw (e, move_to_end) h
      | inr (v, e) ↦
          rw (e, move_to_end)
            (append-IsSound k v (remove k d) (remove-IsSound k d h) (lookup-IsSound k d v h e))
    ]
