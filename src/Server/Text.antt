-- ===== src/Server/Text.antt =====
-- Python's `str`, as far as python/src/edge0/server uses it: a text is its code points. Which code
-- points are white space is an argument.
pub mod Laws
pub mod Member
use Prim.Native.Char.{code}
use Prim.Native.String.{String}
use edge.Base.{
  ℕ, List, [], ◌∷◌, Option, none, some, Bool, true, false, ◌&&◌, length, drop, if◌then◌else◌, ◌==◌,
}

abbrev pub Text : Type 0
Text = List ℕ

-- The code points of a literal.
abbrev pub codes : String → Text
codes String.[] = []
codes (String.◌∷◌ c s) = code c ∷ codes s

-- `s == t`
unfoldable pub same : Text → Text → Bool
same [] [] = true
same [] (d ∷ t) = false
same (c ∷ s) [] = false
same (c ∷ s) (d ∷ t) = (c == d) && same s t

-- `text.startswith(prefix)`
unfoldable pub startswith : Text → Text → Bool
startswith text [] = true
startswith [] (p ∷ prefix) = false
startswith (c ∷ text) (p ∷ prefix) = (c == p) && startswith text prefix

-- `text[len(prefix):]` if the text starts with the prefix.
unfoldable pub literal : Text → Text → Option Text
unfolding startswith
literal prefix text = if startswith text prefix then some (drop (length prefix) text) else none

unfoldable pub lstrip : (ℕ → Bool) → Text → Text
lstrip p [] = []
lstrip p (c ∷ s) = let rest = lstrip p s in if p c then rest else c ∷ s

unfoldable pub put_back : (ℕ → Bool) → ℕ → Text → Text
put_back p c [] = if p c then [] else c ∷ []
put_back p c (d ∷ s) = c ∷ d ∷ s

unfoldable pub rstrip : (ℕ → Bool) → Text → Text
unfolding put_back
rstrip p [] = []
rstrip p (c ∷ s) = put_back p c (rstrip p s)

unfoldable pub strip : (ℕ → Bool) → Text → Text
unfolding lstrip rstrip
strip p s = rstrip p (lstrip p s)

unfoldable pub cons_fst {ℓ} : {A : Type ℓ} → ℕ → Option (Text × A) → Option (Text × A)
cons_fst c none = none
cons_fst c (some (s, a)) = some (c ∷ s, a)

-- The shortest text before a place from which `next` succeeds: `.*?` before the rest of a pattern, and
-- also the search for the first match of a pattern.
unfoldable pub lazy {ℓ} : {A : Type ℓ} → (Text → Option A) → Text → Option (Text × A)
unfolding cons_fst
lazy next [] = elim (next []) [ none ↦ none | some a ↦ some ([], a) ]
lazy next (c ∷ s) =
    let rest = lazy next s in elim (next (c ∷ s)) [ none ↦ cons_fst c rest | some a ↦ some ([], a) ]

-- `text.split(sep, 1)` if `sep` occurs: what stands before its first occurrence, and after it.
unfoldable pub cut : Text → Text → Option (Text × Text)
unfolding literal lazy
cut sep text = lazy (literal sep) text
