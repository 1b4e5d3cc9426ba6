-- ===== src/Base/Sets.antt =====
-- Membership in lists of numbers, and `sorted({...})`.
use Prim.Native.Nat.{ℕ, zero, suc, ◌+◌, ◌≤◌, ◌<◌, compare, Ordering}
use mathlib.Core.Path.{◌≡◌, refl}
use mathlib.Core.List.{List, [], ◌∷◌}
use mathlib.Core.Bool.{Bool, true, false, ◌||◌}
use native.Mathlib.Omega.{arith}
use edge.Base.Tests.{◌==◌, if◌then◌else◌}
use edge.Base.Lists.{length, take}

-- `e in l`
unfoldable pub contains : ℕ → List ℕ → Bool
contains e [] = false
contains e (x ∷ xs) = (x == e) || contains e xs

-- No element occurs twice.
abbrev pub IsDistinct : List ℕ → Type 0
IsDistinct [] = Unit
IsDistinct (x ∷ xs) = (contains x xs ≡ false) × IsDistinct xs

-- Every element of the one list is in the other.
abbrev pub IsSubset : List ℕ → List ℕ → Type 0
IsSubset xs ys = (e : ℕ) → contains e xs ≡ true → contains e ys ≡ true

-- Every element is below the bound.
abbrev pub AllBelow : ℕ → List ℕ → Type 0
AllBelow n [] = Unit
AllBelow n (x ∷ xs) = (x < n) × AllBelow n xs

pub contains-AllBelow : (n e : ℕ) (xs : List ℕ) → AllBelow n xs → contains e xs ≡ true → e < n
unfolding contains
contains-AllBelow n e [] h m = absurd (ground arith)
contains-AllBelow n e (x ∷ xs) h m = ground (arith, contains-AllBelow n e xs h.1)

-- One element put into an ascending list, unless it is there.
unfoldable pub insert_sorted : ℕ → List ℕ → List ℕ
insert_sorted a [] = a ∷ []
insert_sorted a (b ∷ l) = elim (compare a b) [
  | Ordering.lt ↦ a ∷ b ∷ l
  | Ordering.eq ↦ b ∷ l
  | Ordering.gt ↦ b ∷ insert_sorted a l
]

-- `sorted({int(e) for e in l})`
unfoldable pub sorted_set : List ℕ → List ℕ
unfolding insert_sorted
sorted_set [] = []
sorted_set (x ∷ xs) = insert_sorted x (sorted_set xs)

-- Strictly ascending, from above `low`.
abbrev pub IsAscending : ℕ → List ℕ → Type 0
IsAscending low [] = Unit
IsAscending low (x ∷ xs) = (low ≤ x) × IsAscending (suc x) xs

contains-insert_sorted :
    (e a : ℕ) (l : List ℕ) → contains e (insert_sorted a l) ≡ (a == e) || contains e l
unfolding contains insert_sorted
contains-insert_sorted e a [] = refl
contains-insert_sorted e a (b ∷ l) = ground (arith, contains-insert_sorted e a l)

-- `sorted({...})` holds the same numbers.
pub contains-sorted_set : (e : ℕ) (l : List ℕ) → contains e (sorted_set l) ≡ contains e l
unfolding contains sorted_set
contains-sorted_set e [] = refl
contains-sorted_set e (x ∷ xs) =
    ground (arith, contains-insert_sorted e x (sorted_set xs), contains-sorted_set e xs)

pub IsAscending-mono :
    (low low' : ℕ) (l : List ℕ) → low' ≤ low → IsAscending low l → IsAscending low' l
IsAscending-mono low low' [] h a = tt
IsAscending-mono low low' (x ∷ xs) h a = (omega arith, a.1)

insert_sorted-IsAscending :
    (low a : ℕ) (l : List ℕ) → low ≤ a → IsAscending low l → IsAscending low (insert_sorted a l)
unfolding insert_sorted
insert_sorted-IsAscending low a [] h p = (h, tt)
insert_sorted-IsAscending low a (b ∷ l) h p = ground (arith, insert_sorted-IsAscending (suc b) a l)

pub sorted_set-IsAscending : (l : List ℕ) → IsAscending 0 (sorted_set l)
unfolding sorted_set
sorted_set-IsAscending [] = tt
sorted_set-IsAscending (x ∷ xs) =
    insert_sorted-IsAscending 0 x (sorted_set xs) (omega arith) (sorted_set-IsAscending xs)

insert_sorted_first : (x : ℕ) (l : List ℕ) → IsAscending (suc x) l → insert_sorted x l ≡ x ∷ l
unfolding insert_sorted
insert_sorted_first x [] a = refl
insert_sorted_first x (y ∷ l) a = ground arith

-- An ascending list is its own sorted set.
pub sorted_set_of_IsAscending : (low : ℕ) (l : List ℕ) → IsAscending low l → sorted_set l ≡ l
unfolding sorted_set
sorted_set_of_IsAscending low [] a = refl
sorted_set_of_IsAscending low (x ∷ xs) a =
    rw (sorted_set_of_IsAscending (suc x) xs a.1) (insert_sorted_first x xs a.1)

pub sorted_set-sorted_set : (l : List ℕ) → sorted_set (sorted_set l) ≡ sorted_set l
sorted_set-sorted_set l = sorted_set_of_IsAscending 0 (sorted_set l) (sorted_set-IsAscending l)

IsAscending-above : (low e : ℕ) (l : List ℕ) → IsAscending low l → e < low → contains e l ≡ false
unfolding contains
IsAscending-above low e [] a h = refl
IsAscending-above low e (x ∷ xs) a h = ground (arith, IsAscending-above (suc x) e xs a.1)

pub IsAscending-IsDistinct : (low : ℕ) (l : List ℕ) → IsAscending low l → IsDistinct l
IsAscending-IsDistinct low [] a = tt
IsAscending-IsDistinct low (x ∷ xs) a =
    (IsAscending-above (suc x) x xs a.1 (omega arith), IsAscending-IsDistinct (suc x) xs a.1)

pub take-IsAscending : (low n : ℕ) (l : List ℕ) → IsAscending low l → IsAscending low (take n l)
take-IsAscending low zero l a = tt
take-IsAscending low (suc n) [] a = tt
take-IsAscending low (suc n) (x ∷ xs) a = (a.0, take-IsAscending (suc x) n xs a.1)

pub contains-take : (e n : ℕ) (l : List ℕ) → contains e (take n l) ≡ true → contains e l ≡ true
unfolding contains
contains-take e zero l h = absurd (ground arith)
contains-take e (suc n) [] h = h
contains-take e (suc n) (x ∷ xs) h = ground (arith, contains-take e n xs)

-- The pigeonhole principle: a list without repetitions is no longer than a list that holds it.
erase : ℕ → List ℕ → List ℕ
erase e [] = []
erase e (x ∷ xs) = if x == e then xs else x ∷ erase e xs

length-erase : (e : ℕ) (l : List ℕ) → contains e l ≡ true → length l ≡ length (erase e l) + 1
unfolding contains erase
length-erase e [] h = absurd (ground arith)
length-erase e (x ∷ xs) h = ground (arith, length-erase e xs)

contains-erase_ne :
    (e a : ℕ) (l : List ℕ) → (a == e) ≡ false → contains e l ≡ true → contains e (erase a l) ≡ true
unfolding contains erase
contains-erase_ne e a [] ne h = h
contains-erase_ne e a (x ∷ xs) ne h = ground (arith, contains-erase_ne e a xs ne)

pub contains-ne :
    (x e : ℕ) (xs : List ℕ) → contains x xs ≡ false → contains e xs ≡ true → (x == e) ≡ false
unfolding contains
contains-ne x e [] h m = absurd (ground arith)
contains-ne x e (y ∷ ys) h m = ground (arith, contains-ne x e ys)

pub length_of_subset : (xs ys : List ℕ) → IsDistinct xs → IsSubset xs ys → length xs ≤ length ys
unfolding contains
length_of_subset [] ys d s = omega arith
length_of_subset (x ∷ xs) ys d s = omega (
  arith,
  length-erase x ys (s x (ground arith)),
  length_of_subset xs (erase x ys) d.1
      (λ e m. contains-erase_ne e x ys (contains-ne x e xs d.0 m) (s e (ground arith))),
)
