-- ===== src/Tools/R3/Distinct.antt =====
-- No two tensors have one name.
use edge.Base.{
  ℕ, zero, suc, ◌==◌, ◌≤◌, ◌≡◌, refl, sym, ap, ◌∙◌, List, [], ◌∷◌, ◌++◌, Bool, true, false, not,
  ◌&&◌, ◌||◌, arith, Bool-cases, inl, inr, drop,
}
use edge.Server.Text.{Text, codes, same}
use edge.Server.Text.Laws.{same→eq, same_self}
use edge.Server.Text.Member.{has, has-append}
use edge.Tools.Decimal.{decimal}
use edge.Tools.Decimal.Reading.{reading, reading-decimal}
use edge.Tools.R3.{
  Row, full_attn_layer, layer_rows, block_name, in_block, layers_from, build_name_table,
}

-- `[t[0] for t in table]`
abbrev pub names_of : List Row → List Text
names_of [] = []
names_of (r ∷ rs) = r.name ∷ names_of rs

-- `len(names) == len(set(names))`
unfoldable pub all_distinct : List Text → Bool
unfolding has
all_distinct [] = true
all_distinct (n ∷ ns) = not (has n ns) && all_distinct ns

same-append : (p s t : Text) → same (p ++ s) (p ++ t) ≡ same s t
unfolding same
same-append [] s t = refl
same-append (c ∷ p) s t = ground (arith, same-append p s t)

same_block : (i : ℕ) (s t : Text) → same (block_name i s) (block_name i t) ≡ same s t
unfolding block_name
same_block i s t =
    same-append (codes "blk.") (decimal i ++ (codes "." ++ s)) (decimal i ++ (codes "." ++ t))
    ∙ same-append (decimal i) (codes "." ++ s) (codes "." ++ t)
    ∙ same-append (codes ".") s t

-- The names of a block are as distinct as what follows their prefix.
has-in_block :
    (i : ℕ) (s : Text) (rs : List Row)
    → has (block_name i s) (names_of (in_block i rs)) ≡ has s (names_of rs)
unfolding has in_block
has-in_block i s [] = refl
has-in_block i s (r ∷ rs) = ground (arith, has-in_block i s rs, same_block i r.name s)

all_distinct-in_block :
    (i : ℕ) (rs : List Row) → all_distinct (names_of (in_block i rs)) ≡ all_distinct (names_of rs)
unfolding all_distinct in_block
all_distinct-in_block i [] = refl
all_distinct-in_block i (r ∷ rs) =
    ground (arith, all_distinct-in_block i rs, has-in_block i r.name rs)

-- Four kinds of rows make up a layer, and their names are distinct.
all_distinct-layer_rows : (i interval : ℕ) → all_distinct (names_of (layer_rows i interval)) ≡ true
unfolding layer_rows all_distinct has same
all_distinct-layer_rows i interval = elim (Bool-cases (full_attn_layer i interval)) [
  | inl full ↦ rw (full, layer_rows) refl
  | inr linear ↦ rw (linear, layer_rows) refl
]

-- The number of a block is read off its names.
block_of : Text → ℕ
block_of n = reading 0 (drop 4 n)

block_of-block_name : (i : ℕ) (s : Text) → block_of (block_name i s) ≡ i
unfolding block_of block_name
block_of-block_name i s = reading-decimal i 46 s (omega arith)

block_of-in_block :
    (i : ℕ) (n : Text) (rs : List Row) → has n (names_of (in_block i rs)) ≡ true → block_of n ≡ i
unfolding has in_block
block_of-in_block i n [] h = absurd (ground (arith, h))
block_of-in_block i n (r ∷ rs) h = elim (Bool-cases (same (block_name i r.name) n)) [
  | inl here ↦
      ap block_of (sym (same→eq (block_name i r.name) n here)) ∙ block_of-block_name i r.name
  | inr there ↦ block_of-in_block i n rs (ground (arith, there, h))
]

names_of-append : (xs ys : List Row) → names_of (xs ++ ys) ≡ names_of xs ++ names_of ys
names_of-append [] ys = refl
names_of-append (x ∷ xs) ys = ap (λ l. x.name ∷ l) (names_of-append xs ys)

all_distinct-append :
    (xs ys : List Text)
    → all_distinct xs ≡ true
    → all_distinct ys ≡ true
    → ((n : Text) → has n xs ≡ true → has n ys ≡ false)
    → all_distinct (xs ++ ys) ≡ true
unfolding all_distinct has
all_distinct-append [] ys dx dy apart = dy
all_distinct-append (x ∷ xs) ys dx dy apart =
    let rest =
      all_distinct-append xs ys (ground (arith, dx)) dy (λ n h. apart n (ground (arith, h))) in
    ground (arith, dx, rest, apart x (ground (arith, same_self x)), has-append x xs ys)

module _ (interval : ℕ) where
  -- The blocks from `i` on have no names of a block before.
  layers_from-le :
      (n i : ℕ) (name : Text)
      → has name (names_of (layers_from interval n i)) ≡ true
      → i ≤ block_of name
  unfolding layers_from has
  layers_from-le zero i name h = absurd (ground (arith, h))
  layers_from-le (suc n) i name h =
      let block = in_block i (layer_rows i interval) in
      let rest = layers_from interval n (suc i) in
      let either : (has name (names_of block) || has name (names_of rest)) ≡ true =
        sym (has-append name (names_of block) (names_of rest))
        ∙ ap (has name) (sym (names_of-append block rest))
        ∙ h in
      elim (Bool-cases (has name (names_of block))) [
        | inl here ↦ omega (arith, block_of-in_block i name (layer_rows i interval) here)
        | inr there ↦ omega (arith, layers_from-le n (suc i) name (ground (arith, there, either)))
      ]

  all_distinct-layers_from : (n i : ℕ) → all_distinct (names_of (layers_from interval n i)) ≡ true
  unfolding layers_from all_distinct
  all_distinct-layers_from zero i = refl
  all_distinct-layers_from (suc n) i =
      let block = in_block i (layer_rows i interval) in
      let rest = layers_from interval n (suc i) in
      ap all_distinct (names_of-append block rest)
      ∙ all_distinct-append (names_of block) (names_of rest)
          (all_distinct-in_block i (layer_rows i interval) ∙ all_distinct-layer_rows i interval)
          (all_distinct-layers_from n (suc i))
          (λ name h. elim (Bool-cases (has name (names_of rest))) [
            | inl twice ↦
                let low = layers_from-le n (suc i) name twice in
                let exact = block_of-in_block i name (layer_rows i interval) h in
                absurd (omega (arith, low, exact))
            | inr apart ↦ apart
          ])

  -- A name that starts with another letter is in no block.
  has-in_block_other :
      (c : ℕ) (t : Text) (i : ℕ) (rs : List Row)
      → (98 == c) ≡ false
      → has (c ∷ t) (names_of (in_block i rs)) ≡ false
  unfolding has in_block block_name same
  has-in_block_other c t i [] other = refl
  has-in_block_other c t i (r ∷ rs) other = ground (arith, other, has-in_block_other c t i rs other)

  has-layers_from_other :
      (c : ℕ) (t : Text) (n i : ℕ)
      → (98 == c) ≡ false
      → has (c ∷ t) (names_of (layers_from interval n i)) ≡ false
  unfolding layers_from has
  has-layers_from_other c t zero i other = refl
  has-layers_from_other c t (suc n) i other =
      let block = in_block i (layer_rows i interval) in
      let rest = layers_from interval n (suc i) in
      ap (has (c ∷ t)) (names_of-append block rest)
      ∙ has-append (c ∷ t) (names_of block) (names_of rest)
      ∙ ground (
        arith,
        has-in_block_other c t i (layer_rows i interval) other,
        has-layers_from_other c t n (suc i) other,
      )

-- Whatever the number of layers and the interval, no two rows of the table have one name, so the
-- assertion on the name set holds. At an interval of 0 and with a layer the code makes no table: it raises.
pub all_distinct-build_name_table :
    (nl interval : ℕ) → all_distinct (names_of (build_name_table nl interval)) ≡ true
unfolding build_name_table all_distinct has
all_distinct-build_name_table nl interval =
    rw
      (
        has-layers_from_other interval 116 (codes "oken_embd.weight") nl 0 refl,
        has-layers_from_other interval 111 (codes "utput.weight") nl 0 refl,
        has-layers_from_other interval 111 (codes "utput_norm.weight") nl 0 refl,
        all_distinct-layers_from interval nl 0,
      )
      refl
