-- ===== src/Checkpoint/Laws.antt =====
-- The page range of a readahead hint, and reading a tensor back from a shard.
use native.Mathlib.Nat.{div-mul-le_self, lt-div-mul-add}
use edge.Base.{
  ℕ, suc, ◌+◌, ◌-◌, ◌*◌, ◌/◌, ◌==◌, ◌≤◌, ◌<◌, ◌⊎◌, inl, inr, ◌≡◌, refl, Option, none, some,
  if◌then◌else◌, ltb, min, arith, Bool-cases,
}
use edge.Checkpoint.{advise_willneed_range}

-- A hint for `len` bytes at `offset` of a file of `total` bytes: none if there is nothing to read; else it starts on a page, at most one
-- page early, covers what the file has of the bytes, and stays in the file.
abbrev pub IsHint : (page total offset len : ℕ) → Option (ℕ × ℕ) → Type 0
IsHint page total offset len none = (len ≡ 0) ⊎ (total ≤ offset)
IsHint page total offset len (some (start, n)) =
    (start ≡ offset / page * page)
    × (start ≤ offset)
    × (offset < start + page)
    × (min (offset + len) total ≤ start + n)
    × (start + n ≤ total)

-- The hint from a page start and an end that covers the bytes, before it is cut to the file.
clip-IsHint :
    (page total offset len end : ℕ)
    → offset / page * page ≤ offset
    → offset < offset / page * page + page
    → offset + len ≤ end
    → IsHint page total offset len (
        if len == 0
        then none
        else if ltb (offset / page * page) (min end total)
        then some (offset / page * page, min end total - offset / page * page)
        else none)
clip-IsHint page total offset len end low near covers = elim (Bool-cases (len == 0)) [
  | inl nothing ↦ rw nothing (inl (ground arith))
  | inr bytes ↦ elim (Bool-cases (ltb (offset / page * page) (min end total))) [
    | inl inside ↦ rw (bytes, inside) (refl, low, near, ground arith, ground arith)
    | inr outside ↦ rw (bytes, outside) (inr (ground arith))
  ]
]

-- With pages of at least one byte, there is no hint only if there is nothing to read; a hint starts on a
-- page, at most one page early, covers the bytes that the file has, and stays in the file.
pub advise_willneed_range-IsHint :
    (page total offset len : ℕ)
    → IsHint (suc page) total offset len (advise_willneed_range (suc page) total offset len)
unfolding advise_willneed_range
advise_willneed_range-IsHint page total offset len =
    let last = offset + len + suc page - 1 in
    clip-IsHint (suc page) total offset len (last / suc page * suc page)
      (div-mul-le_self offset (suc page)) (lt-div-mul-add (omega arith))
      (omega (arith, lt-div-mul-add {a = last} {b = suc page} (omega arith)))
