-- ===== src/Adapters.antt =====
-- python/src/edge0/adapters/lora.py: `install_lora`, which puts the low-rank deltas of a file beside the
-- layers of a loaded model. The model is a parameter: a record of what Python does on its objects, in a
-- state of the heap `W`. The mathematics of a delta are the device's, and the list of what was printed is
-- left out, as is the reason for which a target was skipped. An exception is `none`, of whichever class.
pub mod Applied
pub mod Grouped
use edge.Base.{
  ℕ, ◌-◌, ◌==◌, List, [], ◌∷◌, ◌++◌, Option, none, some, Bool, true, false, not, ◌&&◌, ◌||◌, length,
  take, drop, if◌then◌else◌, ltb, leb,
}
use edge.Server.Text.{Text, codes, same}

-- `LoraLinear`, without its `__call__`
pub record LoraLinear (N T F : Type 0) : Type 0 where
  pub base : N
  pub lora_a : T
  pub lora_b : T
  pub lora_scale : F

-- `getattr`, `x[int(text)]`, `is None` and `setattr` on the objects of the model; `none` where Python
-- raises.
pub record Tree (W N T F : Type 0) : Type 0 where
  pub root : N
  pub attr : W → N → Text → Option N
  pub item : W → N → Text → Option N
  pub is_none : N → Bool
  pub bind : W → N → Text → LoraLinear N T F → W

-- One entry of `targets`.
pub record Halves (T : Type 0) : Type 0 where
  pub a : Option T
  pub b : Option T

pub data Half : Type 0 where
  half_a : Half
  half_b : Half

pub record Report : Type 0 where
  pub applied : List Text
  pub not_found : List Text
  pub skipped : List Text

-- `k[: -len(suffix)]` if `k.endswith(suffix)`
unfoldable pub without : Text → Text → Option Text
unfolding same
without suffix k =
    let n = length k - length suffix in
    if leb (length suffix) (length k) && same (drop n k) suffix then some (take n k) else none

-- The target of a tensor and which half it is.
unfoldable pub target_of : Text → Option (Text × Half)
unfolding without
target_of k = elim (without (codes ".lora_A") k) [
  | some t ↦ some (t, half_a)
  | none ↦ elim (without (codes ".lora_B") k) [ none ↦ none | some t ↦ some (t, half_b) ]
]

unfoldable pub cons_head : ℕ → List Text → List Text
cons_head c [] = (c ∷ []) ∷ []
cons_head c (p ∷ ps) = (c ∷ p) ∷ ps

-- `key.split(".")`
unfoldable pub split_dots : Text → List Text
unfolding cons_head
split_dots [] = [] ∷ []
split_dots (c ∷ s) = let rest = split_dots s in if c == 46 then [] ∷ rest else cons_head c rest

-- `".".join(parts)`
unfoldable pub join_dots : List Text → Text
join_dots [] = []
join_dots (p ∷ []) = p
join_dots (p ∷ q ∷ ps) = p ++ (46 ∷ join_dots (q ∷ ps))

-- `parts[:-1]`
unfoldable pub but_last : List Text → List Text
but_last [] = []
but_last (p ∷ []) = []
but_last (p ∷ q ∷ ps) = p ∷ but_last (q ∷ ps)

-- `parts[-1]`; `split` gives at least one part.
unfoldable pub last_part : List Text → Text
last_part [] = []
last_part (p ∷ []) = p
last_part (p ∷ q ∷ ps) = last_part (q ∷ ps)

-- `s <= t` on strings
unfoldable pub comes_first : Text → Text → Bool
comes_first [] t = true
comes_first (c ∷ s) [] = false
comes_first (c ∷ s) (d ∷ t) = ltb c d || ((c == d) && comes_first s t)

module _ {T : Type 0} where
  unfoldable pub with_half : Half → T → Halves T → Halves T
  with_half half_a v p = record p { a = some v }
  with_half half_b v p = record p { b = some v }

  -- `targets.setdefault(t, {})[half] = v`
  unfoldable pub add_half : Text → Half → T → List (Text × Halves T) → List (Text × Halves T)
  unfolding with_half same
  add_half t h v [] = (t, with_half h v (record { a = none; b = none })) ∷ []
  add_half t h v ((u, p) ∷ targets) =
      let rest = add_half t h v targets in
      if same u t then (u, with_half h v p) ∷ targets else (u, p) ∷ rest

  -- The loop over the tensors; one whose name is of neither kind raises.
  unfoldable pub group_targets :
      List (Text × T) → List (Text × Halves T) → Option (List (Text × Halves T))
  unfolding target_of add_half
  group_targets [] targets = some targets
  group_targets ((k, v) ∷ file) targets = elim (target_of k) [
    | none ↦ none
    | some (t, h) ↦ group_targets file (add_half t h v targets)
  ]

  unfoldable pub insert_target : Text × Halves T → List (Text × Halves T) → List (Text × Halves T)
  unfolding comes_first
  insert_target (t, p) [] = (t, p) ∷ []
  insert_target (t, p) ((u, q) ∷ targets) =
      let rest = insert_target (t, p) targets in
      if comes_first t u then (t, p) ∷ (u, q) ∷ targets else (u, q) ∷ rest

  -- `sorted(targets.items())`, whose keys are distinct
  unfoldable pub sort_targets : List (Text × Halves T) → List (Text × Halves T)
  unfolding insert_target
  sort_targets [] = []
  sort_targets (e ∷ targets) = insert_target e (sort_targets targets)

module _ {W N T F : Type 0} (tree : Tree W N T F) where
  -- `for p in rest: node = getattr(node, p)`
  unfoldable pub walk : W → N → List Text → Option N
  walk w n [] = some n
  walk w n (p ∷ ps) = elim (tree.attr w n p) [ none ↦ none | some m ↦ walk w m ps ]

  -- `rest` from the layer that stands at `place` in the list at `path`.
  unfoldable pub in_layer : W → List Text → Text → List Text → Option N
  unfolding walk
  in_layer w path place rest = elim (walk w tree.root path) [
    | none ↦ none
    | some layers ↦ elim (tree.item w layers place) [ none ↦ none | some n ↦ walk w n rest ]
  ]

  unfoldable pub resolve_parts : W → List Text → Option N
  unfolding in_layer same
  resolve_parts w [] = walk w tree.root []
  resolve_parts w (p ∷ []) = walk w tree.root (p ∷ [])
  resolve_parts w (p ∷ q ∷ []) = walk w tree.root (p ∷ q ∷ [])
  resolve_parts w (p ∷ q ∷ t ∷ rest) =
      if same p (codes "model") && same q (codes "layers")
      then in_layer w (codes "model" ∷ codes "layers" ∷ []) t rest
      else if same p (codes "language_model") && same q (codes "model")
      then elim rest [
        | [] ↦ none
        | i ∷ rest' ↦
            in_layer w (codes "language_model" ∷ codes "model" ∷ codes "layers" ∷ []) i rest'
      ]
      else walk w tree.root (p ∷ q ∷ t ∷ rest)

  -- `_resolve`
  unfoldable pub resolve : W → Text → Option N
  unfolding resolve_parts split_dots
  resolve w key = resolve_parts w (split_dots key)

  -- `hasattr`
  unfoldable pub has_attr : W → N → Text → Bool
  has_attr w n name = elim (tree.attr w n name) [ none ↦ false | some m ↦ true ]

  -- The binding of the delta to the attribute of its owner.
  unfoldable pub bind_lora : (T → T) → F → W → Text → N → T → T → Option W
  unfolding resolve join_dots but_last last_part
  bind_lora cast scale w key target a b = elim (resolve w (join_dots (but_last (split_dots key)))) [
    | none ↦ none
    | some owner ↦ some (
        tree.bind w owner (last_part (split_dots key))
          (record { base = target; lora_a = cast a; lora_b = cast b; lora_scale = scale }))
  ]

  -- What the loop does with a target that has both halves.
  unfoldable pub install_pair :
      (strict : Bool) → (T → T) → F → Text → T → T → W × Report → Option (W × Report)
  unfolding resolve has_attr bind_lora
  install_pair strict cast scale key a b (w, r) = elim (resolve w key) [
    | none ↦ none
    | some target ↦
        if tree.is_none target
        then if strict then none else some (w, record r { not_found = r.not_found ++ key ∷ [] })
        else if not (has_attr w target (codes "weight")) && not (has_attr w target (codes "base"))
        then if strict then none else some (w, record r { skipped = r.skipped ++ key ∷ [] })
        else elim (bind_lora cast scale w key target a b) [
          | none ↦ none
          | some w' ↦ some (w', record r { applied = r.applied ++ key ∷ [] })
        ]
  ]

  -- One turn of the loop.
  unfoldable pub install_target :
      (strict : Bool) → (T → T) → F → Text × Halves T → W × Report → Option (W × Report)
  unfolding install_pair
  install_target strict cast scale (key, d) (w, r) = elim d.a [
    | none ↦ some (w, record r { skipped = r.skipped ++ key ∷ [] })
    | some a ↦ elim d.b [
      | none ↦ some (w, record r { skipped = r.skipped ++ key ∷ [] })
      | some b ↦ install_pair strict cast scale key a b (w, r)
    ]
  ]

  unfoldable pub install_targets :
      (strict : Bool) → (T → T) → F → List (Text × Halves T) → W × Report → Option (W × Report)
  unfolding install_target
  install_targets strict cast scale [] s = some s
  install_targets strict cast scale (e ∷ targets) s = elim (install_target strict cast scale e s) [
    | none ↦ none
    | some s' ↦ install_targets strict cast scale targets s'
  ]

  -- `install_lora`: the tensors of the file, if there is one; `scale` is `alpha / r`.
  unfoldable pub install_lora :
      (strict : Bool) → (T → T) → F → Option (List (Text × T)) → W → Option (W × Report)
  unfolding group_targets sort_targets install_targets
  install_lora strict cast scale none w = none
  install_lora strict cast scale (some []) w = none
  install_lora strict cast scale (some (e ∷ file)) w = elim (group_targets (e ∷ file) []) [
    | none ↦ none
    | some targets ↦
        install_targets strict cast scale (sort_targets targets)
          (w, record { applied = []; not_found = []; skipped = [] })
  ]
