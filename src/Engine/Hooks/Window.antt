-- ===== src/Engine/Hooks/Window.antt =====
-- The hot stacks that a prefill keeps on the device at a time.
use edge.Base.{
  ℕ, zero, suc, ◌+◌, ◌-◌, ◌/◌, ◌==◌, ◌≤◌, ◌<◌, ◌≡◌, refl, [], ◌∷◌, Option, none, some, Bool, false,
  min, max, ◌⊎◌, inl, inr, Bool-cases, Option-cases, if_ind, arith, length, ltb,
}
use edge.Layer.State.{Layer}
use edge.Layer.Pins.{load_full_layer, clear_full_layer, dematerialize_hot}
use edge.Engine.Qwen.{Twin, Layers, on_layer, for_layers, each_layer}
use edge.Engine.Hooks.{
  at_layer, try_at_layer, warm_hot, warm_window, cool_below, drop_previous, load_whole,
  before_layer,
}

-- The number of layers ahead of the one that runs whose stacks are made.
abbrev pub ahead_of : ℕ → ℕ
ahead_of hot_window = max 1 (max 1 hot_window / 2)

positive : (n : ℕ) → (suc n == 0) ≡ false
positive n = ground arith

module _ {T F : Type 0} where
  -- The layer has no hot stack on the device, or its number is in the range.
  abbrev IsNear : (lo hi : ℕ) → ℕ → Layer T F → Type 0
  IsNear lo hi q l = (l.hot_weights ≡ none) ⊎ ((lo ≤ q) × (q < hi))

  abbrev pub InWindow : (lo hi : ℕ) → Layers T F → Type 0
  InWindow lo hi [] = Unit
  InWindow lo hi ((q, t) ∷ layers) = IsNear lo hi q t.layer × InWindow lo hi layers

  -- What holds of the layers, if the call did not raise.
  abbrev pub Windowed : (lo hi : ℕ) → Option (Layers T F) → Type 0
  Windowed lo hi none = Unit
  Windowed lo hi (some layers) = InWindow lo hi layers

  each_layer-InWindow :
      (lo hi lo' hi' : ℕ) (body : ℕ → Twin T F → Layer T F)
      → ((q : ℕ) (t : Twin T F) → IsNear lo hi q t.layer → IsNear lo' hi' q (body q t))
      → (layers : Layers T F) → InWindow lo hi layers
      → InWindow lo' hi' (each_layer body layers)
  unfolding each_layer on_layer
  each_layer-InWindow lo hi lo' hi' body f [] h = tt
  each_layer-InWindow lo hi lo' hi' body f ((q, t) ∷ layers) h =
      (f q t h.0, each_layer-InWindow lo hi lo' hi' body f layers h.1)

  InWindow-mono :
      (lo hi lo' hi' : ℕ) (layers : Layers T F)
      → lo' ≤ lo
      → hi ≤ hi'
      → InWindow lo hi layers
      → InWindow lo' hi' layers
  InWindow-mono lo hi lo' hi' [] a b h = tt
  InWindow-mono lo hi lo' hi' ((q, t) ∷ layers) a b h = (
    elim h.0 [ inl cold ↦ inl cold | inr (x, y) ↦ inr (omega (arith, x, a), omega (arith, y, b)) ],
    InWindow-mono lo hi lo' hi' layers a b h.1,
  )

  drop_previous-InWindow :
      (lo hi li : ℕ) (layers : Layers T F)
      → InWindow lo hi layers
      → InWindow lo hi (drop_previous li layers)
  unfolding drop_previous at_layer clear_full_layer
  drop_previous-InWindow lo hi zero layers h = h
  drop_previous-InWindow lo hi (suc p) layers h =
      each_layer-InWindow lo hi lo hi _ (λ q t k. if_ind (IsNear lo hi q) (q == p) k k) layers h

  load_full_layer-IsNear :
      (lo hi q : ℕ) (t : Twin T F)
      → IsNear lo hi q t.layer
      → IsNear lo hi q (load_full_layer t.config t.layer)
  unfolding load_full_layer
  load_full_layer-IsNear lo hi q t h = elim (Option-cases t.layer.full_weights) [
    | inl absent ↦ rw (absent, load_full_layer) h
    | inr (w, resident) ↦ rw (resident, load_full_layer) h
  ]

  load_whole-InWindow :
      (lo hi li : ℕ) (layers : Layers T F)
      → InWindow lo hi layers
      → InWindow lo hi (load_whole li layers)
  unfolding load_whole at_layer
  load_whole-InWindow lo hi li layers h =
      each_layer-InWindow lo hi lo hi _
        (λ q t k. if_ind (IsNear lo hi q) (q == li) (load_full_layer-IsNear lo hi q t k) k) layers h

  -- Below the bound the stacks are dropped.
  cool_below-InWindow :
      (hi bound : ℕ) (layers : Layers T F)
      → InWindow 0 hi layers
      → InWindow bound hi (cool_below bound layers)
  unfolding cool_below dematerialize_hot
  cool_below-InWindow hi bound layers h =
      each_layer-InWindow 0 hi bound hi _
        (λ q t k. elim (Bool-cases (ltb q bound)) [
          | inl behind ↦ rw (behind) (inl refl)
          | inr kept ↦
              rw (kept)
                (elim k [ inl cold ↦ inl cold | inr (x, y) ↦ inr (ground (arith, kept), y) ])
        ])
        layers h

  -- A layer in the range may be given any hot stack.
  abbrev Stays : (hi q : ℕ) → Option (Layer T F) → Type 0
  Stays hi q none = Unit
  Stays hi q (some l) = IsNear 0 hi q l

  near_Stays : (hi q : ℕ) (o : Option (Layer T F)) → q < hi → Stays hi q o
  near_Stays hi q none h = tt
  near_Stays hi q (some l) h = inr (omega arith, h)

  for_layers-InWindow :
      (hi : ℕ) (body : ℕ → Twin T F → Option (Layer T F))
      → ((q : ℕ) (t : Twin T F) → IsNear 0 hi q t.layer → Stays hi q (body q t))
      → (layers : Layers T F) → InWindow 0 hi layers
      → Windowed 0 hi (for_layers body layers)
  unfolding for_layers on_layer
  for_layers-InWindow hi body f [] h = tt
  for_layers-InWindow hi body f ((q, t) ∷ layers) h =
      both (body q t) (for_layers body layers) (f q t h.0)
        (for_layers-InWindow hi body f layers h.1)
    where
      both :
          (o : Option (Layer T F)) (rest : Option (Layers T F))
          → Stays hi q o
          → Windowed 0 hi rest
          → Windowed 0 hi (elim o [
            | none ↦ none
            | some l ↦ elim rest [ none ↦ none | some ls ↦ some ((q, on_layer t l) ∷ ls) ]
          ])
      both none rest a b = tt
      both (some l) none a b = tt
      both (some l) (some ls) a b = (a, b)

  try_at_layer-InWindow :
      (hi lj hot_n : ℕ) (layers : Layers T F)
      → lj < hi
      → InWindow 0 hi layers
      → Windowed 0 hi (try_at_layer lj (warm_hot hot_n) layers)
  unfolding try_at_layer
  try_at_layer-InWindow hi lj hot_n layers ahead h =
      for_layers-InWindow hi _
        (λ q t k. elim (Bool-cases (q == lj)) [
          | inl here ↦ rw (here) (near_Stays hi q (warm_hot hot_n t) (ground (arith, here)))
          | inr there ↦ rw (there) k
        ])
        layers h

  bind-Windowed :
      (lo hi lo' hi' : ℕ) (o : Option (Layers T F)) (f : Layers T F → Option (Layers T F))
      → Windowed lo hi o
      → ((ls : Layers T F) → InWindow lo hi ls → Windowed lo' hi' (f ls))
      → Windowed lo' hi' (elim o [ none ↦ none | some ls ↦ f ls ])
  bind-Windowed lo hi lo' hi' none f h k = tt
  bind-Windowed lo hi lo' hi' (some ls) f h k = k ls h

  warm_window-InWindow :
      (hi hot_n n lj : ℕ) (layers : Layers T F)
      → lj + n ≤ hi
      → InWindow 0 hi layers
      → Windowed 0 hi (warm_window hot_n n lj layers)
  unfolding warm_window
  warm_window-InWindow hi hot_n zero lj layers fits h = h
  warm_window-InWindow hi hot_n (suc n) lj layers fits h =
      bind-Windowed 0 hi 0 hi (try_at_layer lj (warm_hot hot_n) layers)
        (warm_window hot_n n (suc lj))
        (try_at_layer-InWindow hi lj hot_n layers (omega (arith, fits)) h)
        (λ ls. warm_window-InWindow hi hot_n n (suc lj) ls (omega (arith, fits)))

  before_layer-InWindow :
      (full_layer : Bool) (hot_n hot_window li : ℕ) (layers : Layers T F)
      → InWindow 0 (li + ahead_of hot_window) layers
      → Windowed
          (li - (max 1 hot_window - ahead_of hot_window))
          (suc (li + ahead_of hot_window))
          (before_layer full_layer 0 (suc hot_n) hot_window li layers)
  unfolding before_layer
  before_layer-InWindow full_layer hot_n hot_window li layers h =
      let hi = suc (li + ahead_of hot_window) in
      let lo = li - (max 1 hot_window - ahead_of hot_window) in
      let n = min (li + ahead_of hot_window + 1) (length layers) - li in
      rw (positive hot_n, before_layer)
        (bind-Windowed 0 hi lo hi (warm_window (suc hot_n) n li (drop_previous li layers))
          (λ ls. some (cool_below lo ls))
          (warm_window-InWindow hi (suc hot_n) n li (drop_previous li layers) (omega arith) (
            drop_previous-InWindow 0 hi li layers (
              InWindow-mono 0 (li + ahead_of hot_window) 0 hi layers (omega arith) (omega arith)
                h)))
          (λ ls k. cool_below-InWindow hi lo ls k))

  -- The calls that a pass over `n` layers makes, in their order.
  unfoldable pub before_layers :
      (full_layer : Bool) (hot_n hot_window n : ℕ) → Layers T F → Option (Layers T F)
  before_layers full_layer hot_n hot_window zero layers = some layers
  before_layers full_layer hot_n hot_window (suc n) layers =
      elim (before_layers full_layer hot_n hot_window n layers) [
        | none ↦ none
        | some ls ↦ before_layer full_layer 0 hot_n hot_window n ls
      ]

  -- When a pass with the hot stack on and full_n off starts with no hot stack on the device past the first
  -- layers and prepares one layer after the other, then after each call that did not raise only the layers from the one that runs, less the
  -- part of the window behind it, up to those ahead of it have a hot stack on the device.
  pub before_layers-InWindow :
      (full_layer : Bool) (hot_n hot_window li : ℕ) (layers : Layers T F)
      → InWindow 0 (ahead_of hot_window) layers
      → Windowed
          (li - (max 1 hot_window - ahead_of hot_window))
          (suc (li + ahead_of hot_window))
          (before_layers full_layer (suc hot_n) hot_window (suc li) layers)
  unfolding before_layers
  before_layers-InWindow full_layer hot_n hot_window zero layers h =
      before_layer-InWindow full_layer hot_n hot_window 0 layers (
        InWindow-mono 0 (ahead_of hot_window) 0 (0 + ahead_of hot_window) layers (omega arith)
          (omega arith) h)
  before_layers-InWindow full_layer hot_n hot_window (suc p) layers h =
      let ahead = ahead_of hot_window in
      bind-Windowed (p - (max 1 hot_window - ahead)) (suc (p + ahead)) _ _
        (before_layers full_layer (suc hot_n) hot_window (suc p) layers)
        (before_layer full_layer 0 (suc hot_n) hot_window (suc p))
        (before_layers-InWindow full_layer hot_n hot_window p layers h)
        (λ ls k. before_layer-InWindow full_layer hot_n hot_window (suc p) ls (
          InWindow-mono (p - (max 1 hot_window - ahead)) (suc (p + ahead)) 0 (suc p + ahead) ls
            (omega arith) (omega arith) k))
