-- ===== src/Layer/Incr.antt =====
-- python/src/edge0/streaming/layer.py: `_stage_incr`, the incremental stack of staged experts. A
-- tensor row, a table entry and an occupancy entry are functions of their index: the arrays are
-- allocated once, with `staged_n + 1`, `num_experts` and `staged_n` entries.
pub mod Slots
pub mod Stack
pub mod Sticky
pub mod Staging
use edge.Base.{
  ℕ, zero, suc, ◌+◌, ◌-◌, ◌==◌, List, [], ◌∷◌, ◌++◌, map, Option, none, some, Bool, true, false,
  not, foldl, lookup, store, keys, contains, sorted_set, take, if◌then◌else◌, length, ℕ_discrete,
}
use edge.Cache
use edge.Layer.State.{Bundle, Config, Key, key_discrete, Stores, Stats, Staged, Incr, has_proj}
use edge.Layer.Build.{build}
use edge.Layer.Bundles.{is_some}

-- `a[i] = v`
abbrev pub update {ℓ} : {A : Type ℓ} → (ℕ → A) → ℕ → A → ℕ → A
update f i v j = if j == i then v else f j

-- `occ[i] = None` where the expert is not staged again.
unfoldable pub release : List ℕ → (ℕ → Option ℕ) → ℕ → Option ℕ
release exp occ i = elim (occ i) [ none ↦ none | some e ↦ if contains e exp then some e else none ]

-- `[i for i in range(start, start + k) if occ[i] is None]`
unfoldable pub free_from : (ℕ → Option ℕ) → ℕ → ℕ → List ℕ
free_from occ start zero = []
free_from occ start (suc k) = elim (occ start) [
  | none ↦ start ∷ free_from occ (suc start) k
  | some e ↦ free_from occ (suc start) k
]

-- The loop that fills `slot_of_list` from the occupied slots.
unfoldable pub slots_from : (ℕ → Option ℕ) → ℕ → ℕ → (ℕ → ℕ) → ℕ → ℕ
slots_from occ start zero table = table
slots_from occ start (suc k) table =
    let table' : ℕ → ℕ = elim (occ start) [ none ↦ table | some e ↦ update table e start ] in
    slots_from occ (suc start) k table'

-- `[e for e in exp if e not in bundles]`, and those that are.
unfoldable pub not_in {ℓ} : {V : Type ℓ} → List (ℕ × V) → List ℕ → List ℕ
not_in bundles [] = []
not_in bundles (e ∷ es) =
    if is_some (lookup ℕ_discrete e bundles) then not_in bundles es else e ∷ not_in bundles es

-- `{e: bundles[e] for e in exp if e in bundles}`
unfoldable pub restrict {ℓ} : {V : Type ℓ} → List (ℕ × V) → List ℕ → List (ℕ × V)
restrict bundles [] = []
restrict bundles (e ∷ es) = elim (lookup ℕ_discrete e bundles) [
  | none ↦ restrict bundles es
  | some b ↦ (e, b) ∷ restrict bundles es
]

-- Each new expert with the free slot at its position, if there is one.
unfoldable pub assign : List ℕ → List ℕ → List (ℕ × Option ℕ)
assign [] free = []
assign (e ∷ es) [] = (e, none) ∷ assign es []
assign (e ∷ es) (s ∷ free) = (e, some s) ∷ assign es free

-- `[e for e in es if e not in exp]`
unfoldable pub outside : List ℕ → List ℕ → List ℕ
outside exp [] = []
outside exp (e ∷ es) = if contains e exp then outside exp es else e ∷ outside exp es

-- `tuple(bundles[e] for e in exp)`; `none` is a KeyError.
unfoldable pub collect {ℓ} : {V : Type ℓ} → List (ℕ × V) → List ℕ → Option (List V)
collect bundles [] = some []
collect bundles (e ∷ es) =
    let rest = collect bundles es in
    elim (lookup ℕ_discrete e bundles) [
      | none ↦ none
      | some b ↦ elim rest [ none ↦ none | some bs ↦ some (b ∷ bs) ]
    ]

-- The local variables of the loop over `new_slots`.
pub record Place (T F : Type 0) : Type 0 where
  pub stores : Stores T F
  pub bundles : List (ℕ × Bundle T)
  pub occ : ℕ → Option ℕ
  pub slot_of : ℕ → ℕ
  pub writes : List (ℕ × Bundle T)

module _ {T F : Type 0} (c : Config T F) where
  -- The all-zero row.
  unfoldable pub zero_bundle : Bundle T
  unfolding has_proj
  zero_bundle proj part = if has_proj c.fuse_gu proj then some (c.zeros proj part) else none

  -- Pinned, else cached, else built. A fresh build is shared unless the stack writes back.
  unfoldable pub resolve : Stores T F → ℕ → Stores T F × Bundle T
  resolve s e =
      let (cache, found) = Cache.get key_discrete s.shared_cache (c.layer_idx, e) in
      let built = build c s.hot_backing e in
      elim (lookup ℕ_discrete e s.pinned) [
        | some p ↦ (s, p)
        | none ↦ elim found [
          | some b ↦ (
            record s {
              shared_cache = cache;
              stats = record s.stats { stage_cache_hits = s.stats.stage_cache_hits + 1 };
            },
            b,
          )
          | none ↦ (
            record s {
              shared_cache =
                  if c.incr_writeback
                  then cache
                  else Cache.put key_discrete cache (c.layer_idx, e) built;
              stats = record s.stats { stage_builds = s.stats.stage_builds + 1 };
            },
            built,
          )
        ]
      ]

  unfoldable pub place : Place T F → ℕ × Option ℕ → Place T F
  unfolding resolve
  place a (e, none) = a
  place a (e, some slot) =
      let (s, b) = resolve a.stores e in
      record {
        stores = s;
        bundles = store ℕ_discrete e b a.bundles;
        occ = update a.occ slot (some e);
        slot_of = update a.slot_of e slot;
        writes = a.writes ++ (slot, b) ∷ [];
      }

  -- An evicted bundle goes back to the shared cache.
  unfoldable pub write_back : List (ℕ × Bundle T) → Stores T F → ℕ → Stores T F
  write_back old s e = elim (lookup ℕ_discrete e old) [
    | none ↦ s
    | some b ↦ record s { shared_cache = Cache.put key_discrete s.shared_cache (c.layer_idx, e) b }
  ]

  abbrev pub write_row : (ℕ → Bundle T) → ℕ × Bundle T → ℕ → Bundle T
  write_row rows (slot, b) = update rows slot b

  abbrev pub drop_entry : (ℕ → ℕ) → ℕ → ℕ → ℕ
  drop_entry table e = update table e c.staged_n

  abbrev pub set_entry : (ℕ → ℕ) → ℕ × Option ℕ → ℕ → ℕ
  set_entry table (e, none) = table
  set_entry table (e, some slot) = update table e slot

  -- The one-time allocation.
  unfoldable pub allocate : Incr T
  unfolding zero_bundle
  allocate = record {
    rows = λ slot. zero_bundle;
    slot_table = λ e. c.staged_n;
    occupancy = λ slot. none;
  }

  -- The new stores, stack, `_incr_bundles` and staged set. `none` is a KeyError.
  unfoldable pub stage_incr :
      Stores T F
      → Option (Incr T)
      → List (ℕ × Bundle T)
      → List ℕ
      → Option (Stores T F × Incr T × List (ℕ × Bundle T) × Staged T)
  unfolding allocate release free_from slots_from not_in restrict assign outside collect place
      write_back
  stage_incr s stack old experts =
      let n = c.staged_n in
      let exp = take n (sorted_set experts) in
      let t : Incr T = elim stack [ none ↦ allocate | some t ↦ t ] in
      let occ = release exp t.occupancy in
      let new_slots = assign (not_in old exp) (free_from occ 0 n) in
      let start : Place T F = record {
        stores = s;
        bundles = restrict old exp;
        occ = occ;
        slot_of = slots_from occ 0 n (λ e. n);
        writes = [];
      } in
      let placed = foldl place start new_slots in
      let evicted = outside exp (keys old) in
      let s' : Stores T F =
        if c.incr_writeback then foldl (write_back old) placed.stores evicted else placed.stores in
      let table = foldl set_entry (foldl drop_entry t.slot_table evicted) new_slots in
      let stats = record s'.stats {
        incr_writes = s'.stats.incr_writes + length placed.writes;
        stage_delta_hits = s'.stats.stage_delta_hits + (length exp - length placed.writes);
      } in
      elim (collect placed.bundles exp) [
        | none ↦ none
        | some bundles ↦ some (
          record s' { stats = stats },
          record {
            rows = foldl write_row t.rows placed.writes;
            slot_table = table;
            occupancy = placed.occ;
          },
          placed.bundles,
          record { bundles = bundles; slot_of = placed.slot_of; experts = exp },
        )
      ]
