-- ===== src/Layer/Incr/Staging.antt =====
-- The theorem about `_stage_incr`: it never fails, and the staged set is exactly what the stack holds.
use edge.Base.{
  ℕ, ◌+◌, ◌-◌, ◌<◌, ◌≤◌, ◌≡◌, refl, List, [], ◌∷◌, Option, none, some, true, false, lookup,
  contains, foldl, length, keys, take, sorted_set, if◌then◌else◌, arith, ℕ_discrete, Option-cases,
  Bool-cases, inl, inr, IsDistinct, IsSound, lookup-IsSound, length-take, sorted_set-IsAscending,
  take-IsAscending, IsAscending-IsDistinct, if_ind, ◌∙◌,
}
use edge.Layer.State.{Bundle, Config, Key, Stores, Staged, Incr}
use edge.Layer.Build.{build_cold}
use edge.Layer.Build.Exact.{IsPaired}
use edge.Layer.Bundles.{is_some}
use edge.Layer.Incr.{
  release, free_from, slots_from, not_in, restrict, outside, assign, Place, zero_bundle, place,
  write_back, write_row, drop_entry, set_entry, allocate, stage_incr,
}
use edge.Layer.Incr.Slots.{
  contains-free_from, free_from-IsDistinct, contains-not_in, contains-not_in_of_absent,
  not_in-IsDistinct, length-not_in-le-free,
}
use edge.Layer.Incr.Stack.{
  IsStack, IsStack-release, lookup-restrict, contains-outside, foldl-update_all,
}
use edge.Layer.Incr.Sticky.{
  Exact, Filled, place_all, IsStaged, unallocated, allocated, allocate-IsStack, collect_total,
  collect-IsSound, write_back-Exact, Restaged,
}

module _ {T F : Type 0} (c : Config T F) (paired : IsPaired c) (ckpt : Key → Bundle T)
    (own : (e : ℕ) → ckpt (c.layer_idx, e) ≡ build_cold c e) (s : Stores T F) (t : Incr T)
    (old : List (ℕ × Bundle T)) (experts : List ℕ)
    (stack : IsStack (zero_bundle c) c.staged_n t.occupancy t.slot_table t.rows old)
    (sound : IsSound ℕ_discrete (build_cold c) old) (exact : Exact c paired ckpt own s) where
  abbrev n : ℕ
  n = c.staged_n

  abbrev exp : List ℕ
  exp = take n (sorted_set experts)

  abbrev occ : ℕ → Option ℕ
  occ = release exp t.occupancy

  abbrev new : List ℕ
  new = not_in old exp

  abbrev new_slots : List (ℕ × Option ℕ)
  new_slots = assign new (free_from occ 0 n)

  abbrev start : Place T F
  start = record {
    stores = s;
    bundles = restrict old exp;
    occ = occ;
    slot_of = slots_from occ 0 n (λ e. n);
    writes = [];
  }

  abbrev placed : Place T F
  placed = foldl (place c) start new_slots

  abbrev kept_table : ℕ → ℕ
  kept_table = foldl (drop_entry c) t.slot_table (outside exp (keys old))

  abbrev table : ℕ → ℕ
  table = foldl (set_entry c) kept_table new_slots

  restrict-IsSound : (es : List ℕ) → IsSound ℕ_discrete (build_cold c) (restrict old es)
  unfolding restrict
  restrict-IsSound [] = tt
  restrict-IsSound (e ∷ es) = elim (Option-cases (lookup ℕ_discrete e old)) [
    | inl gone ↦ rw (gone, restrict) (restrict-IsSound es)
    | inr (b, here) ↦
        rw (here, restrict)
          (lookup-IsSound ℕ_discrete (build_cold c) e old b sound here, restrict-IsSound es)
  ]

  released : IsStack (zero_bundle c) n occ kept_table t.rows (restrict old exp)
  released = IsStack-release (zero_bundle c) n t.occupancy t.slot_table t.rows old exp stack

  room : length new ≤ length (free_from occ 0 n)
  unfolding is_some
  room =
      length-not_in-le-free old occ kept_table exp n
        (omega (arith, length-take n (sorted_set experts))) (λ i e k. (released.held i e k).1)
        (λ i e k. ground (arith, released.held i e k, lookup-restrict (zero_bundle c) n e old exp))

  exp-IsDistinct : IsDistinct exp
  exp-IsDistinct =
      IsAscending-IsDistinct 0 exp
        (take-IsAscending 0 n (sorted_set experts) (sorted_set-IsAscending experts))

  filled : Filled c paired ckpt own t.rows new start placed kept_table table
  filled =
      place_all c paired ckpt own t.rows new (free_from occ 0 n) start kept_table room
        (not_in-IsDistinct old exp exp-IsDistinct) (free_from-IsDistinct occ n)
        (λ q k.
          ground (arith, contains-not_in old q exp k, lookup-restrict (zero_bundle c) n q old exp))
        (λ r k. let at = contains-free_from occ r 0 n k in (at.0, omega arith))
        (record { stack = released; sound = restrict-IsSound exp; exact = exact })

  -- The experts that have a bundle afterwards are those that are staged.
  bundled_iff : (q : ℕ) → is_some (lookup ℕ_discrete q placed.bundles) ≡ contains q exp
  unfolding is_some
  bundled_iff q = elim (Option-cases (lookup ℕ_discrete q old)) [
    | inl gone ↦ elim (Bool-cases (contains q exp)) [
      | inl inside ↦ ground (
        arith,
        filled.bundled q,
        lookup-restrict (zero_bundle c) n q old exp,
        contains-not_in_of_absent old q exp inside gone,
      )
      | inr out ↦ ground (
        arith,
        filled.bundled q,
        lookup-restrict (zero_bundle c) n q old exp,
        contains-not_in old q exp,
      )
    ]
    | inr (b, here) ↦ ground (
      arith,
      filled.bundled q,
      lookup-restrict (zero_bundle c) n q old exp,
      contains-not_in old q exp,
    )
  ]

  final :
      IsStack
        (zero_bundle c)
        n
        placed.occ
        table
        (foldl (write_row c) t.rows placed.writes)
        placed.bundles
  final = filled.holds.stack

  present :
      (e : ℕ)
      → contains e exp ≡ true
      → (table e < n) × (foldl (write_row c) t.rows placed.writes (table e) ≡ build_cold c e)
  unfolding is_some
  present e k = elim (Option-cases (lookup ℕ_discrete e placed.bundles)) [
    | inl gone ↦ absurd (ground (arith, bundled_iff e))
    | inr (b, here) ↦
        let at = final.held (table e) e (final.kept e b here) in
        (at.0, lookup-IsSound ℕ_discrete (build_cold c) e placed.bundles _ filled.holds.sound at.2)
  ]

  dropped : (e : ℕ) → contains e exp ≡ false → table e ≡ n
  unfolding is_some
  dropped e k = elim (Option-cases (lookup ℕ_discrete e placed.bundles)) [
    | inl gone ↦ final.absent e gone
    | inr (b, here) ↦ absurd (ground (arith, bundled_iff e))
  ]

  sticky :
      (e : ℕ)
      → contains e exp ≡ true
      → is_some (lookup ℕ_discrete e old) ≡ true
      → table e ≡ t.slot_table e
  unfolding is_some
  sticky e k staged = elim (Bool-cases (contains e new)) [
    | inl fresh ↦ absurd (ground (arith, contains-not_in old e exp fresh))
    | inr stays ↦
        filled.sticky e stays
        ∙ foldl-update_all (zero_bundle c) n n e (outside exp (keys old)) t.slot_table
        ∙ ground (arith, contains-outside (zero_bundle c) n e exp (keys old))
  ]

  abbrev wrote_back : Stores T F
  wrote_back =
      if c.incr_writeback
      then foldl (write_back c old) placed.stores (outside exp (keys old))
      else placed.stores

  wrote_back-Exact : Exact c paired ckpt own wrote_back
  wrote_back-Exact =
      if_ind (Exact c paired ckpt own) c.incr_writeback
        (write_back-Exact c paired ckpt own old (outside exp (keys old)) placed.stores sound
          filled.holds.exact)
        filled.holds.exact

  abbrev counted : Stores T F
  counted =
      let w = wrote_back in
      record w {
        stats = record w.stats {
          incr_writes = w.stats.incr_writes + length placed.writes;
          stage_delta_hits = w.stats.stage_delta_hits + (length exp - length placed.writes);
        };
      }

  abbrev stack' : Incr T
  stack' = record {
    rows = foldl (write_row c) t.rows placed.writes;
    slot_table = table;
    occupancy = placed.occ;
  }

  outcome :
      (staged : Staged T) × (stage_incr c s (some t) old experts
        ≡ some (counted, stack', placed.bundles, staged))
      × Restaged c paired ckpt own counted t.slot_table old exp stack' placed.bundles staged
  unfolding stage_incr
  outcome =
      let (bs, e) = collect_total c paired ckpt own placed.bundles exp (λ q k. bundled_iff q ∙ k) in
      let w = wrote_back-Exact in
      (
        record { bundles = bs; slot_of = placed.slot_of; experts = exp },
        rw (e, stage_incr),
        record {
          exact = record {
            pinned = w.pinned;
            cached = w.cached;
            buffered = w.buffered;
            backed = w.backed;
          };
          again = allocated stack' placed.bundles final filled.holds.sound;
          experts = refl;
          bundles_eq = collect-IsSound c paired ckpt own placed.bundles exp bs filled.holds.sound e;
          present = present;
          dropped = dropped;
          overflow = final.overflow;
          sticky = sticky;
        },
      )

-- Where the table sends an expert before the call.
abbrev pub table_of : {T F : Type 0} → Config T F → Option (Incr T) → ℕ → ℕ
table_of c none e = c.staged_n
table_of c (some t) e = t.slot_table e

module _ {T F : Type 0} (c : Config T F) (paired : IsPaired c) (ckpt : Key → Bundle T)
    (own : (e : ℕ) → ckpt (c.layer_idx, e) ≡ build_cold c e) where
  stage_incr-allocate :
      (s : Stores T F) (old : List (ℕ × Bundle T)) (experts : List ℕ)
      → stage_incr c s none old experts ≡ stage_incr c s (some (allocate c)) old experts
  unfolding stage_incr
  stage_incr-allocate s old experts = refl

  -- From a well-formed stack and exact stores `_stage_incr` always succeeds. Every expert among the
  -- first `staged_n` of the sorted set is then in a slot below `staged_n` whose row is its bundle of
  -- the checkpoint; every other expert is sent to the overflow row, which is all zero; an expert
  -- that was staged before keeps its slot; and the stack and the stores are well-formed again.
  pub stage_incr-Restaged :
      (s : Stores T F) (stack : Option (Incr T)) (old : List (ℕ × Bundle T)) (experts : List ℕ)
      → IsStaged c paired ckpt own stack old
      → Exact c paired ckpt own s
      → (s' : Stores T F) × (t' : Incr T) × (bundles : List (ℕ × Bundle T)) × (staged : Staged T)
        × (stage_incr c s stack old experts ≡ some (s', t', bundles, staged))
        × Restaged c paired ckpt own s'
            (table_of c stack)
            old
            (take c.staged_n (sorted_set experts))
            t'
            bundles
            staged
  unfolding allocate
  stage_incr-Restaged s stack old experts (allocated t bundles h sound) exact =
      let o = outcome c paired ckpt own s t bundles experts h sound exact in
      (_, _, _, o.0, o.1, o.2)
  stage_incr-Restaged s stack old experts unallocated exact =
      let t = allocate c in
      let o =
        outcome c paired ckpt own s t [] experts (allocate-IsStack c paired ckpt own) tt exact in
      (_, _, _, o.0, stage_incr-allocate s [] experts ∙ o.1, o.2)
