-- ===== src/Layer/Forward/Prefill.antt =====
-- The two prefill paths of `__call__`, through the whole-layer weights and through the resident hot
-- stack, against the reference.
use edge.Base.{
  ℕ, zero, suc, ◌+◌, ◌*◌, ◌/◌, ◌<◌, ◌≤◌, ◌≡◌, refl, ◌∙◌, sym, ap, fun_ext, List, [], ◌∷◌, ◌++◌, map,
  Option, none, some, true, contains, AllBelow, contains-AllBelow, if◌then◌else◌, length, replicate,
  take, drop, ◌==◌, arith, inl, inr, Bool-cases, append-nil, drop-add-append, take_of_length-le,
  if_true, if_false,
}
use native.Mathlib.Nat.{mul-div_cancel_left}
use edge.Layer.State.{
  Proj, gate_proj, up_proj, down_proj, gate_up_proj, Part, Bundle, Config, Layer, has_proj,
}
use edge.Layer.Build.{
  slice, read_rows, bundle_bytes, build, build_cold, build_hot, index_of, concat_rows, zero_row,
  stack_hot,
}
use edge.Layer.Build.Exact.{
  IsPaired, IsBacking, backed, build-eq-cold, build_hot-eq, hot_bytes-eq, row_size,
  length-concat_rows, slice-concat_rows, length-zero_row, stack_hot-row_size, length-hot_bytes,
}
use edge.Layer.Pins.{count_from, full_bytes, full_row, hot_row}
use edge.Layer.Forward.{Kernels, experts_of, expert_math, hot_output, prefill_output, many}
use edge.Layer.Forward.Exact.{reference, gather-eq}

length-count_from : (i n : ℕ) → length (count_from i n) ≡ n
unfolding count_from
length-count_from i zero = refl
length-count_from i (suc n) = ap suc (length-count_from (suc i) n)

AllBelow-count_from : (i n top : ℕ) → i + n ≤ top → AllBelow top (count_from i n)
unfolding count_from
AllBelow-count_from i zero top h = tt
AllBelow-count_from i (suc n) top h = (omega arith, AllBelow-count_from (suc i) n top (omega arith))

contains-count_from :
    (e i n : ℕ)
    → i ≤ e
    → e < i + n
    → (contains e (count_from i n) ≡ true) × (i + index_of e (count_from i n) ≡ e)
unfolding count_from contains index_of
contains-count_from e i zero low high = absurd (omega arith)
contains-count_from e i (suc n) low high = elim (Bool-cases (i == e)) [
  | inl same ↦ (rw same refl, rw same (ground arith))
  | inr other ↦
      let rest = contains-count_from e (suc i) n (ground arith) (omega arith) in
      (rw other rest.0, rw other (omega (arith, rest.1)))
]

module _ {T F : Type 0} (c : Config T F) (paired : IsPaired c) where
  full_slice :
      (proj : Proj) (part : Part) (e : ℕ)
      → e < c.num_experts
      → slice (length (full_bytes c proj part) / c.num_experts) e (full_bytes c proj part)
        ≡ bundle_bytes c proj part e
  unfolding full_bytes bundle_bytes read_rows
  full_slice gate_up_proj part e h =
      let all = count_from 0 c.num_experts in
      let w = row_size c gate_up_proj part in
      let below = AllBelow-count_from 0 c.num_experts c.num_experts (omega arith) in
      let (inside, at) = contains-count_from e 0 c.num_experts (omega arith) (omega arith) in
      let size : length (concat_rows c all gate_up_proj part) / c.num_experts ≡ w =
        ap (λ n. n / c.num_experts)
          (length-concat_rows c paired gate_up_proj part all below
            ∙ ap (λ n. n * w) (length-count_from 0 c.num_experts))
        ∙ mul-div_cancel_left w (omega arith) in
      let buf = concat_rows c all gate_up_proj part in
      ap (λ n. slice n e buf) size
      ∙ ap (λ i. slice w i buf) (sym at ∙ omega arith)
      ∙ ap (slice w (index_of e all)) (sym (append-nil buf))
      ∙ slice-concat_rows c paired gate_up_proj part e all [] below inside
      ∙ hot_bytes-eq c paired gate_up_proj part e
  full_slice gate_proj part e h = refl
  full_slice up_proj part e h = refl
  full_slice down_proj part e h = refl

  full_row-eq : (e : ℕ) → e < c.num_experts → full_row c e ≡ build_cold c e
  unfolding full_row build_cold
  full_row-eq e h = fun_ext (λ proj. fun_ext (λ part. rw (full_slice proj part e h) refl))

  hot_row-eq :
      (hot : List ℕ) (e : ℕ)
      → AllBelow c.num_experts hot
      → contains e hot ≡ true
      → hot_row c (stack_hot c hot) (index_of e hot) ≡ build_cold c e
  unfolding hot_row build_hot stack_hot
  hot_row-eq hot e h m = build_hot-eq c paired hot e h m

  -- The overflow row of a hot stack: an expert whose bytes are all zero.
  abbrev pub zero_expert : Bundle T
  zero_expert proj part =
      if has_proj c.fuse_gu proj
      then some (c.to_tensor proj part (replicate (row_size c proj part) 0))
      else none

  overflow_slice :
      (e : ℕ) (es : List ℕ) (proj : Proj) (part : Part)
      → AllBelow c.num_experts (e ∷ es)
      → slice (row_size c proj part) (length (e ∷ es)) ((stack_hot c (e ∷ es)).rows proj part)
        ≡ replicate (row_size c proj part) 0
  unfolding stack_hot zero_row
  overflow_slice e es proj part h =
      let w = row_size c proj part in
      let hot = e ∷ es in
      let zeros = zero_row c hot proj part in
      let size = length-concat_rows c paired proj part hot h in
      let skip = drop-add-append (length hot * w) 0 (concat_rows c hot proj part) zeros size in
      ap (λ n. take w (drop n (concat_rows c hot proj part ++ zeros))) (omega arith)
      ∙ ap (take w) skip
      ∙ take_of_length-le w zeros (omega (arith, length-zero_row c paired proj part e es h.0))
      ∙ ap (λ n. replicate n 0) (length-hot_bytes c paired proj part e h.0)

  overflow_row-eq :
      (e : ℕ) (es : List ℕ)
      → AllBelow c.num_experts (e ∷ es)
      → hot_row c (stack_hot c (e ∷ es)) (length (e ∷ es)) ≡ zero_expert
  unfolding hot_row stack_hot
  overflow_row-eq e es h = fun_ext (λ proj. fun_ext (λ part.
      ap (λ bytes. if has_proj c.fuse_gu proj then some (c.to_tensor proj part bytes) else none)
        (ap (λ n. slice n (length (e ∷ es)) ((stack_hot c (e ∷ es)).rows proj part))
            (stack_hot-row_size c paired proj part e es h)
          ∙ overflow_slice e es proj part h)))

module _ {T F X : Type 0} (c : Config T F) (k : Kernels T X) (paired : IsPaired c) where
  -- An expert whose tensors are all zero contributes nothing to a sum.
  abbrev pub ZeroVanishes : Type 0
  ZeroVanishes =
      (x : X)
      → (z : X) × (expert_math c k x (zero_expert c paired) ≡ some z) × ((y : X) → k.add z y ≡ y)

  -- What the engine loads before a layer of a prefill runs.
  pub data IsLoaded (l : Layer T F) : Type 0 where
    whole : l.full_weights ≡ some (full_row c) → IsLoaded l
    resident :
        (e : ℕ) (es : List ℕ)
        → AllBelow c.num_experts (e ∷ es)
        → l.full_weights ≡ none
        → l.hot_weights ≡ some (hot_row c (stack_hot c (e ∷ es)))
        → l.stores.hot_backing ≡ some (stack_hot c (e ∷ es))
        → IsLoaded l

  vanishing_sum :
      (o o' : Option X) (z : X)
      → o ≡ some z
      → ((y : X) → k.add z y ≡ y)
      → elim o [ none ↦ none | some z ↦ elim o' [ none ↦ none | some ze ↦ some (k.add z ze) ] ] ≡ o'
  vanishing_sum o none z h vanish = rw h refl
  vanishing_sum o (some ze) z h vanish = rw h (ap some (vanish ze))

  hot_output-eq :
      (e : ℕ) (es : List ℕ) (x : X) (q : ℕ)
      → AllBelow c.num_experts (e ∷ es)
      → ZeroVanishes
      → hot_output c k (stack_hot c (e ∷ es)) (hot_row c (stack_hot c (e ∷ es))) (x, q)
        ≡ expert_math c k x (build_cold c q)
  unfolding hot_output stack_hot
  hot_output-eq e es x q h vanish =
      let hot = e ∷ es in
      let (z, zero_out, sum) = vanish x in
      let backing : IsBacking c (some (stack_hot c hot)) = backed hot h in
      elim (Bool-cases (contains q hot)) [
        | inl hit ↦
            if_true _ _ (contains q hot) hit
            ∙ ap (expert_math c k x) (hot_row-eq c paired hot q h hit)
        | inr miss ↦
            if_false _ _ (contains q hot) miss
            ∙ vanishing_sum (expert_math c k x (hot_row c (stack_hot c hot) (length hot)))
                (expert_math c k x (build c (some (stack_hot c hot)) q)) z
                (ap (expert_math c k x) (overflow_row-eq c paired e es h) ∙ zero_out) sum
            ∙ ap (expert_math c k x) (build-eq-cold c paired (some (stack_hot c hot)) q backing)
      ]

  map-hot_output :
      (e : ℕ) (es : List ℕ) (rows : List (X × ℕ))
      → AllBelow c.num_experts (e ∷ es)
      → ZeroVanishes
      → map (hot_output c k (stack_hot c (e ∷ es)) (hot_row c (stack_hot c (e ∷ es)))) rows
        ≡ reference c k rows
  map-hot_output e es [] h vanish = refl
  map-hot_output e es ((x, q) ∷ rows) h vanish =
      rw (hot_output-eq e es x q h vanish, map-hot_output e es rows h vanish) refl

  -- On a chunk of more than eight rows both prefill paths give the reference, whichever experts are
  -- in the resident stack, if zero tensors contribute nothing.
  pub prefill_output-reference :
      (l : Layer T F) (rows : List (X × ℕ))
      → IsLoaded l
      → many rows ≡ true
      → AllBelow c.num_experts (experts_of c k rows)
      → ZeroVanishes
      → prefill_output c k l rows ≡ some (reference c k rows)
  unfolding prefill_output
  prefill_output-reference l rows (whole full) long below vanish =
      if_true _ _ (many rows) long
      ∙ rw full (
          ap some (
            gather-eq c k (full_row c) (λ e. e) (build_cold c) rows
              (λ e m.
                full_row-eq c paired e
                  (contains-AllBelow c.num_experts e (experts_of c k rows) below m))))
  prefill_output-reference l rows (resident e es h full hot backing) long below vanish =
      if_true _ _ (many rows) long
      ∙ rw (full, hot, backing) (ap some (map-hot_output e es rows h vanish))
