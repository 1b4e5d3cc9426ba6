-- ===== src/Layer/Forward/Decode.antt =====
-- The staged path of `__call__` after `stage_experts`, against the reference.
use edge.Base.{
  ℕ, zero, suc, ◌+◌, ◌-◌, ◌≤◌, ◌≡◌, ◌≢◌, refl, ◌∙◌, sym, ap, List, [], ◌∷◌, ◌++◌, map, Option, none,
  some, true, false, ◌&&◌, contains, sorted_set, sorted_set-IsAscending, take-IsAscending,
  IsAscending-IsDistinct, IsDistinct, take, if◌then◌else◌, length, replicate, get_elem?, ◌==◌,
  arith, inl, inr, Bool-cases, if_true, if_false, length-take,
}
use edge.Layer.State.{Bundle, Config, Key, Staged, Incr, Layer}
use edge.Layer.Build.{build_cold}
use edge.Layer.Build.Exact.{IsPaired}
use edge.Layer.Incr.{zero_bundle}
use edge.Layer.Staging.{Built, Submission, number_from, stage_experts, wait_staged}
use edge.Layer.Staging.Sync.{IsIdle, Ready, wait_staged-stage_experts}
use edge.Layer.Forward.{
  Kernels, expert_math, stack_of, assemble, staged_row, staged_output, staged_path, decode,
}
use edge.Layer.Forward.Exact.{gather-eq, stack_of-get, stack_of-index, number_from-index}

-- The slot past the bundles is a zero slot.
get_elem?-past :
    {A : Type 0} (xs : List A) (m n : ℕ) (a : A)
    → m + length xs ≡ n + 1
    → length xs ≤ n
    → get_elem? (xs ++ replicate m a) n ≡ some a
get_elem?-past [] zero n a h fits = absurd (omega arith)
get_elem?-past [] (suc m) zero a h fits = refl
get_elem?-past [] (suc m) (suc n) a h fits = get_elem?-past [] m n a (omega arith) (omega arith)
get_elem?-past (x ∷ xs) m zero a h fits = absurd (omega arith)
get_elem?-past (x ∷ xs) m (suc n) a h fits = get_elem?-past xs m n a (omega arith) (omega arith)

module _ {T F X : Type 0} (c : Config T F) (k : Kernels T X) (paired : IsPaired c)
    (ckpt : Key → Bundle T) (own : (e : ℕ) → ckpt (c.layer_idx, e) ≡ build_cold c e) where
  -- The bundle that a staged step uses for an expert.
  abbrev pub served : List ℕ → ℕ → Bundle T
  served exp e = if contains e exp then build_cold c e else zero_bundle c

  length-map : (es : List ℕ) → length (map (build_cold c) es) ≡ length es
  length-map [] = refl
  length-map (e ∷ es) = ap suc (length-map es)

  assembled_row :
      (exp : List ℕ) (st : Staged T) (e : ℕ)
      → IsDistinct exp
      → length exp ≤ c.staged_n
      → st.slot_of ≡ number_from 0 exp (λ e. c.staged_n)
      → st.bundles ≡ map (build_cold c) exp
      → stack_of c k (assemble c k st.bundles) (st.slot_of e) ≡ served exp e
  unfolding assemble
  assembled_row exp st e d fits slots bundles =
      let stack = map (build_cold c) exp in
      let zeros = replicate (c.staged_n + 1 - length stack) (zero_bundle c) in
      let table = number_from 0 exp (λ e. c.staged_n) in
      ap (λ (b : List (Bundle T)). stack_of c k (assemble c k b) (st.slot_of e)) bundles
      ∙ ap (λ (t : ℕ → ℕ). stack_of c k (stack ++ zeros) (t e)) slots
      ∙ elim (Bool-cases (contains e exp)) [
        | inl m ↦
            stack_of-index c k exp zeros (λ e. c.staged_n) e d m
            ∙ sym (if_true _ _ (contains e exp) m)
        | inr m ↦
            ap (stack_of c k (stack ++ zeros))
              ((number_from-index c k 0 exp (λ e. c.staged_n) e d).1 m)
            ∙ stack_of-get c k _ _ (zero_bundle c) (
                get_elem?-past stack (c.staged_n + 1 - length stack) c.staged_n (zero_bundle c)
                  (omega (arith, length-map exp)) (omega (arith, length-map exp)))
            ∙ sym (if_false _ _ (contains e exp) m)
      ]

  staged_row-plain :
      (t : Option (Incr T)) (st : Staged T) (e : ℕ)
      → c.incr_mode ≡ false
      → staged_row c k t st e ≡ stack_of c k (assemble c k st.bundles) (st.slot_of e)
  unfolding staged_row
  staged_row-plain none st e plain = refl
  staged_row-plain (some t) st e plain = if_false _ _ c.incr_mode plain

  staged_row-stacked :
      (t : Incr T) (st : Staged T) (e : ℕ)
      → c.incr_mode ≡ true
      → staged_row c k (some t) st e ≡ t.rows (t.slot_table e)
  unfolding staged_row
  staged_row-stacked t st e incr = if_true _ _ c.incr_mode incr

  staged_row-served :
      (exp : List ℕ) (t : Option (Incr T)) (st : Staged T) (e : ℕ)
      → IsDistinct exp
      → length exp ≤ c.staged_n
      → Ready c paired ckpt own exp t st
      → staged_row c k t st e ≡ served exp e
  staged_row-served exp t st e d fits ready = elim (Bool-cases c.incr_mode) [
    | inl incr ↦
        let (t', some_t, present, dropped) = ready.stacked incr in
        ap (λ (o : Option (Incr T)). staged_row c k o st e) some_t
        ∙ staged_row-stacked t' st e incr
        ∙ elim (Bool-cases (contains e exp)) [
          | inl m ↦ present e m ∙ sym (if_true _ _ (contains e exp) m)
          | inr m ↦ dropped e m ∙ sym (if_false _ _ (contains e exp) m)
        ]
    | inr plain ↦
        let (slots, bundles) = ready.plain plain in
        staged_row-plain t st e plain ∙ assembled_row exp st e d fits slots bundles
  ]

  staged_path-active :
      (l : Layer T F) (st : Staged T) (rows : List (X × ℕ))
      → l.staged_state ≡ some st
      → (staged_path c k l rows).1 ≡ staged_output c k l.incr st rows
  unfolding staged_path
  staged_path-active l st rows h = rw h refl

  decode-staged :
      (l : Layer T F) (rows : List (X × ℕ)) (built : Built T) (again : Submission)
      → c.staged_mode ≡ true
      → length rows ≡ c.staged_trigger
      → decode c k l rows built again none ≡ staged_path c k (wait_staged c l built again none) rows
  unfolding decode
  decode-staged l rows built again on trigger =
      if_true _ _ (c.staged_mode && (length rows == c.staged_trigger)) (ground (arith, on, trigger))

  -- In the synchronous mode, after `stage_experts` a decode step gives every row whose expert is
  -- among the first `staged_n` of the sorted set exactly its checkpoint expert's output, and every
  -- other row the output of an expert of zeros. It does so through the persistent stack as well as
  -- through an assembled one.
  pub decode-stage_experts :
      (l : Layer T F) (experts : List ℕ) (rows : List (X × ℕ)) (built built' : Built T)
      (again sub again' : Submission)
      → c.staged_mode ≡ true
      → c.staged_sync ≡ true
      → sorted_set experts ≢ []
      → length rows ≡ c.staged_trigger
      → IsIdle c paired ckpt own l
      → (l' : Layer T F) × (stage_experts c l experts built again sub ≡ some l')
        × ((decode c k l' rows built' again' none).1
            ≡ map
                (λ (r : X × ℕ).
                  expert_math c k r.0 (served (take c.staged_n (sorted_set experts)) r.1))
                rows)
  unfolding staged_output
  decode-stage_experts l experts rows built built' again sub again' on sync some_expert trigger h =
      let exp = take c.staged_n (sorted_set experts) in
      let d =
        IsAscending-IsDistinct 0 exp
          (take-IsAscending 0 c.staged_n (sorted_set experts) (sorted_set-IsAscending experts)) in
      let fits : length exp ≤ c.staged_n =
        omega (arith, length-take c.staged_n (sorted_set experts)) in
      let (l', st, e, idle, kept, idle', active, exps, bundles, incr, ready) =
        wait_staged-stage_experts c paired ckpt own l experts built built' again sub again' on sync
          some_expert h in
      (
        l',
        e,
        ap (λ (o : Layer T F × List (Option X)). o.1)
              (decode-staged l' rows built' again' on trigger)
            ∙ staged_path-active (wait_staged c l' built' again' none) st rows active
            ∙ ap (λ (t : Option (Incr T)). staged_output c k t st rows) incr
            ∙ gather-eq c k (staged_row c k l'.incr st) (λ e. e) (served exp) rows
                (λ q m. staged_row-served exp l'.incr st q d fits ready),
      )
