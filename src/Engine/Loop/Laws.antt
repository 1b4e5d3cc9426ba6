-- ===== src/Engine/Loop/Laws.antt =====
-- What the shared loops promise: the chunks of a prompt, the position, and when a generation ends.
use edge.Base.{
  ℕ, zero, suc, ◌+◌, ◌≤◌, ◌≡◌, refl, ◌∙◌, sym, ap, List, [], ◌∷◌, ◌++◌, Option, none, some, Bool,
  true, false, not, ◌||◌, length, take, drop, arith, inl, inr, Bool-cases, Option-cases,
  take-append-drop, length-append, length-drop, length-take, if_true, if_false, elim_none,
  elim_some, subst,
}
use edge.Layer.Bundles.{is_some}
use edge.Engine.Loop.{
  Family, GenerationConfig, Sampler, Engine, is_eos, chunks, prefill_chunks, finish_prefill,
  prefill_ended, prefill, step, step_ended, step_passed, step_begun, emit, choose, generate_from,
  begin_output, read_prompt, generate,
}

-- The tokens of all chunks in order.
abbrev pub joined : List (List ℕ) → List ℕ
joined [] = []
joined (c ∷ cs) = c ++ joined cs

abbrev pub AllAtMost : ℕ → List (List ℕ) → Type 0
AllAtMost size [] = Unit
AllAtMost size (c ∷ cs) = (length c ≤ size) × AllAtMost size cs

-- The chunks of a prompt are the prompt in order, none longer than the chunk size, and the length of
-- the prompt is enough rounds.
pub joined-chunks :
    (fuel size : ℕ) (ids : List ℕ)
    → length ids ≤ fuel
    → (joined (chunks fuel (suc size) ids) ≡ ids)
      × AllAtMost (suc size) (chunks fuel (suc size) ids)
unfolding chunks
joined-chunks zero size [] h = (refl, tt)
joined-chunks zero size (id ∷ ids) h = absurd (omega arith)
joined-chunks (suc fuel) size [] h = (refl, tt)
joined-chunks (suc fuel) size (id ∷ ids) h =
    let (all, fit) =
      joined-chunks fuel size (drop size ids) (omega (arith, length-drop size ids)) in
    (
      ap (λ rest. id ∷ take size ids ++ rest) all ∙ ap (λ l. id ∷ l) (take-append-drop size ids),
      (omega (arith, length-take size ids), fit),
    )

module _ {S L : Type 0} (f : Family S L) where
  -- The number of tokens of some chunks.
  abbrev count : List (List ℕ) → ℕ
  count [] = 0
  count (c ∷ cs) = length c + count cs

  count-joined : (cs : List (List ℕ)) → count cs ≡ length (joined cs)
  count-joined [] = refl
  count-joined (c ∷ cs) = omega (arith, count-joined cs, length-append c (joined cs))

  -- The engine after a chunk that gave logits.
  abbrev pub after : Engine S L → List ℕ → L → Engine S L
  after e c logits = record e {
    family = (f.forward e.prefill_active e.family c).0;
    pos = e.pos + length c;
    last_logits = some logits;
  }

  pub prefill_chunks-next :
      (e : Engine S L) (c : List ℕ) (cs : List (List ℕ)) (logits : L)
      → (f.forward e.prefill_active e.family c).1 ≡ some logits
      → prefill_chunks f e (c ∷ cs) ≡ prefill_chunks f (after e c logits) cs
  unfolding prefill_chunks
  prefill_chunks-next e c cs logits h = rw (h, prefill_chunks) refl

  pub prefill_chunks-raise :
      (e : Engine S L) (c : List ℕ) (cs : List (List ℕ))
      → (f.forward e.prefill_active e.family c).1 ≡ none
      → prefill_chunks f e (c ∷ cs)
        ≡ (record e { family = (f.forward e.prefill_active e.family c).0 }, false)
  unfolding prefill_chunks
  prefill_chunks-raise e c cs h = rw (h, prefill_chunks) refl

  prefill_chunks-pos :
      (e : Engine S L) (cs : List (List ℕ))
      → (prefill_chunks f e cs).1 ≡ true
      → (prefill_chunks f e cs).0.pos ≡ e.pos + count cs
  unfolding prefill_chunks
  prefill_chunks-pos e [] h = omega arith
  prefill_chunks-pos e (c ∷ cs) h = elim (Option-cases (f.forward e.prefill_active e.family c).1) [
    | inl raised ↦ absurd (
        ground (arith, h, ap (λ (r : Engine S L × Bool). r.1) (prefill_chunks-raise e c cs raised)))
    | inr (logits, out) ↦
        let next = prefill_chunks-next e c cs logits out in
        let rest =
          prefill_chunks-pos (after e c logits) cs
            (sym (ap (λ (r : Engine S L × Bool). r.1) next) ∙ h) in
        ap (λ (r : Engine S L × Bool). r.0.pos) next ∙ rest ∙ omega arith
  ]

  -- Whether the passes over some chunks, or `_prefill_end` behind them, raise.
  unfoldable pub raises : S → List (List ℕ) → Bool
  raises s [] = not (f.prefill_end s).1
  raises s (c ∷ cs) =
      let rest = raises (f.forward true s c).0 cs in
      elim (f.forward true s c).1 [ none ↦ true | some _ ↦ rest ]

  abbrev fails_after : Engine S L × Bool → Bool
  fails_after r = not r.1 || not (f.prefill_end r.0.family).1

  raises-prefill_chunks :
      (e : Engine S L) (cs : List (List ℕ))
      → e.prefill_active ≡ true
      → raises e.family cs ≡ fails_after (prefill_chunks f e cs)
  unfolding raises prefill_chunks
  raises-prefill_chunks e [] h = refl
  raises-prefill_chunks e (c ∷ cs) h =
      elim (Option-cases (f.forward e.prefill_active e.family c).1) [
        | inl raised ↦
            elim_none true (λ _. raises (f.forward true e.family c).0 cs)
              (f.forward true e.family c).1
              (subst (λ b. (f.forward b e.family c).1 ≡ none) h raised)
            ∙ sym (ap fails_after (prefill_chunks-raise e c cs raised))
        | inr (logits, out) ↦
            elim_some true (λ _. raises (f.forward true e.family c).0 cs)
              (f.forward true e.family c).1 logits
              (subst (λ b. (f.forward b e.family c).1 ≡ some logits) h out)
            ∙ ap (λ b. raises (f.forward b e.family c).0 cs) (sym h)
            ∙ raises-prefill_chunks (after e c logits) cs h
            ∙ sym (ap fails_after (prefill_chunks-next e c cs logits out))
      ]

  -- Whether `prefill` raises: `range` does at a step of zero.
  abbrev pub prefill_raises : (size : ℕ) → S → List ℕ → Bool
  prefill_raises zero s ids = true
  prefill_raises (suc size) s ids = raises s (chunks (length ids) (suc size) ids)

  -- What `prefill` of `n` tokens ends in, `pos` being the position after them and `fails` whether it raises.
  abbrev pub Prefilled : (n pos : ℕ) → (fails : Bool) → Engine S L × Option ℕ → Type 0
  Prefilled n pos fails (e, none) = (e.prefill_active ≡ false) × (fails ≡ true)
  Prefilled n pos fails (e, some total) =
      (e.prefill_active ≡ false) × (total ≡ n) × (e.pos ≡ pos) × (fails ≡ false)

  prefill_ended-Prefilled :
      (n pos : ℕ) (fails : Bool) (e : Engine S L) (s : S × Bool)
      → e.prefill_active ≡ false
      → e.pos ≡ pos
      → fails ≡ not s.1
      → Prefilled n pos fails (prefill_ended f n e s)
  unfolding prefill_ended
  prefill_ended-Prefilled n pos fails e (s, true) inactive at h = (inactive, refl, at, h)
  prefill_ended-Prefilled n pos fails e (s, false) inactive at h = (inactive, h)

  finish_prefill-Prefilled :
      (n pos : ℕ) (fails : Bool) (r : Engine S L × Bool)
      → (r.1 ≡ true → r.0.pos ≡ pos)
      → fails ≡ (not r.1 || not (f.prefill_end r.0.family).1)
      → Prefilled n pos fails (finish_prefill f n r)
  unfolding finish_prefill
  finish_prefill-Prefilled n pos fails (e, true) h k =
      prefill_ended-Prefilled n pos fails (record e { prefill_active = false })
        (f.prefill_end e.family) refl (h refl) k
  finish_prefill-Prefilled n pos fails (e, false) h k = (refl, k)

  -- `prefill` raises exactly if the chunk size is 0, a pass over a chunk raises or `_prefill_end` does.
  -- Otherwise it returns the number of tokens, and the position is that much further. In either case it
  -- leaves the prefill mode.
  pub prefill-Prefilled :
      (size : ℕ) (e : Engine S L) (ids : List ℕ)
      → Prefilled
          (length ids)
          (e.pos + length ids)
          (prefill_raises size e.family ids)
          (prefill f size e ids)
  unfolding prefill
  prefill-Prefilled zero e ids = (refl, refl)
  prefill-Prefilled (suc size) e ids =
      let cs = chunks (length ids) (suc size) ids in
      let started : Engine S L = record e { prefill_active = true } in
      let all = joined-chunks (length ids) size ids (omega arith) in
      finish_prefill-Prefilled (length ids) (e.pos + length ids) (raises e.family cs)
        (prefill_chunks f started cs)
        (λ h.
          prefill_chunks-pos started cs h ∙ ap (λ n. e.pos + n) (count-joined cs ∙ ap length all.0))
        (raises-prefill_chunks started cs refl)

  -- Where a step that gives logits leaves the position.
  abbrev Moved : ℕ → Engine S L × Option L → Type 0
  Moved pos (e, none) = Unit
  Moved pos (e, some logits) = e.pos ≡ pos

  step_ended-Moved :
      (e : Engine S L) (logits : L) (s : S × Bool) → Moved e.pos (step_ended f e logits s)
  unfolding step_ended
  step_ended-Moved e logits (s, true) = refl
  step_ended-Moved e logits (s, false) = tt

  step_passed-Moved :
      (e : Engine S L) (token : ℕ) (r : S × Option L) → Moved (e.pos + 1) (step_passed f e token r)
  unfolding step_passed
  step_passed-Moved e token (s, none) = tt
  step_passed-Moved e token (s, some logits) =
      step_ended-Moved (record e { pos = e.pos + 1 }) logits (f.step_post s token)

  step_begun-Moved :
      (e : Engine S L) (token : ℕ) (s : S × Bool) → Moved (e.pos + 1) (step_begun f e token s)
  unfolding step_begun
  step_begun-Moved e token (s, true) =
      step_passed-Moved e token (f.forward e.prefill_active s (token ∷ []))
  step_begun-Moved e token (s, false) = tt

  Moved-pos :
      (pos : ℕ) (r : Engine S L × Option L) (logits : L)
      → Moved pos r
      → r.1 ≡ some logits
      → r.0.pos ≡ pos
  Moved-pos pos (e, none) logits m h = absurd (ground (arith, h))
  Moved-pos pos (e, some l) logits m h = m

  step-pos :
      (e : Engine S L) (token : ℕ) (logits : L)
      → (step f e token).1 ≡ some logits
      → (step f e token).0.pos ≡ e.pos + 1
  unfolding step
  step-pos e token logits h =
      Moved-pos (e.pos + 1) (step f e token) logits
        (step_begun-Moved e token (f.step_pre e.family token)) h

  module _ (sampler : Sampler L) (gen : GenerationConfig) where
    -- No token of the list ends a generation.
    abbrev pub NoEos : List ℕ → Type 0
    NoEos [] = Unit
    NoEos (t ∷ ts) = (is_eos gen.eos_ids t ≡ false) × NoEos ts

    -- What a run of at most `rounds` rounds from position `pos` may end in: an exception, or an output.
    abbrev pub Ended : ℕ → ℕ → Engine S L × Option (List ℕ) → Type 0
    Ended rounds pos (e, none) = Unit
    Ended rounds pos (e, some out) = (length out ≤ rounds) × NoEos out × (e.pos ≡ pos + length out)

    emit-Ended :
        (rounds pos tid : ℕ) (r : Engine S L × Option (List ℕ))
        → is_eos gen.eos_ids tid ≡ false
        → Ended rounds (pos + 1) r
        → Ended (suc rounds) pos (emit f sampler gen tid r)
    unfolding emit
    emit-Ended rounds pos tid (e, none) h k = tt
    emit-Ended rounds pos tid (e, some tids) h k =
        (omega (arith, k.0), (h, k.1), omega (arith, k.2))

    module _ (rounds : ℕ) (e : Engine S L) (first : Bool) (logits : L) (history : List ℕ) where
      abbrev pub tid : ℕ
      tid = choose f sampler gen first logits history

      abbrev pub rest : Option L → Engine S L × Option (List ℕ)
      rest next =
          generate_from f sampler gen rounds (step f e tid).0 false next (history ++ tid ∷ [])

      abbrev pub here : Engine S L × Option (List ℕ)
      here = generate_from f sampler gen (suc rounds) e first (some logits) history

      pub here-eos : is_eos gen.eos_ids tid ≡ true → here ≡ (e, some [])
      unfolding generate_from
      here-eos h = if_true _ _ (is_eos gen.eos_ids tid) h

      pub here-raise :
          is_eos gen.eos_ids tid ≡ false → (step f e tid).1 ≡ none → here ≡ ((step f e tid).0, none)
      unfolding generate_from
      here-raise h r = if_false _ _ (is_eos gen.eos_ids tid) h ∙ elim_none _ _ (step f e tid).1 r

      pub here-emit :
          (next : L)
          → is_eos gen.eos_ids tid ≡ false
          → (step f e tid).1 ≡ some next
          → here ≡ emit f sampler gen tid (rest (some next))
      unfolding generate_from
      here-emit next h r =
          if_false _ _ (is_eos gen.eos_ids tid) h
          ∙ elim_some _ (λ _. emit f sampler gen tid (rest (step f e tid).1)) (step f e tid).1 next
              r
          ∙ ap (λ n. emit f sampler gen tid (rest n)) r

    generate_from-Ended :
        (rounds : ℕ) (e : Engine S L) (first : Bool) (logits : Option L) (history : List ℕ)
        → Ended rounds e.pos (generate_from f sampler gen rounds e first logits history)
    unfolding generate_from
    generate_from-Ended zero e first logits history = (omega arith, tt, omega arith)
    generate_from-Ended (suc rounds) e first none history = tt
    generate_from-Ended (suc rounds) e first (some logits) history =
        let t = tid rounds e first logits history in
        elim (Bool-cases (is_eos gen.eos_ids t)) [
          | inl eos ↦
              subst (Ended (suc rounds) e.pos) (sym (here-eos rounds e first logits history eos))
                (omega arith, tt, omega arith)
          | inr go ↦ elim (Option-cases (step f e t).1) [
            | inl raised ↦
                subst (Ended (suc rounds) e.pos)
                  (sym (here-raise rounds e first logits history go raised)) tt
            | inr (next, out) ↦
                let rest =
                  generate_from-Ended rounds (step f e t).0 false (some next) (history ++ t ∷ []) in
                subst (Ended (suc rounds) e.pos)
                  (sym (here-emit rounds e first logits history next go out))
                  (emit-Ended rounds e.pos t _ go (
                    subst
                      (λ pos. Ended rounds pos (
                        generate_from f sampler gen rounds (step f e t).0 false (some next)
                          (history ++ t ∷ [])))
                      (step-pos e t next out) rest))
          ]
        ]

    Prefilled-pos :
        (n pos : ℕ) (fails : Bool) (r : Engine S L × Option ℕ)
        → Prefilled n pos fails r
        → is_some r.1 ≡ true
        → r.0.pos ≡ pos
    unfolding is_some
    Prefilled-pos n pos fails (e, none) p h = absurd (ground (arith, h))
    Prefilled-pos n pos fails (e, some total) p h = p.2

    read_prompt-pos :
        (size : ℕ) (e : Engine S L) (ids : List ℕ)
        → (read_prompt f sampler gen size e ids).1 ≡ true
        → (read_prompt f sampler gen size e ids).0.pos ≡ e.pos + length ids
    unfolding read_prompt is_some
    read_prompt-pos size e [] h = omega arith
    read_prompt-pos size e (id ∷ []) h =
        elim (Option-cases (f.forward e.prefill_active e.family (id ∷ [])).1) [
          | inl raised ↦ absurd (ground (arith, h, raised))
          | inr (out, o) ↦ rw (o, read_prompt) (omega arith)
        ]
    read_prompt-pos size e (id ∷ id' ∷ ids) h =
        Prefilled-pos (length (id ∷ id' ∷ ids)) (e.pos + length (id ∷ id' ∷ ids)) _
          (prefill f size e (id ∷ id' ∷ ids)) (prefill-Prefilled size e (id ∷ id' ∷ ids)) h

    begin_output-Ended :
        (pos : ℕ) (ids : List ℕ) (r : Engine S L × Bool)
        → (r.1 ≡ true → r.0.pos ≡ pos)
        → Ended gen.max_new_tokens pos (begin_output f sampler gen ids r)
    unfolding begin_output
    begin_output-Ended pos ids (e, true) h =
        subst
          (λ p.
            Ended gen.max_new_tokens p
              (generate_from f sampler gen gen.max_new_tokens e true e.last_logits ids))
          (h refl) (generate_from-Ended gen.max_new_tokens e true e.last_logits ids)
    begin_output-Ended pos ids (e, false) h = tt

    -- A generation that raises nothing gives at most `max_new_tokens` tokens, none of which ends a
    -- generation, and the position has gone on by the prompt and the output.
    pub generate-Ended :
        (size : ℕ) (e : Engine S L) (ids : List ℕ)
        → Ended gen.max_new_tokens (e.pos + length ids) (generate f sampler gen size e ids)
    unfolding generate
    generate-Ended size e ids =
        begin_output-Ended (e.pos + length ids) ids (read_prompt f sampler gen size e ids)
          (read_prompt-pos size e ids)
