-- ===== src/Engine/Loop/Total.antt =====
-- When neither a pass nor a hook raises, `generate` returns.
use edge.Base.{
  ℕ, zero, suc, ◌+◌, ◌≡◌, refl, sym, subst, List, [], ◌∷◌, ◌++◌, Option, none, some, Bool, true,
  false, length, inl, inr, Bool-cases, arith,
}
use edge.Layer.Bundles.{is_some}
use edge.Engine.Loop.{
  Family, GenerationConfig, Sampler, Engine, is_eos, chunks, prefill_chunks, finish_prefill,
  prefill_ended, prefill, step, step_ended, step_passed, step_begun, emit, generate_from,
  read_prompt, begin_output, generate,
}
use edge.Engine.Loop.Laws.{here-eos, here-emit, tid, prefill_chunks-next, after}

module _ {S L : Type 0} (f : Family S L)
    (responds : (active : Bool) (s : S) (ids : List ℕ)
      → (l : L) × ((f.forward active s ids).1 ≡ some l))
    (begins : (s : S) (token : ℕ) → (f.step_pre s token).1 ≡ true)
    (ends : (s : S) (token : ℕ) → (f.step_post s token).1 ≡ true)
    (prefills : (s : S) → (f.prefill_end s).1 ≡ true) where
  -- The last pass has left logits.
  abbrev HasLogits : Engine S L → Type 0
  HasLogits e = (l : L) × (e.last_logits ≡ some l)

  rest-total :
      (e : Engine S L) (cs : List (List ℕ))
      → HasLogits e
      → ((prefill_chunks f e cs).1 ≡ true) × HasLogits (prefill_chunks f e cs).0
  unfolding prefill_chunks
  rest-total e [] h = (refl, h)
  rest-total e (c ∷ cs) h =
      let (l, out) = responds e.prefill_active e.family c in
      subst (λ (r : Engine S L × Bool). (r.1 ≡ true) × HasLogits r.0)
        (sym (prefill_chunks-next f e c cs l out)) (rest-total (after f e c l) cs (l, refl))

  prefill_chunks-total :
      (e : Engine S L) (c : List ℕ) (cs : List (List ℕ))
      → ((prefill_chunks f e (c ∷ cs)).1 ≡ true) × HasLogits (prefill_chunks f e (c ∷ cs)).0
  prefill_chunks-total e c cs =
      let (l, out) = responds e.prefill_active e.family c in
      subst (λ (r : Engine S L × Bool). (r.1 ≡ true) × HasLogits r.0)
        (sym (prefill_chunks-next f e c cs l out)) (rest-total (after f e c l) cs (l, refl))

  prefill_ended-total :
      (n : ℕ) (e : Engine S L) (s : S × Bool)
      → s.1 ≡ true
      → HasLogits e
      → (is_some (prefill_ended f n e s).1 ≡ true) × HasLogits (prefill_ended f n e s).0
  unfolding prefill_ended is_some
  prefill_ended-total n e (s, true) h l = (refl, l)
  prefill_ended-total n e (s, false) h l = absurd (ground (arith, h))

  finish_prefill-total :
      (n : ℕ) (r : Engine S L × Bool)
      → (r.1 ≡ true) × HasLogits r.0
      → (is_some (finish_prefill f n r).1 ≡ true) × HasLogits (finish_prefill f n r).0
  unfolding finish_prefill is_some
  finish_prefill-total n (e, true) h =
      prefill_ended-total n (record e { prefill_active = false }) (f.prefill_end e.family)
        (prefills e.family) h.1
  finish_prefill-total n (e, false) h = absurd (ground (arith, h.0))

  prefill-total :
      (size : ℕ) (e : Engine S L) (id : ℕ) (ids : List ℕ)
      → (is_some (prefill f (suc size) e (id ∷ ids)).1 ≡ true)
        × HasLogits (prefill f (suc size) e (id ∷ ids)).0
  unfolding prefill chunks
  prefill-total size e id ids =
      let started : Engine S L = record e { prefill_active = true } in
      let cs = chunks (length (id ∷ ids)) (suc size) (id ∷ ids) in
      finish_prefill-total (length (id ∷ ids)) (prefill_chunks f started cs)
        (prefill_chunks-total started _ _)

  -- A step that gives logits.
  abbrev Gives : Engine S L × Option L → Type 0
  Gives r = (l : L) × (r.1 ≡ some l)

  step_ended-total :
      (e : Engine S L) (logits : L) (s : S × Bool) → s.1 ≡ true → Gives (step_ended f e logits s)
  unfolding step_ended
  step_ended-total e logits (s, true) h = (logits, refl)
  step_ended-total e logits (s, false) h = absurd (ground (arith, h))

  step_passed-total :
      (e : Engine S L) (token : ℕ) (r : S × Option L) (l : L)
      → r.1 ≡ some l
      → Gives (step_passed f e token r)
  unfolding step_passed
  step_passed-total e token (s, none) l h = absurd (ground (arith, h))
  step_passed-total e token (s, some logits) l h =
      step_ended-total (record e { pos = e.pos + 1 }) logits (f.step_post s token) (ends s token)

  step_begun-total :
      (e : Engine S L) (token : ℕ) (s : S × Bool) → s.1 ≡ true → Gives (step_begun f e token s)
  unfolding step_begun
  step_begun-total e token (s, true) h =
      let (l, out) = responds e.prefill_active s (token ∷ []) in
      step_passed-total e token (f.forward e.prefill_active s (token ∷ [])) l out
  step_begun-total e token (s, false) h = absurd (ground (arith, h))

  step-total : (e : Engine S L) (token : ℕ) → Gives (step f e token)
  unfolding step
  step-total e token = step_begun-total e token (f.step_pre e.family token) (begins e.family token)

  module _ (sampler : Sampler L) (gen : GenerationConfig) where
    abbrev Returns : Engine S L × Option (List ℕ) → Type 0
    Returns r = (out : List ℕ) × (r.1 ≡ some out)

    emit-total :
        (tid : ℕ) (r : Engine S L × Option (List ℕ))
        → Returns r
        → Returns (emit f sampler gen tid r)
    unfolding emit
    emit-total tid (e, none) (out, h) = absurd (ground (arith, h))
    emit-total tid (e, some tids) h = (tid ∷ tids, refl)

    generate_from-total :
        (rounds : ℕ) (e : Engine S L) (first : Bool) (l : L) (history : List ℕ)
        → Returns (generate_from f sampler gen rounds e first (some l) history)
    unfolding generate_from
    generate_from-total zero e first l history = ([], refl)
    generate_from-total (suc rounds) e first l history =
        let t = tid f sampler gen rounds e first l history in
        let (next, out) = step-total e t in
        elim (Bool-cases (is_eos gen.eos_ids t)) [
          | inl eos ↦
              subst Returns (sym (here-eos f sampler gen rounds e first l history eos)) ([], refl)
          | inr go ↦
              subst Returns (sym (here-emit f sampler gen rounds e first l history next go out)) (
                emit-total t _
                  (generate_from-total rounds (step f e t).0 false next (history ++ t ∷ [])))
        ]

    read_prompt-total :
        (size : ℕ) (e : Engine S L) (id : ℕ) (ids : List ℕ)
        → ((read_prompt f sampler gen (suc size) e (id ∷ ids)).1 ≡ true)
          × HasLogits (read_prompt f sampler gen (suc size) e (id ∷ ids)).0
    unfolding read_prompt
    read_prompt-total size e id [] =
        let (l, out) = responds e.prefill_active e.family (id ∷ []) in
        (rw (out, read_prompt) refl, (l, rw (out, read_prompt) refl))
    read_prompt-total size e id (id' ∷ ids) = prefill-total size e id (id' ∷ ids)

    begin_output-total :
        (ids : List ℕ) (r : Engine S L × Bool)
        → (r.1 ≡ true) × HasLogits r.0
        → Returns (begin_output f sampler gen ids r)
    unfolding begin_output
    begin_output-total ids (e, true) (h, (l, eq)) =
        subst (λ o. Returns (generate_from f sampler gen gen.max_new_tokens e true o ids)) (sym eq)
          (generate_from-total gen.max_new_tokens e true l ids)
    begin_output-total ids (e, false) h = absurd (ground (arith, h.0))

    -- On a prompt that is not empty, with chunks of at least one token and no pass and no hook that
    -- raises, `generate` returns an output.
    pub generate-total :
        (size : ℕ) (e : Engine S L) (id : ℕ) (ids : List ℕ)
        → (out : List ℕ) × ((generate f sampler gen (suc size) e (id ∷ ids)).1 ≡ some out)
    unfolding generate
    generate-total size e id ids =
        begin_output-total (id ∷ ids) (read_prompt f sampler gen (suc size) e (id ∷ ids))
          (read_prompt-total size e id ids)
