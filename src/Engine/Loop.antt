-- ===== src/Engine/Loop.antt =====
-- python/src/edge0/engine/base.py: `prefill`, `step`, `generate` and `reset` of Edge0Engine, over the
-- hooks of a model family. `S` is the state of the family, `L` the type of logits. A forward pass may
-- raise, which is `none`, and so may the hooks, which is `false`. Timing, printing and progress callbacks are left out.
pub mod Laws
pub mod Total
use edge.Layer.Bundles.{is_some}
use edge.Base.{
  ℕ, zero, suc, ◌+◌, List, [], ◌∷◌, ◌++◌, Option, none, some, Bool, true, false, ◌&&◌, length, take,
  drop, if◌then◌else◌, ◌==◌, leb,
}

-- What a family engine fills in.
pub record Family (S L : Type 0) : Type 0 where
  -- `_forward`, which reads whether a prefill is active.
  pub forward : (prefill_active : Bool) → S → List ℕ → S × Option L
  pub step_pre : S → ℕ → S × Bool
  pub step_post : S → ℕ → S × Bool
  pub prefill_end : S → S × Bool
  pub reset_state : S → S

-- `GenerationConfig` of python/src/edge0/config.py, less the parameters that only the sampler reads.
pub record GenerationConfig : Type 0 where
  pub max_new_tokens : ℕ
  pub first_token_greedy : Bool
  pub eos_ids : List ℕ

unfoldable pub is_eos : List ℕ → ℕ → Bool
is_eos [] token = false
is_eos (e ∷ es) token = let rest = is_eos es token in if e == token then true else rest

-- `core.argmax` and `sample`, which reads the history.
pub record Sampler (L : Type 0) : Type 0 where
  pub argmax : L → ℕ
  pub sample : L → (history : List ℕ) → ℕ

pub record Engine (S L : Type 0) : Type 0 where
  pub family : S
  pub pos : ℕ
  pub prefill_active : Bool
  pub last_logits : Option L

-- `token_ids[start:start + chunk_size]` for each start; the first argument bounds the loop.
unfoldable pub chunks : ℕ → (chunk_size : ℕ) → List ℕ → List (List ℕ)
chunks zero chunk_size ids = []
chunks (suc fuel) chunk_size [] = []
chunks (suc fuel) chunk_size (id ∷ ids) =
    take chunk_size (id ∷ ids) ∷ chunks fuel chunk_size (drop chunk_size (id ∷ ids))

module _ {S L : Type 0} (f : Family S L) where
  -- The loop of `prefill`; the Boolean tells whether no pass raised.
  unfoldable pub prefill_chunks : Engine S L → List (List ℕ) → Engine S L × Bool
  prefill_chunks e [] = (e, true)
  prefill_chunks e (chunk ∷ rest) =
      let (s, out) = f.forward e.prefill_active e.family chunk in
      elim out [
        | none ↦ (record e { family = s }, false)
        | some logits ↦
            prefill_chunks
              (record e { family = s; pos = e.pos + length chunk; last_logits = some logits }) rest
      ]

  -- What `_prefill_end` leaves.
  unfoldable pub prefill_ended : ℕ → Engine S L → S × Bool → Engine S L × Option ℕ
  prefill_ended total e (s, true) = (record e { family = s }, some total)
  prefill_ended total e (s, false) = (record e { family = s }, none)

  -- The end of `prefill`: `finally`, and what follows when nothing was raised.
  unfoldable pub finish_prefill : ℕ → Engine S L × Bool → Engine S L × Option ℕ
  unfolding prefill_ended
  finish_prefill total (e, true) =
      prefill_ended total (record e { prefill_active = false }) (f.prefill_end e.family)
  finish_prefill total (e, false) = (record e { prefill_active = false }, none)

  -- `prefill`. The total, or `none` for an exception; `range` raises at a step of zero.
  unfoldable pub prefill : (chunk_size : ℕ) → Engine S L → List ℕ → Engine S L × Option ℕ
  unfolding chunks prefill_chunks finish_prefill
  prefill zero e ids = (record e { prefill_active = false }, none)
  prefill (suc size) e ids =
      finish_prefill (length ids)
        (prefill_chunks (record e { prefill_active = true }) (chunks (length ids) (suc size) ids))

  -- `step` after `_step_post`, after the pass and after `_step_pre`.
  unfoldable pub step_ended : Engine S L → L → S × Bool → Engine S L × Option L
  step_ended e logits (s, true) = (record e { family = s }, some logits)
  step_ended e logits (s, false) = (record e { family = s }, none)

  unfoldable pub step_passed : Engine S L → ℕ → S × Option L → Engine S L × Option L
  unfolding step_ended
  step_passed e token (s, none) = (record e { family = s }, none)
  step_passed e token (s, some logits) =
      step_ended (record e { pos = e.pos + 1 }) logits (f.step_post s token)

  unfoldable pub step_begun : Engine S L → ℕ → S × Bool → Engine S L × Option L
  unfolding step_passed
  step_begun e token (s, true) = step_passed e token (f.forward e.prefill_active s (token ∷ []))
  step_begun e token (s, false) = (record e { family = s }, none)

  unfoldable pub step : Engine S L → ℕ → Engine S L × Option L
  unfolding step_begun
  step e token = step_begun e token (f.step_pre e.family token)

  module _ (sampler : Sampler L) (gen : GenerationConfig) where
    unfoldable pub choose : (first_token : Bool) → L → (history : List ℕ) → ℕ
    choose first_token logits history =
        if first_token && gen.first_token_greedy
        then sampler.argmax logits
        else sampler.sample logits history

    unfoldable pub emit : ℕ → Engine S L × Option (List ℕ) → Engine S L × Option (List ℕ)
    emit tid (e, none) = (e, none)
    emit tid (e, some tids) = (e, some (tid ∷ tids))

    -- The loop of `generate`: the rest of the output, or `none` for an exception. The first number is
    -- how many rounds are left.
    unfoldable pub generate_from :
        ℕ
        → Engine S L
        → (first_token : Bool) → (logits : Option L) → (history : List ℕ)
        → Engine S L × Option (List ℕ)
    unfolding choose step is_eos emit
    generate_from zero e first_token logits history = (e, some [])
    generate_from (suc rounds) e first_token none history = (e, none)
    generate_from (suc rounds) e first_token (some logits) history =
        let tid = choose first_token logits history in
        let (e', next) = step e tid in
        let rest = generate_from rounds e' false next (history ++ tid ∷ []) in
        if is_eos gen.eos_ids tid
        then (e, some [])
        else elim next [ none ↦ (e', none) | some _ ↦ emit tid rest ]

    -- What `generate` does with the prompt; false if a pass raised.
    unfoldable pub read_prompt : (chunk_size : ℕ) → Engine S L → List ℕ → Engine S L × Bool
    unfolding prefill
    read_prompt chunk_size e [] = (e, true)
    read_prompt chunk_size e (id ∷ []) =
        let (s, out) = f.forward e.prefill_active e.family (id ∷ []) in
        elim out [
          | none ↦ (record e { family = s }, false)
          | some logits ↦
              (record e { family = s; pos = e.pos + 1; last_logits = some logits }, true)
        ]
    read_prompt chunk_size e (id ∷ id' ∷ ids) =
        let (e', total) = prefill chunk_size e (id ∷ id' ∷ ids) in (e', is_some total)

    unfoldable pub begin_output : List ℕ → Engine S L × Bool → Engine S L × Option (List ℕ)
    unfolding generate_from
    begin_output ids (e, true) = generate_from gen.max_new_tokens e true e.last_logits ids
    begin_output ids (e, false) = (e, none)

    unfoldable pub generate : (chunk_size : ℕ) → Engine S L → List ℕ → Engine S L × Option (List ℕ)
    unfolding read_prompt begin_output
    generate chunk_size e ids = begin_output ids (read_prompt chunk_size e ids)

  unfoldable pub reset : Engine S L → Engine S L
  reset e = record e { family = f.reset_state e.family; pos = 0; last_logits = none }

-- `finish_reason` of python/src/edge0/server/chat.py
pub data FinishReason : Type 0 where
  length_reason stop_reason : FinishReason

unfoldable pub finish_reason : (max_new_tokens : ℕ) → List ℕ → FinishReason
finish_reason max_new_tokens tokens =
    if leb max_new_tokens (length tokens) then length_reason else stop_reason
