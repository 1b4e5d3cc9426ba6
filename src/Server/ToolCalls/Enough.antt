-- ===== src/Server/ToolCalls/Enough.antt =====
-- The loop over the blocks of a text has enough rounds, and leaves the text whole where no block can be
-- parsed.
use native.Mathlib.Nat.{zero-add, suc-add}
use edge.Base.{
  ℕ, zero, suc, ◌+◌, ◌-◌, ◌<◌, [], ◌++◌, Option, none, some, length, length-append, ◌≡◌, refl, sym,
  ap, ◌∙◌, Bool, elim_none, elim_some, arith, Option-cases, inl, inr,
}
use edge.Server.Text.{Text, codes, literal, lazy, cut, strip}
use edge.Server.Text.Laws.{literal_sound, lazy_sound}
use edge.Server.Json.{Json}
use edge.Server.ToolCalls.{RawArgs, tool_call_block}
use edge.Server.ToolCalls.Split.{JsonText, add_block, split_from, finish_split, split}

-- A block that matches is its tags around its body.
tool_call_block_sound :
    (s body after : Text)
    → tool_call_block s ≡ some (body, after)
    → s ≡ codes "<tool_call>" ++ (body ++ (codes "</tool_call>" ++ after))
unfolding tool_call_block cut
tool_call_block_sound s body after h = elim (Option-cases (literal (codes "<tool_call>") s)) [
  | inl e ↦
      let missed =
        sym (elim_none none (cut (codes "</tool_call>")) (literal (codes "<tool_call>") s) e) ∙ h in
      absurd (ground arith)
  | inr (r, e) ↦
      let found =
        sym (elim_some none (cut (codes "</tool_call>")) (literal (codes "<tool_call>") s) r e)
        ∙ h in
      let (q, e1, e2) = lazy_sound (literal (codes "</tool_call>")) r body after found in
      literal_sound (codes "<tool_call>") s r e
      ∙ ap (λ t. codes "<tool_call>" ++ t)
          (e1 ∙ ap (λ t. body ++ t) (literal_sound (codes "</tool_call>") q after e2))
]

-- A search for a block splits the text.
lazy-tool_call_block :
    (s before body after : Text)
    → lazy tool_call_block s ≡ some (before, (body, after))
    → s ≡ before ++ (codes "<tool_call>" ++ (body ++ (codes "</tool_call>" ++ after)))
lazy-tool_call_block s before body after h =
    let (r, e1, e2) = lazy_sound tool_call_block s before (body, after) h in
    e1 ∙ ap (λ t. before ++ t) (tool_call_block_sound r body after e2)

-- What follows a block is shorter than the text.
after-shorter :
    (s before body after : Text)
    → lazy tool_call_block s ≡ some (before, (body, after))
    → length after < length s
after-shorter s before body after h = omega (
  arith,
  ap length (lazy-tool_call_block s before body after h),
  length-append before (codes "<tool_call>" ++ (body ++ (codes "</tool_call>" ++ after))),
  length-append body (codes "</tool_call>" ++ after),
)

module _ {N : Type 0} (json : JsonText N) (is_space : ℕ → Bool)
    (parse_block : Text → Option (Text × RawArgs)) (tools : Json N) where
  -- One round of the loop.
  pub split_from-step :
      (fuel : ℕ) (s before body after : Text)
      → lazy tool_call_block s ≡ some (before, (body, after))
      → split_from json is_space parse_block tools (suc fuel) s
        ≡ add_block json is_space parse_block tools before body
            (split_from json is_space parse_block tools fuel after)
  unfolding split_from
  split_from-step fuel s before body after e = rw (e, split_from) refl

  -- More rounds than the length of the text change nothing.
  split_from-enough :
      (fuel : ℕ) (s : Text)
      → length s < fuel
      → split_from json is_space parse_block tools (suc fuel) s
        ≡ split_from json is_space parse_block tools fuel s
  unfolding split_from
  split_from-enough zero s h = absurd (omega arith)
  split_from-enough (suc fuel) s h = elim (Option-cases (lazy tool_call_block s)) [
    | inl e ↦ rw (e, split_from) refl
    | inr ((before, (body, after)), e) ↦
        rw (e, split_from)
          (ap (add_block json is_space parse_block tools before body)
            (split_from-enough fuel after (omega (arith, after-shorter s before body after e))))
  ]

  -- Where no block can be parsed the content is the whole text.
  split_from-unparsed :
      (fuel : ℕ) (s : Text)
      → ((body : Text) → parse_block body ≡ none)
      → split_from json is_space parse_block tools fuel s ≡ (s, [])
  unfolding split_from add_block
  split_from-unparsed zero s h = refl
  split_from-unparsed (suc fuel) s h = elim (Option-cases (lazy tool_call_block s)) [
    | inl e ↦ rw (e, split_from) refl
    | inr ((before, (body, after)), e) ↦
        rw (e, split_from, add_block, h body, split_from-unparsed fuel after h)
          (ap (λ t. (t, [])) (sym (lazy-tool_call_block s before body after e)))
  ]

  split_from-add :
      (k : ℕ) (s : Text)
      → split_from json is_space parse_block tools (k + suc (length s)) s
        ≡ split_from json is_space parse_block tools (suc (length s)) s
  split_from-add zero s = rw zero-add refl
  split_from-add (suc k) s =
      rw suc-add (split_from-enough (k + suc (length s)) s (omega arith) ∙ split_from-add k s)

  -- Any bound above the length of the text gives what `_split` gives: the loop ends by itself.
  pub split-enough :
      (fuel : ℕ) (s : Text)
      → length s < fuel
      → finish_split json is_space parse_block tools
          (split_from json is_space parse_block tools fuel s)
        ≡ split json is_space parse_block tools s
  unfolding split
  split-enough fuel s h = ap (finish_split json is_space parse_block tools) (
      ap (λ n. split_from json is_space parse_block tools n s) (omega (arith, h))
      ∙ split_from-add (fuel - suc (length s)) s)

  -- Where no block can be parsed the content is the whole text, stripped, and there is no call.
  pub split-unparsed :
      (s : Text)
      → ((body : Text) → parse_block body ≡ none)
      → split json is_space parse_block tools s ≡ (some (strip is_space s), [])
  unfolding split finish_split
  split-unparsed s h =
      ap (finish_split json is_space parse_block tools) (split_from-unparsed (suc (length s)) s h)
