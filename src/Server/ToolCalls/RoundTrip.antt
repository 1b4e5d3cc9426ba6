-- ===== src/Server/ToolCalls/RoundTrip.antt =====
-- A text with tool calls in the ling dialect is read back: the content, and the calls in their order.
use edge.Base.{
  ℕ, zero, suc, ◌≤◌, ◌<◌, List, [], ◌∷◌, ◌++◌, map, Option, none, some, Bool, length, drop,
  length-append, ◌≡◌, refl, ap, ◌∙◌, elim_none, arith, append-nil, contains, if◌then◌else◌,
}
use edge.Server.Text.{Text, codes, literal, literal, strip, cut}
use edge.Server.Text.Laws.{
  lazy-append, FailsBefore-literal, cut-FailsBefore, cut-append, FailsBefore,
}
use edge.Server.Json.{Json}
use edge.Server.ToolCalls.{RawArgs, tool_call_block, is_blank}
use edge.Server.ToolCalls.Enough.{split_from-step}
use edge.Server.ToolCalls.Split.{JsonText, call_of, add_block, split_from, finish_split, split}

-- A block for each body, one after the other.
abbrev pub blocks : List Text → Text
blocks [] = []
blocks (body ∷ bodies) = codes "<tool_call>" ++ (body ++ (codes "</tool_call>" ++ blocks bodies))

block_here :
    (body after : Text)
    → cut (codes "</tool_call>") body ≡ none
    → tool_call_block (codes "<tool_call>" ++ (body ++ (codes "</tool_call>" ++ after)))
      ≡ some (body, after)
unfolding tool_call_block contains
block_here body after h = cut-append 60 (codes "/tool_call>") body after refl h

-- The text has no opening tag, so no block starts in it whatever starts with a tag behind it.
no_block :
    (s r : Text) → cut (codes "<tool_call>") s ≡ none → FailsBefore tool_call_block s (60 ∷ r)
unfolding tool_call_block contains
no_block s r h =
    FailsBefore-literal (codes "<tool_call>") tool_call_block s (60 ∷ r)
      (λ t. elim_none none (cut (codes "</tool_call>")) (literal (codes "<tool_call>") t))
      (cut-FailsBefore 60 (codes "tool_call>") s r refl h)

length-blocks :
    {A : Type 0} (bs : List (Text × A)) → length bs ≤ length (blocks (map (λ b. b.0) bs))
length-blocks [] = omega arith
length-blocks ((body, a) ∷ bs) = omega (
  arith,
  length-append body (codes "</tool_call>" ++ blocks (map (λ b. b.0) bs)),
  length-blocks bs,
)

module _ {N : Type 0} (json : JsonText N) (is_space : ℕ → Bool)
    (parse_block : Text → Option (Text × RawArgs)) (tools : Json N) where
  -- Every body is a block that parses to what is given for it.
  abbrev pub AllParse : List (Text × (Text × RawArgs)) → Type 0
  AllParse [] = Unit
  AllParse ((body, parsed) ∷ rest) =
      (cut (codes "</tool_call>") body ≡ none) × (parse_block body ≡ some parsed) × AllParse rest

  split_from-blocks :
      (fuel : ℕ) (bs : List (Text × (Text × RawArgs)))
      → length bs < fuel
      → AllParse bs
      → split_from json is_space parse_block tools fuel (blocks (map (λ b. b.0) bs))
        ≡ ([], map (λ b. call_of json is_space tools b.1) bs)
  unfolding split_from
  split_from-blocks zero bs h a = absurd (omega arith)
  split_from-blocks (suc fuel) [] h a = refl
  split_from-blocks (suc fuel) ((body, parsed) ∷ bs) h a =
      let rest = blocks (map (λ b. b.0) bs) in
      split_from-step json is_space parse_block tools fuel (blocks (body ∷ map (λ b. b.0) bs)) []
        body rest
        (lazy-append tool_call_block [] (blocks (body ∷ map (λ b. b.0) bs)) (body, rest) tt
          (block_here body rest a.0))
      ∙ rw (split_from-blocks fuel bs (omega arith) a.2) (rw (add_block, a.1) refl)

  split_from-content :
      (fuel : ℕ) (content body : Text) (parsed : Text × RawArgs)
      (bs : List (Text × (Text × RawArgs)))
      → length bs < fuel
      → cut (codes "<tool_call>") content ≡ none
      → AllParse ((body, parsed) ∷ bs)
      → split_from json is_space parse_block tools
          (suc fuel)
          (content ++ blocks (body ∷ map (λ b. b.0) bs))
        ≡ (content, map (λ b. call_of json is_space tools b.1) ((body, parsed) ∷ bs))
  unfolding add_block call_of
  split_from-content fuel content body parsed bs fits h a =
      let rest = blocks (map (λ b. b.0) bs) in
      let whole = blocks (body ∷ map (λ b. b.0) bs) in
      split_from-step json is_space parse_block tools fuel (content ++ whole) content body rest (
        lazy-append tool_call_block content whole (body, rest) (no_block content (drop 1 whole) h)
          (block_here body rest a.0))
      ∙ rw (split_from-blocks fuel bs fits a.2) (rw (add_block, a.1, append-nil) refl)

  -- A text of a content without an opening tag and blocks that parse, at least one, is split into the
  -- content, stripped or None if blank, and the calls of the blocks in their order.
  pub split-blocks :
      (content body : Text) (parsed : Text × RawArgs) (bs : List (Text × (Text × RawArgs)))
      → cut (codes "<tool_call>") content ≡ none
      → AllParse ((body, parsed) ∷ bs)
      → split json is_space parse_block tools (content ++ blocks (body ∷ map (λ b. b.0) bs)) ≡ (
        if is_blank is_space content then none else some (strip is_space content),
        map (λ b. call_of json is_space tools b.1) ((body, parsed) ∷ bs),
      )
  unfolding split finish_split
  split-blocks content body parsed bs h a = ap (finish_split json is_space parse_block tools) (
      split_from-content (length (content ++ blocks (body ∷ map (λ b. b.0) bs))) content body parsed
        bs
        (omega (
          arith,
          length-append content (blocks (body ∷ map (λ b. b.0) bs)),
          length-append body (codes "</tool_call>" ++ blocks (map (λ b. b.0) bs)),
          length-blocks bs,
        ))
        h a)
