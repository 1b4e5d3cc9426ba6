-- ===== src/Server/ToolCalls/Ling.antt =====
-- What a block of the ling dialect parses to.
use edge.Base.{
  ℕ, zero, suc, ◌≤◌, ◌<◌, List, [], ◌∷◌, ◌++◌, map, none, some, Bool, true, false, length, drop,
  length-append, ◌≡◌, refl, sym, ap, ◌∙◌, arith, append_assoc, append-nil, contains, elim_none,
  if_false, if_true, Bool,
}
use edge.Server.Text.{Text, codes, literal, literal, lstrip, strip, rstrip, lazy, cut}
use edge.Server.Text.Laws.{
  FailsBefore, lazy-append, cut-FailsBefore, cut-append, FailsBefore-literal,
}
use edge.Server.ToolCalls.{
  RawArgs, Pattern, parse_ling_block, is_blank, set_arg, until, until_some, some_text, ling_value,
  ling_key_end, ling_arg, arguments_from, parse_arguments, named,
}
use edge.Server.ToolCalls.Split.{member}

-- The arguments as the template of the checkpoint writes them, each of the two tags on a line of its own.
abbrev pub ling_args : RawArgs → Text
ling_args [] = []
ling_args ((key, value) ∷ args) =
    codes "<arg_key>"
    ++ (key
        ++ (codes "</arg_key>\n<arg_value>"
            ++ (value ++ (codes "</arg_value>\n" ++ ling_args args))))

set_arg-append :
    {V : Type 0} (key : Text) (v : V) (args : List (Text × V))
    → member key (map (λ a. a.0) args) ≡ false
    → set_arg key v args ≡ args ++ (key, v) ∷ []
unfolding set_arg member
set_arg-append key v [] h = refl
set_arg-append key v ((k, w) ∷ args) h = ground (arith, set_arg-append key v args)

until-stop : (c : ℕ) (s r : Text) → contains c s ≡ false → until c (s ++ c ∷ r) ≡ (s, c ∷ r)
unfolding until contains
until-stop c [] r h = ground arith
until-stop c (x ∷ s) r h = ground (arith, until-stop c s r)

until-end : (c : ℕ) (s : Text) → contains c s ≡ false → until c s ≡ (s, [])
unfolding until contains
until-end c [] h = refl
until-end c (x ∷ s) h = ground (arith, until-end c s)

until-ling_args :
    (s : Text) (args : RawArgs)
    → contains 60 s ≡ false
    → until 60 (s ++ ling_args args) ≡ (s, ling_args args)
until-ling_args s [] h = rw append-nil (until-end 60 s h)
until-ling_args s ((key, value) ∷ args) h =
    until-stop 60 s (drop 1 (ling_args ((key, value) ∷ args))) h

length-ling_args : (args : RawArgs) → length args ≤ length (ling_args args)
length-ling_args [] = omega arith
length-ling_args ((key, value) ∷ args) = omega (
  arith,
  length-ling_args args,
  length-append key
      (codes "</arg_key>\n<arg_value>" ++ (value ++ (codes "</arg_value>\n" ++ ling_args args))),
  length-append value (codes "</arg_value>\n" ++ ling_args args),
)

module _ (is_space : ℕ → Bool) where
  -- The arguments can be told apart in the text: each key is stripped, not blank, new, and without its closing tag, and
  -- each value is without its own.
  abbrev pub ArePlain : (before : RawArgs) → RawArgs → Type 0
  ArePlain before [] = Unit
  ArePlain before ((key, value) ∷ args) =
      ((strip is_space key ≡ key)
        × (is_blank is_space key ≡ false)
        × (member key (map (λ a. a.0) before) ≡ false)
        × (cut (codes "</arg_key>") key ≡ none)
        × (cut (codes "</arg_value>") value ≡ none))
      × ArePlain (before ++ (key, value) ∷ []) args

  -- A line break counts as white space, and `<` does not.
  abbrev pub IsSpacing : Type 0
  IsSpacing = (is_space 60 ≡ false) × (is_space 10 ≡ true)

  lstrip_tag : (s : Text) → IsSpacing → lstrip is_space (10 ∷ 60 ∷ s) ≡ 60 ∷ s
  unfolding lstrip
  lstrip_tag s sp =
      if_true (lstrip is_space (60 ∷ s)) (10 ∷ 60 ∷ s) (is_space 10) sp.1
      ∙ if_false (lstrip is_space s) (60 ∷ s) (is_space 60) sp.0

  -- What stands before the first argument and between two: nothing, or a line break.
  abbrev gap : (first : Bool) → Text
  gap true = []
  gap false = 10 ∷ []

  is_blank-gap : (first : Bool) → IsSpacing → is_blank is_space (gap first) ≡ true
  unfolding is_blank strip lstrip rstrip
  is_blank-gap true sp = refl
  is_blank-gap false sp = rw (sp.1, is_blank, strip, lstrip) refl

  gap-FailsBefore : (first : Bool) (r : Text) → FailsBefore (ling_arg is_space) (gap first) r
  unfolding ling_arg literal
  gap-FailsBefore true r = tt
  gap-FailsBefore false r = (refl, tt)

  key_end_here :
      (value after : Text)
      → IsSpacing
      → cut (codes "</arg_value>") value ≡ none
      → ling_key_end is_space
          (codes "</arg_key>\n<arg_value>" ++ (value ++ (codes "</arg_value>" ++ after)))
        ≡ some (value, after)
  unfolding ling_key_end ling_value contains
  key_end_here value after sp h =
      ap
        (λ t. elim (literal (codes "<arg_value>") t) [
          | none ↦ none
          | some r ↦ cut (codes "</arg_value>") r
        ])
        (lstrip_tag (codes "arg_value>" ++ (value ++ (codes "</arg_value>" ++ after))) sp)
      ∙ cut-append 60 (codes "/arg_value>") value after refl h

  key_end_none : (t : Text) → literal (codes "</arg_key>") t ≡ none → ling_key_end is_space t ≡ none
  unfolding ling_key_end
  key_end_none t e = elim_none none (ling_value is_space) (literal (codes "</arg_key>") t) e

  ling_arg_here :
      (key value after : Text)
      → IsSpacing
      → cut (codes "</arg_key>") key ≡ none
      → cut (codes "</arg_value>") value ≡ none
      → ling_arg is_space (
          codes "<arg_key>"
          ++ (key
              ++ (codes "</arg_key>\n<arg_value>" ++ (value ++ (codes "</arg_value>" ++ after)))))
        ≡ some (key, (value, after))
  unfolding ling_arg contains
  ling_arg_here key value after sp hk hv =
      lazy-append (ling_key_end is_space) key
        (codes "</arg_key>\n<arg_value>" ++ (value ++ (codes "</arg_value>" ++ after)))
        (value, after)
        (FailsBefore-literal (codes "</arg_key>") (ling_key_end is_space) key
          (codes "</arg_key>\n<arg_value>" ++ (value ++ (codes "</arg_value>" ++ after)))
          (λ t. key_end_none t)
          (cut-FailsBefore 60 (codes "/arg_key>") key
            (codes "/arg_key>\n<arg_value>" ++ (value ++ (codes "</arg_value>" ++ after))) refl hk))
        (key_end_here value after sp hv)

  arguments_from-step :
      (fuel : ℕ) (pattern : Pattern) (s between key value after : Text) (args : RawArgs)
      → lazy pattern s ≡ some (between, (key, (value, after)))
      → is_blank is_space between ≡ true
      → is_blank is_space key ≡ false
      → arguments_from is_space (suc fuel) pattern s args
        ≡ arguments_from is_space fuel pattern after (set_arg (strip is_space key) value args)
  unfolding arguments_from
  arguments_from-step fuel pattern s between key value after args e b k =
      rw (e, arguments_from, b, k) refl

  -- Behind the last argument only white space is left.
  arguments_from-gap :
      (fuel : ℕ) (first : Bool) (before : RawArgs)
      → IsSpacing
      → arguments_from is_space (suc fuel) (ling_arg is_space) (gap first) before ≡ some before
  unfolding arguments_from lazy ling_arg literal
  arguments_from-gap fuel true before sp =
      if_true (some before) none (is_blank is_space []) (is_blank-gap true sp)
  arguments_from-gap fuel false before sp =
      if_true (some before) none (is_blank is_space (10 ∷ [])) (is_blank-gap false sp)

  arguments_from-ling_args :
      (fuel : ℕ) (first : Bool) (before args : RawArgs)
      → length args < fuel
      → IsSpacing
      → ArePlain before args
      → arguments_from is_space fuel (ling_arg is_space) (gap first ++ ling_args args) before
        ≡ some (before ++ args)
  arguments_from-ling_args zero first before args h sp p = absurd (omega arith)
  arguments_from-ling_args (suc fuel) first before [] h sp p =
      ap (λ t. arguments_from is_space (suc fuel) (ling_arg is_space) t before)
        (append-nil (gap first))
      ∙ arguments_from-gap fuel first before sp
      ∙ ap some (sym (append-nil before))
  arguments_from-ling_args (suc fuel) first before ((key, value) ∷ args) h sp p =
      let q = p.0 in
      let text = ling_args ((key, value) ∷ args) in
      let after = 10 ∷ ling_args args in
      arguments_from-step fuel (ling_arg is_space) (gap first ++ text) (gap first) key value after
        before
        (lazy-append (ling_arg is_space) (gap first) text (key, (value, after))
          (gap-FailsBefore first text) (ling_arg_here key value after sp q.3 q.4))
        (is_blank-gap first sp) q.1
      ∙ rw q.0 (
          rw (set_arg-append key value before q.2) (
            arguments_from-ling_args fuel false (before ++ (key, value) ∷ []) args (omega arith) sp
              p.1
            ∙ ap some (append_assoc before ((key, value) ∷ []) args)))

  parse_ling_block-step :
      (body name rest : Text)
      → until_some 60 body ≡ some (name, rest)
      → parse_ling_block is_space body
        ≡ named is_space name (parse_arguments is_space rest (ling_arg is_space))
  unfolding parse_ling_block
  parse_ling_block-step body name rest e = rw (e, parse_ling_block) refl

  -- A block of the ling dialect is read back: a name without a tag that is not blank, stripped, and the
  -- arguments in their order.
  pub parse_ling_block-ling_args :
      (c : ℕ) (name : Text) (args : RawArgs)
      → IsSpacing
      → contains 60 (c ∷ name) ≡ false
      → is_blank is_space (c ∷ name) ≡ false
      → ArePlain [] args
      → parse_ling_block is_space (c ∷ name ++ ling_args args)
        ≡ some (strip is_space (c ∷ name), args)
  unfolding named until_some some_text parse_arguments
  parse_ling_block-ling_args c name args sp h b p =
      parse_ling_block-step (c ∷ name ++ ling_args args) (c ∷ name) (ling_args args)
        (ap some_text (until-ling_args (c ∷ name) args h))
      ∙ ap (named is_space (c ∷ name)) (
          arguments_from-ling_args (suc (length (ling_args args))) true [] args
            (omega (arith, length-ling_args args)) sp p)
      ∙ if_false none (some (strip is_space (c ∷ name), args)) (is_blank is_space (c ∷ name)) b

  -- What a list of calls is written as: the body of each block, and what it parses to.
  abbrev pub written : List (Text × RawArgs) → List (Text × (Text × RawArgs))
  written [] = []
  written ((name, args) ∷ calls) =
      (name ++ ling_args args, (strip is_space name, args)) ∷ written calls

  -- Each name is not blank and has no tag, the arguments can be told apart, and no block has the closing tag.
  abbrev pub AreReadable : List (Text × RawArgs) → Type 0
  AreReadable [] = Unit
  AreReadable ((name, args) ∷ calls) =
      ((contains 60 name ≡ false)
        × (is_blank is_space name ≡ false)
        × ArePlain [] args
        × (cut (codes "</tool_call>") (name ++ ling_args args) ≡ none))
      × AreReadable calls

  pub parse_ling_block-written :
      (name : Text) (args : RawArgs)
      → IsSpacing
      → AreReadable ((name, args) ∷ [])
      → parse_ling_block is_space (name ++ ling_args args) ≡ some (strip is_space name, args)
  unfolding is_blank strip lstrip rstrip
  parse_ling_block-written [] args sp r = absurd (ground arith)
  parse_ling_block-written (c ∷ name) args sp ((h, b, p, t), u) =
      parse_ling_block-ling_args c name args sp h b p
