-- ===== src/Server/Text/Laws.antt =====
-- Lemmas on prefixes, stripping and searching.
use edge.Base.{
  ℕ, [], ◌∷◌, ◌++◌, Option, none, some, Bool, true, false, ◌≡◌, refl, ap, ◌∙◌, length, drop, arith,
  inl, inr, Option-cases, Bool-cases, contains, drop-append, if_true,
}
use edge.Server.Text.{Text, same, startswith, literal, rstrip, put_back, cons_fst, lazy, cut}

pub same→eq : (s t : Text) → same s t ≡ true → s ≡ t
unfolding same
same→eq [] [] h = refl
same→eq [] (d ∷ t) h = absurd (ground arith)
same→eq (c ∷ s) [] h = absurd (ground arith)
same→eq (c ∷ s) (d ∷ t) h = ground (arith, same→eq s t)

pub same_self : (s : Text) → same s s ≡ true
unfolding same
same_self [] = refl
same_self (c ∷ s) = ground (arith, same_self s)

pub startswith-rstrip : (p : ℕ → Bool) (s : Text) → startswith s (rstrip p s) ≡ true
unfolding startswith rstrip put_back
startswith-rstrip p [] = refl
startswith-rstrip p (c ∷ s) = ground (arith, startswith-rstrip p s)

-- A text that starts with a prefix is the prefix and what comes after its length.
pub append-drop :
    (text prefix : Text)
    → startswith text prefix ≡ true
    → prefix ++ drop (length prefix) text ≡ text
unfolding startswith
append-drop text [] h = refl
append-drop [] (p ∷ prefix) h = absurd (ground arith)
append-drop (c ∷ text) (p ∷ prefix) h = ground (arith, append-drop text prefix)

pub startswith_self : (prefix s : Text) → startswith (prefix ++ s) prefix ≡ true
unfolding startswith
startswith_self [] s = refl
startswith_self (p ∷ prefix) s = ground (arith, startswith_self prefix s)

pub literal_self : (prefix s : Text) → literal prefix (prefix ++ s) ≡ some s
unfolding literal
literal_self prefix s =
    if_true (some (drop (length prefix) (prefix ++ s))) none (startswith (prefix ++ s) prefix)
      (startswith_self prefix s)
    ∙ ap some (drop-append (length prefix) prefix s refl)

-- A prefix without `c` that fits before a `c` fits without it.
startswith-append :
    (c : ℕ) (a r prefix : Text)
    → contains c prefix ≡ false
    → startswith (a ++ c ∷ r) prefix ≡ true
    → startswith a prefix ≡ true
unfolding startswith contains
startswith-append c a r [] h e = ground arith
startswith-append c [] r (p ∷ prefix) h e = absurd (ground arith)
startswith-append c (x ∷ a) r (p ∷ prefix) h e = ground (arith, startswith-append c a r prefix)

-- `next` fails at every place of the first text, when the second follows it.
abbrev pub FailsBefore : {A : Type 0} → (Text → Option A) → Text → Text → Type 0
FailsBefore next [] r = Unit
FailsBefore next (c ∷ a) r = (next (c ∷ a ++ r) ≡ none) × FailsBefore next a r

lazy-here :
    {A : Type 0} (next : Text → Option A) (r : Text) (m : A)
    → next r ≡ some m
    → lazy next r ≡ some ([], m)
unfolding lazy
lazy-here next [] m e = rw (lazy, e) refl
lazy-here next (c ∷ r) m e = rw (lazy, e) refl

pub lazy-append :
    {A : Type 0} (next : Text → Option A) (a r : Text) (m : A)
    → FailsBefore next a r
    → next r ≡ some m
    → lazy next (a ++ r) ≡ some (a, m)
unfolding lazy cons_fst
lazy-append next [] r m h e = lazy-here next r m e
lazy-append next (c ∷ a) r m h e = rw (h.0, lazy-append next a r m h.1 e) refl

-- A search that fails from a text fails at its first place and from the next one.
lazy-none :
    {A : Type 0} (next : Text → Option A) (c : ℕ) (s : Text)
    → lazy next (c ∷ s) ≡ none
    → (next (c ∷ s) ≡ none) × (lazy next s ≡ none)
unfolding lazy cons_fst
lazy-none next c s h = ground (arith, Option-cases (next (c ∷ s)), Option-cases (lazy next s))

literal-append_none :
    (c x : ℕ) (t a r : Text)
    → contains c t ≡ false
    → literal (c ∷ t) (x ∷ a) ≡ none
    → literal (c ∷ t) (x ∷ a ++ c ∷ r) ≡ none
unfolding literal startswith
literal-append_none c x t a r h e = ground (arith, startswith-append c a r t)

-- A literal that is not in a text, and whose first character is not among its others, is first found
-- right behind the text.
pub cut-FailsBefore :
    (c : ℕ) (t a r : Text)
    → contains c t ≡ false
    → cut (c ∷ t) a ≡ none
    → FailsBefore (literal (c ∷ t)) a (c ∷ r)
unfolding cut
cut-FailsBefore c t [] r h e = tt
cut-FailsBefore c t (x ∷ a) r h e =
    let n = lazy-none (literal (c ∷ t)) x a e in
    (literal-append_none c x t a r h n.0, cut-FailsBefore c t a r h n.1)

pub cut-append :
    (c : ℕ) (t a r : Text)
    → contains c t ≡ false
    → cut (c ∷ t) a ≡ none
    → cut (c ∷ t) (a ++ (c ∷ t ++ r)) ≡ some (a, r)
unfolding cut
cut-append c t a r h e =
    lazy-append (literal (c ∷ t)) a (c ∷ t ++ r) r (cut-FailsBefore c t a (t ++ r) h e)
      (literal_self (c ∷ t) r)

-- A literal that matches is the start of the text.
pub literal_sound : (p s r : Text) → literal p s ≡ some r → s ≡ p ++ r
unfolding literal
literal_sound p s r h = ground (arith, append-drop s p, Bool-cases (startswith s p))

-- What a search finds stands behind the text that it skips.
pub lazy_sound :
    {A : Type 0} (next : Text → Option A) (s b : Text) (m : A)
    → lazy next s ≡ some (b, m)
    → (r : Text) × (s ≡ b ++ r) × (next r ≡ some m)
unfolding lazy cons_fst
lazy_sound next [] b m h = elim (Option-cases (next [])) [
  | inl e ↦ absurd (ground arith)
  | inr (a, e) ↦ ([], ground arith, ground arith)
]
lazy_sound next (c ∷ s) b m h = elim (Option-cases (next (c ∷ s))) [
  | inr (a, e) ↦ (c ∷ s, ground arith, ground arith)
  | inl e ↦ elim (Option-cases (lazy next s)) [
    | inl e' ↦ absurd (ground arith)
    | inr (p, e') ↦
        let (r, e1, e2) = lazy_sound next s p.0 p.1 e' in (r, ground arith, ground arith)
  ]
]

-- A pattern that begins with a literal fails where the literal fails.
pub FailsBefore-literal :
    {A : Type 0} (p : Text) (next : Text → Option A) (a r : Text)
    → ((t : Text) → literal p t ≡ none → next t ≡ none)
    → FailsBefore (literal p) a r
    → FailsBefore next a r
FailsBefore-literal p next [] r step h = tt
FailsBefore-literal p next (c ∷ a) r step h =
    (step (c ∷ a ++ r) h.0, FailsBefore-literal p next a r step h.1)

put_back-startswith :
    (p : ℕ → Bool) (c : ℕ) (s t : Text)
    → startswith s t ≡ true
    → startswith (put_back p c s) (put_back p c t) ≡ true
unfolding put_back startswith
put_back-startswith p c [] [] h = ground (arith, Bool-cases (p c))
put_back-startswith p c [] (y ∷ t) h = absurd (ground arith)
put_back-startswith p c (x ∷ s) [] h = ground (arith, Bool-cases (p c))
put_back-startswith p c (x ∷ s) (y ∷ t) h = ground arith

-- Stripping on the right keeps a prefix a prefix when more follows.
pub rstrip-append : (p : ℕ → Bool) (s r : Text) → startswith (rstrip p (s ++ r)) (rstrip p s) ≡ true
unfolding rstrip startswith
rstrip-append p [] r = refl
rstrip-append p (c ∷ s) r =
    put_back-startswith p c (rstrip p (s ++ r)) (rstrip p s) (rstrip-append p s r)
