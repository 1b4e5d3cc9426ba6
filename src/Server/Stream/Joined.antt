-- ===== src/Server/Stream/Joined.antt =====
-- What the chunks of a stream say together, and that it is the reply without a stream.
use edge.Base.{
  ℕ, List, [], ◌∷◌, ◌++◌, Option, none, some, true, ◌≡◌, refl, sym, ap, ◌∙◌, append-nil,
  append_assoc, arith,
}
use edge.Server.Text.{Text, startswith, rstrip}
use edge.Server.Text.Laws.{startswith-rstrip, append-drop}
use edge.Server.Stream.{
  Event, delta, final, done, server_error, Stream, emit, on_token, report, tail, is_replacement,
  incremental_suffix,
}

abbrev pub text_of : Option (Option Text) → Text
text_of none = []
text_of (some none) = []
text_of (some (some t)) = t

suffix-append :
    (prev text : Text)
    → startswith (rstrip is_replacement text) prev ≡ true
    → prev ++ incremental_suffix prev text ≡ rstrip is_replacement text
unfolding incremental_suffix
suffix-append prev text h = ground (arith, append-drop (rstrip is_replacement text) prev h)

module _ {C M X : Type 0} where
  -- The contents of the chunks, joined.
  abbrev pub said : List (Event C M X) → Text
  said [] = []
  said (delta t ∷ events) = t ++ said events
  said (final content calls meta ∷ events) = text_of content ++ said events
  said (done ∷ events) = said events
  said (server_error x ∷ events) = said events

  pub said-append : (xs ys : List (Event C M X)) → said (xs ++ ys) ≡ said xs ++ said ys
  said-append [] ys = refl
  said-append (delta t ∷ xs) ys = rw (said-append xs ys) (sym (append_assoc t (said xs) (said ys)))
  said-append (final content calls meta ∷ xs) ys =
      rw (said-append xs ys) (sym (append_assoc (text_of content) (said xs) (said ys)))
  said-append (done ∷ xs) ys = said-append xs ys
  said-append (server_error x ∷ xs) ys = said-append xs ys

  said-emit : (t : Text) (events : List (Event C M X)) → said (emit t events) ≡ said events ++ t
  unfolding emit
  said-emit [] events = sym (append-nil (said events))
  said-emit (c ∷ t) events =
      said-append events (delta (c ∷ t) ∷ []) ∙ ap (λ u. said events ++ u) (append-nil (c ∷ t))

module _ (decode : List ℕ → Text) where
  -- One more token only adds to what the decoded text holds before its trailing replacement characters.
  abbrev pub IsStable : Type 0
  IsStable =
      (ids : List ℕ) (tid : ℕ)
      → startswith (rstrip is_replacement (decode (ids ++ tid ∷ [])))
          (rstrip is_replacement (decode ids))
        ≡ true

  module _ {C M X : Type 0} where
    -- The emitted text was said, and the decoded text starts with it, now and after the next token.
    abbrev pub IsKept : Stream C M X → Type 0
    IsKept s =
        (said s.events ≡ s.emitted)
        × (startswith (decode s.seen_ids) s.emitted ≡ true)
        × ((tid : ℕ)
            → startswith (rstrip is_replacement (decode (s.seen_ids ++ tid ∷ []))) s.emitted ≡ true)

    on_token-IsKept :
        (s : Stream C M X) (tid : ℕ) → IsStable → IsKept s → IsKept (on_token decode s tid)
    unfolding on_token
    on_token-IsKept s tid stable k = (
      said-emit (incremental_suffix s.emitted (decode (s.seen_ids ++ tid ∷ []))) s.events
          ∙ rw k.0 (suffix-append s.emitted (decode (s.seen_ids ++ tid ∷ [])) (k.2 tid)),
      startswith-rstrip is_replacement (decode (s.seen_ids ++ tid ∷ [])),
      stable (s.seen_ids ++ tid ∷ []),
    )

    pub report-IsKept :
        (s : Stream C M X) (tids : List ℕ) → IsStable → IsKept s → IsKept (report decode s tids)
    unfolding report
    report-IsKept s [] stable k = k
    report-IsKept s (tid ∷ tids) stable k =
        report-IsKept (on_token decode s tid) tids stable (on_token-IsKept s tid stable k)

    pub seen-report :
        (s : Stream C M X) (tids : List ℕ) → (report decode s tids).seen_ids ≡ s.seen_ids ++ tids
    unfolding report on_token
    seen-report s [] = sym (append-nil s.seen_ids)
    seen-report s (tid ∷ tids) =
        seen-report (on_token decode s tid) tids ∙ append_assoc s.seen_ids (tid ∷ []) tids

    tail-append : (s : Stream C M X) → IsKept s → s.emitted ++ tail decode s ≡ decode s.seen_ids
    unfolding tail
    tail-append s k = ground (arith, append-drop (decode s.seen_ids) s.emitted k.1)

    pub said-tail :
        (s : Stream C M X) → IsKept s → said (emit (tail decode s) s.events) ≡ decode s.seen_ids
    said-tail s k = said-emit (tail decode s) s.events ∙ rw k.0 (tail-append s k)
