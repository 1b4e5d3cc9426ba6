-- ===== src/Server/Stream/Agree.antt =====
-- A streamed reply against the reply without a stream.
use edge.Base.{
  ℕ, List, [], ◌∷◌, ◌++◌, Option, none, some, Bool, false, ◌≡◌, refl, sym, ap, ◌∙◌, append-nil,
  if_true, if_false, arith, Bool-cases, Option-cases, inl, inr, if_ind, subst, if◌then◌else◌,
}
use edge.Server.Text.{Text, startswith}
use edge.Server.Stream.{
  Asked, ChatRun, finished, raised, Event, delta, final, done, server_error, Stream, emit, on_token,
  report, tail, start, Reply, chat_once, chat_stream, buffering, thinks, extract_tool_calls,
  split_think, reply_of, buffered_final, is_empty,
}
use edge.Server.Stream.Joined.{
  text_of, said, said-append, said-tail, report-IsKept, seen-report, IsStable,
}

module _ {C M X : Type 0} where
  abbrev pub only_done : List (Event C M X) → Bool
  only_done (done ∷ events) = is_empty events
  only_done (delta t ∷ events) = false
  only_done (final content calls meta ∷ events) = false
  only_done (server_error x ∷ events) = false
  only_done [] = false

  -- The tool calls and the metadata of a stream that is deltas, then one last chunk, then the end mark.
  abbrev pub ended : List (Event C M X) → Option (List C × M)
  ended (delta t ∷ events) = ended events
  ended (final content calls meta ∷ events) = if only_done events then some (calls, meta) else none
  ended (done ∷ events) = none
  ended (server_error x ∷ events) = none
  ended [] = none

  abbrev AllDeltas : List (Event C M X) → Type 0
  AllDeltas [] = Unit
  AllDeltas (delta t ∷ events) = AllDeltas events
  AllDeltas (final content calls meta ∷ events) = ⊥
  AllDeltas (done ∷ events) = ⊥
  AllDeltas (server_error x ∷ events) = ⊥

  ended-append : (xs ys : List (Event C M X)) → AllDeltas xs → ended (xs ++ ys) ≡ ended ys
  ended-append [] ys h = refl
  ended-append (delta t ∷ xs) ys h = ended-append xs ys h
  ended-append (final content calls meta ∷ xs) ys h = absurd h
  ended-append (done ∷ xs) ys h = absurd h
  ended-append (server_error x ∷ xs) ys h = absurd h

  append-AllDeltas :
      (xs : List (Event C M X)) (t : Text) → AllDeltas xs → AllDeltas (xs ++ delta t ∷ [])
  append-AllDeltas [] t h = tt
  append-AllDeltas (delta u ∷ xs) t h = append-AllDeltas xs t h
  append-AllDeltas (final content calls meta ∷ xs) t h = absurd h
  append-AllDeltas (done ∷ xs) t h = absurd h
  append-AllDeltas (server_error x ∷ xs) t h = absurd h

  emit-AllDeltas :
      (t : Text) (events : List (Event C M X)) → AllDeltas events → AllDeltas (emit t events)
  unfolding emit
  emit-AllDeltas [] events h = h
  emit-AllDeltas (c ∷ t) events h = append-AllDeltas events (c ∷ t) h

  report-AllDeltas :
      (decode : List ℕ → Text) (s : Stream C M X) (tids : List ℕ)
      → AllDeltas s.events
      → AllDeltas (report decode s tids).events
  unfolding report on_token
  report-AllDeltas decode s [] h = h
  report-AllDeltas decode s (tid ∷ tids) h =
      report-AllDeltas decode (on_token decode s tid) tids (emit-AllDeltas _ s.events h)

  -- The stream says the content of the reply and ends with its tool calls and metadata; where there is
  -- no reply it does not end so.
  abbrev pub SaysReply : List (Event C M X) → Option (Reply C M) → Type 0
  SaysReply events none = ended events ≡ none
  SaysReply events (some reply) =
      (said events ≡ text_of (some reply.content))
      × (ended events ≡ some (reply.tool_calls, reply.meta))

-- Nothing is extracted from a reply that is not buffered.
extract-unbuffered :
    {C : Type 0} (req : Asked C) (t : Text)
    → req.choice_required ≡ false
    → buffering req ≡ false
    → extract_tool_calls req t ≡ (some t, [])
unfolding extract_tool_calls buffering
extract-unbuffered req t r b =
    ground (
      arith,
      Option-cases req.parse_tool_calls,
      Bool-cases req.has_tools,
      Bool-cases req.choice_none,
    )

split_think_plain :
    (is_space : ℕ → Bool) (t : Text) (b : Bool) → b ≡ false → split_think is_space t b ≡ ([], t)
unfolding split_think
split_think_plain is_space t b h = rw h refl

module _ {C M : Type 0} (X : Type 0) (to_tool_calls : M → M) where
  buffered-SaysReply :
      (reasoning : Text) (meta : M) (p : Option Text × List C)
      → SaysReply {X = X}
          (buffered_final to_tool_calls meta p ∷ done ∷ [])
          (some (reply_of to_tool_calls reasoning meta p))
  unfolding buffered_final reply_of is_empty
  buffered-SaysReply reasoning meta (content, []) = (append-nil (text_of (some content)), refl)
  buffered-SaysReply reasoning meta (content, call ∷ calls) =
      (append-nil (text_of (some content)), refl)

  -- The stream of a reply that is not buffered.
  abbrev unbuffered : (List ℕ → Text) → List ℕ → M → List (Event C M X)
  unbuffered decode tokens meta =
      let s = report decode start tokens in
      emit (tail decode s) s.events ++ final none [] meta ∷ done ∷ []

  unbuffered-SaysReply :
      (decode : List ℕ → Text) (reasoning : Text) (tokens : List ℕ) (meta : M)
      → IsStable decode
      → SaysReply
          (unbuffered decode tokens meta)
          (some (reply_of to_tool_calls reasoning meta (some (decode tokens), [])))
  unfolding reply_of is_empty start startswith
  unbuffered-SaysReply decode reasoning tokens meta stable =
      let s = report decode (start {C = C} {M = M} {X = X}) tokens in
      let kept = report-IsKept decode start tokens stable (refl, refl, λ tid. refl) in
      let end = final none [] meta ∷ done ∷ [] in
      (
        said-append (emit (tail decode s) s.events) end
            ∙ append-nil (said (emit (tail decode s) s.events))
            ∙ said-tail decode s kept
            ∙ ap decode (seen-report decode (start {C = C} {M = M} {X = X}) tokens),
        ended-append (emit (tail decode s) s.events) end
            (emit-AllDeltas (tail decode s) s.events (report-AllDeltas decode start tokens tt)),
      )

module _ {C M X : Type 0} (is_space : ℕ → Bool) (decode : List ℕ → Text) (req : Asked C)
    (to_tool_calls : M → M) where
  -- If the decoder is stable, the request does not think and does not require a tool call, a stream
  -- says the content of the reply without a stream and ends with its tool calls and its metadata; if
  -- the generation raises there is no such reply, and the stream does not end so.
  pub chat_stream-SaysReply :
      (run : ChatRun M X)
      → IsStable decode
      → thinks req ≡ false
      → req.choice_required ≡ false
      → SaysReply
          (chat_stream is_space decode req to_tool_calls run)
          (chat_once is_space decode req to_tool_calls run)
  unfolding chat_stream chat_once
  chat_stream-SaysReply (raised reported x) stable plain free =
      let s = report decode (start {C = C} {M = M} {X = X}) reported in
      ended-append (if buffering req then [] else s.events) (server_error x ∷ []) (
        if_ind AllDeltas (buffering req) {x = []} {y = s.events} tt
          (report-AllDeltas decode start reported tt))
  chat_stream-SaysReply (finished tokens meta) stable plain free =
      let (reasoning, text) = split_think is_space (decode tokens) (thinks req) in
      let p = extract_tool_calls req text in
      let buffered = buffered_final to_tool_calls {X = X} meta p ∷ done ∷ [] in
      let plainly = unbuffered {C = C} X to_tool_calls decode tokens meta in
      let agrees = λ (events : List (Event C M X)).
        SaysReply events (some (reply_of to_tool_calls reasoning meta p)) in
      elim (Bool-cases (buffering req)) [
        | inl b ↦
            subst agrees (sym (if_true buffered plainly (buffering req) b))
              (buffered-SaysReply X to_tool_calls reasoning meta p)
        | inr b ↦ subst agrees (sym (if_false buffered plainly (buffering req) b)) (
            subst (λ q. SaysReply plainly (some (reply_of to_tool_calls reasoning meta q)))
              (sym (
                ap (λ w. extract_tool_calls req w.1)
                  (split_think_plain is_space (decode tokens) (thinks req) plain)
                ∙ extract-unbuffered req (decode tokens) free b))
              (unbuffered-SaysReply X to_tool_calls decode reasoning tokens meta stable))
      ]
