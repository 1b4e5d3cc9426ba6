-- ===== src/Server/Stream.antt =====
-- python/src/edge0/server/app.py: `_split_think`, `_extract_tool_calls`, `_chat_once` and
-- `_chat_stream`. A request, a tool call and the usage are parameters; so are the tokenizer's `decode`
-- and the parser of the engine. The queue between the two threads of a stream keeps the order in which
-- its events were put, so a stream is the list of its events. Identifiers and times are left out.
pub mod Joined
pub mod Agree
use edge.Base.{
  ℕ, zero, suc, ◌+◌, List, [], ◌∷◌, ◌++◌, Option, none, some, Bool, true, false, ◌&&◌, ◌||◌, not,
  length, drop, if◌then◌else◌, ◌==◌,
}
use edge.Server.Text.{Text, codes, startswith, rstrip, strip, cut}

-- What the handlers read of a parsed request.
pub record Asked (C : Type 0) : Type 0 where
  -- `parse_tool_calls(content, tools=req.tools)` of the engine, if it has one; the content may be None.
  pub parse_tool_calls : Option (Text → Option Text × List C)
  pub has_tools : Bool
  pub choice_none : Bool
  pub choice_required : Bool
  pub enable_thinking : Option Bool
  pub engine_think : Bool

-- How `server.chat` ended, with the tokens that it reported to `on_token`. `M` is its `meta` and `X`
-- the exceptions. A generation that ends reports every token that it returns.
pub data ChatRun (M X : Type 0) : Type 0 where
  finished : (tokens : List ℕ) → M → ChatRun M X
  raised : (reported : List ℕ) → X → ChatRun M X

-- `None` in the finish reason of a delta is a `delta` event; the last chunk is a `final` one.
pub data Event (C M X : Type 0) : Type 0 where
  delta : Text → Event C M X
  final : (content : Option (Option Text)) (tool_calls : List C) → M → Event C M X
  done : Event C M X
  server_error : X → Event C M X

unfoldable pub is_empty : {A : Type 0} → List A → Bool
is_empty [] = true
is_empty (x ∷ xs) = false

unfoldable pub thinks : {C : Type 0} → Asked C → Bool
thinks req = elim req.enable_thinking [ none ↦ req.engine_think | some b ↦ b ]

-- U+FFFD
unfoldable pub is_replacement : ℕ → Bool
is_replacement c = c == 65533

unfoldable pub common : Text → Text → ℕ
common [] prev = 0
common (a ∷ safe) [] = 0
common (a ∷ safe) (b ∷ prev) = let rest = common safe prev in if a == b then suc rest else 0

unfoldable pub incremental_suffix : (prev : Text) → Text → Text
unfolding common startswith rstrip is_replacement
incremental_suffix prev text =
    let safe = rstrip is_replacement text in
    if startswith safe prev then drop (length prev) safe else drop (common safe prev) safe

module _ (is_space : ℕ → Bool) where
  unfoldable pub split_think : Text → (think : Bool) → Text × Text
  unfolding cut strip
  split_think text false = ([], text)
  split_think text true = elim (cut (codes "</think>") text) [
    | none ↦ (strip is_space text, [])
    | some (r, c) ↦ (strip is_space r, strip is_space c)
  ]

module _ {C : Type 0} (req : Asked C) where
  unfoldable pub extract_tool_calls : Text → Option Text × List C
  extract_tool_calls content =
      if req.choice_none || not req.has_tools && not req.choice_required
      then (some content, [])
      else elim req.parse_tool_calls [ none ↦ (some content, []) | some parse ↦ parse content ]

  unfoldable pub buffering : Bool
  buffering =
      req.has_tools
      && not req.choice_none
      && (elim req.parse_tool_calls [ none ↦ false | some _ ↦ true ])

-- `message` and the finish reason of `_chat_once`.
pub record Reply (C M : Type 0) : Type 0 where
  pub content : Option Text
  pub reasoning_content : Text
  pub tool_calls : List C
  pub meta : M

-- What `produce` and `on_token` keep: the ids seen, the text emitted, and the events, newest last.
pub record Stream (C M X : Type 0) : Type 0 where
  pub seen_ids : List ℕ
  pub emitted : Text
  pub events : List (Event C M X)

module _ {C M X : Type 0} where
  unfoldable pub emit : Text → List (Event C M X) → List (Event C M X)
  emit [] events = events
  emit (c ∷ text) events = events ++ delta (c ∷ text) ∷ []

  unfoldable pub start : Stream C M X
  start = record { seen_ids = []; emitted = []; events = [] }

module _ {C M X : Type 0} (decode : List ℕ → Text) where
  unfoldable pub on_token : Stream C M X → ℕ → Stream C M X
  unfolding emit incremental_suffix
  on_token s tid =
      let seen = s.seen_ids ++ tid ∷ [] in
      record {
        seen_ids = seen;
        emitted = rstrip is_replacement (decode seen);
        events = emit (incremental_suffix s.emitted (decode seen)) s.events;
      }

  unfoldable pub report : Stream C M X → List ℕ → Stream C M X
  unfolding on_token
  report s [] = s
  report s (tid ∷ tids) = report (on_token s tid) tids

  -- What the end of the generation gives out of the text that was held back.
  unfoldable pub tail : Stream C M X → Text
  unfolding startswith incremental_suffix
  tail s =
      let text = decode s.seen_ids in
      if startswith text s.emitted
      then drop (length s.emitted) text
      else incremental_suffix s.emitted text

module _ {C M : Type 0} (to_tool_calls : M → M) where
  unfoldable pub reply_of : (reasoning : Text) → M → Option Text × List C → Reply C M
  unfolding is_empty
  reply_of reasoning meta (content, calls) = record {
    content = content;
    reasoning_content = reasoning;
    tool_calls = calls;
    meta = if is_empty calls then meta else to_tool_calls meta;
  }

  -- The last chunk of a buffered reply.
  unfoldable pub buffered_final : {X : Type 0} → M → Option Text × List C → Event C M X
  buffered_final meta (content, []) = final (some content) [] meta
  buffered_final meta (content, call ∷ calls) =
      final (some content) (call ∷ calls) (to_tool_calls meta)

module _ {C M X : Type 0} (is_space : ℕ → Bool) (decode : List ℕ → Text) (req : Asked C)
    (to_tool_calls : M → M) where
  unfoldable pub chat_once : ChatRun M X → Option (Reply C M)
  unfolding split_think extract_tool_calls thinks reply_of
  chat_once (raised reported x) = none
  chat_once (finished tokens meta) =
      let (reasoning, text) = split_think is_space (decode tokens) (thinks req) in
      some (reply_of to_tool_calls reasoning meta (extract_tool_calls req text))

  unfoldable pub chat_stream : ChatRun M X → List (Event C M X)
  unfolding report tail emit buffering split_think extract_tool_calls buffered_final start
  chat_stream (finished tokens meta) =
      if buffering req
      then buffered_final to_tool_calls meta
          (extract_tool_calls req (split_think is_space (decode tokens) (thinks req)).1)
        ∷ done
        ∷ []
      else let s = report decode start tokens in
        emit (tail decode s) s.events ++ final none [] meta ∷ done ∷ []
  chat_stream (raised reported x) =
      (if buffering req then [] else (report decode start reported).events) ++ server_error x ∷ []
