-- ===== src/Server/Session.antt =====
-- python/src/edge0/server/chat.py: `ChatSession` and `QueueServer`. The tokenizer, the chat template and
-- the engine's `encode_chat` are parameters; a template that raises is told apart by its exception. The
-- time of a run is left out. The lock of the server runs one request after the other.
use edge.Base.{
  ℕ, ◌+◌, List, [], ◌∷◌, ◌++◌, Option, none, some, Bool, true, false, length, if◌then◌else◌,
}
use edge.Server.Text.{Text, codes, same}
use edge.Server.Json.{Json, truthy, is_text}
use edge.Server.Request.{ChatMessage, ChatRequest, is_null}
use edge.Engine.Loop.{
  Family, GenerationConfig, Sampler, Engine, FinishReason, finish_reason, generate, reset,
}

-- What a call of `apply_chat_template` does.
pub data Rendered : Type 0 where
  rendered : Text → Rendered
  kwarg_error : Rendered
  render_error : Rendered

pub record Tokenizer (N : Type 0) : Type 0 where
  -- With `enable_thinking` and the tools, and without; `none` if there is no template.
  pub apply_chat_template :
      Option (List (ChatMessage N) → (enable_thinking : Bool) → Option (Json N) → Rendered)
  pub apply_plain : List (ChatMessage N) → Option Text
  pub encode : Text → List ℕ
  pub bos_token_id : Option ℕ

module _ {N : Type 0} (nonzero : N → Bool) where
  -- `_tools`
  unfoldable pub tools_of : ChatRequest N → Option (Json N)
  unfolding truthy is_text
  tools_of req =
      if truthy nonzero req.tools
      then if is_text (codes "none") req.tool_choice then none else some req.tools
      else none

  -- `enable_thinking`, or what stands for it where the request has none.
  unfoldable pub think_of : ChatRequest N → (default : Bool) → Bool
  unfolding truthy is_null
  think_of req default =
      if is_null req.enable_thinking then default else truthy nonzero req.enable_thinking

  unfoldable pub chat_turn : (role : Text) → Text → Text
  chat_turn role content =
      codes "<|im_start|>" ++ (role ++ (codes "\n" ++ (content ++ codes "<|im_end|>\n")))

  unfoldable pub known_role : Text → Bool
  unfolding same
  known_role role =
      if same role (codes "system")
      then true
      else if same role (codes "user")
      then true
      else same role (codes "assistant")

  -- `_chat_text`: the turns of the known roles, and the opening of the answer.
  unfoldable pub chat_text : List (ChatMessage N) → Text
  unfolding known_role chat_turn
  chat_text [] = codes "<|im_start|>assistant\n"
  chat_text (m ∷ ms) =
      let rest = chat_text ms in
      if known_role m.role then chat_turn m.role m.content ++ rest else rest

  -- The text of the plain render, or ChatML if that raises.
  unfoldable pub or_chat_text : List (ChatMessage N) → Option Text → Text
  unfolding chat_text
  or_chat_text ms none = chat_text ms
  or_chat_text ms (some t) = t

  unfoldable pub text_of_render : Tokenizer N → List (ChatMessage N) → Rendered → Text
  unfolding chat_text or_chat_text
  text_of_render tok ms (rendered t) = t
  text_of_render tok ms kwarg_error = or_chat_text ms (tok.apply_plain ms)
  text_of_render tok ms render_error = chat_text ms

  unfoldable pub prompt_text : Tokenizer N → ChatRequest N → Text
  unfolding chat_text text_of_render think_of tools_of
  prompt_text tok req = elim tok.apply_chat_template [
    | none ↦ chat_text req.messages
    | some apply ↦
        text_of_render tok req.messages (apply req.messages (think_of req false) (tools_of req))
  ]

  -- `ids or [tok.bos_token_id or 0]`
  unfoldable pub or_bos : Option ℕ → List ℕ → List ℕ
  or_bos bos (id ∷ ids) = id ∷ ids
  or_bos none [] = 0 ∷ []
  or_bos (some id) [] = id ∷ []

  -- `prompt_ids`; `encode` is the engine's `encode_chat`, if it has one, and `think` its default.
  unfoldable pub prompt_ids :
      (encode : Option (List (ChatMessage N) → (think : Bool) → Option (Json N) → List ℕ))
      → (think : Bool) → Tokenizer N
      → ChatRequest N
      → List ℕ
  unfolding think_of tools_of prompt_text or_bos
  prompt_ids (some encode) think tok req = encode req.messages (think_of req think) (tools_of req)
  prompt_ids none think tok req = or_bos tok.bos_token_id (tok.encode (prompt_text tok req))

pub record Usage : Type 0 where
  pub prompt_tokens : ℕ
  pub completion_tokens : ℕ
  pub total_tokens : ℕ

pub record RunResult : Type 0 where
  pub tokens : List ℕ
  pub usage : Usage
  pub finish_reason : FinishReason

unfoldable pub usage_of : List ℕ → List ℕ → Usage
usage_of ids tokens = record {
  prompt_tokens = length ids;
  completion_tokens = length tokens;
  total_tokens = length ids + length tokens;
}

unfoldable pub result_of : (max_new_tokens : ℕ) → List ℕ → Option (List ℕ) → Option RunResult
unfolding usage_of finish_reason
result_of max_new_tokens ids none = none
result_of max_new_tokens ids (some tokens) = some (record {
  tokens = tokens;
  usage = usage_of ids tokens;
  finish_reason = finish_reason max_new_tokens tokens;
})

-- A request as the engine sees it: its prompt, what it generates with, and how it samples.
pub record Job (L : Type 0) : Type 0 where
  pub ids : List ℕ
  pub gen : GenerationConfig
  pub sampler : Sampler L

module _ {S L : Type 0} (f : Family S L) (chunk_size : ℕ) where
  -- `run`: a clean engine, then the generation; `none` for an exception.
  unfoldable pub run : Engine S L → Job L → Engine S L × Option RunResult
  unfolding generate reset result_of
  run e job =
      let (e', out) = generate f job.sampler job.gen chunk_size (reset f e) job.ids in
      (e', result_of job.gen.max_new_tokens job.ids out)

  -- The requests that the lock lets through, one after the other.
  unfoldable pub serve : Engine S L → List (Job L) → List (Option RunResult)
  unfolding run
  serve e [] = []
  serve e (job ∷ jobs) = let (e', out) = run e job in out ∷ serve e' jobs
