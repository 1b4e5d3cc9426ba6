-- ===== src/ServerExamples.antt =====
-- The theorems of the server applied to small requests, texts and engines.
use edge.Base.{
  ℕ, ◌≡◌, refl, List, [], ◌∷◌, ◌++◌, Option, none, some, Bool, true, false, ◌==◌, if◌then◌else◌,
  length,
}
use edge.Server.Text.{Text, codes, same}
use edge.Server.Text.Laws.{rstrip-append}
use edge.Server.Json.{
  Json, null, boolean, number, text, array, object, no_items, item, no_fields, field,
}
use edge.Server.Stream.{Asked, ChatRun, finished, chat_once, chat_stream, is_replacement, thinks}
use edge.Server.Stream.Joined.{IsStable}
use edge.Server.Stream.Agree.{SaysReply, chat_stream-SaysReply}
use edge.Server.ToolCalls.{RawArgs}
use edge.Server.ToolCalls.Split.{JsonText}
use edge.Server.Request.{Python, ChatRequest}
use edge.Server.Routes.{
  flask_chat, flask_completions, stdlib_post, chat_completions, text_completions,
}
use edge.Server.Routes.Laws.{flask-stdlib}
use edge.Server.Session.{Job}
use edge.EngineExamples.{gen, sampler}

abbrev is_space : ℕ → Bool
is_space c = if c == 32 then true else c == 10

-- A decoder whose tokens are the characters themselves.
abbrev decode : List ℕ → Text
decode ids = ids

decode-IsStable : IsStable decode
decode-IsStable ids tid = rstrip-append is_replacement ids (tid ∷ [])

abbrev plain_request : Asked ℕ
plain_request = record {
  parse_tool_calls = none;
  has_tools = false;
  choice_none = false;
  choice_required = false;
  enable_thinking = some false;
  engine_think = true;
}

-- The reply ends in the middle of a character.
abbrev chat_run : ChatRun ℕ ℕ
chat_run = finished (104 ∷ 105 ∷ 65533 ∷ []) 7

chat_stream-SaysReply_example :
    SaysReply
      (chat_stream is_space decode plain_request (λ m. m) chat_run)
      (chat_once is_space decode plain_request (λ m. m) chat_run)
unfolding thinks
chat_stream-SaysReply_example =
    chat_stream-SaysReply is_space decode plain_request (λ m. m) chat_run decode-IsStable refl refl

-- The value of an argument, spelled out for numbers and texts only.
abbrev spell : Json ℕ → Text
spell null = []
spell (boolean b) = []
spell (number n) = codes "#" ++ n ∷ []
spell (text t) = t
spell (array items) = []
spell (object d) = []

abbrev spell_all : List (Text × Json ℕ) → Text
spell_all [] = []
spell_all ((key, value) ∷ args) =
    key ++ (codes "=" ++ (spell value ++ (codes ";" ++ spell_all args)))

-- It reads the number 12 only.
abbrev json : JsonText ℕ
json = record {
  loads = λ t. if same t (codes "12") then some (number 12) else none;
  dumps = spell_all;
}

abbrev arguments : RawArgs
arguments = (codes "a", codes "12") ∷ (codes "b", codes "x y") ∷ []

abbrev calls : List (Text × RawArgs)
calls = (codes "g", []) ∷ []

abbrev no_block : Text → Option (Text × RawArgs)
no_block body = none

abbrev python : Python ℕ
python = record { nonzero = λ n. n == 0; str_of = λ v. []; loads = λ t. some (object no_fields) }

-- One call whose arguments are a string.
abbrev call_list : Json ℕ
call_list = array (
    item
      (object (
        field (codes "function") (object (field (codes "arguments") (text (codes "{}")) no_fields))
          no_fields))
      no_items)

abbrev payload : Json ℕ
payload = object (
    field (codes "messages")
      (array (
        item
          (object (
            field (codes "role") (text (codes "developer"))
              (field (codes "tool_calls") call_list no_fields)))
          no_items))
      no_fields)

abbrev loads : Text → Option (Json ℕ)
loads t = if same t (codes "{}") then some (object no_fields) else some null

abbrev streamed : ChatRequest ℕ → ℕ
streamed req = 1

abbrev answer : ChatRequest ℕ → Option ℕ
answer req = some (length req.messages)

flask-stdlib_example :
    (flask_chat python loads answer streamed (codes "null")
      ≡ stdlib_post python loads answer streamed chat_completions (codes "null"))
    × (flask_completions python loads answer streamed (codes "null")
        ≡ stdlib_post python loads answer streamed text_completions (codes "null"))
unfolding same
flask-stdlib_example = flask-stdlib python loads answer streamed (codes "null") refl

abbrev jobs : List (Job ℕ)
jobs =
    record { ids = 5 ∷ 6 ∷ []; gen = gen; sampler = sampler }
    ∷ record { ids = 7 ∷ []; gen = gen; sampler = sampler }
    ∷ []
