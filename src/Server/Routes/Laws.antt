-- ===== src/Server/Routes/Laws.antt =====
-- The two transports answer alike.
use edge.Base.{[], ◌∷◌, Option, none, some, ◌≡◌, ◌≢◌, refl, sym, ap, ◌∙◌, arith, Bool-cases}
use edge.Server.Text.{Text, codes}
use edge.Server.Json.{Json, null, boolean, number, text, array, object, no_fields, as_object}
use edge.Server.Request.{
  Python, Parsed, parsed, value_error, type_error, and_then, ChatRequest, parse_chat_request,
  object_or_error, is_null,
}
use edge.Server.Routes.{
  Route, chat_completions, text_completions, other_route, get_json, read_payload, flask_answer,
  flask_chat, flask_completions, stdlib_post, decoded_post, stdlib_payload, stdlib_chat,
  handle_post, handle_chat, answer_chat, wants_stream, or_empty_object,
}

module _ {N R E : Type 0} (py : Python N) (loads : Text → Option (Json N))
    (chat_once : ChatRequest N → Option R) (chat_stream : ChatRequest N → E) where
  stdlib_chat-answer :
      (payload : Json N) (p : Parsed (ChatRequest N))
      → parse_chat_request py payload ≡ p
      → stdlib_chat py loads chat_once chat_stream p payload
        ≡ answer_chat py loads chat_once chat_stream
            (wants_stream py loads chat_once chat_stream payload)
            p
  unfolding stdlib_chat answer_chat handle_chat
  stdlib_chat-answer payload value_error e = refl
  stdlib_chat-answer payload type_error e = refl
  stdlib_chat-answer payload (parsed req) e =
      rw e (ground (arith, Bool-cases (wants_stream py loads chat_once chat_stream payload)))

  -- What follows the decoding of a body is the handler that Flask calls.
  stdlib_payload-handle :
      (route : Route) (payload : Json N)
      → stdlib_payload py loads chat_once chat_stream route payload
        ≡ handle_post py loads chat_once chat_stream route payload
  unfolding stdlib_payload handle_post handle_chat
  stdlib_payload-handle chat_completions payload =
      stdlib_chat-answer payload (parse_chat_request py payload) refl
  stdlib_payload-handle text_completions payload = refl
  stdlib_payload-handle other_route payload = refl

  -- A null body, which Flask cannot tell from one that is not JSON, is refused by both.
  flask_answer-decoded :
      (route : Route) (o : Option (Json N))
      → (route ≢ other_route)
      → flask_answer py loads chat_once chat_stream route
          (get_json py loads chat_once chat_stream o)
        ≡ decoded_post py loads chat_once chat_stream route o
  unfolding flask_answer get_json is_null decoded_post stdlib_payload handle_post stdlib_chat
      parse_chat_request object_or_error as_object and_then
  flask_answer-decoded route none h = refl
  flask_answer-decoded chat_completions (some null) h = refl
  flask_answer-decoded text_completions (some null) h = refl
  flask_answer-decoded other_route (some null) h = absurd (h refl)
  flask_answer-decoded route (some (boolean b)) h = sym (stdlib_payload-handle route (boolean b))
  flask_answer-decoded route (some (number n)) h = sym (stdlib_payload-handle route (number n))
  flask_answer-decoded route (some (text t)) h = sym (stdlib_payload-handle route (text t))
  flask_answer-decoded route (some (array items)) h =
      sym (stdlib_payload-handle route (array items))
  flask_answer-decoded route (some (object d)) h = sym (stdlib_payload-handle route (object d))

  -- If `json.loads` reads an empty object as such, both transports answer every body of the two POST routes alike:
  -- with the same status and body, the same stream, or an exception.
  pub flask-stdlib :
      (body : Text)
      → loads (codes "{}") ≡ some (object no_fields)
      → (flask_chat py loads chat_once chat_stream body
          ≡ stdlib_post py loads chat_once chat_stream chat_completions body)
        × (flask_completions py loads chat_once chat_stream body
            ≡ stdlib_post py loads chat_once chat_stream text_completions body)
  unfolding flask_chat flask_completions stdlib_post read_payload or_empty_object flask_answer
      decoded_post
  flask-stdlib [] h = (
    sym (
        ap (decoded_post py loads chat_once chat_stream chat_completions) h
        ∙ stdlib_payload-handle chat_completions (object no_fields)),
    sym (ap (decoded_post py loads chat_once chat_stream text_completions) h),
  )
  flask-stdlib (c ∷ body) h = (
    flask_answer-decoded chat_completions (loads (c ∷ body)) (λ e. ground arith),
    flask_answer-decoded text_completions (loads (c ∷ body)) (λ e. ground arith),
  )
