-- ===== src/Server/Routes.antt =====
-- python/src/edge0/server/app.py: the routes, once as `create_app` serves them with Flask and once as
-- `_StdlibHandler` does. A body is the text that was read; the messages of the errors, and the headers,
-- are left out. An exception that a handler does not answer is `raised`: Flask makes it a 500, the
-- other closes the connection.
pub mod Laws
use edge.Base.{
  ℕ, List, [], ◌∷◌, ◌++◌, Option, none, some, Bool, true, false, ◌||◌, if◌then◌else◌, length, leb,
  ◌/◌, ◌%◌, ◌+◌, zero, suc,
}
use edge.Server.Text.{Text, codes, same}
use edge.Server.Json.{Json, Fields, null, object, no_fields, get_or_none, as_object, truthy}
use edge.Server.Request.{
  Python, Parsed, parsed, value_error, type_error, ChatRequest, parse_chat_request, is_null,
}

pub data Kind : Type 0 where
  -- `_error`, and the errors that `do_POST` writes out.
  invalid_request : Kind
  no_route : Kind

pub data Body (R : Type 0) : Type 0 where
  health : Body R
  models : Body R
  reply : R → Body R
  error_body : Kind → Body R

-- A body with its status, an event stream, or an exception.
pub data Answer (R E : Type 0) : Type 0 where
  respond : (status : ℕ) → Body R → Answer R E
  events : E → Answer R E
  raised : Answer R E

pub data Route : Type 0 where
  chat_completions text_completions other_route : Route

pub data Page : Type 0 where
  healthz model_list other_page : Page

-- `path` of a GET and of a POST.
unfoldable pub page_of : Text → Page
unfolding same
page_of path =
    if same path (codes "/healthz")
    then healthz
    else if same path (codes "/v1/models")
    then model_list
    else other_page

unfoldable pub route_of : Text → Route
unfolding same
route_of path =
    if same path (codes "/v1/chat/completions")
    then chat_completions
    else if same path (codes "/v1/completions")
    then text_completions
    else other_route

module _ {N R E : Type 0} (py : Python N) (loads : Text → Option (Json N))
    (chat_once : ChatRequest N → Option R) (chat_stream : ChatRequest N → E) where
  unfoldable pub error : ℕ → Answer R E
  error status = respond status (error_body invalid_request)

  unfoldable pub once : Option R → Answer R E
  once none = raised
  once (some r) = respond 200 (reply r)

  -- `payload.get("stream")`
  unfoldable pub wants_stream : Json N → Bool
  unfolding as_object truthy get_or_none
  wants_stream payload = elim (as_object payload) [
    | none ↦ false
    | some d ↦ truthy py.nonzero (get_or_none (codes "stream") d)
  ]

  unfoldable pub answer_chat : (stream : Bool) → Parsed (ChatRequest N) → Answer R E
  unfolding error once
  answer_chat stream (parsed req) =
      if stream then events (chat_stream req) else once (chat_once req)
  answer_chat stream value_error = error 400
  answer_chat stream type_error = raised

  -- `handle_chat`
  unfoldable pub handle_chat : Json N → Answer R E
  unfolding answer_chat wants_stream parse_chat_request
  handle_chat payload = answer_chat (wants_stream payload) (parse_chat_request py payload)

  -- `GET /healthz` and `GET /v1/models`, and what `do_GET` gives for another path.
  unfoldable pub get_page : Page → Answer R E
  get_page healthz = respond 200 health
  get_page model_list = respond 200 models
  get_page other_page = respond 404 (error_body no_route)

  -- The handlers of `build_app_handlers` for the two POST routes.
  unfoldable pub handle_post : Route → Json N → Answer R E
  unfolding handle_chat error
  handle_post chat_completions payload = handle_chat payload
  handle_post text_completions payload = error 400
  handle_post other_route payload = respond 404 (error_body no_route)

  -- `request.get_json(force=True, silent=True)`, which is None also for the JSON null.
  unfoldable pub get_json : Option (Json N) → Option (Json N)
  unfolding is_null
  get_json none = none
  get_json (some v) = if is_null v then none else some v

  -- `read_payload` of `create_app`; `none` is the 400.
  unfoldable pub read_payload : Text → Option (Json N)
  unfolding get_json
  read_payload [] = some (object no_fields)
  read_payload (c ∷ body) = get_json (loads (c ∷ body))

  unfoldable pub flask_answer : Route → Option (Json N) → Answer R E
  unfolding handle_post error
  flask_answer route none = error 400
  flask_answer route (some payload) = handle_post route payload

  -- `chat` of `create_app`
  unfoldable pub flask_chat : Text → Answer R E
  unfolding read_payload flask_answer
  flask_chat body = flask_answer chat_completions (read_payload body)

  -- `completions` of `create_app`
  unfoldable pub flask_completions : Text → Answer R E
  unfolding read_payload flask_answer
  flask_completions body = flask_answer text_completions (read_payload body)

  -- `self.rfile.read(length) or b"{}"`
  unfoldable pub or_empty_object : Text → Text
  or_empty_object [] = codes "{}"
  or_empty_object (c ∷ body) = c ∷ body

  -- `do_POST` for the chat route behind the decoding of the body: it validates, streams by itself, and
  -- leaves the rest to the handler.
  unfoldable pub stdlib_chat : Parsed (ChatRequest N) → Json N → Answer R E
  unfolding error handle_chat wants_stream
  stdlib_chat value_error payload = error 400
  stdlib_chat type_error payload = raised
  stdlib_chat (parsed req) payload =
      if wants_stream payload then events (chat_stream req) else handle_chat payload

  unfoldable pub stdlib_payload : Route → Json N → Answer R E
  unfolding stdlib_chat handle_post parse_chat_request
  stdlib_payload chat_completions payload = stdlib_chat (parse_chat_request py payload) payload
  stdlib_payload text_completions payload = handle_post text_completions payload
  stdlib_payload other_route payload = respond 404 (error_body no_route)

  unfoldable pub decoded_post : Route → Option (Json N) → Answer R E
  unfolding error stdlib_payload
  decoded_post route none = error 400
  decoded_post route (some payload) = stdlib_payload route payload

  -- `do_POST`
  unfoldable pub stdlib_post : Route → Text → Answer R E
  unfolding decoded_post or_empty_object
  stdlib_post chat_completions body = decoded_post chat_completions (loads (or_empty_object body))
  stdlib_post text_completions body = decoded_post text_completions (loads (or_empty_object body))
  stdlib_post other_route body = respond 404 (error_body no_route)
