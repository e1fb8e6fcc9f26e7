-- ===== src/Llama/Serve.antt =====
-- images/llamastack-proxy/main.go, `main`: the routes of the proxy, and its run from the start. The
-- requests are served one after another; the tracing is not modelled.
use hmlb.Prelude.{
  ℕ, Bool, List, [], ◌∷◌, Option, none, some, Text, text, text_eq, ◌==◌, any, if◌then◌else◌,
}
use hmlb.Http.{Request}
use hmlb.Llama.Admin.{
  RefreshReply, CacheStatus, initialize_tool_cache, handle_cache_refresh, handle_cache_status,
}
use hmlb.Llama.Cache.{ToolCache}
use hmlb.Llama.Chat.{Invoked, Outside, Reply, http_error, response, stream}
use hmlb.Llama.Completion.{Listing, Setting, Body, unread, invalid, parsed, handle_chat_completion}
use hmlb.Llama.Passing.{
  Client, Relay, ModelsReply, handle_generic_proxy, handle_streaming_request, handle_models,
  forward_to_llama_stack,
}
use hmlb.Llama.Setup.{init}
use hmlb.Llama.Types.{ChatCompletionRequest, ChatCompletionResponse}

pub data Route : Type 0 where
  completions model_list health cache_status cache_refresh passing : Route

abbrev among : Text → List Text → Bool
among path paths = any (λ p. p == path) paths

abbrev completion_paths : List Text
completion_paths = text "/openai/v1/chat/completions" ∷ text "/v1/chat/completions" ∷ []

abbrev model_paths : List Text
model_paths = text "/openai/v1/models" ∷ text "/v1/models" ∷ []

-- The paths of the mux; every other one goes to the catch-all handler.
unfoldable pub route : Text → Route
route path =
    if among path completion_paths
    then completions
    else if among path model_paths
    then model_list
    else if path == text "/health"
    then health
    else if path == text "/admin/cache/status"
    then cache_status
    else if path == text "/admin/cache/refresh"
    then cache_refresh
    else passing

pub data Answer : Type 0 where
  refusal : ℕ → Text → Answer
  completion : ChatCompletionResponse → Answer
  relayed : Relay → Answer
  model_answer : ModelsReply → Answer
  healthy : Answer
  status : CacheStatus → Answer
  refresh : RefreshReply → Answer

pub record Backend (S : Type 0) : Type 0 where
  pub cfg : Setting
  pub client : Client S
  pub invoke : Text → Text → Text → S → Invoked × S
  pub parse_args : Text → Option Text
  pub decode_request : Text → Option ChatCompletionRequest

abbrev pub outside : {S : Type 0} → Backend S → Outside S
outside w = record {
  forward = forward_to_llama_stack w.client;
  invoke = w.invoke;
  parse_args = w.parse_args;
}

abbrev pub body_of : (Text → Option ChatCompletionRequest) → Option Text → Body
body_of decode none = unread
body_of decode (some b) = elim (decode b) [ none ↦ invalid | some req ↦ parsed req ]

module _ {S : Type 0} (w : Backend S) where
  -- What the handler of completions writes; a request for a stream is passed on.
  unfoldable pub finish : Request → ToolCache → Reply → S → ToolCache × Answer × S
  unfolding handle_streaming_request
  finish r tc (http_error code why) s = (tc, refusal code why, s)
  finish r tc (response resp) s = (tc, completion resp, s)
  finish r tc (stream req) s =
      let (answer, s') = handle_streaming_request w.client r req s in (tc, relayed answer, s')

  unfoldable pub complete : Request → ToolCache × Reply × S → ToolCache × Answer × S
  unfolding finish
  complete r (tc, reply, s) = finish r tc reply s

  unfoldable pub serve_at : Route → ℕ → Listing → Request → ToolCache → S → ToolCache × Answer × S
  unfolding complete handle_chat_completion handle_models handle_cache_status handle_cache_refresh
      handle_generic_proxy
  serve_at completions unix l r tc s =
      let post = r.method == text "POST" in
      complete r
        (handle_chat_completion w.cfg (outside w) post l (body_of w.decode_request r.body) tc s)
  serve_at model_list unix l r tc s =
      let (answer, s') = handle_models w.client unix r s in (tc, model_answer answer, s')
  serve_at health unix l r tc s = (tc, healthy, s)
  serve_at cache_status unix l r tc s = (tc, status (handle_cache_status l.now tc), s)
  serve_at cache_refresh unix l r tc s =
      let (tc', reply) = handle_cache_refresh (r.method == text "POST") w.cfg l tc in
      (tc', refresh reply, s)
  serve_at passing unix l r tc s =
      let (answer, s') = handle_generic_proxy w.client r s in (tc, relayed answer, s')

  -- The start: where the cache cannot be filled the proxy goes on without it.
  unfoldable pub boot : (Text → Text) → Listing → ToolCache
  unfolding init initialize_tool_cache
  boot getenv l = (initialize_tool_cache w.cfg l (init getenv).tool_cache).0

  -- A request, with the time in seconds and what LlamaStack lists at that moment.
  unfoldable pub serve_all : List (ℕ × Listing × Request) → ToolCache → S → ToolCache × S
  unfolding serve_at route
  serve_all [] tc s = (tc, s)
  serve_all ((unix, l, r) ∷ rs) tc s =
      let (tc', answer, s') = serve_at (route r.path) unix l r tc s in serve_all rs tc' s'
