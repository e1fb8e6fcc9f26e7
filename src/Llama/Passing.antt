-- ===== src/Llama/Passing.antt =====
-- images/llamastack-proxy/main.go: the handlers that pass a message on, and the list of models.
pub mod Copies
pub mod Transparent
use hmlb.Prelude.{
  ℕ, true, false, if◌then◌else◌, List, [], ◌∷◌, ◌++◌, Option, none, some, Text, text, nat_beq, map,
}
use hmlb.Http.{Headers, Request, Response, Sent, failed, answered, add_all, set_header}
use hmlb.Llama.Types.{ChatCompletionRequest, ChatCompletionResponse}

-- `Metadata` is left out.
pub record LlamaStackModel : Type 0 where
  pub identifier : Text
  pub provider_resource_id : Text
  pub provider_id : Text
  pub kind : Text
  pub model_type : Text

pub record OpenAiModel : Type 0 where
  pub id : Text
  pub object : Text
  pub created : ℕ
  pub owned_by : Text

pub data ModelsReply : Type 0 where
  models_error : ℕ → Text → ModelsReply
  models : List OpenAiModel → ModelsReply

pub record Passed : Type 0 where
  pub method : Text
  pub target : Text
  pub headers : Headers
  pub body : Text

-- `http.NewRequest`, by the error it returns, `client.Do`, and the encoder and the decoder of JSON.
pub record Client (S : Type 0) : Type 0 where
  pub base : Text
  pub refuse : Text → Text → Option Text
  pub send : Passed → S → Sent × S
  pub encode : ChatCompletionRequest → Text
  pub decode_models : Text → Option (List LlamaStackModel)
  pub decode_completion : Text → Option ChatCompletionResponse

pub data Relay : Type 0 where
  refused : ℕ → Text → Relay
  passed : Response → Relay

-- What `w` holds in the end: the copied headers, the status and the copied body.
unfoldable pub pass_back : Sent → Relay
unfolding add_all
pass_back (failed e) = refused 502 (text "Failed to forward request")
pass_back (answered resp) = passed (record resp { headers = add_all resp.headers [] })

abbrev pub with_query : Text → Text → Text
with_query url [] = url
with_query url (c ∷ q) = url ++ (text "?" ++ c ∷ q)

module _ {S : Type 0} (client : Client S) where
  unfoldable pub pass_on : Passed → S → Relay × S
  unfolding pass_back
  pass_on q s = elim (client.refuse q.method q.target) [
    | some e ↦ (refused 500 (text "Failed to create proxy request"), s)
    | none ↦ let (sent, s') = client.send q s in (pass_back sent, s')
  ]

  unfoldable pub proxy_request : Request → Text → Passed
  unfolding add_all
  proxy_request r body = record {
    method = r.method;
    target = with_query (client.base ++ r.path) r.raw_query;
    headers = add_all r.headers [];
    body = body;
  }

  unfoldable pub handle_generic_proxy : Request → S → Relay × S
  unfolding pass_on proxy_request
  handle_generic_proxy r s = elim r.body [
    | none ↦ (refused 400 (text "Failed to read request body"), s)
    | some body ↦ pass_on (proxy_request r body) s
  ]

  abbrev completion_request : Headers → ChatCompletionRequest → Passed
  completion_request h req = record {
    method = text "POST";
    target = client.base ++ text "/v1/chat/completions";
    headers = set_header (text "Content-Type") (text "application/json") h;
    body = client.encode req;
  }

  unfoldable pub completion_from : Sent → Option ChatCompletionResponse
  completion_from (failed e) = none
  completion_from (answered resp) =
      if nat_beq resp.status 200 then client.decode_completion resp.body else none

  -- `none` for an error, whose text is only logged.
  unfoldable pub forward_to_llama_stack :
      ChatCompletionRequest → S → Option ChatCompletionResponse × S
  unfolding completion_from
  forward_to_llama_stack req s =
      let q = completion_request [] req in
      elim (client.refuse q.method q.target) [
        | some e ↦ (none, s)
        | none ↦ let (sent, s') = client.send q s in (completion_from sent, s')
      ]

  unfoldable pub handle_streaming_request : Request → ChatCompletionRequest → S → Relay × S
  unfolding pass_on add_all
  handle_streaming_request r req s = pass_on (completion_request (add_all r.headers []) req) s

  -- `time.Now().Unix()` comes with the call.
  abbrev open_ai_model : ℕ → LlamaStackModel → OpenAiModel
  open_ai_model unix m = record {
    id = m.identifier;
    object = text "model";
    created = unix;
    owned_by = text "library";
  }

  unfoldable pub models_from : ℕ → Sent → ModelsReply
  models_from unix (failed e) = models_error 502 (text "Failed to fetch models")
  models_from unix (answered resp) = elim (nat_beq resp.status 200) [
    | false ↦ models_error resp.status (text "Failed to fetch models")
    | true ↦ elim (client.decode_models resp.body) [
      | none ↦ models_error 500 (text "Failed to parse models")
      | some ms ↦ models (map (open_ai_model unix) ms)
    ]
  ]

  unfoldable pub handle_models : ℕ → Request → S → ModelsReply × S
  unfolding models_from
  handle_models unix r s =
      let q : Passed = record {
        method = text "GET";
        target = with_query (client.base ++ text "/v1/models") r.raw_query;
        headers = [];
        body = [];
      } in
      elim (client.refuse q.method q.target) [
        | some e ↦ (models_from unix (failed e), s)
        | none ↦ let (sent, s') = client.send q s in (models_from unix sent, s')
      ]
