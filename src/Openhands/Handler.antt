-- ===== src/Openhands/Handler.antt =====
-- images/openwebui-openhands-proxy/main.go: the handler of chat completions. The upstream is a
-- parameter with a state `S` of its own. The tracing spans and the log are not modelled.
use hmlb.Prelude.{
  ℕ, Bool, true, false, ◌&&◌, ◌||◌, [], ◌∷◌, ◌++◌, Option, none, some, Text, text, text_eq, leb,
  if◌then◌else◌,
}
use hmlb.Http.{
  Request, Response, Sent, failed, answered, add_values, Headers, get_header, set_header,
  del_header, equal_fold,
}
use hmlb.Openhands.Store.{ConvStore, is_empty, get, set_id}
use hmlb.Openhands.Thread.{Runtime, extract_thread_key}

abbrev pub conv_header : Text
conv_header = text "X-OpenHands-ServerConversation-ID"

pub record UpstreamUrl : Type 0 where
  pub url : Text
  pub host : Text

pub record UpRequest : Type 0 where
  pub method : Text
  pub target : Text
  pub host : Text
  pub headers : Headers
  pub body : Text

-- `http.NewRequestWithContext`, by the error it returns, and `client.Do`.
pub record Upstream (S : Type 0) : Type 0 where
  pub address : UpstreamUrl
  pub refuse : Text → Text → Option Text
  pub send : UpRequest → S → Sent × S

-- What the caller gets; `aborted` where the handler panics, which net/http recovers.
pub data Reply : Type 0 where
  http_error : ℕ → Text → Reply
  relayed : Response → Reply
  aborted : Reply

-- The headers of a request upstream.
unfoldable pub inject : Text → Headers → Headers
inject id h = if is_empty id then del_header conv_header h else set_header conv_header id h

unfoldable pub copy_headers : (ℕ → ℕ) → Headers → Headers → Headers
unfolding add_values
copy_headers fold [] w = w
copy_headers fold ((k, vs) ∷ h) w =
    copy_headers fold h (if equal_fold fold k conv_header then w else add_values k vs w)

unfoldable pub surface : Text → Headers → Headers
surface id w = if is_empty id then w else set_header conv_header id w

-- A response whose body has been closed: nothing can be read of it.
abbrev pub closed : Response → Response
closed r = record r { body = [] }

abbrev pub conv_of : Response → Text
conv_of r = get_header conv_header r.headers

module _ {S : Type 0} (rt : Runtime) (up : Upstream S) where
  abbrev pub target : Request → Text
  target r =
      up.address.url ++ (r.path ++ (if is_empty r.raw_query then [] else text "?" ++ r.raw_query))

  unfoldable pub up_request : Request → Text → Text → UpRequest
  unfolding inject
  up_request r body id = record {
    method = r.method;
    target = target r;
    host = up.address.host;
    headers = inject id r.headers;
    body = body;
  }

  unfoldable pub do_forward : Request → Text → Text → S → Sent × S
  unfolding up_request
  do_forward r body id st = elim (up.refuse r.method (target r)) [
    | some e ↦ (failed e, st)
    | none ↦ up.send (up_request r body id) st
  ]

  -- The thread's key, the id to inject, and whether a mapping was found.
  unfoldable pub recall : Text → ConvStore → Text × Bool
  unfolding get
  recall key s = if is_empty key then ([], false) else get key s

  unfoldable pub remember : Text → Text → ConvStore → Option ConvStore
  unfolding set_id
  remember key id s = if is_empty key || is_empty id then some s else set_id key id s

  -- The mapping is refreshed, and the response goes to the caller.
  unfoldable pub relay : Text → Text → Response → ConvStore → S → ConvStore × Reply × S
  unfolding remember copy_headers surface
  relay key id resp s st = elim (remember key id s) [
    | none ↦ (s, aborted, st)
    | some s' ↦ (
      s',
      relayed (record resp { headers = surface id (copy_headers rt.fold resp.headers []) }),
      st,
    )
  ]

  -- The retry: where it fails the first response stands, its body closed.
  unfoldable pub healed : Text → Response → Sent → ConvStore → S → ConvStore × Reply × S
  unfolding relay
  healed key resp (failed e) s st = relay key (conv_of resp) (closed resp) s st
  healed key resp (answered again) s st = relay key (conv_of again) again s st

  unfoldable pub retried : Text → Response → ConvStore → Sent × S → ConvStore × Reply × S
  unfolding healed
  retried key resp s sent = healed key resp sent.0 s sent.1

  unfoldable pub forwarded :
      Text → Bool → Request → Text → ConvStore → Sent → S → ConvStore × Reply × S
  unfolding retried
  forwarded key had r body s (failed e) st = (s, http_error 502 (text "upstream: " ++ e), st)
  forwarded key had r body s (answered resp) st = elim (had && leb 400 resp.status) [
    | false ↦ relay key (conv_of resp) resp s st
    | true ↦ retried key resp s (do_forward r body [] st)
  ]

  -- `read_error` is the text of the error where the body cannot be read.
  unfoldable pub handle : Text → ConvStore → Request → S → ConvStore × Reply × S
  unfolding recall forwarded do_forward
  handle read_error s r st = elim r.body [
    | none ↦ (s, http_error 400 (text "read request body: " ++ read_error), st)
    | some body ↦
        let key = extract_thread_key rt body in
        let (id, had) = recall key s in
        let (sent, st') = do_forward r body id st in forwarded key had r body s sent st'
  ]
