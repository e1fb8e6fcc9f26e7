-- ===== src/Llama/Passing/Transparent.antt =====
-- The catch-all handler, beside a direct request to LlamaStack.
use hmlb.Prelude.{◌≡◌, refl, sym, ◌∙◌, none, some, Text, text, [], ◌∷◌, ◌++◌}
use mathlib.Core.List.{append-nil}
use hmlb.Http.{Request, Response, answered, add_all}
use hmlb.Llama.Passing.{
  Client, Passed, passed, with_query, pass_back, pass_on, proxy_request, handle_generic_proxy,
}
use hmlb.Llama.Passing.Copies.{IsNetHeaders, SameHeaders, add_all-SameHeaders}

pass_on_passes :
    {S : Type 0} (client : Client S) (q : Passed) (resp : Response) (s t : S)
    → client.refuse q.method q.target ≡ none
    → client.send q s ≡ (answered resp, t)
    → pass_on client q s ≡ (passed (record resp { headers = add_all resp.headers [] }), t)
unfolding pass_on pass_back
pass_on_passes client q resp s t fine sent = rw (fine, sent, pass_on) refl

handled :
    {S : Type 0} (client : Client S) (r : Request) (body : Text) (s : S)
    → r.body ≡ some body
    → handle_generic_proxy client r s ≡ pass_on client (proxy_request client r body) s
unfolding handle_generic_proxy
handled client r body s read = rw (read, handle_generic_proxy) refl

-- A query as it stands in an address.
abbrev pub query_part : Text → Text
query_part [] = []
query_part (c ∷ q) = text "?" ++ c ∷ q

with_query_parts : (url q : Text) → with_query url q ≡ url ++ query_part q
with_query_parts url [] = sym (append-nil url)
with_query_parts url (c ∷ q) = refl

-- Where the body can be read, the request can be made and LlamaStack answers, the catch-all handler
-- sends the caller's method, body and headers to the caller's path and query at LlamaStack, and
-- gives back the answer's status, body and headers.
pub handle_generic_proxy-passes :
    {S : Type 0} (client : Client S) (r : Request) (body : Text) (resp : Response) (s t : S)
    → r.body ≡ some body
    → client.refuse r.method (proxy_request client r body).target ≡ none
    → client.send (proxy_request client r body) s ≡ (answered resp, t)
    → IsNetHeaders r.headers
    → IsNetHeaders resp.headers
    → SameHeaders (proxy_request client r body).headers r.headers
      × ((proxy_request client r body).target ≡ (client.base ++ r.path) ++ query_part r.raw_query)
      × ((proxy_request client r body).method ≡ r.method)
      × ((proxy_request client r body).body ≡ body)
      × ((back : Response) × (handle_generic_proxy client r s ≡ (passed back, t))
          × (back.status ≡ resp.status)
          × (back.body ≡ resp.body)
          × SameHeaders back.headers resp.headers)
unfolding proxy_request
handle_generic_proxy-passes client r body resp s t read fine sent net back = (
  add_all-SameHeaders r.headers net,
  with_query_parts (client.base ++ r.path) r.raw_query,
  refl,
  refl,
  (
    record resp { headers = add_all resp.headers [] },
    handled client r body s read
        ∙ pass_on_passes client (proxy_request client r body) resp s t fine sent,
    refl,
    refl,
    add_all-SameHeaders resp.headers back,
  ),
)
