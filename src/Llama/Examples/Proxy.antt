-- ===== src/Llama/Examples/Proxy.antt =====
-- The proxy as a whole on concrete inputs.
use hmlb.Prelude.{
  Option, none, inl, inr, sym, Bool-cases, ℕ, suc, ◌≡◌, refl, List, [], ◌∷◌, some, none, Text, text,
  text_eq, ◌==◌, if◌then◌else◌,
}
use hmlb.Prelude.All.{All}
use hmlb.Prelude.Equality.{text_beq}
use hmlb.Prelude.Maps.{insert}
use hmlb.Http.{Request, Response, canonical}
use hmlb.Http
use hmlb.Llama.Blacklist.{serve_all-barred}
use hmlb.Llama.Routing.{Lists, IsRouted, serve_all-listed}
use hmlb.Llama.Cache.{IsAllowedTool}
use hmlb.Llama.Chat.{failed, execute_tool_call}
use hmlb.Llama.Passing.{Client, passed, proxy_request, handle_generic_proxy}
use hmlb.Llama.Passing.Copies.{SameHeaders}
use hmlb.Llama.Passing.Transparent.{handle_generic_proxy-passes}
use hmlb.Llama.Serve.{Backend, outside, boot, serve_all}
use hmlb.Llama.Setup.{parse_names}
use hmlb.Llama.Completion.{Listing}
use hmlb.Llama.Select.{get_tools_for_groups}
use hmlb.Llama.Types.{ToolCall, LlamaStackTool}
use hmlb.Llama.Examples.{fetch_both, a_call, asking, restless, a_request, a_setting, a_listing}

abbrev an_env : Text → Text
an_env v = if v == text "TOOLS_BLACKLIST" then text "delete, drop" else []

-- A LlamaStack that answers each request that is passed on with the same page.
abbrev a_page : Response
a_page = record {
  status = 200;
  headers = (text "Content-Type", text "text/plain" ∷ []) ∷ [];
  body = text "ok";
}

abbrev a_client : Client ℕ
a_client = record {
  base = text "http://llama";
  refuse = λ method target. none;
  send = λ q n. (hmlb.Http.answered a_page, suc n);
  encode = λ req. [];
  decode_models = λ body. none;
  decode_completion = λ body. some asking;
}

abbrev a_world : Backend ℕ
a_world = record {
  cfg = a_setting;
  client = a_client;
  invoke = restless.invoke;
  parse_args = restless.parse_args;
  decode_request = λ body. some a_request;
}

abbrev a_post : Request
a_post = record {
  method = text "POST";
  path = text "/v1/embeddings";
  raw_query = [];
  headers = (text "Accept", text "*/*" ∷ []) ∷ [];
  body = some (text "{}");
}

abbrev a_deletion : ToolCall
a_deletion = record a_call { name = text "delete" }

abbrev a_run : List (ℕ × Listing × Request)
a_run =
    (0, a_listing, a_post)
    ∷ (1, a_listing, record a_post { path = text "/admin/cache/refresh" })
    ∷ []

serve_all-barred_example :
    All (IsAllowedTool (parse_names (an_env (text "TOOLS_BLACKLIST")))) (
      get_tools_for_groups
        (text "web" ∷ [])
        (serve_all a_world a_run (boot a_world an_env a_listing) 0).0)
    × ((e : Text) × (execute_tool_call
            (outside a_world)
            (serve_all a_world a_run (boot a_world an_env a_listing) 0).0.tool_to_group
            a_deletion
            0
          ≡ (failed e, 0)))
unfolding parse_names text_beq
serve_all-barred_example =
    serve_all-barred a_world an_env a_listing a_run 0 0 a_deletion (text "web" ∷ []) refl

-- The tool that is not on the list can be called after the start.
started_test : (boot a_world an_env a_listing).tool_to_group ≡ (text "search", text "web") ∷ []
unfolding boot parse_names text_beq insert
started_test = refl

abbrev a_query : Request
a_query = record a_post { raw_query = text "a=b" }

handle_generic_proxy-passes_example :
    SameHeaders (proxy_request a_client a_query (text "{}")).headers a_query.headers
    × ((proxy_request a_client a_query (text "{}")).target ≡ text "http://llama/v1/embeddings?a=b")
    × ((proxy_request a_client a_query (text "{}")).method ≡ text "POST")
    × ((proxy_request a_client a_query (text "{}")).body ≡ text "{}")
    × ((back : Response) × (handle_generic_proxy a_client a_query 0 ≡ (passed back, 1))
        × (back.status ≡ 200)
        × (back.body ≡ text "ok")
        × SameHeaders back.headers a_page.headers)
unfolding canonical
handle_generic_proxy-passes_example =
    handle_generic_proxy-passes a_client a_query (text "{}") a_page 0 1 refl refl refl
      (record { names = (refl, tt); distinct = (tt, tt) })
      (record { names = (refl, tt); distinct = (tt, tt) })

-- A LlamaStack that lists its tools for one group.
abbrev fetch_web : Text → Option (List LlamaStackTool)
fetch_web group = if group == text "web" then fetch_both group else none

abbrev web_listing : Listing
web_listing = record a_listing { tools = fetch_web }

abbrev IsWeb : Text → Text → Type 0
IsWeb name group = group ≡ text "web"

web_listing-Lists : Lists IsWeb web_listing
web_listing-Lists group ts listed = elim (Bool-cases (group == text "web")) [
  | inl web ↦ all_of ((text_eq.beq_iff group (text "web")).0 web) ts
  | inr other ↦ cc (sym (rw (other, fetch_web) at listed))
]
  where
    all_of : {g : Text} → g ≡ text "web" → (us : List LlamaStackTool) → All (λ t. IsWeb t.name g) us
    all_of e [] = tt
    all_of e (u ∷ us) = (e, all_of e us)

abbrev a_web_run : List (ℕ × Listing × Request)
a_web_run = (0, web_listing, record a_post { path = text "/admin/cache/refresh" }) ∷ []

serve_all-listed_example :
    IsRouted IsWeb a_world
      (serve_all a_world a_web_run (boot a_world an_env web_listing) 0).0
      a_call
      0
serve_all-listed_example =
    serve_all-listed IsWeb a_world an_env web_listing a_web_run 0 0 a_call web_listing-Lists
      (web_listing-Lists, tt)
