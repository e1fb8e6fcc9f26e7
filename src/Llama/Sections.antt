-- ===== src/Llama/Sections.antt =====
-- images/llamastack-proxy/main.go: the sections of code in which the cache's lock is held for writing. They
-- are the only changes of the cache, so that what each of them keeps is kept by a run of the proxy.
use hmlb.Prelude.{
  Text, if◌then◌else◌, ℕ, Bool, true, false, List, [], ◌∷◌, Option, text_eq, ◌==◌, inl, inr,
  Bool-cases, text,
}
use hmlb.Prelude.All.{All}
use hmlb.Llama.Admin.{refreshed, initialize_tool_cache, handle_cache_refresh}
use hmlb.Llama.Cache.{
  ToolCache, refresh_all_tools, refresh_tool_groups, build_keyword_index, needs_refresh,
  refresh_if_needed,
}
use hmlb.Llama.Chat.{Outside, fix_messages, Reply, http_error, response, stream}
use hmlb.Llama.Completion.{
  Listing, Setting, Body, unread, invalid, parsed, get_tools_for_request, choose_tools, prepare,
  prepared, handle_chat_completion,
}
use hmlb.Llama.Types.{ToolGroupInfo, ChatCompletionRequest, ChatMessage, OpenAiTool}
use hmlb.Http.{Request}
use hmlb.Llama.Setup.{init}
use hmlb.Llama.Serve.{
  boot, Backend, outside, Route, completions, model_list, health, cache_status, cache_refresh,
  passing, route, finish, complete, body_of, serve_at, serve_all,
}

-- A property of the cache that the sections keep, where what LlamaStack lists fulfils `L`.
pub record KeptBySections (L : Listing → Type 0) (P : ToolCache → Type 0) : Type 0 where
  pub groups :
      (o : Option (List ToolGroupInfo)) (tc : ToolCache) → P tc → P (refresh_tool_groups o tc).0
  pub tools : (l : Listing) → L l → (tc : ToolCache) → P tc → P (refresh_all_tools l.tools l.now tc)
  pub index : (to_lower : ℕ → ℕ) (tc : ToolCache) → P tc → P (build_keyword_index to_lower tc)

module _ (L : Listing → Type 0) (P : ToolCache → Type 0) (sections : KeptBySections L P) where
  refreshed_kept :
      (cfg : Setting) (l : Listing) (r : ToolCache × Bool) → L l → P r.0 → P (refreshed cfg l r).0
  unfolding refreshed
  refreshed_kept cfg l (tc, false) ok b = b
  refreshed_kept cfg l (tc, true) ok b =
      sections.index cfg.to_lower (refresh_all_tools l.tools l.now tc) (sections.tools l ok tc b)

  initialize_kept :
      (cfg : Setting) (l : Listing) (tc : ToolCache)
      → L l
      → P tc
      → P (initialize_tool_cache cfg l tc).0
  unfolding initialize_tool_cache
  initialize_kept cfg l tc ok b =
      refreshed_kept cfg l (refresh_tool_groups l.groups tc) ok (sections.groups l.groups tc b)

  handle_cache_refresh_kept :
      (post : Bool) (cfg : Setting) (l : Listing) (tc : ToolCache)
      → L l
      → P tc
      → P (handle_cache_refresh post cfg l tc).0
  unfolding handle_cache_refresh initialize_tool_cache
  handle_cache_refresh_kept false cfg l tc ok b = b
  handle_cache_refresh_kept true cfg l tc ok b = initialize_kept cfg l tc ok b

  kept_on_kept :
      (cfg : Setting) (l : Listing) (r : ToolCache × Bool)
      → L l
      → P r.0
      → P (
          if r.1
          then build_keyword_index cfg.to_lower (refresh_all_tools l.tools l.now r.0)
          else r.0)
  kept_on_kept cfg l (tc, true) ok b =
      sections.index cfg.to_lower (refresh_all_tools l.tools l.now tc) (sections.tools l ok tc b)
  kept_on_kept cfg l (tc, false) ok b = b

  refresh_if_needed_kept :
      (cfg : Setting) (l : Listing) (tc : ToolCache)
      → L l
      → P tc
      → P (refresh_if_needed cfg.to_lower cfg.interval l.now l.groups l.tools tc)
  unfolding refresh_if_needed
  refresh_if_needed_kept cfg l tc ok b = elim (Bool-cases (needs_refresh cfg.interval l.now tc)) [
    | inr fresh ↦ rw (fresh, refresh_if_needed) b
    | inl stale ↦
        rw (stale, refresh_if_needed)
          (kept_on_kept cfg l (refresh_tool_groups l.groups tc) ok (sections.groups l.groups tc b))
  ]

  choose_tools_kept :
      (cfg : Setting) (l : Listing) (ts : List OpenAiTool) (ms : List ChatMessage) (tc : ToolCache)
      → L l
      → P tc
      → P (choose_tools cfg l ts ms tc).0
  unfolding choose_tools get_tools_for_request
  choose_tools_kept cfg l [] ms tc ok b = refresh_if_needed_kept cfg l tc ok b
  choose_tools_kept cfg l (t ∷ ts) ms tc ok b = b

  module _ {S : Type 0} (cfg : Setting) (out : Outside S) where
    prepared_kept : (p : ToolCache × ChatCompletionRequest × S) → P p.0 → P (prepared cfg out p).0
    unfolding prepared
    prepared_kept (tc, req, s) b = elim (Bool-cases req.stream) [
      | inl streamed ↦ rw (streamed, prepared) b
      | inr whole ↦ rw (whole, prepared) b
    ]

    handle_chat_completion_kept :
        (post : Bool) (l : Listing) (body : Body) (tc : ToolCache) (s : S)
        → L l
        → P tc
        → P (handle_chat_completion cfg out post l body tc s).0
    unfolding handle_chat_completion prepare
    handle_chat_completion_kept false l body tc s ok b = b
    handle_chat_completion_kept true l unread tc s ok b = b
    handle_chat_completion_kept true l invalid tc s ok b = b
    handle_chat_completion_kept true l (parsed req) tc s ok b =
        let ms = (fix_messages out tc.tool_to_group [] req.messages s).0 in
        prepared_kept (prepare cfg out l req tc s) (choose_tools_kept cfg l req.tools ms tc ok b)

  module _ {S : Type 0} (w : Backend S) where
    complete_kept : (r : Request) (c : ToolCache × Reply × S) → P c.0 → P (complete w r c).0
    unfolding complete finish
    complete_kept r (tc, http_error code why, s) b = b
    complete_kept r (tc, response resp, s) b = b
    complete_kept r (tc, stream req, s) b = b

    serve_at_kept :
        (to : Route) (unix : ℕ) (l : Listing) (r : Request) (tc : ToolCache) (s : S)
        → L l
        → P tc
        → P (serve_at w to unix l r tc s).0
    unfolding serve_at
    serve_at_kept completions unix l r tc s ok b =
        let post = r.method == text "POST" in
        let body = body_of w.decode_request r.body in
        complete_kept r (handle_chat_completion w.cfg (outside w) post l body tc s)
          (handle_chat_completion_kept w.cfg (outside w) post l body tc s ok b)
    serve_at_kept model_list unix l r tc s ok b = b
    serve_at_kept health unix l r tc s ok b = b
    serve_at_kept cache_status unix l r tc s ok b = b
    serve_at_kept cache_refresh unix l r tc s ok b =
        handle_cache_refresh_kept (r.method == text "POST") w.cfg l tc ok b
    serve_at_kept passing unix l r tc s ok b = b

    serve_all_kept :
        (rs : List (ℕ × Listing × Request)) (tc : ToolCache) (s : S)
        → All (λ (x : ℕ × Listing × Request). L x.1) rs
        → P tc
        → P (serve_all w rs tc s).0
    unfolding serve_all
    serve_all_kept [] tc s ok b = b
    serve_all_kept ((unix, l, r) ∷ rs) tc s ok b =
        let next = serve_at w (route r.path) unix l r tc s in
        serve_all_kept rs next.0 next.2 ok.1 (serve_at_kept (route r.path) unix l r tc s ok.0 b)

    -- From the start on.
    pub run_kept :
        (getenv : Text → Text) (l : Listing) (rs : List (ℕ × Listing × Request)) (s : S)
        → L l
        → All (λ (x : ℕ × Listing × Request). L x.1) rs
        → P (init getenv).tool_cache
        → P (serve_all w rs (boot w getenv l) s).0
    unfolding boot
    run_kept getenv l rs s ok oks b =
        serve_all_kept rs (boot w getenv l) s oks
          (initialize_kept w.cfg l (init getenv).tool_cache ok b)
