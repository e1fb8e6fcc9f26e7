-- ===== src/Llama/Completion.antt =====
-- images/llamastack-proxy/main.go, `getToolsForRequest` and `handleChatCompletion`: the tools of a
-- request and the handler of chat completions. What LlamaStack answers to the cache's own requests
-- comes with each call.
use hmlb.Prelude.{
  ℕ, Bool, true, false, List, [], ◌∷◌, Option, Text, text, text_eq, ◌==◌, if◌then◌else◌, map,
}
use hmlb.Llama.Cache.{ToolCache, refresh_if_needed}
use hmlb.Llama.Chat.{
  Outside, Reply, http_error, stream, is_blank, fix_messages, rounds, max_iterations,
}
use hmlb.Llama.Convert.{convert_to_open_ai_tools}
use hmlb.Llama.Select.{select_relevant_tool_groups, get_tools_for_groups}
use hmlb.Llama.Types.{ToolGroupInfo, LlamaStackTool, ChatMessage, ChatCompletionRequest, OpenAiTool}

-- The time, and LlamaStack's lists of groups and of a group's tools; `none` for any failure, with the
-- error's text for the groups.
pub record Listing : Type 0 where
  pub now : ℕ
  pub groups : Option (List ToolGroupInfo)
  pub groups_error : Text
  pub tools : Text → Option (List LlamaStackTool)

-- `strings.ToLower` of a rune, and `cacheRefreshInterval`.
pub record Setting : Type 0 where
  pub to_lower : ℕ → ℕ
  pub interval : ℕ

pub data Body : Type 0 where
  unread invalid : Body
  parsed : ChatCompletionRequest → Body

-- A space in place of no content.
unfoldable pub fill_blank : ChatMessage → ChatMessage
fill_blank m = if is_blank m.content then record m { content = text " " } else m

-- The content of the last message of the user.
unfoldable pub last_user : List ChatMessage → Text → Text
last_user [] found = found
last_user (m ∷ ms) found = last_user ms (if m.role == text "user" then m.content else found)

unfoldable pub get_tools_for_request :
    Setting → Listing → Text → ToolCache → ToolCache × List OpenAiTool
unfolding refresh_if_needed select_relevant_tool_groups get_tools_for_groups
    convert_to_open_ai_tools
get_tools_for_request cfg l message tc =
    let tc' = refresh_if_needed cfg.to_lower cfg.interval l.now l.groups l.tools tc in
    let groups = select_relevant_tool_groups cfg.to_lower message tc' in
    (tc', convert_to_open_ai_tools cfg.to_lower (get_tools_for_groups groups tc'))

-- The tools that a request goes on with: its own ones, or those that are found for its last message
-- of the user.
unfoldable pub choose_tools :
    Setting → Listing → List OpenAiTool → List ChatMessage → ToolCache → ToolCache × List OpenAiTool
unfolding get_tools_for_request last_user
choose_tools cfg l [] ms tc = get_tools_for_request cfg l (last_user ms []) tc
choose_tools cfg l (t ∷ ts) ms tc = (tc, t ∷ ts)

unfoldable pub fill_blanks : List OpenAiTool → List ChatMessage → List ChatMessage
unfolding fill_blank
fill_blanks [] ms = ms
fill_blanks (t ∷ ts) ms = map fill_blank ms

module _ {S : Type 0} (cfg : Setting) (out : Outside S) where
  unfoldable pub prepare :
      Listing → ChatCompletionRequest → ToolCache → S → ToolCache × ChatCompletionRequest × S
  unfolding choose_tools fill_blanks fix_messages
  prepare l req tc s =
      let (ms, s') = fix_messages out tc.tool_to_group [] req.messages s in
      let (tc', ts) = choose_tools cfg l req.tools ms tc in
      (tc', record req { tools = ts; messages = fill_blanks ts ms }, s')

  unfoldable pub prepared : ToolCache × ChatCompletionRequest × S → ToolCache × Reply × S
  unfolding rounds
  prepared (tc, req, s) = elim req.stream [
    | true ↦ (tc, stream req, s)
    | false ↦
        let n = max_iterations out tc.tool_to_group in
        let (reply, s') = rounds out tc.tool_to_group n req s in (tc, reply, s')
  ]

  unfoldable pub handle_chat_completion :
      Bool → Listing → Body → ToolCache → S → ToolCache × Reply × S
  unfolding prepare prepared
  handle_chat_completion false l body tc s = (tc, http_error 405 (text "Method not allowed"), s)
  handle_chat_completion true l unread tc s =
      (tc, http_error 400 (text "Failed to read request"), s)
  handle_chat_completion true l invalid tc s =
      (tc, http_error 400 (text "Invalid request format"), s)
  handle_chat_completion true l (parsed req) tc s = prepared (prepare l req tc s)
