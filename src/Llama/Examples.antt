-- ===== src/Llama/Examples.antt =====
-- The theorems of the proxy on concrete inputs.
mod Proxy
use mathlib.Core.List.{Perm}
use hmlb.Prelude.{
  ℕ, suc, ◌+◌, ◌≤◌, refl, true, false, List, [], ◌∷◌, Option, some, none, Text, text, text_eq,
}
use hmlb.Prelude.Int.{pos}
use hmlb.Prelude.All.{All}
use hmlb.Prelude.Sort.{IsSorted}
use hmlb.Llama.Cache.{ToolCache}
use hmlb.Llama.Chat.{Outside, rounds}
use hmlb.Llama.Chat
use hmlb.Llama.Completion.{Listing, Setting, prepare}
use hmlb.Llama.Order.{better, exchange_sort_lem}
use hmlb.Llama.Rounds.{HasContent, prepare-HasContent, rounds_count}
use hmlb.Llama.Select.{GroupScore, exchange_sort}
use hmlb.Llama.Types.{
  LlamaStackTool, ToolCall, ChatCompletionRequest, ChatCompletionResponse, OpenAiTool,
}

abbrev pub same_case : ℕ → ℕ
same_case r = r

abbrev pub web : GroupScore
web = record { group = text "web"; score = 10 }

abbrev pub files : GroupScore
files = record { group = text "files"; score = 0 }

abbrev pub search_tool : LlamaStackTool
search_tool = record {
  name = text "search";
  description = text "looks things up";
  input_schema = none;
  identifier = [];
  parameters = [];
}

abbrev pub delete_tool : LlamaStackTool
delete_tool = record {
  name = text "delete";
  description = text "removes a file";
  input_schema = none;
  identifier = [];
  parameters = [];
}

abbrev pub a_cache : ToolCache
a_cache = record {
  tool_groups =
      record { identifier = text "web"; provider_id = []; provider_resource_id = []; kind = [] }
      ∷ [];
  tools_by_group = [];
  all_tools = [];
  tool_to_group = (text "search", text "web") ∷ [];
  last_refresh = 0;
  enable_smart_filter = true;
  explicit_groups = [];
  blacklisted_tools = text "delete" ∷ [];
  group_keywords = [];
}

abbrev pub fetch_both : Text → Option (List LlamaStackTool)
fetch_both group = some (search_tool ∷ delete_tool ∷ [])

abbrev pub a_call : ToolCall
a_call = record {
  id = text "c1";
  kind = text "function";
  name = text "search";
  arguments = text "{}";
}

abbrev pub asking : ChatCompletionResponse
asking = record {
  id = text "r";
  object = text "chat.completion";
  created = pos 1;
  model = text "m";
  usage = record { prompt_tokens = pos 1; completion_tokens = pos 1; total_tokens = pos 2 };
  choices =
      record {
        index = 0;
        message = record {
          role = text "assistant";
          content = [];
          tool_calls = a_call ∷ [];
          tool_call_id = [];
          name = [];
        };
        finish_reason = text "tool_calls";
      }
      ∷ [];
}

-- A model that asks for a tool each time; the state counts the requests.
abbrev pub restless : Outside ℕ
restless = record {
  forward = λ req n. (some asking, suc n);
  invoke = λ name group args n. (hmlb.Llama.Chat.answered none (text "42"), n);
  parse_args = λ args. none;
}

abbrev pub a_tool : OpenAiTool
a_tool = record {
  kind = text "function";
  function = record {
    name = text "search";
    description = [];
    parameters = record { kind = text "object"; properties = []; required = [] };
  };
}

abbrev pub a_request : ChatCompletionRequest
a_request = record {
  model = text "m";
  messages =
      record { role = text "user"; content = []; tool_calls = []; tool_call_id = []; name = [] }
      ∷ [];
  tools = a_tool ∷ [];
  tool_choice = none;
  temperature = text "0.5";
  stream = false;
}

exchange_sort_lem_example :
    Perm (exchange_sort 2 (files ∷ web ∷ [])) (files ∷ web ∷ [])
    × IsSorted better (exchange_sort 2 (files ∷ web ∷ []))
exchange_sort_lem_example = exchange_sort_lem 2 (files ∷ web ∷ []) refl

rounds_count_example : (rounds restless a_cache.tool_to_group 10 a_request 0).1 ≤ 0 + 10
rounds_count_example =
    rounds_count restless a_cache.tool_to_group (λ n. n) (λ req n. refl) (λ name group args n. refl)
      10 a_request 0

-- Nothing has changed at LlamaStack since the cache was filled.
abbrev pub a_setting : Setting
a_setting = record { to_lower = same_case; interval = 300000 }

abbrev pub a_listing : Listing
a_listing = record {
  now = 9;
  groups = some a_cache.tool_groups;
  groups_error = [];
  tools = fetch_both;
}

prepare-HasContent_example :
    All HasContent (prepare a_setting restless a_listing a_request a_cache 0).1.messages
unfolding prepare hmlb.Llama.Completion.choose_tools
prepare-HasContent_example =
    prepare-HasContent a_setting restless a_listing a_request a_cache 0 (λ e. cc)
