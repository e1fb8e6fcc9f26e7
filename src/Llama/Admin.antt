-- ===== src/Llama/Admin.antt =====
-- images/llamastack-proxy/main.go: the start of the cache, and the two requests of the operator.
use hmlb.Prelude.{ℕ, ◌-◌, Bool, true, false, List, [], ◌∷◌, ◌++◌, Text, text, length}
use hmlb.Prelude.Maps.{Map}
use hmlb.Llama.Cache.{ToolCache, refresh_tool_groups, refresh_all_tools, build_keyword_index}
use hmlb.Llama.Completion.{Listing, Setting}
use hmlb.Llama.Types.{ToolGroupInfo}

-- `refreshAllTools` returns no error: a refresh fails with its groups or not at all.
unfoldable pub refreshed : Setting → Listing → ToolCache × Bool → ToolCache × Bool
unfolding refresh_all_tools build_keyword_index
refreshed cfg l (tc, false) = (tc, false)
refreshed cfg l (tc, true) =
    (build_keyword_index cfg.to_lower (refresh_all_tools l.tools l.now tc), true)

unfoldable pub initialize_tool_cache : Setting → Listing → ToolCache → ToolCache × Bool
unfolding refreshed refresh_tool_groups
initialize_tool_cache cfg l tc = refreshed cfg l (refresh_tool_groups l.groups tc)

pub data RefreshReply : Type 0 where
  error : ℕ → Text → RefreshReply
  success : RefreshReply

abbrev refresh_reply : Listing → Bool → RefreshReply
refresh_reply l true = success
refresh_reply l false = error 500 (text "Failed to refresh tool groups: " ++ l.groups_error)

-- The first argument tells whether the method is POST.
unfoldable pub handle_cache_refresh :
    Bool → Setting → Listing → ToolCache → ToolCache × RefreshReply
unfolding refreshed refresh_tool_groups
handle_cache_refresh false cfg l tc = (tc, error 405 (text "Method not allowed"))
handle_cache_refresh true cfg l tc =
    let (tc', fine) = refreshed cfg l (refresh_tool_groups l.groups tc) in
    (tc', refresh_reply l fine)

pub record CacheStatus : Type 0 where
  pub tool_groups : ℕ
  pub total_tools : ℕ
  pub last_refresh : ℕ
  pub cache_age : ℕ
  pub smart_filter : Bool
  pub explicit_groups : List Text
  pub blacklisted_tools : List Text
  pub groups : List ToolGroupInfo
  pub tools_per_group : Map Text ℕ
  pub keywords_per_group : Map Text ℕ

abbrev pub sizes : {A : Type 0} → Map Text (List A) → Map Text ℕ
sizes [] = []
sizes ((k, xs) ∷ m) = (k, length xs) ∷ sizes m

unfoldable pub handle_cache_status : ℕ → ToolCache → CacheStatus
handle_cache_status now tc = record {
  tool_groups = length tc.tool_groups;
  total_tools = length tc.all_tools;
  last_refresh = tc.last_refresh;
  cache_age = now - tc.last_refresh;
  smart_filter = tc.enable_smart_filter;
  explicit_groups = tc.explicit_groups;
  blacklisted_tools = tc.blacklisted_tools;
  groups = tc.tool_groups;
  tools_per_group = sizes tc.tools_by_group;
  keywords_per_group = sizes tc.group_keywords;
}
