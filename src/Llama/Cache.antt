-- ===== src/Llama/Cache.antt =====
-- images/llamastack-proxy/main.go: the cache of tools. What a request to LlamaStack returns is an
-- argument, `none` for any failure.
use mathlib.Core.Path.{subst}
use hmlb.Prelude.{
  ℕ, ◌-◌, ◌≡◌, refl, sym, ◌∙◌, Bool, true, false, not, List, [], ◌∷◌, ◌++◌, Option, none, some,
  Text, text, text_eq, ◌==◌, ltb, if◌then◌else◌, any, keep, keep-hit, keep-miss, inl, inr,
  Bool-cases,
}
use hmlb.Prelude.All.{All, All-append}
use hmlb.Prelude.Maps.{Map, keys, insert}
use hmlb.Llama.Keywords.{extract_keywords}
use hmlb.Llama.Types.{ToolGroupInfo, LlamaStackTool, InputSchema}

pub record ToolCache : Type 0 where
  pub tool_groups : List ToolGroupInfo
  pub tools_by_group : Map Text (List LlamaStackTool)
  pub all_tools : List LlamaStackTool
  pub tool_to_group : Map Text Text
  pub last_refresh : ℕ
  pub enable_smart_filter : Bool
  pub explicit_groups : List Text
  pub blacklisted_tools : List Text
  pub group_keywords : Map Text (List Text)

unfoldable pub refresh_tool_groups : Option (List ToolGroupInfo) → ToolCache → ToolCache × Bool
refresh_tool_groups none tc = (tc, false)
refresh_tool_groups (some groups) tc = (record tc { tool_groups = groups }, true)

unfoldable pub is_allowed : List Text → LlamaStackTool → Bool
is_allowed blacklist t = not (any (λ b. b == t.name) blacklist)

unfoldable pub map_tools : Text → List LlamaStackTool → Map Text Text → Map Text Text
map_tools group [] m = m
map_tools group (t ∷ ts) m = map_tools group ts (insert t.name group m)

-- A group whose request fails is skipped.
unfoldable pub add_group : Text → Option (List LlamaStackTool) → ToolCache → ToolCache
unfolding map_tools is_allowed
add_group id none tc = tc
add_group id (some tools) tc =
    let kept = keep (is_allowed tc.blacklisted_tools) tools in
    record tc {
      tools_by_group = insert id kept tc.tools_by_group;
      all_tools = tc.all_tools ++ kept;
      tool_to_group = map_tools id kept tc.tool_to_group;
    }

unfoldable pub refresh_group :
    (Text → Option (List LlamaStackTool)) → ToolGroupInfo → ToolCache → ToolCache
unfolding add_group
refresh_group fetch g tc = add_group g.identifier (fetch g.identifier) tc

unfoldable pub refresh_groups :
    (Text → Option (List LlamaStackTool)) → List ToolGroupInfo → ToolCache → ToolCache
unfolding refresh_group
refresh_groups fetch [] tc = tc
refresh_groups fetch (g ∷ gs) tc = refresh_groups fetch gs (refresh_group fetch g tc)

unfoldable pub refresh_all_tools : (Text → Option (List LlamaStackTool)) → ℕ → ToolCache → ToolCache
unfolding refresh_groups
refresh_all_tools fetch now tc =
    let tc' =
      refresh_groups fetch tc.tool_groups (record tc { all_tools = []; tools_by_group = [] }) in
    record tc' { last_refresh = now }

-- `strings.Join` with a space.
unfoldable pub join : List Text → Text
join [] = []
join (s ∷ []) = s
join (s ∷ t ∷ ss) = s ++ (text " " ++ join (t ∷ ss))

abbrev property_names : Option InputSchema → List Text
property_names none = []
property_names (some schema) = keys schema.properties

unfoldable pub tool_parts : List LlamaStackTool → List Text
tool_parts [] = []
tool_parts (t ∷ ts) = t.name ∷ t.description ∷ (property_names t.input_schema ++ tool_parts ts)

unfoldable pub index_groups :
    (ℕ → ℕ) → Map Text (List LlamaStackTool) → Map Text (List Text) → Map Text (List Text)
unfolding join tool_parts extract_keywords
index_groups to_lower [] m = m
index_groups to_lower ((id, tools) ∷ gs) m =
    index_groups to_lower gs
      (insert id (extract_keywords to_lower (join (id ∷ tool_parts tools))) m)

unfoldable pub build_keyword_index : (ℕ → ℕ) → ToolCache → ToolCache
unfolding index_groups
build_keyword_index to_lower tc = record tc {
  group_keywords = index_groups to_lower tc.tools_by_group [];
}

-- `cacheRefreshInterval` is a setting; times are milliseconds.
unfoldable pub needs_refresh : ℕ → ℕ → ToolCache → Bool
needs_refresh interval now tc = ltb interval (now - tc.last_refresh)

unfoldable pub refresh_if_needed :
    (ℕ → ℕ)
    → ℕ
    → ℕ
    → Option (List ToolGroupInfo)
    → (Text → Option (List LlamaStackTool))
    → ToolCache
    → ToolCache
unfolding needs_refresh refresh_tool_groups refresh_all_tools build_keyword_index
refresh_if_needed to_lower interval now groups fetch tc = elim (needs_refresh interval now tc) [
  | false ↦ tc
  | true ↦
      let (tc₁, fine) = refresh_tool_groups groups tc in
      if fine then build_keyword_index to_lower (refresh_all_tools fetch now tc₁) else tc₁
]

-- A tool that is not blacklisted.
abbrev pub IsAllowedTool : List Text → LlamaStackTool → Type 0
IsAllowedTool blacklist t = is_allowed blacklist t ≡ true

pub kept-IsAllowedTool :
    (blacklist : List Text) (ts : List LlamaStackTool)
    → All (IsAllowedTool blacklist) (keep (is_allowed blacklist) ts)
kept-IsAllowedTool blacklist [] = tt
kept-IsAllowedTool blacklist (t ∷ ts) = elim (Bool-cases (is_allowed blacklist t)) [
  | inl free ↦
      rw (keep-hit (is_allowed blacklist) t ts free) (free, kept-IsAllowedTool blacklist ts)
  | inr listed ↦ rw (keep-miss (is_allowed blacklist) t ts listed) (kept-IsAllowedTool blacklist ts)
]

add_group_allowed :
    (id : Text) (o : Option (List LlamaStackTool)) (tc : ToolCache)
    → All (IsAllowedTool tc.blacklisted_tools) tc.all_tools
    → All (IsAllowedTool tc.blacklisted_tools) (add_group id o tc).all_tools
unfolding add_group
add_group_allowed id none tc all = all
add_group_allowed id (some tools) tc all =
    All-append (IsAllowedTool tc.blacklisted_tools) tc.all_tools _ all
      (kept-IsAllowedTool tc.blacklisted_tools tools)

add_group_blacklist :
    (id : Text) (o : Option (List LlamaStackTool)) (tc : ToolCache)
    → (add_group id o tc).blacklisted_tools ≡ tc.blacklisted_tools
unfolding add_group
add_group_blacklist id none tc = refl
add_group_blacklist id (some tools) tc = refl

refresh_groups_allowed :
    (fetch : Text → Option (List LlamaStackTool)) (gs : List ToolGroupInfo) (tc : ToolCache)
    (blacklist : List Text)
    → tc.blacklisted_tools ≡ blacklist
    → All (IsAllowedTool blacklist) tc.all_tools
    → All (IsAllowedTool blacklist) (refresh_groups fetch gs tc).all_tools
unfolding refresh_groups refresh_group
refresh_groups_allowed fetch [] tc blacklist e all = all
refresh_groups_allowed fetch (g ∷ gs) tc blacklist e all =
    refresh_groups_allowed fetch gs (add_group g.identifier (fetch g.identifier) tc) blacklist
      (add_group_blacklist g.identifier (fetch g.identifier) tc ∙ e)
      (subst (λ b. All (IsAllowedTool b) (add_group g.identifier (fetch g.identifier) tc).all_tools)
        e
        (add_group_allowed g.identifier (fetch g.identifier) tc
          (subst (λ b. All (IsAllowedTool b) tc.all_tools) (sym e) all)))

-- After a refresh, whatever LlamaStack answered and whatever was cached before, no tool in the list
-- of all tools is on the blacklist.
pub refresh_all_tools_allowed :
    (fetch : Text → Option (List LlamaStackTool)) (now : ℕ) (tc : ToolCache)
    → All (IsAllowedTool tc.blacklisted_tools) (refresh_all_tools fetch now tc).all_tools
unfolding refresh_all_tools
refresh_all_tools_allowed fetch now tc =
    refresh_groups_allowed fetch tc.tool_groups (record tc { all_tools = []; tools_by_group = [] })
      tc.blacklisted_tools refl tt
