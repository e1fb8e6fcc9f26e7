-- ===== src/Llama/Blacklist.antt =====
-- The blacklist over a run of the proxy: a tool on it is neither offered to a model nor invoked.
use hmlb.Prelude.{
  ℕ, ◌≡◌, true, not, List, [], ◌∷◌, Option, none, some, Text, text_eq, ◌==◌, any, keep, inl, inr,
  refl, sym, ap, ◌∙◌, ◌++◌, text, Option-cases,
}
use hmlb.Prelude.All.{All, All-append}
use hmlb.Prelude.Entries.{All-keys-insert, All-values-insert, lookup-All_keys, lookup-All_values}
use hmlb.Prelude.Maps.{Map, keys, values, insert, lookup}
use hmlb.Llama.Cache.{
  ToolCache, IsAllowedTool, is_allowed, kept-IsAllowedTool, map_tools, add_group, refresh_group,
  refresh_groups, refresh_all_tools, refresh_tool_groups, build_keyword_index,
}
use hmlb.Llama.Chat.{Outside, failed, execute_tool_call}
use hmlb.Llama.Completion.{Listing}
use hmlb.Llama.Types.{ToolGroupInfo, LlamaStackTool, ToolCall}
use hmlb.Http.{Request}
use hmlb.Llama.Select.{get_tools_for_groups}
use hmlb.Llama.Serve.{Backend, outside, boot, serve_all}
use hmlb.Llama.Setup.{init, parse_names}
use hmlb.Llama.Sections.{KeptBySections, run_kept}

-- A name that is not on the list.
abbrev pub IsFree : List Text → Text → Type 0
IsFree blacklist name = not (any (λ b. b == name) blacklist) ≡ true

-- No cached tool, and no tool with a group, is on the list that the cache has.
pub record IsBarred (blacklist : List Text) (tc : ToolCache) : Type 0 where
  pub same : tc.blacklisted_tools ≡ blacklist
  pub tools : All (λ ts. All (IsAllowedTool blacklist) ts) (values tc.tools_by_group)
  pub routes : All (IsFree blacklist) (keys tc.tool_to_group)

module _ (bl : List Text) where
  map_tools-IsFree :
      (group : Text) (ts : List LlamaStackTool) (m : Map Text Text)
      → All (IsAllowedTool bl) ts
      → All (IsFree bl) (keys m)
      → All (IsFree bl) (keys (map_tools group ts m))
  unfolding map_tools is_allowed
  map_tools-IsFree group [] m free all = all
  map_tools-IsFree group (t ∷ ts) m free all =
      map_tools-IsFree group ts (insert t.name group m) free.1
        (All-keys-insert (IsFree bl) t.name group m free.0 all)

  add_group-IsBarred :
      (id : Text) (o : Option (List LlamaStackTool)) (tc : ToolCache)
      → IsBarred bl tc
      → IsBarred bl (add_group id o tc)
  unfolding add_group
  add_group-IsBarred id none tc b = b
  add_group-IsBarred id (some ts) tc b =
      let kept = keep (is_allowed tc.blacklisted_tools) ts in
      let free : All (IsAllowedTool bl) kept = rw (b.same) (kept-IsAllowedTool bl ts) in
      record {
        same = b.same;
        tools =
            All-values-insert (λ us. All (IsAllowedTool bl) us) id kept tc.tools_by_group free
              b.tools;
        routes = map_tools-IsFree id kept tc.tool_to_group free b.routes;
      }

  refresh_groups-IsBarred :
      (fetch : Text → Option (List LlamaStackTool)) (gs : List ToolGroupInfo) (tc : ToolCache)
      → IsBarred bl tc
      → IsBarred bl (refresh_groups fetch gs tc)
  unfolding refresh_groups refresh_group
  refresh_groups-IsBarred fetch [] tc b = b
  refresh_groups-IsBarred fetch (g ∷ gs) tc b =
      refresh_groups-IsBarred fetch gs (add_group g.identifier (fetch g.identifier) tc)
        (add_group-IsBarred g.identifier (fetch g.identifier) tc b)

  refresh_all_tools-IsBarred :
      (fetch : Text → Option (List LlamaStackTool)) (now : ℕ) (tc : ToolCache)
      → IsBarred bl tc
      → IsBarred bl (refresh_all_tools fetch now tc)
  unfolding refresh_all_tools
  refresh_all_tools-IsBarred fetch now tc b =
      let b' =
        refresh_groups-IsBarred fetch tc.tool_groups
          (record tc { all_tools = []; tools_by_group = [] })
          (record { same = b.same; tools = tt; routes = b.routes }) in
      record { same = b'.same; tools = b'.tools; routes = b'.routes }

  build-IsBarred :
      (to_lower : ℕ → ℕ) (tc : ToolCache)
      → IsBarred bl tc
      → IsBarred bl (build_keyword_index to_lower tc)
  unfolding build_keyword_index
  build-IsBarred to_lower tc b = record { same = b.same; tools = b.tools; routes = b.routes }

  refresh_tool_groups-IsBarred :
      (o : Option (List ToolGroupInfo)) (tc : ToolCache)
      → IsBarred bl tc
      → IsBarred bl (refresh_tool_groups o tc).0
  unfolding refresh_tool_groups
  refresh_tool_groups-IsBarred none tc b = b
  refresh_tool_groups-IsBarred (some gs) tc b = record {
    same = b.same;
    tools = b.tools;
    routes = b.routes;
  }

  IsBarred-sections : KeptBySections (λ l. Unit {0}) (IsBarred bl)
  IsBarred-sections = record {
    groups = refresh_tool_groups-IsBarred;
    tools = λ l ok tc. refresh_all_tools-IsBarred l.tools l.now tc;
    index = build-IsBarred;
  }

offered :
    (bl : List Text) (tc : ToolCache)
    → IsBarred bl tc
    → (ids : List Text) → All (IsAllowedTool bl) (get_tools_for_groups ids tc)
unfolding get_tools_for_groups
offered bl tc b [] = tt
offered bl tc b (id ∷ ids) = elim (Option-cases (lookup id tc.tools_by_group)) [
  | inl missing ↦ rw missing (offered bl tc b ids)
  | inr (ts, found) ↦ rw found (
      All-append (IsAllowedTool bl) ts (get_tools_for_groups ids tc)
        (lookup-All_values (λ us. All (IsAllowedTool bl) us) id ts tc.tools_by_group b.tools found)
        (offered bl tc b ids))
]

-- The call of a barred tool fails, and nothing outside hears of it.
barred_call :
    {S : Type 0} (out : Outside S) (bl : List Text) (tc : ToolCache) (c : ToolCall) (s : S)
    → IsBarred bl tc
    → any (λ b. b == c.name) bl ≡ true
    → (e : Text) × (execute_tool_call out tc.tool_to_group c s ≡ (failed e, s))
unfolding execute_tool_call
barred_call out bl tc c s b listed = elim (Option-cases (out.parse_args c.arguments)) [
  | inr (e, bad) ↦ (text "failed to parse tool arguments: " ++ e, rw (bad, execute_tool_call) refl)
  | inl fine ↦ elim (Option-cases (lookup c.name tc.tool_to_group)) [
    | inl missing ↦ (
      text "tool " ++ (c.name ++ text " not found in cache"),
      rw (fine, missing, execute_tool_call) refl,
    )
    | inr (group, found) ↦
        let free = lookup-All_keys (IsFree bl) c.name group tc.tool_to_group b.routes found in
        cc (sym (ap not listed) ∙ free)
  ]
]

any_listing : (rs : List (ℕ × Listing × Request)) → All (λ x. Unit {0}) rs
any_listing [] = tt
any_listing (r ∷ rs) = (tt, any_listing rs)

-- From the start of the proxy on, with any settings and after any requests, whatever LlamaStack
-- lists at any time: no tool on TOOLS_BLACKLIST is among the tools that are found for some groups,
-- and the call of a tool with such a name fails without a request to LlamaStack.
pub serve_all-barred :
    {S : Type 0} (w : Backend S) (getenv : Text → Text) (l : Listing)
    (rs : List (ℕ × Listing × Request)) (s t : S) (c : ToolCall) (ids : List Text)
    → any (λ b. b == c.name) (parse_names (getenv (text "TOOLS_BLACKLIST"))) ≡ true
    → All
        (IsAllowedTool (parse_names (getenv (text "TOOLS_BLACKLIST"))))
        (get_tools_for_groups ids (serve_all w rs (boot w getenv l) s).0)
      × ((e : Text) × (execute_tool_call
              (outside w)
              (serve_all w rs (boot w getenv l) s).0.tool_to_group
              c
              t
            ≡ (failed e, t)))
unfolding init
serve_all-barred w getenv l rs s t c ids listed =
    let bl = parse_names (getenv (text "TOOLS_BLACKLIST")) in
    let b =
      run_kept (λ l. Unit {0}) (IsBarred bl) (IsBarred-sections bl) w getenv l rs s tt
        (any_listing rs) (record { same = refl; tools = tt; routes = tt }) in
    (
      offered bl (serve_all w rs (boot w getenv l) s).0 b ids,
      barred_call (outside w) bl (serve_all w rs (boot w getenv l) s).0 c t b listed,
    )
