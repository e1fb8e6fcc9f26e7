-- ===== src/Llama/Routing.antt =====
-- images/llamastack-proxy/main.go: the group in which a tool is invoked.
use hmlb.Prelude.{
  ℕ, ◌≡◌, refl, Bool, List, [], ◌∷◌, Option, none, some, Text, text_eq, keep, keep-hit, keep-miss,
  ◌++◌, ◌⊎◌, text, inl, inr, Bool-cases, Option-cases,
}
use mathlib.Core.Path.{subst}
use hmlb.Prelude.All.{All}
use hmlb.Prelude.Maps.{Map, lookup, insert, lookup-insert_inv}
use hmlb.Http.{Request}
use hmlb.Llama.Cache.{
  ToolCache, is_allowed, map_tools, add_group, refresh_group, refresh_groups, refresh_all_tools,
  refresh_tool_groups, build_keyword_index,
}
use hmlb.Llama.Chat.{failed, outcome_of, execute_tool_call}
use hmlb.Llama.Completion.{Listing}
use hmlb.Llama.Sections.{KeptBySections, run_kept}
use hmlb.Llama.Serve.{Backend, outside, boot, serve_all}
use hmlb.Llama.Setup.{init}
use hmlb.Llama.Types.{ToolCall, ToolGroupInfo, LlamaStackTool}

-- Every tool that is listed for a group is related to it.
abbrev pub Lists : (Text → Text → Type 0) → Listing → Type 0
Lists R l =
    (group : Text) (ts : List LlamaStackTool)
    → l.tools group ≡ some ts
    → All (λ (t : LlamaStackTool). R t.name group) ts

All-keep :
    (P : LlamaStackTool → Type 0) (p : LlamaStackTool → Bool) (ts : List LlamaStackTool)
    → All P ts
    → All P (keep p ts)
All-keep P p [] all = tt
All-keep P p (t ∷ ts) all = elim (Bool-cases (p t)) [
  | inl hit ↦ rw (keep-hit p t ts hit) (all.0, All-keep P p ts all.1)
  | inr miss ↦ rw (keep-miss p t ts miss) (All-keep P p ts all.1)
]

module _ (R : Text → Text → Type 0) where
  abbrev Routes : Map Text Text → Type 0
  Routes m = (name group : Text) → lookup name m ≡ some group → R name group

  insert-Routes :
      (name group : Text) (m : Map Text Text)
      → R name group
      → Routes m
      → Routes (insert name group m)
  insert-Routes name group m new old n g found = elim (lookup-insert_inv name n group g m found) [
    | inl (same, value) ↦ subst (λ k. R k g) same (subst (R name) value new)
    | inr (other, before) ↦ old n g before
  ]

  map_tools-Routes :
      (group : Text) (ts : List LlamaStackTool) (m : Map Text Text)
      → All (λ (t : LlamaStackTool). R t.name group) ts
      → Routes m
      → Routes (map_tools group ts m)
  unfolding map_tools
  map_tools-Routes group [] m all old = old
  map_tools-Routes group (t ∷ ts) m all old =
      map_tools-Routes group ts (insert t.name group m) all.1
        (insert-Routes t.name group m all.0 old)

  add_group-Routes :
      (id : Text) (o : Option (List LlamaStackTool)) (tc : ToolCache)
      → ((ts : List LlamaStackTool) → o ≡ some ts → All (λ (t : LlamaStackTool). R t.name id) ts)
      → Routes tc.tool_to_group
      → Routes (add_group id o tc).tool_to_group
  unfolding add_group
  add_group-Routes id none tc lists old = old
  add_group-Routes id (some ts) tc lists old =
      map_tools-Routes id (keep (is_allowed tc.blacklisted_tools) ts) tc.tool_to_group
        (All-keep (λ t. R t.name id) (is_allowed tc.blacklisted_tools) ts (lists ts refl)) old

  refresh_groups-Routes :
      (l : Listing) (gs : List ToolGroupInfo) (tc : ToolCache)
      → Lists R l
      → Routes tc.tool_to_group
      → Routes (refresh_groups l.tools gs tc).tool_to_group
  unfolding refresh_groups refresh_group
  refresh_groups-Routes l [] tc lists old = old
  refresh_groups-Routes l (g ∷ gs) tc lists old =
      refresh_groups-Routes l gs (add_group g.identifier (l.tools g.identifier) tc) lists
        (add_group-Routes g.identifier (l.tools g.identifier) tc (lists g.identifier) old)

  refresh_tool_groups-Routes :
      (o : Option (List ToolGroupInfo)) (tc : ToolCache)
      → Routes tc.tool_to_group
      → Routes (refresh_tool_groups o tc).0.tool_to_group
  unfolding refresh_tool_groups
  refresh_tool_groups-Routes none tc old = old
  refresh_tool_groups-Routes (some gs) tc old = old

  Routes-sections : KeptBySections (Lists R) (λ tc. Routes tc.tool_to_group)
  unfolding refresh_all_tools build_keyword_index
  Routes-sections = record {
    groups = refresh_tool_groups-Routes;
    tools = λ l lists tc old.
        refresh_groups-Routes l tc.tool_groups (record tc { all_tools = []; tools_by_group = [] })
          lists old;
    index = λ to_lower tc old. old;
  }

-- A call without effect, because its arguments cannot be read or the tool is not known, or a call of
-- its tool in a group that is related to it, with the result of that.
abbrev pub IsRouted :
    {S : Type 0} → (Text → Text → Type 0) → Backend S → ToolCache → ToolCall → S → Type 0
IsRouted R w tc c t =
    let ran = execute_tool_call (outside w) tc.tool_to_group c t in
    let unread =
      (e : Text) × (w.parse_args c.arguments ≡ some e)
      × (ran ≡ (failed (text "failed to parse tool arguments: " ++ e), t)) in
    let unknown =
      (lookup c.name tc.tool_to_group ≡ none)
      × (ran ≡ (failed (text "tool " ++ (c.name ++ text " not found in cache")), t)) in
    let called =
      (group : Text) × R c.name group
      × (ran ≡ (
        outcome_of (w.invoke c.name group c.arguments t).0,
        (w.invoke c.name group c.arguments t).1,
      )) in
    (unread ⊎ unknown) ⊎ called

-- The group that a tool is invoked in is one that it was listed for. Once the proxy has started and
-- served some requests, a tool call either fails, with nothing done outside, as its arguments
-- cannot be read or the cache has no such tool, or it invokes the tool that it names, with its
-- arguments and in a group that is related to the tool by every relation that holds of a tool and a
-- group wherever LlamaStack, at the start or with some request, lists the tool for the group; its
-- result is that of the invocation.
pub serve_all-listed :
    {S : Type 0} (R : Text → Text → Type 0) (w : Backend S) (getenv : Text → Text) (l : Listing)
    (rs : List (ℕ × Listing × Request)) (s t : S) (c : ToolCall)
    → Lists R l
    → All (λ (x : ℕ × Listing × Request). Lists R x.1) rs
    → IsRouted R w (serve_all w rs (boot w getenv l) s).0 c t
unfolding init lookup execute_tool_call
serve_all-listed R w getenv l rs s t c now later =
    let tc = (serve_all w rs (boot w getenv l) s).0 in
    let routes : Routes R tc.tool_to_group =
      run_kept (Lists R) (λ tc. Routes R tc.tool_to_group) (Routes-sections R) w getenv l rs s now
        later (λ n g h. cc) in
    elim (Option-cases (w.parse_args c.arguments)) [
      | inr (e, bad) ↦ inl (inl (e, bad, rw (bad, execute_tool_call) refl))
      | inl fine ↦ elim (Option-cases (lookup c.name tc.tool_to_group)) [
        | inl missing ↦ inl (inr (missing, rw (fine, execute_tool_call, missing) refl))
        | inr (group, found) ↦
            inr (group, routes c.name group found, rw (fine, execute_tool_call, found) refl)
      ]
    ]
