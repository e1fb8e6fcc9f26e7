-- ===== src/Llama/Select.antt =====
-- images/llamastack-proxy/main.go: which groups of tools a message calls for.
use hmlb.Prelude.{
  ℕ, zero, suc, ◌+◌, not, ◌||◌, List, [], ◌∷◌, ◌++◌, none, some, Text, text_eq, ◌==◌, ltb, nat_beq,
  if◌then◌else◌, length, map,
}
use hmlb.Prelude.Maps.{lookup}
use hmlb.Prelude.Strings.{contains}
use hmlb.Llama.Cache.{ToolCache}
use hmlb.Llama.Keywords.{extract_keywords}
use hmlb.Llama.Types.{ToolGroupInfo, LlamaStackTool}

-- 10 for the same word, 5 where one holds the other.
unfoldable pub word_score : Text → Text → ℕ
unfolding contains
word_score user group =
    if user == group then 10 else if contains user group || contains group user then 5 else 0

unfoldable pub word_scores : Text → List Text → ℕ
unfolding word_score
word_scores user [] = 0
word_scores user (g ∷ gs) = word_score user g + word_scores user gs

unfoldable pub text_score : List Text → List Text → ℕ
unfolding word_scores
text_score [] gs = 0
text_score (u ∷ us) gs = word_scores u gs + text_score us gs

-- A group without an entry has no words, and scores 0.
unfoldable pub score_tool_group_relevance : (ℕ → ℕ) → Text → Text → ToolCache → ℕ
unfolding text_score extract_keywords
score_tool_group_relevance to_lower message group tc = elim (lookup group tc.group_keywords) [
  | none ↦ 0
  | some words ↦ text_score (extract_keywords to_lower message) words
]

pub record GroupScore : Type 0 where
  pub group : Text
  pub score : ℕ

-- One round of the exchange sort: the item at `i` is compared with each later one, and changes places
-- with it if that one scores more.
unfoldable pub exchange : GroupScore → List GroupScore → GroupScore × List GroupScore
exchange x [] = (x, [])
exchange x (y ∷ ys) =
    let swapped = exchange y ys in
    let stays = exchange x ys in
    if ltb x.score y.score then (swapped.0, x ∷ swapped.1) else (stays.0, y ∷ stays.1)

-- The rounds, one for each item.
unfoldable pub exchange_sort : ℕ → List GroupScore → List GroupScore
unfolding exchange
exchange_sort zero xs = xs
exchange_sort (suc n) [] = []
exchange_sort (suc n) (x ∷ xs) = let (top, rest) = exchange x xs in top ∷ exchange_sort n rest

unfoldable pub scored : List GroupScore → List Text
scored [] = []
scored (g ∷ gs) = if ltb 0 g.score then g.group ∷ scored gs else scored gs

-- The groups with a score, or else the first one.
unfoldable pub pick_groups : List GroupScore → List Text
unfolding scored
pick_groups [] = []
pick_groups (g ∷ gs) = elim (scored (g ∷ gs)) [ [] ↦ g.group ∷ [] | x ∷ xs ↦ x ∷ xs ]

abbrev pub group_ids : List ToolGroupInfo → List Text
group_ids gs = map (λ (g : ToolGroupInfo). g.identifier) gs

unfoldable pub rank_groups : (ℕ → ℕ) → Text → ToolCache → List GroupScore
unfolding exchange_sort score_tool_group_relevance
rank_groups to_lower message tc =
    let scores =
      map (λ id. record { group = id; score = score_tool_group_relevance to_lower message id tc })
        (group_ids tc.tool_groups) in
    exchange_sort (length scores) scores

-- The last fallback of the source, to all groups, is reached with no group at all.
unfoldable pub select_relevant_tool_groups : (ℕ → ℕ) → Text → ToolCache → List Text
unfolding rank_groups pick_groups
select_relevant_tool_groups to_lower message tc =
    if not (nat_beq (length tc.explicit_groups) 0)
    then tc.explicit_groups
    else if not tc.enable_smart_filter
    then group_ids tc.tool_groups
    else pick_groups (rank_groups to_lower message tc)

unfoldable pub get_tools_for_groups : List Text → ToolCache → List LlamaStackTool
get_tools_for_groups [] tc = []
get_tools_for_groups (id ∷ ids) tc =
    (elim (lookup id tc.tools_by_group) [ none ↦ [] | some tools ↦ tools ])
    ++ get_tools_for_groups ids tc
