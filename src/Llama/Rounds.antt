-- ===== src/Llama/Rounds.antt =====
-- What a chat completion sends to LlamaStack, and how often.
use hmlb.Prelude.{
  ℕ, zero, suc, ◌+◌, ◌≤◌, ◌≡◌, ◌≢◌, refl, ap, ◌∙◌, false, List, [], ◌∷◌, ◌++◌, Option, none, some,
  Text, length, map, arith, inl, inr, Bool-cases, Option-cases, text_eq,
}
use hmlb.Prelude.All.{All}
use hmlb.Prelude.Maps.{Map, lookup}
use hmlb.Llama.Chat.{
  Outcome, done, failed, Outside, is_blank, Reply, first_choice, wanted, execute_tool_call,
  run_calls, result_text, respond, follow, rounds, fix_messages,
}
use hmlb.Llama.Cache.{ToolCache}
use hmlb.Llama.Completion.{Listing, Setting, fill_blank, fill_blanks, choose_tools, prepare}
use hmlb.Llama.Types.{
  ToolCall, ChatMessage, ChatCompletionRequest, ChatCompletionResponse, Choice, OpenAiTool,
}

abbrev pub HasContent : ChatMessage → Type 0
HasContent m = is_blank m.content ≡ false

fill_blank-HasContent : (m : ChatMessage) → HasContent (fill_blank m)
unfolding fill_blank
fill_blank-HasContent m = elim (Bool-cases (is_blank m.content)) [
  | inl blank ↦ ground arith
  | inr full ↦ ground arith
]

filled : (ms : List ChatMessage) → All HasContent (map fill_blank ms)
filled [] = tt
filled (m ∷ ms) = (fill_blank-HasContent m, filled ms)

result_text_full :
    {S : Type 0} (out : Outside S) (groups : Map Text Text) (r : Outcome)
    → is_blank (result_text out groups r) ≡ false
result_text_full out groups (done []) = refl
result_text_full out groups (done (c ∷ r)) = ground arith
result_text_full out groups (failed e) = ground arith

fill_blanks-HasContent :
    (ts : List OpenAiTool) (ms : List ChatMessage)
    → length ts ≢ 0
    → All HasContent (fill_blanks ts ms)
unfolding fill_blanks
fill_blanks-HasContent [] ms ne = absurd (ne refl)
fill_blanks-HasContent (t ∷ ts) ms ne = filled ms

-- A request that carries tools once it is prepared has a content in every message, whatever the
-- client sent.
pub prepare-HasContent :
    {S : Type 0} (cfg : Setting) (out : Outside S) (l : Listing) (req : ChatCompletionRequest)
    (tc : ToolCache) (s : S)
    → length (prepare cfg out l req tc s).1.tools ≢ 0
    → All HasContent (prepare cfg out l req tc s).1.messages
unfolding prepare
prepare-HasContent cfg out l req tc s some_tools =
    let ms = (fix_messages out tc.tool_to_group [] req.messages s).0 in
    fill_blanks-HasContent (choose_tools cfg l req.tools ms tc).1 ms some_tools

module _ {S : Type 0} (out : Outside S) (groups : Map Text Text) where
  -- The calls of an answer are run in their order: each adds one message with the call's id, its
  -- name and some content.
  pub run_calls_lem :
      (cs : List ToolCall) (s : S)
      → (map (λ (m : ChatMessage). m.tool_call_id) (run_calls out groups cs s).0
          ≡ map (λ (c : ToolCall). c.id) cs)
        × (map (λ (m : ChatMessage). m.name) (run_calls out groups cs s).0
            ≡ map (λ (c : ToolCall). c.name) cs)
        × All HasContent (run_calls out groups cs s).0
  unfolding run_calls
  run_calls_lem [] s = (refl, refl, tt)
  run_calls_lem (c ∷ cs) s =
      let (r, s₁) = execute_tool_call out groups c s in
      let (ids, names, all) = run_calls_lem cs s₁ in
      (ap (◌∷◌ c.id) ids, ap (◌∷◌ c.name) names, (result_text_full out groups r, all))

  module _ (count : S → ℕ)
      (forwards : (req : ChatCompletionRequest) (s : S)
        → count (out.forward req s).1 ≡ suc (count s))
      (invokes : (name group args : Text) (s : S)
        → count (out.invoke name group args s).1 ≡ count s) where
    execute_count : (c : ToolCall) (s : S) → count (execute_tool_call out groups c s).1 ≡ count s
    unfolding execute_tool_call
    execute_count c s = elim (Option-cases (out.parse_args c.arguments)) [
      | inr (e, bad) ↦ rw (bad, execute_tool_call) refl
      | inl fine ↦ elim (Option-cases (lookup c.name groups)) [
        | inl unknown ↦ rw (fine, execute_tool_call, unknown) refl
        | inr (g, known) ↦ rw (fine, execute_tool_call, known) (invokes c.name g c.arguments s)
      ]
    ]

    run_calls_count : (cs : List ToolCall) (s : S) → count (run_calls out groups cs s).1 ≡ count s
    unfolding run_calls
    run_calls_count [] s = refl
    run_calls_count (c ∷ cs) s =
        run_calls_count cs (execute_tool_call out groups c s).1 ∙ execute_count c s

    respond_count :
        (n : ℕ) (again : ChatCompletionRequest → S → Reply × S)
        → ((req : ChatCompletionRequest) (s : S) → count (again req s).1 ≤ count s + n)
        → (req : ChatCompletionRequest) (r : ChatCompletionResponse) (o : Option Choice)
          (cs : List ToolCall) (s : S)
        → count (respond out groups again req r o cs s).1 ≤ count s + n
    unfolding respond
    respond_count n again few req r none cs s = omega arith
    respond_count n again few req r (some c) [] s = omega arith
    respond_count n again few req r (some c) (w ∷ ws) s =
        let ran = run_calls out groups (w ∷ ws) s in
        omega (
          arith,
          run_calls_count (w ∷ ws) s,
          few (record req { messages = req.messages ++ c.message ∷ ran.0 }) ran.1,
        )

    follow_count :
        (n : ℕ) (again : ChatCompletionRequest → S → Reply × S)
        → ((req : ChatCompletionRequest) (s : S) → count (again req s).1 ≤ count s + n)
        → (req : ChatCompletionRequest) (answer : Option ChatCompletionResponse) (s : S)
        → count (follow out groups again req answer s).1 ≤ count s + n
    unfolding follow
    follow_count n again few req none s = omega arith
    follow_count n again few req (some r) s =
        respond_count n again few req r (first_choice r) (wanted r) s

    -- A completion asks LlamaStack at most once a round, where a count of the requests goes up by
    -- one with each request and is left by every tool.
    pub rounds_count :
        (n : ℕ) (req : ChatCompletionRequest) (s : S)
        → count (rounds out groups n req s).1 ≤ count s + n
    unfolding rounds
    rounds_count zero req s = omega arith
    rounds_count (suc n) req s =
        let (answer, s') = out.forward req s in
        omega (
          arith,
          forwards req s,
          follow_count n (rounds out groups n) (λ q t. rounds_count n q t) req (out.forward req s).0
              (out.forward req s).1,
        )
