-- ===== src/Llama/Chat.antt =====
-- images/llamastack-proxy/main.go: a chat completion. The outside, with LlamaStack in it, is a state
-- `S` that its answers may change; what it answers is a parameter.
use hmlb.Prelude.{
  ℕ, zero, suc, Bool, true, false, ◌&&◌, List, [], ◌∷◌, ◌++◌, Option, none, some, Text, text,
  text_eq, ◌==◌, nat_beq, if◌then◌else◌, length,
}
use mathlib.Core.List.{reverse}
use hmlb.Prelude.Decimal.{decimal}
use hmlb.Prelude.Maps.{Map, lookup}
use hmlb.Llama.Types.{ToolCall, ChatMessage, ChatCompletionRequest, ChatCompletionResponse, Choice}

-- What the call of a tool's runtime brings.
pub data Invoked : Type 0 where
  unreachable unreadable malformed : Text → Invoked
  bad_status : ℕ → Text → Invoked
  answered : Option Text → Text → Invoked

-- A result, or an error's text.
pub data Outcome : Type 0 where
  done failed : Text → Outcome

pub record Outside (S : Type 0) : Type 0 where
  pub forward : ChatCompletionRequest → S → Option ChatCompletionResponse × S
  -- the tool's name, its group and its arguments
  pub invoke : Text → Text → Text → S → Invoked × S
  -- whether the arguments are a JSON object, and the decoder's complaint if not
  pub parse_args : Text → Option Text

abbrev pub outcome_of : Invoked → Outcome
outcome_of (unreachable e) = failed (text "failed to invoke tool: " ++ e)
outcome_of (bad_status code body) =
    failed (text "tool invocation failed with status " ++ (decimal code ++ (text ": " ++ body)))
outcome_of (unreadable e) = failed (text "failed to read tool response: " ++ e)
outcome_of (malformed e) = failed (text "failed to decode tool result: " ++ e)
outcome_of (answered (some msg) content) = failed (text "tool error: " ++ msg)
outcome_of (answered none content) = done content

abbrev pub is_blank : Text → Bool
is_blank s = nat_beq (length s) 0

unfoldable pub find_call : Text → List ToolCall → Option ToolCall
find_call id [] = none
find_call id (c ∷ cs) = if c.id == id then some c else find_call id cs

-- The search through the earlier messages, the latest first.
unfoldable pub find_earlier : Text → List ChatMessage → Option ToolCall
unfolding find_call
find_earlier id [] = none
find_earlier id (m ∷ ms) =
    let further = find_earlier id ms in
    if m.role == text "assistant"
    then elim (find_call id m.tool_calls) [ some c ↦ some c | none ↦ further ]
    else further

pub data Reply : Type 0 where
  http_error : ℕ → Text → Reply
  response : ChatCompletionResponse → Reply
  stream : ChatCompletionRequest → Reply

abbrev pub first_choice : ChatCompletionResponse → Option Choice
first_choice r = elim r.choices [ [] ↦ none | c ∷ cs ↦ some c ]

-- The tool calls of an answer that asks for some.
unfoldable pub wanted : ChatCompletionResponse → List ToolCall
wanted r = elim (first_choice r) [
  | none ↦ []
  | some c ↦ if c.finish_reason == text "tool_calls" then c.message.tool_calls else []
]

module _ {S : Type 0} (out : Outside S) (tool_to_group : Map Text Text) where
  unfoldable pub execute_tool_call : ToolCall → S → Outcome × S
  execute_tool_call c s = elim (out.parse_args c.arguments) [
    | some e ↦ (failed (text "failed to parse tool arguments: " ++ e), s)
    | none ↦ elim (lookup c.name tool_to_group) [
      | none ↦ (failed (text "tool " ++ (c.name ++ text " not found in cache")), s)
      | some group ↦ let (r, s') = out.invoke c.name group c.arguments s in (outcome_of r, s')
    ]
  ]

  abbrev redone : Outcome → Text
  redone (done r) = r
  redone (failed e) = text "Error executing tool: " ++ e

  -- The content of a tool message that came without one.
  unfoldable pub restore : ChatMessage → List ChatMessage → S → Text × S
  unfolding find_earlier execute_tool_call
  restore m earlier s = elim (find_earlier m.tool_call_id earlier) [
    | none ↦ (text "Tool executed successfully (no content provided by client)", s)
    | some c ↦ let (r, s') = execute_tool_call c s in (redone r, s')
  ]

  -- The messages so far are given the latest first.
  unfoldable pub fix_messages : List ChatMessage → List ChatMessage → S → List ChatMessage × S
  unfolding restore
  fix_messages earlier [] s = (reverse earlier, s)
  fix_messages earlier (m ∷ ms) s = elim (m.role == text "tool" && is_blank m.content) [
    | false ↦ fix_messages (m ∷ earlier) ms s
    | true ↦
        let (content, s') = restore m earlier s in
        fix_messages (record m { content = content } ∷ earlier) ms s'
  ]

  abbrev pub result_text : Outcome → Text
  result_text (done []) = text "Tool executed successfully with no output"
  result_text (done (c ∷ r)) = c ∷ r
  result_text (failed e) = text "Error: " ++ e

  abbrev pub result_message : ToolCall → Outcome → ChatMessage
  result_message c r = record {
    role = text "tool";
    content = result_text r;
    tool_calls = [];
    tool_call_id = c.id;
    name = c.name;
  }

  -- The messages that the calls of one answer add.
  unfoldable pub run_calls : List ToolCall → S → List ChatMessage × S
  unfolding execute_tool_call
  run_calls [] s = ([], s)
  run_calls (c ∷ cs) s =
      let (r, s₁) = execute_tool_call c s in
      let (ms, s₂) = run_calls cs s₁ in (result_message c r ∷ ms, s₂)

  -- What follows an answer: it is returned, or its calls are run and the next round begins.
  unfoldable pub respond :
      (ChatCompletionRequest → S → Reply × S)
      → ChatCompletionRequest
      → ChatCompletionResponse
      → Option Choice
      → List ToolCall
      → S
      → Reply × S
  unfolding run_calls
  respond again req r none cs s = (response r, s)
  respond again req r (some c) [] s = (response r, s)
  respond again req r (some c) (w ∷ ws) s =
      let (ms, s') = run_calls (w ∷ ws) s in
      again (record req { messages = req.messages ++ c.message ∷ ms }) s'

  unfoldable pub follow :
      (ChatCompletionRequest → S → Reply × S)
      → ChatCompletionRequest
      → Option ChatCompletionResponse
      → S
      → Reply × S
  unfolding respond wanted
  follow again req none s = (http_error 500 (text "Failed to process request"), s)
  follow again req (some r) s = respond again req r (first_choice r) (wanted r) s

  -- The loop of at most that many rounds.
  unfoldable pub rounds : ℕ → ChatCompletionRequest → S → Reply × S
  unfolding follow
  rounds zero req s = (http_error 500 (text "Maximum tool execution iterations reached"), s)
  rounds (suc n) req s = let (answer, s') = out.forward req s in follow (rounds n) req answer s'

  abbrev pub max_iterations : ℕ
  max_iterations = 10
