-- ===== src/Llama/Types.antt =====
-- images/llamastack-proxy/main.go: the messages of both sides. JSON itself is not modelled: a body is
-- the value that it decodes to.
use hmlb.Prelude.{ℕ, Bool, List, Text, Option}
use hmlb.Prelude.Int.{ℤ}
use hmlb.Prelude.Maps.{Map}

pub record ToolGroupInfo : Type 0 where
  pub identifier : Text
  pub provider_id : Text
  pub provider_resource_id : Text
  pub kind : Text

pub record ToolParameter : Type 0 where
  pub name : Text
  pub parameter_type : Text
  pub description : Text
  pub required : Bool

-- A property of a JSON schema: no object at all, or an object, by what the type assertions on its
-- `type`, `description` and `enum` find. An item of the enum may be no string.
pub data PropertyValue : Type 0 where
  other : PropertyValue
  object : Option Text → Option Text → Option (List (Option Text)) → PropertyValue

pub record InputSchema : Type 0 where
  pub kind : Text
  pub properties : Map Text PropertyValue
  pub required : List Text

-- `Metadata`, `Default` and the identifiers that no code reads are left out.
pub record LlamaStackTool : Type 0 where
  pub name : Text
  pub description : Text
  pub input_schema : Option InputSchema
  pub identifier : Text
  pub parameters : List ToolParameter

pub record OpenAiToolParameter : Type 0 where
  pub kind : Text
  pub description : Text
  pub enum : List Text

pub record OpenAiToolParameters : Type 0 where
  pub kind : Text
  pub properties : Map Text OpenAiToolParameter
  pub required : List Text

pub record OpenAiFunction : Type 0 where
  pub name : Text
  pub description : Text
  pub parameters : OpenAiToolParameters

pub record OpenAiTool : Type 0 where
  pub kind : Text
  pub function : OpenAiFunction

pub record ToolCall : Type 0 where
  pub id : Text
  pub kind : Text
  pub name : Text
  pub arguments : Text

pub record ChatMessage : Type 0 where
  pub role : Text
  pub content : Text
  pub tool_calls : List ToolCall
  pub tool_call_id : Text
  pub name : Text

-- `tool_choice` is the JSON value as a text, where there is one, and `temperature` the number as it
-- is written.
pub record ChatCompletionRequest : Type 0 where
  pub model : Text
  pub messages : List ChatMessage
  pub tools : List OpenAiTool
  pub tool_choice : Option Text
  pub temperature : Text
  pub stream : Bool

pub record Choice : Type 0 where
  pub index : ℕ
  pub message : ChatMessage
  pub finish_reason : Text

pub record Usage : Type 0 where
  pub prompt_tokens : ℤ
  pub completion_tokens : ℤ
  pub total_tokens : ℤ

pub record ChatCompletionResponse : Type 0 where
  pub id : Text
  pub object : Text
  pub created : ℤ
  pub model : Text
  pub choices : List Choice
  pub usage : Usage
