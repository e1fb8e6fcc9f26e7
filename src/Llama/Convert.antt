-- ===== src/Llama/Convert.antt =====
-- images/llamastack-proxy/main.go: tools and models in OpenAI's format.
use hmlb.Prelude.{
  ℕ, ◌||◌, List, [], ◌∷◌, Option, none, some, Text, text, text_eq, ◌==◌, nat_beq, if◌then◌else◌,
  length, map, from_option,
}
use hmlb.Prelude.Maps.{Map, insert}
use hmlb.Llama.Types.{
  ToolParameter, PropertyValue, other, object, InputSchema, LlamaStackTool, OpenAiToolParameter,
  OpenAiTool,
}

unfoldable pub map_parameter_type : (ℕ → ℕ) → Text → Text
map_parameter_type to_lower kind =
    let t = map to_lower kind in
    if t == text "string" || t == text "str"
    then text "string"
    else if t == text "integer" || t == text "int"
    then text "integer"
    else if t == text "number" || t == text "float"
    then text "number"
    else if t == text "boolean" || t == text "bool"
    then text "boolean"
    else if t == text "array" || t == text "list"
    then text "array"
    else if t == text "object" || t == text "dict"
    then text "object"
    else text "string"

-- The items of an enum that are strings.
unfoldable pub enum_strings : List (Option Text) → List Text
enum_strings [] = []
enum_strings (none ∷ es) = enum_strings es
enum_strings (some s ∷ es) = s ∷ enum_strings es

-- A property that is no object is dropped.
unfoldable pub convert_properties :
    Map Text PropertyValue → Map Text OpenAiToolParameter → Map Text OpenAiToolParameter
unfolding enum_strings
convert_properties [] m = m
convert_properties ((name, other) ∷ ps) m = convert_properties ps m
convert_properties ((name, object kind description enum) ∷ ps) m = convert_properties ps (
    insert name
      (record {
        kind = from_option (text "string") kind;
        description = from_option [] description;
        enum = elim enum [ none ↦ [] | some es ↦ enum_strings es ];
      })
      m)

unfoldable pub convert_parameters :
    (ℕ → ℕ) → List ToolParameter → Map Text OpenAiToolParameter → Map Text OpenAiToolParameter
unfolding map_parameter_type
convert_parameters to_lower [] m = m
convert_parameters to_lower (p ∷ ps) m = convert_parameters to_lower ps (
    insert p.name
      (record {
        kind = map_parameter_type to_lower p.parameter_type;
        description = p.description;
        enum = [];
      })
      m)

unfoldable pub required_names : List ToolParameter → List Text
required_names [] = []
required_names (p ∷ ps) = if p.required then p.name ∷ required_names ps else required_names ps

abbrev pub tool_name : LlamaStackTool → Text
tool_name t = if nat_beq (length t.name) 0 then t.identifier else t.name

abbrev tool_properties :
    (ℕ → ℕ) → LlamaStackTool → Option InputSchema → Map Text OpenAiToolParameter
tool_properties to_lower t none = convert_parameters to_lower t.parameters []
tool_properties to_lower t (some schema) = convert_properties schema.properties []

abbrev tool_required : LlamaStackTool → Option InputSchema → List Text
tool_required t none = required_names t.parameters
tool_required t (some schema) = schema.required

unfoldable pub convert_tool : (ℕ → ℕ) → LlamaStackTool → OpenAiTool
unfolding convert_properties convert_parameters required_names
convert_tool to_lower t = record {
  kind = text "function";
  function = record {
    name = tool_name t;
    description = t.description;
    parameters = record {
      kind = text "object";
      properties = tool_properties to_lower t t.input_schema;
      required = tool_required t t.input_schema;
    };
  };
}

unfoldable pub convert_to_open_ai_tools : (ℕ → ℕ) → List LlamaStackTool → List OpenAiTool
unfolding convert_tool
convert_to_open_ai_tools to_lower ts = map (convert_tool to_lower) ts
