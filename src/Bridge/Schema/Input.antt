-- ===== src/Bridge/Schema/Input.antt =====
-- flagschema.go, schema.go and fs.go: the input schemas as the JSON that a client is sent.
use lib_agent_mcp.Prelude.{List, [], ◌∷◌, In, first, next, In-none, In-if, inl, inr, if◌then◌else◌}
use lib_agent_mcp.Prelude.Text.{Text, text}
use lib_agent_mcp.Bridge.Blocks.{
  JsonValue, string, object, array, Fields, no_fields, field, Items, no_items, item,
}
use lib_agent_mcp.Bridge.Schema.{
  JsonType, Property, InputSchema, leaf_input, group_input, file_input,
}

unfoldable pub type_name : JsonType → Text
type_name JsonType.boolean = text "boolean"
type_name JsonType.integer = text "integer"
type_name JsonType.number = text "number"
type_name JsonType.string = text "string"
type_name (JsonType.array t) = text "array"

-- The fields "type" and "items" of flagSchema.
unfoldable pub type_fields : JsonType → Fields
type_fields (JsonType.array t) =
    field (text "type") (string (text "array")) (
      field (text "items") (object (field (text "type") (string (type_name t)) no_fields))
        no_fields)
type_fields t = field (text "type") (string (type_name t)) no_fields

unfoldable pub property_json : Property → JsonValue
property_json p =
    object (field (text "description") (string p.description) (type_fields p.json_type))

unfoldable pub property_fields : List Property → Fields
property_fields [] = no_fields
property_fields (p ∷ ps) = field p.name (property_json p) (property_fields ps)

unfoldable pub required_names : List Property → List Text
required_names [] = []
required_names (p ∷ ps) = let rest = required_names ps in if p.required then p.name ∷ rest else rest

abbrev pub strings : List Text → Items
strings [] = no_items
strings (s ∷ ss) = item (string s) (strings ss)

abbrev pub required_field : List Text → Fields
required_field [] = no_fields
required_field (n ∷ ns) = field (text "required") (array (strings (n ∷ ns))) no_fields

-- argsArraySchema
unfoldable pub args_array_schema : Text → JsonValue
args_array_schema description = object (
    field (text "type") (string (text "array")) (
      field (text "items") (object (field (text "type") (string (text "string")) no_fields))
        (field (text "description") (string description) no_fields)))

-- optionsObjectSchema
unfoldable pub options_object_schema : List Property → JsonValue
options_object_schema props = object (
    field (text "type") (string (text "object")) (
      field (text "properties") (object (property_fields props))
        (required_field (required_names props))))

unfoldable pub group_args_description : Text
group_args_description =
    text
      "The subcommand and its arguments/flags, e.g. [\"get\",\"ENG-123\"] or [\"create\",\"--title\",\"X\"]. Use [\"help\"] to list subcommands and flags."

unfoldable pub file_args_description : Text
file_args_description =
    text
      "The verb and its arguments, e.g. [\"find\",\"cache\",\"-e\",\"png\"], [\"ls\",\"cache\"], or [\"get\",\"cache\",\"downloads/F1.png\"]. Use [\"help\"] for usage."

abbrev pub only_args : Text → JsonValue
only_args description = object (
    field (text "type") (string (text "object")) (
      field (text "properties")
        (object (field (text "args") (args_array_schema description) no_fields))
        (required_field (text "args" ∷ []))))

-- The field InputSchema of a tool.
unfoldable pub input_json : InputSchema → JsonValue
input_json (leaf_input positional options) = object (
    field (text "type") (string (text "object")) (
      field (text "properties")
        (object (
          field (text "args") (args_array_schema positional)
            (field (text "options") (options_object_schema options) no_fields)))
        no_fields))
input_json group_input = only_args group_args_description
input_json file_input = only_args file_args_description

-- That the fields have one of this name.
pub data HasField (n : Text) : Fields → Type 0 where
  here : {v : JsonValue} {fs : Fields} → HasField n (field n v fs)
  there : {k : Text} {v : JsonValue} {fs : Fields} → HasField n fs → HasField n (field k v fs)

in_front :
    (p : Property) {ns : List Text} {fs : Fields} {n : Text}
    → ((m : Text) → In m ns → HasField m fs)
    → In n (p.name ∷ ns)
    → HasField n (field p.name (property_json p) fs)
in_front p rest first = here
in_front p rest (next k) = there (rest _ k)

-- Every option that the schema of a tool requires is one of its properties.
pub required_names-HasField :
    (props : List Property) {n : Text}
    → In n (required_names props)
    → HasField n (property_fields props)
unfolding required_names property_fields
required_names-HasField [] h = absurd (In-none h)
required_names-HasField (p ∷ ps) h = elim ((In-if p.required).0 h) [
  | inr (optional, k) ↦ there (required_names-HasField ps k)
  | inl (is_required, k) ↦ in_front p (λ m. required_names-HasField ps) k
]
