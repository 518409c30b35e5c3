-- ===== src/Bridge/Schema/WellFormed.antt =====
-- That the input schemas are schemas: each has a type, an array has items, and what an object requires
-- is among its properties.
use lib_agent_mcp.Prelude.{
  ◌≡◌, refl, Option, none, some, List, [], ◌∷◌, arith, In, first, next, In-none, In-single,
  if◌then◌else◌,
}
use lib_agent_mcp.Prelude.Text.{Text, text, text_eq}
use lib_agent_mcp.Bridge.Blocks.{JsonValue, string, object, array, Fields, no_fields, field}
use lib_agent_mcp.Bridge.Command.{Flag, Command}
use lib_agent_mcp.Bridge.Schema.{
  JsonType, Property, slice_item_type, type_schema, flag_schema, option_properties, tool_for,
  tool_for_group,
}
use lib_agent_mcp.Bridge.Schema.Input.{
  type_name, type_fields, property_json, property_fields, required_names, strings, required_field,
  args_array_schema, options_object_schema, group_args_description, only_args, input_json, HasField,
  here, required_names-HasField,
}

-- The value of the first field of a name.
unfoldable pub field_of : Text → Fields → Option JsonValue
field_of k no_fields = none
field_of k (field j v fs) = if text_eq j k then some v else field_of k fs

abbrev pub simple_types : List Text
simple_types = text "boolean" ∷ text "integer" ∷ text "number" ∷ text "string" ∷ []

-- The names that an object requires, as its field "required".
abbrev pub Requires : Option JsonValue → List Text → Type 0
Requires none ns = ns ≡ []
Requires (some v) ns = v ≡ array (strings ns)

mutual
  pub data IsSchema : JsonValue → Type 0 where
    simple :
        {fs : Fields} (t : Text)
        → field_of (text "type") fs ≡ some (string t)
        → In t simple_types
        → IsSchema (object fs)
    array_of :
        {fs : Fields} {v : JsonValue}
        → field_of (text "type") fs ≡ some (string (text "array"))
        → field_of (text "items") fs ≡ some v
        → IsSchema v
        → IsSchema (object fs)
    object_of :
        {fs ps : Fields} (ns : List Text)
        → field_of (text "type") fs ≡ some (string (text "object"))
        → field_of (text "properties") fs ≡ some (object ps)
        → Requires (field_of (text "required") fs) ns
        → ((n : Text) → In n ns → HasField n ps)
        → AreSchemas ps
        → IsSchema (object fs)

  pub data AreSchemas : Fields → Type 0 where
    no_more : AreSchemas no_fields
    and_also :
        {k : Text} {v : JsonValue} {fs : Fields}
        → IsSchema v
        → AreSchemas fs
        → AreSchemas (field k v fs)

-- The types of flags: scalars, and arrays of scalars.
IsScalar : JsonType → Type 0
IsScalar t = In (type_name t) simple_types

abbrev IsFlat : JsonType → Type 0
IsFlat (JsonType.array t) = IsScalar t
IsFlat t = IsScalar t

scalars :
    IsScalar JsonType.boolean
    × IsScalar JsonType.integer
    × IsScalar JsonType.number
    × IsScalar JsonType.string
unfolding IsScalar type_name
scalars = (first, next first, next (next first), next (next (next first)))

slice_item_type-IsScalar : (t : Text) → IsScalar (slice_item_type t)
unfolding slice_item_type
slice_item_type-IsScalar t = ground (arith, scalars)

type_schema-IsFlat : (t : Text) → IsFlat (type_schema t)
unfolding type_schema
type_schema-IsFlat t = ground (arith, scalars, slice_item_type-IsScalar t)

described-IsSchema :
    (d : JsonValue) (t : JsonType)
    → IsFlat t
    → IsSchema (object (field (text "description") d (type_fields t)))
unfolding IsScalar type_fields type_name field_of text text_eq
described-IsSchema d JsonType.boolean h = simple (text "boolean") refl h
described-IsSchema d JsonType.integer h = simple (text "integer") refl h
described-IsSchema d JsonType.number h = simple (text "number") refl h
described-IsSchema d JsonType.string h = simple (text "string") refl h
described-IsSchema d (JsonType.array t) h = array_of refl refl (simple (type_name t) refl h)

property_json-IsSchema : (p : Property) → IsFlat p.json_type → IsSchema (property_json p)
unfolding property_json
property_json-IsSchema p h = described-IsSchema (string p.description) p.json_type h

args_array_schema-IsSchema : (d : Text) → IsSchema (args_array_schema d)
unfolding args_array_schema field_of text text_eq
args_array_schema-IsSchema d =
    array_of refl refl (simple (text "string") refl (next (next (next first))))

required_found : (ns : List Text) → Requires (field_of (text "required") (required_field ns)) ns
unfolding field_of text text_eq
required_found [] = refl
required_found (n ∷ ns) = refl

-- An object of these properties, which requires these names.
abbrev object_with : Fields → List Text → JsonValue
object_with ps ns = object (
    field (text "type") (string (text "object"))
      (field (text "properties") (object ps) (required_field ns)))

object_with-IsSchema :
    (ps : Fields) (ns : List Text)
    → ((n : Text) → In n ns → HasField n ps)
    → AreSchemas ps
    → IsSchema (object_with ps ns)
unfolding field_of text text_eq
object_with-IsSchema ps ns has are = object_of ns refl refl (required_found ns) has are

one_name :
    (n : Text) {v : JsonValue} {fs : Fields} (m : Text) → In m (n ∷ []) → HasField m (field n v fs)
one_name n m h = let same : m ≡ n = In-single h in rw same here

pub only_args-IsSchema : (d : Text) → IsSchema (only_args d)
only_args-IsSchema d =
    object_with-IsSchema (field (text "args") (args_array_schema d) no_fields) (text "args" ∷ [])
      (one_name (text "args")) (and_also (args_array_schema-IsSchema d) no_more)

module _ (name_separator : Text) (hidden_flags : List Text) where
  option_properties-AreSchemas :
      (fs : List Flag)
      → AreSchemas (property_fields (option_properties name_separator hidden_flags fs))
  unfolding property_fields option_properties flag_schema
  option_properties-AreSchemas [] = no_more
  option_properties-AreSchemas (f ∷ fs) =
      and_also (property_json-IsSchema (flag_schema f) (type_schema-IsFlat f.value_type))
        (option_properties-AreSchemas fs)

  options_object_schema-IsSchema :
      (fs : List Flag)
      → IsSchema (options_object_schema (option_properties name_separator hidden_flags fs))
  unfolding options_object_schema
  options_object_schema-IsSchema fs =
      let ps = option_properties name_separator hidden_flags fs in
      object_with-IsSchema (property_fields ps) (required_names ps)
        (λ n h. required_names-HasField ps h) (option_properties-AreSchemas fs)

  -- A tool whose input is sent as a schema.
  pub tool_for-IsSchema :
      (c : Command) → IsSchema (input_json (tool_for name_separator hidden_flags c).input)
  unfolding tool_for input_json
  tool_for-IsSchema c =
      object_with-IsSchema _ [] (λ n h. absurd (In-none h))
        (and_also (args_array_schema-IsSchema _)
          (and_also (options_object_schema-IsSchema _) no_more))

  pub tool_for_group-IsSchema :
      (c : Command) → IsSchema (input_json (tool_for_group name_separator hidden_flags c).input)
  unfolding tool_for_group input_json
  tool_for_group-IsSchema c = only_args-IsSchema group_args_description
