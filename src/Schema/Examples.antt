-- ===== src/Schema/Examples.antt =====
-- A small schema, and values checked against it.
use server_cli.Common.{
  ℕ, pos, String, str_eq, Bool, true, false, ◌≡◌, ◌↔◌, refl, Option, none, some, List, [], ◌∷◌, ltb,
}
use server_cli.Schema.Validate.{
  Json, null, number, array, object, no_items, item, no_fields, field, Keywords, schema,
  no_properties, property, Numbers, validate, is_known_kind, in_enum,
}
use server_cli.Schema.Shapes.{Hollow, array_schema-Hollow}
use server_cli.Schema.Objects.{ObjectOk, object_schema_exact}

abbrev whole : Numbers ℕ
whole = record { less = ltb; is_integral = λ n. true; encode = λ v. some "" }

abbrev keywords : String → List String → Option Bool → Keywords ℕ
keywords kind required additional = record {
  kind = kind;
  required = required;
  enum = [];
  additional_properties = additional;
  minimum = none;
  maximum = some 10;
  min_length = none;
  max_length = some (pos 3);
}

abbrev nested : Json ℕ
nested = array (item null (item (array no_items) no_items))

nested_passes : validate whole nested (schema (keywords "array" [] none) no_properties) ≡ true
unfolding validate is_known_kind in_enum str_eq
nested_passes = refl

array_schema-Hollow_example : Hollow nested
array_schema-Hollow_example =
    array_schema-Hollow whole nested (keywords "array" [] none) no_properties refl nested_passes

abbrev arguments : Json ℕ
arguments = object (field "level" (number 7) no_fields)

object_schema_exact_example :
    (validate whole arguments (
        schema
          (keywords "object" ("level" ∷ []) (some false))
          (property "level" (schema (keywords "integer" [] none) no_properties) no_properties))
      ≡ true)
    ↔ ObjectOk whole
        (keywords "object" ("level" ∷ []) (some false))
        (property "level" (schema (keywords "integer" [] none) no_properties) no_properties)
        (field "level" (number 7) no_fields)
object_schema_exact_example =
    object_schema_exact whole (keywords "object" ("level" ∷ []) (some false))
      (property "level" (schema (keywords "integer" [] none) no_properties) no_properties)
      (field "level" (number 7) no_fields) refl
