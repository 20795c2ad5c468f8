-- ===== src/Schema/Validate.antt =====
-- Schema.Validate of backend/internal/validate/schema.go. A value is decoded JSON; the arithmetic of
-- its numbers and its encoding are parameters. The path and the texts of errors are left out: a
-- check answers whether it finds no error.
use Prim.Native.String.{len}
use server_cli.Common.{
  ℤ, pos, ltb_ℤ, String, str_eq, Bool, true, false, not, ◌&&◌, ◌||◌, if◌then◌else◌, Option, none,
  some, List, [], ◌∷◌,
}

-- The number type is that of Go's float64.
mutual
  pub data Json (F : Type 0) : Type 0 where
    null : Json F
    boolean : Bool → Json F
    number : F → Json F
    text : String → Json F
    array : Items F → Json F
    object : Fields F → Json F

  pub data Items (F : Type 0) : Type 0 where
    no_items : Items F
    item : Json F → Items F → Items F

  pub data Fields (F : Type 0) : Type 0 where
    no_fields : Fields F
    field : String → Json F → Fields F → Fields F

-- The elements of enum are decoded; one that does not decode is `none`. A property whose schema is
-- null is `no_schema`. `kind` is the keyword type.
pub record Keywords (F : Type 0) : Type 0 where
  pub kind : String
  pub required : List String
  pub enum : List (Option (Json F))
  pub additional_properties : Option Bool
  pub minimum : Option F
  pub maximum : Option F
  pub min_length : Option ℤ
  pub max_length : Option ℤ

mutual
  pub data Schema (F : Type 0) : Type 0 where
    schema : Keywords F → Properties F → Schema F

  pub data Properties (F : Type 0) : Type 0 where
    no_properties : Properties F
    property : String → Schema F → Properties F → Properties F
    no_schema : String → Properties F → Properties F

-- What the check uses of numbers and of the encoder.
pub record Numbers (F : Type 0) : Type 0 where
  pub less : F → F → Bool
  pub is_integral : F → Bool
  pub encode : Json F → Option String

-- checkType for a value that is not null.
abbrev pub matches : {F : Type 0} → String → Json F → Bool
matches kind null = false
matches kind (boolean b) = str_eq kind "boolean"
matches kind (number f) = str_eq kind "integer" || str_eq kind "number"
matches kind (text t) = str_eq kind "string"
matches kind (array xs) = str_eq kind "array"
matches kind (object fs) = str_eq kind "object"

unfoldable pub is_known_kind : String → Bool
is_known_kind kind =
    str_eq kind "string"
    || str_eq kind "boolean"
    || str_eq kind "integer"
    || str_eq kind "number"
    || str_eq kind "object"
    || str_eq kind "array"
    || str_eq kind "null"

-- The length bounds of a text, in bytes.
abbrev pub fits_length : {F : Type 0} → Keywords F → String → Bool
fits_length s t =
    elim s.min_length [ none ↦ true | some m ↦ not (ltb_ℤ (pos (len t)) m) ]
    && elim s.max_length [ none ↦ true | some m ↦ not (ltb_ℤ m (pos (len t))) ]

unfoldable pub has_field : {F : Type 0} → Fields F → String → Bool
has_field no_fields key = false
has_field (field k v fs) key = let rest = has_field fs key in str_eq k key || rest

unfoldable pub has_property : {F : Type 0} → Properties F → String → Bool
has_property no_properties key = false
has_property (property k s ps) key = let rest = has_property ps key in str_eq k key || rest
has_property (no_schema k ps) key = let rest = has_property ps key in str_eq k key || rest

unfoldable pub has_required : {F : Type 0} → List String → Fields F → Bool
has_required [] fs = true
has_required (key ∷ keys) fs = has_field fs key && has_required keys fs

unfoldable pub has_only_known : {F : Type 0} → Fields F → Properties F → Bool
has_only_known no_fields ps = true
has_only_known (field k v fs) ps = has_property ps k && has_only_known fs ps

unfoldable pub allows_fields : {F : Type 0} → Keywords F → Properties F → Fields F → Bool
allows_fields s ps fs = elim s.additional_properties [
  | none ↦ true
  | some b ↦ b || has_only_known fs ps
]

-- The loop over the properties. The function checks the field under a key, if there is one.
unfoldable pub all_properties :
    {F : Type 0} → Properties F → (String → Schema F → Option Bool) → Bool
all_properties no_properties check = true
all_properties (property k s ps) check =
    let rest = all_properties ps check in elim (check k s) [ none ↦ rest | some b ↦ b && rest ]
all_properties (no_schema k ps) check = all_properties ps check

module _ {F : Type 0} (num : Numbers F) where
  -- checkBounds.
  abbrev pub in_bounds : Keywords F → F → Bool
  in_bounds s f =
      elim s.minimum [ none ↦ true | some m ↦ not (num.less f m) ]
      && elim s.maximum [ none ↦ true | some m ↦ not (num.less m f) ]

  -- jsonEqual.
  unfoldable pub json_equal : Json F → Json F → Bool
  json_equal a b = elim (num.encode a) [
    | none ↦ false
    | some x ↦ elim (num.encode b) [ none ↦ false | some y ↦ str_eq x y ]
  ]

  unfoldable pub is_listed : List (Option (Json F)) → Json F → Bool
  is_listed [] v = false
  is_listed (none ∷ es) v = is_listed es v
  is_listed (some e ∷ es) v = json_equal e v || is_listed es v

  -- The test of enum, which an empty list turns off.
  unfoldable pub in_enum : Keywords F → Json F → Bool
  in_enum s v = elim s.enum [ [] ↦ true | e ∷ es ↦ is_listed (e ∷ es) v ]

  -- The types under which null ends the check before enum.
  abbrev pub skips_enum : String → Bool
  skips_enum kind = not (str_eq kind "" || str_eq kind "null")

  unfoldable mutual
    pub validate : Json F → Schema F → Bool
    validate null (schema s ps) =
        if str_eq s.kind ""
        then in_enum s null
        else is_known_kind s.kind && (skips_enum s.kind || in_enum s null)
    validate (boolean b) (schema s ps) =
        (str_eq s.kind "" || matches {F = F} s.kind (boolean b)) && in_enum s (boolean b)
    validate (number f) (schema s ps) =
        (str_eq s.kind "" || matches {F = F} s.kind (number f))
        && (not (str_eq s.kind "integer") || num.is_integral f)
        && (str_eq s.kind "" || in_bounds s f)
        && in_enum s (number f)
    validate (text t) (schema s ps) =
        (str_eq s.kind "" || (matches {F = F} s.kind (text t) && fits_length s t))
        && in_enum s (text t)
    validate (array xs) (schema s ps) =
        let each = validate_items xs (schema s ps) in
        (str_eq s.kind "" || (matches {F = F} s.kind (array xs) && each)) && in_enum s (array xs)
    validate (object fs) (schema s ps) =
        (str_eq s.kind ""
          || (matches {F = F} s.kind (object fs)
              && has_required s.required fs
              && allows_fields s ps fs
              && all_properties ps (λ key sub. validate_field fs key sub)))
        && in_enum s (object fs)

    pub validate_items : Items F → Schema F → Bool
    validate_items no_items s = true
    validate_items (item v vs) s = let rest = validate_items vs s in validate v s && rest

    pub validate_field : Fields F → String → Schema F → Option Bool
    validate_field no_fields key s = none
    validate_field (field k v fs) key s =
        let rest = validate_field fs key s in
        let here = validate v s in if str_eq k key then some here else rest
