-- ===== src/Schema/Shapes.antt =====
-- What Schema.Validate accepts under the type of arrays.
use server_cli.Common.{String, str_eq, Bool, true, false, ◌≡◌, refl, sym, subst, arith}
use server_cli.Schema.Validate.{
  Json, null, boolean, number, text, array, object, Items, no_items, item, Keywords, schema,
  Properties, Numbers, validate, validate_items,
}

-- Only arrays and nulls, at every depth.
unfoldable mutual
  pub Hollow : {F : Type 0} → Json F → Type 0
  Hollow null = Unit
  Hollow (boolean b) = ⊥
  Hollow (number f) = ⊥
  Hollow (text t) = ⊥
  Hollow (array xs) = HollowItems xs
  Hollow (object fs) = ⊥

  pub HollowItems : {F : Type 0} → Items F → Type 0
  HollowItems no_items = Unit
  HollowItems (item v vs) = Hollow v × HollowItems vs

-- The tests of a type against each keyword, where it is the type of arrays or of objects.
abbrev pub Tests : String → Bool → Bool → Type 0
Tests kind as_array as_object =
    (str_eq kind "" ≡ false)
    × (str_eq kind "boolean" ≡ false)
    × (str_eq kind "integer" ≡ false)
    × (str_eq kind "number" ≡ false)
    × (str_eq kind "string" ≡ false)
    × (str_eq kind "array" ≡ as_array)
    × (str_eq kind "object" ≡ as_object)

array-Tests : (kind : String) → kind ≡ "array" → Tests kind true false
unfolding str_eq
array-Tests kind e =
    subst (λ k. Tests k true false) (sym e) (refl, refl, refl, refl, refl, refl, refl)

pub object-Tests : (kind : String) → kind ≡ "object" → Tests kind false true
unfolding str_eq
object-Tests kind e =
    subst (λ k. Tests k false true) (sym e) (refl, refl, refl, refl, refl, refl, refl)

module _ {F : Type 0} (num : Numbers F) where
  mutual
    unfolding validate Hollow

    hollow :
        (v : Json F) (s : Keywords F) (ps : Properties F)
        → Tests s.kind true false
        → validate num v (schema s ps) ≡ true
        → Hollow v
    hollow null s ps t h = tt
    hollow (boolean b) s ps t h = absurd (ground (arith, t, h))
    hollow (number f) s ps t h = absurd (ground (arith, t, h))
    hollow (text x) s ps t h = absurd (ground (arith, t, h))
    hollow (array xs) s ps t h = hollow_items xs s ps t (ground (arith, t, h))
    hollow (object fs) s ps t h = absurd (ground (arith, t, h))

    hollow_items :
        (vs : Items F) (s : Keywords F) (ps : Properties F)
        → Tests s.kind true false
        → validate_items num vs (schema s ps) ≡ true
        → HollowItems vs
    hollow_items no_items s ps t h = tt
    hollow_items (item v vs) s ps t h =
        (hollow v s ps t (ground (arith, h)), hollow_items vs s ps t (ground (arith, h)))

  -- Under a schema of type array the only values that pass are null and arrays of such values: the
  -- schema of the array is applied to its elements too, so no array with a number, a text, a
  -- Boolean or an object in it is ever accepted.
  pub array_schema-Hollow :
      (v : Json F) (s : Keywords F) (ps : Properties F)
      → s.kind ≡ "array"
      → validate num v (schema s ps) ≡ true
      → Hollow v
  array_schema-Hollow v s ps e = hollow v s ps (array-Tests s.kind e)
