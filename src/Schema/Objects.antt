-- ===== src/Schema/Objects.antt =====
-- What Schema.Validate accepts under the type of objects.
use mathlib.Core.Option
use server_cli.Common.{
  String, str_eq, str_eq_iff, str_eq_refl, Bool, true, false, ◌&&◌, ◌||◌, ◌≡◌, ◌≢◌, ◌↔◌, refl, sym,
  subst, ◌∙◌, ◌⊎◌, inl, inr, Option, none, some, List, [], ◌∷◌, All, if◌then◌else◌, Bool-cases,
  Option-cases, arith,
}
use server_cli.Schema.Validate.{
  Json, object, Fields, no_fields, field, Keywords, Schema, schema, Properties, no_properties,
  property, no_schema, Numbers, has_field, has_property, has_required, has_only_known,
  allows_fields, all_properties, in_enum, validate, validate_field,
}
use server_cli.Schema.Shapes.{Tests, object-Tests}

-- The value of the first field under a key, as a map has one.
unfoldable pub field_of : {F : Type 0} → Fields F → String → Option (Json F)
field_of no_fields key = none
field_of (field k v fs) key = let rest = field_of fs key in if str_eq k key then some v else rest

-- The properties give this key this schema.
unfoldable pub PropertyOf : {F : Type 0} → Properties F → String → Schema F → Type 0
PropertyOf no_properties key sub = ⊥
PropertyOf (property k s ps) key sub = ((k ≡ key) × (s ≡ sub)) ⊎ PropertyOf ps key sub
PropertyOf (no_schema k ps) key sub = PropertyOf ps key sub

-- What the keywords promise of an object.
pub record ObjectOk {F : Type 0} (num : Numbers F) (s : Keywords F) (ps : Properties F)
    (fs : Fields F) : Type 0 where
  pub required : All (λ key. has_field fs key ≡ true) s.required
  pub known :
      s.additional_properties ≡ some false
      → (key : String) → has_field fs key ≡ true
      → has_property ps key ≡ true
  pub valid :
      (key : String) (sub : Schema F) (v : Json F)
      → PropertyOf ps key sub
      → field_of fs key ≡ some v
      → validate num v sub ≡ true
  pub listed : in_enum num s (object fs) ≡ true

module _ {F : Type 0} (num : Numbers F) where
  validate_field-field_of :
      (fs : Fields F) (key : String) (sub : Schema F)
      → validate_field num fs key sub ≡ Option.map (λ v. validate num v sub) (field_of fs key)
  unfolding field_of validate
  validate_field-field_of no_fields key sub = refl
  validate_field-field_of (field k w fs) key sub =
      ground (arith, validate_field-field_of fs key sub)

  properties_hold :
      (ps : Properties F) (check : String → Schema F → Option Bool) (key : String) (sub : Schema F)
      → all_properties ps check ≡ true
      → PropertyOf ps key sub
      → check key sub ≢ some false
  unfolding all_properties PropertyOf
  properties_hold no_properties check key sub h p e = absurd p
  properties_hold (property k t ps) check key sub h (inl (a, b)) e =
      let here : check k t ≡ some false = rw (a, b) e in ground (arith, h, here)
  properties_hold (property k t ps) check key sub h (inr p) e =
      properties_hold ps check key sub (ground (arith, h)) p e
  properties_hold (no_schema k ps) check key sub h p e = properties_hold ps check key sub h p e

  hold_properties :
      (ps : Properties F) (check : String → Schema F → Option Bool)
      → ((key : String) (sub : Schema F) → PropertyOf ps key sub → check key sub ≢ some false)
      → all_properties ps check ≡ true
  unfolding all_properties PropertyOf
  hold_properties no_properties check h = refl
  hold_properties (property k t ps) check h =
      let rest = hold_properties ps check (λ key sub p. h key sub (inr p)) in
      passed (check k t) rest (h k t (inl (refl, refl)))
    where
      passed :
          (o : Option Bool)
          → all_properties ps check ≡ true
          → o ≢ some false
          → elim o [ none ↦ all_properties ps check | some b ↦ b && all_properties ps check ] ≡ true
      passed none r n = r
      passed (some true) r n = r
      passed (some false) r n = absurd (n refl)
  hold_properties (no_schema k ps) check h = hold_properties ps check h

  required_hold :
      (keys : List String) (fs : Fields F)
      → (has_required keys fs ≡ true) ↔ All (λ key. has_field fs key ≡ true) keys
  unfolding has_required
  required_hold [] fs = (λ h. tt, λ a. refl)
  required_hold (key ∷ keys) fs =
      let rest = required_hold keys fs in
      (λ h. (ground (arith, h), rest.0 (ground (arith, h))), λ a. ground (arith, a.0, rest.1 a.1))

  known_hold :
      (fs : Fields F) (ps : Properties F)
      → (has_only_known fs ps ≡ true)
        ↔ ((key : String) → has_field fs key ≡ true → has_property ps key ≡ true)
  unfolding has_only_known has_field
  known_hold no_fields ps = (λ h key e. absurd (ground (arith, e)), λ h. refl)
  known_hold (field k v fs) ps =
      let rest = known_hold fs ps in
      (
        λ h key e. elim (Bool-cases (str_eq k key)) [
          | inl hit ↦
              subst (λ x. has_property ps x ≡ true) ((str_eq_iff k key).0 hit) (ground (arith, h))
          | inr miss ↦ rest.0 (ground (arith, h)) key (ground (arith, e, miss))
        ],
        λ h.
            let here : has_property ps k ≡ true = h k (rw (str_eq_refl k) refl) in
            let later : has_only_known fs ps ≡ true = rest.1 (λ key e. h key (ground (arith, e))) in
            ground (arith, here, later),
      )

  -- The check of an object, as its four parts.
  object_parts :
      (s : Keywords F) (ps : Properties F) (fs : Fields F)
      → Tests s.kind false true
      → validate num (object fs) (schema s ps) ≡ (
          (has_required s.required fs
            && allows_fields s ps fs
            && all_properties ps (λ key sub. validate_field num fs key sub))
          && in_enum num s (object fs))
  unfolding validate
  object_parts s ps fs t = ground (arith, t)

  and_parts :
      (a b c d : Bool)
      → ((a && b && c) && d) ≡ true
      → (a ≡ true) × (b ≡ true) × (c ≡ true) × (d ≡ true)
  and_parts a b c d h = ground (arith, h)

  parts_and :
      (a b c d : Bool) → a ≡ true → b ≡ true → c ≡ true → d ≡ true → ((a && b && c) && d) ≡ true
  parts_and a b c d ha hb hc hd = ground (arith, ha, hb, hc, hd)

  fields_allowed :
      (s : Keywords F) (ps : Properties F) (fs : Fields F)
      → (allows_fields s ps fs ≡ true)
        ↔ (s.additional_properties ≡ some false → has_only_known fs ps ≡ true)
  unfolding allows_fields
  fields_allowed s ps fs = (λ h e. ground (arith, h, e), backward s.additional_properties)
    where
      backward :
          (o : Option Bool)
          → (o ≡ some false → has_only_known fs ps ≡ true)
          → elim o [ none ↦ true | some b ↦ b || has_only_known fs ps ] ≡ true
      backward none h = refl
      backward (some true) h = refl
      backward (some false) h = h refl

  field_valid :
      (fs : Fields F) (key : String) (sub : Schema F) (v : Json F)
      → field_of fs key ≡ some v
      → validate_field num fs key sub ≢ some false
      → validate num v sub ≡ true
  field_valid fs key sub v e n = elim (Bool-cases (validate num v sub)) [
    | inl h ↦ h
    | inr h ↦ absurd (n (validate_field-field_of fs key sub ∙ rw (e, Option.map, h) refl))
  ]

  field_not_invalid :
      (fs : Fields F) (key : String) (sub : Schema F)
      → ((v : Json F) → field_of fs key ≡ some v → validate num v sub ≡ true)
      → validate_field num fs key sub ≢ some false
  field_not_invalid fs key sub h e = elim (Option-cases (field_of fs key)) [
    | inl f ↦
        let none_ : validate_field num fs key sub ≡ none =
          validate_field-field_of fs key sub ∙ rw (f, Option.map) refl in
        ground (arith, none_, e)
    | inr (v, f) ↦
        let some_ : validate_field num fs key sub ≡ some true =
          validate_field-field_of fs key sub ∙ rw (f, Option.map, h v f) refl in
        ground (arith, some_, e)
  ]

  -- Under a schema of type object an object passes just when it has every required field, has no
  -- field but those of the properties if additional ones are ruled out, passes with each field
  -- under the schema that the properties give for it, and is one of the values of enum if there
  -- are any.
  pub object_schema_exact :
      (s : Keywords F) (ps : Properties F) (fs : Fields F)
      → s.kind ≡ "object"
      → (validate num (object fs) (schema s ps) ≡ true) ↔ ObjectOk num s ps fs
  object_schema_exact s ps fs e = (
    λ h.
        let (a, b, c, d) = and_parts _ _ _ _ (sym parts ∙ h) in
        record {
          required = (required_hold s.required fs).0 a;
          known = λ none_else. (known_hold fs ps).0 ((fields_allowed s ps fs).0 b none_else);
          valid = λ key sub v p f.
              field_valid fs key sub v f
                (properties_hold ps (λ k t. validate_field num fs k t) key sub c p);
          listed = d;
        },
    λ ok.
        parts
        ∙ parts_and _ _ _ _ ((required_hold s.required fs).1 ok.required)
            ((fields_allowed s ps fs).1 (λ none_else. (known_hold fs ps).1 (ok.known none_else)))
            (hold_properties ps (λ k t. validate_field num fs k t)
              (λ key sub p. field_not_invalid fs key sub (λ v f. ok.valid key sub v p f)))
            ok.listed,
  )
    where
      parts : validate num (object fs) (schema s ps) ≡ (
          (has_required s.required fs
            && allows_fields s ps fs
            && all_properties ps (λ key sub. validate_field num fs key sub))
          && in_enum num s (object fs))
      parts = object_parts s ps fs (object-Tests s.kind e)
