-- ===== src/Params/Validity.antt =====
-- src/connectors/core/params-validator.ts: which parameters are valid.
use opcua_light_server.Prelude.{
  is_empty-append, ◌≡◌, ◌↔◌, ◌⊎◌, inl, inr, refl, Bool, true, false, Option, none, some, List, [],
  ◌∷◌, All, arith, any, is_empty, Text, codes, text_eq, text_eq_iff, Option-cases,
}
use opcua_light_server.Prelude.Json.{Json, Fields, null, bool, num, str, arr, obj, get}
use opcua_light_server.Params.{
  FieldType, text, number, boolean, select, ParamField, validate_text, validate_number, check_min,
  check_max, validate_boolean, validate_select, validate_type, validate_field, field_errors,
  validate_params,
}

abbrev pub IsOption : Text → List Text → Type 0
IsOption s [] = ⊥
IsOption s (v ∷ vs) = (v ≡ s) ⊎ IsOption s vs

abbrev pub IsOffered : Text → Option (List Text) → Type 0
IsOffered s none = ⊥
IsOffered s (some values) = IsOption s values

any-IsOption : (s : Text) (vs : List Text) → (any (λ v. text_eq v s) vs ≡ true) ↔ IsOption s vs
any-IsOption s [] = (λ e. cc, λ h. absurd h)
any-IsOption s (v ∷ vs) = ground (arith, text_eq_iff v s, any-IsOption s vs)

-- No pattern and the empty one admit every text.
abbrev pub IsMatched : (Text → Text → Bool) → Option Text → Text → Type 0
IsMatched matches none s = Unit
IsMatched matches (some []) s = Unit
IsMatched matches (some (c ∷ p)) s = matches (c ∷ p) s ≡ true

-- Neither null nor the empty text.
abbrev pub IsPresent : {N : Type 0} → Json N → Type 0
IsPresent null = ⊥
IsPresent (bool b) = Unit
IsPresent (num n) = Unit
IsPresent (str []) = ⊥
IsPresent (str (c ∷ s)) = Unit
IsPresent (arr xs) = Unit
IsPresent (obj fs) = Unit

module _ {N : Type 0} (matches : Text → Text → Bool) (lt : N → N → Bool)
    (to_number : Text → Option N) where
  abbrev pub IsAtLeast : Option N → N → Type 0
  IsAtLeast none n = Unit
  IsAtLeast (some least) n = lt n least ≡ false

  abbrev pub IsAtMost : Option N → N → Type 0
  IsAtMost none n = Unit
  IsAtMost (some most) n = lt most n ≡ false

  -- The value is the number or a text for it.
  abbrev pub IsNumeric : Json N → N → Type 0
  IsNumeric null n = ⊥
  IsNumeric (bool b) n = ⊥
  IsNumeric (num m) n = m ≡ n
  IsNumeric (str s) n = to_number s ≡ some n
  IsNumeric (arr xs) n = ⊥
  IsNumeric (obj fs) n = ⊥

  -- What a present value must be for a field of each type.
  abbrev pub IsOfType : FieldType → ParamField N → Json N → Type 0
  IsOfType text f v = (s : Text) × (v ≡ str s) × IsMatched matches f.pattern s
  IsOfType number f v = (n : N) × IsNumeric v n × IsAtLeast f.min n × IsAtMost f.max n
  IsOfType boolean f v =
      ((b : Bool) × (v ≡ bool b)) ⊎ (v ≡ str (codes "true")) ⊎ (v ≡ str (codes "false"))
  IsOfType select f v = (s : Text) × (v ≡ str s) × IsOffered s f.options

  abbrev pub IsValid : ParamField N → Option (Json N) → Type 0
  IsValid f none = f.required ≡ false
  IsValid f (some v) =
      ((¬ IsPresent v) × (f.required ≡ false)) ⊎ (IsPresent v × IsOfType f.type f v)

  validate_text_iff :
      (f : ParamField N) (v : Json N)
      → (is_empty (validate_text matches f v) ≡ true) ↔ IsOfType text f v
  unfolding validate_text
  validate_text_iff f null = ((λ e. cc), (λ h. cc (h.1)))
  validate_text_iff f (bool b) = ((λ e. cc), (λ h. cc (h.1)))
  validate_text_iff f (num n) = ((λ e. cc), (λ h. cc (h.1)))
  validate_text_iff f (str s) = elim (Option-cases f.pattern) [
    | inl e ↦ ground (arith, e)
    | inr ([], e) ↦ ground (arith, e)
    | inr (c ∷ p, e) ↦ ground (arith, e)
  ]
  validate_text_iff f (arr xs) = ((λ e. cc), (λ h. cc (h.1)))
  validate_text_iff f (obj fs) = ((λ e. cc), (λ h. cc (h.1)))

  validate_number_iff :
      (f : ParamField N) (v : Json N)
      → (is_empty (validate_number lt to_number f v) ≡ true) ↔ IsOfType number f v
  unfolding validate_number
  validate_number_iff f null = (λ e. cc, λ (n, h, _, _). absurd h)
  validate_number_iff f (bool b) = (λ e. cc, λ (n, h, _, _). absurd h)
  validate_number_iff f (num n) =
      ground (arith, is_empty-append (check_min lt to_number f n) (check_max lt to_number f n))
  validate_number_iff f (str s) = elim (Option-cases (to_number s)) [
    | inl e ↦ ground (arith, e)
    | inr (n, e) ↦
        ground (arith, e, is_empty-append (check_min lt to_number f n) (check_max lt to_number f n))
  ]
  validate_number_iff f (arr xs) = (λ e. cc, λ (n, h, _, _). absurd h)
  validate_number_iff f (obj fs) = (λ e. cc, λ (n, h, _, _). absurd h)

  validate_boolean_iff :
      (f : ParamField N) (v : Json N)
      → (is_empty (validate_boolean f v) ≡ true) ↔ IsOfType boolean f v
  unfolding validate_boolean
  validate_boolean_iff f null = ground arith
  validate_boolean_iff f (bool b) = ground arith
  validate_boolean_iff f (num n) = ground arith
  validate_boolean_iff f (str s) =
      ground (arith, text_eq_iff s (codes "true"), text_eq_iff s (codes "false"))
  validate_boolean_iff f (arr xs) = ground arith
  validate_boolean_iff f (obj fs) = ground arith

  validate_select_iff :
      (f : ParamField N) (v : Json N)
      → (is_empty (validate_select f v) ≡ true) ↔ IsOfType select f v
  unfolding validate_select
  validate_select_iff f null = ((λ e. cc), (λ h. cc (h.1)))
  validate_select_iff f (bool b) = ((λ e. cc), (λ h. cc (h.1)))
  validate_select_iff f (num n) = ((λ e. cc), (λ h. cc (h.1)))
  validate_select_iff f (str s) = elim (Option-cases f.options) [
    | inl e ↦ ground (arith, e)
    | inr (vs, e) ↦ ground (arith, e, any-IsOption s vs)
  ]
  validate_select_iff f (arr xs) = ((λ e. cc), (λ h. cc (h.1)))
  validate_select_iff f (obj fs) = ((λ e. cc), (λ h. cc (h.1)))

  validate_type_iff :
      (t : FieldType) (f : ParamField N) (v : Json N)
      → (is_empty (validate_type matches lt to_number t f v) ≡ true) ↔ IsOfType t f v
  unfolding validate_type
  validate_type_iff text f v = validate_text_iff f v
  validate_type_iff number f v = validate_number_iff f v
  validate_type_iff boolean f v = validate_boolean_iff f v
  validate_type_iff select f v = validate_select_iff f v

  validate_field_iff :
      (f : ParamField N) (o : Option (Json N))
      → (is_empty (validate_field matches lt to_number f o) ≡ true) ↔ IsValid f o
  unfolding validate_field
  validate_field_iff f none = ground arith
  validate_field_iff f (some null) = ground arith
  validate_field_iff f (some (bool b)) = ground (arith, validate_type_iff f.type f (bool b))
  validate_field_iff f (some (num n)) = ground (arith, validate_type_iff f.type f (num n))
  validate_field_iff f (some (str [])) = ground arith
  validate_field_iff f (some (str (c ∷ s))) =
      ground (arith, validate_type_iff f.type f (str (c ∷ s)))
  validate_field_iff f (some (arr xs)) = ground (arith, validate_type_iff f.type f (arr xs))
  validate_field_iff f (some (obj fs)) = ground (arith, validate_type_iff f.type f (obj fs))

  -- The parameters pass exactly if every field of the schema is valid: one that is absent
  -- (missing, null or an empty text) is not required, and one that is present is a text that
  -- matches the pattern, a number or numeric text within the bounds, a Boolean or "true" or
  -- "false", or one of the options, by the type of the field.
  pub validate_params_iff :
      (params : Fields N) (schema : List (ParamField N))
      → ((validate_params matches lt to_number params schema).valid ≡ true)
        ↔ All (λ f. IsValid f (get f.key params)) schema
  unfolding validate_params
  validate_params_iff params [] = (λ e. tt, λ h. refl)
  validate_params_iff params (f ∷ schema) = ground (
    arith,
    validate_field_iff f (get f.key params),
    validate_params_iff params schema,
    is_empty-append (validate_field matches lt to_number f (get f.key params))
        (field_errors matches lt to_number params schema),
  )
