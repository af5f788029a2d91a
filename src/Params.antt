-- ===== src/Params.antt =====
-- src/connectors/core/params-validator.ts: the parameters of a connection against a schema.
-- `N` is the type of JavaScript numbers, `lt` their `<`, `to_number` is `Number` (`none` is `NaN`),
-- and `matches` says whether a text matches a pattern (the patterns of a schema are taken to be
-- well-formed, since `new RegExp` throws on others).
pub mod Validity
pub mod Tests
use opcua_light_server.Prelude.{
  Bool, true, false, ◌||◌, not, Option, none, some, List, [], ◌∷◌, ◌++◌, if◌then◌else◌, any,
  is_empty, Text, codes, text_eq,
}
use opcua_light_server.Prelude.Json.{Json, Fields, null, bool, num, str, arr, obj, get}

pub data FieldType : Type 0 where
  text number boolean select : FieldType

-- `options` are the values of the options.
pub record ParamField (N : Type 0) : Type 0 where
  pub key : Text
  pub label : Text
  pub type : FieldType
  pub required : Bool
  pub pattern : Option Text
  pub pattern_message : Option Text
  pub min : Option N
  pub max : Option N
  pub options : Option (List Text)

-- What a message says; the source puts the field's label before it.
pub data Complaint (N : Type 0) : Type 0 where
  is_required not_string not_number not_boolean mismatch : Complaint N
  custom : Text → Complaint N
  too_small too_large : N → Complaint N
  not_one_of : List Text → Complaint N

pub record FieldError (N : Type 0) : Type 0 where
  pub field : Text
  pub label : Text
  pub complaint : Complaint N

pub record ValidationResult (N : Type 0) : Type 0 where
  pub valid : Bool
  pub errors : List (FieldError N)

-- `field.pattern` as a condition: an empty pattern counts as none.
abbrev pub has_pattern : Option Text → Option Text
has_pattern none = none
has_pattern (some p) = if is_empty p then none else some p

module _ {N : Type 0} where
  abbrev error_of : ParamField N → Complaint N → List (FieldError N)
  error_of f c = record { field = f.key; label = f.label; complaint = c } ∷ []

  -- `value === undefined || value === null || value === ''`
  abbrev pub is_absent : Option (Json N) → Bool
  is_absent none = true
  is_absent (some null) = true
  is_absent (some (str s)) = is_empty s
  is_absent (some (bool b)) = false
  is_absent (some (num n)) = false
  is_absent (some (arr xs)) = false
  is_absent (some (obj fs)) = false

  mismatch_of : Option Text → Complaint N
  mismatch_of none = mismatch
  mismatch_of (some message) = custom message

  pub validate_boolean : ParamField N → Json N → List (FieldError N)
  validate_boolean f (bool b) = []
  validate_boolean f (str s) =
      if text_eq s (codes "true") || text_eq s (codes "false") then [] else error_of f not_boolean
  validate_boolean f null = error_of f not_boolean
  validate_boolean f (num n) = error_of f not_boolean
  validate_boolean f (arr xs) = error_of f not_boolean
  validate_boolean f (obj fs) = error_of f not_boolean

  abbrev pub allowed_values : ParamField N → List Text
  allowed_values f = elim f.options [ none ↦ [] | some values ↦ values ]

  pub validate_select : ParamField N → Json N → List (FieldError N)
  validate_select f (str s) =
      if any (λ v. text_eq v s) (allowed_values f)
      then []
      else error_of f (not_one_of (allowed_values f))
  validate_select f null = error_of f not_string
  validate_select f (bool b) = error_of f not_string
  validate_select f (num n) = error_of f not_string
  validate_select f (arr xs) = error_of f not_string
  validate_select f (obj fs) = error_of f not_string

  module _ (matches : Text → Text → Bool) where
    pub validate_text : ParamField N → Json N → List (FieldError N)
    unfolding mismatch_of
    validate_text f (str s) = elim (has_pattern f.pattern) [
      | none ↦ []
      | some p ↦ if matches p s then [] else error_of f (mismatch_of f.pattern_message)
    ]
    validate_text f null = error_of f not_string
    validate_text f (bool b) = error_of f not_string
    validate_text f (num n) = error_of f not_string
    validate_text f (arr xs) = error_of f not_string
    validate_text f (obj fs) = error_of f not_string

  module _ (lt : N → N → Bool) (to_number : Text → Option N) where
    -- The number that is checked: `none` is a value that is none.
    abbrev pub num_value : Json N → Option N
    num_value (num n) = some n
    num_value (str s) = to_number s
    num_value null = none
    num_value (bool b) = none
    num_value (arr xs) = none
    num_value (obj fs) = none

    check_min : ParamField N → N → List (FieldError N)
    check_min f n = elim f.min [
      | none ↦ []
      | some least ↦ if lt n least then error_of f (too_small least) else []
    ]

    check_max : ParamField N → N → List (FieldError N)
    check_max f n = elim f.max [
      | none ↦ []
      | some most ↦ if lt most n then error_of f (too_large most) else []
    ]

    pub validate_number : ParamField N → Json N → List (FieldError N)
    unfolding check_min check_max
    validate_number f value = elim (num_value value) [
      | none ↦ error_of f not_number
      | some n ↦ check_min f n ++ check_max f n
    ]

  module _ (matches : Text → Text → Bool) (lt : N → N → Bool) (to_number : Text → Option N) where
    -- The `switch`.
    pub validate_type : FieldType → ParamField N → Json N → List (FieldError N)
    unfolding validate_text validate_number validate_boolean validate_select
    validate_type text f value = validate_text matches f value
    validate_type number f value = validate_number lt to_number f value
    validate_type boolean f value = validate_boolean f value
    validate_type select f value = validate_select f value

    -- The body of the loop.
    pub validate_field : ParamField N → Option (Json N) → List (FieldError N)
    unfolding validate_type
    validate_field f none = if f.required then error_of f is_required else []
    validate_field f (some value) =
        if is_absent (some value)
        then (if f.required then error_of f is_required else [])
        else validate_type f.type f value

    pub field_errors : Fields N → List (ParamField N) → List (FieldError N)
    unfolding validate_field get
    field_errors params [] = []
    field_errors params (f ∷ schema) =
        validate_field f (get f.key params) ++ field_errors params schema

    pub validate_params : Fields N → List (ParamField N) → ValidationResult N
    unfolding field_errors
    validate_params params schema =
        let errors = field_errors params schema in
        record { valid = is_empty errors; errors = errors }
