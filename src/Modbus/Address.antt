-- ===== src/Modbus/Address.antt =====
-- src/connectors/protocols/modbus-tcp/index.ts: device addresses, "HR:100:2" or "CO:5".
-- The errors leave out the address and the type that the source's messages quote.
-- Numbers are exact here, where the source has doubles: they agree below 2 ^ 53.
pub mod Reading
use opcua_light_server.Prelude.{
  ℕ, ◌-◌, Bool, true, false, ◌||◌, ◌&&◌, Option, none, some, List, [], ◌∷◌, ◌++◌, ◌==◌, leb, ltb,
  if◌then◌else◌, is_empty, Text, codes, text_eq, trim_start, split, is_digit, read_digits, map,
}

pub data RegisterType : Type 0 where
  hr ir co di : RegisterType

pub record ParsedAddress : Type 0 where
  pub type : RegisterType
  pub address : ℕ
  pub count : ℕ

pub data AddressError : Type 0 where
  bad_format bad_number bad_count unknown_type : AddressError

pub data Parsed : Type 0 where
  parsed : ParsedAddress → Parsed
  invalid : AddressError → Parsed

pub error_text : AddressError → Text
error_text bad_format = codes "Invalid Modbus device address format"
error_text bad_number = codes "Invalid Modbus address number"
error_text bad_count = codes "Invalid register count"
error_text unknown_type = codes "Unknown Modbus register type"

-- `toUpperCase`, as far as it makes ASCII letters.
upper : ℕ → ℕ
upper c =
    if leb b'a' c && leb c b'z'
    then c - 32
    else if c == 0x131
    then b'I'
    else if c == 0x17f
    then b'S'
    else c

register_type : Text → Option RegisterType
register_type s =
    if text_eq s (codes "HR")
    then some hr
    else if text_eq s (codes "IR")
    then some ir
    else if text_eq s (codes "CO")
    then some co
    else if text_eq s (codes "DI")
    then some di
    else none

take_digits : Text → Text
take_digits [] = []
take_digits (c ∷ s) = if is_digit c then c ∷ take_digits s else []

-- A run of digits as a number, with its sign; `none` is `NaN`.
signed : Bool → Text → Option (Bool × ℕ)
signed negative ds = if is_empty ds then none else some (negative, read_digits 0 ds)

after_space : Text → Option (Bool × ℕ)
unfolding signed take_digits
after_space [] = none
after_space (c ∷ s) =
    if c == b'-'
    then signed true (take_digits s)
    else if c == b'+'
    then signed false (take_digits s)
    else signed false (take_digits (c ∷ s))

-- `parseInt(s, 10)`: leading space, a sign, digits; what follows them is ignored.
pub parse_int : Text → Option (Bool × ℕ)
unfolding after_space trim_start read_digits
parse_int s = after_space (trim_start s)

-- The number unless it is `NaN` or below `least`.
at_least : ℕ → Option (Bool × ℕ) → Option ℕ
at_least least none = none
at_least least (some (negative, n)) = if (negative && ltb 0 n) || ltb n least then none else some n

unfoldable pub is_register : RegisterType → Bool
is_register hr = true
is_register ir = true
is_register co = false
is_register di = false

-- `parts[2] ? parseInt(parts[2], 10) : 1`
parse_count : List Text → Option (Bool × ℕ)
unfolding parse_int
parse_count [] = some (false, 1)
parse_count (s ∷ rest) = if is_empty s then some (false, 1) else parse_int s

parse_parts : Text → Text → List Text → Parsed
unfolding register_type upper at_least is_register parse_count parse_int
parse_parts kind number rest = elim (at_least 0 (parse_int number)) [
  | none ↦ invalid bad_number
  | some address ↦ elim (register_type (map upper kind)) [
    | none ↦ invalid unknown_type
    | some type ↦
        if is_register type
        then (elim (at_least 1 (parse_count rest)) [
          | none ↦ invalid bad_count
          | some count ↦ parsed (record { type = type; address = address; count = count })
        ])
        else parsed (record { type = type; address = address; count = 1 })
  ]
]

parse_split : List Text → Parsed
unfolding parse_parts
parse_split (kind ∷ number ∷ []) = parse_parts kind number []
parse_split (kind ∷ number ∷ third ∷ []) = parse_parts kind number (third ∷ [])
parse_split [] = invalid bad_format
parse_split (kind ∷ []) = invalid bad_format
parse_split (kind ∷ number ∷ third ∷ fourth ∷ rest) = invalid bad_format

unfoldable pub parse_device_address : Text → Parsed
unfolding parse_split split
parse_device_address address = parse_split (split b':' address)
