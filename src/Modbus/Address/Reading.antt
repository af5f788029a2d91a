-- ===== src/Modbus/Address/Reading.antt =====
-- src/connectors/protocols/modbus-tcp/index.ts: what the device addresses mean.
use mathlib.Core.List.{append_assoc, append-nil}
use opcua_light_server.Prelude.{
  ◌⊎◌, Bool-cases, ℕ, ◌≤◌, ◌≡◌, refl, ◌∙◌, Bool, true, false, Option, none, some, List, [], ◌∷◌,
  ◌++◌, arith, Text, codes, all, is_digit, read_digits, is_empty, split, split_from, is_space, map,
  if◌then◌else◌, inl, inr,
}
use opcua_light_server.Modbus.Address.{
  RegisterType, hr, ir, co, di, ParsedAddress, parsed, parse_device_address, parse_parts,
  parse_split, parse_int, is_register, at_least, parse_count, register_type, upper, take_digits,
}

-- The names of the register types in an address.
abbrev pub type_name : RegisterType → Text
type_name hr = codes "HR"
type_name ir = codes "IR"
type_name co = codes "CO"
type_name di = codes "DI"

abbrev pub IsDigits : Text → Type 0
IsDigits s = (all is_digit s ≡ true) × (is_empty s ≡ false)

at_least-le : (least n : ℕ) (o : Option (Bool × ℕ)) → at_least least o ≡ some n → least ≤ n
unfolding at_least
at_least-le least n none e = cc
at_least-le least n (some (b, k)) e = ground arith

parse_parts_valid :
    (kind number : Text) (rest : List Text) (a : ParsedAddress)
    → parse_parts kind number rest ≡ parsed a
    → (1 ≤ a.count) × (is_register a.type ≡ false → a.count ≡ 1)
unfolding parse_parts
parse_parts_valid kind number rest a e = ground (arith, at_least-le 1 a.count (parse_count rest))

parse_split_valid :
    (parts : List Text) (a : ParsedAddress)
    → parse_split parts ≡ parsed a
    → (1 ≤ a.count) × (is_register a.type ≡ false → a.count ≡ 1)
unfolding parse_split
parse_split_valid [] a e = cc
parse_split_valid (kind ∷ []) a e = cc
parse_split_valid (kind ∷ number ∷ []) a e = parse_parts_valid kind number [] a e
parse_split_valid (kind ∷ number ∷ third ∷ []) a e = parse_parts_valid kind number (third ∷ []) a e
parse_split_valid (kind ∷ number ∷ third ∷ fourth ∷ rest) a e = cc

registers : (t : RegisterType) → is_register t ≡ true → (t ≡ hr) ⊎ (t ≡ ir)
unfolding is_register
registers hr e = inl refl
registers ir e = inr refl
registers co e = cc
registers di e = cc

-- Of any address that is accepted, the count is positive, and it is one unless the address is of
-- a holding register (HR) or an input register (IR).
pub parse_device_address_valid :
    (address : Text) (a : ParsedAddress)
    → parse_device_address address ≡ parsed a
    → (1 ≤ a.count) × ((a.count ≡ 1) ⊎ ((a.type ≡ hr) ⊎ (a.type ≡ ir)))
unfolding parse_device_address
parse_device_address_valid address a e =
    let v = parse_split_valid (split b':' address) a e in
    (
      v.0,
      elim (Bool-cases (is_register a.type)) [
        | inl r ↦ inr (registers a.type r)
        | inr r ↦ inl (v.1 r)
      ],
    )

split_from-digits :
    (ds current rest : Text)
    → all is_digit ds ≡ true
    → split_from b':' current (ds ++ b':' ∷ rest) ≡ (current ++ ds) ∷ split_from b':' [] rest
unfolding split_from
split_from-digits [] current rest h = rw append-nil refl
split_from-digits (c ∷ ds) current rest h =
    ground (arith, split_from-digits ds (current ++ c ∷ []) rest, append_assoc current (c ∷ []) ds)

split_from-digits_end :
    (ds current : Text) → all is_digit ds ≡ true → split_from b':' current ds ≡ (current ++ ds) ∷ []
unfolding split_from
split_from-digits_end [] current h = rw append-nil refl
split_from-digits_end (c ∷ ds) current h =
    ground (arith, split_from-digits_end ds (current ++ c ∷ []), append_assoc current (c ∷ []) ds)

take_digits-digits : (ds : Text) → all is_digit ds ≡ true → take_digits ds ≡ ds
unfolding take_digits
take_digits-digits [] h = refl
take_digits-digits (c ∷ ds) h = ground (arith, take_digits-digits ds)

is_space-digit : (c : ℕ) → is_digit c ≡ true → is_space c ≡ false
unfolding is_space
is_space-digit c h = ground arith

parse_int-digits : (ds : Text) → IsDigits ds → parse_int ds ≡ some (false, read_digits 0 ds)
unfolding parse_int
parse_int-digits [] h = cc
parse_int-digits (c ∷ ds) h = ground (arith, is_space-digit c, take_digits-digits (c ∷ ds) h.0)

register_type-type_name : (t : RegisterType) → register_type (map upper (type_name t)) ≡ some t
unfolding register_type upper
register_type-type_name hr = refl
register_type-type_name ir = refl
register_type-type_name co = refl
register_type-type_name di = refl

split-type_name :
    (t : RegisterType) (s : Text)
    → split b':' (type_name t ++ b':' ∷ s) ≡ type_name t ∷ split_from b':' [] s
unfolding split
split-type_name hr s = refl
split-type_name ir s = refl
split-type_name co s = refl
split-type_name di s = refl

at_least-digits : (least n : ℕ) → least ≤ n → at_least least (some (false, n)) ≡ some n
unfolding at_least
at_least-digits least n h = ground arith

parse_count-digits :
    (es : Text)
    → IsDigits es
    → 1 ≤ read_digits 0 es
    → at_least 1 (parse_count (es ∷ [])) ≡ some (read_digits 0 es)
unfolding parse_count
parse_count-digits es k p =
    ground (arith, parse_int-digits es k, at_least-digits 1 (read_digits 0 es))

-- The count is read only for a register type.
parse_parts-type_name :
    (t : RegisterType) (ds : Text) (rest : List Text) (n : ℕ)
    → IsDigits ds
    → at_least 1 (parse_count rest) ≡ some n
    → parse_parts (type_name t) ds rest
      ≡ parsed
          (record { type = t; address = read_digits 0 ds; count = if is_register t then n else 1 })
unfolding parse_parts
parse_parts-type_name t ds rest n h e =
    ground (
      arith,
      parse_int-digits ds h,
      at_least-digits 0 (read_digits 0 ds),
      register_type-type_name t,
    )

-- "TYPE:digits" is the address that the digits denote, with a count of one.
pub parse_device_address-plain :
    (t : RegisterType) (ds : Text)
    → IsDigits ds
    → parse_device_address (type_name t ++ b':' ∷ ds)
      ≡ parsed (record { type = t; address = read_digits 0 ds; count = 1 })
unfolding parse_device_address parse_split
parse_device_address-plain t ds h =
    rw (split-type_name t ds, split_from-digits_end ds [] h.0)
      (parse_parts-type_name t ds [] 1 h (unfold at_least parse_count in refl) ∙ ground arith)

-- "TYPE:digits:digits" is the address and the count that the digits denote, for a register type and
-- a positive count.
pub parse_device_address-count :
    (t : RegisterType) (ds es : Text)
    → IsDigits ds
    → IsDigits es
    → is_register t ≡ true
    → 1 ≤ read_digits 0 es
    → parse_device_address (type_name t ++ b':' ∷ (ds ++ b':' ∷ es))
      ≡ parsed (record { type = t; address = read_digits 0 ds; count = read_digits 0 es })
unfolding parse_device_address parse_split
parse_device_address-count t ds es h k r p =
    rw
      (
        split-type_name t (ds ++ b':' ∷ es),
        split_from-digits ds [] es h.0,
        split_from-digits_end es [] k.0,
      )
      (parse_parts-type_name t ds (es ∷ []) (read_digits 0 es) h (parse_count-digits es k p)
        ∙ ground arith)
