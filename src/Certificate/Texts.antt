-- ===== src/Certificate/Texts.antt =====
-- src/cert-generator/validation.ts: which texts the validators of the fields accept.
use opcua_light_server.Prelude.{
  ◌≡◌, ◌↔◌, ◌⊎◌, ◌≤◌, ◌+◌, ◌-◌, ◌*◌, Bool, true, false, List, [], ◌∷◌, ◌==◌, ◌&&◌, ℕ, All, all, leb,
  arith, is_empty, length, Text, trim, split, read_digits,
}
use opcua_light_server.Certificate.{
  validate_common_name, validate_organization, validate_country_code, validate_dns_name,
  is_host_character, is_octet, is_valid_ipv4, is_canonical,
}

-- Code units by their numbers: 48 to 57 are the digits, 65 to 90 and 97 to 122 the letters.
abbrev pub IsIn : ℕ → ℕ → ℕ → Type 0
IsIn least most c = (least ≤ c) × (c ≤ most)

abbrev pub IsName : Text → Type 0
IsName t = IsIn 1 64 (length t)

abbrev pub IsCountry : Text → Type 0
IsCountry [] = ⊥
IsCountry (c ∷ []) = ⊥
IsCountry (c ∷ d ∷ []) = IsIn 65 90 c × IsIn 65 90 d
IsCountry (c ∷ d ∷ e ∷ t) = ⊥

-- A digit, a letter, a dot or a dash.
abbrev pub IsHostCharacter : ℕ → Type 0
IsHostCharacter c = IsIn 48 57 c ⊎ (IsIn 97 122 c ⊎ (IsIn 65 90 c ⊎ ((c ≡ 46) ⊎ (c ≡ 45))))

abbrev pub IsDnsName : Text → Type 0
IsDnsName t = IsIn 1 253 (length t) × All IsHostCharacter t

-- The decimal digits of a number up to 255, without a leading zero.
abbrev pub IsOctet : Text → Type 0
IsOctet [] = ⊥
IsOctet (c ∷ []) = IsIn 48 57 c
IsOctet (c ∷ d ∷ []) = IsIn 49 57 c × IsIn 48 57 d
IsOctet (c ∷ d ∷ e ∷ []) =
    IsIn 49 57 c × IsIn 48 57 d × IsIn 48 57 e × ((c - 48) * 100 + (d - 48) * 10 + (e - 48) ≤ 255)
IsOctet (c ∷ d ∷ e ∷ f ∷ t) = ⊥

-- Four octets with dots between.
abbrev pub AreFour : List Text → Type 0
AreFour [] = ⊥
AreFour (o₁ ∷ []) = ⊥
AreFour (o₁ ∷ o₂ ∷ []) = ⊥
AreFour (o₁ ∷ o₂ ∷ o₃ ∷ []) = ⊥
AreFour (o₁ ∷ o₂ ∷ o₃ ∷ o₄ ∷ []) = IsOctet o₁ × IsOctet o₂ × IsOctet o₃ × IsOctet o₄
AreFour (o₁ ∷ o₂ ∷ o₃ ∷ o₄ ∷ o₅ ∷ os) = ⊥

abbrev pub IsDotted : Text → Type 0
IsDotted t = AreFour (split 46 t)

pub all-All :
    {A : Type 0} {P : A → Type 0} (p : A → Bool) (xs : List A)
    → ((x : A) → (p x ≡ true) ↔ P x)
    → (all p xs ≡ true) ↔ All P xs
all-All p [] h = ground arith
all-All p (x ∷ xs) h = ground (arith, h x, all-All p xs h)

pub validate_common_name_iff : (t : Text) → (validate_common_name t ≡ true) ↔ IsName (trim t)
unfolding validate_common_name
validate_common_name_iff t = ground arith

pub validate_organization_iff : (t : Text) → (validate_organization t ≡ true) ↔ IsName (trim t)
unfolding validate_organization
validate_organization_iff t = ground arith

two_letters_iff :
    (t : Text) → ((length t == 2 && all (λ c. leb 65 c && leb c 90) t) ≡ true) ↔ IsCountry t
two_letters_iff [] = ground arith
two_letters_iff (c ∷ []) = ground arith
two_letters_iff (c ∷ d ∷ []) = ground arith
two_letters_iff (c ∷ d ∷ e ∷ t) = ground arith

pub validate_country_code_iff : (t : Text) → (validate_country_code t ≡ true) ↔ IsCountry (trim t)
unfolding validate_country_code
validate_country_code_iff t = two_letters_iff (trim t)

is_host_character_iff : (c : ℕ) → (is_host_character c ≡ true) ↔ IsHostCharacter c
unfolding is_host_character
is_host_character_iff c = ground arith

empty_length : (t : Text) → (is_empty t ≡ false) ↔ (1 ≤ length t)
empty_length [] = ground arith
empty_length (c ∷ t) = ground arith

pub validate_dns_name_iff : (t : Text) → (validate_dns_name t ≡ true) ↔ IsDnsName (trim t)
unfolding validate_dns_name
validate_dns_name_iff t =
    ground (arith, all-All is_host_character (trim t) is_host_character_iff, empty_length (trim t))

is_octet_iff : (t : Text) → (is_octet t ≡ true) ↔ IsOctet t
unfolding is_octet is_canonical read_digits
is_octet_iff [] = ground arith
is_octet_iff (c ∷ []) = ground arith
is_octet_iff (c ∷ d ∷ []) = ground arith
is_octet_iff (c ∷ d ∷ e ∷ []) = ground arith
is_octet_iff (c ∷ d ∷ e ∷ f ∷ t) = ground arith

octets_iff : (ps : List Text) → ((length ps == 4 && all is_octet ps) ≡ true) ↔ AreFour ps
octets_iff [] = ground arith
octets_iff (p ∷ []) = ground arith
octets_iff (p ∷ q ∷ []) = ground arith
octets_iff (p ∷ q ∷ r ∷ []) = ground arith
octets_iff (p ∷ q ∷ r ∷ s ∷ []) =
    ground (arith, is_octet_iff p, is_octet_iff q, is_octet_iff r, is_octet_iff s)
octets_iff (p ∷ q ∷ r ∷ s ∷ o ∷ ps) = ground arith

pub is_valid_ipv4_iff : (t : Text) → (is_valid_ipv4 t ≡ true) ↔ IsDotted t
unfolding is_valid_ipv4
is_valid_ipv4_iff t = octets_iff (split 46 t)
