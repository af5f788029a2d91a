-- ===== src/Certificate.antt =====
-- src/cert-generator/validation.ts: the request for a new certificate.
-- The fields have the types that the request declares; a name in a list that is no text is `none`.
pub mod Texts
pub mod Groups
pub mod Ipv6
pub mod Requests
pub mod Tests
use opcua_light_server.Prelude.{
  ℕ, suc, Bool, true, false, ◌&&◌, ◌||◌, not, Option, none, some, List, [], ◌∷◌, ◌++◌, ◌==◌, leb,
  if◌then◌else◌, length, any, all, is_empty, Text, codes, trim, split, is_digit, read_digits,
}

-- An octet of at most three digits whose number is written back as itself.
is_canonical : Text → Bool
is_canonical [] = false
is_canonical (c ∷ []) = true
is_canonical (c ∷ d ∷ s) = not (c == b'0')

is_octet : Text → Bool
unfolding is_canonical read_digits
is_octet part =
    leb 1 (length part)
    && leb (length part) 3
    && all is_digit part
    && leb (read_digits 0 part) 255
    && is_canonical part

pub is_valid_ipv4 : Text → Bool
unfolding split is_octet
is_valid_ipv4 ip = let parts = split b'.' ip in length parts == 4 && all is_octet parts

is_hex : ℕ → Bool
is_hex c = is_digit c || leb b'a' c && leb c b'f' || leb b'A' c && leb c b'F'

-- `/^[0-9a-fA-F]{1,4}$/`
pub is_group : Text → Bool
unfolding is_hex
is_group part = leb 1 (length part) && leb (length part) 4 && all is_hex part

-- The number of matches of `/::/g`.
pub count_double_colons : Text → ℕ
count_double_colons [] = 0
count_double_colons (c ∷ []) = 0
count_double_colons (c ∷ d ∷ s) =
    let skipped = count_double_colons (d ∷ s) in
    let taken = count_double_colons s in if c == b':' && d == b':' then suc taken else skipped

-- What stands before and behind the first "::".
pub split_double_colon : Text → Text × Text
split_double_colon [] = ([], [])
split_double_colon (c ∷ []) = (c ∷ [], [])
split_double_colon (c ∷ d ∷ s) =
    let rest = split_double_colon (d ∷ s) in
    if c == b':' && d == b':' then ([], s) else (c ∷ rest.0, rest.1)

parts_of : Text → List Text
unfolding split
parts_of s = if is_empty s then [] else split b':' s

pub is_valid_ipv6 : Text → Bool
unfolding count_double_colons split_double_colon parts_of is_group split
is_valid_ipv6 ip =
    let count = count_double_colons ip in
    let (left, right) = split_double_colon ip in
    let short = parts_of left ++ parts_of right in
    let long = split b':' ip in
    if is_empty ip || any (λ c. c == b'%') ip || leb 2 count
    then false
    else if count == 1
    then leb (length short) 7 && all is_group short
    else length long == 8 && all is_group long

pub validate_ip_address : Text → Bool
unfolding is_valid_ipv4 is_valid_ipv6 trim
validate_ip_address ip =
    let trimmed = trim ip in
    not (is_empty trimmed) && (is_valid_ipv4 trimmed || is_valid_ipv6 trimmed)

is_host_character : ℕ → Bool
is_host_character c =
    is_digit c || leb b'a' c && leb c b'z' || leb b'A' c && leb c b'Z' || c == b'.' || c == b'-'

pub validate_dns_name : Text → Bool
unfolding is_host_character trim
validate_dns_name dns =
    let trimmed = trim dns in
    not (is_empty trimmed) && leb (length trimmed) 253 && all is_host_character trimmed

pub validate_country_code : Text → Bool
unfolding trim
validate_country_code code =
    let trimmed = trim code in length trimmed == 2 && all (λ c. leb b'A' c && leb c b'Z') trimmed

pub validate_common_name : Text → Bool
unfolding trim
validate_common_name cn = let n = length (trim cn) in leb 1 n && leb n 64

pub validate_organization : Text → Bool
unfolding trim
validate_organization org = let n = length (trim org) in leb 1 n && leb n 64

-- `undefined` and `null` are `none`.
pub record GenerateCertificateRequest : Type 0 where
  pub common_name : Option Text
  pub organization : Option Text
  pub country : Option Text
  pub dns_names : Option (List (Option Text))
  pub ip_addresses : Option (List (Option Text))

-- An error by its field; those of the lists with the index.
pub data ValidationError : Type 0 where
  bad_common_name bad_organization bad_country : ValidationError
  bad_dns_name bad_ip_address : ℕ → ValidationError

-- The check of one optional text.
abbrev pub check : (Text → Bool) → ValidationError → Option Text → List ValidationError
check valid e none = []
check valid e (some t) = if not (is_empty (trim t)) && not (valid (trim t)) then e ∷ [] else []

-- The loop over a list, from index `i`.
pub check_all :
    (Text → Bool) → (ℕ → ValidationError) → ℕ → List (Option Text) → List ValidationError
unfolding trim
check_all valid e i [] = []
check_all valid e i (none ∷ ts) = check_all valid e (suc i) ts
check_all valid e i (some t ∷ ts) =
    let rest = check_all valid e (suc i) ts in if valid (trim t) then rest else e i ∷ rest

abbrev pub items : Option (List (Option Text)) → List (Option Text)
items none = []
items (some ts) = ts

pub validate_generate_request : GenerateCertificateRequest → List ValidationError
unfolding check_all validate_common_name validate_organization validate_country_code
    validate_dns_name validate_ip_address trim
validate_generate_request body =
    check validate_common_name bad_common_name body.common_name
    ++ check validate_organization bad_organization body.organization
    ++ check validate_country_code bad_country body.country
    ++ check_all validate_dns_name bad_dns_name 0 (items body.dns_names)
    ++ check_all validate_ip_address bad_ip_address 0 (items body.ip_addresses)
