-- ===== src/Certificate/Requests.antt =====
-- src/cert-generator/validation.ts: which requests have no errors.
use opcua_light_server.Prelude.{◌≡◌, ◌⊎◌, true, Option, none, some, is_empty, Text, trim}
use opcua_light_server.Certificate.Texts.{IsDotted}
use opcua_light_server.Certificate.Ipv6.{IsIpv6}

-- The text that is tested: the loop trims it, and the validator again.
abbrev pub trimmed : Text → Text
trimmed t = trim (trim t)

-- An optional text is missing, blank or of the form.
abbrev pub IsFine : (Text → Type 0) → Option Text → Type 0
IsFine P none = Unit
IsFine P (some t) = (is_empty (trim t) ≡ true) ⊎ P (trimmed t)

-- An item of a list is no text or of the form; a blank one is not exempt.
abbrev pub IsFineItem : (Text → Type 0) → Option Text → Type 0
IsFineItem P none = Unit
IsFineItem P (some t) = P (trimmed t)

-- An address of four decimal numbers, or one of groups.
abbrev pub IsAddress : Text → Type 0
IsAddress t = IsDotted t ⊎ IsIpv6 t
