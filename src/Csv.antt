-- ===== src/Csv.antt =====
-- src/utils/csv.ts: one line of comma-separated values. A text is the list of its UTF-16 code
-- units, as the source indexes it.
pub mod RoundTrip
mod Tests
use opcua_light_server.Prelude.{
  ℕ, Bool, true, false, ◌||◌, List, [], ◌∷◌, ◌++◌, map, ◌==◌, if◌then◌else◌, Text, includes,
}

-- `value.replace(/"/g, '""')`.
pub double_quotes : Text → Text
double_quotes [] = []
double_quotes (c ∷ s) = if c == b'"' then b'"' ∷ b'"' ∷ double_quotes s else c ∷ double_quotes s

-- The test of `escapeCsvField`.
abbrev pub needs_quotes : Text → Bool
needs_quotes value =
    includes b',' value || (includes b'"' value || (includes 10 value || includes 13 value))

pub escape_csv_field : Text → Text
unfolding double_quotes
escape_csv_field value =
    if needs_quotes value then b'"' ∷ double_quotes value ++ b'"' ∷ [] else value

-- The loop of `parseCsvLine` on what is left of the line, with `fields`, `current`, `inQuotes`.
pub parse_from : List Text → Text → Bool → Text → List Text
parse_from fields current in_quotes [] = fields ++ current ∷ []
parse_from fields current true (c ∷ []) =
    if c == b'"' then fields ++ current ∷ [] else fields ++ (current ++ c ∷ []) ∷ []
parse_from fields current true (c ∷ d ∷ rest) =
    let escaped = parse_from fields (current ++ b'"' ∷ []) true rest in
    let ended = parse_from fields current false (d ∷ rest) in
    let plain = parse_from fields (current ++ c ∷ []) true (d ∷ rest) in
    if c == b'"' then (if d == b'"' then escaped else ended) else plain
parse_from fields current false (c ∷ rest) =
    let quoted = parse_from fields current true rest in
    let next = parse_from (fields ++ current ∷ []) [] false rest in
    let plain = parse_from fields (current ++ c ∷ []) false rest in
    if c == b'"' then quoted else if c == b',' then next else plain

unfoldable pub parse_csv_line : Text → List Text
unfolding parse_from
parse_csv_line line = parse_from [] [] false line

-- `[...].map(escapeCsvField).join(',')`, as the export routes write a row.
pub join_row : List Text → Text
unfolding escape_csv_field
join_row [] = []
join_row (f ∷ []) = escape_csv_field f
join_row (f ∷ g ∷ fs) = escape_csv_field f ++ b',' ∷ join_row (g ∷ fs)
