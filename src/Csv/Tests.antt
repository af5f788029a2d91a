-- ===== src/Csv/Tests.antt =====
-- src/utils/csv.ts on concrete lines.
use opcua_light_server.Prelude.{◌≡◌, refl, [], ◌∷◌}
use opcua_light_server.Csv.{parse_csv_line, join_row}
use opcua_light_server.Csv.RoundTrip.{parse_csv_line-join_row}

parse_csv_line_quoted :
    parse_csv_line (b'a' ∷ b',' ∷ b'"' ∷ b'b' ∷ b'"' ∷ b'"' ∷ b',' ∷ b'"' ∷ [])
    ≡ (b'a' ∷ []) ∷ (b'b' ∷ b'"' ∷ b',' ∷ []) ∷ []
unfolding parse_csv_line
parse_csv_line_quoted = refl

parse_csv_line-join_row_example :
    parse_csv_line (join_row ((b'a' ∷ b',' ∷ []) ∷ (b'"' ∷ 10 ∷ []) ∷ [] ∷ []))
    ≡ (b'a' ∷ b',' ∷ []) ∷ (b'"' ∷ 10 ∷ []) ∷ [] ∷ []
parse_csv_line-join_row_example =
    parse_csv_line-join_row (b'a' ∷ b',' ∷ []) ((b'"' ∷ 10 ∷ []) ∷ [] ∷ [])
