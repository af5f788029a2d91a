-- ===== src/Csv/RoundTrip.antt =====
-- src/utils/csv.ts: reading a row back gives the fields that were written.
use mathlib.Core.List.{append_assoc, append-nil}
use opcua_light_server.Prelude.{
  ℕ, ◌≡◌, refl, sym, ap, ◌∙◌, inl, inr, true, false, List, [], ◌∷◌, ◌++◌, arith, ◌==◌, Bool-cases,
  Text, includes, ==_iff,
}
use opcua_light_server.Csv.{
  needs_quotes, double_quotes, escape_csv_field, parse_from, parse_csv_line, join_row,
}

-- What may follow a field: the end of the line, or a comma.
abbrev IsFieldEnd : Text → Type 0
IsFieldEnd [] = Unit
IsFieldEnd (c ∷ rest) = c ≡ b','

module _ (fields : List Text) where
  parse_from-plain :
      (current : Text) (c : ℕ) (rest : Text)
      → (c == b'"') ≡ false
      → parse_from fields current true (c ∷ rest) ≡ parse_from fields (current ++ c ∷ []) true rest
  unfolding parse_from
  parse_from-plain current c [] h = ground arith
  parse_from-plain current c (d ∷ rest) h = rw h

  parse_from-close :
      (current rest : Text)
      → IsFieldEnd rest
      → parse_from fields current true (b'"' ∷ rest) ≡ parse_from fields current false rest
  unfolding parse_from
  parse_from-close current [] e = refl
  parse_from-close current (d ∷ rest) e = rw e

  parse_from-pair :
      (current rest : Text)
      → parse_from fields current true (b'"' ∷ b'"' ∷ rest)
        ≡ parse_from fields (current ++ b'"' ∷ []) true rest
  unfolding parse_from
  parse_from-pair current rest = refl

  parse_from-double_quotes :
      (value current rest : Text)
      → IsFieldEnd rest
      → parse_from fields current true (double_quotes value ++ b'"' ∷ rest)
        ≡ parse_from fields (current ++ value) false rest
  unfolding double_quotes
  parse_from-double_quotes [] current rest e = rw append-nil (parse_from-close current rest e)
  parse_from-double_quotes (c ∷ value) current rest e =
      let join =
        λ (d : ℕ). ap (λ t. parse_from fields t false rest) (append_assoc current (d ∷ []) value) in
      elim (Bool-cases (c == b'"')) [
        | inl q ↦ rw ((==_iff c b'"').0 q) (
            parse_from-pair current _
            ∙ parse_from-double_quotes value (current ++ b'"' ∷ []) rest e
            ∙ join b'"')
        | inr p ↦ rw p (
            parse_from-plain current c _ p
            ∙ parse_from-double_quotes value (current ++ c ∷ []) rest e
            ∙ join c)
      ]

  parse_from-unquoted :
      (value current rest : Text)
      → includes b',' value ≡ false
      → includes b'"' value ≡ false
      → parse_from fields current false (value ++ rest)
        ≡ parse_from fields (current ++ value) false rest
  unfolding parse_from
  parse_from-unquoted [] current rest h k = rw append-nil refl
  parse_from-unquoted (c ∷ value) current rest h k = ground (
    arith,
    parse_from-unquoted value (current ++ c ∷ []) rest,
    ap (λ t. parse_from fields t false rest) (append_assoc current (c ∷ []) value),
  )

  parse_from-quoted :
      (value rest : Text)
      → IsFieldEnd rest
      → parse_from fields [] false ((b'"' ∷ double_quotes value ++ b'"' ∷ []) ++ rest)
        ≡ parse_from fields value false rest
  unfolding parse_from
  parse_from-quoted value rest e =
      ap (parse_from fields [] true) (append_assoc (double_quotes value) (b'"' ∷ []) rest)
      ∙ parse_from-double_quotes value [] rest e

  -- A field, quoted or not, is read back, and the rest of the line is next.
  parse_from-escape_csv_field :
      (value rest : Text)
      → IsFieldEnd rest
      → parse_from fields [] false (escape_csv_field value ++ rest)
        ≡ parse_from fields value false rest
  unfolding escape_csv_field
  parse_from-escape_csv_field value rest e = elim (Bool-cases (needs_quotes value)) [
    | inl q ↦ rw q (parse_from-quoted value rest e)
    | inr p ↦ rw p (parse_from-unquoted value [] rest (ground arith) (ground arith))
  ]

parse_from-comma :
    (fields : List Text) (current rest : Text)
    → parse_from fields current false (b',' ∷ rest)
      ≡ parse_from (fields ++ current ∷ []) [] false rest
unfolding parse_from
parse_from-comma fields current rest = refl

parse_from-join_row :
    (fields : List Text) (f : Text) (fs : List Text)
    → parse_from fields [] false (join_row (f ∷ fs)) ≡ fields ++ f ∷ fs
unfolding join_row parse_from
parse_from-join_row fields f [] =
    ap (parse_from fields [] false) (sym (append-nil (escape_csv_field f)))
    ∙ parse_from-escape_csv_field fields f [] tt
parse_from-join_row fields f (g ∷ fs) =
    parse_from-escape_csv_field fields f (b',' ∷ join_row (g ∷ fs)) refl
    ∙ parse_from-comma fields f (join_row (g ∷ fs))
    ∙ parse_from-join_row (fields ++ f ∷ []) g fs
    ∙ append_assoc fields (f ∷ []) (g ∷ fs)

-- Any row of at least one field that the export writes, with any code units in its fields (commas,
-- quotes and line breaks included), is read back by `parseCsvLine` as the same fields.
pub parse_csv_line-join_row :
    (f : Text) (fs : List Text) → parse_csv_line (join_row (f ∷ fs)) ≡ f ∷ fs
unfolding parse_csv_line
parse_csv_line-join_row f fs = parse_from-join_row [] f fs
