-- ===== src/NodeRoutes.antt =====
-- src/api/routes/nodes.ts: the export and import of variable nodes as CSV.
pub mod Paths
pub mod Import
pub mod Tests
use opcua_light_server.Prelude.{
  ℕ, zero, suc, ◌+◌, Bool, true, false, ◌&&◌, ◌||◌, not, Option, none, some, List, [], ◌∷◌, ◌++◌,
  any, map, length, ltb, leb, ◌==◌, String, Text, codes, text_eq, str_eq, is_empty, is_some, trim,
  split, if◌then◌else◌,
}
use opcua_light_server.Csv.{parse_csv_line, join_row}
use opcua_light_server.Db.Tables.{
  NamespaceRow, ObjectNodeRow, NodeRow, Tables, find_namespace, find_object_node,
}
use opcua_light_server.Db.ObjectNodes.{same_parent}
use opcua_light_server.Db.Nodes.{
  CreateNodeRequest, NodeResult, stored, removed, invalid, duplicate, not_found, raised,
  supported_data_types, create,
}

-- The loop of `getObjectNodePath`, with its rounds counted; ids are unique, so `objNodeMap.get` finds the row.
unfoldable pub path_parts : ℕ → List ObjectNodeRow → String → List Text → Option (List Text)
path_parts zero rows id parts = none
path_parts (suc fuel) rows id parts =
    if str_eq id "" then some parts else elim (find_object_node id rows) [
      | none ↦ some parts
      | some r ↦ elim r.parent_object_node_id [
        | none ↦ some (r.name ∷ parts)
        | some parent ↦ path_parts fuel rows parent (r.name ∷ parts)
      ]
    ]

-- `parts.join('/')`
unfoldable pub join_slashes : List Text → Text
join_slashes [] = []
join_slashes (p ∷ []) = p
join_slashes (p ∷ q ∷ parts) = p ++ b'/' ∷ join_slashes (q ∷ parts)

-- One round for each row, and one for the last test.
unfoldable pub get_object_node_path : List ObjectNodeRow → Option String → Option Text
unfolding path_parts join_slashes
get_object_node_path rows none = some []
get_object_node_path rows (some id) = elim (path_parts (suc (length rows)) rows id []) [
  | none ↦ none
  | some parts ↦ some (join_slashes parts)
]

-- `.filter(Boolean)` on texts.
unfoldable pub non_empty : List Text → List Text
non_empty [] = []
non_empty (p ∷ parts) = if is_empty p then non_empty parts else p ∷ non_empty parts

-- The first row of the namespace with this parent and name.
unfoldable pub find_child :
    List ObjectNodeRow → String → Option String → Text → Option ObjectNodeRow
find_child [] namespace_id parent name = none
find_child (r ∷ rows) namespace_id parent name =
    if str_eq r.namespace_id namespace_id
      && (text_eq r.name name && same_parent r.parent_object_node_id parent)
    then some r
    else find_child rows namespace_id parent name

-- The loop over the parts of a path.
unfoldable pub walk : List ObjectNodeRow → String → Option String → List Text → Option String
unfolding find_child
walk rows namespace_id parent [] = parent
walk rows namespace_id parent (p ∷ parts) = elim (find_child rows namespace_id parent p) [
  | none ↦ none
  | some r ↦ walk rows namespace_id (some r.id) parts
]

unfoldable pub find_object_node_by_path : List ObjectNodeRow → String → Text → Option String
unfolding walk non_empty
find_object_node_by_path rows namespace_id path =
    walk rows namespace_id none (non_empty (map trim (split b'/' path)))

-- A cell of `node.initialValue` and one of `node.description`.
abbrev pub or_empty : Option Text → Text
or_empty none = []
or_empty (some t) = t

abbrev pub export_header : Text
export_header = codes "name,namespace,objectNodePath,dataType,initialValue,description"

-- `lines.join('\n')`
unfoldable pub join_lines : List Text → Text
join_lines [] = []
join_lines (l ∷ []) = l
join_lines (l ∷ m ∷ lines) = l ++ 10 ∷ join_lines (m ∷ lines)

-- What `nsMap.get(…) ?? ''` gives.
abbrev pub namespace_name : String → List NamespaceRow → Text
namespace_name id rows = elim (find_namespace id rows) [ none ↦ [] | some r ↦ r.name ]

-- The cells of a node. `print` is `JSON.stringify` of the value that `JSON.parse` reads from the row,
-- or nothing where that is null.
module _ (print : Text → Option Text) where
  unfoldable pub export_cells : NodeRow → Tables → Option (List Text)
  unfolding get_object_node_path find_namespace
  export_cells node t = elim (get_object_node_path t.object_nodes node.object_node_id) [
    | none ↦ none
    | some path ↦ some (
        node.name
        ∷ namespace_name node.namespace_id t.namespaces
        ∷ path
        ∷ node.data_type
        ∷ or_empty (elim node.initial_value [ none ↦ none | some v ↦ print v ])
        ∷ or_empty node.description
        ∷ [])
  ]

  unfoldable pub export_lines : List NodeRow → Tables → Option (List Text)
  unfolding export_cells
  export_lines [] t = some []
  export_lines (node ∷ nodes) t =
      let rest : Option (List Text) = export_lines nodes t in
      elim (export_cells node t) [
        | none ↦ none
        | some cells ↦ elim rest [ none ↦ none | some lines ↦ some (join_row cells ∷ lines) ]
      ]

  -- `nodes` are all rows, by name.
  unfoldable pub export_csv : List NodeRow → Tables → Option Text
  unfolding export_lines join_lines
  export_csv nodes t = elim (export_lines nodes t) [
    | none ↦ none
    | some lines ↦ some (join_lines (export_header ∷ lines))
  ]

-- `split(/\r?\n/)`, with the line that is being read.
unfoldable pub split_lines : Text → Text → List Text
split_lines current [] = current ∷ []
split_lines current (c ∷ []) = if c == 10 then current ∷ [] ∷ [] else (current ++ c ∷ []) ∷ []
split_lines current (c ∷ d ∷ s) =
    let closed = current ∷ split_lines [] (d ∷ s) in
    let closed_pair = current ∷ split_lines [] s in
    let longer = split_lines (current ++ c ∷ []) (d ∷ s) in
    if c == 10 then closed else if c == 13 && d == 10 then closed_pair else longer

-- `lines.filter((l) => l.trim())`
unfoldable pub non_blank : List Text → List Text
non_blank [] = []
non_blank (l ∷ lines) = if is_empty (trim l) then non_blank lines else l ∷ non_blank lines

unfoldable pub find_namespace_by_name : Text → List NamespaceRow → Option String
find_namespace_by_name name [] = none
find_namespace_by_name name (r ∷ rows) =
    if text_eq r.name name then some r.id else find_namespace_by_name name rows

pub data RowError : Type 0 where
  insufficient_columns name_missing namespace_unknown data_type_invalid path_unknown : RowError
  not_created : NodeResult → RowError

-- `aborted` is an exception of the repository, which ends the request.
pub data RowOutcome : Type 0 where
  imported : RowOutcome
  refused : RowError → RowOutcome
  aborted : RowOutcome

pub record RowResult : Type 0 where
  pub row : ℕ
  pub error : Option RowError

abbrev pub is_success : RowResult → Bool
is_success r = elim r.error [ none ↦ true | some e ↦ false ]

-- `replace(/[^a-z]/g, '')`
unfoldable pub only_letters : Text → Text
only_letters [] = []
only_letters (c ∷ s) = if leb b'a' c && leb c b'z' then c ∷ only_letters s else only_letters s

-- The cell with this index, `undefined` as the empty text.
unfoldable pub cell : ℕ → List Text → Text
cell i [] = []
cell zero (c ∷ cells) = c
cell (suc i) (c ∷ cells) = cell i cells

-- `t.trim() || undefined`
abbrev pub trimmed : Text → Option Text
trimmed t = if is_empty (trim t) then none else some (trim t)

abbrev pub outcome_of : NodeResult → RowOutcome
outcome_of (stored node) = imported
outcome_of raised = aborted
outcome_of r = refused (not_created r)

abbrev pub status_of : List RowResult → ℕ
status_of results = if any (λ r. not (is_success r)) results then 207 else 201

-- `lower` is `toLowerCase`.
unfoldable pub normalized : (Text → Text) → Text → Text
unfolding only_letters
normalized lower h = only_letters (lower h)

unfoldable pub is_header : (Text → Text) → List Text → Bool
unfolding cell normalized
is_header lower header =
    let part : ℕ → Text = λ i. normalized lower (cell i header) in
    not (ltb (length header) 4)
    && (text_eq (part 0) (codes "name")
        && (text_eq (part 1) (codes "namespace") && text_eq (part 3) (codes "datatype")))

-- `parse` is `JSON.parse`, and `text` a text as a JSON value.
module _ {J : Type 0} (parse : Text → Option J) (text : Text → J) (stringify : J → Text) where
  abbrev pub read_initial_value : Text → Option J
  read_initial_value t =
      if is_empty (trim t)
      then none
      else elim (parse (trim t)) [ none ↦ some (text (trim t)) | some j ↦ some j ]

  abbrev pub to_request : String → Option String → List Text → CreateNodeRequest J
  to_request namespace_id object_node_id cells = record {
    name = trim (cell 0 cells);
    namespace_id = namespace_id;
    object_node_id = object_node_id;
    data_type = trim (cell 3 cells);
    initial_value = read_initial_value (cell 4 cells);
    description = trimmed (cell 5 cells);
  }

  -- A data row; `id` is the new UUID.
  unfoldable pub import_row : String → List Text → Tables → Tables × RowOutcome
  unfolding find_namespace_by_name find_object_node_by_path cell create
  import_row id cells t =
      if ltb (length cells) 4
      then (t, refused insufficient_columns)
      else if is_empty (trim (cell 0 cells))
      then (t, refused name_missing)
      else elim (find_namespace_by_name (trim (cell 1 cells)) t.namespaces) [
        | none ↦ (t, refused namespace_unknown)
        | some namespace_id ↦
            let object_node_id : Option String =
              find_object_node_by_path t.object_nodes namespace_id (trim (cell 2 cells)) in
            if not (any (λ s. text_eq s (trim (cell 3 cells))) supported_data_types)
            then (t, refused data_type_invalid)
            else if not (is_empty (trim (cell 2 cells))) && not (is_some object_node_id)
            then (t, refused path_unknown)
            else let made : Tables × NodeResult =
                create stringify id (to_request namespace_id object_node_id cells) t in
              (made.0, outcome_of made.1)
      ]

  -- The data rows, numbered from `i`; `ids` gives the new UUIDs.
  unfoldable pub import_rows :
      (ℕ → String) → ℕ → List Text → Tables → Tables × Option (List RowResult)
  unfolding import_row
  import_rows ids i [] t = (t, some [])
  import_rows ids i (l ∷ lines) t =
      let first : Tables × RowOutcome = import_row (ids i) (parse_csv_line l) t in
      let rest : Tables × Option (List RowResult) = import_rows ids (suc i) lines first.0 in
      elim first.1 [
        | imported ↦ (
          rest.0,
          elim rest.1 [ none ↦ none | some rs ↦ some (record { row = i; error = none } ∷ rs) ],
        )
        | refused e ↦ (
          rest.0,
          elim rest.1 [ none ↦ none | some rs ↦ some (record { row = i; error = some e } ∷ rs) ],
        )
        | aborted ↦ (first.0, none)
      ]

  -- The status of the answer, with the results where rows were read.
  unfoldable pub import_csv :
      (Text → Text) → (ℕ → String) → Option Text → Tables → Tables × (ℕ × List RowResult)
  unfolding split_lines non_blank is_header import_rows
  import_csv lower ids none t = (t, (400, []))
  import_csv lower ids (some csv) t =
      if is_empty csv then (t, (400, [])) else elim (non_blank (split_lines [] csv)) [
        | [] ↦ (t, (400, []))
        | ◌∷◌ header lines ↦
            if is_empty lines || not (is_header lower (parse_csv_line header))
            then (t, (400, []))
            else let done : Tables × Option (List RowResult) = import_rows ids 2 lines t in
              elim done.1 [ none ↦ (done.0, (500, [])) | some rs ↦ (done.0, (status_of rs, rs)) ]
      ]

-- The status of an error of the repository.
abbrev pub error_status : NodeResult → Option ℕ
error_status (stored node) = none
error_status removed = none
error_status not_found = some 404
error_status duplicate = some 409
error_status (invalid errors) = some 400
error_status raised = some 500
