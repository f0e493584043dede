-- ===== src/Timetable/Grid.antt =====
-- `extract_classes_from_grid` of ragra/adapters/fast_timetable.py: from the cells of one tab to its
-- classes. A ValueError is none.
use ragra_reminder.Prelude.{
  ℕ, zero, suc, ◌-◌, not, ◌&&◌, Option, none, some, List, [], ◌∷◌, ◌++◌, Text, ◌==◌, if◌then◌else◌,
  is_empty, length,
}
use ragra_reminder.Store.Strip.{strip}
use ragra_reminder.Relevance.{Strings}
use ragra_reminder.Timetable.Hours.{resolve_24h_time_sequence}
use ragra_reminder.Timetable.Match.{ParsedCell}
use ragra_reminder.Timetable.Cells.{
  CellPatterns, ExtractedClass, parse_course_cell, times_of_cell, text_at, stripped_room, or_first,
  extracted,
}

-- A dictionary from columns, the entry that was set last coming first.
abbrev pub at_column {ℓ} : {A : Type ℓ} → ℕ → List (ℕ × A) → Option A
at_column col [] = none
at_column col (e ∷ es) = if e.0 == col then some e.1 else at_column col es

-- The state of the loop over the rows: `column_time` and `column_room_source`.
pub record Columns : Type 0 where
  pub times : List (ℕ × (Text × Text))
  pub rooms : List (ℕ × ℕ)

-- The cells of a row with their indices, from `index` on.
abbrev pub enumerate {ℓ} : {A : Type ℓ} → ℕ → List A → List (ℕ × A)
enumerate index [] = []
enumerate index (x ∷ xs) = (index, x) ∷ enumerate (suc index) xs

abbrev pub time_cells : CellPatterns → List Text → List Text
time_cells patterns [] = []
time_cells patterns (c ∷ cs) =
    let rest = time_cells patterns cs in
    if not (is_empty c) && patterns.is_time_range (strip c) then c ∷ rest else rest

-- The cells that are not blank, stripped, with their indices.
abbrev pub entries_of : List (ℕ × Text) → List (ℕ × Text)
entries_of [] = []
entries_of (c ∷ cs) =
    let rest = entries_of cs in if is_empty (strip c.1) then rest else (c.0, strip c.1) ∷ rest

-- `for col in range(index, span_end)`, `count` columns long
abbrev pub set_columns : ℕ → ℕ → Text × Text → ℕ → Columns → Columns
set_columns index zero time room columns = columns
set_columns index (suc count) time room columns =
    set_columns (suc index) count time room
      (record { times = (index, time) ∷ columns.times; rooms = (index, room) ∷ columns.rooms })

-- Where the span of an entry ends: at the next entry, or with the row.
abbrev pub span_end : ℕ → List (ℕ × Text) → ℕ
span_end width [] = width
span_end width (e ∷ es) = e.0

-- The slots that are left, `current_room_source` and the columns, after one entry of a header.
abbrev pub place_slot : ℕ → ℕ → List (Text × Text) → ℕ → Columns → List (Text × Text) × ℕ × Columns
place_slot index count [] room columns = ([], room, columns)
place_slot index count (slot ∷ slots) room columns =
    (slots, room, set_columns index count slot room columns)

abbrev pub place_entry :
    CellPatterns
    → ℕ
    → Text
    → ℕ
    → List (Text × Text)
    → ℕ
    → Columns
    → List (Text × Text) × ℕ × Columns
place_entry patterns index text count slots room columns =
    if patterns.is_time_range text
    then place_slot index count slots room columns
    else (slots, index, columns)

abbrev pub place_entries :
    CellPatterns → ℕ → List (ℕ × Text) → List (Text × Text) × ℕ × Columns → Columns
place_entries patterns width [] placed = placed.2
place_entries patterns width (e ∷ es) placed =
    place_entries patterns width es
      (place_entry patterns e.0 e.1 (span_end width es - e.0) placed.0 placed.1 placed.2)

abbrev pub header_columns :
    CellPatterns → List Text → Columns → Option (List (Text × Text)) → Option Columns
header_columns patterns row columns none = none
header_columns patterns row columns (some slots) =
    some (place_entries patterns (length row) (entries_of (enumerate 0 row)) (slots, 0, columns))

abbrev pub cell_class :
    (Text → Option ℕ)
    → ℕ
    → Option Text
    → Option (Text × Text)
    → Option ParsedCell
    → Option (List ExtractedClass)
cell_class int day_of_week room none parsed = some []
cell_class int day_of_week room (some column) none = some []
cell_class int day_of_week room (some column) (some parsed) =
    extracted day_of_week parsed room (times_of_cell int parsed column)

abbrev pub join :
    Option (List ExtractedClass) → Option (List ExtractedClass) → Option (List ExtractedClass)
join none rest = none
join (some first) none = none
join (some first) (some rest) = some (first ++ rest)

module _ (int : Text → Option ℕ) (strings : Strings) (patterns : CellPatterns)
    (day_of_week : ℕ) where
  -- The cells of a row that is not a header; a blank cell parses to nothing.
  abbrev pub row_classes : List Text → Columns → List (ℕ × Text) → Option (List ExtractedClass)
  row_classes row columns [] = some []
  row_classes row columns (c ∷ cs) =
      join
        (cell_class int day_of_week
          (stripped_room (text_at (or_first (at_column c.0 columns.rooms)) row))
          (at_column c.0 columns.times) (parse_course_cell strings patterns c.1))
        (row_classes row columns cs)

  abbrev pub columns_after : List Text → Columns → Option Columns
  columns_after row columns =
      if is_empty (time_cells patterns row)
      then some columns
      else header_columns patterns row columns
          (resolve_24h_time_sequence int (time_cells patterns row))

  abbrev pub classes_in : List Text → Columns → Option (List ExtractedClass)
  classes_in row columns =
      if is_empty (time_cells patterns row)
      then row_classes row columns (enumerate 0 row)
      else some []

  -- The loop over the rows.
  pub extract_rows : List (List Text) → Option Columns → Option (List ExtractedClass)
  extract_rows [] columns = some []
  extract_rows (row ∷ rows) none = none
  extract_rows (row ∷ rows) (some columns) =
      join (classes_in row columns) (extract_rows rows (columns_after row columns))

  unfoldable pub extract_classes_from_grid : List (List Text) → Option (List ExtractedClass)
  unfolding extract_rows
  extract_classes_from_grid grid = extract_rows grid (some (record { times = []; rooms = [] }))
