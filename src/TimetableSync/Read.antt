-- ===== src/TimetableSync/Read.antt =====
-- The first stage of ragra/sync/timetable_sync.py: reading the tabs of the spreadsheet.
use ragra_reminder.Prelude.{ℕ, Option, none, some, List, [], ◌∷◌, Text}
use ragra_reminder.Sync.Types.{Outcome, answered, raised}
use ragra_reminder.Relevance.{Strings}
use ragra_reminder.Timetable.Cells.{CellPatterns, ExtractedClass}
use ragra_reminder.Timetable.Grid.{extract_classes_from_grid}

pub record SheetInfo : Type 0 where
  pub title : Text
  pub sheet_id : Option ℕ

-- `discover_tabs` raises one of the two errors that the sync catches, `get_values` the first of them.
pub record FastTimetableClient : Type 0 where
  pub discover_tabs : Outcome (List (ℕ × SheetInfo))
  pub get_values : Text → Outcome (List (List Text))

-- The tabs read so far: each with its classes; or what ended the reading.
pub data Reading : Type 0 where
  read_all : List (SheetInfo × List ExtractedClass) → Reading
  unreadable : Text → Reading
  bad_slot : Reading

abbrev pub and_read : SheetInfo → List ExtractedClass → Reading → Reading
and_read sheet classes (read_all rest) = read_all ((sheet, classes) ∷ rest)
and_read sheet classes (unreadable error) = unreadable error
and_read sheet classes bad_slot = bad_slot

abbrev pub add_grid : SheetInfo → Option (List ExtractedClass) → Reading → Reading
add_grid sheet none rest = bad_slot
add_grid sheet (some classes) rest = and_read sheet classes rest

abbrev pub read_tab :
    (Text → Option ℕ)
    → Strings
    → CellPatterns
    → ℕ × SheetInfo
    → Outcome (List (List Text))
    → Reading
    → Reading
read_tab int strings patterns tab (raised error) rest = unreadable error
read_tab int strings patterns tab (answered grid) rest =
    add_grid tab.1 (extract_classes_from_grid int strings patterns tab.0 grid) rest

-- The loop over the tabs; the first failure ends it.
unfoldable pub read_tabs :
    (Text → Option ℕ)
    → Strings
    → CellPatterns
    → FastTimetableClient
    → List (ℕ × SheetInfo)
    → Reading
read_tabs int strings patterns client [] = read_all []
read_tabs int strings patterns client (tab ∷ tabs) =
    read_tab int strings patterns tab (client.get_values tab.1.title)
      (read_tabs int strings patterns client tabs)
