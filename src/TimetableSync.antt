-- ===== src/TimetableSync.antt =====
-- ragra/sync/timetable_sync.py: from the tabs of the university's spreadsheet to one user's timetable.
--
-- The spreadsheet client is a parameter: the tabs that it discovers and the cells of each. What the
-- function reads of the profile is the program and the enrollment.
pub mod Read
pub mod Groups
pub mod Untouched
use ragra_reminder.Prelude.{
  ℕ, suc, ◌+◌, Bool, true, false, ◌&&◌, ◌||◌, Option, none, some, List, [], ◌∷◌, ◌++◌, Text, codes,
  decimal, ◌==◌, ltb, text_eq, text_le, if◌then◌else◌, is_empty, length, order_by, sort_with, map,
}
use ragra_reminder.Store.{Db, ClassStatus, SyncSource}
use ragra_reminder.Store.Syncs.{record_sync_start, record_sync_error, record_sync_success}
use ragra_reminder.Store.Meetings.{
  Meeting, TimetableUpsertResult, upsert_timetable_event,
  cancel_timetable_events_missing_from_source,
}
use ragra_reminder.Sync.Types.{Outcome, answered, raised}
use ragra_reminder.Relevance.{Strings, normalize_section, normalize_course_text}
use ragra_reminder.Timetable.Match.{
  EnrolledCourse, EnrollmentType, regular, repeat, ParsedCell, MatchedClass, Matching, matched,
  unmatched, ambiguous, match_cell,
}
use ragra_reminder.Timetable.Cells.{CellPatterns, ExtractedClass}
use ragra_reminder.Timetable.Grid.{extract_classes_from_grid}
use ragra_reminder.TimetableSync.Read.{
  SheetInfo, FastTimetableClient, Reading, read_all, unreadable, bad_slot, read_tabs,
}
use ragra_reminder.TimetableSync.Groups.{Group, type_text, match_tabs, earlier_match}

pub record TimetableProfile : Type 0 where
  pub program : Text
  pub enrollment : List EnrolledCourse

pub record TimetableSyncSummary : Type 0 where
  pub classes_found : ℕ
  pub classes_created : ℕ
  pub classes_updated : ℕ
  pub classes_unchanged : ℕ
  pub classes_cancelled : ℕ
  pub unmatched_ambiguous : List Text

abbrev pub empty_timetable : TimetableSyncSummary
empty_timetable = record {
  classes_found = 0;
  classes_created = 0;
  classes_updated = 0;
  classes_unchanged = 0;
  classes_cancelled = 0;
  unmatched_ambiguous = [];
}

-- What the call returns; TimetableSyncError with its message; or the ValueError of a slot header that
-- cannot be read, which nothing catches.
pub data TimetableOutcome : Type 0 where
  synced : TimetableSyncSummary → TimetableOutcome
  sync_error : Text → TimetableOutcome
  value_error : TimetableOutcome

abbrev pub batch_text : Option Text → Text
batch_text none = codes "REPEAT"
batch_text (some year) = if is_empty year then codes "REPEAT" else year

unfoldable pub external_id : Strings → Text → Option Text → Text → Text → ℕ → Text
external_id strings program batch_year section course_name occurrence_index =
    program
    ++ (codes ":"
        ++ (batch_text batch_year
            ++ (codes ":"
                ++ (normalize_section strings section
                    ++ (codes ":"
                        ++ (normalize_course_text strings course_name
                            ++ (codes ":" ++ decimal occurrence_index)))))))

abbrev pub class_status : Bool → ClassStatus
class_status cancelled = if cancelled then ClassStatus.cancelled else ClassStatus.scheduled

abbrev pub gid_text : Option ℕ → Option Text
gid_text none = none
gid_text (some id) = some (decimal id)

-- `enrolled` is that of the first entry after the sort.
abbrev pub meeting_of :
    Strings → Text → Text → EnrolledCourse → Group → ℕ → SheetInfo × MatchedClass → Meeting
meeting_of strings program spreadsheet_id enrolled g index entry = record {
  external_id = external_id strings program enrolled.batch_year g.section g.course_name index;
  course_name = g.course_name;
  program = some program;
  batch_year = enrolled.batch_year;
  enrollment_type = type_text g.enrollment_type;
  day_of_week = entry.1.day_of_week;
  occurrence_index = index;
  start_time = entry.1.start_time;
  end_time = entry.1.end_time;
  room = entry.1.room;
  instructor = none;
  section = some g.section;
  status = class_status entry.1.cancelled;
  source_spreadsheet_id = some spreadsheet_id;
  source_sheet_gid = gid_text entry.0.sheet_id;
  source_sheet_title = some entry.0.title;
}

abbrev pub count_upsert : TimetableUpsertResult → TimetableSyncSummary → TimetableSyncSummary
count_upsert result s =
    if result.created
    then record s { classes_found = s.classes_found + 1; classes_created = s.classes_created + 1 }
    else if is_empty result.changed_fields
    then record s {
      classes_found = s.classes_found + 1;
      classes_unchanged = s.classes_unchanged + 1;
    }
    else record s { classes_found = s.classes_found + 1; classes_updated = s.classes_updated + 1 }

module _ (strings : Strings) (user_id : ℕ) (program spreadsheet_id : Text) (clock : ℕ) where
  -- The inner loop, over the entries of a group: the summary, the ids seen, the database.
  pub store_entries :
      EnrolledCourse
      → Group
      → ℕ
      → List (SheetInfo × MatchedClass)
      → TimetableSyncSummary × List Text × Db
      → TimetableSyncSummary × List Text × Db
  store_entries enrolled g index [] state = state
  store_entries enrolled g index (entry ∷ entries) state =
      let m = meeting_of strings program spreadsheet_id enrolled g index entry in
      let stored = upsert_timetable_event user_id m clock state.2 in
      store_entries enrolled g (suc index) entries
        (count_upsert stored.0 state.0, m.external_id ∷ state.1, stored.1)

  abbrev pub store_sorted :
      Group
      → List (SheetInfo × MatchedClass)
      → TimetableSyncSummary × List Text × Db
      → TimetableSyncSummary × List Text × Db
  store_sorted g [] state = state
  store_sorted g (entry ∷ entries) state =
      store_entries entry.1.enrolled g 0 (entry ∷ entries) state

  unfoldable pub store_groups :
      List Group → TimetableSyncSummary × List Text × Db → TimetableSyncSummary × List Text × Db
  unfolding store_entries
  store_groups [] state = state
  store_groups (g ∷ gs) state =
      store_groups gs (store_sorted g (sort_with earlier_match g.entries) state)

  -- The last steps: what is missing is cancelled, and the sync is a success.
  abbrev pub finish : TimetableSyncSummary × List Text × Db → TimetableOutcome × Db
  finish state =
      let gone = cancel_timetable_events_missing_from_source user_id state.1 clock state.2 in
      (
        synced (record state.0 { classes_cancelled = length gone.0 }),
        record_sync_success user_id SyncSource.timetable clock gone.1,
      )

abbrev pub no_tabs : Text
no_tabs = codes "No weekday tabs could be identified in the FAST timetable source."

module _ (int : Text → Option ℕ) (strings : Strings) (patterns : CellPatterns) (repr : Text → Text)
    (client : FastTimetableClient) (user_id : ℕ) (profile : TimetableProfile)
    (spreadsheet_id : Text) (clock : ℕ) where
  abbrev pub failed_sync : Text → Db → TimetableOutcome × Db
  failed_sync error db = (sync_error error, record_sync_error user_id SyncSource.timetable error db)

  abbrev pub with_reading : Reading → Db → TimetableOutcome × Db
  with_reading (unreadable error) db = failed_sync error db
  with_reading bad_slot db = (value_error, db)
  with_reading (read_all tabs) db =
      let found = match_tabs strings repr profile.enrollment tabs ([], []) in
      finish strings user_id profile.program spreadsheet_id clock (
        store_groups strings user_id profile.program spreadsheet_id clock found.0
          (record empty_timetable { unmatched_ambiguous = found.1 }, [], db))

  abbrev pub with_tabs : Outcome (List (ℕ × SheetInfo)) → Db → TimetableOutcome × Db
  with_tabs (raised error) db = failed_sync error db
  with_tabs (answered []) db = failed_sync no_tabs db
  with_tabs (answered (tab ∷ tabs)) db =
      with_reading (read_tabs int strings patterns client (order_by (λ t. t.0) (tab ∷ tabs))) db

  unfoldable pub sync_timetable : Db → TimetableOutcome × Db
  sync_timetable db =
      with_tabs client.discover_tabs (record_sync_start user_id SyncSource.timetable clock db)
