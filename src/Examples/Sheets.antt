-- ===== src/Examples/Sheets.antt =====
-- A spreadsheet with a tab that cannot be read, and the theorem on the timetable sync at it.
use ragra_reminder.Prelude.{◌≡◌, refl, true, false, none, [], ◌∷◌, codes}
use ragra_reminder.Sync.Types.{answered, raised}
use ragra_reminder.Timetable.Cells.{CellPatterns}
use ragra_reminder.Timetable.Match.{regular}
use ragra_reminder.TimetableSync.Read.{FastTimetableClient, read_tabs}
use ragra_reminder.TimetableSync.{TimetableProfile, sync_timetable}
use ragra_reminder.TimetableSync.Untouched.{sync_timetable_untouched, is_failure}
use ragra_reminder.Examples.{now}
use ragra_reminder.Examples.Classes.{int, enrolled}
use ragra_reminder.Examples.Channels.{strings}

abbrev patterns : CellPatterns
patterns = record {
  cell_parts = λ t. none;
  time_override = λ t. none;
  says_cancelled = λ t. false;
  is_time_range = λ t. false;
}

abbrev client : FastTimetableClient
client = record {
  discover_tabs = answered ((0, record { title = codes "Monday"; sheet_id = none }) ∷ []);
  get_values = λ title. raised (codes "gone");
}

abbrev profile : TimetableProfile
profile = record {
  program = codes "CS";
  enrollment =
      record {
        course_name = codes "logic";
        section = codes "CS-G";
        enrollment_type = regular;
        batch_year = none;
        aliases = [];
      }
      ∷ [];
}

fails :
    is_failure
      (sync_timetable int strings patterns (λ t. t) client 1 profile (codes "sheet") now enrolled).0
    ≡ true
unfolding sync_timetable read_tabs
fails = refl

sync_timetable_untouched_example :
    (sync_timetable int strings patterns
      (λ t. t)
      client
      1
      profile
      (codes "sheet")
      now
      enrolled).1.timetable_events
    ≡ enrolled.timetable_events
sync_timetable_untouched_example =
    sync_timetable_untouched int strings patterns (λ t. t) client 1 profile (codes "sheet") now
      enrolled fails
