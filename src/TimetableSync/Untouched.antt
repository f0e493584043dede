-- ===== src/TimetableSync/Untouched.antt =====
-- The stored timetable in the error paths of ragra/sync/timetable_sync.py.
use ragra_reminder.Prelude.{
  ℕ, ◌≡◌, refl, Bool, true, false, Option, List, [], ◌∷◌, Text, arith, order_by,
}
use ragra_reminder.Store.{Db, SyncSource}
use ragra_reminder.Store.Syncs.{record_sync_start, record_sync_error}
use ragra_reminder.Sync.Types.{Outcome, answered, raised}
use ragra_reminder.Relevance.{Strings}
use ragra_reminder.Timetable.Cells.{CellPatterns}
use ragra_reminder.TimetableSync.Read.{
  SheetInfo, FastTimetableClient, Reading, read_all, unreadable, bad_slot, read_tabs,
}
use ragra_reminder.TimetableSync.{
  TimetableOutcome, TimetableProfile, synced, sync_error, value_error, with_reading, with_tabs,
  sync_timetable,
}

abbrev pub is_failure : TimetableOutcome → Bool
is_failure (synced s) = false
is_failure (sync_error e) = true
is_failure value_error = true

module _ (int : Text → Option ℕ) (strings : Strings) (patterns : CellPatterns) (repr : Text → Text)
    (client : FastTimetableClient) (u : ℕ) (profile : TimetableProfile) (spreadsheet_id : Text)
    (clock : ℕ) where
  reading_untouched :
      (r : Reading) (db : Db)
      → let result =
          with_reading int strings patterns repr client u profile spreadsheet_id clock r db in
        is_failure result.0 ≡ true → result.1.timetable_events ≡ db.timetable_events
  unfolding record_sync_error
  reading_untouched (unreadable error) db h = refl
  reading_untouched bad_slot db h = refl
  reading_untouched (read_all tabs) db h = ground arith

  tabs_untouched :
      (tabs : Outcome (List (ℕ × SheetInfo))) (db : Db)
      → let result =
          with_tabs int strings patterns repr client u profile spreadsheet_id clock tabs db in
        is_failure result.0 ≡ true → result.1.timetable_events ≡ db.timetable_events
  unfolding record_sync_error
  tabs_untouched (raised error) db h = refl
  tabs_untouched (answered []) db h = refl
  tabs_untouched (answered (tab ∷ tabs)) db h =
      reading_untouched (read_tabs int strings patterns client (order_by (λ t. t.0) (tab ∷ tabs)))
        db h

  -- If a timetable sync raises an error, whichever, the stored timetable is as it was, of every user.
  pub sync_timetable_untouched :
      (db : Db)
      → let result =
          sync_timetable int strings patterns repr client u profile spreadsheet_id clock db in
        is_failure result.0 ≡ true → result.1.timetable_events ≡ db.timetable_events
  unfolding sync_timetable record_sync_start
  sync_timetable_untouched db h =
      tabs_untouched client.discover_tabs (record_sync_start u SyncSource.timetable clock db) h
