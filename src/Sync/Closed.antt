-- ===== src/Sync/Closed.antt =====
-- What a sync does to the store, as what its statements do, over a reflexive and transitive relation on
-- databases that every statement of the sync keeps.
pub mod Item
pub mod Account
use ragra_reminder.Prelude.{ℕ, Option, List, Text}
use ragra_reminder.Engine.{ReminderType}
use ragra_reminder.Store.{Db, SourceType, Relevance, CourseState, SyncSource, KeyTail}
use ragra_reminder.Store.Upsert.{SourceItem, upsert_task_from_source}
use ragra_reminder.Store.Courses.{upsert_course, update_course_state_if_known}
use ragra_reminder.Store.Reminders.{
  cancel_pending_reminders, insert_reminder_if_absent,
  cancel_backlog_reminders_for_already_overdue_tasks, cancel_stray_reminders_for_terminal_tasks,
}
use ragra_reminder.Store.Tasks.{
  set_task_relevance, mark_overdue_tasks_as_missed, cancel_tasks_missing_from_source,
}
use ragra_reminder.Store.Syncs.{record_sync_start, record_sync_success, record_sync_error}

pub record IsClosed (u : ℕ) (R : Db → Db → Type 0) : Type 0 where
  pub stays : (db : Db) → R db db
  pub follows : (a b c : Db) → R a b → R b c → R a c
  pub upserts_task :
      (course_id : ℕ) (item : SourceItem) (clock : ℕ) (db : Db)
      → R db (upsert_task_from_source u course_id item clock db).1
  pub sets_relevance :
      (task_id : ℕ) (decided : Relevance) (reason : Option Text) (clock : ℕ) (db : Db)
      → R db (set_task_relevance u task_id decided reason clock db).1
  pub cancels_pending :
      (task_id : ℕ) (except : List ReminderType) (db : Db)
      → R db (cancel_pending_reminders u task_id except db)
  -- The key of a reminder is made from its task and its type.
  pub inserts_reminder :
      (task_id : ℕ) (t : ReminderType) (at : ℕ) (tail : KeyTail) (clock : ℕ) (db : Db)
      → R db
          (insert_reminder_if_absent u task_id t at
            (record { task_id = task_id; reminder_type = t; tail = tail })
            clock
            db).1
  pub upserts_course :
      (external_id name : Text) (section teacher code : Option Text) (state : CourseState)
      (clock : ℕ) (db : Db)
      → R db (upsert_course u external_id name section teacher code state clock db).1
  pub updates_course :
      (external_id : Text) (state : CourseState) (clock : ℕ) (db : Db)
      → R db (update_course_state_if_known u external_id state clock db)
  pub starts :
      (source : SyncSource) (clock : ℕ) (db : Db) → R db (record_sync_start u source clock db)
  pub succeeds :
      (source : SyncSource) (clock : ℕ) (db : Db) → R db (record_sync_success u source clock db)
  pub errs :
      (source : SyncSource) (error : Text) (db : Db) → R db (record_sync_error u source error db)
  pub marks_missed :
      (now clock : ℕ) (db : Db) → R db (mark_overdue_tasks_as_missed u now clock db).1
  pub cancels_missing :
      (course_id : ℕ) (source_type : SourceType) (seen : List Text) (clock : ℕ) (db : Db)
      → R db (cancel_tasks_missing_from_source u course_id source_type seen clock db).1
  pub cancels_backlog : (db : Db) → R db (cancel_backlog_reminders_for_already_overdue_tasks u db).1
  pub cancels_stray : (db : Db) → R db (cancel_stray_reminders_for_terminal_tasks u db).1
