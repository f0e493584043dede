-- ===== src/Calendar/Outcome.antt =====
-- What one task's turn of the calendar sync does to the database (ragra/sync/calendar_sync.py).
use ragra_reminder.Prelude.{ℕ, Option, none, some, Text}
use ragra_reminder.Store.{Db, CalendarEvent}
use ragra_reminder.Store.Events.{
  get_calendar_event, record_calendar_event, delete_calendar_event_record,
}
use ragra_reminder.Calendar.Types.{
  Reply, replied, refused, CalendarService, create_event, update_event, delete_event,
}
use ragra_reminder.Calendar.{
  TaskRow, reconcile_event, sync_row, sync_task_event, task_with_course, event_deadline,
  after_delete, after_create, after_update, event_body,
}

-- The turn of a task: nothing is written; its records are deleted; an event of it is recorded.
pub data Turn (u task_id : ℕ) (kind : Text) (clock : ℕ) (db : Db) : Db → Type 0 where
  untouched : Turn u task_id kind clock db db
  dropped : Turn u task_id kind clock db (delete_calendar_event_record u task_id kind db)
  recorded :
      (event_id : Text)
      → Turn u task_id kind clock db (record_calendar_event u task_id kind event_id clock db)

module _ {W : Type 0} (service : CalendarService W) (u : ℕ) (calendar_id : Text) where
  reconcile_event-Turn :
      (task_id : ℕ) (kind : Text) (clock : ℕ) (row : TaskRow) (deadline : Option ℕ)
      (existing : Option CalendarEvent) (db : Db) (w : W)
      → Turn u task_id kind clock db
          (reconcile_event service u calendar_id task_id kind clock row deadline existing db w).1
  unfolding reconcile_event
  reconcile_event-Turn k kind clock row none none db w = untouched
  reconcile_event-Turn k kind clock row none (some e) db w =
      deletion (delete_event service calendar_id e.google_event_id w).0
    where
      deletion : (r : Reply Unit) → Turn u k kind clock db (after_delete u k kind db r).1
      deletion (replied x) = dropped
      deletion (refused s t) = untouched
  reconcile_event-Turn k kind clock row (some d) none db w =
      creation (create_event service calendar_id (event_body row d) w).0
    where
      creation : (r : Reply Text) → Turn u k kind clock db (after_create u k kind clock db r).1
      creation (replied x) = recorded x
      creation (refused s t) = untouched
  reconcile_event-Turn k kind clock row (some d) (some e) db w =
      update (update_event service calendar_id e.google_event_id (event_body row d) w).0
    where
      update :
          (r : Reply Unit)
          → Turn u k kind clock db (after_update u k kind e.google_event_id clock db r).1
      update (replied x) = recorded e.google_event_id
      update (refused s t) = untouched

  pub sync_row-Turn :
      (task_id : ℕ) (kind : Text) (clock : ℕ) (row : Option TaskRow) (db : Db) (w : W)
      → Turn u task_id kind clock db (sync_row service u calendar_id task_id kind clock row db w).1
  unfolding sync_row
  sync_row-Turn k kind clock none db w = untouched
  sync_row-Turn k kind clock (some row) db w =
      reconcile_event-Turn k kind clock row (event_deadline row.task)
        (get_calendar_event u k kind db) db w

  pub sync_task_event-Turn :
      (task_id : ℕ) (kind : Text) (clock : ℕ) (db : Db) (w : W)
      → Turn u task_id kind clock db
          (sync_task_event service u calendar_id task_id kind clock db w).1
  unfolding sync_task_event
  sync_task_event-Turn k kind clock db w = sync_row-Turn k kind clock (task_with_course u k db) db w
