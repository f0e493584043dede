-- ===== src/Sync/Isolation.antt =====
-- What other accounts see of a sync (ragra/sync/classroom_sync.py).
use ragra_reminder.Prelude.{ℕ, ◌≢◌}
use ragra_reminder.Store.{Db}
use ragra_reminder.Store.Tenant.{SameFor, SameFor-refl, SameFor-trans}
use ragra_reminder.Store.Tenant.Operations.{
  cancel_pending_reminders-SameFor, insert_reminder_if_absent-SameFor,
}
use ragra_reminder.Store.Tenant.TaskWrites.{
  set_task_relevance-SameFor, upsert_course-SameFor, update_course_state_if_known-SameFor,
  record_sync_start-SameFor, record_sync_success-SameFor, record_sync_error-SameFor,
}
use ragra_reminder.Store.Tenant.Passes.{
  upsert_task_from_source-SameFor, mark_overdue_tasks_as_missed-SameFor,
  cancel_tasks_missing_from_source-SameFor, cancel_backlog_reminders-SameFor,
  cancel_stray_reminders-SameFor,
}
use ragra_reminder.Sync.Types.{Client, Environment}
use ragra_reminder.Sync.Closed.{IsClosed}
use ragra_reminder.Sync.Closed.Account.{sync_classroom_closed}
use ragra_reminder.Sync.{sync_classroom}

SameFor-IsClosed : (u v : ℕ) → u ≢ v → IsClosed u (SameFor v)
SameFor-IsClosed u v other = record {
  stays = SameFor-refl v;
  follows = SameFor-trans v;
  upserts_task = upsert_task_from_source-SameFor u v other;
  sets_relevance = set_task_relevance-SameFor u v other;
  cancels_pending = cancel_pending_reminders-SameFor u v other;
  inserts_reminder = λ task_id t at tail clock db.
      insert_reminder_if_absent-SameFor u v other task_id t at _ clock db;
  upserts_course = upsert_course-SameFor u v other;
  updates_course = update_course_state_if_known-SameFor u v other;
  starts = record_sync_start-SameFor u v other;
  succeeds = record_sync_success-SameFor u v other;
  errs = record_sync_error-SameFor u v other;
  marks_missed = mark_overdue_tasks_as_missed-SameFor u v other;
  cancels_missing = cancel_tasks_missing_from_source-SameFor u v other;
  cancels_backlog = cancel_backlog_reminders-SameFor u v other;
  cancels_stray = cancel_stray_reminders-SameFor u v other;
}

-- Whatever Classroom answers, failures included, syncing one user's account leaves every row of
-- every other user as it was.
pub sync_classroom-SameFor :
    (u v : ℕ) (other : u ≢ v) (env : Environment) (client : Client) (clock : ℕ) (db : Db)
    → SameFor v db (sync_classroom env client u clock db).1
sync_classroom-SameFor u v other env client clock db =
    sync_classroom_closed u (SameFor v) (SameFor-IsClosed u v other) env clock client db
