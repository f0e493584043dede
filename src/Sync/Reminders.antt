-- ===== src/Sync/Reminders.antt =====
-- What a sync may do to the reminders of its user.
use ragra_reminder.Prelude.{ℕ, ◌≡◌}
use ragra_reminder.Store.{Db}
use ragra_reminder.Store.Steps.{Evolves, here, Evolves-trans}
use ragra_reminder.Store.Steps.Writes.{
  upsert_task_from_source-Evolves, set_task_relevance-Evolves, upsert_course-Evolves,
  cancel_pending_reminders-Evolves, insert_reminder_if_absent-Evolves,
  mark_overdue_tasks_as_missed-Evolves, cancel_tasks_missing_from_source-Evolves,
  cancel_backlog_reminders-Evolves, cancel_stray_reminders-Evolves,
}
use ragra_reminder.Store.Steps.Keys.{IsUnique, Evolves-IsUnique, settled, Evolves-settled}
use ragra_reminder.Store.Courses.{update_course_state_if_known}
use ragra_reminder.Store.Syncs.{record_sync_start, record_sync_success, record_sync_error}
use ragra_reminder.Sync.Types.{Client, Environment}
use ragra_reminder.Sync.Closed.{IsClosed}
use ragra_reminder.Sync.Closed.Account.{sync_classroom_closed}
use ragra_reminder.Sync.{sync_classroom}

abbrev pub Evolution : ℕ → Db → Db → Type 0
Evolution u a b = Evolves u a.reminders b.reminders

pub Evolution-IsClosed : (u : ℕ) → IsClosed u (Evolution u)
unfolding update_course_state_if_known record_sync_start record_sync_success record_sync_error
Evolution-IsClosed u = record {
  stays = λ db. here;
  follows = λ a b c h k. Evolves-trans u h k;
  upserts_task = upsert_task_from_source-Evolves u;
  sets_relevance = set_task_relevance-Evolves u;
  cancels_pending = cancel_pending_reminders-Evolves u;
  inserts_reminder = insert_reminder_if_absent-Evolves u;
  upserts_course = upsert_course-Evolves u;
  updates_course = λ external_id state clock db. here;
  starts = λ source clock db. here;
  succeeds = λ source clock db. here;
  errs = λ source error db. here;
  marks_missed = mark_overdue_tasks_as_missed-Evolves u;
  cancels_missing = cancel_tasks_missing_from_source-Evolves u;
  cancels_backlog = cancel_backlog_reminders-Evolves u;
  cancels_stray = cancel_stray_reminders-Evolves u;
}

-- Whatever Classroom answers, a sync changes the reminders in two ways only: it adds a pending one
-- under a key that no reminder of the user has, and it cancels pending ones.
pub sync_classroom-Evolves :
    (u : ℕ) (env : Environment) (client : Client) (clock : ℕ) (db : Db)
    → Evolves u db.reminders (sync_classroom env client u clock db).1.reminders
sync_classroom-Evolves u env client clock db =
    sync_classroom_closed u (Evolution u) (Evolution-IsClosed u) env clock client db

-- If no two reminders of the user have the same key, this is so after a sync.
pub sync_classroom-IsUnique :
    (u : ℕ) (env : Environment) (client : Client) (clock : ℕ) (db : Db)
    → IsUnique u db.reminders
    → IsUnique u (sync_classroom env client u clock db).1.reminders
sync_classroom-IsUnique u env client clock db h =
    Evolves-IsUnique u (sync_classroom-Evolves u env client clock db) h

-- A sync leaves every reminder that was sent or has failed as it is.
pub settled-sync_classroom :
    (u : ℕ) (env : Environment) (client : Client) (clock : ℕ) (db : Db)
    → settled (sync_classroom env client u clock db).1.reminders ≡ settled db.reminders
settled-sync_classroom u env client clock db =
    Evolves-settled u (sync_classroom-Evolves u env client clock db)
