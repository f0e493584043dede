-- ===== src/Store/Tasks.antt =====
-- The status of a task, in ragra/db/repo.py: completion, the missed deadline, cancellation.
use ragra_reminder.Prelude.{
  ℕ, Bool, true, false, not, ◌&&◌, ◌||◌, Option, none, some, List, [], ◌∷◌, Text, text_eq, ◌==◌,
  ltb, if◌then◌else◌, option_eq, select, exists_row, update_where,
}
use ragra_reminder.Store.Rows.{
  Task, TaskStatus, SourceType, source_eq, Relevance, relevance_eq, relevance_value, text_value,
  status_value, completed, missed, cancelled, archived, is_finished, is_terminal, is_archived,
  planned, action_required, status_field, relevance_field, personal_deadline_field,
}
use ragra_reminder.Store.State.{Db}
use ragra_reminder.Store.History.{record_history, is_task, task_row, column_is}
use ragra_reminder.Store.Reminders.{cancel_pending_reminders}

-- `UPDATE tasks SET … WHERE id = ? AND user_id = ? AND guard`, and a history row of the new status
-- if the statement reached a row (`if cur.rowcount`).
abbrev pub set_status : (Task → Bool) → (Task → Task) → TaskStatus → ℕ → ℕ → ℕ → Db → Db
set_status guard change status user_id task_id clock db =
    let reached = λ (t : Task). is_task user_id task_id t && guard t in
    let written = record db { tasks = update_where reached change db.tasks } in
    if exists_row reached db.tasks
    then record_history user_id task_id status_field none (some (status_value status)) clock written
    else written

abbrev pub completed_task : ℕ → Task → Task
completed_task clock t = record t {
  status = completed;
  completed_at = some clock;
  updated_at = clock;
}

unfoldable pub mark_completed : ℕ → ℕ → ℕ → Db → Db
mark_completed user_id task_id clock db =
    set_status (λ _. true) (completed_task clock) completed user_id task_id clock db

abbrev pub missed_task : ℕ → Task → Task
missed_task clock t = record t { status = missed; missed_at = some clock; updated_at = clock }

unfoldable pub mark_missed : ℕ → ℕ → ℕ → Db → Db
mark_missed user_id task_id clock db =
    set_status (λ t. not (is_finished t.status)) (missed_task clock) missed user_id task_id clock db

-- `actual_deadline IS NOT NULL AND actual_deadline < ? AND status NOT IN (…, 'MISSED')`
abbrev pub is_overdue : ℕ → ℕ → Task → Bool
is_overdue user_id now t =
    t.user_id == user_id
    && elim t.actual_deadline [ none ↦ false | some d ↦ ltb d now ]
    && not (is_terminal t.status)

unfoldable pub mark_each_missed : ℕ → ℕ → List Task → Db → Db
mark_each_missed user_id clock [] db = db
mark_each_missed user_id clock (t ∷ ts) db =
    mark_each_missed user_id clock ts
      (cancel_pending_reminders user_id t.id [] (mark_missed user_id t.id clock db))

abbrev pub ids : List Task → List ℕ
ids [] = []
ids (t ∷ ts) = t.id ∷ ids ts

unfoldable pub mark_overdue_tasks_as_missed : ℕ → ℕ → ℕ → Db → List ℕ × Db
unfolding mark_each_missed
mark_overdue_tasks_as_missed user_id now clock db =
    let rows = select (is_overdue user_id now) db.tasks in
    (ids rows, mark_each_missed user_id clock rows db)

abbrev pub cancelled_task : ℕ → Task → Task
cancelled_task clock t = record t {
  status = cancelled;
  cancelled_at = some clock;
  updated_at = clock;
}

unfoldable pub cancel_task_from_source : ℕ → ℕ → ℕ → Db → Db
cancel_task_from_source user_id task_id clock db =
    set_status (λ _. true) (cancelled_task clock) cancelled user_id task_id clock db

abbrev pub is_live_in_source : ℕ → ℕ → SourceType → Task → Bool
is_live_in_source user_id course_id source_type t =
    t.user_id == user_id
    && t.course_id == course_id
    && source_eq t.source_type source_type
    && not (is_finished t.status)

-- `external_id in seen_external_ids`; None is never in the set.
abbrev pub is_seen : List Text → Option Text → Bool
is_seen [] e = false
is_seen (s ∷ seen) e = column_is e s || is_seen seen e

unfoldable pub cancel_each : ℕ → ℕ → List Task → Db → Db
cancel_each user_id clock [] db = db
cancel_each user_id clock (t ∷ ts) db =
    cancel_each user_id clock ts
      (cancel_pending_reminders user_id t.id [] (cancel_task_from_source user_id t.id clock db))

unfoldable pub cancel_tasks_missing_from_source :
    ℕ → ℕ → SourceType → List Text → ℕ → Db → List ℕ × Db
unfolding cancel_each
cancel_tasks_missing_from_source user_id course_id source_type seen clock db =
    let rows =
      select (λ t. not (is_seen seen t.external_id))
        (select (is_live_in_source user_id course_id source_type) db.tasks) in
    (ids rows, cancel_each user_id clock rows db)

unfoldable pub archive_task : ℕ → ℕ → ℕ → Db → Db
archive_task user_id task_id clock db = elim (task_row user_id task_id db) [
  | none ↦ db
  | some row ↦
      if is_archived row.status
      then db
      else record_history user_id task_id status_field (some (status_value row.status))
          (some (status_value archived)) clock
          (record db {
            tasks =
                update_where (is_task user_id task_id)
                  (λ t. record t { status = archived; updated_at = clock }) db.tasks;
          })
]

-- `CASE WHEN status = 'ACTION_REQUIRED' THEN 'PLANNED' ELSE status END`
abbrev pub planned_if_required : TaskStatus → TaskStatus
planned_if_required action_required = planned
planned_if_required s = s

unfoldable pub set_personal_deadline : ℕ → ℕ → Text → ℕ → Db → Db
set_personal_deadline user_id task_id personal_deadline clock db =
    elim (task_row user_id task_id db) [
      | none ↦ db
      | some row ↦
          record_history user_id task_id personal_deadline_field
            (elim row.personal_deadline [ none ↦ none | some p ↦ some (text_value p) ])
            (some (text_value personal_deadline)) clock
            (record db {
              tasks =
                  update_where (is_task user_id task_id)
                    (λ t. record t {
                      personal_deadline = some personal_deadline;
                      status = planned_if_required t.status;
                      updated_at = clock;
                    })
                    db.tasks;
            })
    ]

-- What is written over the row that was found.
abbrev pub write_relevance : ℕ → ℕ → Relevance → Option Text → ℕ → Option Task → Db → Bool × Db
write_relevance user_id task_id decided reason clock none db = (false, db)
write_relevance user_id task_id decided reason clock (some row) db =
    if relevance_eq row.relevance decided && option_eq text_eq row.relevance_reason reason
    then (false, db)
    else (
      true,
      record_history user_id task_id relevance_field (some (relevance_value row.relevance))
          (some (relevance_value decided)) clock
          (record db {
            tasks =
                update_where (is_task user_id task_id)
                  (λ t. record t {
                    relevance = decided;
                    relevance_reason = reason;
                    relevance_computed_at = some clock;
                  })
                  db.tasks;
          }),
    )

-- `computed_at` is left out by every caller.
unfoldable pub set_task_relevance : ℕ → ℕ → Relevance → Option Text → ℕ → Db → Bool × Db
set_task_relevance user_id task_id decided reason clock db =
    write_relevance user_id task_id decided reason clock (task_row user_id task_id db) db
