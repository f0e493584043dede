-- ===== src/Store/Due.antt =====
-- Selecting due reminders and recording what became of them: ragra/db/repo.py.
use ragra_reminder.Prelude.{
  ℕ, ◌-◌, ◌*◌, Bool, true, not, ◌&&◌, ◌||◌, Option, none, some, List, [], ◌∷◌, Text, ◌==◌, leb,
  if◌then◌else◌, update_where, order_by,
}
use ragra_reminder.Engine.{deadline_reached, type_eq, minute}
use ragra_reminder.Store.Rows.{
  Task, Course, Reminder, ReminderStatus, is_pending, is_terminal, is_missed, is_open,
  is_other_section,
}
use ragra_reminder.Store.State.{Db}
use ragra_reminder.Store.Reminders.{task_of, course_of}

-- A row of the query: the reminder, and the columns taken from its task and course.
pub record DueReminder : Type 0 where
  pub row : Reminder
  pub task_title : Text
  pub course_code : Text

abbrev pub stale_cutoff : ℕ → ℕ
stale_cutoff now = now - 30 * minute

-- The conditions on the reminder alone, but for the status of its task.
abbrev pub is_ripe : ℕ → ℕ → Reminder → Bool
is_ripe user_id now r =
    r.user_id == user_id
    && is_pending r.status
    && leb r.scheduled_for now
    && elim r.next_retry_at [ none ↦ true | some retry ↦ leb retry now ]

abbrev pub is_deadline_reached : Reminder → Bool
is_deadline_reached r = type_eq r.reminder_type deadline_reached

-- The conditions that look at the task and the course.
abbrev pub is_eligible : ℕ → Reminder → Task → Course → Bool
is_eligible now r t c =
    (not (is_terminal t.status) || (is_deadline_reached r && is_missed t.status))
    && (not (is_deadline_reached r) || leb (stale_cutoff now) r.scheduled_for)
    && is_open c.state
    && not (is_other_section t.relevance)

-- COALESCE(courses.course_code, courses.name)
abbrev pub course_label : Course → Text
course_label c = elim c.course_code [ none ↦ c.name | some code ↦ code ]

unfoldable pub due_row : List Task → List Course → ℕ → ℕ → Reminder → Option DueReminder
due_row tasks courses user_id now r =
    if is_ripe user_id now r
    then elim (task_of tasks r.task_id) [
      | none ↦ none
      | some t ↦ elim (course_of courses t.course_id) [
        | none ↦ none
        | some c ↦
            if is_eligible now r t c
            then some (record { row = r; task_title = t.title; course_code = course_label c })
            else none
      ]
    ]
    else none

abbrev pub due_rows : List Task → List Course → ℕ → ℕ → List Reminder → List DueReminder
due_rows tasks courses user_id now [] = []
due_rows tasks courses user_id now (r ∷ rs) = elim (due_row tasks courses user_id now r) [
  | none ↦ due_rows tasks courses user_id now rs
  | some d ↦ d ∷ due_rows tasks courses user_id now rs
]

unfoldable pub due_pending_reminders : ℕ → ℕ → Db → List DueReminder
due_pending_reminders user_id now db =
    order_by (λ d. d.row.scheduled_for) (due_rows db.tasks db.courses user_id now db.reminders)

-- `WHERE id = ? AND user_id = ?` on reminders
abbrev pub is_reminder : ℕ → ℕ → Reminder → Bool
is_reminder user_id reminder_id r = r.id == reminder_id && r.user_id == user_id

abbrev pub retried : Text → ℕ → ℕ → Reminder → Reminder
retried error attempt_count next_retry_at r = record r {
  attempt_count = attempt_count;
  last_error = some error;
  next_retry_at = some next_retry_at;
}

unfoldable pub mark_reminder_for_retry : ℕ → ℕ → Text → ℕ → ℕ → Db → Db
mark_reminder_for_retry user_id reminder_id error attempt_count next_retry_at db = record db {
  reminders =
      update_where (is_reminder user_id reminder_id) (retried error attempt_count next_retry_at)
        db.reminders;
}

abbrev pub delivered_reminder : ℕ → Reminder → Reminder
delivered_reminder clock r = record r { status = ReminderStatus.sent; sent_at = some clock }

unfoldable pub mark_reminder_sent : ℕ → ℕ → ℕ → Db → Db
mark_reminder_sent user_id reminder_id clock db = record db {
  reminders =
      update_where (is_reminder user_id reminder_id) (delivered_reminder clock) db.reminders;
}

-- An `attempt_count` of None leaves the column as it is.
abbrev pub failed_reminder : Text → Option ℕ → Reminder → Reminder
failed_reminder error none r = record r { status = ReminderStatus.failed; last_error = some error }
failed_reminder error (some attempt_count) r = record r {
  status = ReminderStatus.failed;
  last_error = some error;
  attempt_count = attempt_count;
}

unfoldable pub mark_reminder_failed : ℕ → ℕ → Text → Option ℕ → Db → Db
mark_reminder_failed user_id reminder_id error attempt_count db = record db {
  reminders =
      update_where (is_reminder user_id reminder_id) (failed_reminder error attempt_count)
        db.reminders;
}
