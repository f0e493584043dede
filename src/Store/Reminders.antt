-- ===== src/Store/Reminders.antt =====
-- The reminders table of ragra/db/repo.py.
use ragra_reminder.Prelude.{
  ℕ, ◌+◌, Bool, true, false, not, ◌&&◌, ◌||◌, Option, none, some, List, [], ◌∷◌, ◌++◌, ◌==◌, leb,
  ltb, if◌then◌else◌, option_eq, select, fetchone, exists_row, update_where, count_where, suc,
}
use ragra_reminder.Engine.{ReminderType, type_eq}
use ragra_reminder.Store.Rows.{
  Task, Course, Reminder, ReminderStatus, ReminderKey, KeyTail, task_anchored, for_deadline,
  is_pending, is_finished, is_terminal,
}
use ragra_reminder.Store.State.{Db}

abbrev pub tail_eq : KeyTail → KeyTail → Bool
tail_eq task_anchored task_anchored = true
tail_eq task_anchored (for_deadline _) = false
tail_eq (for_deadline _) task_anchored = false
tail_eq (for_deadline a) (for_deadline b) = option_eq ◌==◌ a b

abbrev pub key_eq : ReminderKey → ReminderKey → Bool
key_eq a b =
    a.task_id == b.task_id && type_eq a.reminder_type b.reminder_type && tail_eq a.tail b.tail

abbrev pub contains_type : List ReminderType → ReminderType → Bool
contains_type [] t = false
contains_type (x ∷ xs) t = type_eq x t || contains_type xs t

-- `user_id = ? AND task_id = ? AND status = 'PENDING'`
abbrev pub is_pending_of : ℕ → ℕ → Reminder → Bool
is_pending_of user_id task_id r =
    r.user_id == user_id && r.task_id == task_id && is_pending r.status

abbrev pub cancelled_reminder : Reminder → Reminder
cancelled_reminder r = record r { status = ReminderStatus.cancelled }

unfoldable pub cancel_pending_reminders : ℕ → ℕ → List ReminderType → Db → Db
cancel_pending_reminders user_id task_id except_types db = record db {
  reminders =
      update_where
        (λ r. is_pending_of user_id task_id r && not (contains_type except_types r.reminder_type))
        cancelled_reminder db.reminders;
}

unfoldable pub has_reminder_of_type : ℕ → ℕ → ReminderType → Db → Bool
has_reminder_of_type user_id task_id reminder_type db =
    exists_row
      (λ r. r.user_id == user_id && r.task_id == task_id && type_eq r.reminder_type reminder_type)
      db.reminders

-- `actual_deadline <= created_at`, which is not true of NULL
abbrev pub overdue_at_discovery : ℕ → Task → Bool
overdue_at_discovery user_id t =
    t.user_id == user_id
    && elim t.actual_deadline [ none ↦ false | some d ↦ leb d t.created_at ]
    && not (is_finished t.status)

-- The loop over the tasks that were already overdue when they were discovered.
unfoldable pub cancel_backlog : ℕ → List Task → ℕ → Db → ℕ × Db
cancel_backlog user_id [] total db = (total, db)
cancel_backlog user_id (t ∷ ts) total db =
    let pending_count = count_where (is_pending_of user_id t.id) db.reminders in
    let after = if ltb 0 pending_count then cancel_pending_reminders user_id t.id [] db else db in
    cancel_backlog user_id ts (total + pending_count) after

unfoldable pub cancel_backlog_reminders_for_already_overdue_tasks : ℕ → Db → ℕ × Db
unfolding cancel_backlog
cancel_backlog_reminders_for_already_overdue_tasks user_id db =
    cancel_backlog user_id (select (overdue_at_discovery user_id) db.tasks) 0 db

-- tasks JOINed on `tasks.id = reminders.task_id`: ids are unique, so there is one row or none.
abbrev pub task_of : List Task → ℕ → Option Task
task_of tasks task_id = fetchone (select (λ t. t.id == task_id) tasks)

abbrev pub course_of : List Course → ℕ → Option Course
course_of courses course_id = fetchone (select (λ c. c.id == course_id) courses)

abbrev pub is_stray : ℕ → List Task → Reminder → Bool
is_stray user_id tasks r =
    r.user_id == user_id
    && is_pending r.status
    && elim (task_of tasks r.task_id) [ none ↦ false | some t ↦ is_terminal t.status ]

-- The UPDATE runs once for each selected id; together they reach the selected rows.
unfoldable pub cancel_stray_reminders_for_terminal_tasks : ℕ → Db → ℕ × Db
cancel_stray_reminders_for_terminal_tasks user_id db = (
  count_where (is_stray user_id db.tasks) db.reminders,
  record db {
    reminders = update_where (is_stray user_id db.tasks) cancelled_reminder db.reminders;
  },
)

abbrev pub has_key : ℕ → ReminderKey → Reminder → Bool
has_key user_id key r = r.user_id == user_id && key_eq r.idempotency_key key

abbrev pub new_reminder : ℕ → ℕ → ℕ → ReminderType → ℕ → ReminderKey → ℕ → Reminder
new_reminder id user_id task_id reminder_type scheduled_for key clock = record {
  id = id;
  user_id = user_id;
  task_id = task_id;
  reminder_type = reminder_type;
  scheduled_for = scheduled_for;
  status = ReminderStatus.pending;
  sent_at = none;
  last_error = none;
  attempt_count = 0;
  next_retry_at = none;
  idempotency_key = key;
  created_at = clock;
}

-- INSERT OR IGNORE under UNIQUE(user_id, idempotency_key)
unfoldable pub insert_reminder_if_absent :
    ℕ → ℕ → ReminderType → ℕ → ReminderKey → ℕ → Db → Bool × Db
insert_reminder_if_absent user_id task_id reminder_type scheduled_for key clock db =
    if exists_row (has_key user_id key) db.reminders then (false, db) else (
      true,
      record db {
        reminders =
            db.reminders
            ++ new_reminder db.next_reminder user_id task_id reminder_type scheduled_for key clock
              ∷ [];
        next_reminder = suc db.next_reminder;
      },
    )
