-- ===== src/Dispatch.antt =====
-- ragra/reminders/dispatch.py: sending the due reminders of one user through that user's providers.
pub mod Step
pub mod Quiet
pub mod Isolation
pub mod Accounting
pub mod Budget
use ragra_reminder.Prelude.{
  ℕ, suc, ◌+◌, ◌*◌, Bool, true, false, Option, none, some, List, [], ◌∷◌, ◌++◌, Text, leb,
  if◌then◌else◌, map,
}
use ragra_reminder.Engine.{ReminderType, reminder_message, minute}
use ragra_reminder.Store.{Db, Reminder, ChatRole, reminder_category, task_page}
use ragra_reminder.Store.Due.{
  DueReminder, due_pending_reminders, mark_reminder_sent, mark_reminder_failed,
  mark_reminder_for_retry,
}
use ragra_reminder.Store.Chat.{add_chat_message}
use ragra_reminder.Notify.{
  Provider, Notification, NotifyResult, Recorder, record_notification_delivery,
  send_to_all_providers, error_text,
}
use ragra_reminder.Nags.{next_nag_at}

abbrev pub max_attempts : ℕ
max_attempts = 3

abbrev pub retry_delay : ℕ
retry_delay = 15 * minute

pub record DispatchSummary : Type 0 where
  pub sent : ℕ
  pub retrying : ℕ
  pub permanently_failed : ℕ
  pub skipped_not_configured : ℕ
  pub errors : List Text

abbrev pub no_dispatch : DispatchSummary
no_dispatch = record {
  sent = 0;
  retrying = 0;
  permanently_failed = 0;
  skipped_not_configured = 0;
  errors = [];
}

-- `_delivery_recorder`
abbrev pub delivery_recorder : ℕ → Notification → ℕ → Recorder
delivery_recorder user_id notification clock name result =
    record_notification_delivery user_id name result.ok notification.reminder_id
      notification.category result.error clock

abbrev pub message_of : DueReminder → Text
message_of d = reminder_message d.row.reminder_type d.task_title (some d.course_code)

pub record Preview : Type 0 where
  pub reminder_id : ℕ
  pub reminder_type : ReminderType
  pub scheduled_for : ℕ
  pub message : Text
  pub attempt_count : ℕ

abbrev pub preview_row : DueReminder → Preview
preview_row d = record {
  reminder_id = d.row.id;
  reminder_type = d.row.reminder_type;
  scheduled_for = d.row.scheduled_for;
  message = message_of d;
  attempt_count = d.row.attempt_count;
}

unfoldable pub preview_due_reminders : ℕ → ℕ → Db → List Preview
preview_due_reminders user_id now db = map preview_row (due_pending_reminders user_id now db)

abbrev pub notification_of : DueReminder → Notification
notification_of d = record {
  text = message_of d;
  reminder_id = some d.row.id;
  category = some (reminder_category d.row.reminder_type);
  link_path = some (task_page d.row.task_id);
}

-- What follows a send that at least one provider accepted.
pub settle_delivered : ℕ → ℕ → ℕ → DueReminder → DispatchSummary → Db → DispatchSummary × Db
settle_delivered user_id now clock d summary db = (
  record summary { sent = summary.sent + 1 },
  add_chat_message user_id ChatRole.alert (message_of d) (some (task_page d.row.task_id))
      (some (next_nag_at now)) none clock (mark_reminder_sent user_id d.row.id clock db),
)

-- What follows a send that every provider refused.
pub settle_refused : ℕ → ℕ → DueReminder → List Text → DispatchSummary → Db → DispatchSummary × Db
settle_refused user_id now d errors summary db =
    let error = error_text errors in
    let attempt = d.row.attempt_count + 1 in
    if leb max_attempts attempt
    then (
      record summary {
        permanently_failed = summary.permanently_failed + 1;
        errors = summary.errors ++ error ∷ [];
      },
      mark_reminder_failed user_id d.row.id error (some attempt) db,
    )
    else (
      record summary { retrying = summary.retrying + 1; errors = summary.errors ++ error ∷ [] },
      mark_reminder_for_retry user_id d.row.id error attempt (now + retry_delay) db,
    )

pub settle :
    ℕ → ℕ → ℕ → DueReminder → DispatchSummary → Bool × List Text × Db → DispatchSummary × Db
unfolding settle_delivered settle_refused
settle user_id now clock d summary (true, errors, db) =
    settle_delivered user_id now clock d summary db
settle user_id now clock d summary (false, errors, db) =
    settle_refused user_id now d errors summary db

-- The body of the loop.
pub dispatch_one :
    ℕ → List Provider → ℕ → ℕ → DueReminder → DispatchSummary → Db → DispatchSummary × Db
unfolding settle
dispatch_one user_id [] now clock d summary db =
    (record summary { skipped_not_configured = summary.skipped_not_configured + 1 }, db)
dispatch_one user_id (p ∷ ps) now clock d summary db = settle user_id now clock d summary (
    send_to_all_providers (p ∷ ps) (notification_of d)
      (delivery_recorder user_id (notification_of d) clock) db)

pub dispatch_from :
    ℕ → List Provider → ℕ → ℕ → List DueReminder → DispatchSummary → Db → DispatchSummary × Db
unfolding dispatch_one
dispatch_from user_id providers now clock [] summary db = (summary, db)
dispatch_from user_id providers now clock (d ∷ ds) summary db =
    let (summary', db') = dispatch_one user_id providers now clock d summary db in
    dispatch_from user_id providers now clock ds summary' db'

unfoldable pub dispatch_due_reminders : ℕ → List Provider → ℕ → ℕ → Db → DispatchSummary × Db
unfolding dispatch_from
dispatch_due_reminders user_id providers now clock db =
    dispatch_from user_id providers now clock (due_pending_reminders user_id now db) no_dispatch db
