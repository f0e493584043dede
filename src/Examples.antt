-- ===== src/Examples.antt =====
-- A small database of one student's course, task and reminder, and the theorems at that data.
pub mod Syncing
pub mod SignIn
pub mod Events
pub mod Classes
pub mod Channels
pub mod Sheets
use ragra_reminder.Health.{first_failure, streak_of, record_result, check_and_alert}
use ragra_reminder.Health.Streak.{check_and_alert_once, record_result_streak}
use ragra_reminder.Nags.Received.{IsAlertOrRepeat, ack_chat_message_quiet}
use ragra_reminder.Store.Chat.{ack_chat_message, due_nags}
use ragra_reminder.Store.{ChatMessage, ChatRole, PipelineHealth, SyncSource}
use ragra_reminder.Prelude.{
  ℕ, ◌≡◌, refl, ◌≤◌, ◌+◌, ◌*◌, ◌-◌, true, false, none, some, [], ◌∷◌, codes, All, length, arith,
  inr,
}
use ragra_reminder.Engine.{ReminderType, at_utc, day, hour, compute_reminder_plan}
use ragra_reminder.Engine.Window.{IsTimely, compute_reminder_plan-IsTimely}
use ragra_reminder.Engine.Cadence.{planned, belongs, planned-eq-belongs}
use ragra_reminder.Engine.Moments.{
  IsOnTime, compute_reminder_plan-IsOnTime, times_planned, planned_once,
}
use ragra_reminder.Store.{
  Db, empty_db, Course, Reminder, CourseState, SourceType, TaskKind, task_anchored,
}
use ragra_reminder.Store.Due.{due_pending_reminders}
use ragra_reminder.Store.Reminders.{new_reminder}
use ragra_reminder.Store.Tenant.{SameFor}
use ragra_reminder.Store.Upsert.{SourceItem, new_task}
use ragra_reminder.Notify.{Provider, Notification, send_to_all_providers}
use ragra_reminder.Notify.Fanout.{any_accepts, refusals, recorded, send_to_all_providers_lem}
use ragra_reminder.Dispatch.{dispatch_due_reminders, no_dispatch, delivery_recorder}
use ragra_reminder.Dispatch.Quiet.{dispatch_due_reminders-quiet}
use ragra_reminder.Dispatch.Isolation.{dispatch_due_reminders-SameFor}
use ragra_reminder.Dispatch.Accounting.{
  tallied, dispatch_due_reminders_summary, dispatch_unconfigured,
}
use ragra_reminder.Dispatch.Budget.{IsBudgeted, dispatch_due_reminders-IsBudgeted}

abbrev now : ℕ
now = 100 * day

abbrev course : Course
course = record {
  id = 1;
  user_id = 1;
  external_id = codes "c1";
  course_code = none;
  name = codes "Logic";
  section = none;
  teacher = none;
  state = CourseState.active;
  created_at = now;
  updated_at = now;
}

abbrev item : SourceItem
item = record {
  source_type = SourceType.coursework;
  external_id = codes "w1";
  title = codes "Sheet 1";
  description = none;
  link = none;
  kind = TaskKind.actionable;
  actual_deadline = some (110 * day);
  source_published_at = none;
  source_updated_at = some (codes "v1");
}

abbrev reminder : Reminder
reminder =
    new_reminder 1 1 1 ReminderType.new_assignment now
      (record { task_id = 1; reminder_type = ReminderType.new_assignment; tail = task_anchored })
      now

abbrev sample : Db
sample = record empty_db {
  courses = course ∷ [];
  next_course = 2;
  tasks = new_task 1 1 1 item now ∷ [];
  next_task = 2;
  reminders = reminder ∷ [];
  next_reminder = 2;
}

abbrev refusing : Provider
refusing = record {
  name = codes "telegram";
  send = λ n. record { ok = false; error = some (codes "timeout"); code = none };
}

abbrev accepting : Provider
accepting = record {
  name = codes "email";
  send = λ n. record { ok = true; error = none; code = none };
}

abbrev notice : Notification
notice = record { text = codes "hello"; reminder_id = some 1; category = none; link_path = none }

compute_reminder_plan-IsTimely_example :
    All
      (IsTimely (at_utc (110 * day)) (at_utc now))
      (compute_reminder_plan (at_utc (110 * day)) (at_utc now))
compute_reminder_plan-IsTimely_example =
    compute_reminder_plan-IsTimely (at_utc (110 * day)) (at_utc now)

planned-eq-belongs_example :
    planned ReminderType.final_1h (at_utc (now + 2 * hour)) (at_utc now)
    ≡ belongs ReminderType.final_1h (at_utc (now + 2 * hour)) (now + 2 * hour - now)
planned-eq-belongs_example =
    planned-eq-belongs ReminderType.final_1h (at_utc (now + 2 * hour)) (at_utc now)

compute_reminder_plan-IsOnTime_example :
    All
      (IsOnTime (at_utc (101 * day)) (at_utc now))
      (compute_reminder_plan (at_utc (101 * day)) (at_utc now))
compute_reminder_plan-IsOnTime_example =
    compute_reminder_plan-IsOnTime (at_utc (101 * day)) (at_utc now)

planned_once_example :
    times_planned ReminderType.due_today (compute_reminder_plan (at_utc (110 * day)) (at_utc now))
    ≤ 1
planned_once_example = planned_once ReminderType.due_today (at_utc (110 * day)) (at_utc now)

send_to_all_providers_lem_example :
    send_to_all_providers (refusing ∷ accepting ∷ []) notice (delivery_recorder 1 notice now) sample
    ≡ (
      any_accepts (refusing ∷ accepting ∷ []) notice,
      refusals (refusing ∷ accepting ∷ []) notice,
      recorded (refusing ∷ accepting ∷ []) notice (delivery_recorder 1 notice now) sample,
    )
send_to_all_providers_lem_example =
    send_to_all_providers_lem (refusing ∷ accepting ∷ []) notice (delivery_recorder 1 notice now)
      sample

dispatch_due_reminders-quiet_example :
    due_pending_reminders 1 now (dispatch_due_reminders 1 (refusing ∷ []) now now sample).1 ≡ []
dispatch_due_reminders-quiet_example = dispatch_due_reminders-quiet 1 refusing [] now now sample

dispatch_due_reminders-SameFor_example :
    SameFor 2 sample (dispatch_due_reminders 1 (accepting ∷ []) now now sample).1
dispatch_due_reminders-SameFor_example =
    dispatch_due_reminders-SameFor 1 2 (ground arith) (accepting ∷ []) now now sample

dispatch_due_reminders_summary_example :
    (dispatch_due_reminders 1 (refusing ∷ []) now now sample).0
    ≡ tallied (refusing ∷ []) (due_pending_reminders 1 now sample) no_dispatch
dispatch_due_reminders_summary_example = dispatch_due_reminders_summary 1 refusing [] now now sample

dispatch_unconfigured_example : dispatch_due_reminders 1 [] now now sample ≡ (
  record no_dispatch { skipped_not_configured = length (due_pending_reminders 1 now sample) },
  sample,
)
dispatch_unconfigured_example = dispatch_unconfigured 1 now now sample

dispatch_due_reminders-IsBudgeted_example :
    All IsBudgeted (dispatch_due_reminders 1 (refusing ∷ []) now now sample).1.reminders
dispatch_due_reminders-IsBudgeted_example =
    dispatch_due_reminders-IsBudgeted 1 (refusing ∷ []) now now sample (ground arith)

-- An alert in the chat that waits for its repeat, and a component that has failed three times.
abbrev alert_message : ChatMessage
alert_message = record {
  id = 1;
  user_id = 1;
  role = ChatRole.alert;
  text = codes "Due today";
  link_path = none;
  next_nag_at = some now;
  repeat_of = none;
  created_at = now;
  acked_at = none;
  nag_count = 0;
}

abbrev failing : PipelineHealth
failing = record (first_failure 1 SyncSource.classroom (codes "timeout") now) {
  consecutive_failures = 3;
}

abbrev troubled : Db
troubled = record sample { chat = alert_message ∷ []; next_message = 2; health = failing ∷ [] }

-- The repeat is acknowledged, and the alert is meant.
abbrev repeat_message : ChatMessage
repeat_message = record alert_message { id = 2; repeat_of = some 1; next_nag_at = none }

abbrev nagged : Db
nagged = record troubled { chat = alert_message ∷ repeat_message ∷ []; next_message = 3 }

ack_chat_message_quiet_example :
    All (λ m. ¬ IsAlertOrRepeat 1 m) (due_nags 1 (now + day) 20 (ack_chat_message 1 2 now nagged).1)
ack_chat_message_quiet_example =
    ack_chat_message_quiet 1 2 now 1 (now + day) 20 repeat_message nagged (omega arith) refl
      (inr refl)

check_and_alert_once_example :
    check_and_alert 1
      (accepting ∷ [])
      (now + day)
      (check_and_alert 1 (accepting ∷ []) now troubled).1
    ≡ ([], (check_and_alert 1 (accepting ∷ []) now troubled).1)
check_and_alert_once_example = check_and_alert_once 1 accepting [] now (now + day) troubled refl

record_result_streak_example :
    ((record_result 1 SyncSource.classroom false none now troubled).0
      ≡ streak_of 1 SyncSource.classroom troubled.health + 1)
    × (streak_of 1 SyncSource.classroom
          (record_result 1 SyncSource.classroom true none now troubled).1.health
        ≡ 0)
record_result_streak_example = record_result_streak 1 SyncSource.classroom none now troubled
