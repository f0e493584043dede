-- ===== src/ClassReminders.antt =====
-- ragra/reminders/class_reminders.py: announcing the classes that are about to start.
pub mod Message
pub mod Claims
pub mod Silence
pub mod Origin
use ragra_reminder.Prelude.{
  ℕ, suc, ◌+◌, ◌-◌, ◌*◌, ◌/◌, ◌%◌, Bool, true, false, not, ◌&&◌, Option, none, some, List, [], ◌∷◌,
  ◌++◌, Text, codes, decimal, leb, ltb, ◌==◌, if◌then◌else◌, map, is_empty,
}
use ragra_reminder.Engine.{minute, hour, day}
use ragra_reminder.Store.{Db, ClassReminder, class_soon}
use ragra_reminder.Store.Classes.{
  PendingClass, insert_class_reminder_if_absent, pending_class_reminders, mark_class_reminder_sent,
  record_class_reminder_attempt, expire_stale_class_reminders, list_timetable_events,
  already_started,
}
use ragra_reminder.Notify.{
  Provider, Notification, Recorder, record_notification_delivery, send_to_all_providers, error_text,
}
use ragra_reminder.Zones.{Zone}
use ragra_reminder.Timetable.{
  ClassOccurrence, Expansion, expanded, malformed_time, window_reversed, is_cancelled_class,
  expand_occurrences, weekly_class_from_row,
}
use ragra_reminder.ClassReminders.Message.{class_reminder_message}

abbrev pub class_soon_type : Text
class_soon_type = codes "CLASS_SOON"

abbrev pub lookahead : ℕ
lookahead = 45 * minute

pub record ClassReminderSummary : Type 0 where
  pub scheduled : ℕ
  pub sent : ℕ
  pub retrying : ℕ
  pub expired : ℕ
  pub failed : ℕ
  pub skipped_not_configured : ℕ
  pub errors : List Text

abbrev pub no_classes : ClassReminderSummary
no_classes = record {
  scheduled = 0;
  sent = 0;
  retrying = 0;
  expired = 0;
  failed = 0;
  skipped_not_configured = 0;
  errors = [];
}

abbrev pub add_claim : Option ℕ → ℕ → ℕ
add_claim none claimed = claimed
add_claim (some id) claimed = claimed + 1

abbrev pub claim_one : ℕ → ℕ → ClassOccurrence → ℕ → Db → ℕ × Db
claim_one user_id clock o claimed db =
    let inserted =
      insert_class_reminder_if_absent user_id o.timetable_event_id o.occurrence_date class_soon_type
        o.starts_at_utc clock db in
    if is_cancelled_class o then (claimed, db) else (add_claim inserted.0 claimed, inserted.1)

-- The loop of `schedule_class_reminders`.
unfoldable pub claim_all : ℕ → ℕ → List ClassOccurrence → ℕ → Db → ℕ × Db
claim_all user_id clock [] claimed db = (claimed, db)
claim_all user_id clock (o ∷ os) claimed db =
    let step = claim_one user_id clock o claimed db in claim_all user_id clock os step.0 step.1

abbrev pub claim_expanded : ℕ → ℕ → Expansion (List ClassOccurrence) → Db → Expansion ℕ × Db
claim_expanded user_id clock (expanded occurrences) db =
    let result = claim_all user_id clock occurrences 0 db in (expanded result.0, result.1)
claim_expanded user_id clock malformed_time db = (malformed_time, db)
claim_expanded user_id clock window_reversed db = (window_reversed, db)

unfoldable pub schedule_class_reminders :
    (Text → Option ℕ) → Zone → ℕ → ℕ → ℕ → Db → Expansion ℕ × Db
unfolding claim_all
schedule_class_reminders int zone user_id now clock db =
    claim_expanded user_id clock
      (expand_occurrences int zone (map weekly_class_from_row (list_timetable_events user_id db))
        now (now + lookahead))
      db

abbrev pub class_delivery_recorder : ℕ → ℕ → Recorder
class_delivery_recorder user_id clock name result =
    record_notification_delivery user_id name result.ok none (some class_soon) result.error clock

abbrev pub class_notification : Zone → ℕ → PendingClass → Notification
class_notification zone now p = record {
  text =
      class_reminder_message zone (if is_empty p.course_name then codes "Class" else p.course_name)
        p.row.scheduled_for p.room now;
  reminder_id = none;
  category = some class_soon;
  link_path = none;
}

-- What follows the sends of one reminder.
abbrev pub settle_class :
    ℕ → ℕ → PendingClass → ClassReminderSummary → Bool × List Text × Db → ClassReminderSummary × Db
settle_class user_id clock p summary (true, errors, db) =
    (record summary { sent = summary.sent + 1 }, mark_class_reminder_sent user_id p.row.id clock db)
settle_class user_id clock p summary (false, errors, db) = (
  record summary {
    retrying = summary.retrying + 1;
    errors = summary.errors ++ error_text errors ∷ [];
  },
  record_class_reminder_attempt user_id p.row.id (error_text errors) false db,
)

-- What the loop does with a class that is still ahead.
abbrev pub announce :
    Zone
    → ℕ
    → List Provider
    → ℕ
    → ℕ
    → PendingClass
    → ClassReminderSummary
    → Db
    → ClassReminderSummary × Db
announce zone user_id [] now clock p summary db =
    (record summary { skipped_not_configured = summary.skipped_not_configured + 1 }, db)
announce zone user_id (q ∷ qs) now clock p summary db = settle_class user_id clock p summary (
    send_to_all_providers (q ∷ qs) (class_notification zone now p)
      (class_delivery_recorder user_id clock) db)

unfoldable pub dispatch_class :
    Zone
    → ℕ
    → List Provider
    → ℕ
    → ℕ
    → PendingClass
    → ClassReminderSummary
    → Db
    → ClassReminderSummary × Db
dispatch_class zone user_id providers now clock p summary db =
    if leb p.row.scheduled_for now
    then (
      record summary { expired = summary.expired + 1 },
      record_class_reminder_attempt user_id p.row.id already_started true db,
    )
    else announce zone user_id providers now clock p summary db

unfoldable pub dispatch_classes :
    Zone
    → ℕ
    → List Provider
    → ℕ
    → ℕ
    → List PendingClass
    → ClassReminderSummary
    → Db
    → ClassReminderSummary × Db
unfolding dispatch_class
dispatch_classes zone user_id providers now clock [] summary db = (summary, db)
dispatch_classes zone user_id providers now clock (p ∷ ps) summary db =
    let (summary', db') = dispatch_class zone user_id providers now clock p summary db in
    dispatch_classes zone user_id providers now clock ps summary' db'

unfoldable pub dispatch_class_reminders :
    Zone → ℕ → List Provider → ℕ → ℕ → Db → ClassReminderSummary × Db
unfolding dispatch_classes
dispatch_class_reminders zone user_id providers now clock db =
    dispatch_classes zone user_id providers now clock (pending_class_reminders user_id db)
      no_classes db

abbrev pub whole_pass : ℕ → ℕ → ClassReminderSummary → ClassReminderSummary
whole_pass expired claimed dispatched = record {
  scheduled = claimed;
  sent = dispatched.sent;
  retrying = dispatched.retrying;
  expired = expired + dispatched.expired;
  failed = 0;
  skipped_not_configured = dispatched.skipped_not_configured;
  errors = dispatched.errors;
}

abbrev pub run_scheduled :
    Zone → ℕ → List Provider → ℕ → ℕ → ℕ → Expansion ℕ × Db → Expansion ClassReminderSummary × Db
run_scheduled zone user_id providers now clock stale (expanded claimed, db) =
    let dispatched = dispatch_class_reminders zone user_id providers now clock db in
    (expanded (whole_pass stale claimed dispatched.0), dispatched.1)
run_scheduled zone user_id providers now clock stale (malformed_time, db) = (malformed_time, db)
run_scheduled zone user_id providers now clock stale (window_reversed, db) = (window_reversed, db)

unfoldable pub run_class_reminders :
    (Text → Option ℕ) → Zone → ℕ → List Provider → ℕ → ℕ → Db → Expansion ClassReminderSummary × Db
run_class_reminders int zone user_id providers now clock db =
    let stale = expire_stale_class_reminders user_id now db in
    run_scheduled zone user_id providers now clock stale.0
      (schedule_class_reminders int zone user_id now clock stale.1)
