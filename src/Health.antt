-- ===== src/Health.antt =====
-- ragra/health.py: the failure streak of each component of the pipeline, and its alert.
pub mod Streak
use mathlib.Core.Option
use ragra_reminder.Prelude.{
  ℕ, ◌+◌, Bool, true, false, ◌&&◌, Option, none, some, List, [], ◌∷◌, ◌++◌, Text, codes, ◌==◌, leb,
  decimal, if◌then◌else◌, is_empty, is_none, select, fetchone, exists_row, update_where, map,
}
use ragra_reminder.Store.{Db, PipelineHealth, SyncSource, sync_source_eq, health_alert}
use ragra_reminder.Notify.{
  Provider, Notification, NotifyResult, Recorder, record_notification_delivery,
  send_to_all_providers,
}

abbrev pub failure_alert_threshold : ℕ
failure_alert_threshold = 3

-- `user_id = ? AND component = ?`
abbrev pub is_health_of : ℕ → SyncSource → PipelineHealth → Bool
is_health_of user_id component h = h.user_id == user_id && sync_source_eq h.component component

-- INSERT … ON CONFLICT(user_id, component) DO UPDATE
abbrev pub upsert_health :
    ℕ
    → SyncSource
    → PipelineHealth
    → (PipelineHealth → PipelineHealth)
    → List PipelineHealth
    → List PipelineHealth
upsert_health user_id component fresh change l =
    if exists_row (is_health_of user_id component) l
    then update_where (is_health_of user_id component) change l
    else l ++ fresh ∷ []

abbrev pub first_success : ℕ → SyncSource → ℕ → PipelineHealth
first_success user_id component clock = record {
  user_id = user_id;
  component = component;
  consecutive_failures = 0;
  last_success_at = some clock;
  last_failure_at = none;
  last_error = none;
  last_alert_sent_at = none;
}

abbrev pub succeeded : ℕ → PipelineHealth → PipelineHealth
succeeded clock h = record h {
  consecutive_failures = 0;
  last_success_at = some clock;
  last_alert_sent_at = none;
}

abbrev pub first_failure : ℕ → SyncSource → Text → ℕ → PipelineHealth
first_failure user_id component error clock = record {
  user_id = user_id;
  component = component;
  consecutive_failures = 1;
  last_success_at = none;
  last_failure_at = some clock;
  last_error = some error;
  last_alert_sent_at = none;
}

abbrev pub failed_again : Text → ℕ → PipelineHealth → PipelineHealth
failed_again error clock h = record h {
  consecutive_failures = h.consecutive_failures + 1;
  last_failure_at = some clock;
  last_error = some error;
}

-- `error or "(no error detail)"`
abbrev pub error_detail : Option Text → Text
error_detail none = codes "(no error detail)"
error_detail (some e) = if is_empty e then codes "(no error detail)" else e

-- `SELECT consecutive_failures`; the row is there once it was written.
abbrev pub streak_of : ℕ → SyncSource → List PipelineHealth → ℕ
streak_of user_id component l = elim (fetchone (select (is_health_of user_id component) l)) [
  | none ↦ 0
  | some h ↦ h.consecutive_failures
]

unfoldable pub record_result : ℕ → SyncSource → Bool → Option Text → ℕ → Db → ℕ × Db
record_result user_id component true error clock db = (
  0,
  record db {
    health =
        upsert_health user_id component (first_success user_id component clock) (succeeded clock)
          db.health;
  },
)
record_result user_id component false error clock db =
    let after =
      upsert_health user_id component (first_failure user_id component (error_detail error) clock)
        (failed_again (error_detail error) clock) db.health in
    (streak_of user_id component after, record db { health = after })

-- The rows to alert for: `consecutive_failures >= ? AND last_alert_sent_at IS NULL`.
abbrev pub is_alarming : ℕ → PipelineHealth → Bool
is_alarming user_id h =
    h.user_id == user_id
    && leb failure_alert_threshold h.consecutive_failures
    && is_none h.last_alert_sent_at

-- The UPDATE of each alerted row.
unfoldable pub mark_alerted : ℕ → ℕ → List PipelineHealth → Db → Db
mark_alerted user_id clock [] db = db
mark_alerted user_id clock (r ∷ rs) db = mark_alerted user_id clock rs (record db {
  health =
      update_where (is_health_of user_id r.component)
        (λ h. record h { last_alert_sent_at = some clock }) db.health;
})

abbrev pub components_of : List PipelineHealth → List SyncSource
components_of [] = []
components_of (r ∷ rs) = r.component ∷ components_of rs

abbrev pub component_text : SyncSource → Text
component_text SyncSource.classroom = codes "classroom"
component_text SyncSource.calendar = codes "calendar"
component_text SyncSource.timetable = codes "timetable"
component_text SyncSource.reminders = codes "reminders"
component_text SyncSource.class_reminders = codes "class_reminders"
component_text SyncSource.tick = codes "tick"

-- `last_error or 'no error detail'`
abbrev pub shown_error : Option Text → Text
shown_error none = codes "no error detail"
shown_error (some e) = if is_empty e then codes "no error detail" else e

abbrev pub alert_line : PipelineHealth → Text
alert_line r =
    codes "- "
    ++ (component_text r.component
        ++ (codes ": failing "
            ++ (decimal r.consecutive_failures
                ++ (codes " consecutive runs (" ++ (shown_error r.last_error ++ codes ")")))))

-- `"\n".join(lines)`
abbrev pub alert_lines : List PipelineHealth → Text
alert_lines [] = []
alert_lines (r ∷ []) = alert_line r
alert_lines (r ∷ s ∷ rest) = alert_line r ++ (codes "\n" ++ alert_lines (s ∷ rest))

abbrev pub alert_notification : List PipelineHealth → Notification
alert_notification rows = record {
  text = codes "Ragra health alert - needs attention:\n" ++ alert_lines rows;
  reminder_id = none;
  category = some health_alert;
  link_path = none;
}

abbrev pub alert_recorder : ℕ → Notification → ℕ → Recorder
alert_recorder user_id notification clock name result =
    record_notification_delivery user_id name result.ok none notification.category result.error
      clock

abbrev pub settle_alert : ℕ → ℕ → List PipelineHealth → Bool × List Text × Db → List SyncSource × Db
settle_alert user_id clock rows (true, errors, db) =
    (components_of rows, mark_alerted user_id clock rows db)
settle_alert user_id clock rows (false, errors, db) = ([], db)

abbrev pub alert_rows : ℕ → List Provider → ℕ → List PipelineHealth → Db → List SyncSource × Db
alert_rows user_id providers clock [] db = ([], db)
alert_rows user_id providers clock (r ∷ rs) db =
    let notification = alert_notification (r ∷ rs) in
    settle_alert user_id clock (r ∷ rs)
      (send_to_all_providers providers notification (alert_recorder user_id notification clock) db)

unfoldable pub check_and_alert : ℕ → List Provider → ℕ → Db → List SyncSource × Db
unfolding mark_alerted
check_and_alert user_id [] clock db = ([], db)
check_and_alert user_id (p ∷ ps) clock db =
    alert_rows user_id (p ∷ ps) clock (select (is_alarming user_id) db.health) db
