-- ===== src/Dispatch/Step.antt =====
-- One round of the loop of `dispatch_due_reminders`: what it does to each table.
use ragra_reminder.Prelude.{
  ℕ, ◌≡◌, refl, ap, ◌∙◌, ◌+◌, some, List, [], ◌∷◌, arith, leb, if◌then◌else◌, update_where,
}
use ragra_reminder.Store.{Db, Reminder}
use ragra_reminder.Store.Due.{
  DueReminder, mark_reminder_sent, mark_reminder_failed, mark_reminder_for_retry, is_reminder,
  delivered_reminder, failed_reminder, retried,
}
use ragra_reminder.Store.Chat.{add_chat_message}
use ragra_reminder.Notify.{Provider, Notification, record_notification_delivery, error_text}
use ragra_reminder.Notify.Fanout.{any_accepts, refusals, recorded, send_to_all_providers_lem}
use ragra_reminder.Dispatch.{
  DispatchSummary, dispatch_one, settle, notification_of, delivery_recorder, max_attempts,
  retry_delay,
}

-- What the round writes into the reminder's row.
abbrev pub verdict : List Provider → ℕ → ℕ → DueReminder → Reminder → Reminder
verdict ps now clock d =
    if any_accepts ps (notification_of d)
    then delivered_reminder clock
    else if leb max_attempts (d.row.attempt_count + 1)
    then failed_reminder (error_text (refusals ps (notification_of d)))
        (some (d.row.attempt_count + 1))
    else retried (error_text (refusals ps (notification_of d))) (d.row.attempt_count + 1)
        (now + retry_delay)

-- Recording the attempts writes deliveries and nothing else.
recorded_tables :
    (ps : List Provider) (user_id : ℕ) (n : Notification) (clock : ℕ) (db : Db)
    → let after = recorded ps n (delivery_recorder user_id n clock) db in
      (after.reminders ≡ db.reminders) × (after.tasks ≡ db.tasks) × (after.courses ≡ db.courses)
unfolding record_notification_delivery
recorded_tables [] user_id n clock db = (refl, refl, refl)
recorded_tables (p ∷ ps) user_id n clock db =
    recorded_tables ps user_id n clock (delivery_recorder user_id n clock p.name (p.send n) db)

settle_tables :
    (user_id now clock : ℕ) (ps : List Provider) (d : DueReminder) (s : DispatchSummary) (db : Db)
    → let after =
        (settle user_id now clock d s
          (any_accepts ps (notification_of d), refusals ps (notification_of d), db)).1 in
      (after.reminders
        ≡ update_where (is_reminder user_id d.row.id) (verdict ps now clock d) db.reminders)
      × (after.tasks ≡ db.tasks)
      × (after.courses ≡ db.courses)
unfolding settle mark_reminder_sent mark_reminder_failed mark_reminder_for_retry add_chat_message
settle_tables user_id now clock ps d s db = ground arith

-- With a provider, a round writes the verdict into the reminder's row, and leaves tasks and courses.
pub dispatch_one_tables :
    (user_id : ℕ) (p : Provider) (ps : List Provider) (now clock : ℕ) (d : DueReminder)
    (s : DispatchSummary) (db : Db)
    → let after = (dispatch_one user_id (p ∷ ps) now clock d s db).1 in
      (after.reminders
        ≡ update_where (is_reminder user_id d.row.id) (verdict (p ∷ ps) now clock d) db.reminders)
      × (after.tasks ≡ db.tasks)
      × (after.courses ≡ db.courses)
unfolding dispatch_one
dispatch_one_tables user_id p ps now clock d s db =
    let log =
      recorded (p ∷ ps) (notification_of d) (delivery_recorder user_id (notification_of d) clock)
        db in
    let settled = settle_tables user_id now clock (p ∷ ps) d s log in
    let kept = recorded_tables (p ∷ ps) user_id (notification_of d) clock db in
    rw send_to_all_providers_lem (
      settled.0
          ∙ ap (update_where (is_reminder user_id d.row.id) (verdict (p ∷ ps) now clock d)) kept.0,
      settled.1 ∙ kept.1,
      settled.2 ∙ kept.2,
    )
