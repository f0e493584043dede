-- ===== src/Store/Tenant/Operations.antt =====
-- Each operation of ragra/db/repo.py on reminders and messages, for the accounts that it does not
-- concern.
use ragra_reminder.Prelude.{
  ℕ, ◌≢◌, refl, ◌∙◌, Option, some, List, Text, arith, Bool-cases, inl, inr, exists_row, not, ◌&&◌,
}
use ragra_reminder.Engine.{ReminderType}
use ragra_reminder.Store.Rows.{ChatRole, LinkPath, ReminderKey}
use ragra_reminder.Store.State.{Db}
use ragra_reminder.Store.Tenant.{SameFor, SameFor-refl}
use ragra_reminder.Store.Tenant.Tables.{
  unseen_update, unseen_delete, unseen_insert, SameFor-reminders, SameFor-new_reminder,
  SameFor-chat,
}
use ragra_reminder.Store.Reminders.{
  cancel_pending_reminders, is_pending_of, contains_type, cancelled_reminder,
  insert_reminder_if_absent, has_key, new_reminder,
}
use ragra_reminder.Store.Due.{
  is_reminder, mark_reminder_sent, mark_reminder_failed, mark_reminder_for_retry,
  delivered_reminder, failed_reminder, retried,
}
use ragra_reminder.Store.Chat.{add_chat_message}

module _ (u v : ℕ) (other : u ≢ v) where
  pub sent-SameFor : (id clock : ℕ) (db : Db) → SameFor v db (mark_reminder_sent u id clock db)
  unfolding mark_reminder_sent
  sent-SameFor id clock db = SameFor-reminders v db _ (
      unseen_update (λ r. r.user_id) u v other (is_reminder u id) (delivered_reminder clock)
        (λ r h. ground arith) db.reminders)

  pub failed-SameFor :
      (id : ℕ) (e : Text) (n : ℕ) (db : Db) → SameFor v db (mark_reminder_failed u id e (some n) db)
  unfolding mark_reminder_failed
  failed-SameFor id e n db = SameFor-reminders v db _ (
      unseen_update (λ r. r.user_id) u v other (is_reminder u id) (failed_reminder e (some n))
        (λ r h. ground arith) db.reminders)

  pub retry-SameFor :
      (id : ℕ) (e : Text) (n t : ℕ) (db : Db) → SameFor v db (mark_reminder_for_retry u id e n t db)
  unfolding mark_reminder_for_retry
  retry-SameFor id e n t db = SameFor-reminders v db _ (
      unseen_update (λ r. r.user_id) u v other (is_reminder u id) (retried e n t)
        (λ r h. ground arith) db.reminders)

  pub add_chat_message-SameFor :
      (role : ChatRole) (text : Text) (link : Option LinkPath) (nag repeat : Option ℕ) (clock : ℕ)
      (db : Db)
      → SameFor v db (add_chat_message u role text link nag repeat clock db)
  unfolding add_chat_message
  add_chat_message-SameFor role text link nag repeat clock db = SameFor-chat v db _ _ (
      unseen_delete (λ r. r.user_id) u v other _ (λ r h. ground arith) _
      ∙ unseen_insert (λ r. r.user_id) u v other db.chat _ refl)

  pub cancel_pending_reminders-SameFor :
      (task_id : ℕ) (except : List ReminderType) (db : Db)
      → SameFor v db (cancel_pending_reminders u task_id except db)
  unfolding cancel_pending_reminders
  cancel_pending_reminders-SameFor task_id except db = SameFor-reminders v db _ (
      unseen_update (λ r. r.user_id) u v other
        (λ r. is_pending_of u task_id r && not (contains_type except r.reminder_type))
        cancelled_reminder (λ r h. ground arith) db.reminders)

  pub insert_reminder_if_absent-SameFor :
      (task_id : ℕ) (t : ReminderType) (at : ℕ) (key : ReminderKey) (clock : ℕ) (db : Db)
      → SameFor v db (insert_reminder_if_absent u task_id t at key clock db).1
  unfolding insert_reminder_if_absent
  insert_reminder_if_absent-SameFor task_id t at key clock db =
      elim (Bool-cases (exists_row (has_key u key) db.reminders)) [
        | inl taken ↦ rw taken (SameFor-refl v db)
        | inr free ↦ rw free (
            SameFor-new_reminder v db _ _ (
              unseen_insert (λ r. r.user_id) u v other db.reminders
                (new_reminder db.next_reminder u task_id t at key clock) refl))
      ]
