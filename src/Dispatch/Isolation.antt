-- ===== src/Dispatch/Isolation.antt =====
-- What other accounts see of a dispatch (ragra/reminders/dispatch.py).
use ragra_reminder.Prelude.{
  ℕ, ◌≢◌, refl, Bool, true, false, Option, none, List, [], ◌∷◌, Text, leb, Bool-cases, inl, inr,
  ◌+◌,
}
use ragra_reminder.Store.{Db, ChatRole}
use ragra_reminder.Store.Tenant.{SameFor, SameFor-refl, SameFor-trans}
use ragra_reminder.Store.Tenant.Tables.{unseen_insert, SameFor-deliveries}
use ragra_reminder.Store.Due.{DueReminder, mark_reminder_sent, due_pending_reminders}
use ragra_reminder.Store.Tenant.Operations.{
  sent-SameFor, failed-SameFor, retry-SameFor, add_chat_message-SameFor,
}
use ragra_reminder.Notify.{Provider, Notification, record_notification_delivery, error_text}
use ragra_reminder.Notify.Fanout.{any_accepts, refusals, recorded, send_to_all_providers_lem}
use ragra_reminder.Dispatch.{
  DispatchSummary, delivery_recorder, notification_of, settle, dispatch_one, dispatch_from,
  dispatch_due_reminders, no_dispatch, max_attempts, retry_delay,
}

module _ (u v : ℕ) (other : u ≢ v) where
  delivery-SameFor :
      (name : Text) (ok : Bool) (n : Notification) (e : Option Text) (clock : ℕ) (db : Db)
      → SameFor v db (record_notification_delivery u name ok n.reminder_id n.category e clock db)
  unfolding record_notification_delivery
  delivery-SameFor name ok n e clock db =
      SameFor-deliveries v db _ (unseen_insert (λ r. r.user_id) u v other db.deliveries _ refl)

  recorded-SameFor :
      (ps : List Provider) (n : Notification) (clock : ℕ) (db : Db)
      → SameFor v db (recorded ps n (delivery_recorder u n clock) db)
  recorded-SameFor [] n clock db = SameFor-refl v db
  recorded-SameFor (p ∷ ps) n clock db =
      SameFor-trans v db (delivery_recorder u n clock p.name (p.send n) db)
        (recorded (p ∷ ps) n (delivery_recorder u n clock) db)
        (delivery-SameFor p.name (p.send n).ok n (p.send n).error clock db)
        (recorded-SameFor ps n clock (delivery_recorder u n clock p.name (p.send n) db))

  settle-SameFor :
      (now clock : ℕ) (d : DueReminder) (s : DispatchSummary) (b : Bool) (es : List Text) (db : Db)
      → SameFor v db (settle u now clock d s (b, es, db)).1
  unfolding settle
  settle-SameFor now clock d s true es db =
      SameFor-trans v db (mark_reminder_sent u d.row.id clock db) _
        (sent-SameFor u v other d.row.id clock db)
        (add_chat_message-SameFor u v other ChatRole.alert _ _ _ none clock
          (mark_reminder_sent u d.row.id clock db))
  settle-SameFor now clock d s false es db =
      elim (Bool-cases (leb max_attempts (d.row.attempt_count + 1))) [
        | inl last ↦
            rw last (failed-SameFor u v other d.row.id (error_text es) (d.row.attempt_count + 1) db)
        | inr again ↦ rw again (
            retry-SameFor u v other d.row.id (error_text es) (d.row.attempt_count + 1)
              (now + retry_delay) db)
      ]

  dispatch_one-SameFor :
      (ps : List Provider) (now clock : ℕ) (d : DueReminder) (s : DispatchSummary) (db : Db)
      → SameFor v db (dispatch_one u ps now clock d s db).1
  unfolding dispatch_one
  dispatch_one-SameFor [] now clock d s db = SameFor-refl v db
  dispatch_one-SameFor (p ∷ ps) now clock d s db =
      let n = notification_of d in
      let log = recorded (p ∷ ps) n (delivery_recorder u n clock) db in
      rw send_to_all_providers_lem (
        SameFor-trans v db log _ (recorded-SameFor (p ∷ ps) n clock db)
          (settle-SameFor now clock d s (any_accepts (p ∷ ps) n) (refusals (p ∷ ps) n) log))

  dispatch_from-SameFor :
      (ps : List Provider) (now clock : ℕ) (ds : List DueReminder) (s : DispatchSummary) (db : Db)
      → SameFor v db (dispatch_from u ps now clock ds s db).1
  unfolding dispatch_from
  dispatch_from-SameFor ps now clock [] s db = SameFor-refl v db
  dispatch_from-SameFor ps now clock (d ∷ ds) s db =
      let one = dispatch_one u ps now clock d s db in
      SameFor-trans v db one.1 _ (dispatch_one-SameFor ps now clock d s db)
        (dispatch_from-SameFor ps now clock ds one.0 one.1)

  -- Dispatching one user's reminders changes no row, of any table, that belongs to another user.
  pub dispatch_due_reminders-SameFor :
      (ps : List Provider) (now clock : ℕ) (db : Db)
      → SameFor v db (dispatch_due_reminders u ps now clock db).1
  unfolding dispatch_due_reminders
  dispatch_due_reminders-SameFor ps now clock db =
      dispatch_from-SameFor ps now clock (due_pending_reminders u now db) no_dispatch db
