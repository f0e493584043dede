-- ===== src/Dispatch/Accounting.antt =====
-- The summary of `dispatch_due_reminders` of ragra/reminders/dispatch.py.
use mathlib.Core.List.{append-nil, append_assoc}
use ragra_reminder.Prelude.{
  ℕ, ◌≡◌, ◌∙◌, refl, ap, ◌+◌, Bool, true, false, not, ◌&&◌, List, [], ◌∷◌, ◌++◌, Text, arith, leb,
  ltb, length, count_where, inl, inr, Bool-cases, if◌then◌else◌,
}
use ragra_reminder.Store.{Db}
use ragra_reminder.Store.Due.{DueReminder, due_pending_reminders}
use ragra_reminder.Notify.{Provider, error_text}
use ragra_reminder.Notify.Fanout.{any_accepts, refusals, recorded, send_to_all_providers_lem}
use ragra_reminder.Dispatch.{
  DispatchSummary, delivery_recorder, notification_of, settle, settle_delivered, settle_refused,
  dispatch_one, dispatch_from, dispatch_due_reminders, no_dispatch, max_attempts,
}

-- Some provider accepts the message of a reminder.
abbrev pub is_accepted : List Provider → DueReminder → Bool
is_accepted ps d = any_accepts ps (notification_of d)

-- Every provider refuses it, and this was the third attempt.
abbrev pub is_given_up : List Provider → DueReminder → Bool
is_given_up ps d = not (is_accepted ps d) && leb 3 (d.row.attempt_count + 1)

-- Every provider refuses it, and an attempt is left.
abbrev pub is_put_off : List Provider → DueReminder → Bool
is_put_off ps d = not (is_accepted ps d) && ltb (d.row.attempt_count + 1) 3

-- One text for each reminder that every provider refuses, in their order.
abbrev pub refused_texts : List Provider → List DueReminder → List Text
refused_texts ps [] = []
refused_texts ps (d ∷ ds) =
    let rest = refused_texts ps ds in
    if is_accepted ps d then rest else error_text (refusals ps (notification_of d)) ∷ rest

-- A summary, and what a list of due reminders adds to it.
abbrev pub tallied : List Provider → List DueReminder → DispatchSummary → DispatchSummary
tallied ps ds s = record {
  sent = s.sent + count_where (is_accepted ps) ds;
  retrying = s.retrying + count_where (is_put_off ps) ds;
  permanently_failed = s.permanently_failed + count_where (is_given_up ps) ds;
  skipped_not_configured = s.skipped_not_configured;
  errors = s.errors ++ refused_texts ps ds;
}

module _ (u : ℕ) (q : Provider) (qs : List Provider) (now clock : ℕ) where
  tallied-settle :
      (d : DueReminder) (ds : List DueReminder) (s : DispatchSummary) (db : Db) (b : Bool)
      → is_accepted (q ∷ qs) d ≡ b
      → tallied
          (q ∷ qs)
          ds
          (settle u now clock d s (b, refusals (q ∷ qs) (notification_of d), db)).0
        ≡ tallied (q ∷ qs) (d ∷ ds) s
  unfolding settle settle_delivered settle_refused
  tallied-settle d ds s db true e = ground (arith, e)
  tallied-settle d ds s db false e =
      let text = error_text (refusals (q ∷ qs) (notification_of d)) in
      let joined = append_assoc s.errors (text ∷ []) (refused_texts (q ∷ qs) ds) in
      elim (Bool-cases (leb max_attempts (d.row.attempt_count + 1))) [
        | inl last ↦ ground (arith, e, last, joined)
        | inr again ↦ ground (arith, e, again, joined)
      ]

  tallied-dispatch_one :
      (d : DueReminder) (ds : List DueReminder) (s : DispatchSummary) (db : Db)
      → tallied (q ∷ qs) ds (dispatch_one u (q ∷ qs) now clock d s db).0
        ≡ tallied (q ∷ qs) (d ∷ ds) s
  unfolding dispatch_one
  tallied-dispatch_one d ds s db =
      let n = notification_of d in
      let sends = send_to_all_providers_lem (q ∷ qs) n (delivery_recorder u n clock) db in
      let log = recorded (q ∷ qs) n (delivery_recorder u n clock) db in
      ap (λ r. tallied (q ∷ qs) ds (settle u now clock d s r).0) sends
      ∙ tallied-settle d ds s log (any_accepts (q ∷ qs) n) refl

  dispatch_from-tallied :
      (ds : List DueReminder) (s : DispatchSummary) (db : Db)
      → (dispatch_from u (q ∷ qs) now clock ds s db).0 ≡ tallied (q ∷ qs) ds s
  unfolding dispatch_from
  dispatch_from-tallied [] s db = ground (arith, append-nil s.errors)
  dispatch_from-tallied (d ∷ ds) s db =
      let one = dispatch_one u (q ∷ qs) now clock d s db in
      dispatch_from-tallied ds one.0 one.1 ∙ tallied-dispatch_one d ds s db

  -- With a provider, the summary of a dispatch counts as sent the due reminders that some provider
  -- accepts, as permanently failed those that all refuse at their third attempt, and as retrying the
  -- other refused ones; its errors are one text for each refused reminder, in the order of the sends.
  pub dispatch_due_reminders_summary :
      (db : Db)
      → (dispatch_due_reminders u (q ∷ qs) now clock db).0
        ≡ tallied (q ∷ qs) (due_pending_reminders u now db) no_dispatch
  unfolding dispatch_due_reminders
  dispatch_due_reminders_summary db =
      dispatch_from-tallied (due_pending_reminders u now db) no_dispatch db

unconfigured_from :
    (u now clock : ℕ) (ds : List DueReminder) (s : DispatchSummary) (db : Db)
    → dispatch_from u [] now clock ds s db
      ≡ (record s { skipped_not_configured = s.skipped_not_configured + length ds }, db)
unfolding dispatch_from dispatch_one
unconfigured_from u now clock [] s db = ground arith
unconfigured_from u now clock (d ∷ ds) s db =
    unconfigured_from u now clock ds
      (record s { skipped_not_configured = s.skipped_not_configured + 1 }) db
    ∙ ground arith

-- With no provider configured nothing at all changes: no reminder loses an attempt, and every due
-- one is reported as skipped.
pub dispatch_unconfigured :
    (u now clock : ℕ) (db : Db)
    → dispatch_due_reminders u [] now clock db ≡ (
      record no_dispatch { skipped_not_configured = length (due_pending_reminders u now db) },
      db,
    )
unfolding dispatch_due_reminders
dispatch_unconfigured u now clock db =
    unconfigured_from u now clock (due_pending_reminders u now db) no_dispatch db ∙ ground arith
