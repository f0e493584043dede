-- ===== src/Dispatch/Budget.antt =====
-- The bounded retry of ragra/reminders/dispatch.py.
use ragra_reminder.Prelude.{
  ℕ, ◌≡◌, ◌≤◌, ◌<◌, true, some, List, [], ◌∷◌, arith, if◌then◌else◌, All, All-update_where,
  All-order_by, Option-cases, inl, inr,
}
use ragra_reminder.Store.{Db, Reminder, is_pending, Task, Course}
use ragra_reminder.Store.Due.{DueReminder, due_pending_reminders, due_row, due_rows, is_reminder}
use ragra_reminder.Notify.{Provider}
use ragra_reminder.Dispatch.{
  DispatchSummary, dispatch_one, dispatch_from, dispatch_due_reminders, no_dispatch, max_attempts,
}
use ragra_reminder.Dispatch.Step.{verdict, dispatch_one_tables}

-- At most MAX_ATTEMPTS attempts were made, and fewer while the reminder still waits.
pub record IsBudgeted (r : Reminder) : Type 0 where
  pub bounded : r.attempt_count ≤ max_attempts
  pub waiting : is_pending r.status ≡ true → r.attempt_count < max_attempts

abbrev HasTry : DueReminder → Type 0
HasTry d = d.row.attempt_count < max_attempts

verdict-IsBudgeted :
    (ps : List Provider) (u now clock : ℕ) (d : DueReminder)
    → HasTry d
    → (r : Reminder) → IsBudgeted r
    → IsBudgeted (if is_reminder u d.row.id r then verdict ps now clock d r else r)
verdict-IsBudgeted ps u now clock d t r h = ground arith

dispatch_from-IsBudgeted :
    (u : ℕ) (ps : List Provider) (now clock : ℕ) (ds : List DueReminder) (s : DispatchSummary)
    (db : Db)
    → All HasTry ds
    → All IsBudgeted db.reminders
    → All IsBudgeted (dispatch_from u ps now clock ds s db).1.reminders
unfolding dispatch_from
dispatch_from-IsBudgeted u ps now clock [] s db t h = h
dispatch_from-IsBudgeted u [] now clock (d ∷ ds) s db t h =
    dispatch_from-IsBudgeted u [] now clock ds (dispatch_one u [] now clock d s db).0
      (dispatch_one u [] now clock d s db).1 t.1 (unfold dispatch_one in h)
dispatch_from-IsBudgeted u (p ∷ ps) now clock (d ∷ ds) s db t h =
    dispatch_from-IsBudgeted u (p ∷ ps) now clock ds (dispatch_one u (p ∷ ps) now clock d s db).0
      (dispatch_one u (p ∷ ps) now clock d s db).1 t.1
      (rw (dispatch_one_tables u p ps now clock d s db).0 (
        All-update_where IsBudgeted IsBudgeted (is_reminder u d.row.id)
          (verdict (p ∷ ps) now clock d) (verdict-IsBudgeted (p ∷ ps) u now clock d t.0)
          db.reminders h))

due_row-HasTry :
    (tasks : List Task) (courses : List Course) (u now : ℕ) (r : Reminder) (d : DueReminder)
    → IsBudgeted r
    → due_row tasks courses u now r ≡ some d
    → HasTry d
unfolding due_row
due_row-HasTry tasks courses u now r d h e = ground arith

due_rows-HasTry :
    (tasks : List Task) (courses : List Course) (u now : ℕ) (l : List Reminder)
    → All IsBudgeted l
    → All HasTry (due_rows tasks courses u now l)
due_rows-HasTry tasks courses u now [] h = tt
due_rows-HasTry tasks courses u now (r ∷ rs) h =
    elim (Option-cases (due_row tasks courses u now r)) [
      | inl quiet ↦ rw (quiet, due_rows) (due_rows-HasTry tasks courses u now rs h.1)
      | inr (d, due) ↦
          rw (due, due_rows)
            (
              due_row-HasTry tasks courses u now r d h.0 due,
              due_rows-HasTry tasks courses u now rs h.1,
            )
    ]

-- If every reminder had at most MAX_ATTEMPTS attempts, and fewer while it is pending, this is so
-- after a dispatch.
pub dispatch_due_reminders-IsBudgeted :
    (u : ℕ) (ps : List Provider) (now clock : ℕ) (db : Db)
    → All IsBudgeted db.reminders
    → All IsBudgeted (dispatch_due_reminders u ps now clock db).1.reminders
unfolding dispatch_due_reminders due_pending_reminders
dispatch_due_reminders-IsBudgeted u ps now clock db h =
    dispatch_from-IsBudgeted u ps now clock (due_pending_reminders u now db) no_dispatch db
      (All-order_by HasTry (λ d. d.row.scheduled_for)
        (due_rows db.tasks db.courses u now db.reminders)
        (due_rows-HasTry db.tasks db.courses u now db.reminders h))
      h
