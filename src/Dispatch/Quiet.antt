-- ===== src/Dispatch/Quiet.antt =====
-- What a dispatch of ragra/reminders/dispatch.py leaves due.
use ragra_reminder.Prelude.{
  ℕ, ◌≡◌, refl, ap, sym, subst, ◌∙◌, ◌⊎◌, inl, inr, true, false, none, some, List, [], ◌∷◌, arith,
  if◌then◌else◌, All, All-imp, All-update_where, Some, Some-order_by, Bool-cases, Option-cases,
  order_by,
}
use ragra_reminder.Store.{Db, Reminder, Task, Course}
use ragra_reminder.Store.Due.{
  DueReminder, due_row, due_rows, due_pending_reminders, is_reminder, is_ripe,
}
use ragra_reminder.Notify.{Provider}
use ragra_reminder.Dispatch.{
  DispatchSummary, dispatch_one, dispatch_from, dispatch_due_reminders, no_dispatch,
}
use ragra_reminder.Dispatch.Step.{verdict, dispatch_one_tables}

module _ (tasks : List Task) (courses : List Course) (user_id now : ℕ) where
  abbrev IsQuiet : Reminder → Type 0
  IsQuiet r = due_row tasks courses user_id now r ≡ none

  -- No verdict leaves a row that is due: it is sent, failed, or waits for a quarter of an hour.
  verdict-IsQuiet :
      (ps : List Provider) (clock : ℕ) (d : DueReminder) (r : Reminder)
      → IsQuiet (verdict ps now clock d r)
  unfolding due_row
  verdict-IsQuiet ps clock d r =
      let unripe : is_ripe user_id now (verdict ps now clock d r) ≡ false = ground arith in
      rw unripe

  -- The row is one of those to come, or is not due.
  abbrev Covered : List DueReminder → Reminder → Type 0
  Covered ds r = Some (λ d. is_reminder user_id d.row.id r ≡ true) ds ⊎ IsQuiet r

  Covered-verdict :
      (ps : List Provider) (clock : ℕ) (d : DueReminder) (ds : List DueReminder) (r : Reminder)
      → Covered (d ∷ ds) r
      → Covered ds (if is_reminder user_id d.row.id r then verdict ps now clock d r else r)
  Covered-verdict ps clock d ds r (inl (inl hit)) = rw hit (inr (verdict-IsQuiet ps clock d r))
  Covered-verdict ps clock d ds r (inl (inr later)) =
      elim (Bool-cases (is_reminder user_id d.row.id r)) [
        | inl hit ↦ rw hit (inr (verdict-IsQuiet ps clock d r))
        | inr miss ↦ rw miss (inl later)
      ]
  Covered-verdict ps clock d ds r (inr quiet) = elim (Bool-cases (is_reminder user_id d.row.id r)) [
    | inl hit ↦ rw hit (inr (verdict-IsQuiet ps clock d r))
    | inr miss ↦ rw miss (inr quiet)
  ]

  dispatch_from-Covered :
      (p : Provider) (ps : List Provider) (clock : ℕ) (ds : List DueReminder) (s : DispatchSummary)
      (db : Db)
      → All (Covered ds) db.reminders
      → All (Covered []) (dispatch_from user_id (p ∷ ps) now clock ds s db).1.reminders
  unfolding dispatch_from
  dispatch_from-Covered p ps clock [] s db h = h
  dispatch_from-Covered p ps clock (d ∷ ds) s db h =
      dispatch_from-Covered p ps clock ds (dispatch_one user_id (p ∷ ps) now clock d s db).0
        (dispatch_one user_id (p ∷ ps) now clock d s db).1
        (rw (dispatch_one_tables user_id p ps now clock d s db).0 (
          All-update_where (Covered (d ∷ ds)) (Covered ds) (is_reminder user_id d.row.id)
            (verdict (p ∷ ps) now clock d) (Covered-verdict (p ∷ ps) clock d ds) db.reminders h))

  -- A due row carries its own reminder.
  due_row-covers :
      (r : Reminder) (d : DueReminder)
      → due_row tasks courses user_id now r ≡ some d
      → is_reminder user_id d.row.id r ≡ true
  unfolding due_row
  due_row-covers r d h = ground arith

  Covered-later :
      (d : DueReminder) (ds : List DueReminder) (r : Reminder) → Covered ds r → Covered (d ∷ ds) r
  Covered-later d ds r (inl h) = inl (inr h)
  Covered-later d ds r (inr h) = inr h

  due_rows-quiet :
      (r : Reminder) (rs : List Reminder)
      → due_row tasks courses user_id now r ≡ none
      → due_rows tasks courses user_id now (r ∷ rs) ≡ due_rows tasks courses user_id now rs
  due_rows-quiet r rs e = rw (e, due_rows)

  due_rows-due :
      (r : Reminder) (rs : List Reminder) (d : DueReminder)
      → due_row tasks courses user_id now r ≡ some d
      → due_rows tasks courses user_id now (r ∷ rs) ≡ d ∷ due_rows tasks courses user_id now rs
  due_rows-due r rs d e = rw (e, due_rows)

  due_rows-Covered : (l : List Reminder) → All (Covered (due_rows tasks courses user_id now l)) l
  due_rows-Covered [] = tt
  due_rows-Covered (r ∷ rs) = elim (Option-cases (due_row tasks courses user_id now r)) [
    | inl quiet ↦
        subst (λ ds. All (Covered ds) (r ∷ rs)) (sym (due_rows-quiet r rs quiet))
          (inr quiet, due_rows-Covered rs)
    | inr (d, due) ↦
        subst (λ ds. All (Covered ds) (r ∷ rs)) (sym (due_rows-due r rs d due))
          (
            inl (inl (due_row-covers r d due)),
            All-imp (Covered (due_rows tasks courses user_id now rs))
                (Covered (d ∷ due_rows tasks courses user_id now rs))
                (Covered-later d (due_rows tasks courses user_id now rs)) rs (due_rows-Covered rs),
          )
  ]

  Covered-order_by :
      (ds : List DueReminder) (r : Reminder)
      → Covered ds r
      → Covered (order_by (λ d. d.row.scheduled_for) ds) r
  Covered-order_by ds r (inl h) =
      inl
        (Some-order_by (λ d. is_reminder user_id d.row.id r ≡ true) (λ d. d.row.scheduled_for) ds h)
  Covered-order_by ds r (inr h) = inr h

  due_rows_nothing :
      (l : List Reminder) → All (Covered []) l → due_rows tasks courses user_id now l ≡ []
  due_rows_nothing [] h = refl
  due_rows_nothing (r ∷ rs) (inl none_left, h) = absurd none_left
  due_rows_nothing (r ∷ rs) (inr quiet, h) = due_rows-quiet r rs quiet ∙ due_rows_nothing rs h

dispatch_from_tables :
    (user_id : ℕ) (p : Provider) (ps : List Provider) (now clock : ℕ) (ds : List DueReminder)
    (s : DispatchSummary) (db : Db)
    → let after = (dispatch_from user_id (p ∷ ps) now clock ds s db).1 in
      (after.tasks ≡ db.tasks) × (after.courses ≡ db.courses)
unfolding dispatch_from
dispatch_from_tables user_id p ps now clock [] s db = (refl, refl)
dispatch_from_tables user_id p ps now clock (d ∷ ds) s db =
    let one = dispatch_one_tables user_id p ps now clock d s db in
    let rest =
      dispatch_from_tables user_id p ps now clock ds
        (dispatch_one user_id (p ∷ ps) now clock d s db).0
        (dispatch_one user_id (p ∷ ps) now clock d s db).1 in
    (rest.0 ∙ one.1, rest.1 ∙ one.2)

-- With at least one provider, a dispatch leaves nothing due for this user at the same moment,
-- whatever the providers answered.
pub dispatch_due_reminders-quiet :
    (user_id : ℕ) (p : Provider) (ps : List Provider) (now clock : ℕ) (db : Db)
    → due_pending_reminders user_id now (dispatch_due_reminders user_id (p ∷ ps) now clock db).1
      ≡ []
unfolding dispatch_due_reminders due_pending_reminders
dispatch_due_reminders-quiet user_id p ps now clock db =
    let ds =
      order_by (λ d. d.row.scheduled_for) (due_rows db.tasks db.courses user_id now db.reminders) in
    let kept = dispatch_from_tables user_id p ps now clock ds no_dispatch db in
    rw (kept.0, kept.1)
      (ap (order_by (λ d. d.row.scheduled_for)) (
        due_rows_nothing db.tasks db.courses user_id now
          (dispatch_from user_id (p ∷ ps) now clock ds no_dispatch db).1.reminders
          (dispatch_from-Covered db.tasks db.courses user_id now p ps clock ds no_dispatch db (
            All-imp
              (Covered db.tasks db.courses user_id now
                (due_rows db.tasks db.courses user_id now db.reminders))
              (Covered db.tasks db.courses user_id now ds)
              (Covered-order_by db.tasks db.courses user_id now
                (due_rows db.tasks db.courses user_id now db.reminders))
              db.reminders (due_rows-Covered db.tasks db.courses user_id now db.reminders)))))
