-- ===== src/Store/Overdue.antt =====
-- The pass `mark_overdue_tasks_as_missed` of ragra/db/repo.py over all tasks.
use ragra_reminder.Prelude.{
  ℕ, ◌≡◌, ◌≢◌, ◌<◌, refl, Option, none, some, ◌⊎◌, Bool, true, false, not, ◌&&◌, List, [], ◌∷◌,
  arith, ==_refl, Bool-cases, inl, inr, exists_row, select, update_where, All, All-imp,
  All-update_where, Some, if◌then◌else◌,
}
use ragra_reminder.Store.Rows.{Task, TaskStatus, is_finished, is_terminal}
use ragra_reminder.Store.State.{Db}
use ragra_reminder.Store.History.{record_history, is_task}
use ragra_reminder.Store.Reminders.{cancel_pending_reminders}
use ragra_reminder.Store.Tasks.{
  set_status, mark_missed, missed_task, is_overdue, mark_each_missed, mark_overdue_tasks_as_missed,
}

-- An UPDATE of the status writes the rows that it reaches, and the audit trail.
pub set_status_tasks :
    (guard : Task → Bool) (change : Task → Task) (s : TaskStatus) (u task_id clock : ℕ) (db : Db)
    → (set_status guard change s u task_id clock db).tasks
      ≡ update_where (λ t. is_task u task_id t && guard t) change db.tasks
unfolding record_history
set_status_tasks guard change s u task_id clock db =
    elim (Bool-cases (exists_row (λ t. is_task u task_id t && guard t) db.tasks)) [
      | inl reached ↦ rw reached refl
      | inr missed ↦ rw missed refl
    ]

module _ (u now : ℕ) where
  -- A task is still in the list, or it is not overdue.
  abbrev Covered : List Task → Task → Type 0
  Covered ts t = Some (λ d. is_task u d.id t ≡ true) ts ⊎ (is_overdue u now t ≡ false)

  Covered-missed :
      (clock : ℕ) (d : Task) (ds : List Task) (t : Task)
      → Covered (d ∷ ds) t
      → Covered ds
          (if is_task u d.id t && not (is_finished t.status) then missed_task clock t else t)
  Covered-missed clock d ds t h = elim (Bool-cases (is_task u d.id t)) [
    | inl hit ↦ inr (ground arith)
    | inr other ↦ elim h [
      | inl (inl now) ↦ absurd (ground arith)
      | inl (inr later) ↦ inl (ground arith)
      | inr fine ↦ inr (ground arith)
    ]
  ]

  mark_each_missed-Covered :
      (clock : ℕ) (ts : List Task) (db : Db)
      → All (Covered ts) db.tasks
      → All (Covered []) (mark_each_missed u clock ts db).tasks
  unfolding mark_each_missed mark_missed cancel_pending_reminders
  mark_each_missed-Covered clock [] db h = h
  mark_each_missed-Covered clock (d ∷ ds) db h =
      mark_each_missed-Covered clock ds
        (cancel_pending_reminders u d.id [] (mark_missed u d.id clock db))
        (rw (set_status_tasks _ _ _ u d.id clock db) (
          All-update_where (Covered (d ∷ ds)) (Covered ds) _ (missed_task clock)
            (Covered-missed clock d ds) db.tasks h))

  Covered-later : (d : Task) (ds : List Task) (t : Task) → Covered ds t → Covered (d ∷ ds) t
  Covered-later d ds t (inl h) = inl (inr h)
  Covered-later d ds t (inr h) = inr h

  Covered-select :
      (t : Task) (rest ts : List Task) (b : Bool)
      → is_overdue u now t ≡ b
      → All (Covered rest) ts
      → All (Covered (if b then t ∷ rest else rest)) (t ∷ ts)
  Covered-select t rest ts true late h = (
    inl (inl (ground (arith, ==_refl t.id))),
    All-imp (Covered rest) (Covered (t ∷ rest)) (Covered-later t rest) ts h,
  )
  Covered-select t rest ts false fine h = (inr fine, h)

  overdue_rows-Covered : (l : List Task) → All (Covered (select (is_overdue u now) l)) l
  overdue_rows-Covered [] = tt
  overdue_rows-Covered (t ∷ ts) =
      Covered-select t (select (is_overdue u now) ts) ts (is_overdue u now t) refl
        (overdue_rows-Covered ts)

  none_left : (t : Task) → Covered [] t → is_overdue u now t ≡ false
  none_left t (inl h) = absurd h
  none_left t (inr h) = h

-- The deadline of the task has passed, and it is neither completed, cancelled nor missed.
abbrev pub IsPast : ℕ → Option ℕ → Type 0
IsPast now none = ⊥
IsPast now (some d) = d < now

abbrev pub IsOverdue : ℕ → ℕ → Task → Type 0
IsOverdue u now t =
    (t.user_id ≡ u)
    × IsPast now t.actual_deadline
    × (t.status ≢ TaskStatus.completed)
    × (t.status ≢ TaskStatus.cancelled)
    × (t.status ≢ TaskStatus.missed)

is_terminal_open :
    (s : TaskStatus)
    → s ≢ TaskStatus.completed
    → s ≢ TaskStatus.cancelled
    → s ≢ TaskStatus.missed
    → is_terminal s ≡ false
is_terminal_open TaskStatus.completed a b c = absurd (a refl)
is_terminal_open TaskStatus.cancelled a b c = absurd (b refl)
is_terminal_open TaskStatus.missed a b c = absurd (c refl)
is_terminal_open TaskStatus.discovered a b c = refl
is_terminal_open _ a b c = refl

overdue_found :
    (u now : ℕ) (t : Task) (o : Option ℕ)
    → t.actual_deadline ≡ o
    → IsPast now o
    → t.user_id ≡ u
    → is_terminal t.status ≡ false
    → is_overdue u now t ≡ true
overdue_found u now t none e past own live = elim past [ ]
overdue_found u now t (some d) e past own live = ground (arith, e, own, live)

not-IsOverdue : (u now : ℕ) (t : Task) → is_overdue u now t ≡ false → ¬ IsOverdue u now t
not-IsOverdue u now t fine h =
    let live = is_terminal_open t.status h.2 h.3 h.4 in
    let found = overdue_found u now t t.actual_deadline refl h.1 h.0 live in
    absurd (ground (arith, fine, found))

-- After the pass no task of the user is overdue at its moment: none with a deadline before it is other
-- than completed, cancelled or missed.
pub mark_overdue_tasks_as_missed_complete :
    (u now clock : ℕ) (db : Db)
    → All (λ t. ¬ IsOverdue u now t) (mark_overdue_tasks_as_missed u now clock db).1.tasks
unfolding mark_overdue_tasks_as_missed
mark_overdue_tasks_as_missed_complete u now clock db =
    let after = (mark_overdue_tasks_as_missed u now clock db).1 in
    All-imp (Covered u now []) (λ t. ¬ IsOverdue u now t)
      (λ t h. not-IsOverdue u now t (none_left u now t h)) after.tasks
      (mark_each_missed-Covered u now clock (select (is_overdue u now) db.tasks) db
        (overdue_rows-Covered u now db.tasks))
