-- ===== src/Store/Tenant/Passes.antt =====
-- The upsert of a task and the passes over a user's tasks, for the accounts that they do not concern.
use ragra_reminder.Prelude.{
  ℕ, ◌≢◌, refl, Option, none, some, List, [], ◌∷◌, Text, arith, Bool-cases, inl, inr, ltb, Bool,
  true, false, not, ◌+◌, select, if◌then◌else◌, count_where,
}
use ragra_reminder.Store.Rows.{Task, SourceType}
use ragra_reminder.Store.State.{Db}
use ragra_reminder.Store.History.{is_task}
use ragra_reminder.Store.Upsert.{
  SourceItem, Tracked, new_task, insert_source_task, record_changes, tracked_fields, reconcile_task,
  reconciled, is_unchanged_source, upsert_over, upsert_task_from_source,
}
use ragra_reminder.Store.Tasks.{
  is_overdue, is_live_in_source, is_seen, mark_each_missed, mark_overdue_tasks_as_missed,
  cancel_each, cancel_tasks_missing_from_source,
}
use ragra_reminder.Store.Reminders.{
  cancel_pending_reminders, is_pending_of, overdue_at_discovery, cancel_backlog,
  cancel_backlog_reminders_for_already_overdue_tasks, is_stray, cancelled_reminder,
  cancel_stray_reminders_for_terminal_tasks,
}
use ragra_reminder.Store.Tenant.{SameFor, SameFor-refl, SameFor-trans}
use ragra_reminder.Store.Tenant.Tables.{
  unseen_update, unseen_insert, SameFor-new_task, SameFor-reminders,
}
use ragra_reminder.Store.Tenant.TaskWrites.{
  record_history-SameFor, update_tasks-SameFor, mark_missed-SameFor,
  cancel_task_from_source-SameFor,
}
use ragra_reminder.Store.Tenant.Operations.{cancel_pending_reminders-SameFor}

module _ (u v : ℕ) (other : u ≢ v) where
  insert_source_task-SameFor :
      (course_id : ℕ) (item : SourceItem) (clock : ℕ) (db : Db)
      → SameFor v db (insert_source_task u course_id item clock db).1
  unfolding insert_source_task
  insert_source_task-SameFor course_id item clock db =
      SameFor-trans v db _ _
        (SameFor-new_task v db _ _ (
          unseen_insert (λ t. t.user_id) u v other db.tasks
            (new_task db.next_task u course_id item clock) refl))
        (record_history-SameFor u v other db.next_task _ none _ clock _)

  record_changes-SameFor :
      (task_id clock : ℕ) (fs : List Tracked) (db : Db)
      → SameFor v db (record_changes u task_id clock fs db)
  unfolding record_changes
  record_changes-SameFor task_id clock [] db = SameFor-refl v db
  record_changes-SameFor task_id clock (f ∷ fs) db = elim (Bool-cases f.differs) [
    | inl differs ↦ rw differs (
        SameFor-trans v db _ _ (record_history-SameFor u v other task_id _ _ _ clock db)
          (record_changes-SameFor task_id clock fs _))
    | inr same ↦ rw same (record_changes-SameFor task_id clock fs db)
  ]

  reconcile_task-SameFor :
      (existing : Task) (item : SourceItem) (clock : ℕ) (db : Db)
      → SameFor v db (reconcile_task u existing item clock db).1
  unfolding reconcile_task
  reconcile_task-SameFor existing item clock db =
      SameFor-trans v db _ _
        (record_changes-SameFor existing.id clock (tracked_fields existing item) db)
        (update_tasks-SameFor u v other (is_task u existing.id) (reconciled item clock)
          (λ t h. ground arith) _)

  upsert_over-SameFor :
      (course_id : ℕ) (item : SourceItem) (clock : ℕ) (row : Option Task) (db : Db)
      → SameFor v db (upsert_over u course_id item clock row db).1
  unfolding upsert_over
  upsert_over-SameFor course_id item clock none db =
      insert_source_task-SameFor course_id item clock db
  upsert_over-SameFor course_id item clock (some existing) db =
      elim (Bool-cases (is_unchanged_source item existing)) [
        | inl same ↦ rw same (SameFor-refl v db)
        | inr differs ↦ rw differs (reconcile_task-SameFor existing item clock db)
      ]

  pub upsert_task_from_source-SameFor :
      (course_id : ℕ) (item : SourceItem) (clock : ℕ) (db : Db)
      → SameFor v db (upsert_task_from_source u course_id item clock db).1
  unfolding upsert_task_from_source
  upsert_task_from_source-SameFor course_id item clock db =
      upsert_over-SameFor course_id item clock _ db

  mark_each_missed-SameFor :
      (clock : ℕ) (ts : List Task) (db : Db) → SameFor v db (mark_each_missed u clock ts db)
  unfolding mark_each_missed
  mark_each_missed-SameFor clock [] db = SameFor-refl v db
  mark_each_missed-SameFor clock (t ∷ ts) db =
      SameFor-trans v db _ _ (mark_missed-SameFor u v other t.id clock db) (
        SameFor-trans v _ _ _ (cancel_pending_reminders-SameFor u v other t.id [] _)
          (mark_each_missed-SameFor clock ts _))

  pub mark_overdue_tasks_as_missed-SameFor :
      (now clock : ℕ) (db : Db) → SameFor v db (mark_overdue_tasks_as_missed u now clock db).1
  unfolding mark_overdue_tasks_as_missed
  mark_overdue_tasks_as_missed-SameFor now clock db =
      mark_each_missed-SameFor clock (select (is_overdue u now) db.tasks) db

  cancel_each-SameFor :
      (clock : ℕ) (ts : List Task) (db : Db) → SameFor v db (cancel_each u clock ts db)
  unfolding cancel_each
  cancel_each-SameFor clock [] db = SameFor-refl v db
  cancel_each-SameFor clock (t ∷ ts) db =
      SameFor-trans v db _ _ (cancel_task_from_source-SameFor u v other t.id clock db) (
        SameFor-trans v _ _ _ (cancel_pending_reminders-SameFor u v other t.id [] _)
          (cancel_each-SameFor clock ts _))

  pub cancel_tasks_missing_from_source-SameFor :
      (course_id : ℕ) (source_type : SourceType) (seen : List Text) (clock : ℕ) (db : Db)
      → SameFor v db (cancel_tasks_missing_from_source u course_id source_type seen clock db).1
  unfolding cancel_tasks_missing_from_source
  cancel_tasks_missing_from_source-SameFor course_id source_type seen clock db =
      cancel_each-SameFor clock
        (select (λ t. not (is_seen seen t.external_id))
          (select (is_live_in_source u course_id source_type) db.tasks))
        db

  cleared-SameFor :
      (b : Bool) (task_id : ℕ) (db : Db)
      → SameFor v db (if b then cancel_pending_reminders u task_id [] db else db)
  cleared-SameFor true task_id db = cancel_pending_reminders-SameFor u v other task_id [] db
  cleared-SameFor false task_id db = SameFor-refl v db

  cancel_backlog-SameFor :
      (ts : List Task) (total : ℕ) (db : Db) → SameFor v db (cancel_backlog u ts total db).1
  unfolding cancel_backlog
  cancel_backlog-SameFor [] total db = SameFor-refl v db
  cancel_backlog-SameFor (t ∷ ts) total db =
      let left = count_where (is_pending_of u t.id) db.reminders in
      SameFor-trans v db (if ltb 0 left then cancel_pending_reminders u t.id [] db else db) _
        (cleared-SameFor (ltb 0 left) t.id db) (cancel_backlog-SameFor ts (total + left) _)

  pub cancel_backlog_reminders-SameFor :
      (db : Db) → SameFor v db (cancel_backlog_reminders_for_already_overdue_tasks u db).1
  unfolding cancel_backlog_reminders_for_already_overdue_tasks
  cancel_backlog_reminders-SameFor db =
      cancel_backlog-SameFor (select (overdue_at_discovery u) db.tasks) 0 db

  pub cancel_stray_reminders-SameFor :
      (db : Db) → SameFor v db (cancel_stray_reminders_for_terminal_tasks u db).1
  unfolding cancel_stray_reminders_for_terminal_tasks
  cancel_stray_reminders-SameFor db = SameFor-reminders v db _ (
      unseen_update (λ r. r.user_id) u v other (is_stray u db.tasks) cancelled_reminder
        (λ r h. ground arith) db.reminders)
