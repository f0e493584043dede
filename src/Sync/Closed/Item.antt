-- ===== src/Sync/Closed/Item.antt =====
-- One item of a course under a relation that every statement keeps.
use ragra_reminder.Prelude.{
  ℕ, ◌+◌, Bool, true, false, Option, none, some, List, [], ◌∷◌, Bool-cases, inl, inr, Option-cases,
  ltb, if◌then◌else◌,
}
use ragra_reminder.Engine.{
  ReminderType, ReminderPlan, compute_reminder_plan, at_utc, new_assignment, deadline_changed,
}
use ragra_reminder.Store.{
  Db, SourceType, coursework, announcement, material, manual, TaskKind, for_deadline,
}
use ragra_reminder.Store.Upsert.{TaskUpsertResult, upsert_task_from_source}
use ragra_reminder.Store.Reminders.{cancel_pending_reminders}
use ragra_reminder.Sync.Types.{
  ClassroomItem, Outcome, answered, raised, Decision, Environment, RelevanceContext, SyncSummary,
}
use ragra_reminder.Sync.Items.{
  store_decision, evaluate_relevance, insert_plan, schedule_reminders, posted_at,
  announcement_alert_window, queue_feed_alert,
}
use ragra_reminder.Sync.Upsert.{
  source_item, alert_feed, plan_created, after_created, reschedule, replan, after_found,
  after_upsert, apply_upsert,
}
use ragra_reminder.Sync.Closed.{IsClosed}

module _ (u : ℕ) (R : Db → Db → Type 0) (closed : IsClosed u R) (env : Environment)
    (clock : ℕ) where
  pub store_decision_closed :
      (task_id : ℕ) (context : RelevanceContext) (d : Outcome Decision) (s : SyncSummary) (db : Db)
      → R db (store_decision env u task_id context clock d (s, db)).1
  store_decision_closed task_id context (raised exc) s db = closed.stays db
  store_decision_closed task_id context (answered d) s db =
      closed.sets_relevance task_id _ _ clock db

  pub evaluate_relevance_closed :
      (task_id : ℕ) (item : ClassroomItem) (context : Option RelevanceContext) (s : SyncSummary)
      (db : Db)
      → R db (evaluate_relevance env u task_id item context clock (s, db)).1
  unfolding evaluate_relevance
  evaluate_relevance_closed task_id item none s db = closed.stays db
  evaluate_relevance_closed task_id item (some context) s db =
      store_decision_closed task_id context _ s db

  pub insert_plan_closed :
      (task_id deadline : ℕ) (ps : List ReminderPlan) (db : Db)
      → R db (insert_plan u task_id deadline clock ps db)
  unfolding insert_plan
  insert_plan_closed task_id deadline [] db = closed.stays db
  insert_plan_closed task_id deadline (p ∷ ps) db =
      closed.follows db _ _ (closed.inserts_reminder task_id p.reminder_type _ _ clock db)
        (insert_plan_closed task_id deadline ps _)

  pub schedule_reminders_closed :
      (task_id deadline : ℕ) (db : Db) → R db (schedule_reminders u task_id deadline clock db).1
  unfolding schedule_reminders
  schedule_reminders_closed task_id deadline db =
      insert_plan_closed task_id deadline (compute_reminder_plan (at_utc deadline) (at_utc clock))
        db

  pub feed_alert_closed :
      (task_id : ℕ) (item : ClassroomItem) (t : ReminderType) (db : Db)
      → R db (queue_feed_alert env u task_id item t clock db)
  unfolding queue_feed_alert
  feed_alert_closed task_id item t db = elim (Option-cases (posted_at env item)) [
    | inl unknown_time ↦ rw (unknown_time, queue_feed_alert) (closed.stays db)
    | inr (posted, known) ↦ elim (Bool-cases (ltb (posted + announcement_alert_window) clock)) [
      | inl stale ↦ rw (known, queue_feed_alert, stale) (closed.stays db)
      | inr recent ↦
          rw (known, queue_feed_alert, recent) (closed.inserts_reminder task_id t clock _ clock db)
    ]
  ]

  pub alert_feed_closed :
      (task_id : ℕ) (source_type : SourceType) (item : ClassroomItem) (db : Db)
      → R db (alert_feed env u task_id source_type item clock db)
  alert_feed_closed task_id coursework item db = closed.stays db
  alert_feed_closed task_id announcement item db = feed_alert_closed task_id item _ db
  alert_feed_closed task_id material item db = feed_alert_closed task_id item _ db
  alert_feed_closed task_id manual item db = closed.stays db

  pub plan_created_closed :
      (task_id : ℕ) (item : ClassroomItem) (kind : TaskKind) (deadline : Option ℕ) (s : SyncSummary)
      (db : Db)
      → R db (plan_created u task_id item kind deadline clock s db).1
  unfolding plan_created
  plan_created_closed task_id item kind none s db = closed.stays db
  plan_created_closed task_id item kind (some deadline) s db =
      schedule_reminders_closed task_id deadline db

  pub reschedule_closed :
      (task_id : ℕ) (deadline : Option ℕ) (db : Db) → R db (reschedule u task_id deadline clock db)
  reschedule_closed task_id none db = closed.stays db
  reschedule_closed task_id (some deadline) db = schedule_reminders_closed task_id deadline db

  pub replan_closed :
      (task_id : ℕ) (deadline : Option ℕ) (db : Db) → R db (replan u task_id deadline clock db)
  unfolding replan
  replan_closed task_id deadline db =
      let kept = cancel_pending_reminders u task_id (new_assignment ∷ []) db in
      closed.follows db kept _ (closed.cancels_pending task_id (new_assignment ∷ []) db) (
        closed.follows kept _ _
          (closed.inserts_reminder task_id deadline_changed clock (for_deadline deadline) clock
            kept)
          (reschedule_closed task_id deadline _))

  pub after_found_closed :
      (item : ClassroomItem) (result : TaskUpsertResult) (s : SyncSummary) (db : Db)
      → R db (after_found u item result clock s db).1
  unfolding after_found
  after_found_closed item result s db = elim (Bool-cases result.deadline_changed) [
    | inl moved ↦ rw moved (replan_closed result.task_id result.new_deadline db)
    | inr same ↦ rw same (closed.stays db)
  ]

  pub after_created_closed :
      (task_id : ℕ) (source_type : SourceType) (item : ClassroomItem) (kind : TaskKind)
      (deadline : Option ℕ) (s : SyncSummary) (db : Db)
      → R db (after_created env u task_id source_type item kind deadline clock s db).1
  unfolding after_created
  after_created_closed task_id source_type item kind deadline s db =
      closed.follows db _ _ (alert_feed_closed task_id source_type item db)
        (plan_created_closed task_id item kind deadline _ _)

  -- Either branch, whichever the upsert took.
  pub branch_closed :
      (b : Bool) (x y : SyncSummary × Db) (db : Db)
      → R db x.1
      → R db y.1
      → R db (if b then x else y).1
  branch_closed true x y db h k = h
  branch_closed false x y db h k = k

  pub after_upsert_closed :
      (source_type : SourceType) (item : ClassroomItem) (kind : TaskKind) (deadline : Option ℕ)
      (result : TaskUpsertResult) (s : SyncSummary) (db : Db)
      → R db (after_upsert env u source_type item kind deadline result clock (s, db)).1
  after_upsert_closed source_type item kind deadline result s db =
      branch_closed result.was_created _ _ db
        (after_created_closed result.task_id source_type item kind deadline s db)
        (after_found_closed item result s db)

  pub apply_upsert_closed :
      (course_id : ℕ) (source_type : SourceType) (item : ClassroomItem) (kind : TaskKind)
      (deadline : Option ℕ) (context : Option RelevanceContext) (s : SyncSummary) (db : Db)
      → R db (apply_upsert env u course_id source_type item kind deadline context clock (s, db)).1
  unfolding apply_upsert
  apply_upsert_closed course_id source_type item kind deadline context s db =
      let up =
        upsert_task_from_source u course_id (source_item source_type item kind deadline) clock db in
      let judged = evaluate_relevance env u up.0.task_id item context clock (s, up.1) in
      closed.follows db up.1 _ (closed.upserts_task course_id _ clock db) (
        closed.follows up.1 judged.1 _ (evaluate_relevance_closed up.0.task_id item context s up.1)
          (after_upsert_closed source_type item kind deadline up.0 judged.0 judged.1))
