-- ===== src/Sync/Complete.antt =====
-- Discovery notifications in the sync of one item (ragra/sync/classroom_sync.py).
use ragra_reminder.Prelude.{
  ℕ, ◌≡◌, refl, ap, ◌∙◌, ◌+◌, Bool, true, false, Option, none, some, List, [], ◌∷◌, arith, All,
  if◌then◌else◌,
}
use ragra_reminder.Store.{Db, SourceType, TaskKind}
use ragra_reminder.Store.Upsert.{TaskUpsertResult, upsert_task_from_source}
use ragra_reminder.Store.Steps.Keys.{IsKeyed, Evolves-IsKeyed}
use ragra_reminder.Sync.Types.{
  ClassroomItem, Outcome, answered, raised, Decision, Environment, RelevanceContext,
  MissingDiscovery, SyncSummary,
}
use ragra_reminder.Sync.Items.{store_decision, evaluate_relevance}
use ragra_reminder.Sync.Upsert.{
  source_item, alert_feed, plan_created, after_created, after_found, apply_upsert,
}
use ragra_reminder.Sync.Sources.{kind_of, deadline_of, sync_items}
use ragra_reminder.Sync.Reminders.{Evolution, Evolution-IsClosed}
use ragra_reminder.Sync.Closed.Item.{
  evaluate_relevance_closed, alert_feed_closed, apply_upsert_closed,
}
use ragra_reminder.Sync.Discovery.{schedule_reminders_complete}

abbrev pub missing : SyncSummary → List MissingDiscovery
missing s = s.missing_discovery_notification

module _ (u : ℕ) (env : Environment) (clock : ℕ) where
  pub keeps : (a b : Db) → Evolution u a b → All IsKeyed a.reminders → All IsKeyed b.reminders
  keeps a b h k = Evolves-IsKeyed u h k

  missing-store_decision :
      (task_id : ℕ) (context : RelevanceContext) (d : Outcome Decision) (s : SyncSummary) (db : Db)
      → missing (store_decision env u task_id context clock d (s, db)).0 ≡ missing s
  missing-store_decision task_id context (raised exc) s db = refl
  missing-store_decision task_id context (answered d) s db = refl

  missing-evaluate_relevance :
      (task_id : ℕ) (item : ClassroomItem) (context : Option RelevanceContext) (s : SyncSummary)
      (db : Db)
      → missing (evaluate_relevance env u task_id item context clock (s, db)).0 ≡ missing s
  unfolding evaluate_relevance
  missing-evaluate_relevance task_id item none s db = refl
  missing-evaluate_relevance task_id item (some context) s db =
      missing-store_decision task_id context _ s db

  missing-after_found :
      (item : ClassroomItem) (result : TaskUpsertResult) (s : SyncSummary) (db : Db)
      → missing (after_found u item result clock s db).0 ≡ missing s
  unfolding after_found
  missing-after_found item result s db = ground arith

  missing-plan_created :
      (task_id : ℕ) (item : ClassroomItem) (kind : TaskKind) (deadline : Option ℕ) (s : SyncSummary)
      (db : Db)
      → All IsKeyed db.reminders
      → missing (plan_created u task_id item kind deadline clock s db).0 ≡ missing s
  unfolding plan_created
  missing-plan_created task_id item kind none s db k = refl
  missing-plan_created task_id item kind (some deadline) s db k =
      ap missing (schedule_reminders_complete u task_id clock kind deadline _ s db k)

  missing-after_created :
      (task_id : ℕ) (source_type : SourceType) (item : ClassroomItem) (kind : TaskKind)
      (deadline : Option ℕ) (s : SyncSummary) (db : Db)
      → All IsKeyed db.reminders
      → missing (after_created env u task_id source_type item kind deadline clock s db).0
        ≡ missing s
  unfolding after_created
  missing-after_created task_id source_type item kind deadline s db k =
      let fed = alert_feed env u task_id source_type item clock db in
      missing-plan_created task_id item kind deadline
        (record s { tasks_created = s.tasks_created + 1 }) fed
        (keeps db fed
          (alert_feed_closed u (Evolution u) (Evolution-IsClosed u) env clock task_id source_type
            item db)
          k)

  missing_branch :
      (b : Bool) (x y : SyncSummary × Db) (l : List MissingDiscovery)
      → missing x.0 ≡ l
      → missing y.0 ≡ l
      → missing (if b then x else y).0 ≡ l
  missing_branch true x y l h k = h
  missing_branch false x y l h k = k

  -- One item adds no report.
  pub missing-apply_upsert :
      (course_id : ℕ) (source_type : SourceType) (item : ClassroomItem) (kind : TaskKind)
      (deadline : Option ℕ) (context : Option RelevanceContext) (s : SyncSummary) (db : Db)
      → All IsKeyed db.reminders
      → missing
          (apply_upsert env u course_id source_type item kind deadline context clock (s, db)).0
        ≡ missing s
  unfolding apply_upsert
  missing-apply_upsert course_id source_type item kind deadline context s db k =
      let up =
        upsert_task_from_source u course_id (source_item source_type item kind deadline) clock db in
      let judged = evaluate_relevance env u up.0.task_id item context clock (s, up.1) in
      let keyed =
        keeps up.1 judged.1
          (evaluate_relevance_closed u (Evolution u) (Evolution-IsClosed u) env clock up.0.task_id
            item context s up.1)
          (keeps db up.1
            ((Evolution-IsClosed u).upserts_task course_id
              (source_item source_type item kind deadline) clock db)
            k) in
      missing_branch up.0.was_created _ _ (missing judged.0)
        (missing-after_created up.0.task_id source_type item kind deadline judged.0 judged.1 keyed)
        (missing-after_found item up.0 judged.0 judged.1)
      ∙ missing-evaluate_relevance up.0.task_id item context s up.1

  pub missing-sync_items :
      (course_id : ℕ) (source_type : SourceType) (context : Option RelevanceContext)
      (items : List ClassroomItem) (s : SyncSummary) (db : Db)
      → All IsKeyed db.reminders
      → missing (sync_items env u course_id source_type context clock items (s, db)).0 ≡ missing s
  unfolding sync_items
  missing-sync_items course_id source_type context [] s db k = refl
  missing-sync_items course_id source_type context (item ∷ items) s db k =
      let one =
        apply_upsert env u course_id source_type item (kind_of source_type)
          (deadline_of source_type item) context clock (s, db) in
      missing-sync_items course_id source_type context items one.0 one.1 (
        keeps db one.1
          (apply_upsert_closed u (Evolution u) (Evolution-IsClosed u) env clock course_id
            source_type item (kind_of source_type) (deadline_of source_type item) context s db)
          k)
      ∙ missing-apply_upsert course_id source_type item (kind_of source_type)
          (deadline_of source_type item) context s db k
