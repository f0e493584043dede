-- ===== src/Sync/Upsert.antt =====
-- `_apply_upsert` of ragra/sync/classroom_sync.py: one item of a course, from Classroom to the store.
use ragra_reminder.Prelude.{
  ℕ, ◌+◌, not, ◌||◌, Option, none, some, [], ◌∷◌, ◌++◌, is_empty, if◌then◌else◌,
}
use ragra_reminder.Engine.{new_assignment, deadline_changed}
use ragra_reminder.Store.{Db, SourceType, TaskKind, for_deadline}
use ragra_reminder.Store.Upsert.{SourceItem, TaskUpsertResult, upsert_task_from_source}
use ragra_reminder.Store.Reminders.{insert_reminder_if_absent, cancel_pending_reminders}
use ragra_reminder.Store.Manual.{title_or}
use ragra_reminder.Sync.Types.{ClassroomItem, Environment, RelevanceContext, SyncSummary}
use ragra_reminder.Sync.Items.{
  first_given, item_title, evaluate_relevance, schedule_reminders, assert_discovery_notification,
  feed_alert_type, queue_feed_alert,
}

abbrev pub source_item : SourceType → ClassroomItem → TaskKind → Option ℕ → SourceItem
source_item source_type item kind actual_deadline = record {
  source_type = source_type;
  external_id = item.id;
  title = item_title item;
  description = first_given item.description item.text;
  link = item.alternate_link;
  kind = kind;
  actual_deadline = actual_deadline;
  source_published_at = item.creation_time;
  source_updated_at = item.update_time;
}

-- `if source_type in _FEED_ALERT_TYPES:`
abbrev pub alert_feed : Environment → ℕ → ℕ → SourceType → ClassroomItem → ℕ → Db → Db
alert_feed env user_id task_id source_type item clock db = elim (feed_alert_type source_type) [
  | none ↦ db
  | some reminder_type ↦ queue_feed_alert env user_id task_id item reminder_type clock db
]

-- `if actual_deadline:` of a created task
unfoldable pub plan_created :
    ℕ → ℕ → ClassroomItem → TaskKind → Option ℕ → ℕ → SyncSummary → Db → SyncSummary × Db
plan_created user_id task_id item kind none clock summary db = (summary, db)
plan_created user_id task_id item kind (some actual_deadline) clock summary db =
    let (planned, db') = schedule_reminders user_id task_id actual_deadline clock db in
    (
      assert_discovery_notification user_id task_id kind planned (title_or item.title []) summary
          db',
      db',
    )

-- The branch `if result.created:`
unfoldable pub after_created :
    Environment
    → ℕ
    → ℕ
    → SourceType
    → ClassroomItem
    → TaskKind
    → Option ℕ
    → ℕ
    → SyncSummary
    → Db
    → SyncSummary × Db
unfolding plan_created
after_created env user_id task_id source_type item kind actual_deadline clock summary db =
    plan_created user_id task_id item kind actual_deadline clock
      (record summary { tasks_created = summary.tasks_created + 1 })
      (alert_feed env user_id task_id source_type item clock db)

-- `if result.new_deadline:`
abbrev pub reschedule : ℕ → ℕ → Option ℕ → ℕ → Db → Db
reschedule user_id task_id none clock db = db
reschedule user_id task_id (some new_deadline) clock db =
    (schedule_reminders user_id task_id new_deadline clock db).1

-- The stale countdown goes, the change is announced, the new countdown comes.
unfoldable pub replan : ℕ → ℕ → Option ℕ → ℕ → Db → Db
replan user_id task_id new_deadline clock db =
    reschedule user_id task_id new_deadline clock
      (insert_reminder_if_absent user_id task_id deadline_changed clock
        (record {
          task_id = task_id;
          reminder_type = deadline_changed;
          tail = for_deadline new_deadline;
        })
        clock (cancel_pending_reminders user_id task_id (new_assignment ∷ []) db)).1

-- What follows an upsert that found the task.
unfoldable pub after_found :
    ℕ → ClassroomItem → TaskUpsertResult → ℕ → SyncSummary → Db → SyncSummary × Db
unfolding replan
after_found user_id item result clock summary db =
    let counted =
      if result.deadline_changed || not (is_empty result.other_fields_changed)
      then record summary { tasks_updated = summary.tasks_updated + 1 }
      else summary in
    if result.deadline_changed
    then (
      record counted {
        deadlines_changed =
            counted.deadlines_changed
            ++ record {
              task_id = result.task_id;
              title = item.title;
              old_deadline = result.old_deadline;
              new_deadline = result.new_deadline;
            }
              ∷ [];
      },
      replan user_id result.task_id result.new_deadline clock db,
    )
    else (counted, db)

abbrev pub after_upsert :
    Environment
    → ℕ
    → SourceType
    → ClassroomItem
    → TaskKind
    → Option ℕ
    → TaskUpsertResult
    → ℕ
    → SyncSummary × Db
    → SyncSummary × Db
after_upsert env user_id source_type item kind actual_deadline result clock (summary, db) =
    if result.was_created
    then after_created env user_id result.task_id source_type item kind actual_deadline clock
        summary db
    else after_found user_id item result clock summary db

unfoldable pub apply_upsert :
    Environment
    → ℕ
    → ℕ
    → SourceType
    → ClassroomItem
    → TaskKind
    → Option ℕ
    → Option RelevanceContext
    → ℕ
    → SyncSummary × Db
    → SyncSummary × Db
unfolding after_created after_found
apply_upsert env user_id course_id source_type item kind actual_deadline context clock
      (summary, db) =
    let (result, db') =
      upsert_task_from_source user_id course_id (source_item source_type item kind actual_deadline)
        clock db in
    after_upsert env user_id source_type item kind actual_deadline result clock
      (evaluate_relevance env user_id result.task_id item context clock (summary, db'))
