-- ===== src/Sync/Items.antt =====
-- One item of a Classroom course, in ragra/sync/classroom_sync.py: its task, its relevance and its
-- reminders.
use mathlib.Core.Option
use ragra_reminder.Prelude.{
  ℕ, ◌+◌, ◌*◌, not, ◌||◌, Option, none, some, List, [], ◌∷◌, ◌++◌, Text, codes, ltb, if◌then◌else◌,
  is_empty, take, map,
}
use ragra_reminder.Engine.{
  ReminderType, ReminderPlan, type_eq, at_utc, day, new_assignment, new_announcement, new_material,
  compute_reminder_plan,
}
use ragra_reminder.Store.{
  Db, SourceType, TaskKind, is_actionable, Relevance, ReminderKey, task_anchored, for_deadline,
  coursework, announcement, material, manual,
}
use ragra_reminder.Store.Tasks.{set_task_relevance}
use ragra_reminder.Store.Reminders.{insert_reminder_if_absent, has_reminder_of_type}
use ragra_reminder.Store.Manual.{title_or}
use ragra_reminder.Sync.Types.{
  ClassroomItem, Outcome, answered, raised, Decision, Environment, RelevanceContext,
  relevance_failed, SyncSummary,
}

-- `x or y or ""` of two optional texts
abbrev pub either_text : Option Text → Option Text → Text
either_text x y = title_or x (title_or y [])

-- `x or y`
abbrev pub first_given : Option Text → Option Text → Option Text
first_given none y = y
first_given (some x) y = if is_empty x then y else some x

abbrev pub item_title : ClassroomItem → Text
item_title item =
    title_or item.title (title_or (Option.map (take 120) item.text) (codes "(untitled)"))

abbrev pub decision_text : Decision → Text
decision_text Decision.relevant = codes "relevant"
decision_text Decision.other_section = codes "other_section"
decision_text Decision.unknown = codes "unknown"

abbrev pub decision_value : Decision → Relevance
decision_value Decision.relevant = Relevance.relevant
decision_value Decision.other_section = Relevance.other_section
decision_value Decision.unknown = Relevance.unknown

-- `None`, or `f"{decision.value} for course {course_name!r}"`
abbrev pub decision_reason : Environment → Text → Decision → Option Text
decision_reason env course_name Decision.relevant = none
decision_reason env course_name d =
    some (decision_text d ++ (codes " for course " ++ env.repr course_name))

abbrev pub count_other : Decision → ℕ
count_other Decision.other_section = 1
count_other _ = 0

abbrev pub store_decision :
    Environment
    → ℕ
    → ℕ
    → RelevanceContext
    → ℕ
    → Outcome Decision
    → SyncSummary × Db
    → SyncSummary × Db
store_decision env user_id task_id context clock (raised exc) (summary, db) =
    (record summary { warnings = summary.warnings ++ relevance_failed task_id exc ∷ [] }, db)
store_decision env user_id task_id context clock (answered decision) (summary, db) = (
  record summary {
    relevance_evaluated = summary.relevance_evaluated + 1;
    relevance_other_section = summary.relevance_other_section + count_other decision;
  },
  (set_task_relevance user_id task_id (decision_value decision)
      (decision_reason env context.course_name decision) clock db).1,
)

-- `_evaluate_relevance`
unfoldable pub evaluate_relevance :
    Environment
    → ℕ
    → ℕ
    → ClassroomItem
    → Option RelevanceContext
    → ℕ
    → SyncSummary × Db
    → SyncSummary × Db
evaluate_relevance env user_id task_id item none clock state = state
evaluate_relevance env user_id task_id item (some context) clock state =
    store_decision env user_id task_id context clock
      (context.is_relevant (either_text item.title item.text)
        (either_text item.description item.text) context.course_name)
      state

-- `_idempotency_key`
abbrev pub idempotency_key : ℕ → ReminderType → ℕ → ReminderKey
idempotency_key task_id reminder_type actual_deadline = record {
  task_id = task_id;
  reminder_type = reminder_type;
  tail =
      if type_eq reminder_type new_assignment
      then task_anchored
      else for_deadline (some actual_deadline);
}

abbrev pub insert_planned : ℕ → ℕ → ℕ → ℕ → ReminderPlan → Db → Db
insert_planned user_id task_id actual_deadline clock p db =
    (insert_reminder_if_absent user_id task_id p.reminder_type p.scheduled_for.utc
      (idempotency_key task_id p.reminder_type actual_deadline) clock db).1

unfoldable pub insert_plan : ℕ → ℕ → ℕ → ℕ → List ReminderPlan → Db → Db
insert_plan user_id task_id actual_deadline clock [] db = db
insert_plan user_id task_id actual_deadline clock (p ∷ ps) db =
    insert_plan user_id task_id actual_deadline clock ps
      (insert_planned user_id task_id actual_deadline clock p db)

-- `_schedule_reminders`: both callers discover the task now, and Classroom's deadlines are in UTC.
unfoldable pub schedule_reminders : ℕ → ℕ → ℕ → ℕ → Db → List ReminderType × Db
unfolding insert_plan
schedule_reminders user_id task_id actual_deadline clock db =
    let plan = compute_reminder_plan (at_utc actual_deadline) (at_utc clock) in
    (map (λ p. p.reminder_type) plan, insert_plan user_id task_id actual_deadline clock plan db)

-- `_assert_discovery_notification`
unfoldable pub assert_discovery_notification :
    ℕ → ℕ → TaskKind → List ReminderType → Text → SyncSummary → Db → SyncSummary
assert_discovery_notification user_id task_id kind planned title summary db =
    if not (is_actionable kind)
      || (is_empty planned || has_reminder_of_type user_id task_id new_assignment db)
    then summary
    else record summary {
      missing_discovery_notification =
          summary.missing_discovery_notification
          ++ record { task_id = task_id; title = take 40 title } ∷ [];
    }

abbrev pub announcement_alert_window : ℕ
announcement_alert_window = 3 * day

-- `_FEED_ALERT_TYPES`
abbrev pub feed_alert_type : SourceType → Option ReminderType
feed_alert_type announcement = some new_announcement
feed_alert_type material = some new_material
feed_alert_type coursework = none
feed_alert_type manual = none

abbrev pub posted_at : Environment → ClassroomItem → Option ℕ
posted_at env item = elim item.creation_time [
  | none ↦ none
  | some posted ↦ if is_empty posted then none else env.from_iso posted
]

-- `_queue_feed_alert`
unfoldable pub queue_feed_alert : Environment → ℕ → ℕ → ClassroomItem → ReminderType → ℕ → Db → Db
queue_feed_alert env user_id task_id item reminder_type clock db = elim (posted_at env item) [
  | none ↦ db
  | some posted ↦
      if ltb (posted + announcement_alert_window) clock
      then db
      else (insert_reminder_if_absent user_id task_id reminder_type clock
          (record { task_id = task_id; reminder_type = reminder_type; tail = task_anchored }) clock
          db).1
]
