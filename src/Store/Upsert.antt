-- ===== src/Store/Upsert.antt =====
-- `upsert_task_from_source` of ragra/db/repo.py: what Classroom says about one item.
use ragra_reminder.Prelude.{
  ℕ, suc, Bool, true, false, not, ◌&&◌, Option, none, some, List, [], ◌∷◌, ◌++◌, Text, text_eq,
  ◌==◌, option_eq, if◌then◌else◌, is_some, select, fetchone, update_where,
}
use mathlib.Core.Option
use ragra_reminder.Store.Rows.{
  Task, TaskKind, TaskStatus, SourceType, source_eq, HistoryField, HistoryValue, text_value,
  stamp_value, created_field, title_field, description_field, link_field, actual_deadline_field,
  is_actionable, action_required, discovered, default_relevant,
}
use ragra_reminder.Store.State.{Db}
use ragra_reminder.Store.History.{record_history, is_task, column_is}

-- The arguments of the call, but for the user and the course.
pub record SourceItem : Type 0 where
  pub source_type : SourceType
  pub external_id : Text
  pub title : Text
  pub description : Option Text
  pub link : Option Text
  pub kind : TaskKind
  pub actual_deadline : Option ℕ
  pub source_published_at : Option Text
  pub source_updated_at : Option Text

pub record TaskUpsertResult : Type 0 where
  pub task_id : ℕ
  pub was_created : Bool
  pub deadline_changed : Bool
  pub old_deadline : Option ℕ
  pub new_deadline : Option ℕ
  pub other_fields_changed : List HistoryField

abbrev pub is_source_task : ℕ → ℕ → SourceType → Text → Task → Bool
is_source_task user_id course_id source_type external_id t =
    t.user_id == user_id
    && t.course_id == course_id
    && source_eq t.source_type source_type
    && column_is t.external_id external_id

unfoldable pub get_task_by_source : ℕ → ℕ → SourceType → Text → Db → Option Task
get_task_by_source user_id course_id source_type external_id db =
    fetchone (select (is_source_task user_id course_id source_type external_id) db.tasks)

abbrev pub initial_status : TaskKind → TaskStatus
initial_status kind = if is_actionable kind then action_required else discovered

abbrev pub new_task : ℕ → ℕ → ℕ → SourceItem → ℕ → Task
new_task id user_id course_id item clock = record {
  id = id;
  user_id = user_id;
  course_id = course_id;
  source_type = item.source_type;
  external_id = some item.external_id;
  title = item.title;
  description = item.description;
  link = item.link;
  kind = item.kind;
  status = initial_status item.kind;
  actual_deadline = item.actual_deadline;
  personal_deadline = none;
  source_published_at = item.source_published_at;
  source_updated_at = item.source_updated_at;
  completed_at = none;
  missed_at = none;
  cancelled_at = none;
  created_at = clock;
  updated_at = clock;
  relevance = default_relevant;
  relevance_reason = none;
  relevance_computed_at = none;
  parent_task_id = none;
}

unfoldable pub insert_source_task : ℕ → ℕ → SourceItem → ℕ → Db → TaskUpsertResult × Db
insert_source_task user_id course_id item clock db = (
  record {
    task_id = db.next_task;
    was_created = true;
    deadline_changed = false;
    old_deadline = none;
    new_deadline = none;
    other_fields_changed = [];
  },
  record_history user_id db.next_task created_field none (some (text_value item.title)) clock
      (record db {
        tasks = db.tasks ++ new_task db.next_task user_id course_id item clock ∷ [];
        next_task = suc db.next_task;
      }),
)

-- One tracked column: its name, whether it differs, and the two values for the audit trail.
pub record Tracked : Type 0 where
  pub field_name : HistoryField
  pub differs : Bool
  pub old_value : Option HistoryValue
  pub new_value : Option HistoryValue

abbrev pub title_differs : Task → SourceItem → Bool
title_differs t item = not (text_eq t.title item.title)

abbrev pub description_differs : Task → SourceItem → Bool
description_differs t item = not (option_eq text_eq t.description item.description)

abbrev pub link_differs : Task → SourceItem → Bool
link_differs t item = not (option_eq text_eq t.link item.link)

abbrev pub deadline_differs : Task → SourceItem → Bool
deadline_differs t item = not (option_eq ◌==◌ t.actual_deadline item.actual_deadline)

-- The columns of `_TRACKED_FIELDS`, in order.
abbrev pub tracked_fields : Task → SourceItem → List Tracked
tracked_fields t item =
    record {
      field_name = title_field;
      differs = title_differs t item;
      old_value = some (text_value t.title);
      new_value = some (text_value item.title);
    }
    ∷ record {
      field_name = description_field;
      differs = description_differs t item;
      old_value = Option.map text_value t.description;
      new_value = Option.map text_value item.description;
    }
    ∷ record {
      field_name = link_field;
      differs = link_differs t item;
      old_value = Option.map text_value t.link;
      new_value = Option.map text_value item.link;
    }
    ∷ record {
      field_name = actual_deadline_field;
      differs = deadline_differs t item;
      old_value = Option.map stamp_value t.actual_deadline;
      new_value = Option.map stamp_value item.actual_deadline;
    }
    ∷ []

-- The loop over the tracked columns: one history row for each that differs.
unfoldable pub record_changes : ℕ → ℕ → ℕ → List Tracked → Db → Db
record_changes user_id task_id clock [] db = db
record_changes user_id task_id clock (f ∷ fs) db = record_changes user_id task_id clock fs (
    if f.differs
    then record_history user_id task_id f.field_name f.old_value f.new_value clock db
    else db)

-- `[f for f in changed if f != "actual_deadline"]`
abbrev pub other_changes : Task → SourceItem → List HistoryField
other_changes t item =
    (if title_differs t item then title_field ∷ [] else [])
    ++ ((if description_differs t item then description_field ∷ [] else [])
        ++ (if link_differs t item then link_field ∷ [] else []))

abbrev pub reconciled : SourceItem → ℕ → Task → Task
reconciled item clock t = record t {
  title = item.title;
  description = item.description;
  link = item.link;
  actual_deadline = item.actual_deadline;
  source_updated_at = item.source_updated_at;
  updated_at = clock;
}

abbrev pub unchanged_result : ℕ → TaskUpsertResult
unchanged_result task_id = record {
  task_id = task_id;
  was_created = false;
  deadline_changed = false;
  old_deadline = none;
  new_deadline = none;
  other_fields_changed = [];
}

unfoldable pub reconcile_task : ℕ → Task → SourceItem → ℕ → Db → TaskUpsertResult × Db
unfolding record_changes
reconcile_task user_id existing item clock db =
    let logged = record_changes user_id existing.id clock (tracked_fields existing item) db in
    (
      record {
        task_id = existing.id;
        was_created = false;
        deadline_changed = deadline_differs existing item;
        old_deadline = if deadline_differs existing item then existing.actual_deadline else none;
        new_deadline = if deadline_differs existing item then item.actual_deadline else none;
        other_fields_changed = other_changes existing item;
      },
      record logged {
        tasks = update_where (is_task user_id existing.id) (reconciled item clock) logged.tasks;
      },
    )

-- `source_updated_at is not None and source_updated_at == existing["source_updated_at"]`
abbrev pub is_unchanged_source : SourceItem → Task → Bool
is_unchanged_source item existing =
    is_some item.source_updated_at
    && option_eq text_eq item.source_updated_at existing.source_updated_at

-- What follows, by the row that was found.
unfoldable pub upsert_over : ℕ → ℕ → SourceItem → ℕ → Option Task → Db → TaskUpsertResult × Db
unfolding insert_source_task reconcile_task
upsert_over user_id course_id item clock none db =
    insert_source_task user_id course_id item clock db
upsert_over user_id course_id item clock (some existing) db =
    if is_unchanged_source item existing
    then (unchanged_result existing.id, db)
    else reconcile_task user_id existing item clock db

unfoldable pub upsert_task_from_source : ℕ → ℕ → SourceItem → ℕ → Db → TaskUpsertResult × Db
upsert_task_from_source user_id course_id item clock db =
    upsert_over user_id course_id item clock
      (get_task_by_source user_id course_id item.source_type item.external_id db) db
