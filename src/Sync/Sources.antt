-- ===== src/Sync/Sources.antt =====
-- The three sources of one course, in ragra/sync/classroom_sync.py: its coursework, its announcements
-- and its materials, and the cancellation of what they no longer have.
use ragra_reminder.Prelude.{ℕ, ◌+◌, Option, none, List, [], ◌∷◌, ◌++◌, Text, codes, length}
use ragra_reminder.Store.{Db, SourceType, coursework, announcement, material, manual, TaskKind}
use ragra_reminder.Store.Tasks.{cancel_tasks_missing_from_source}
use ragra_reminder.Sync.Dates.{classroom_due_to_iso}
use ragra_reminder.Sync.Types.{
  ClassroomItem, Outcome, answered, raised, Client, Environment, RelevanceContext, SyncSummary,
}
use ragra_reminder.Sync.Upsert.{apply_upsert}

abbrev pub kind_of : SourceType → TaskKind
kind_of coursework = TaskKind.actionable
kind_of _ = TaskKind.informational

abbrev pub deadline_of : SourceType → ClassroomItem → Option ℕ
deadline_of coursework item = classroom_due_to_iso item.due_date item.due_time
deadline_of _ item = none

-- The loops of `_sync_coursework`, `_sync_announcements` and `_sync_materials`, which differ in the
-- kind and the deadline.
unfoldable pub sync_items :
    Environment
    → ℕ
    → ℕ
    → SourceType
    → Option RelevanceContext
    → ℕ
    → List ClassroomItem
    → SyncSummary × Db
    → SyncSummary × Db
sync_items env user_id course_id source_type context clock [] state = state
sync_items env user_id course_id source_type context clock (item ∷ items) state =
    sync_items env user_id course_id source_type context clock items (
      apply_upsert env user_id course_id source_type item (kind_of source_type)
        (deadline_of source_type item) context clock state)

abbrev pub seen_ids : List ClassroomItem → List Text
seen_ids [] = []
seen_ids (item ∷ items) = item.id ∷ seen_ids items

abbrev pub source_text : SourceType → Text
source_text coursework = codes "coursework"
source_text announcement = codes "announcement"
source_text material = codes "material"
source_text manual = codes "manual"

-- `seen_by_source`: the sources that could be read, with the ids they returned.
abbrev pub Seen : Type 0
Seen = List (SourceType × List Text)

abbrev pub source_failed : Environment → SourceType → Text → Text → Text
source_failed env source_type course_name exc =
    source_text source_type
    ++ (codes " sync failed for " ++ (env.repr course_name ++ (codes ": " ++ exc)))

unfoldable pub sync_source :
    Environment
    → ℕ
    → ℕ
    → Text
    → SourceType
    → Option RelevanceContext
    → ℕ
    → Outcome (List ClassroomItem)
    → Seen × SyncSummary × Db
    → Seen × SyncSummary × Db
unfolding sync_items
sync_source env user_id course_id course_name source_type context clock (raised exc)
      (seen, summary, db) =
    (
      seen,
      record summary {
        errors = summary.errors ++ source_failed env source_type course_name exc ∷ [];
      },
      db,
    )
sync_source env user_id course_id course_name source_type context clock (answered items)
      (seen, summary, db) =
    let after = sync_items env user_id course_id source_type context clock items (summary, db) in
    (seen ++ (source_type, seen_ids items) ∷ [], after.0, after.1)

-- The loop over `seen_by_source`.
unfoldable pub cancel_missing : ℕ → ℕ → ℕ → Seen × SyncSummary × Db → SyncSummary × Db
cancel_missing user_id course_id clock ([], summary, db) = (summary, db)
cancel_missing user_id course_id clock ((source_type, seen) ∷ rest, summary, db) =
    let (cancelled, db') =
      cancel_tasks_missing_from_source user_id course_id source_type seen clock db in
    cancel_missing user_id course_id clock
      (rest, record summary { tasks_cancelled = summary.tasks_cancelled + length cancelled }, db')

-- The three sources of one course, then what is missing from them.
unfoldable pub sync_sources :
    Environment
    → Client
    → ℕ
    → ℕ
    → Text
    → Text
    → Option RelevanceContext
    → ℕ
    → SyncSummary × Db
    → SyncSummary × Db
unfolding sync_source cancel_missing
sync_sources env client user_id course_id external_id course_name context clock state =
    let first =
      sync_source env user_id course_id course_name coursework context clock
        (client.list_course_work external_id) ([], state.0, state.1) in
    let second =
      sync_source env user_id course_id course_name announcement context clock
        (client.list_announcements external_id) first in
    cancel_missing user_id course_id clock (
      sync_source env user_id course_id course_name material context clock
        (client.list_course_materials external_id) second)
