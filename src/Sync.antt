-- ===== src/Sync.antt =====
-- ragra/sync/classroom_sync.py: reconciling one user's Classroom account with the store.
--
-- An item's id is there in whatever Classroom returns, so the KeyError of `item["id"]` is not
-- modelled; a call of the client may raise, and what follows it is.
pub mod Dates
pub mod Types
pub mod Items
pub mod Upsert
pub mod Sources
pub mod Isolation
pub mod Closed
pub mod Reminders
pub mod Stray
pub mod Discovery
pub mod Complete
pub mod Whole
use ragra_reminder.Prelude.{
  ℕ, ◌+◌, Option, none, some, List, [], ◌∷◌, ◌++◌, Text, codes, is_empty, if◌then◌else◌, length,
}
use ragra_reminder.Store.{
  Db, SourceType, coursework, announcement, material, manual, TaskKind, CourseState, SyncSource,
  is_open,
}
use ragra_reminder.Store.Courses.{upsert_course, update_course_state_if_known}
use ragra_reminder.Store.Tasks.{cancel_tasks_missing_from_source, mark_overdue_tasks_as_missed}
use ragra_reminder.Store.Reminders.{
  cancel_backlog_reminders_for_already_overdue_tasks, cancel_stray_reminders_for_terminal_tasks,
}
use ragra_reminder.Store.Syncs.{record_sync_start, record_sync_success, record_sync_error}
use ragra_reminder.Notify.{join_errors}
use ragra_reminder.Sync.Dates.{classroom_due_to_iso}
use ragra_reminder.Sync.Types.{
  ClassroomCourse, ClassroomItem, Outcome, answered, raised, Client, Decision, Environment,
  RelevanceContext, profile_unavailable, SyncSummary, empty_summary,
}
use ragra_reminder.Sync.Sources.{sync_sources}

-- `course.get("name", "Untitled course")`
abbrev pub course_title : ClassroomCourse → Text
course_title course = elim course.name [ none ↦ codes "Untitled course" | some name ↦ name ]

-- `course.get("courseState", "ACTIVE")`
abbrev pub course_state : ClassroomCourse → CourseState
course_state course = elim course.course_state [ none ↦ CourseState.active | some state ↦ state ]

abbrev pub course_context :
    Option (Text → Text → Text → Outcome Decision) → ClassroomCourse → Option RelevanceContext
course_context none course = none
course_context (some is_relevant) course =
    some (record { course_name = course_title course; is_relevant = is_relevant })

abbrev pub sync_open_course :
    Environment
    → Client
    → ℕ
    → Option (Text → Text → Text → Outcome Decision)
    → ℕ
    → ClassroomCourse
    → SyncSummary
    → ℕ × Db
    → SyncSummary × Db
sync_open_course env client user_id profile clock course summary (course_id, db) =
    sync_sources env client user_id course_id course.id (course_title course)
      (course_context profile course) clock (summary, db)

unfoldable pub sync_course :
    Environment
    → Client
    → ℕ
    → Option (Text → Text → Text → Outcome Decision)
    → ℕ
    → ClassroomCourse
    → SyncSummary × Db
    → SyncSummary × Db
unfolding sync_sources
sync_course env client user_id profile clock course (summary, db) =
    if is_open (course_state course)
    then sync_open_course env client user_id profile clock course
        (record summary { courses_seen = summary.courses_seen + 1 })
        (upsert_course user_id course.id (course_title course) course.section none none
          (course_state course) clock db)
    else (summary, update_course_state_if_known user_id course.id (course_state course) clock db)

unfoldable pub sync_courses :
    Environment
    → Client
    → ℕ
    → Option (Text → Text → Text → Outcome Decision)
    → ℕ
    → List ClassroomCourse
    → SyncSummary × Db
    → SyncSummary × Db
unfolding sync_course
sync_courses env client user_id profile clock [] state = state
sync_courses env client user_id profile clock (c ∷ cs) state =
    sync_courses env client user_id profile clock cs
      (sync_course env client user_id profile clock c state)

abbrev pub record_outcome : ℕ → ℕ → SyncSummary × Db → SyncSummary × Db
record_outcome user_id clock (summary, db) = (
  summary,
  if is_empty summary.errors
      then record_sync_success user_id SyncSource.classroom clock db
      else record_sync_error user_id SyncSource.classroom (join_errors summary.errors) db,
)

-- The passes over the whole account after the courses.
unfoldable pub settle_account : ℕ → ℕ → SyncSummary × Db → SyncSummary × Db
settle_account user_id clock (summary, db) =
    let (suppressed, db1) = cancel_backlog_reminders_for_already_overdue_tasks user_id db in
    let (missed, db2) = mark_overdue_tasks_as_missed user_id clock clock db1 in
    let (stray, db3) = cancel_stray_reminders_for_terminal_tasks user_id db2 in
    record_outcome user_id clock (
      record summary {
        backlog_reminders_suppressed = suppressed;
        tasks_marked_missed = length missed;
      },
      db3,
    )

-- The body of the outer `try`.
unfoldable pub reconcile :
    Environment
    → Client
    → ℕ
    → Option (Text → Text → Text → Outcome Decision)
    → ℕ
    → Outcome (List ClassroomCourse)
    → SyncSummary × Db
    → SyncSummary × Db
unfolding sync_courses settle_account
reconcile env client user_id profile clock (raised exc) (summary, db) = (
  record summary { errors = summary.errors ++ exc ∷ [] },
  record_sync_error user_id SyncSource.classroom exc db,
)
reconcile env client user_id profile clock (answered courses) state =
    settle_account user_id clock (sync_courses env client user_id profile clock courses state)

abbrev pub loaded_profile :
    Outcome (Text → Text → Text → Outcome Decision) → Option (Text → Text → Text → Outcome Decision)
loaded_profile (raised exc) = none
loaded_profile (answered is_relevant) = some is_relevant

abbrev pub profile_warning : Outcome (Text → Text → Text → Outcome Decision) → SyncSummary
profile_warning (raised exc) = record empty_summary { warnings = profile_unavailable exc ∷ [] }
profile_warning (answered is_relevant) = empty_summary

unfoldable pub sync_classroom : Environment → Client → ℕ → ℕ → Db → SyncSummary × Db
unfolding reconcile
sync_classroom env client user_id clock db =
    reconcile env client user_id (loaded_profile env.profile) clock client.list_courses
      (profile_warning env.profile, record_sync_start user_id SyncSource.classroom clock db)
