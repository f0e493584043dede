-- ===== src/Calendar.antt =====
-- ragra/sync/calendar_sync.py: the calendar events of the deadlines.
pub mod Types
pub mod Outcome
pub mod Settled
pub mod Whole
pub mod Again
pub mod Isolation
use ragra_reminder.Prelude.{
  ℕ, suc, ◌+◌, ◌-◌, ◌*◌, Bool, true, false, not, ◌&&◌, ◌||◌, Option, none, some, List, [], ◌∷◌,
  ◌++◌, Text, codes, ◌==◌, ltb, leb, if◌then◌else◌, select, fetchone, is_empty, is_some, map,
}
use ragra_reminder.Engine.{minute}
use ragra_reminder.Store.{
  Db, Task, Course, CalendarEvent, SourceType, coursework, announcement, material, manual,
  is_finished,
}
use ragra_reminder.Store.History.{is_task}
use ragra_reminder.Store.Reminders.{course_of}
use ragra_reminder.Store.Events.{
  get_calendar_event, record_calendar_event, delete_calendar_event_record,
}
use ragra_reminder.Calendar.Types.{
  EventBody, Reply, replied, refused, CalendarService, create_event, update_event, delete_event,
}

abbrev pub event_kind_actual_deadline : Text
event_kind_actual_deadline = codes "ACTUAL_DEADLINE"

-- A row of the query: the task, with the columns of its course.
pub record TaskRow : Type 0 where
  pub task : Task
  pub course : Course

abbrev pub join_course : Option Task → List Course → Option TaskRow
join_course none courses = none
join_course (some t) courses = elim (course_of courses t.course_id) [
  | none ↦ none
  | some c ↦ some (record { task = t; course = c })
]

unfoldable pub task_with_course : ℕ → ℕ → Db → Option TaskRow
task_with_course user_id task_id db =
    join_course (fetchone (select (is_task user_id task_id) db.tasks)) db.courses

abbrev pub source_name : SourceType → Text
source_name coursework = codes "coursework"
source_name announcement = codes "announcement"
source_name material = codes "material"
source_name manual = codes "manual"

-- `task["course_code"] or task["course_name"]`
abbrev pub label_of : Course → Text
label_of c = elim c.course_code [
  | none ↦ c.name
  | some code ↦ if is_empty code then c.name else code
]

abbrev pub or_none_text : Option Text → Text
or_none_text none = codes "None"
or_none_text (some t) = t

abbrev pub shift_back : ℕ → ℕ → ℕ
shift_back moment minutes = moment - minutes * minute

unfoldable pub event_body : TaskRow → ℕ → EventBody
event_body row deadline = record {
  summary =
      if is_empty (label_of row.course)
      then row.task.title
      else label_of row.course ++ (codes ": " ++ row.task.title);
  description =
      codes "Ragra academic deadline. Source: "
      ++ (source_name row.task.source_type ++ (codes " " ++ or_none_text row.task.external_id));
  start = shift_back deadline 15;
  end = deadline;
}

pub data EventOutcome : Type 0 where
  created updated removed skipped : EventOutcome

-- What a call returns, or the text of the exception that ends it.
pub data Attempt (A : Type 0) : Type 0 where
  returned : A → Attempt A
  raised : Text → Attempt A

-- The deadline, if the task should have an event.
abbrev pub event_deadline : Task → Option ℕ
event_deadline t = if is_finished t.status then none else t.actual_deadline

-- What follows each request.
abbrev pub after_delete : ℕ → ℕ → Text → Db → Reply Unit → Attempt EventOutcome × Db
after_delete user_id task_id kind db (replied _) =
    (returned removed, delete_calendar_event_record user_id task_id kind db)
after_delete user_id task_id kind db (refused status error) = (raised error, db)

abbrev pub after_create : ℕ → ℕ → Text → ℕ → Db → Reply Text → Attempt EventOutcome × Db
after_create user_id task_id kind clock db (replied event_id) =
    (returned created, record_calendar_event user_id task_id kind event_id clock db)
after_create user_id task_id kind clock db (refused status error) = (raised error, db)

abbrev pub after_update : ℕ → ℕ → Text → Text → ℕ → Db → Reply Unit → Attempt EventOutcome × Db
after_update user_id task_id kind event_id clock db (replied _) =
    (returned updated, record_calendar_event user_id task_id kind event_id clock db)
after_update user_id task_id kind event_id clock db (refused status error) = (raised error, db)

module _ {W : Type 0} (service : CalendarService W) (user_id : ℕ) (calendar_id : Text) where
  -- The four cases: with or without a deadline to show, with or without a stored event.
  unfoldable pub reconcile_event :
      ℕ
      → Text
      → ℕ
      → TaskRow
      → Option ℕ
      → Option CalendarEvent
      → Db
      → W
      → Attempt EventOutcome × Db × W
  reconcile_event task_id kind clock row none none db w = (returned skipped, db, w)
  reconcile_event task_id kind clock row none (some existing) db w =
      let answer = delete_event service calendar_id existing.google_event_id w in
      let after = after_delete user_id task_id kind db answer.0 in (after.0, after.1, answer.1)
  reconcile_event task_id kind clock row (some deadline) none db w =
      let answer = create_event service calendar_id (event_body row deadline) w in
      let after = after_create user_id task_id kind clock db answer.0 in
      (after.0, after.1, answer.1)
  reconcile_event task_id kind clock row (some deadline) (some existing) db w =
      let answer =
        update_event service calendar_id existing.google_event_id (event_body row deadline) w in
      let after = after_update user_id task_id kind existing.google_event_id clock db answer.0 in
      (after.0, after.1, answer.1)

  unfoldable pub sync_row : ℕ → Text → ℕ → Option TaskRow → Db → W → Attempt EventOutcome × Db × W
  unfolding reconcile_event
  sync_row task_id kind clock none db w = (returned skipped, db, w)
  sync_row task_id kind clock (some row) db w =
      reconcile_event task_id kind clock row (event_deadline row.task)
        (get_calendar_event user_id task_id kind db) db w

  unfoldable pub sync_task_event : ℕ → Text → ℕ → Db → W → Attempt EventOutcome × Db × W
  unfolding sync_row
  sync_task_event task_id kind clock db w =
      sync_row task_id kind clock (task_with_course user_id task_id db) db w

-- A set of ids, kept in ascending order: `sorted` of it is the list itself.
abbrev pub insert_id : ℕ → List ℕ → List ℕ
insert_id k [] = k ∷ []
insert_id k (i ∷ is) =
    let rest = insert_id k is in if k == i then i ∷ is else if ltb k i then k ∷ i ∷ is else i ∷ rest

abbrev pub insert_task_ids : List Task → List ℕ → List ℕ
insert_task_ids [] ids = ids
insert_task_ids (t ∷ ts) ids = insert_id t.id (insert_task_ids ts ids)

abbrev pub insert_event_task : Option ℕ → List ℕ → List ℕ
insert_event_task none ids = ids
insert_event_task (some k) ids = insert_id k ids

abbrev pub insert_event_tasks : List CalendarEvent → List ℕ → List ℕ
insert_event_tasks [] ids = ids
insert_event_tasks (e ∷ es) ids = insert_event_task e.task_id (insert_event_tasks es ids)

abbrev pub with_deadline : ℕ → Task → Bool
with_deadline user_id t = t.user_id == user_id && is_some t.actual_deadline

abbrev pub with_task : ℕ → CalendarEvent → Bool
with_task user_id e = e.user_id == user_id && is_some e.task_id

unfoldable pub ids_to_sync : ℕ → Db → List ℕ
ids_to_sync user_id db =
    insert_event_tasks (select (with_task user_id) db.calendar_events)
      (insert_task_ids (select (with_deadline user_id) db.tasks) [])

pub record EventCounts : Type 0 where
  pub created : ℕ
  pub updated : ℕ
  pub removed : ℕ
  pub skipped : ℕ

abbrev pub no_events : EventCounts
no_events = record { created = 0; updated = 0; removed = 0; skipped = 0 }

abbrev pub count_event : EventOutcome → EventCounts → EventCounts
count_event EventOutcome.created counts = record counts { created = counts.created + 1 }
count_event EventOutcome.updated counts = record counts { updated = counts.updated + 1 }
count_event EventOutcome.removed counts = record counts { removed = counts.removed + 1 }
count_event EventOutcome.skipped counts = record counts { skipped = counts.skipped + 1 }

-- An exception leaves the loop.
abbrev pub and_then :
    {W : Type 0}
    → (EventOutcome → Db → W → Attempt EventCounts × Db × W)
    → Attempt EventOutcome
    → Db
    → W
    → Attempt EventCounts × Db × W
and_then rest (returned outcome) db w = rest outcome db w
and_then rest (raised error) db w = (raised error, db, w)

module _ {W : Type 0} (service : CalendarService W) (user_id : ℕ) (calendar_id : Text)
    (clock : ℕ) where
  -- The loop; an exception ends it, and what was written until then stays.
  unfoldable pub sync_ids : List ℕ → EventCounts → Db → W → Attempt EventCounts × Db × W
  sync_ids [] counts db w = (returned counts, db, w)
  sync_ids (id ∷ ids) counts db w =
      let step =
        sync_task_event service user_id calendar_id id event_kind_actual_deadline clock db w in
      and_then (λ outcome after v. sync_ids ids (count_event outcome counts) after v) step.0 step.1
        step.2

  unfoldable pub sync_all_task_events : Db → W → Attempt EventCounts × Db × W
  unfolding sync_ids
  sync_all_task_events db w = sync_ids (ids_to_sync user_id db) no_events db w
