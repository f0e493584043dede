-- ===== src/Sync/Types.antt =====
-- The data of ragra/sync/classroom_sync.py: what Classroom answers, what a sync reports.
--
-- The Classroom client, the academic profile and Python's `repr` and `datetime.fromisoformat` are
-- parameters: a `Client` and an `Environment` of functions.
use ragra_reminder.Prelude.{ℕ, Option, List, [], Text}
use ragra_reminder.Store.{CourseState}
use ragra_reminder.Sync.Dates.{DueDate, DueTime}

-- A course and an item, by the keys that the sync reads; a key that is left out is none.
pub record ClassroomCourse : Type 0 where
  pub id : Text
  pub name : Option Text
  pub section : Option Text
  pub course_state : Option CourseState

pub record ClassroomItem : Type 0 where
  pub id : Text
  pub title : Option Text
  pub text : Option Text
  pub description : Option Text
  pub alternate_link : Option Text
  pub creation_time : Option Text
  pub update_time : Option Text
  pub due_date : Option DueDate
  pub due_time : Option DueTime

-- A call that may raise: its value, or the text of the exception.
pub data Outcome (A : Type 0) : Type 0 where
  answered : A → Outcome A
  raised : Text → Outcome A

pub record Client : Type 0 where
  pub list_courses : Outcome (List ClassroomCourse)
  pub list_course_work : Text → Outcome (List ClassroomItem)
  pub list_announcements : Text → Outcome (List ClassroomItem)
  pub list_course_materials : Text → Outcome (List ClassroomItem)

-- `RelevanceDecision`
pub data Decision : Type 0 where
  relevant other_section unknown : Decision

-- `is_relevant` with the profile of the user: title, description and course name.
pub record Environment : Type 0 where
  pub profile : Outcome (Text → Text → Text → Outcome Decision)
  pub repr : Text → Text
  -- `fromisoformat(str(text).replace("Z", "+00:00"))`, a naive result read as UTC; none for a
  -- ValueError.
  pub from_iso : Text → Option ℕ

-- `_RelevanceContext`
pub record RelevanceContext : Type 0 where
  pub course_name : Text
  pub is_relevant : Text → Text → Text → Outcome Decision

pub record DeadlineChange : Type 0 where
  pub task_id : ℕ
  pub title : Option Text
  pub old_deadline : Option ℕ
  pub new_deadline : Option ℕ

-- The formatted texts of a summary, as what they are formatted from.
pub data SyncWarning : Type 0 where
  profile_unavailable : Text → SyncWarning
  relevance_failed : ℕ → Text → SyncWarning

pub record MissingDiscovery : Type 0 where
  pub task_id : ℕ
  pub title : Text

pub record SyncSummary : Type 0 where
  pub courses_seen : ℕ
  pub tasks_created : ℕ
  pub tasks_updated : ℕ
  pub tasks_cancelled : ℕ
  pub backlog_reminders_suppressed : ℕ
  pub tasks_marked_missed : ℕ
  pub relevance_evaluated : ℕ
  pub relevance_other_section : ℕ
  pub deadlines_changed : List DeadlineChange
  pub missing_discovery_notification : List MissingDiscovery
  pub errors : List Text
  pub warnings : List SyncWarning

abbrev pub empty_summary : SyncSummary
empty_summary = record {
  courses_seen = 0;
  tasks_created = 0;
  tasks_updated = 0;
  tasks_cancelled = 0;
  backlog_reminders_suppressed = 0;
  tasks_marked_missed = 0;
  relevance_evaluated = 0;
  relevance_other_section = 0;
  deadlines_changed = [];
  missing_discovery_notification = [];
  errors = [];
  warnings = [];
}
