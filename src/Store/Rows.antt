-- ===== src/Store/Rows.antt =====
-- The rows of the database: ragra/db/schema.sql and ragra/db/migrations/, one record for each table
-- that the modelled statements read or write, with the table's columns.
--
-- A stored timestamp is its moment (microseconds, as in Engine): the program writes them all in one
-- canonical UTC form and compares them as text. A nullable column is an `Option`.
mod Enums
unfoldable pub use Enums.*
use ragra_reminder.Prelude.{ℕ, Bool, Option, List, Text}
use ragra_reminder.Engine.{ReminderType}

pub record Course : Type 0 where
  pub id : ℕ
  pub user_id : ℕ
  pub external_id : Text
  pub course_code : Option Text
  pub name : Text
  pub section : Option Text
  pub teacher : Option Text
  pub state : CourseState
  pub created_at : ℕ
  pub updated_at : ℕ

pub record Task : Type 0 where
  pub id : ℕ
  pub user_id : ℕ
  pub course_id : ℕ
  pub source_type : SourceType
  pub external_id : Option Text
  pub title : Text
  pub description : Option Text
  pub link : Option Text
  pub kind : TaskKind
  pub status : TaskStatus
  pub actual_deadline : Option ℕ
  pub personal_deadline : Option Text
  pub source_published_at : Option Text
  pub source_updated_at : Option Text
  pub completed_at : Option ℕ
  pub missed_at : Option ℕ
  pub cancelled_at : Option ℕ
  pub created_at : ℕ
  pub updated_at : ℕ
  pub relevance : Relevance
  pub relevance_reason : Option Text
  pub relevance_computed_at : Option ℕ
  pub parent_task_id : Option ℕ

-- A value of the audit trail; the column is text.
pub data HistoryValue : Type 0 where
  text_value : Text → HistoryValue
  stamp_value : ℕ → HistoryValue
  status_value : TaskStatus → HistoryValue
  relevance_value : Relevance → HistoryValue

pub record TaskHistory : Type 0 where
  pub user_id : ℕ
  pub task_id : ℕ
  pub changed_at : ℕ
  pub field_name : HistoryField
  pub old_value : Option HistoryValue
  pub new_value : Option HistoryValue

-- `f"{task_id}:{type}"`, or the same with `:{deadline}`; a deadline of None prints as None. No type
-- has a colon in it, so the texts are equal exactly when these are.
pub data KeyTail : Type 0 where
  task_anchored : KeyTail
  for_deadline : Option ℕ → KeyTail

pub record ReminderKey : Type 0 where
  pub task_id : ℕ
  pub reminder_type : ReminderType
  pub tail : KeyTail

pub record Reminder : Type 0 where
  pub id : ℕ
  pub user_id : ℕ
  pub task_id : ℕ
  pub reminder_type : ReminderType
  pub scheduled_for : ℕ
  pub status : ReminderStatus
  pub sent_at : Option ℕ
  pub last_error : Option Text
  pub attempt_count : ℕ
  pub next_retry_at : Option ℕ
  pub idempotency_key : ReminderKey
  pub created_at : ℕ

pub data Category : Type 0 where
  reminder_category : ReminderType → Category
  class_soon health_alert welcome : Category

pub record Delivery : Type 0 where
  pub user_id : ℕ
  pub reminder_id : Option ℕ
  pub category : Option Category
  pub provider : Text
  pub ok : Bool
  pub error : Option Text
  pub attempted_at : ℕ

-- A path inside the web app: `/tasks/{id}`, or another.
pub data LinkPath : Type 0 where
  task_page : ℕ → LinkPath
  page : Text → LinkPath

pub record ChatMessage : Type 0 where
  pub id : ℕ
  pub user_id : ℕ
  pub role : ChatRole
  pub text : Text
  pub link_path : Option LinkPath
  pub next_nag_at : Option ℕ
  pub repeat_of : Option ℕ
  pub created_at : ℕ
  pub acked_at : Option ℕ
  pub nag_count : ℕ

pub record CalendarEvent : Type 0 where
  pub user_id : ℕ
  pub task_id : Option ℕ
  pub kind : Text
  pub google_event_id : Text
  pub updated_at : ℕ

pub record SyncState : Type 0 where
  pub user_id : ℕ
  pub source : SyncSource
  pub last_synced_at : Option ℕ
  pub last_success_at : Option ℕ
  pub last_error : Option Text
  pub status : SyncStatus

pub record PipelineHealth : Type 0 where
  pub user_id : ℕ
  pub component : SyncSource
  pub consecutive_failures : ℕ
  pub last_success_at : Option ℕ
  pub last_failure_at : Option ℕ
  pub last_error : Option Text
  pub last_alert_sent_at : Option ℕ

pub record ClassReminder : Type 0 where
  pub id : ℕ
  pub user_id : ℕ
  pub timetable_event_id : ℕ
  pub occurrence_date : ℕ
  pub reminder_type : Text
  pub scheduled_for : ℕ
  pub status : ReminderStatus
  pub sent_at : Option ℕ
  pub last_error : Option Text
  pub attempt_count : ℕ
  pub created_at : ℕ

pub record TimetableEvent : Type 0 where
  pub id : ℕ
  pub user_id : ℕ
  pub external_id : Text
  pub course_name : Text
  pub program : Option Text
  pub batch_year : Option Text
  pub enrollment_type : Text
  pub day_of_week : ℕ
  pub occurrence_index : ℕ
  pub start_time : Text
  pub end_time : Text
  pub room : Option Text
  pub instructor : Option Text
  pub section : Option Text
  pub status : ClassStatus
  pub source_spreadsheet_id : Option Text
  pub source_sheet_gid : Option Text
  pub source_sheet_title : Option Text
  pub last_synced_at : ℕ
  pub created_at : ℕ
  pub updated_at : ℕ
