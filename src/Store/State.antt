-- ===== src/Store/State.antt =====
-- The database as a record of its tables, with the next value of each AUTOINCREMENT id.
use ragra_reminder.Prelude.{ℕ, List, []}
use ragra_reminder.Store.Rows.{
  Course, Task, TaskHistory, Reminder, Delivery, ChatMessage, CalendarEvent, SyncState,
  PipelineHealth, ClassReminder, TimetableEvent,
}

pub record Db : Type 0 where
  pub courses : List Course
  pub next_course : ℕ
  pub tasks : List Task
  pub next_task : ℕ
  pub history : List TaskHistory
  pub reminders : List Reminder
  pub next_reminder : ℕ
  pub deliveries : List Delivery
  pub chat : List ChatMessage
  pub next_message : ℕ
  pub calendar_events : List CalendarEvent
  pub sync_states : List SyncState
  pub health : List PipelineHealth
  pub class_reminders : List ClassReminder
  pub next_class_reminder : ℕ
  pub timetable_events : List TimetableEvent
  pub next_event : ℕ

abbrev pub empty_db : Db
empty_db = record {
  courses = [];
  next_course = 1;
  tasks = [];
  next_task = 1;
  history = [];
  reminders = [];
  next_reminder = 1;
  deliveries = [];
  chat = [];
  next_message = 1;
  calendar_events = [];
  sync_states = [];
  health = [];
  class_reminders = [];
  next_class_reminder = 1;
  timetable_events = [];
  next_event = 1;
}
