-- ===== src/Store/Tenant.antt =====
-- What one account can see: its own rows of every table. An operation for one user is isolated if
-- no other account sees a difference.
pub mod Tables
pub mod Operations
pub mod TaskWrites
pub mod Passes
use ragra_reminder.Prelude.{
  ℕ, ◌≡◌, ◌≢◌, refl, ◌∙◌, Bool, true, false, List, [], ◌∷◌, ◌++◌, arith, ◌==◌, select, update_where,
  select-update_where, select_insert_other, if◌then◌else◌,
}
use ragra_reminder.Store.Rows.{
  Course, Task, TaskHistory, Reminder, Delivery, ChatMessage, CalendarEvent, SyncState,
  PipelineHealth, ClassReminder, TimetableEvent,
}
use ragra_reminder.Store.State.{Db}

module _ (v : ℕ) where
  abbrev pub courses_of : List Course → List Course
  courses_of l = select (λ r. r.user_id == v) l

  abbrev pub tasks_of : List Task → List Task
  tasks_of l = select (λ r. r.user_id == v) l

  abbrev pub history_of : List TaskHistory → List TaskHistory
  history_of l = select (λ r. r.user_id == v) l

  abbrev pub reminders_of : List Reminder → List Reminder
  reminders_of l = select (λ r. r.user_id == v) l

  abbrev pub deliveries_of : List Delivery → List Delivery
  deliveries_of l = select (λ r. r.user_id == v) l

  abbrev pub chat_of : List ChatMessage → List ChatMessage
  chat_of l = select (λ r. r.user_id == v) l

  abbrev pub calendar_of : List CalendarEvent → List CalendarEvent
  calendar_of l = select (λ r. r.user_id == v) l

  abbrev pub sync_states_of : List SyncState → List SyncState
  sync_states_of l = select (λ r. r.user_id == v) l

  abbrev pub health_of : List PipelineHealth → List PipelineHealth
  health_of l = select (λ r. r.user_id == v) l

  abbrev pub class_reminders_of : List ClassReminder → List ClassReminder
  class_reminders_of l = select (λ r. r.user_id == v) l

  abbrev pub timetable_of : List TimetableEvent → List TimetableEvent
  timetable_of l = select (λ r. r.user_id == v) l

-- The account `v` sees the same in both.
pub record SameFor (v : ℕ) (a b : Db) : Type 0 where
  pub courses : courses_of v b.courses ≡ courses_of v a.courses
  pub tasks : tasks_of v b.tasks ≡ tasks_of v a.tasks
  pub history : history_of v b.history ≡ history_of v a.history
  pub reminders : reminders_of v b.reminders ≡ reminders_of v a.reminders
  pub deliveries : deliveries_of v b.deliveries ≡ deliveries_of v a.deliveries
  pub chat : chat_of v b.chat ≡ chat_of v a.chat
  pub calendar : calendar_of v b.calendar_events ≡ calendar_of v a.calendar_events
  pub sync_states : sync_states_of v b.sync_states ≡ sync_states_of v a.sync_states
  pub health : health_of v b.health ≡ health_of v a.health
  pub class_reminders :
      class_reminders_of v b.class_reminders ≡ class_reminders_of v a.class_reminders
  pub timetable : timetable_of v b.timetable_events ≡ timetable_of v a.timetable_events

pub SameFor-refl : (v : ℕ) (a : Db) → SameFor v a a
SameFor-refl v a = record {
  courses = refl;
  tasks = refl;
  history = refl;
  reminders = refl;
  deliveries = refl;
  chat = refl;
  calendar = refl;
  sync_states = refl;
  health = refl;
  class_reminders = refl;
  timetable = refl;
}

pub SameFor-trans : (v : ℕ) (a b c : Db) → SameFor v a b → SameFor v b c → SameFor v a c
SameFor-trans v a b c h k = record {
  courses = k.courses ∙ h.courses;
  tasks = k.tasks ∙ h.tasks;
  history = k.history ∙ h.history;
  reminders = k.reminders ∙ h.reminders;
  deliveries = k.deliveries ∙ h.deliveries;
  chat = k.chat ∙ h.chat;
  calendar = k.calendar ∙ h.calendar;
  sync_states = k.sync_states ∙ h.sync_states;
  health = k.health ∙ h.health;
  class_reminders = k.class_reminders ∙ h.class_reminders;
  timetable = k.timetable ∙ h.timetable;
}
