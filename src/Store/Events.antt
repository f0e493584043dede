-- ===== src/Store/Events.antt =====
-- The calendar_events table of ragra/db/repo.py: which event of the user's calendar belongs to a task.
use ragra_reminder.Prelude.{
  ℕ, Bool, false, ◌&&◌, Option, none, some, [], ◌∷◌, ◌++◌, Text, text_eq, ◌==◌, if◌then◌else◌,
  select, fetchone, exists_row, update_where, delete_where,
}
use ragra_reminder.Store.Rows.{CalendarEvent}
use ragra_reminder.Store.State.{Db}

-- `task_id = ?`, which is not true of NULL.
abbrev pub id_is : Option ℕ → ℕ → Bool
id_is none k = false
id_is (some i) k = i == k

-- `user_id = ? AND task_id = ? AND kind = ?`
abbrev pub is_event_of : ℕ → ℕ → Text → CalendarEvent → Bool
is_event_of user_id task_id kind e =
    e.user_id == user_id && id_is e.task_id task_id && text_eq e.kind kind

-- The key of ON CONFLICT(user_id, google_event_id)
abbrev pub has_event_id : ℕ → Text → CalendarEvent → Bool
has_event_id user_id event_id e = e.user_id == user_id && text_eq e.google_event_id event_id

abbrev pub refreshed_event : ℕ → CalendarEvent → CalendarEvent
refreshed_event clock e = record e { updated_at = clock }

abbrev pub new_event : ℕ → ℕ → Text → Text → ℕ → CalendarEvent
new_event user_id task_id kind event_id clock = record {
  user_id = user_id;
  task_id = some task_id;
  kind = kind;
  google_event_id = event_id;
  updated_at = clock;
}

unfoldable pub get_calendar_event : ℕ → ℕ → Text → Db → Option CalendarEvent
get_calendar_event user_id task_id kind db =
    fetchone (select (is_event_of user_id task_id kind) db.calendar_events)

unfoldable pub record_calendar_event : ℕ → ℕ → Text → Text → ℕ → Db → Db
record_calendar_event user_id task_id kind event_id clock db = record db {
  calendar_events =
      if exists_row (has_event_id user_id event_id) db.calendar_events
      then update_where (has_event_id user_id event_id) (refreshed_event clock) db.calendar_events
      else db.calendar_events ++ new_event user_id task_id kind event_id clock ∷ [];
}

unfoldable pub delete_calendar_event_record : ℕ → ℕ → Text → Db → Db
delete_calendar_event_record user_id task_id kind db = record db {
  calendar_events = delete_where (is_event_of user_id task_id kind) db.calendar_events;
}
