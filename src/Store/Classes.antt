-- ===== src/Store/Classes.antt =====
-- The class_reminders and timetable_events tables of ragra/db/repo.py.
use ragra_reminder.Prelude.{
  ℕ, suc, ◌+◌, Bool, ◌&&◌, ◌||◌, Option, none, some, List, [], ◌∷◌, ◌++◌, Text, codes, ◌==◌, leb,
  ltb, text_eq, text_le, if◌then◌else◌, select, fetchone, exists_row, update_where, count_where,
  order_by, sort_with,
}
use ragra_reminder.Store.Rows.{ClassReminder, TimetableEvent, ReminderStatus, is_pending}
use ragra_reminder.Store.State.{Db}

-- The conflict of UNIQUE(user_id, idempotency_key): the key is `event:date:type`, and neither a number
-- nor a date has a colon in it.
abbrev pub is_claim_of : ℕ → ℕ → ℕ → Text → ClassReminder → Bool
is_claim_of user_id timetable_event_id occurrence_date reminder_type r =
    r.user_id == user_id
    && r.timetable_event_id == timetable_event_id
    && r.occurrence_date == occurrence_date
    && text_eq r.reminder_type reminder_type

abbrev pub new_class_reminder : ℕ → ℕ → ℕ → ℕ → Text → ℕ → ℕ → ClassReminder
new_class_reminder id user_id timetable_event_id occurrence_date reminder_type scheduled_for clock =
    record {
      id = id;
      user_id = user_id;
      timetable_event_id = timetable_event_id;
      occurrence_date = occurrence_date;
      reminder_type = reminder_type;
      scheduled_for = scheduled_for;
      status = ReminderStatus.pending;
      sent_at = none;
      last_error = none;
      attempt_count = 0;
      created_at = clock;
    }

unfoldable pub insert_class_reminder_if_absent : ℕ → ℕ → ℕ → Text → ℕ → ℕ → Db → Option ℕ × Db
insert_class_reminder_if_absent user_id timetable_event_id occurrence_date reminder_type
      scheduled_for clock db =
    if exists_row (is_claim_of user_id timetable_event_id occurrence_date reminder_type)
      db.class_reminders
    then (none, db)
    else (
      some db.next_class_reminder,
      record db {
        class_reminders =
            db.class_reminders
            ++ new_class_reminder db.next_class_reminder user_id timetable_event_id occurrence_date
                reminder_type scheduled_for clock
              ∷ [];
        next_class_reminder = suc db.next_class_reminder;
      },
    )

-- A row of the query: the reminder, with the columns of its timetable event that the caller reads.
pub record PendingClass : Type 0 where
  pub row : ClassReminder
  pub course_name : Text
  pub room : Option Text

abbrev pub event_row : List TimetableEvent → ℕ → Option TimetableEvent
event_row events id = fetchone (select (λ e. e.id == id) events)

abbrev pub is_pending_class : ℕ → ClassReminder → Bool
is_pending_class user_id r = r.user_id == user_id && is_pending r.status

abbrev pub with_event :
    ClassReminder → Option TimetableEvent → List PendingClass → List PendingClass
with_event r none rest = rest
with_event r (some e) rest = record { row = r; course_name = e.course_name; room = e.room } ∷ rest

abbrev pub join_events : List TimetableEvent → List ClassReminder → List PendingClass
join_events events [] = []
join_events events (r ∷ rs) =
    with_event r (event_row events r.timetable_event_id) (join_events events rs)

unfoldable pub pending_class_reminders : ℕ → Db → List PendingClass
pending_class_reminders user_id db =
    order_by (λ p. p.row.scheduled_for)
      (join_events db.timetable_events (select (is_pending_class user_id) db.class_reminders))

-- `WHERE id = ? AND user_id = ?`
abbrev pub is_class_reminder : ℕ → ℕ → ClassReminder → Bool
is_class_reminder user_id id r = r.id == id && r.user_id == user_id

abbrev pub announced : ℕ → ClassReminder → ClassReminder
announced clock r = record r {
  status = ReminderStatus.sent;
  sent_at = some clock;
  attempt_count = r.attempt_count + 1;
}

unfoldable pub mark_class_reminder_sent : ℕ → ℕ → ℕ → Db → Db
mark_class_reminder_sent user_id class_reminder_id clock db = record db {
  class_reminders =
      update_where (is_class_reminder user_id class_reminder_id) (announced clock)
        db.class_reminders;
}

abbrev pub attempted : Text → Bool → ClassReminder → ClassReminder
attempted error give_up r = record r {
  status = if give_up then ReminderStatus.failed else ReminderStatus.pending;
  last_error = some error;
  attempt_count = r.attempt_count + 1;
}

unfoldable pub record_class_reminder_attempt : ℕ → ℕ → Text → Bool → Db → Db
record_class_reminder_attempt user_id class_reminder_id error give_up db = record db {
  class_reminders =
      update_where (is_class_reminder user_id class_reminder_id) (attempted error give_up)
        db.class_reminders;
}

abbrev pub already_started : Text
already_started = codes "class already started; reminder expired"

abbrev pub is_stale_class : ℕ → ℕ → ClassReminder → Bool
is_stale_class user_id now r =
    r.user_id == user_id && is_pending r.status && leb r.scheduled_for now

abbrev pub expired_class : ClassReminder → ClassReminder
expired_class r = record r { status = ReminderStatus.failed; last_error = some already_started }

unfoldable pub expire_stale_class_reminders : ℕ → ℕ → Db → ℕ × Db
expire_stale_class_reminders user_id now db = (
  count_where (is_stale_class user_id now) db.class_reminders,
  record db {
    class_reminders = update_where (is_stale_class user_id now) expired_class db.class_reminders;
  },
)

-- ORDER BY day_of_week, start_time
abbrev pub earlier_in_week : TimetableEvent → TimetableEvent → Bool
earlier_in_week a b =
    ltb a.day_of_week b.day_of_week
    || (a.day_of_week == b.day_of_week && text_le a.start_time b.start_time)

unfoldable pub list_timetable_events : ℕ → Db → List TimetableEvent
list_timetable_events user_id db =
    sort_with earlier_in_week (select (λ e. e.user_id == user_id) db.timetable_events)
