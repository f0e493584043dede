-- ===== src/ClassReminders/Origin.antt =====
-- Where the claims of `schedule_class_reminders` of ragra/reminders/class_reminders.py come from.
use ragra_reminder.Prelude.{ℕ, ◌≡◌, ◌≤◌, ◌+◌, ◌*◌, ◌⊎◌, List, Some}
use ragra_reminder.Store.{ClassReminder, ClassStatus, TimetableEvent}
use ragra_reminder.Timetable.{ClassOccurrence}
use ragra_reminder.ClassReminders.{lookahead}

-- A row of the user's timetable under this id, whose class is not cancelled.
abbrev pub IsHeld : ℕ → List TimetableEvent → ℕ → Type 0
IsHeld u events id =
    Some (λ e. (e.user_id ≡ u) × (e.id ≡ id) × (e.status ≡ ClassStatus.scheduled)) events

-- The reminder is the user's, its class is held, and it starts within the next 45 minutes.
abbrev pub IsAhead : ℕ → List TimetableEvent → ℕ → ClassReminder → Type 0
IsAhead u events now r =
    (r.user_id ≡ u)
    × (now ≤ r.scheduled_for)
    × (r.scheduled_for ≤ now + 45 * 60 * 1000000)
    × IsHeld u events r.timetable_event_id

-- The same of a class, a row and an occurrence, as far as they can say it.
abbrev IsListed : ℕ → List TimetableEvent → ℕ → ClassStatus → Type 0
IsListed u events id status = Some (λ e. (e.user_id ≡ u) × (e.id ≡ id) × (e.status ≡ status)) events

abbrev IsNear : ℕ → List TimetableEvent → ℕ → ClassOccurrence → Type 0
IsNear u events now o =
    (now ≤ o.starts_at_utc)
    × (o.starts_at_utc ≤ now + lookahead)
    × IsListed u events o.timetable_event_id o.status

module _ (u now clock : ℕ) (before : List ClassReminder) (events : List TimetableEvent) where
  -- Nothing but old rows and claims of classes ahead.
  abbrev IsAccounted : ClassReminder → Type 0
  IsAccounted r = Some (λ x. x ≡ r) before ⊎ IsAhead u events now r
