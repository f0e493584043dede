-- ===== src/Engine.antt =====
-- ragra/reminders/engine.py: the reminders that a task with a deadline should have.
--
-- A moment is a number of microseconds since 0001-01-01T00:00, the least `datetime`; what leaves
-- the range of `datetime` (an OverflowError of the source, in its first days) is not modelled.
mod Types
mod Message
pub mod Window
pub mod Cadence
pub mod Moments
pub mod Tests
unfoldable pub use Types.*
pub use Message.*
use ragra_reminder.Prelude.{
  ℕ, ◌+◌, ◌-◌, ◌*◌, ◌/◌, ◌%◌, Bool, ◌&&◌, List, [], ◌∷◌, ◌++◌, leb, ltb, ◌==◌, if◌then◌else◌,
  select,
}

-- `timedelta / 2`, which rounds half a microsecond to the even neighbour.
pub half_delta : ℕ → ℕ
half_delta d = let k = d / 2 in if d % 2 == 1 && k % 2 == 1 then k + 1 else k

-- `deadline.replace(hour=8, minute=0, second=0, microsecond=0)`, on the deadline's own wall clock.
-- `east` is a day more than the offset, which changes no time of day.
pub same_day_morning : Datetime → Datetime
same_day_morning d = record d { utc = (d.utc + d.east) / day * day + 8 * hour - d.east }

-- The loop over 7, 5 and 2 days.
multi_day : Datetime → Datetime → List (ℕ × ReminderType) → List ReminderPlan
multi_day deadline discovered [] = []
multi_day deadline discovered ((days, type) ∷ rest) =
    let candidate = minus deadline (days * day) in
    let later = multi_day deadline discovered rest in
    if ltb discovered.utc candidate.utc
    then record { reminder_type = type; scheduled_for = candidate } ∷ later
    else later

long_cadence : Datetime → Datetime → List ReminderPlan
unfolding multi_day same_day_morning
long_cadence deadline discovered =
    multi_day deadline discovered ((7, t_minus_7d) ∷ (5, t_minus_5d) ∷ (2, t_minus_2d) ∷ [])
    ++ record { reminder_type = due_today; scheduled_for = same_day_morning deadline }
      ∷ record { reminder_type = final_1h; scheduled_for = minus deadline hour }
      ∷ []

compressed_cadence : Datetime → Datetime → List ReminderPlan
compressed_cadence deadline discovered =
    let one_day_before = minus deadline day in
    (if ltb discovered.utc one_day_before.utc
      then record { reminder_type = t_minus_1d; scheduled_for = one_day_before } ∷ []
      else [])
    ++ record { reminder_type = few_hours; scheduled_for = minus deadline (3 * hour) }
      ∷ record { reminder_type = final_1h; scheduled_for = minus deadline hour }
      ∷ []

short_burst : Datetime → Datetime → List ReminderPlan
unfolding half_delta
short_burst deadline discovered =
    let lead_time = deadline.utc - discovered.utc in
    let midpoint = plus discovered (half_delta lead_time) in
    (if ltb (discovered.utc + 5 * minute) midpoint.utc
      then record { reminder_type = midpoint_ping; scheduled_for = midpoint } ∷ []
      else [])
    ++ (if ltb hour lead_time
        then record { reminder_type = final_1h; scheduled_for = minus deadline hour } ∷ []
        else [])

-- The branches of the body after the discovery ping, by the lead time.
pub countdown : Datetime → Datetime → List ReminderPlan
unfolding long_cadence compressed_cadence short_burst
countdown deadline discovered =
    let lead_time = deadline.utc - discovered.utc in
    if leb (2 * day) lead_time
    then long_cadence deadline discovered
    else if leb day lead_time
    then compressed_cadence deadline discovered
    else short_burst deadline discovered

-- `discovered_at <= r.scheduled_for < actual_deadline`
abbrev pub in_window : Datetime → Datetime → ReminderPlan → Bool
in_window deadline discovered r =
    leb discovered.utc r.scheduled_for.utc && ltb r.scheduled_for.utc deadline.utc

unfoldable pub compute_reminder_plan : Datetime → Datetime → List ReminderPlan
unfolding countdown
compute_reminder_plan deadline discovered =
    if leb deadline.utc discovered.utc
    then []
    else select (in_window deadline discovered) (
        record { reminder_type = new_assignment; scheduled_for = discovered }
        ∷ countdown deadline discovered)
      ++ record { reminder_type = deadline_reached; scheduled_for = deadline } ∷ []
