-- ===== src/Engine/Moments.antt =====
-- The moments and the types of a plan: `compute_reminder_plan` of ragra/reminders/engine.py.
use ragra_reminder.Prelude.{
  ℕ, ◌+◌, ◌-◌, ◌*◌, ◌/◌, ◌%◌, ◌≤◌, ◌≡◌, true, Bool-cases, inl, inr, List, [], ◌∷◌, leb, arith,
  select, All, All-append, All-select, All-imp, count_where, count_where-append,
  count_where-select-le, refl,
}
use ragra_reminder.Engine.Types.{
  Datetime, ReminderPlan, ReminderType, new_assignment, t_minus_7d, t_minus_5d, t_minus_2d,
  t_minus_1d, due_today, few_hours, midpoint_ping, final_1h, deadline_reached, type_eq, day, hour,
}
use ragra_reminder.Engine.{
  compute_reminder_plan, countdown, same_day_morning, half_delta, in_window, long_cadence,
  compressed_cadence, short_burst,
}
use ragra_reminder.Engine.Window.{discovery}

-- An hour in microseconds.
abbrev pub an_hour : ℕ
an_hour = 60 * 60 * 1000000

-- What each type promises of the moment, which is in UTC.
abbrev pub IsPromised : ReminderType → Datetime → Datetime → ℕ → Type 0
IsPromised new_assignment deadline discovered t = t ≡ discovered.utc
IsPromised t_minus_7d deadline discovered t = t ≡ deadline.utc - 7 * 24 * an_hour
IsPromised t_minus_5d deadline discovered t = t ≡ deadline.utc - 5 * 24 * an_hour
IsPromised t_minus_2d deadline discovered t = t ≡ deadline.utc - 2 * 24 * an_hour
IsPromised t_minus_1d deadline discovered t = t ≡ deadline.utc - 24 * an_hour
IsPromised due_today deadline discovered t =
    ((t + deadline.east) % (24 * an_hour) ≡ 8 * an_hour)
    × ((t + deadline.east) / (24 * an_hour) ≡ (deadline.utc + deadline.east) / (24 * an_hour))
IsPromised few_hours deadline discovered t = t ≡ deadline.utc - 3 * an_hour
IsPromised midpoint_ping deadline discovered t =
    (t + t ≤ discovered.utc + deadline.utc + 1) × (discovered.utc + deadline.utc ≤ t + t + 1)
IsPromised final_1h deadline discovered t = t ≡ deadline.utc - an_hour
IsPromised _ deadline discovered t = t ≡ deadline.utc

abbrev pub IsOnTime : Datetime → Datetime → ReminderPlan → Type 0
IsOnTime deadline discovered r = IsPromised r.reminder_type deadline discovered r.scheduled_for.utc

-- 08:00 on the clock of the deadline, of its day there. Two days into the calendar, no subtraction stops
-- at 0.
morning_time :
    (deadline : Datetime)
    → 2 * day ≤ deadline.utc
    → let t = (same_day_morning deadline).utc in
      ((t + deadline.east) % day ≡ 8 * hour)
      × ((t + deadline.east) / day ≡ (deadline.utc + deadline.east) / day)
unfolding same_day_morning
morning_time deadline late = (omega arith, omega arith)

half_delta_bounds :
    (d : ℕ) → (half_delta d + half_delta d ≤ d + 1) × (d ≤ half_delta d + half_delta d + 1)
unfolding half_delta
half_delta_bounds d = (ground arith, ground arith)

long-IsOnTime :
    (deadline discovered : Datetime)
    → 2 * day ≤ deadline.utc
    → All (IsOnTime deadline discovered) (long_cadence deadline discovered)
unfolding long_cadence
long-IsOnTime deadline discovered late = ground (arith, morning_time deadline late)

compressed-IsOnTime :
    (deadline discovered : Datetime)
    → All (IsOnTime deadline discovered) (compressed_cadence deadline discovered)
unfolding compressed_cadence
compressed-IsOnTime deadline discovered = ground arith

short-IsOnTime :
    (deadline discovered : Datetime)
    → discovered.utc ≤ deadline.utc
    → All (IsOnTime deadline discovered) (short_burst deadline discovered)
unfolding short_burst
short-IsOnTime deadline discovered ahead =
    ground (arith, half_delta_bounds (deadline.utc - discovered.utc))

kept-IsOnTime :
    (deadline discovered : Datetime) (l : List ReminderPlan)
    → All (IsOnTime deadline discovered) l
    → All (IsOnTime deadline discovered) (select (in_window deadline discovered) l)
kept-IsOnTime deadline discovered l h =
    All-imp (λ r. (in_window deadline discovered r ≡ true) × IsOnTime deadline discovered r)
      (IsOnTime deadline discovered) (λ r k. k.1) (select (in_window deadline discovered) l)
      (All-select (IsOnTime deadline discovered) (in_window deadline discovered) l h)

countdown-IsOnTime :
    (deadline discovered : Datetime)
    → discovered.utc ≤ deadline.utc
    → All (IsOnTime deadline discovered) (countdown deadline discovered)
unfolding countdown
countdown-IsOnTime deadline discovered ahead =
    elim (Bool-cases (leb (2 * day) (deadline.utc - discovered.utc))) [
      | inl long ↦ rw long (long-IsOnTime deadline discovered (ground arith))
      | inr short ↦ elim (Bool-cases (leb day (deadline.utc - discovered.utc))) [
        | inl middle ↦ rw (short, middle) (compressed-IsOnTime deadline discovered)
        | inr burst ↦ rw (short, burst) (short-IsOnTime deadline discovered ahead)
      ]
    ]

-- Every planned reminder is scheduled for the moment that its type promises: 7, 5, 2 or 1 days,
-- 3 hours or 1 hour before the deadline, 08:00 of the deadline's day on the deadline's own clock,
-- the middle of the time left but for half a microsecond, the discovery, or the deadline.
pub compute_reminder_plan-IsOnTime :
    (deadline discovered : Datetime)
    → All (IsOnTime deadline discovered) (compute_reminder_plan deadline discovered)
unfolding compute_reminder_plan
compute_reminder_plan-IsOnTime deadline discovered =
    elim (Bool-cases (leb deadline.utc discovered.utc)) [
      | inl overdue ↦ rw overdue tt
      | inr live ↦ rw live (
          All-append (IsOnTime deadline discovered)
            (select (in_window deadline discovered)
              (discovery discovered ∷ countdown deadline discovered))
            (record { reminder_type = deadline_reached; scheduled_for = deadline } ∷ [])
            (kept-IsOnTime deadline discovered
              (discovery discovered ∷ countdown deadline discovered)
              (refl, countdown-IsOnTime deadline discovered (ground arith)))
            (refl, tt))
    ]

abbrev pub times_planned : ReminderType → List ReminderPlan → ℕ
times_planned t l = count_where (λ r. type_eq r.reminder_type t) l

countdown_once :
    (t : ReminderType) (deadline discovered : Datetime)
    → times_planned t (discovery discovered ∷ countdown deadline discovered)
        + times_planned t
            (record { reminder_type = deadline_reached; scheduled_for = deadline } ∷ [])
      ≤ 1
unfolding countdown long_cadence compressed_cadence short_burst
countdown_once new_assignment deadline discovered = ground arith
countdown_once _ deadline discovered = ground arith

-- No type is planned twice.
pub planned_once :
    (t : ReminderType) (deadline discovered : Datetime)
    → times_planned t (compute_reminder_plan deadline discovered) ≤ 1
unfolding compute_reminder_plan
planned_once t deadline discovered = elim (Bool-cases (leb deadline.utc discovered.utc)) [
  | inl overdue ↦ rw overdue (omega arith)
  | inr live ↦ rw live (
      omega (
        arith,
        count_where-append (λ r. type_eq r.reminder_type t)
            (select (in_window deadline discovered)
              (discovery discovered ∷ countdown deadline discovered))
            (record { reminder_type = deadline_reached; scheduled_for = deadline } ∷ []),
        count_where-select-le (λ r. type_eq r.reminder_type t) (in_window deadline discovered)
            (discovery discovered ∷ countdown deadline discovered),
        countdown_once t deadline discovered,
      ))
]
