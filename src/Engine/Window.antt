-- ===== src/Engine/Window.antt =====
-- When the planned reminders fire: `compute_reminder_plan` of ragra/reminders/engine.py.
use ragra_reminder.Prelude.{
  ◌≤◌, ◌≡◌, true, Bool-cases, inl, inr, List, [], ◌∷◌, All, All-append, All-select, All-imp, arith,
  leb, select,
}
use ragra_reminder.Engine.Types.{Datetime, ReminderPlan, new_assignment, deadline_reached}
use ragra_reminder.Engine.{compute_reminder_plan, countdown, in_window}

-- A reminder is inside the window from the discovery to the deadline; only the last one, which
-- announces the deadline itself, fires at the deadline.
pub record IsTimely (deadline discovered : Datetime) (r : ReminderPlan) : Type 0 where
  pub after_discovery : discovered.utc ≤ r.scheduled_for.utc
  pub by_deadline : r.scheduled_for.utc ≤ deadline.utc
  pub at_deadline : r.scheduled_for.utc ≡ deadline.utc → r.reminder_type ≡ deadline_reached

abbrev pub discovery : Datetime → ReminderPlan
discovery discovered = record { reminder_type = new_assignment; scheduled_for = discovered }

All-trivial : (l : List ReminderPlan) → All (λ r. Unit {0}) l
All-trivial [] = tt
All-trivial (x ∷ l) = (tt, All-trivial l)

kept_IsTimely :
    (deadline discovered : Datetime) (l : List ReminderPlan)
    → All (IsTimely deadline discovered) (select (in_window deadline discovered) l)
kept_IsTimely deadline discovered l =
    All-imp (λ r. (in_window deadline discovered r ≡ true) × Unit) (IsTimely deadline discovered)
      (λ r h. ground (arith, h.0)) (select (in_window deadline discovered) l)
      (All-select (λ r. Unit) (in_window deadline discovered) l (All-trivial l))

-- Every planned reminder fires between the discovery and the deadline, both included, and only
-- DEADLINE_REACHED fires at the deadline itself.
pub compute_reminder_plan-IsTimely :
    (deadline discovered : Datetime)
    → All (IsTimely deadline discovered) (compute_reminder_plan deadline discovered)
unfolding compute_reminder_plan
compute_reminder_plan-IsTimely deadline discovered =
    elim (Bool-cases (leb deadline.utc discovered.utc)) [
      | inl overdue ↦ rw overdue tt
      | inr live ↦ rw live (
          All-append (IsTimely deadline discovered)
            (select (in_window deadline discovered)
              (discovery discovered ∷ countdown deadline discovered))
            (record { reminder_type = deadline_reached; scheduled_for = deadline } ∷ [])
            (kept_IsTimely deadline discovered
              (discovery discovered ∷ countdown deadline discovered))
            (ground arith))
    ]
