-- ===== src/Engine/Tests.antt =====
use ragra_reminder.Prelude.{◌≡◌, refl, List, [], ◌∷◌, ◌+◌, ◌*◌, map}
use ragra_reminder.Engine.{ReminderType, ReminderPlan, at_utc, day, hour, compute_reminder_plan}

abbrev types_of : List ReminderPlan → List ReminderType
types_of l = map (λ r. r.reminder_type) l

ten_days :
    types_of (compute_reminder_plan (at_utc (110 * day + 10 * hour)) (at_utc (100 * day)))
    ≡ ReminderType.new_assignment ∷ ReminderType.t_minus_7d ∷ ReminderType.t_minus_5d
      ∷ ReminderType.t_minus_2d ∷ ReminderType.due_today ∷ ReminderType.final_1h
      ∷ ReminderType.deadline_reached ∷ []
unfolding compute_reminder_plan
ten_days = refl
