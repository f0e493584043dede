-- ===== src/Engine/Cadence.antt =====
-- Which reminders `compute_reminder_plan` plans, and for when.
use ragra_reminder.Prelude.{
  ℕ, true, sym, ◌-◌, ◌*◌, ◌≡◌, Bool, false, ◌&&◌, ◌||◌, List, [], ◌∷◌, ◌≤◌, ◌<◌, ◌∙◌, select, refl,
  exists_row-append, exists_row-select, Bool-cases, inl, inr, leb, ltb, arith, exists_row,
}
use ragra_reminder.Engine.Types.{
  Datetime, ReminderPlan, ReminderType, new_assignment, t_minus_7d, t_minus_5d, t_minus_2d,
  t_minus_1d, due_today, few_hours, midpoint_ping, final_1h, deadline_reached, type_eq, day, hour,
  minute,
}
use ragra_reminder.Engine.{
  compute_reminder_plan, countdown, same_day_morning, half_delta, in_window, long_cadence,
  compressed_cadence, short_burst,
}
use ragra_reminder.Engine.Window.{discovery}

-- The published schedule, by the lead time alone (DUE_TODAY also needs its morning to come before
-- the deadline).
abbrev pub belongs : ReminderType → Datetime → ℕ → Bool
belongs new_assignment deadline lead = ltb 0 lead
belongs t_minus_7d deadline lead = ltb (7 * day) lead
belongs t_minus_5d deadline lead = ltb (5 * day) lead
belongs t_minus_2d deadline lead = ltb (2 * day) lead
belongs t_minus_1d deadline lead = ltb day lead && ltb lead (2 * day)
belongs due_today deadline lead =
    leb (2 * day) lead && ltb (same_day_morning deadline).utc deadline.utc
belongs few_hours deadline lead = leb day lead && ltb lead (2 * day)
belongs midpoint_ping deadline lead = ltb (5 * minute) (half_delta lead) && ltb lead day
belongs final_1h deadline lead = ltb hour lead
belongs deadline_reached deadline lead = ltb 0 lead
belongs _ deadline lead = false

abbrev pub planned : ReminderType → Datetime → Datetime → Bool
planned t deadline discovered =
    exists_row (λ r. type_eq r.reminder_type t) (compute_reminder_plan deadline discovered)

-- The plan as a row of tests, with the discovery first and the announcement of the deadline last.
abbrev drafted : ReminderType → Datetime → Datetime → List ReminderPlan → Bool
drafted t deadline discovered l =
    exists_row (λ r. type_eq r.reminder_type t && in_window deadline discovered r)
      (discovery discovered ∷ l)
    || type_eq deadline_reached t

drafted_lem :
    (t : ReminderType) (deadline discovered : Datetime)
    → leb deadline.utc discovered.utc ≡ false
    → planned t deadline discovered ≡ drafted t deadline discovered (countdown deadline discovered)
unfolding compute_reminder_plan
drafted_lem t deadline discovered live = rw live (
    exists_row-append (λ r. type_eq r.reminder_type t)
      (select (in_window deadline discovered)
        (discovery discovered ∷ countdown deadline discovered))
      (record { reminder_type = deadline_reached; scheduled_for = deadline } ∷ [])
    ∙ ground (
      arith,
      exists_row-select (λ r. type_eq r.reminder_type t) (in_window deadline discovered)
          (discovery discovered ∷ countdown deadline discovered),
    ))

drafted-long :
    (t : ReminderType) (deadline discovered : Datetime)
    → 2 * day ≤ deadline.utc - discovered.utc
    → drafted t deadline discovered (long_cadence deadline discovered)
      ≡ belongs t deadline (deadline.utc - discovered.utc)
unfolding long_cadence same_day_morning
drafted-long new_assignment deadline discovered h = ground arith
drafted-long _ deadline discovered h = ground arith

drafted-compressed :
    (t : ReminderType) (deadline discovered : Datetime)
    → deadline.utc - discovered.utc < 2 * day
    → day ≤ deadline.utc - discovered.utc
    → drafted t deadline discovered (compressed_cadence deadline discovered)
      ≡ belongs t deadline (deadline.utc - discovered.utc)
unfolding compressed_cadence
drafted-compressed new_assignment deadline discovered h k = ground arith
drafted-compressed _ deadline discovered h k = ground arith

drafted-short :
    (t : ReminderType) (deadline discovered : Datetime)
    → discovered.utc < deadline.utc
    → deadline.utc - discovered.utc < day
    → drafted t deadline discovered (short_burst deadline discovered)
      ≡ belongs t deadline (deadline.utc - discovered.utc)
unfolding short_burst half_delta
drafted-short new_assignment deadline discovered h k = ground arith
drafted-short _ deadline discovered h k = ground arith

belongs_overdue : (t : ReminderType) (deadline : Datetime) → belongs t deadline 0 ≡ false
unfolding half_delta
belongs_overdue new_assignment deadline = refl
belongs_overdue _ deadline = ground arith

drafted-countdown :
    (t : ReminderType) (deadline discovered : Datetime)
    → leb deadline.utc discovered.utc ≡ false
    → drafted t deadline discovered (countdown deadline discovered)
      ≡ belongs t deadline (deadline.utc - discovered.utc)
unfolding countdown
drafted-countdown t deadline discovered live =
    elim (Bool-cases (leb (2 * day) (deadline.utc - discovered.utc))) [
      | inl long ↦ rw long (drafted-long t deadline discovered (ground arith))
      | inr short ↦ elim (Bool-cases (leb day (deadline.utc - discovered.utc))) [
        | inl middle ↦
            rw (short, middle)
              (drafted-compressed t deadline discovered (ground arith) (ground arith))
        | inr burst ↦
            rw (short, burst) (drafted-short t deadline discovered (ground arith) (ground arith))
      ]
    ]

planned_overdue :
    (t : ReminderType) (deadline discovered : Datetime)
    → leb deadline.utc discovered.utc ≡ true
    → planned t deadline discovered ≡ belongs t deadline (deadline.utc - discovered.utc)
unfolding compute_reminder_plan
planned_overdue t deadline discovered overdue =
    let no_lead : deadline.utc - discovered.utc ≡ 0 = ground arith in
    rw (overdue, no_lead) (sym (belongs_overdue t deadline))

-- For every deadline and every moment of discovery, each type of reminder is planned exactly when
-- the schedule, read off the lead time, has it.
pub planned-eq-belongs :
    (t : ReminderType) (deadline discovered : Datetime)
    → planned t deadline discovered ≡ belongs t deadline (deadline.utc - discovered.utc)
planned-eq-belongs t deadline discovered = elim (Bool-cases (leb deadline.utc discovered.utc)) [
  | inl overdue ↦ planned_overdue t deadline discovered overdue
  | inr live ↦ drafted_lem t deadline discovered live ∙ drafted-countdown t deadline discovered live
]
