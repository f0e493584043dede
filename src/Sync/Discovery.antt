-- ===== src/Sync/Discovery.antt =====
-- The invariant of `_assert_discovery_notification`: every discovered task with a live deadline has
-- its NEW_ASSIGNMENT reminder.
use ragra_reminder.Prelude.{
  ℕ, ◌≡◌, refl, subst, ap, ◌∙◌, ◌<◌, ◌&&◌, Bool, true, List, [], ◌∷◌, Text, arith, ◌==◌, leb,
  Bool-cases, inl, inr, exists_row, exists_row-append, All, map,
}
use ragra_reminder.Engine.{
  ReminderType, ReminderPlan, type_eq, type_eq_iff, type_eq_refl, new_assignment, at_utc,
  compute_reminder_plan,
}
use ragra_reminder.Engine.Cadence.{planned-eq-belongs}
use ragra_reminder.Store.{Db, Reminder, ReminderKey, KeyTail, TaskKind}
use ragra_reminder.Store.Reminders.{
  insert_reminder_if_absent, has_reminder_of_type, has_key, new_reminder,
}
use ragra_reminder.Store.Steps.Keys.{IsKeyed, Evolves-IsKeyed}
use ragra_reminder.Store.Steps.Writes.{insert_reminder_if_absent-Evolves}
use ragra_reminder.Sync.Types.{SyncSummary}
use ragra_reminder.Sync.Items.{
  insert_plan, schedule_reminders, assert_discovery_notification, idempotency_key,
}

module _ (u task_id : ℕ) (clock : ℕ) where
  abbrev of_type : ReminderType → Reminder → Bool
  of_type t r = r.user_id == u && r.task_id == task_id && type_eq r.reminder_type t

  -- A keyed row under the key is a row of the task and the type.
  keyed_row :
      (t : ReminderType) (tail : KeyTail) (l : List Reminder)
      → All IsKeyed l
      → exists_row (has_key u (record { task_id = task_id; reminder_type = t; tail = tail })) l
        ≡ true
      → exists_row (of_type t) l ≡ true
  keyed_row t tail [] k h = ground arith
  keyed_row t tail (r ∷ rs) k h =
      elim (Bool-cases
        (has_key u (record { task_id = task_id; reminder_type = t; tail = tail }) r)) [
          | inl here ↦ ground (arith, k.0.of_task, k.0.of_type)
          | inr later ↦ ground (arith, keyed_row t tail rs k.1 (ground arith))
        ]

  inserted_has :
      (t : ReminderType) (at : ℕ) (tail : KeyTail) (db : Db)
      → All IsKeyed db.reminders
      → has_reminder_of_type u task_id t
          (insert_reminder_if_absent u task_id t at
            (record { task_id = task_id; reminder_type = t; tail = tail })
            clock
            db).1
        ≡ true
  unfolding has_reminder_of_type insert_reminder_if_absent
  inserted_has t at tail db k =
      let key : ReminderKey = record { task_id = task_id; reminder_type = t; tail = tail } in
      elim (Bool-cases (exists_row (has_key u key) db.reminders)) [
        | inl taken ↦ rw taken (keyed_row t tail db.reminders k taken)
        | inr free ↦ rw free (
            exists_row-append (of_type t) db.reminders
              (new_reminder db.next_reminder u task_id t at key clock ∷ [])
            ∙ ground (arith, type_eq_refl t))
      ]

  insertion_keeps :
      (t s : ReminderType) (at : ℕ) (key : ReminderKey) (db : Db)
      → has_reminder_of_type u task_id t db ≡ true
      → has_reminder_of_type u task_id t (insert_reminder_if_absent u task_id s at key clock db).1
        ≡ true
  unfolding has_reminder_of_type insert_reminder_if_absent
  insertion_keeps t s at key db h = elim (Bool-cases (exists_row (has_key u key) db.reminders)) [
    | inl taken ↦ rw taken h
    | inr free ↦ rw free (
        exists_row-append (of_type t) db.reminders
          (new_reminder db.next_reminder u task_id s at key clock ∷ [])
        ∙ ground (arith, h))
  ]

  plan_keeps :
      (t : ReminderType) (deadline : ℕ) (ps : List ReminderPlan) (db : Db)
      → has_reminder_of_type u task_id t db ≡ true
      → has_reminder_of_type u task_id t (insert_plan u task_id deadline clock ps db) ≡ true
  unfolding insert_plan
  plan_keeps t deadline [] db h = h
  plan_keeps t deadline (p ∷ ps) db h =
      plan_keeps t deadline ps _ (insertion_keeps t p.reminder_type _ _ db h)

  plan_has :
      (t : ReminderType) (deadline : ℕ) (ps : List ReminderPlan) (db : Db)
      → All IsKeyed db.reminders
      → exists_row (λ p. type_eq p.reminder_type t) ps ≡ true
      → has_reminder_of_type u task_id t (insert_plan u task_id deadline clock ps db) ≡ true
  unfolding insert_plan
  plan_has t deadline [] db k h = ground arith
  plan_has t deadline (p ∷ ps) db k h =
      let key = idempotency_key task_id p.reminder_type deadline in
      let made =
        insert_reminder_if_absent u task_id p.reminder_type p.scheduled_for.utc key clock db in
      elim (Bool-cases (type_eq p.reminder_type t)) [
        | inl now ↦ plan_keeps t deadline ps made.1 (
            subst (λ x. has_reminder_of_type u task_id x made.1 ≡ true)
              ((type_eq_iff p.reminder_type t).0 now)
              (inserted_has p.reminder_type p.scheduled_for.utc key.tail db k))
        | inr later ↦
            plan_has t deadline ps made.1
              (Evolves-IsKeyed u
                (insert_reminder_if_absent-Evolves u task_id p.reminder_type p.scheduled_for.utc
                  key.tail clock db)
                k)
              (ground (arith, h))
      ]

  -- Scheduling a task with a live deadline leaves it with its NEW_ASSIGNMENT reminder.
  pub schedule_reminders_announces :
      (deadline : ℕ) (db : Db)
      → All IsKeyed db.reminders
      → clock < deadline
      → has_reminder_of_type u task_id new_assignment
          (schedule_reminders u task_id deadline clock db).1
        ≡ true
  unfolding schedule_reminders
  schedule_reminders_announces deadline db k live =
      plan_has new_assignment deadline (compute_reminder_plan (at_utc deadline) (at_utc clock)) db k
        (planned-eq-belongs new_assignment (at_utc deadline) (at_utc clock) ∙ ground arith)

overdue_plan :
    (deadline clock : ℕ)
    → leb deadline clock ≡ true
    → compute_reminder_plan (at_utc deadline) (at_utc clock) ≡ []
unfolding compute_reminder_plan
overdue_plan deadline clock h = rw h refl

no_plan :
    (u task_id clock deadline : ℕ) (db : Db)
    → leb deadline clock ≡ true
    → (schedule_reminders u task_id deadline clock db).0 ≡ []
unfolding schedule_reminders
no_plan u task_id clock deadline db h =
    ap (map (λ p. p.reminder_type)) (overdue_plan deadline clock h)

-- If the keys of the reminders are true to their rows, the check that follows the scheduling of a
-- discovered task never reports a missing discovery notification, for any kind and any deadline.
pub schedule_reminders_complete :
    (u task_id clock : ℕ) (kind : TaskKind) (deadline : ℕ) (title : Text) (s : SyncSummary)
    (db : Db)
    → All IsKeyed db.reminders
    → let (planned, after) = schedule_reminders u task_id deadline clock db in
      assert_discovery_notification u task_id kind planned title s after ≡ s
unfolding assert_discovery_notification
schedule_reminders_complete u task_id clock kind deadline title s db k =
    elim (Bool-cases (leb deadline clock)) [
      | inl overdue ↦
          let nothing : (schedule_reminders u task_id deadline clock db).0 ≡ [] =
            no_plan u task_id clock deadline db overdue in
          ground (arith, nothing)
      | inr live ↦
          ground (arith, schedule_reminders_announces u task_id clock deadline db k (ground arith))
    ]
