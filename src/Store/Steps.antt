-- ===== src/Store/Steps.antt =====
-- A relation for how the reminders table of ragra/db/repo.py changes outside a dispatch: a row is added
-- under a key that is free, or pending rows are cancelled.
pub mod Writes
pub mod Keys
use ragra_reminder.Prelude.{
  ℕ, ◌≡◌, Bool, true, false, List, [], ◌∷◌, ◌++◌, exists_row, update_where,
}
use ragra_reminder.Engine.{ReminderType}
use ragra_reminder.Store.Rows.{Reminder, KeyTail, is_pending}
use ragra_reminder.Store.Reminders.{cancelled_reminder, has_key, new_reminder}

pub data Step (u : ℕ) : List Reminder → List Reminder → Type 0 where
  cancels :
      (l : List Reminder) (p : Reminder → Bool)
      → ((r : Reminder) → p r ≡ true → is_pending r.status ≡ true)
      → Step u l (update_where p cancelled_reminder l)
  adds :
      (l : List Reminder) (id task_id : ℕ) (t : ReminderType) (at : ℕ) (tail : KeyTail) (clock : ℕ)
      → exists_row (has_key u (record { task_id = task_id; reminder_type = t; tail = tail })) l
        ≡ false
      → Step u l (
          l
          ++ new_reminder id u task_id t at
              (record { task_id = task_id; reminder_type = t; tail = tail })
              clock
            ∷ [])

pub data Evolves (u : ℕ) (l : List Reminder) : List Reminder → Type 0 where
  here : Evolves u l l
  next : {m n : List Reminder} → Evolves u l m → Step u m n → Evolves u l n

pub Evolves-trans : (u : ℕ) {l m n : List Reminder} → Evolves u l m → Evolves u m n → Evolves u l n
Evolves-trans u h here = h
Evolves-trans u h (next k s) = next (Evolves-trans u h k) s
