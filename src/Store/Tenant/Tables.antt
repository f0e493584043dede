-- ===== src/Store/Tenant/Tables.antt =====
-- Writing one table, for the accounts that the write does not concern: an UPDATE or a DELETE of
-- rows that one user owns, and an INSERT of such a row, is not seen by another.
use ragra_reminder.Prelude.{
  ℕ, ◌≡◌, ◌≢◌, Bool, true, List, [], ◌∷◌, ◌++◌, arith, ◌==◌, select, update_where, delete_where,
  select-update_where, select-delete_where, select_insert_other,
}
use ragra_reminder.Store.Rows.{
  Course, Task, TaskHistory, Reminder, Delivery, ChatMessage, SyncState, CalendarEvent,
}
use ragra_reminder.Store.State.{Db}
use ragra_reminder.Store.Tenant.{
  SameFor, courses_of, sync_states_of, tasks_of, reminders_of, history_of, deliveries_of, chat_of,
  calendar_of,
}

module _ {A : Type 0} (owner : A → ℕ) (u v : ℕ) (other : u ≢ v) where
  pub unseen_update :
      (p : A → Bool) (f : A → A)
      → ((r : A) → p r ≡ true → (owner r ≡ u) × (owner (f r) ≡ u))
      → (l : List A)
      → select (λ r. owner r == v) (update_where p f l) ≡ select (λ r. owner r == v) l
  unseen_update p f own l =
      select-update_where (λ r. owner r == v) p f (λ r h. ground (arith, own r h)) l

  pub unseen_delete :
      (p : A → Bool)
      → ((r : A) → p r ≡ true → owner r ≡ u)
      → (l : List A) → select (λ r. owner r == v) (delete_where p l) ≡ select (λ r. owner r == v) l
  unseen_delete p own l =
      select-delete_where (λ r. owner r == v) p (λ r h. ground (arith, own r h)) l

  pub unseen_insert :
      (l : List A) (x : A)
      → owner x ≡ u
      → select (λ r. owner r == v) (l ++ x ∷ []) ≡ select (λ r. owner r == v) l
  unseen_insert l x own = select_insert_other (λ r. owner r == v) l x (ground arith)

module _ (v : ℕ) (db : Db) where
  pub SameFor-reminders :
      (l : List Reminder)
      → reminders_of v l ≡ reminders_of v db.reminders
      → SameFor v db (record db { reminders = l })
  SameFor-reminders l h = ground arith

  pub SameFor-tasks :
      (l : List Task) → tasks_of v l ≡ tasks_of v db.tasks → SameFor v db (record db { tasks = l })
  SameFor-tasks l h = ground arith

  pub SameFor-history :
      (l : List TaskHistory)
      → history_of v l ≡ history_of v db.history
      → SameFor v db (record db { history = l })
  SameFor-history l h = ground arith

  pub SameFor-deliveries :
      (l : List Delivery)
      → deliveries_of v l ≡ deliveries_of v db.deliveries
      → SameFor v db (record db { deliveries = l })
  SameFor-deliveries l h = ground arith

  pub SameFor-chat :
      (l : List ChatMessage) (n : ℕ)
      → chat_of v l ≡ chat_of v db.chat
      → SameFor v db (record db { chat = l; next_message = n })
  SameFor-chat l n h = ground arith

  pub SameFor-new_reminder :
      (l : List Reminder) (n : ℕ)
      → reminders_of v l ≡ reminders_of v db.reminders
      → SameFor v db (record db { reminders = l; next_reminder = n })
  SameFor-new_reminder l n h = ground arith

  pub SameFor-new_task :
      (l : List Task) (n : ℕ)
      → tasks_of v l ≡ tasks_of v db.tasks
      → SameFor v db (record db { tasks = l; next_task = n })
  SameFor-new_task l n h = ground arith

  pub SameFor-courses :
      (l : List Course) (n : ℕ)
      → courses_of v l ≡ courses_of v db.courses
      → SameFor v db (record db { courses = l; next_course = n })
  SameFor-courses l n h = ground arith

  pub SameFor-syncs :
      (l : List SyncState)
      → sync_states_of v l ≡ sync_states_of v db.sync_states
      → SameFor v db (record db { sync_states = l })
  SameFor-syncs l h = ground arith

  pub SameFor-calendar :
      (l : List CalendarEvent)
      → calendar_of v l ≡ calendar_of v db.calendar_events
      → SameFor v db (record db { calendar_events = l })
  SameFor-calendar l h = ground arith
