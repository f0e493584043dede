-- ===== src/Sync/Stray.antt =====
-- The clean-up of reminders at the end of a sync, in ragra/sync/classroom_sync.py and ragra/db/repo.py.
use ragra_reminder.Prelude.{
  ℕ, ◌≡◌, refl, Option, none, some, ◌⊎◌, All-imp, sym, subst, Bool, true, false, List, [], ◌∷◌,
  arith, All, Bool-cases, inl, inr, if◌then◌else◌, is_empty, update_where,
}
use ragra_reminder.Store.{Db, Reminder, ReminderStatus, Task, TaskStatus}
use ragra_reminder.Store.Reminders.{
  is_stray, task_of, cancelled_reminder, cancel_stray_reminders_for_terminal_tasks,
}
use ragra_reminder.Store.Syncs.{record_sync_success, record_sync_error}
use ragra_reminder.Sync.Types.{ClassroomCourse, Client, Environment, Outcome, answered, SyncSummary}
use ragra_reminder.Sync.{
  sync_classroom, sync_courses, reconcile, settle_account, record_outcome, loaded_profile,
}

-- What the clean-up leaves, by its own test.
abbrev IsSwept : ℕ → Db → Type 0
IsSwept u db = All (λ r. is_stray u db.tasks r ≡ false) db.reminders

cancelled_if-tidy :
    (u : ℕ) (tasks : List Task) (r : Reminder) (b : Bool)
    → is_stray u tasks r ≡ b
    → is_stray u tasks (if b then cancelled_reminder r else r) ≡ false
cancelled_if-tidy u tasks r true h = ground arith
cancelled_if-tidy u tasks r false h = h

swept :
    (u : ℕ) (tasks : List Task) (l : List Reminder)
    → All (λ r. is_stray u tasks r ≡ false) (update_where (is_stray u tasks) cancelled_reminder l)
swept u tasks [] = tt
swept u tasks (r ∷ rs) = (cancelled_if-tidy u tasks r (is_stray u tasks r) refl, swept u tasks rs)

cancel_stray_reminders-IsSwept :
    (u : ℕ) (db : Db) → IsSwept u (cancel_stray_reminders_for_terminal_tasks u db).1
unfolding cancel_stray_reminders_for_terminal_tasks
cancel_stray_reminders-IsSwept u db = swept u db.tasks db.reminders

record_outcome-IsSwept :
    (u clock : ℕ) (s : SyncSummary) (db : Db)
    → IsSwept u db
    → IsSwept u (record_outcome u clock (s, db)).1
unfolding record_sync_success record_sync_error
record_outcome-IsSwept u clock s db h = elim (Bool-cases (is_empty s.errors)) [
  | inl fine ↦ rw fine h
  | inr failed ↦ rw failed h
]

settle_account-IsSwept :
    (u clock : ℕ) (s : SyncSummary) (db : Db) → IsSwept u (settle_account u clock (s, db)).1
unfolding settle_account
settle_account-IsSwept u clock s db =
    record_outcome-IsSwept u clock (settle_account u clock (s, db)).0 _
      (cancel_stray_reminders-IsSwept u _)

reconcile-IsSwept :
    (u : ℕ) (env : Environment) (client : Client) (clock : ℕ)
    (answer : Outcome (List ClassroomCourse)) (courses : List ClassroomCourse)
    (state : SyncSummary × Db)
    → answer ≡ answered courses
    → IsSwept u (reconcile env client u (loaded_profile env.profile) clock answer state).1
unfolding reconcile
reconcile-IsSwept u env client clock answer courses state e =
    let profile = loaded_profile env.profile in
    let done = sync_courses env client u profile clock courses state in
    subst (λ a. IsSwept u (reconcile env client u profile clock a state).1) (sym e)
      (settle_account-IsSwept u clock done.0 done.1)

-- The task is completed, cancelled or missed.
abbrev pub IsOver : Option Task → Type 0
IsOver none = ⊥
IsOver (some t) =
    (t.status ≡ TaskStatus.completed)
    ⊎ ((t.status ≡ TaskStatus.cancelled) ⊎ (t.status ≡ TaskStatus.missed))

-- No pending reminder of the user belongs to a task that is over.
abbrev pub IsTidy : ℕ → Db → Type 0
IsTidy u db =
    All
      (λ r. ¬ (
        (r.user_id ≡ u)
        × (r.status ≡ ReminderStatus.pending)
        × IsOver (task_of db.tasks r.task_id)))
      db.reminders

stray_found :
    (u : ℕ) (tasks : List Task) (r : Reminder) (o : Option Task)
    → task_of tasks r.task_id ≡ o
    → IsOver o
    → r.user_id ≡ u
    → r.status ≡ ReminderStatus.pending
    → is_stray u tasks r ≡ true
stray_found u tasks r none e over own waits = elim over [ ]
stray_found u tasks r (some t) e (inl done) own waits = ground (arith, e, done, own, waits)
stray_found u tasks r (some t) e (inr (inl off)) own waits = ground (arith, e, off, own, waits)
stray_found u tasks r (some t) e (inr (inr late)) own waits = ground (arith, e, late, own, waits)

IsSwept-IsTidy : (u : ℕ) (db : Db) → IsSwept u db → IsTidy u db
IsSwept-IsTidy u db =
    All-imp (λ r. is_stray u db.tasks r ≡ false)
      (λ r. ¬ (
        (r.user_id ≡ u)
        × (r.status ≡ ReminderStatus.pending)
        × IsOver (task_of db.tasks r.task_id)))
      (λ r swept h. absurd (
        ground
          (arith, swept, stray_found u db.tasks r (task_of db.tasks r.task_id) refl h.2 h.0 h.1)))
      db.reminders

-- If Classroom lists the courses, then after the sync no pending reminder of the user belongs to a
-- completed, cancelled or missed task.
pub sync_classroom-IsTidy :
    (u : ℕ) (env : Environment) (client : Client) (clock : ℕ) (db : Db)
    (courses : List ClassroomCourse)
    → client.list_courses ≡ answered courses
    → IsTidy u (sync_classroom env client u clock db).1
unfolding sync_classroom
sync_classroom-IsTidy u env client clock db courses e =
    IsSwept-IsTidy u (sync_classroom env client u clock db).1
      (reconcile-IsSwept u env client clock client.list_courses courses _ e)
