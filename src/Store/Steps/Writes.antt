-- ===== src/Store/Steps/Writes.antt =====
-- Each operation of ragra/db/repo.py that a sync calls, as steps of the reminders table.
use ragra_reminder.Prelude.{
  ℕ, ◌≡◌, refl, sym, subst, Bool, true, false, not, ◌&&◌, ◌+◌, Option, none, some, List, [], ◌∷◌,
  Text, arith, Bool-cases, inl, inr, exists_row, count_where, ltb, if◌then◌else◌, select,
}
use ragra_reminder.Engine.{ReminderType}
use ragra_reminder.Store.Rows.{
  Task, Course, Reminder, TaskStatus, KeyTail, Relevance, SourceType, CourseState,
}
use ragra_reminder.Store.State.{Db}
use ragra_reminder.Store.History.{record_history, is_task, task_row}
use ragra_reminder.Store.Courses.{upsert_course, write_course}
use ragra_reminder.Store.Reminders.{
  cancel_pending_reminders, is_pending_of, contains_type, insert_reminder_if_absent, has_key,
  cancel_backlog, overdue_at_discovery, cancel_backlog_reminders_for_already_overdue_tasks,
  is_stray, cancel_stray_reminders_for_terminal_tasks,
}
use ragra_reminder.Store.Tasks.{
  set_status, mark_missed, cancel_task_from_source, write_relevance, set_task_relevance, is_overdue,
  mark_each_missed, mark_overdue_tasks_as_missed, is_live_in_source, is_seen, cancel_each,
  cancel_tasks_missing_from_source,
}
use ragra_reminder.Store.Upsert.{
  SourceItem, Tracked, tracked_fields, record_changes, insert_source_task, reconcile_task,
  is_unchanged_source, upsert_over, upsert_task_from_source,
}
use ragra_reminder.Store.Steps.{Evolves, here, next, cancels, adds, Evolves-trans}

set_status_reminders :
    (guard : Task → Bool) (change : Task → Task) (s : TaskStatus) (u task_id clock : ℕ) (db : Db)
    → (set_status guard change s u task_id clock db).reminders ≡ db.reminders
unfolding record_history
set_status_reminders guard change s u task_id clock db =
    elim (Bool-cases (exists_row (λ t. is_task u task_id t && guard t) db.tasks)) [
      | inl reached ↦ rw reached refl
      | inr missed ↦ rw missed refl
    ]

record_changes_reminders :
    (u task_id clock : ℕ) (fs : List Tracked) (db : Db)
    → (record_changes u task_id clock fs db).reminders ≡ db.reminders
unfolding record_changes record_history
record_changes_reminders u task_id clock [] db = refl
record_changes_reminders u task_id clock (f ∷ fs) db = elim (Bool-cases f.differs) [
  | inl differs ↦ rw differs (record_changes_reminders u task_id clock fs _)
  | inr same ↦ rw same (record_changes_reminders u task_id clock fs db)
]

upsert_over_reminders :
    (u course_id : ℕ) (item : SourceItem) (clock : ℕ) (row : Option Task) (db : Db)
    → (upsert_over u course_id item clock row db).1.reminders ≡ db.reminders
unfolding upsert_over insert_source_task reconcile_task record_history
upsert_over_reminders u course_id item clock none db = refl
upsert_over_reminders u course_id item clock (some t) db =
    elim (Bool-cases (is_unchanged_source item t)) [
      | inl same ↦ rw same refl
      | inr differs ↦ rw differs (record_changes_reminders u t.id clock (tracked_fields t item) db)
    ]

write_relevance_reminders :
    (u task_id : ℕ) (decided : Relevance) (reason : Option Text) (clock : ℕ) (row : Option Task)
    (db : Db)
    → (write_relevance u task_id decided reason clock row db).1.reminders ≡ db.reminders
unfolding record_history
write_relevance_reminders u task_id decided reason clock none db = refl
write_relevance_reminders u task_id decided reason clock (some row) db = ground arith

write_course_reminders :
    (u : ℕ) (external_id name : Text) (section teacher code : Option Text) (state : CourseState)
    (clock : ℕ) (row : Option Course) (db : Db)
    → (write_course u external_id name section teacher code state clock row db).1.reminders
      ≡ db.reminders
write_course_reminders u external_id name section teacher code state clock none db = refl
write_course_reminders u external_id name section teacher code state clock (some row) db = refl

kept : (u : ℕ) {l m : List Reminder} → m ≡ l → Evolves u l m
kept u {l = l} {m = m} e = subst (λ x. Evolves u l x) (sym e) here

pub upsert_task_from_source-Evolves :
    (u course_id : ℕ) (item : SourceItem) (clock : ℕ) (db : Db)
    → Evolves u db.reminders (upsert_task_from_source u course_id item clock db).1.reminders
unfolding upsert_task_from_source
upsert_task_from_source-Evolves u course_id item clock db =
    kept u (upsert_over_reminders u course_id item clock _ db)

pub set_task_relevance-Evolves :
    (u task_id : ℕ) (decided : Relevance) (reason : Option Text) (clock : ℕ) (db : Db)
    → Evolves u db.reminders (set_task_relevance u task_id decided reason clock db).1.reminders
unfolding set_task_relevance
set_task_relevance-Evolves u task_id decided reason clock db =
    kept u (write_relevance_reminders u task_id decided reason clock (task_row u task_id db) db)

pub upsert_course-Evolves :
    (u : ℕ) (external_id name : Text) (section teacher code : Option Text) (state : CourseState)
    (clock : ℕ) (db : Db)
    → Evolves u db.reminders
        (upsert_course u external_id name section teacher code state clock db).1.reminders
unfolding upsert_course
upsert_course-Evolves u external_id name section teacher code state clock db =
    kept u (write_course_reminders u external_id name section teacher code state clock _ db)

pub cancel_pending_reminders-Evolves :
    (u task_id : ℕ) (except : List ReminderType) (db : Db)
    → Evolves u db.reminders (cancel_pending_reminders u task_id except db).reminders
unfolding cancel_pending_reminders
cancel_pending_reminders-Evolves u task_id except db = next here (
    cancels db.reminders
      (λ r. is_pending_of u task_id r && not (contains_type except r.reminder_type))
      (λ r h. ground arith))

pub insert_reminder_if_absent-Evolves :
    (u task_id : ℕ) (t : ReminderType) (at : ℕ) (tail : KeyTail) (clock : ℕ) (db : Db)
    → Evolves u db.reminders
        (insert_reminder_if_absent u task_id t at
          (record { task_id = task_id; reminder_type = t; tail = tail })
          clock
          db).1.reminders
unfolding insert_reminder_if_absent
insert_reminder_if_absent-Evolves u task_id t at tail clock db =
    elim (Bool-cases (
      exists_row (has_key u (record { task_id = task_id; reminder_type = t; tail = tail }))
        db.reminders)) [
          | inl taken ↦ rw taken here
          | inr free ↦
              rw free (next here (adds db.reminders db.next_reminder task_id t at tail clock free))
        ]

mark_each_missed-Evolves :
    (u clock : ℕ) (ts : List Task) (db : Db)
    → Evolves u db.reminders (mark_each_missed u clock ts db).reminders
unfolding mark_each_missed mark_missed
mark_each_missed-Evolves u clock [] db = here
mark_each_missed-Evolves u clock (t ∷ ts) db =
    Evolves-trans u (kept u (set_status_reminders _ _ _ u t.id clock db)) (
      Evolves-trans u (cancel_pending_reminders-Evolves u t.id [] (mark_missed u t.id clock db))
        (mark_each_missed-Evolves u clock ts _))

pub mark_overdue_tasks_as_missed-Evolves :
    (u now clock : ℕ) (db : Db)
    → Evolves u db.reminders (mark_overdue_tasks_as_missed u now clock db).1.reminders
unfolding mark_overdue_tasks_as_missed
mark_overdue_tasks_as_missed-Evolves u now clock db =
    mark_each_missed-Evolves u clock (select (is_overdue u now) db.tasks) db

cancel_each-Evolves :
    (u clock : ℕ) (ts : List Task) (db : Db)
    → Evolves u db.reminders (cancel_each u clock ts db).reminders
unfolding cancel_each cancel_task_from_source
cancel_each-Evolves u clock [] db = here
cancel_each-Evolves u clock (t ∷ ts) db =
    Evolves-trans u (kept u (set_status_reminders _ _ _ u t.id clock db)) (
      Evolves-trans u
        (cancel_pending_reminders-Evolves u t.id [] (cancel_task_from_source u t.id clock db))
        (cancel_each-Evolves u clock ts _))

pub cancel_tasks_missing_from_source-Evolves :
    (u course_id : ℕ) (source_type : SourceType) (seen : List Text) (clock : ℕ) (db : Db)
    → Evolves u db.reminders
        (cancel_tasks_missing_from_source u course_id source_type seen clock db).1.reminders
unfolding cancel_tasks_missing_from_source
cancel_tasks_missing_from_source-Evolves u course_id source_type seen clock db =
    cancel_each-Evolves u clock
      (select (λ t. not (is_seen seen t.external_id))
        (select (is_live_in_source u course_id source_type) db.tasks))
      db

cleared-Evolves :
    (u : ℕ) (b : Bool) (task_id : ℕ) (db : Db)
    → Evolves u db.reminders (if b then cancel_pending_reminders u task_id [] db else db).reminders
cleared-Evolves u true task_id db = cancel_pending_reminders-Evolves u task_id [] db
cleared-Evolves u false task_id db = here

cancel_backlog-Evolves :
    (u : ℕ) (ts : List Task) (total : ℕ) (db : Db)
    → Evolves u db.reminders (cancel_backlog u ts total db).1.reminders
unfolding cancel_backlog
cancel_backlog-Evolves u [] total db = here
cancel_backlog-Evolves u (t ∷ ts) total db =
    let left = count_where (is_pending_of u t.id) db.reminders in
    Evolves-trans u (cleared-Evolves u (ltb 0 left) t.id db)
      (cancel_backlog-Evolves u ts (total + left) _)

pub cancel_backlog_reminders-Evolves :
    (u : ℕ) (db : Db)
    → Evolves u db.reminders (cancel_backlog_reminders_for_already_overdue_tasks u db).1.reminders
unfolding cancel_backlog_reminders_for_already_overdue_tasks
cancel_backlog_reminders-Evolves u db =
    cancel_backlog-Evolves u (select (overdue_at_discovery u) db.tasks) 0 db

pub cancel_stray_reminders-Evolves :
    (u : ℕ) (db : Db)
    → Evolves u db.reminders (cancel_stray_reminders_for_terminal_tasks u db).1.reminders
unfolding cancel_stray_reminders_for_terminal_tasks
cancel_stray_reminders-Evolves u db =
    next here (cancels db.reminders (is_stray u db.tasks) (λ r h. ground arith))
