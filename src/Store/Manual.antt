-- ===== src/Store/Manual.antt =====
-- Manual tasks, in ragra/db/repo.py: the tasks that the user owns, and their boundary with those
-- that Classroom owns.
use mathlib.Core.Option
use ragra_reminder.Prelude.{
  ℕ, suc, Bool, true, false, not, ◌&&◌, Option, none, some, [], ◌∷◌, ◌++◌, Text, text_eq, ◌==◌,
  if◌then◌else◌, is_empty, is_none, option_eq, select, fetchone, update_where,
}
use ragra_reminder.Store.Rows.{
  Task, source_eq, manual, announcement, actionable, action_required, planned, default_relevant,
  is_cancelled, HistoryField, HistoryValue, text_value, stamp_value, created_field, title_field,
  description_field, actual_deadline_field,
}
use ragra_reminder.Store.State.{Db}
use ragra_reminder.Store.History.{record_history, is_task, task_row}
use ragra_reminder.Store.Courses.{personal_course_id}
use ragra_reminder.Store.Tasks.{cancel_task_from_source}
use ragra_reminder.Store.Strip.{strip}

-- `TaskSourceViolation`, for a missing task and for one that Classroom owns, and `ValueError`.
pub data StoreError : Type 0 where
  no_such_task not_manual no_title no_such_announcement not_announcement : StoreError

pub data Result (A : Type 0) : Type 0 where
  ok : A → Result A
  err : StoreError → Result A

infixl 5 ◌>>=◌ ◌>>◌
abbrev pub ◌>>=◌ : {A B : Type 0} → Result A → (A → Result B) → Result B
ok a >>= f = f a
err e >>= f = err e

abbrev pub ◌>>◌ : {B : Type 0} → Result (Unit {0}) → Result B → Result B
m >> k = m >>= λ _. k

abbrev pub require : Bool → StoreError → Result (Unit {0})
require true e = ok tt
require false e = err e

-- `_require_manual_task`
unfoldable pub require_manual_task : ℕ → ℕ → Db → Result (Unit {0})
require_manual_task user_id task_id db = elim (task_row user_id task_id db) [
  | none ↦ err no_such_task
  | some row ↦ require (source_eq row.source_type manual) not_manual
]

-- `if x:` for an optional text
abbrev pub is_given : Option Text → Bool
is_given none = false
is_given (some s) = not (is_empty s)

abbrev pub manual_row : ℕ → ℕ → ℕ → Text → Option Text → Option ℕ → Option Text → ℕ → Task
manual_row id user_id course_id title description actual_deadline personal_deadline clock = record {
  id = id;
  user_id = user_id;
  course_id = course_id;
  source_type = manual;
  external_id = none;
  title = title;
  description = description;
  link = none;
  kind = actionable;
  status = if is_given personal_deadline then planned else action_required;
  actual_deadline = actual_deadline;
  personal_deadline = personal_deadline;
  source_published_at = none;
  source_updated_at = none;
  completed_at = none;
  missed_at = none;
  cancelled_at = none;
  created_at = clock;
  updated_at = clock;
  relevance = default_relevant;
  relevance_reason = none;
  relevance_computed_at = none;
  parent_task_id = none;
}

abbrev pub insert_manual : ℕ → Text → Option Text → Option ℕ → Option Text → ℕ → ℕ × Db → ℕ × Db
insert_manual user_id title description actual_deadline personal_deadline clock (course_id, db) = (
  db.next_task,
  record_history user_id db.next_task created_field none (some (text_value title)) clock
      (record db {
        tasks =
            db.tasks
            ++ manual_row db.next_task user_id course_id title description actual_deadline
                personal_deadline clock
              ∷ [];
        next_task = suc db.next_task;
      }),
)

unfoldable pub create_manual_task :
    ℕ → Text → Option Text → Option ℕ → Option Text → ℕ → Db → Result (ℕ × Db)
create_manual_task user_id title description actual_deadline personal_deadline clock db = do
  require (not (is_empty (strip title))) no_title
  ok (
      insert_manual user_id (strip title) description actual_deadline personal_deadline clock
        (personal_course_id user_id clock db))

-- `title is not None and not title.strip()`
abbrev pub is_blank_title : Option Text → Bool
is_blank_title none = false
is_blank_title (some t) = is_empty (strip t)

abbrev pub clean_title : Option Text → Text → Text
clean_title none old = old
clean_title (some t) old = strip t

abbrev pub log_if :
    Bool → ℕ → ℕ → HistoryField → Option HistoryValue → Option HistoryValue → ℕ → Db → Db
log_if differs user_id task_id field_name old_value new_value clock db =
    if differs then record_history user_id task_id field_name old_value new_value clock db else db

abbrev pub given_or {ℓ} : {A : Type ℓ} → Option A → Option A → Option A
given_or none old = old
given_or (some a) old = some a

abbrev pub edited : Option Text → Option Text → Option ℕ → ℕ → Task → Task
edited title description actual_deadline clock t = record t {
  title = clean_title title t.title;
  description = given_or description t.description;
  actual_deadline = given_or actual_deadline t.actual_deadline;
  updated_at = clock;
}

-- The audit trail of an edit: each column that differs, in order.
abbrev pub log_edit : ℕ → Task → Task → ℕ → Db → Db
log_edit user_id old new clock db =
    log_if (not (option_eq ◌==◌ old.actual_deadline new.actual_deadline)) user_id old.id
      actual_deadline_field (Option.map stamp_value old.actual_deadline)
      (Option.map stamp_value new.actual_deadline) clock
      (log_if (not (option_eq text_eq old.description new.description)) user_id old.id
        description_field (Option.map text_value old.description)
        (Option.map text_value new.description) clock
        (log_if (not (text_eq old.title new.title)) user_id old.id title_field
          (some (text_value old.title)) (some (text_value new.title)) clock db))

-- The columns that were given are written.
abbrev pub apply_edit : ℕ → Task → Option Text → Option Text → Option ℕ → ℕ → Db → Db
apply_edit user_id existing title description actual_deadline clock db =
    log_edit user_id existing (edited title description actual_deadline clock existing) clock
      (record db {
        tasks =
            update_where (is_task user_id existing.id)
              (edited title description actual_deadline clock) db.tasks;
      })

abbrev pub nothing_given : Option Text → Option Text → Option ℕ → Bool
nothing_given title description actual_deadline =
    is_none title && is_none description && is_none actual_deadline

unfoldable pub update_manual_task :
    ℕ → ℕ → Option Text → Option Text → Option ℕ → ℕ → Db → Result Db
unfolding require_manual_task
update_manual_task user_id task_id title description actual_deadline clock db = do
  require_manual_task user_id task_id db
  require (not (is_blank_title title)) no_title
  ok (
      if nothing_given title description actual_deadline
      then db
      else elim (task_row user_id task_id db) [
        | none ↦ db
        | some existing ↦ apply_edit user_id existing title description actual_deadline clock db
      ])

unfoldable pub cancel_task : ℕ → ℕ → ℕ → Db → Result Db
unfolding require_manual_task
cancel_task user_id task_id clock db = do
  require_manual_task user_id task_id db
  ok (cancel_task_from_source user_id task_id clock db)

abbrev pub is_child_of : ℕ → ℕ → Task → Bool
is_child_of user_id parent t =
    t.user_id == user_id
    && option_eq ◌==◌ t.parent_task_id (some parent)
    && not (is_cancelled t.status)

abbrev pub set_parent : ℕ → ℕ → ℕ × Db → ℕ × Db
set_parent user_id parent (task_id, db) = (
  task_id,
  record db {
    tasks =
        update_where (is_task user_id task_id) (λ t. record t { parent_task_id = some parent })
          db.tasks;
  },
)

-- `title or announcement["title"]`
abbrev pub title_or : Option Text → Text → Text
title_or none t = t
title_or (some s) t = if is_empty s then t else s

unfoldable pub create_task_from_announcement :
    ℕ → ℕ → Option Text → Option ℕ → Option Text → ℕ → Db → Result (ℕ × Db)
unfolding create_manual_task
create_task_from_announcement user_id announcement_id title actual_deadline personal_deadline clock
      db =
    elim (task_row user_id announcement_id db) [
      | none ↦ err no_such_announcement
      | some row ↦
          if source_eq row.source_type announcement
          then elim (fetchone (select (is_child_of user_id announcement_id) db.tasks)) [
            | some existing ↦ ok (existing.id, db)
            | none ↦ do
              made ←
                  create_manual_task user_id (title_or title row.title) none actual_deadline
                    personal_deadline clock db
              ok (set_parent user_id announcement_id made)
          ]
          else err not_announcement
    ]
