-- ===== src/Store/Tenant/TaskWrites.antt =====
-- Courses, tasks and sync states: what is written for one user is not seen by another.
use ragra_reminder.Prelude.{
  ℕ, ◌≡◌, ◌≢◌, refl, Bool, true, ◌&&◌, Option, none, some, Text, arith, ◌==◌, Bool-cases, inl, inr,
  exists_row, update_where, option_eq, text_eq,
}
use ragra_reminder.Store.Rows.{
  Course, Task, TaskStatus, HistoryField, HistoryValue, CourseState, SyncSource, Relevance,
  relevance_eq,
}
use ragra_reminder.Store.State.{Db}
use ragra_reminder.Store.History.{record_history, is_task, task_row}
use ragra_reminder.Store.Courses.{
  is_course, insert_course, write_course, upsert_course, update_course_state_if_known,
}
use ragra_reminder.Store.Tasks.{
  set_status, mark_missed, missed_task, cancelled_task, cancel_task_from_source, write_relevance,
  set_task_relevance,
}
use ragra_reminder.Store.Syncs.{
  is_sync_of, record_sync_start, record_sync_success, record_sync_error,
}
use ragra_reminder.Store.Tenant.{SameFor, SameFor-refl, SameFor-trans}
use ragra_reminder.Store.Tenant.Tables.{
  unseen_update, unseen_insert, SameFor-tasks, SameFor-history, SameFor-courses, SameFor-syncs,
}

module _ (u v : ℕ) (other : u ≢ v) where
  pub record_history-SameFor :
      (task_id : ℕ) (f : HistoryField) (old new : Option HistoryValue) (clock : ℕ) (db : Db)
      → SameFor v db (record_history u task_id f old new clock db)
  unfolding record_history
  record_history-SameFor task_id f old new clock db =
      SameFor-history v db _ (unseen_insert (λ r. r.user_id) u v other db.history _ refl)

  -- An UPDATE of tasks that this user owns.
  pub update_tasks-SameFor :
      (p : Task → Bool) (f : Task → Task)
      → ((t : Task) → p t ≡ true → (t.user_id ≡ u) × ((f t).user_id ≡ u))
      → (db : Db) → SameFor v db (record db { tasks = update_where p f db.tasks })
  update_tasks-SameFor p f own db =
      SameFor-tasks v db _ (unseen_update (λ t. t.user_id) u v other p f own db.tasks)

  pub set_status-SameFor :
      (guard : Task → Bool) (change : Task → Task)
      → ((t : Task) → (change t).user_id ≡ t.user_id)
      → (status : TaskStatus) (task_id clock : ℕ) (db : Db)
      → SameFor v db (set_status guard change status u task_id clock db)
  set_status-SameFor guard change own status task_id clock db =
      let written =
        update_tasks-SameFor (λ t. is_task u task_id t && guard t) change
          (λ t h. ground (arith, own t)) db in
      elim (Bool-cases (exists_row (λ t. is_task u task_id t && guard t) db.tasks)) [
        | inl reached ↦
            rw reached
              (SameFor-trans v db _ _ written (record_history-SameFor task_id _ none _ clock _))
        | inr missed ↦ rw missed written
      ]

  pub mark_missed-SameFor :
      (task_id clock : ℕ) (db : Db) → SameFor v db (mark_missed u task_id clock db)
  unfolding mark_missed
  mark_missed-SameFor task_id clock db =
      set_status-SameFor _ (missed_task clock) (λ t. refl) _ task_id clock db

  pub cancel_task_from_source-SameFor :
      (task_id clock : ℕ) (db : Db) → SameFor v db (cancel_task_from_source u task_id clock db)
  unfolding cancel_task_from_source
  cancel_task_from_source-SameFor task_id clock db =
      set_status-SameFor _ (cancelled_task clock) (λ t. refl) _ task_id clock db

  write_relevance-SameFor :
      (task_id : ℕ) (decided : Relevance) (reason : Option Text) (clock : ℕ) (row : Option Task)
      (db : Db)
      → SameFor v db (write_relevance u task_id decided reason clock row db).1
  write_relevance-SameFor task_id decided reason clock none db = SameFor-refl v db
  write_relevance-SameFor task_id decided reason clock (some row) db =
      elim (Bool-cases
        (relevance_eq row.relevance decided && option_eq text_eq row.relevance_reason reason)) [
          | inl same ↦ rw same (SameFor-refl v db)
          | inr differs ↦ rw differs (
              SameFor-trans v db _ _
                (update_tasks-SameFor (is_task u task_id)
                  (λ t. record t {
                    relevance = decided;
                    relevance_reason = reason;
                    relevance_computed_at = some clock;
                  })
                  (λ t h. ground arith) db)
                (record_history-SameFor task_id _ _ _ clock _))
        ]

  pub set_task_relevance-SameFor :
      (task_id : ℕ) (decided : Relevance) (reason : Option Text) (clock : ℕ) (db : Db)
      → SameFor v db (set_task_relevance u task_id decided reason clock db).1
  unfolding set_task_relevance
  set_task_relevance-SameFor task_id decided reason clock db =
      write_relevance-SameFor task_id decided reason clock (task_row u task_id db) db

  pub insert_course-SameFor :
      (external_id name : Text) (section teacher code : Option Text) (state : CourseState)
      (clock : ℕ) (db : Db)
      → SameFor v db (insert_course u external_id name section teacher code state clock db).1
  insert_course-SameFor external_id name section teacher code state clock db =
      SameFor-courses v db _ _ (unseen_insert (λ c. c.user_id) u v other db.courses _ refl)

  write_course-SameFor :
      (external_id name : Text) (section teacher code : Option Text) (state : CourseState)
      (clock : ℕ) (row : Option Course) (db : Db)
      → SameFor v db (write_course u external_id name section teacher code state clock row db).1
  write_course-SameFor external_id name section teacher code state clock none db =
      insert_course-SameFor external_id name section teacher code state clock db
  write_course-SameFor external_id name section teacher code state clock (some existing) db =
      SameFor-courses v db _ _ (
        unseen_update (λ c. c.user_id) u v other (λ c. c.id == existing.id && c.user_id == u) _
          (λ c h. (ground arith, ground arith)) db.courses)

  pub upsert_course-SameFor :
      (external_id name : Text) (section teacher code : Option Text) (state : CourseState)
      (clock : ℕ) (db : Db)
      → SameFor v db (upsert_course u external_id name section teacher code state clock db).1
  unfolding upsert_course
  upsert_course-SameFor external_id name section teacher code state clock db =
      write_course-SameFor external_id name section teacher code state clock _ db

  pub update_course_state_if_known-SameFor :
      (external_id : Text) (state : CourseState) (clock : ℕ) (db : Db)
      → SameFor v db (update_course_state_if_known u external_id state clock db)
  unfolding update_course_state_if_known
  update_course_state_if_known-SameFor external_id state clock db = SameFor-courses v db _ _ (
      unseen_update (λ c. c.user_id) u v other (is_course u external_id) _ (λ c h. ground arith)
        db.courses)

  pub record_sync_start-SameFor :
      (source : SyncSource) (clock : ℕ) (db : Db)
      → SameFor v db (record_sync_start u source clock db)
  unfolding record_sync_start
  record_sync_start-SameFor source clock db =
      elim (Bool-cases (exists_row (is_sync_of u source) db.sync_states)) [
        | inl known ↦ rw known (
            SameFor-syncs v db _ (
              unseen_update (λ s. s.user_id) u v other (is_sync_of u source) _ (λ s h. ground arith)
                db.sync_states))
        | inr fresh ↦
            rw fresh (
              SameFor-syncs v db _ (unseen_insert (λ s. s.user_id) u v other db.sync_states _ refl))
      ]

  pub record_sync_success-SameFor :
      (source : SyncSource) (clock : ℕ) (db : Db)
      → SameFor v db (record_sync_success u source clock db)
  unfolding record_sync_success
  record_sync_success-SameFor source clock db = SameFor-syncs v db _ (
      unseen_update (λ s. s.user_id) u v other (is_sync_of u source) _ (λ s h. ground arith)
        db.sync_states)

  pub record_sync_error-SameFor :
      (source : SyncSource) (error : Text) (db : Db)
      → SameFor v db (record_sync_error u source error db)
  unfolding record_sync_error
  record_sync_error-SameFor source error db = SameFor-syncs v db _ (
      unseen_update (λ s. s.user_id) u v other (is_sync_of u source) _ (λ s h. ground arith)
        db.sync_states)
