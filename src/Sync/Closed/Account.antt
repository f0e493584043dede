-- ===== src/Sync/Closed/Account.antt =====
-- The whole sync of one account under a relation that every statement keeps.
use ragra_reminder.Prelude.{ℕ, Option, none, List, [], ◌∷◌, Text, Bool-cases, inl, inr, is_empty}
use ragra_reminder.Store.{Db, SourceType, coursework, announcement, material, SyncSource, is_open}
use ragra_reminder.Store.Courses.{upsert_course}
use ragra_reminder.Store.Reminders.{cancel_backlog_reminders_for_already_overdue_tasks}
use ragra_reminder.Store.Reminders.{cancel_stray_reminders_for_terminal_tasks}
use ragra_reminder.Store.Tasks.{mark_overdue_tasks_as_missed, cancel_tasks_missing_from_source}
use ragra_reminder.Store.Syncs.{record_sync_start}
use ragra_reminder.Notify.{join_errors}
use ragra_reminder.Sync.Types.{
  ClassroomCourse, ClassroomItem, Outcome, answered, raised, Client, Decision, Environment,
  RelevanceContext, SyncSummary,
}
use ragra_reminder.Sync.Upsert.{apply_upsert}
use ragra_reminder.Sync.Sources.{
  kind_of, deadline_of, sync_items, Seen, sync_source, cancel_missing, sync_sources,
}
use ragra_reminder.Sync.{
  course_title, course_state, course_context, sync_open_course, sync_course, sync_courses,
  record_outcome, settle_account, reconcile, loaded_profile, profile_warning, sync_classroom,
}
use ragra_reminder.Sync.Closed.{IsClosed}
use ragra_reminder.Sync.Closed.Item.{apply_upsert_closed}

module _ (u : ℕ) (R : Db → Db → Type 0) (closed : IsClosed u R) (env : Environment)
    (clock : ℕ) where
  pub sync_items_closed :
      (course_id : ℕ) (source_type : SourceType) (context : Option RelevanceContext)
      (items : List ClassroomItem) (s : SyncSummary) (db : Db)
      → R db (sync_items env u course_id source_type context clock items (s, db)).1
  unfolding sync_items
  sync_items_closed course_id source_type context [] s db = closed.stays db
  sync_items_closed course_id source_type context (item ∷ items) s db =
      let one =
        apply_upsert env u course_id source_type item (kind_of source_type)
          (deadline_of source_type item) context clock (s, db) in
      closed.follows db one.1 _
        (apply_upsert_closed u R closed env clock course_id source_type item _ _ context s db)
        (sync_items_closed course_id source_type context items one.0 one.1)

  pub sync_source_closed :
      (course_id : ℕ) (name : Text) (source_type : SourceType) (context : Option RelevanceContext)
      (answer : Outcome (List ClassroomItem)) (seen : Seen) (s : SyncSummary) (db : Db)
      → R db (sync_source env u course_id name source_type context clock answer (seen, s, db)).2
  unfolding sync_source
  sync_source_closed course_id name source_type context (raised exc) seen s db = closed.stays db
  sync_source_closed course_id name source_type context (answered items) seen s db =
      sync_items_closed course_id source_type context items s db

  pub cancel_missing_closed :
      (course_id : ℕ) (seen : Seen) (s : SyncSummary) (db : Db)
      → R db (cancel_missing u course_id clock (seen, s, db)).1
  unfolding cancel_missing
  cancel_missing_closed course_id [] s db = closed.stays db
  cancel_missing_closed course_id ((source_type, ids) ∷ rest) s db =
      let one = cancel_tasks_missing_from_source u course_id source_type ids clock db in
      closed.follows db one.1 _ (closed.cancels_missing course_id source_type ids clock db)
        (cancel_missing_closed course_id rest _ one.1)

  pub sync_sources_closed :
      (client : Client) (course_id : ℕ) (external_id name : Text)
      (context : Option RelevanceContext) (s : SyncSummary) (db : Db)
      → R db (sync_sources env client u course_id external_id name context clock (s, db)).1
  unfolding sync_sources
  sync_sources_closed client course_id external_id name context s db =
      let a =
        sync_source env u course_id name coursework context clock
          (client.list_course_work external_id) ([], s, db) in
      let b =
        sync_source env u course_id name announcement context clock
          (client.list_announcements external_id) a in
      let c =
        sync_source env u course_id name material context clock
          (client.list_course_materials external_id) b in
      closed.follows db a.2 _
        (sync_source_closed course_id name coursework context (client.list_course_work external_id)
          [] s db)
        (closed.follows a.2 b.2 _
          (sync_source_closed course_id name announcement context
            (client.list_announcements external_id) a.0 a.1 a.2)
          (closed.follows b.2 c.2 _
            (sync_source_closed course_id name material context
              (client.list_course_materials external_id) b.0 b.1 b.2)
            (cancel_missing_closed course_id c.0 c.1 c.2)))

  pub sync_open_course_closed :
      (client : Client) (profile : Option (Text → Text → Text → Outcome Decision))
      (course : ClassroomCourse) (s : SyncSummary) (course_id : ℕ) (db : Db)
      → R db (sync_open_course env client u profile clock course s (course_id, db)).1
  sync_open_course_closed client profile course s course_id db =
      sync_sources_closed client course_id course.id (course_title course)
        (course_context profile course) s db

  pub sync_course_closed :
      (client : Client) (profile : Option (Text → Text → Text → Outcome Decision))
      (course : ClassroomCourse) (s : SyncSummary) (db : Db)
      → R db (sync_course env client u profile clock course (s, db)).1
  unfolding sync_course
  sync_course_closed client profile course s db =
      let up =
        upsert_course u course.id (course_title course) course.section none none
          (course_state course) clock db in
      elim (Bool-cases (is_open (course_state course))) [
        | inl active ↦ rw active (
            closed.follows db up.1 _
              (closed.upserts_course course.id _ _ none none (course_state course) clock db)
              (sync_open_course_closed client profile course _ up.0 up.1))
        | inr shut ↦ rw shut (closed.updates_course course.id (course_state course) clock db)
      ]

  pub sync_courses_closed :
      (client : Client) (profile : Option (Text → Text → Text → Outcome Decision))
      (courses : List ClassroomCourse) (s : SyncSummary) (db : Db)
      → R db (sync_courses env client u profile clock courses (s, db)).1
  unfolding sync_courses
  sync_courses_closed client profile [] s db = closed.stays db
  sync_courses_closed client profile (c ∷ cs) s db =
      let one = sync_course env client u profile clock c (s, db) in
      closed.follows db one.1 _ (sync_course_closed client profile c s db)
        (sync_courses_closed client profile cs one.0 one.1)

  pub record_outcome_closed : (s : SyncSummary) (db : Db) → R db (record_outcome u clock (s, db)).1
  record_outcome_closed s db = elim (Bool-cases (is_empty s.errors)) [
    | inl fine ↦ rw fine (closed.succeeds SyncSource.classroom clock db)
    | inr failed ↦ rw failed (closed.errs SyncSource.classroom (join_errors s.errors) db)
  ]

  pub settle_account_closed : (s : SyncSummary) (db : Db) → R db (settle_account u clock (s, db)).1
  unfolding settle_account
  settle_account_closed s db =
      let a = (cancel_backlog_reminders_for_already_overdue_tasks u db).1 in
      let b = (mark_overdue_tasks_as_missed u clock clock a).1 in
      let c = (cancel_stray_reminders_for_terminal_tasks u b).1 in
      closed.follows db a _ (closed.cancels_backlog db) (
        closed.follows a b _ (closed.marks_missed clock clock a) (
          closed.follows b c _ (closed.cancels_stray b)
            (record_outcome_closed (settle_account u clock (s, db)).0 c)))

  pub reconcile_closed :
      (client : Client) (profile : Option (Text → Text → Text → Outcome Decision))
      (answer : Outcome (List ClassroomCourse)) (s : SyncSummary) (db : Db)
      → R db (reconcile env client u profile clock answer (s, db)).1
  unfolding reconcile
  reconcile_closed client profile (raised exc) s db = closed.errs SyncSource.classroom exc db
  reconcile_closed client profile (answered courses) s db =
      let done = sync_courses env client u profile clock courses (s, db) in
      closed.follows db done.1 _ (sync_courses_closed client profile courses s db)
        (settle_account_closed done.0 done.1)

  pub sync_classroom_closed :
      (client : Client) (db : Db) → R db (sync_classroom env client u clock db).1
  unfolding sync_classroom
  sync_classroom_closed client db =
      closed.follows db (record_sync_start u SyncSource.classroom clock db) _
        (closed.starts SyncSource.classroom clock db)
        (reconcile_closed client (loaded_profile env.profile) client.list_courses
          (profile_warning env.profile) _)
