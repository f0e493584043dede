-- ===== src/Sync/Whole.antt =====
-- Discovery notifications in the sync of an account (ragra/sync/classroom_sync.py).
use ragra_reminder.Prelude.{
  ℕ, ◌≡◌, refl, ◌∙◌, ◌+◌, Option, none, List, [], ◌∷◌, Text, All, Bool-cases, inl, inr, length,
}
use ragra_reminder.Store.{Db, SourceType, SyncSource, is_open, coursework, announcement, material}
use ragra_reminder.Store.Courses.{upsert_course}
use ragra_reminder.Store.Tasks.{cancel_tasks_missing_from_source}
use ragra_reminder.Store.Syncs.{record_sync_start}
use ragra_reminder.Store.Steps.Keys.{IsKeyed}
use ragra_reminder.Sync.Types.{
  ClassroomCourse, ClassroomItem, Outcome, answered, raised, Client, Decision, Environment,
  RelevanceContext, SyncSummary,
}
use ragra_reminder.Sync.Sources.{Seen, sync_source, cancel_missing, sync_sources}
use ragra_reminder.Sync.{
  course_title, course_state, course_context, sync_course, sync_courses, settle_account, reconcile,
  loaded_profile, profile_warning, sync_classroom,
}
use ragra_reminder.Sync.Reminders.{Evolution, Evolution-IsClosed}
use ragra_reminder.Sync.Closed.Account.{sync_source_closed, sync_course_closed}
use ragra_reminder.Sync.Complete.{missing, keeps, missing-sync_items}

module _ (u : ℕ) (env : Environment) (clock : ℕ) where
  missing-sync_source :
      (course_id : ℕ) (name : Text) (source_type : SourceType) (context : Option RelevanceContext)
      (answer : Outcome (List ClassroomItem)) (seen : Seen) (s : SyncSummary) (db : Db)
      → All IsKeyed db.reminders
      → missing (sync_source env u course_id name source_type context clock answer (seen, s, db)).1
        ≡ missing s
  unfolding sync_source
  missing-sync_source course_id name source_type context (raised exc) seen s db k = refl
  missing-sync_source course_id name source_type context (answered items) seen s db k =
      missing-sync_items u env clock course_id source_type context items s db k

  missing-cancel_missing :
      (course_id : ℕ) (seen : Seen) (s : SyncSummary) (db : Db)
      → missing (cancel_missing u course_id clock (seen, s, db)).0 ≡ missing s
  unfolding cancel_missing
  missing-cancel_missing course_id [] s db = refl
  missing-cancel_missing course_id ((source_type, ids) ∷ rest) s db =
      let one = cancel_tasks_missing_from_source u course_id source_type ids clock db in
      missing-cancel_missing course_id rest
        (record s { tasks_cancelled = s.tasks_cancelled + length one.0 }) one.1

  missing-sync_sources :
      (client : Client) (course_id : ℕ) (external_id name : Text)
      (context : Option RelevanceContext) (s : SyncSummary) (db : Db)
      → All IsKeyed db.reminders
      → missing (sync_sources env client u course_id external_id name context clock (s, db)).0
        ≡ missing s
  unfolding sync_sources
  missing-sync_sources client course_id external_id name context s db k =
      let works = client.list_course_work external_id in
      let posts = client.list_announcements external_id in
      let files = client.list_course_materials external_id in
      let a = sync_source env u course_id name coursework context clock works ([], s, db) in
      let b = sync_source env u course_id name announcement context clock posts a in
      let c = sync_source env u course_id name material context clock files b in
      let closed =
        sync_source_closed u (Evolution u) (Evolution-IsClosed u) env clock course_id name in
      let ka = keeps u env clock db a.2 (closed coursework context works [] s db) k in
      let kb = keeps u env clock a.2 b.2 (closed announcement context posts a.0 a.1 a.2) ka in
      missing-cancel_missing course_id c.0 c.1 c.2
      ∙ missing-sync_source course_id name material context files b.0 b.1 b.2 kb
      ∙ missing-sync_source course_id name announcement context posts a.0 a.1 a.2 ka
      ∙ missing-sync_source course_id name coursework context works [] s db k

  missing-sync_course :
      (client : Client) (profile : Option (Text → Text → Text → Outcome Decision))
      (course : ClassroomCourse) (s : SyncSummary) (db : Db)
      → All IsKeyed db.reminders
      → missing (sync_course env client u profile clock course (s, db)).0 ≡ missing s
  unfolding sync_course
  missing-sync_course client profile course s db k =
      let up =
        upsert_course u course.id (course_title course) course.section none none
          (course_state course) clock db in
      elim (Bool-cases (is_open (course_state course))) [
        | inl active ↦ rw active (
            missing-sync_sources client up.0 course.id (course_title course)
              (course_context profile course) (record s { courses_seen = s.courses_seen + 1 }) up.1
              (keeps u env clock db up.1
                ((Evolution-IsClosed u).upserts_course course.id (course_title course)
                  course.section none none (course_state course) clock db)
                k))
        | inr shut ↦ rw shut refl
      ]

  missing-sync_courses :
      (client : Client) (profile : Option (Text → Text → Text → Outcome Decision))
      (courses : List ClassroomCourse) (s : SyncSummary) (db : Db)
      → All IsKeyed db.reminders
      → missing (sync_courses env client u profile clock courses (s, db)).0 ≡ missing s
  unfolding sync_courses
  missing-sync_courses client profile [] s db k = refl
  missing-sync_courses client profile (c ∷ cs) s db k =
      let one = sync_course env client u profile clock c (s, db) in
      missing-sync_courses client profile cs one.0 one.1 (
        keeps u env clock db one.1
          (sync_course_closed u (Evolution u) (Evolution-IsClosed u) env clock client profile c s
            db)
          k)
      ∙ missing-sync_course client profile c s db k

  missing-reconcile :
      (client : Client) (profile : Option (Text → Text → Text → Outcome Decision))
      (answer : Outcome (List ClassroomCourse)) (s : SyncSummary) (db : Db)
      → All IsKeyed db.reminders
      → missing (reconcile env client u profile clock answer (s, db)).0 ≡ missing s
  unfolding reconcile settle_account
  missing-reconcile client profile (raised exc) s db k = refl
  missing-reconcile client profile (answered courses) s db k =
      missing-sync_courses client profile courses s db k

missing-profile_warning :
    (p : Outcome (Text → Text → Text → Outcome Decision)) → missing (profile_warning p) ≡ []
missing-profile_warning (raised exc) = refl
missing-profile_warning (answered f) = refl

-- If the keys of the reminders are true to their rows, a sync reports no missing discovery
-- notification, whatever Classroom answers.
pub sync_classroom_complete :
    (u : ℕ) (env : Environment) (client : Client) (clock : ℕ) (db : Db)
    → All IsKeyed db.reminders
    → (sync_classroom env client u clock db).0.missing_discovery_notification ≡ []
unfolding sync_classroom record_sync_start
sync_classroom_complete u env client clock db k =
    missing-reconcile u env clock client (loaded_profile env.profile) client.list_courses
      (profile_warning env.profile) (record_sync_start u SyncSource.classroom clock db) k
    ∙ missing-profile_warning env.profile
