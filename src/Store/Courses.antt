-- ===== src/Store/Courses.antt =====
-- The courses table of ragra/db/repo.py.
use ragra_reminder.Prelude.{
  ℕ, suc, Bool, ◌&&◌, Option, none, some, [], ◌∷◌, ◌++◌, Text, codes, text_eq, ◌==◌, select,
  fetchone, update_where,
}
use ragra_reminder.Store.Rows.{Course, CourseState, active}
use ragra_reminder.Store.State.{Db}

abbrev pub personal_course_external_id : Text
personal_course_external_id = codes "__personal__"

-- `user_id = ? AND external_id = ?`
abbrev pub is_course : ℕ → Text → Course → Bool
is_course user_id external_id c = c.user_id == user_id && text_eq c.external_id external_id

abbrev pub insert_course :
    ℕ → Text → Text → Option Text → Option Text → Option Text → CourseState → ℕ → Db → ℕ × Db
insert_course user_id external_id name section teacher course_code state clock db = (
  db.next_course,
  record db {
    courses =
        db.courses
        ++ record {
          id = db.next_course;
          user_id = user_id;
          external_id = external_id;
          course_code = course_code;
          name = name;
          section = section;
          teacher = teacher;
          state = state;
          created_at = clock;
          updated_at = clock;
        }
          ∷ [];
    next_course = suc db.next_course;
  },
)

-- What is written, by the row that was found.
abbrev pub write_course :
    ℕ
    → Text
    → Text
    → Option Text
    → Option Text
    → Option Text
    → CourseState
    → ℕ
    → Option Course
    → Db
    → ℕ × Db
write_course user_id external_id name section teacher course_code state clock none db =
    insert_course user_id external_id name section teacher course_code state clock db
write_course user_id external_id name section teacher course_code state clock (some existing) db = (
  existing.id,
  record db {
    courses =
        update_where (λ c. c.id == existing.id && c.user_id == user_id)
          (λ c. record c {
            course_code = course_code;
            name = name;
            section = section;
            teacher = teacher;
            state = state;
            updated_at = clock;
          })
          db.courses;
  },
)

unfoldable pub upsert_course :
    ℕ → Text → Text → Option Text → Option Text → Option Text → CourseState → ℕ → Db → ℕ × Db
upsert_course user_id external_id name section teacher course_code state clock db =
    write_course user_id external_id name section teacher course_code state clock
      (fetchone (select (is_course user_id external_id) db.courses)) db

unfoldable pub update_course_state_if_known : ℕ → Text → CourseState → ℕ → Db → Db
update_course_state_if_known user_id external_id state clock db = record db {
  courses =
      update_where (is_course user_id external_id)
        (λ c. record c { state = state; updated_at = clock }) db.courses;
}

-- The pseudo-course of a user's own tasks, created when it is first asked for.
unfoldable pub personal_course_id : ℕ → ℕ → Db → ℕ × Db
personal_course_id user_id clock db =
    elim (fetchone (select (is_course user_id personal_course_external_id) db.courses)) [
      | none ↦
          insert_course user_id personal_course_external_id (codes "Personal") none none none active
            clock db
      | some existing ↦ (existing.id, db)
    ]
