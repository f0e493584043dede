-- ===== src/Store/History.antt =====
-- `record_history` of ragra/db/repo.py, and the tests by which rows are found.
use ragra_reminder.Prelude.{
  ℕ, Bool, false, ◌&&◌, Option, none, some, [], ◌∷◌, ◌++◌, Text, text_eq, ◌==◌, select, fetchone,
}
use ragra_reminder.Store.Rows.{Task, HistoryField, HistoryValue}
use ragra_reminder.Store.State.{Db}

-- `WHERE id = ? AND user_id = ?` on tasks
abbrev pub is_task : ℕ → ℕ → Task → Bool
is_task user_id task_id t = t.id == task_id && t.user_id == user_id

-- `column = ?` is not true of NULL.
abbrev pub column_is : Option Text → Text → Bool
column_is none v = false
column_is (some c) v = text_eq c v

-- SELECT … FROM tasks WHERE id = ? AND user_id = ?
abbrev pub task_row : ℕ → ℕ → Db → Option Task
task_row user_id task_id db = fetchone (select (is_task user_id task_id) db.tasks)

unfoldable pub record_history :
    ℕ → ℕ → HistoryField → Option HistoryValue → Option HistoryValue → ℕ → Db → Db
record_history user_id task_id field_name old_value new_value clock db = record db {
  history =
      db.history
      ++ record {
        user_id = user_id;
        task_id = task_id;
        changed_at = clock;
        field_name = field_name;
        old_value = old_value;
        new_value = new_value;
      }
        ∷ [];
}
