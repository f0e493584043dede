-- ===== src/Store/Syncs.antt =====
-- The sync_state table of ragra/db/repo.py: what became of the last run of each source.
use ragra_reminder.Prelude.{
  ℕ, Bool, ◌&&◌, Option, none, some, [], ◌∷◌, ◌++◌, Text, ◌==◌, if◌then◌else◌, select, fetchone,
  exists_row, update_where,
}
use ragra_reminder.Store.Rows.{
  SyncState, SyncSource, sync_source_eq, running, ok_status, error_status,
}
use ragra_reminder.Store.State.{Db}

-- `user_id = ? AND source = ?`
abbrev pub is_sync_of : ℕ → SyncSource → SyncState → Bool
is_sync_of user_id source s = s.user_id == user_id && sync_source_eq s.source source

abbrev pub started_sync : ℕ → SyncSource → ℕ → SyncState
started_sync user_id source clock = record {
  user_id = user_id;
  source = source;
  last_synced_at = some clock;
  last_success_at = none;
  last_error = none;
  status = running;
}

-- INSERT … ON CONFLICT(user_id, source) DO UPDATE
unfoldable pub record_sync_start : ℕ → SyncSource → ℕ → Db → Db
record_sync_start user_id source clock db = record db {
  sync_states =
      if exists_row (is_sync_of user_id source) db.sync_states
      then update_where (is_sync_of user_id source)
          (λ s. record s { last_synced_at = some clock; status = running }) db.sync_states
      else db.sync_states ++ started_sync user_id source clock ∷ [];
}

unfoldable pub record_sync_success : ℕ → SyncSource → ℕ → Db → Db
record_sync_success user_id source clock db = record db {
  sync_states =
      update_where (is_sync_of user_id source)
        (λ s. record s { last_success_at = some clock; status = ok_status; last_error = none })
        db.sync_states;
}

unfoldable pub get_sync_state : ℕ → SyncSource → Db → Option SyncState
get_sync_state user_id source db = fetchone (select (is_sync_of user_id source) db.sync_states)

unfoldable pub record_sync_error : ℕ → SyncSource → Text → Db → Db
record_sync_error user_id source error db = record db {
  sync_states =
      update_where (is_sync_of user_id source)
        (λ s. record s { status = error_status; last_error = some error }) db.sync_states;
}
