-- ===== src/Sessions.antt =====
-- ragra/web/sessions.py: server-side sessions of the web application.
--
-- The hash of a token (SHA-256) is a parameter, and a token, which the source draws at random, is an
-- argument of `create_session`. The table's primary key is the hash.
pub mod Rows
pub mod Lookup
pub mod Lifetime
pub mod Expiry
use ragra_reminder.Prelude.{
  ℕ, ◌+◌, ◌*◌, ◌≡◌, Bool, true, false, not, ◌||◌, Option, none, some, List, [], ◌∷◌, ◌++◌, Text,
  ltb, leb, ◌==◌, text_eq, if◌then◌else◌, select, fetchone, exists_row, update_where, delete_where,
  count_where, is_empty,
}
use ragra_reminder.Engine.{day}

abbrev pub absolute_lifetime : ℕ
absolute_lifetime = 7 * day

abbrev pub idle_timeout : ℕ
idle_timeout = 3 * day

-- A row of the table `sessions`.
pub record SessionRow : Type 0 where
  pub token_hash : Text
  pub user_id : ℕ
  pub created_at : ℕ
  pub last_seen_at : ℕ
  pub expires_at : ℕ

pub record Session : Type 0 where
  pub user_id : ℕ
  pub created_at : ℕ
  pub last_seen_at : ℕ
  pub expires_at : ℕ

-- `token_hash = ?`
abbrev pub has_hash : Text → SessionRow → Bool
has_hash h s = text_eq s.token_hash h

abbrev pub session_row : Text → ℕ → ℕ → ℕ → SessionRow
session_row h user_id now lifetime = record {
  token_hash = h;
  user_id = user_id;
  created_at = now;
  last_seen_at = now;
  expires_at = now + lifetime;
}

-- `now >= expires_at or now - last_seen_at >= idle_timeout`
abbrev pub is_dead : ℕ → ℕ → SessionRow → Bool
is_dead now idle s = leb s.expires_at now || leb (s.last_seen_at + idle) now

abbrev pub seen_at : ℕ → SessionRow → SessionRow
seen_at now s = record s { last_seen_at = now }

abbrev pub session_of : SessionRow → Session
session_of s = record {
  user_id = s.user_id;
  created_at = s.created_at;
  last_seen_at = s.last_seen_at;
  expires_at = s.expires_at;
}

-- What follows the SELECT of `lookup_session`.
abbrev pub resolve :
    Text → ℕ → ℕ → Bool → List SessionRow → Option SessionRow → Option Session × List SessionRow
resolve h now idle touch rows none = (none, rows)
resolve h now idle touch rows (some s) =
    if is_dead now idle s
    then (none, delete_where (has_hash h) rows)
    else if touch
    then (some (session_of (seen_at now s)), update_where (has_hash h) (seen_at now) rows)
    else (some (session_of s), rows)

module _ (hash_token : Text → Text) where
  -- The insert raises an IntegrityError, here `none`, if the key is taken.
  unfoldable pub create_session : Text → ℕ → ℕ → ℕ → List SessionRow → Option (List SessionRow)
  create_session token user_id now lifetime rows =
      if exists_row (has_hash (hash_token token)) rows
      then none
      else some (rows ++ session_row (hash_token token) user_id now lifetime ∷ [])

  unfoldable pub lookup_session :
      Option Text → ℕ → ℕ → Bool → List SessionRow → Option Session × List SessionRow
  lookup_session none now idle touch rows = (none, rows)
  lookup_session (some token) now idle touch rows =
      if is_empty token
      then (none, rows)
      else resolve (hash_token token) now idle touch rows
          (fetchone (select (has_hash (hash_token token)) rows))

  unfoldable pub revoke_session : Option Text → List SessionRow → Bool × List SessionRow
  revoke_session none rows = (false, rows)
  revoke_session (some token) rows = if is_empty token then (false, rows) else (
    ltb 0 (count_where (has_hash (hash_token token)) rows),
    delete_where (has_hash (hash_token token)) rows,
  )

-- `user_id = ?`
abbrev pub is_session_of : ℕ → SessionRow → Bool
is_session_of user_id s = s.user_id == user_id

unfoldable pub revoke_all_sessions_for_user : ℕ → List SessionRow → ℕ × List SessionRow
revoke_all_sessions_for_user user_id rows =
    (count_where (is_session_of user_id) rows, delete_where (is_session_of user_id) rows)

-- `expires_at <= ?`
abbrev pub is_expired : ℕ → SessionRow → Bool
is_expired now s = leb s.expires_at now

unfoldable pub purge_expired_sessions : ℕ → List SessionRow → ℕ × List SessionRow
purge_expired_sessions now rows =
    (count_where (is_expired now) rows, delete_where (is_expired now) rows)

unfoldable pub active_sessions_for_user : ℕ → List SessionRow → ℕ
active_sessions_for_user user_id rows = count_where (is_session_of user_id) rows
