-- ===== src/Examples/SignIn.antt =====
-- A table with one session, and the theorems on sessions at it.
use ragra_reminder.Prelude.{
  ◌≡◌, ◌<◌, refl, text_eq, ◌+◌, ◌*◌, true, some, List, [], ◌∷◌, ◌++◌, Text, codes, arith,
}
use ragra_reminder.Engine.{hour}
use ragra_reminder.Sessions.{
  SessionRow, Session, session_row, absolute_lifetime, idle_timeout, create_session, lookup_session,
  purge_expired_sessions,
}
use ragra_reminder.Sessions.Lookup.{lookup_session-create_session}
use ragra_reminder.Sessions.Lifetime.{Used, no_session, created}
use ragra_reminder.Sessions.Expiry.{lookup_session_lifetime, lookup_session-purge_expired_sessions}
use ragra_reminder.Examples.{now}

-- A stand-in for the hash.
abbrev tagged : Text → Text
tagged t = codes "h" ++ t

abbrev token : Text
token = codes "tok"

abbrev signed_in : List SessionRow
signed_in = session_row (tagged token) 1 now absolute_lifetime ∷ []

issued : create_session tagged token 1 now absolute_lifetime [] ≡ some signed_in
unfolding create_session
issued = refl

signed_in-Used : Used tagged absolute_lifetime signed_in
signed_in-Used = created [] signed_in token 1 now absolute_lifetime no_session (omega arith) issued

abbrev seen : Session
seen = record {
  user_id = 1;
  created_at = now;
  last_seen_at = now + hour;
  expires_at = now + absolute_lifetime;
}

lookup_session-create_session_example :
    (lookup_session tagged (some token) (now + hour) idle_timeout true signed_in).0 ≡ some seen
lookup_session-create_session_example =
    lookup_session-create_session tagged token 1 now absolute_lifetime (now + hour) idle_timeout
      true [] signed_in refl issued (omega arith) (omega arith)

answered_seen :
    (lookup_session tagged (some token) (now + hour) idle_timeout true signed_in).0 ≡ some seen
unfolding lookup_session text_eq
answered_seen = refl

lookup_session_lifetime_example : now + hour < seen.created_at + 7 * 24 * 60 * 60 * 1000000
lookup_session_lifetime_example =
    lookup_session_lifetime tagged signed_in (some token) (now + hour) idle_timeout true seen
      signed_in-Used answered_seen

lookup_session-purge_expired_sessions_example :
    (lookup_session tagged
      (some token)
      (now + hour)
      idle_timeout
      true
      (purge_expired_sessions now signed_in).1).0
    ≡ (lookup_session tagged (some token) (now + hour) idle_timeout true signed_in).0
lookup_session-purge_expired_sessions_example =
    lookup_session-purge_expired_sessions tagged absolute_lifetime signed_in (some token) now
      (now + hour) idle_timeout true signed_in-Used (omega arith)
