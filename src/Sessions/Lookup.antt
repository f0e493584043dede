-- ===== src/Sessions/Lookup.antt =====
-- Signing in, using the session and signing out.
use ragra_reminder.Prelude.{
  ℕ, ◌≡◌, ◌<◌, ◌+◌, refl, ap, ◌∙◌, subst, Bool, true, false, Option, none, some, List, Text, arith,
  select, fetchone, fetch_inserted, exists_row, is_empty, if◌then◌else◌, text_eq_refl, ◌++◌, [],
  ◌∷◌,
}
use ragra_reminder.Sessions.{
  SessionRow, has_hash, session_row, resolve, create_session, lookup_session, revoke_session,
}
use ragra_reminder.Sessions.Rows.{select_deleted}

fetchone_nothing :
    (p : SessionRow → Bool) (l : List SessionRow)
    → exists_row p l ≡ false
    → fetchone (select p l) ≡ none
fetchone_nothing p [] h = refl
fetchone_nothing p (x ∷ xs) h = ground (arith, fetchone_nothing p xs (ground arith))

module _ (hash_token : Text → Text) where
  -- What `lookup_session` answers is what the row that it finds says.
  pub lookup_session_found :
      (token : Text) (now idle : ℕ) (touch : Bool) (rows : List SessionRow) (o : Option SessionRow)
      → is_empty token ≡ false
      → fetchone (select (has_hash (hash_token token)) rows) ≡ o
      → lookup_session hash_token (some token) now idle touch rows
        ≡ resolve (hash_token token) now idle touch rows o
  unfolding lookup_session
  lookup_session_found token now idle touch rows o h k = ground arith

  resolved :
      (h : Text) (user_id now later idle : ℕ) (touch : Bool) (lifetime : ℕ) (rows : List SessionRow)
      → later < now + lifetime
      → later < now + idle
      → (resolve h later idle touch rows (some (session_row h user_id now lifetime))).0
        ≡ some (record {
          user_id = user_id;
          created_at = now;
          last_seen_at = if touch then later else now;
          expires_at = now + lifetime;
        })
  resolved h user_id now later idle true lifetime rows a b = ground arith
  resolved h user_id now later idle false lifetime rows a b = ground arith

  -- A token that was issued resolves to the account that it was issued to, for as long as it is
  -- within its lifetime and the idle timeout.
  pub lookup_session-create_session :
      (token : Text) (user_id now lifetime later idle : ℕ) (touch : Bool)
      (rows after : List SessionRow)
      → is_empty token ≡ false
      → create_session hash_token token user_id now lifetime rows ≡ some after
      → later < now + lifetime
      → later < now + idle
      → (lookup_session hash_token (some token) later idle touch after).0
        ≡ some (record {
          user_id = user_id;
          created_at = now;
          last_seen_at = if touch then later else now;
          expires_at = now + lifetime;
        })
  unfolding create_session
  lookup_session-create_session token user_id now lifetime later idle touch rows after e k a b =
      let row = session_row (hash_token token) user_id now lifetime in
      let free : exists_row (has_hash (hash_token token)) rows ≡ false = ground arith in
      let is_after : rows ++ row ∷ [] ≡ after = ground arith in
      let found =
        fetch_inserted (has_hash (hash_token token)) rows row
          (fetchone_nothing (has_hash (hash_token token)) rows free)
          (text_eq_refl (hash_token token)) in
      let found_after =
        subst (λ l. fetchone (select (has_hash (hash_token token)) l) ≡ some row) is_after found in
      ap (λ r. r.0) (lookup_session_found token later idle touch after (some row) e found_after)
      ∙ resolved (hash_token token) user_id now later idle touch lifetime after a b

  -- A token that was signed out resolves to nothing, at any moment.
  pub lookup_session-revoke_session :
      (token : Option Text) (now idle : ℕ) (touch : Bool) (rows : List SessionRow)
      → (lookup_session hash_token token now idle touch (revoke_session hash_token token rows).1).0
        ≡ none
  unfolding lookup_session revoke_session
  lookup_session-revoke_session none now idle touch rows = refl
  lookup_session-revoke_session (some token) now idle touch rows =
      ground (arith, select_deleted (has_hash (hash_token token)) rows)
