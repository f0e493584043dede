-- ===== src/Sessions/Lifetime.antt =====
-- The tables that ragra/web/sessions.py makes, and the ceiling of each of their rows.
use ragra_reminder.Prelude.{
  ℕ, ◌≡◌, ◌≤◌, ◌+◌, subst, Bool, true, false, not, Option, none, some, List, [], ◌∷◌, ◌++◌, Text,
  arith, select, ◌==◌, fetchone, exists_row, update_where, delete_where, is_empty, All, All-select,
  All-imp, All-append, All-update_where, inl, inr, Bool-cases,
}
use ragra_reminder.Sessions.{
  SessionRow, has_hash, session_row, resolve, is_dead, seen_at, create_session, is_expired,
  lookup_session, revoke_session, revoke_all_sessions_for_user, purge_expired_sessions,
}

-- The tables that the functions of the module make, from an empty one, if no session is created with a
-- lifetime of more than `longest`.
pub data Used (hash_token : Text → Text) (longest : ℕ) : List SessionRow → Type 0 where
  no_session : Used hash_token longest []
  created :
      (rows after : List SessionRow) (token : Text) (user_id now lifetime : ℕ)
      → Used hash_token longest rows
      → lifetime ≤ longest
      → create_session hash_token token user_id now lifetime rows ≡ some after
      → Used hash_token longest after
  looked_up :
      (rows : List SessionRow) (token : Option Text) (now idle : ℕ) (touch : Bool)
      → Used hash_token longest rows
      → Used hash_token longest (lookup_session hash_token token now idle touch rows).1
  revoked :
      (rows : List SessionRow) (token : Option Text)
      → Used hash_token longest rows
      → Used hash_token longest (revoke_session hash_token token rows).1
  revoked_all :
      (rows : List SessionRow) (user_id : ℕ)
      → Used hash_token longest rows
      → Used hash_token longest (revoke_all_sessions_for_user user_id rows).1
  purged :
      (rows : List SessionRow) (now : ℕ)
      → Used hash_token longest rows
      → Used hash_token longest (purge_expired_sessions now rows).1

-- The ceiling of a row is within its creation and `longest`.
abbrev pub HasCeiling : ℕ → SessionRow → Type 0
HasCeiling longest s = s.expires_at ≤ s.created_at + longest

All-HasCeiling-select :
    (longest : ℕ) (q : SessionRow → Bool) (l : List SessionRow)
    → All (HasCeiling longest) l
    → All (HasCeiling longest) (select q l)
All-HasCeiling-select longest q l h =
    All-imp (λ r. (q r ≡ true) × HasCeiling longest r) (HasCeiling longest) (λ x k. k.1)
      (select q l) (All-select (HasCeiling longest) q l h)

-- What a lookup makes of the table: nothing, a deletion of the token's rows, or their refresh.
pub resolve_keeps :
    (P : List SessionRow → Type 0) (h : Text) (now idle : ℕ) (touch : Bool) (rows : List SessionRow)
    (o : Option SessionRow)
    → P rows
    → P (delete_where (has_hash h) rows)
    → P (update_where (has_hash h) (seen_at now) rows)
    → P (resolve h now idle touch rows o).1
resolve_keeps P h now idle touch rows none a b c = a
resolve_keeps P h now idle true rows (some s) a b c = elim (Bool-cases (is_dead now idle s)) [
  | inl dead ↦ rw dead b
  | inr live ↦ rw live c
]
resolve_keeps P h now idle false rows (some s) a b c = elim (Bool-cases (is_dead now idle s)) [
  | inl dead ↦ rw dead b
  | inr live ↦ rw live a
]

module _ (hash_token : Text → Text) where
  pub lookup_session_keeps :
      (P : List SessionRow → Type 0) (token : Option Text) (now idle : ℕ) (touch : Bool)
      (rows : List SessionRow)
      → P rows
      → ((h : Text) → P (delete_where (has_hash h) rows))
      → ((h : Text) → P (update_where (has_hash h) (seen_at now) rows))
      → P (lookup_session hash_token token now idle touch rows).1
  unfolding lookup_session
  lookup_session_keeps P none now idle touch rows a b c = a
  lookup_session_keeps P (some token) now idle touch rows a b c =
      elim (Bool-cases (is_empty token)) [
        | inl empty ↦ rw empty a
        | inr e ↦ rw e (
            resolve_keeps P (hash_token token) now idle touch rows
              (fetchone (select (has_hash (hash_token token)) rows)) a (b (hash_token token))
              (c (hash_token token)))
      ]

  revoke_session_keeps :
      (P : List SessionRow → Type 0) (token : Option Text) (rows : List SessionRow)
      → P rows
      → ((h : Text) → P (delete_where (has_hash h) rows))
      → P (revoke_session hash_token token rows).1
  unfolding revoke_session
  revoke_session_keeps P none rows a b = a
  revoke_session_keeps P (some token) rows a b = elim (Bool-cases (is_empty token)) [
    | inl empty ↦ rw empty a
    | inr e ↦ rw e (b (hash_token token))
  ]

  -- A predicate of tables that the statements keep holds of every table in use.
  pub Used-induction :
      (longest : ℕ) (P : List SessionRow → Type 0)
      → P []
      → ((rows : List SessionRow) (h : Text) (user_id now lifetime : ℕ)
          → lifetime ≤ longest
          → P rows
          → exists_row (has_hash h) rows ≡ false
          → P (rows ++ session_row h user_id now lifetime ∷ []))
      → ((rows : List SessionRow) (q : SessionRow → Bool) → P rows → P (delete_where q rows))
      → ((rows : List SessionRow) (h : Text) (now : ℕ)
          → P rows
          → P (update_where (has_hash h) (seen_at now) rows))
      → (rows : List SessionRow) → Used hash_token longest rows
      → P rows
  unfolding create_session revoke_all_sessions_for_user purge_expired_sessions
  Used-induction longest P start insert delete update _ no_session = start
  Used-induction longest P start insert delete update _
        (created before rows token user_id now lifetime u short e) =
      let p = Used-induction longest P start insert delete update before u in
      let free : exists_row (has_hash (hash_token token)) before ≡ false = ground arith in
      let is_after : before ++ session_row (hash_token token) user_id now lifetime ∷ [] ≡ rows =
        ground arith in
      subst P is_after (insert before (hash_token token) user_id now lifetime short p free)
  Used-induction longest P start insert delete update _ (looked_up before token now idle touch u) =
      let p = Used-induction longest P start insert delete update before u in
      lookup_session_keeps P token now idle touch before p (λ h. delete before (has_hash h) p)
        (λ h. update before h now p)
  Used-induction longest P start insert delete update _ (revoked before token u) =
      let p = Used-induction longest P start insert delete update before u in
      revoke_session_keeps P token before p (λ h. delete before (has_hash h) p)
  Used-induction longest P start insert delete update _ (revoked_all before user_id u) =
      delete before (λ s. s.user_id == user_id)
        (Used-induction longest P start insert delete update before u)
  Used-induction longest P start insert delete update _ (purged before now u) =
      delete before (is_expired now) (Used-induction longest P start insert delete update before u)

  pub Used-HasCeiling :
      (longest : ℕ) (rows : List SessionRow)
      → Used hash_token longest rows
      → All (HasCeiling longest) rows
  Used-HasCeiling longest =
      Used-induction longest (λ l. All (HasCeiling longest) l) tt
        (λ rows h user_id now lifetime short p free.
          All-append (HasCeiling longest) rows (session_row h user_id now lifetime ∷ []) p
            (omega arith, tt))
        (λ rows q p. All-HasCeiling-select longest (λ x. not (q x)) rows p)
        (λ rows h now p.
          All-update_where (HasCeiling longest) (HasCeiling longest) (has_hash h) (seen_at now)
            (λ r c. ground arith) rows p)
