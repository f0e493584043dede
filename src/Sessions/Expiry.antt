-- ===== src/Sessions/Expiry.antt =====
-- The end of a session, by its lifetime, a purge or a refused look-up: ragra/web/sessions.py.
use ragra_reminder.Prelude.{
  ℕ, ◌≡◌, ◌<◌, ◌+◌, ◌*◌, ◌≤◌, refl, ap, ◌∙◌, subst, sym, Bool, true, false, Option, none, some,
  List, [], ◌∷◌, ◌++◌, Text, arith, select, fetchone, exists_row, delete_where, is_empty,
  if◌then◌else◌, length, inl, inr, Bool-cases, Option-cases, text_eq_iff, select-append, All,
  exists_row_none, select_nothing, select_insert_other,
}
use ragra_reminder.Sessions.{
  SessionRow, Session, has_hash, session_row, resolve, session_of, is_dead, seen_at, is_expired,
  lookup_session, purge_expired_sessions, absolute_lifetime,
}
use ragra_reminder.Sessions.Rows.{
  kept, fetchone-select-delete, length-select-delete, length-select-update, select_deleted,
}
use ragra_reminder.Sessions.Lookup.{lookup_session_found}
use ragra_reminder.Sessions.Lifetime.{Used, Used-induction, Used-HasCeiling, HasCeiling}

-- At most one row has a hash: the primary key.
abbrev pub IsKeyed : List SessionRow → Type 0
IsKeyed rows = (h : Text) → length (select (has_hash h) rows) ≤ 1

insert-IsKeyed :
    (k : Text) (rows : List SessionRow) (s : SessionRow)
    → length (select (has_hash k) rows) ≤ 1
    → exists_row (has_hash s.token_hash) rows ≡ false
    → length (select (has_hash k) (rows ++ s ∷ [])) ≤ 1
insert-IsKeyed k rows s p free = elim (Bool-cases (has_hash k s)) [
  | inl same ↦
      let is_key : s.token_hash ≡ k = (text_eq_iff s.token_hash k).0 same in
      let free_k = subst (λ h. exists_row (has_hash h) rows ≡ false) is_key free in
      let nothing = select_nothing (has_hash k) rows (exists_row_none (has_hash k) rows free_k) in
      ground (arith, select-append (has_hash k) rows (s ∷ []), nothing)
  | inr other ↦ ground (arith, select_insert_other (has_hash k) rows s other)
]

module _ (hash_token : Text → Text) where
  pub Used-IsKeyed :
      (longest : ℕ) (rows : List SessionRow) → Used hash_token longest rows → IsKeyed rows
  Used-IsKeyed longest =
      Used-induction hash_token longest IsKeyed (λ h. omega arith)
        (λ rows h user_id now lifetime short p free k.
          insert-IsKeyed k rows (session_row h user_id now lifetime) (p k) free)
        (λ rows q p k. omega (arith, length-select-delete (has_hash k) q rows, p k))
        (λ rows h now p k. omega (
          arith,
          length-select-update (has_hash k) (has_hash h) (seen_at now) (λ x. refl) rows,
          p k,
        ))

  -- What a lookup answers depends on the row that it finds and on nothing else.
  abbrev answer : ℕ → ℕ → Bool → Option SessionRow → Option Session
  answer now idle touch none = none
  answer now idle touch (some s) =
      if is_dead now idle s then none else some (session_of (if touch then seen_at now s else s))

  resolve-answer :
      (h : Text) (now idle : ℕ) (touch : Bool) (rows : List SessionRow) (o : Option SessionRow)
      → (resolve h now idle touch rows o).0 ≡ answer now idle touch o
  resolve-answer h now idle touch rows none = refl
  resolve-answer h now idle true rows (some s) = ground arith
  resolve-answer h now idle false rows (some s) = ground arith

  lookup_session-answer :
      (token : Text) (now idle : ℕ) (touch : Bool) (rows : List SessionRow)
      → is_empty token ≡ false
      → (lookup_session hash_token (some token) now idle touch rows).0
        ≡ answer now idle touch (fetchone (select (has_hash (hash_token token)) rows))
  lookup_session-answer token now idle touch rows e =
      let o = fetchone (select (has_hash (hash_token token)) rows) in
      ap (λ r. r.0) (lookup_session_found hash_token token now idle touch rows o e refl)
      ∙ resolve-answer (hash_token token) now idle touch rows o

  answer-kept :
      (purge later idle : ℕ) (touch : Bool) (o : Option SessionRow)
      → purge ≤ later
      → answer later idle touch (kept (is_expired purge) o) ≡ answer later idle touch o
  answer-kept purge later idle touch none h = refl
  answer-kept purge later idle touch (some s) h = ground arith

  -- The purge of expired sessions is not noticed by anybody: no lookup from that moment on answers
  -- differently for it.
  pub lookup_session-purge_expired_sessions :
      (longest : ℕ) (rows : List SessionRow) (token : Option Text) (now later idle : ℕ)
      (touch : Bool)
      → Used hash_token longest rows
      → now ≤ later
      → (lookup_session hash_token token later idle touch (purge_expired_sessions now rows).1).0
        ≡ (lookup_session hash_token token later idle touch rows).0
  unfolding lookup_session purge_expired_sessions
  lookup_session-purge_expired_sessions longest rows none now later idle touch u h = refl
  lookup_session-purge_expired_sessions longest rows (some token) now later idle touch u h =
      elim (Bool-cases (is_empty token)) [
        | inl empty ↦ rw empty refl
        | inr e ↦
            let p = has_hash (hash_token token) in
            lookup_session-answer token later idle touch (delete_where (is_expired now) rows) e
            ∙ ap (answer later idle touch) (
                fetchone-select-delete p (is_expired now) rows
                  (Used-IsKeyed longest rows u (hash_token token)))
            ∙ answer-kept now later idle touch (fetchone (select p rows)) h
            ∙ sym (lookup_session-answer token later idle touch rows e)
      ]

  answer-ceiling :
      (longest now idle : ℕ) (touch : Bool) (r : SessionRow) (s : Session)
      → HasCeiling longest r
      → answer now idle touch (some r) ≡ some s
      → now < s.created_at + longest
  answer-ceiling longest now idle true r s c h = ground arith
  answer-ceiling longest now idle false r s c h = ground arith

  All-fetchone :
      (P : SessionRow → Type 0) (q : SessionRow → Bool) (l : List SessionRow) (r : SessionRow)
      → All P l
      → fetchone (select q l) ≡ some r
      → P r
  All-fetchone P q [] r h k = ground arith
  All-fetchone P q (x ∷ xs) r h k = elim (Bool-cases (q x)) [
    | inl hit ↦
        let first : fetchone (select q (x ∷ xs)) ≡ some x = rw hit refl in
        let same : x ≡ r = ground (arith, first, k) in subst P same h.0
    | inr miss ↦
        let rest : fetchone (select q (x ∷ xs)) ≡ fetchone (select q xs) = rw miss refl in
        All-fetchone P q xs r h.1 (sym rest ∙ k)
  ]

  lookup_session_ceiling :
      (longest : ℕ) (rows : List SessionRow) (token : Option Text) (now idle : ℕ) (touch : Bool)
      (s : Session)
      → Used hash_token longest rows
      → (lookup_session hash_token token now idle touch rows).0 ≡ some s
      → now < s.created_at + longest
  unfolding lookup_session
  lookup_session_ceiling longest rows none now idle touch s u h = ground arith
  lookup_session_ceiling longest rows (some token) now idle touch s u h =
      elim (Bool-cases (is_empty token)) [
        | inl empty ↦ ground arith
        | inr e ↦
            let p = has_hash (hash_token token) in
            let a = sym (lookup_session-answer token now idle touch rows e) ∙ h in
            elim (Option-cases (fetchone (select p rows))) [
              | inl nothing ↦ ground (arith, a, nothing)
              | inr found ↦
                  answer-ceiling longest now idle touch found.0 s
                    (All-fetchone (HasCeiling longest) p rows found.0
                      (Used-HasCeiling hash_token longest rows u) found.1)
                    (ap (answer now idle touch) (sym found.1) ∙ a)
            ]
      ]

  -- In a table that the functions of the module have made, where no session was created with more than
  -- the default lifetime, a session resolves only before its creation and seven days of 24 hours,
  -- however it is used.
  pub lookup_session_lifetime :
      (rows : List SessionRow) (token : Option Text) (now idle : ℕ) (touch : Bool) (s : Session)
      → Used hash_token absolute_lifetime rows
      → (lookup_session hash_token token now idle touch rows).0 ≡ some s
      → now < s.created_at + 7 * 24 * 60 * 60 * 1000000
  lookup_session_lifetime rows token now idle touch s u h =
      omega (arith, lookup_session_ceiling absolute_lifetime rows token now idle touch s u h)

  refused_row :
      (h : Text) (now later idle idle' : ℕ) (touch touch' : Bool) (rows : List SessionRow)
      (o : Option SessionRow)
      → fetchone (select (has_hash h) rows) ≡ o
      → answer now idle touch o ≡ none
      → answer later idle' touch'
          (fetchone (select (has_hash h) (resolve h now idle touch rows o).1))
        ≡ none
  refused_row h now later idle idle' touch touch' rows none e k = rw e refl
  refused_row h now later idle idle' touch touch' rows (some s) e k =
      elim (Bool-cases (is_dead now idle s)) [
        | inl dead ↦ rw dead (rw (select_deleted (has_hash h) rows) refl)
        | inr live ↦ ground (arith, k, live)
      ]

  -- A token that was refused once is refused at every later attempt, whatever the clock says then.
  pub lookup_session_refused :
      (rows : List SessionRow) (token : Option Text) (now later idle idle' : ℕ)
      (touch touch' : Bool)
      → (lookup_session hash_token token now idle touch rows).0 ≡ none
      → (lookup_session hash_token token later idle' touch'
          (lookup_session hash_token token now idle touch rows).1).0
        ≡ none
  unfolding lookup_session
  lookup_session_refused rows none now later idle idle' touch touch' h = refl
  lookup_session_refused rows (some token) now later idle idle' touch touch' h =
      elim (Bool-cases (is_empty token)) [
        | inl empty ↦ rw empty refl
        | inr e ↦
            let key = hash_token token in
            let o = fetchone (select (has_hash key) rows) in
            let a = sym (lookup_session-answer token now idle touch rows e) ∙ h in
            lookup_session-answer token later idle' touch'
              (lookup_session hash_token (some token) now idle touch rows).1 e
            ∙ subst (λ r. answer later idle' touch' (fetchone (select (has_hash key) r.1)) ≡ none)
                (sym (lookup_session_found hash_token token now idle touch rows o e refl))
                (refused_row key now later idle idle' touch touch' rows o refl a)
      ]
