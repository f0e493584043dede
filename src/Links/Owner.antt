-- ===== src/Links/Owner.antt =====
-- Who owns a chat after `connect_telegram_chat` of ragra/db/repo.py.
use ragra_reminder.Prelude.{
  ℕ, ◌≡◌, ◌≤◌, refl, ap, ◌∙◌, true, false, some, List, [], ◌∷◌, ◌++◌, Text, text_eq_refl, arith,
  select, select-append, exists_row, update_where, count_where, Bool-cases, inl, inr,
}
use ragra_reminder.Store.History.{column_is}
use ragra_reminder.Preferences.{PreferenceRow, is_row_of}
use ragra_reminder.Links.{
  holds_for_another, released, connected, new_connection, connect_telegram_chat, only_owner,
  is_on_telegram, user_id_for_telegram,
}

module _ (u : ℕ) (chat_id : Text) (now : ℕ) where
  abbrev freed : List PreferenceRow → List PreferenceRow
  freed rows = update_where (holds_for_another u chat_id) (released now) rows

  abbrev linked : List PreferenceRow → List PreferenceRow
  linked rows = update_where (is_row_of u) (connected chat_id now) (freed rows)

  freed_rows :
      (rows : List PreferenceRow)
      → count_where (is_row_of u) (freed rows) ≡ count_where (is_row_of u) rows
  freed_rows [] = refl
  freed_rows (x ∷ xs) = ground (arith, freed_rows xs)

  exists_row-freed :
      (rows : List PreferenceRow)
      → exists_row (is_row_of u) (freed rows) ≡ exists_row (is_row_of u) rows
  exists_row-freed [] = refl
  exists_row-freed (x ∷ xs) = ground (arith, exists_row-freed xs)

  -- Without a row of the account nobody is left with the chat.
  nobody :
      (rows : List PreferenceRow)
      → count_where (is_row_of u) rows ≤ 0
      → select (is_on_telegram chat_id) (linked rows) ≡ []
  nobody [] h = refl
  nobody (x ∷ xs) h = elim (Bool-cases (column_is x.telegram_chat_id chat_id)) [
    | inl holds ↦ ground (arith, nobody xs (ground arith), holds)
    | inr free ↦ ground (arith, nobody xs (ground arith), free)
  ]

  nobody_else :
      (rows : List PreferenceRow)
      → exists_row (is_row_of u) rows ≡ false
      → select (is_on_telegram chat_id) (freed rows) ≡ []
  nobody_else [] h = refl
  nobody_else (x ∷ xs) h = elim (Bool-cases (column_is x.telegram_chat_id chat_id)) [
    | inl holds ↦ ground (arith, nobody_else xs (ground arith), holds)
    | inr free ↦ ground (arith, nobody_else xs (ground arith), free)
  ]

  one_left :
      (rows : List PreferenceRow)
      → count_where (is_row_of u) rows ≤ 1
      → exists_row (is_row_of u) rows ≡ true
      → only_owner (select (is_on_telegram chat_id) (linked rows)) ≡ some u
  one_left [] h k = ground arith
  one_left (x ∷ xs) h k = elim (Bool-cases (is_row_of u x)) [
    | inl own ↦ ground (arith, nobody xs (ground arith), text_eq_refl chat_id)
    | inr other ↦ elim (Bool-cases (column_is x.telegram_chat_id chat_id)) [
      | inl holds ↦ ground (arith, one_left xs (ground arith) (ground arith), holds)
      | inr free ↦ ground (arith, one_left xs (ground arith) (ground arith), free)
    ]
  ]

  -- If the account has at most one row, then after it connected a chat, the chat is that account's,
  -- whoever had it before.
  pub user_id_for_telegram-connect_telegram_chat :
      (rows : List PreferenceRow)
      → count_where (is_row_of u) rows ≤ 1
      → user_id_for_telegram chat_id (connect_telegram_chat u chat_id now rows) ≡ some u
  unfolding user_id_for_telegram connect_telegram_chat
  user_id_for_telegram-connect_telegram_chat rows h =
      elim (Bool-cases (exists_row (is_row_of u) rows)) [
        | inl there ↦ rw exists_row-freed (rw there (one_left rows h there))
        | inr gone ↦
            let both =
              select-append (is_on_telegram chat_id) (freed rows)
                (new_connection u chat_id now ∷ []) in
            let alone : select (is_on_telegram chat_id)
                  (freed rows ++ new_connection u chat_id now ∷ [])
                ≡ new_connection u chat_id now ∷ [] =
              both ∙ ground (arith, nobody_else rows gone, text_eq_refl chat_id) in
            rw exists_row-freed (rw gone (ap only_owner alone))
      ]
