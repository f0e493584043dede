-- ===== src/Links.antt =====
-- The links between accounts and messaging chats in ragra/db/repo.py: the one-time codes of Telegram,
-- and who owns a chat or a number. The rows of preferences are those of Preferences.
pub mod Owner
use ragra_reminder.Prelude.{
  ℕ, ◌+◌, ◌*◌, Bool, true, false, not, ◌&&◌, Option, none, some, List, [], ◌∷◌, ◌++◌, Text, ◌==◌,
  ltb, text_eq, if◌then◌else◌, select, fetchone, exists_row, update_where, delete_where,
}
use ragra_reminder.Engine.{minute}
use ragra_reminder.Store.History.{column_is}
use ragra_reminder.Preferences.{PreferenceRow, is_row_of}

-- A row of `telegram_link_codes`.
pub record LinkCode : Type 0 where
  pub code : Text
  pub user_id : ℕ
  pub created_at : ℕ

abbrev pub telegram_code_ttl : ℕ
telegram_code_ttl = 30 * minute

abbrev pub has_code : Text → LinkCode → Bool
has_code code c = text_eq c.code code

abbrev pub is_code_of : ℕ → LinkCode → Bool
is_code_of user_id c = c.user_id == user_id

-- The code is drawn at random, and an argument here; none if its primary key is taken.
unfoldable pub create_telegram_link_code : Text → ℕ → ℕ → List LinkCode → Option (List LinkCode)
create_telegram_link_code code user_id now codes =
    let rest = delete_where (is_code_of user_id) codes in
    if exists_row (has_code code) rest
    then none
    else some (rest ++ record { code = code; user_id = user_id; created_at = now } ∷ [])

abbrev pub spent : Text → ℕ → List LinkCode → Option LinkCode → Option ℕ × List LinkCode
spent code now codes none = (none, codes)
spent code now codes (some c) = (
  if ltb (c.created_at + telegram_code_ttl) now then none else some c.user_id,
  delete_where (has_code code) codes,
)

unfoldable pub consume_telegram_link_code : Text → ℕ → List LinkCode → Option ℕ × List LinkCode
consume_telegram_link_code code now codes =
    spent code now codes (fetchone (select (has_code code) codes))

-- `telegram_chat_id = ? AND user_id != ?`
abbrev pub holds_for_another : ℕ → Text → PreferenceRow → Bool
holds_for_another user_id chat_id r =
    column_is r.telegram_chat_id chat_id && not (r.user_id == user_id)

abbrev pub released : ℕ → PreferenceRow → PreferenceRow
released now r = record r { telegram_enabled = 0; telegram_chat_id = none; updated_at = now }

abbrev pub connected : Text → ℕ → PreferenceRow → PreferenceRow
connected chat_id now r = record r {
  telegram_enabled = 1;
  telegram_chat_id = some chat_id;
  updated_at = now;
}

abbrev pub new_connection : ℕ → Text → ℕ → PreferenceRow
new_connection user_id chat_id now = record {
  user_id = user_id;
  email_enabled = 0;
  email_to = none;
  hermes_enabled = 0;
  hermes_target = none;
  whatsapp_enabled = 0;
  whatsapp_to = none;
  telegram_enabled = 1;
  telegram_chat_id = some chat_id;
  created_at = now;
  updated_at = now;
}

unfoldable pub connect_telegram_chat : ℕ → Text → ℕ → List PreferenceRow → List PreferenceRow
connect_telegram_chat user_id chat_id now rows =
    let free = update_where (holds_for_another user_id chat_id) (released now) rows in
    if exists_row (is_row_of user_id) free
    then update_where (is_row_of user_id) (connected chat_id now) free
    else free ++ new_connection user_id chat_id now ∷ []

unfoldable pub disconnect_telegram_chat : ℕ → ℕ → List PreferenceRow → List PreferenceRow
disconnect_telegram_chat user_id now rows = update_where (is_row_of user_id) (released now) rows

-- `rows[0]["user_id"] if len(rows) == 1 else None`
abbrev pub only_owner : List PreferenceRow → Option ℕ
only_owner [] = none
only_owner (r ∷ []) = some r.user_id
only_owner (r ∷ s ∷ rest) = none

abbrev pub is_on_telegram : Text → PreferenceRow → Bool
is_on_telegram chat_id r = column_is r.telegram_chat_id chat_id && r.telegram_enabled == 1

unfoldable pub user_id_for_telegram : Text → List PreferenceRow → Option ℕ
user_id_for_telegram chat_id rows = only_owner (select (is_on_telegram chat_id) rows)

abbrev pub is_on_whatsapp : Text → PreferenceRow → Bool
is_on_whatsapp number r = column_is r.whatsapp_to number && r.whatsapp_enabled == 1

unfoldable pub user_id_for_whatsapp : Text → List PreferenceRow → Option ℕ
user_id_for_whatsapp number rows = only_owner (select (is_on_whatsapp number) rows)
