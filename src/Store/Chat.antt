-- ===== src/Store/Chat.antt =====
-- The in-app chat of ragra/db/repo.py: the thread, its alerts and their repeats.
use ragra_reminder.Prelude.{
  ℕ, suc, ◌+◌, Bool, false, ◌&&◌, ◌||◌, Option, none, some, List, [], ◌∷◌, ◌++◌, Text, ◌==◌, leb,
  ltb, if◌then◌else◌, is_none, select, fetchone, update_where, count_where, delete_where, take,
}
use ragra_reminder.Store.Rows.{ChatMessage, ChatRole, LinkPath, is_alert}
use ragra_reminder.Store.State.{Db}

abbrev pub chat_keep : ℕ
chat_keep = 200

abbrev pub is_own_message : ℕ → ChatMessage → Bool
is_own_message user_id m = m.user_id == user_id

-- How many of this user's messages are newer: a message is among the newest `_CHAT_KEEP` exactly
-- when fewer than that many are.
abbrev pub newer_messages : ℕ → List ChatMessage → ChatMessage → ℕ
newer_messages user_id l m = count_where (λ n. n.user_id == user_id && ltb m.id n.id) l

-- DELETE … AND id NOT IN (SELECT id … ORDER BY id DESC LIMIT _CHAT_KEEP)
abbrev pub trim_chat : ℕ → List ChatMessage → List ChatMessage
trim_chat user_id l =
    delete_where (λ m. is_own_message user_id m && leb chat_keep (newer_messages user_id l m)) l

unfoldable pub add_chat_message :
    ℕ → ChatRole → Text → Option LinkPath → Option ℕ → Option ℕ → ℕ → Db → Db
add_chat_message user_id role text link_path next_nag_at repeat_of clock db = record db {
  chat = trim_chat user_id (
      db.chat
      ++ record {
        id = db.next_message;
        user_id = user_id;
        role = role;
        text = text;
        link_path = link_path;
        next_nag_at = next_nag_at;
        repeat_of = repeat_of;
        created_at = clock;
        acked_at = none;
        nag_count = 0;
      }
        ∷ []);
  next_message = suc db.next_message;
}

-- The newest `limit` messages after `after_id`, oldest first.
unfoldable pub chat_messages : ℕ → ℕ → ℕ → Db → List ChatMessage
chat_messages user_id after_id limit db =
    let newer = select (λ m. is_own_message user_id m && ltb after_id m.id) db.chat in
    select (λ m. ltb (newer_messages user_id newer m) limit) newer

unfoldable pub clear_chat : ℕ → Db → Db
clear_chat user_id db = record db { chat = delete_where (is_own_message user_id) db.chat }

-- `id = ? OR repeat_of = ?`
abbrev pub in_family : ℕ → ChatMessage → Bool
in_family root m = m.id == root || elim m.repeat_of [ none ↦ false | some r ↦ r == root ]

abbrev pub acknowledged : ℕ → ChatMessage → ChatMessage
acknowledged clock m = record m { acked_at = some clock; next_nag_at = none }

-- `row["repeat_of"] or row["id"]`: an id of 0 would count as none.
abbrev pub root_of : ChatMessage → ℕ
root_of m = elim m.repeat_of [ none ↦ m.id | some r ↦ if r == 0 then m.id else r ]

abbrev pub ack_family : ℕ → ℕ → ℕ → Db → Bool × Db
ack_family user_id root clock db =
    let reached =
      λ (m : ChatMessage). is_own_message user_id m && in_family root m && is_none m.acked_at in
    (
      ltb 0 (count_where reached db.chat),
      record db { chat = update_where reached (acknowledged clock) db.chat },
    )

abbrev pub ack_over : ℕ → ℕ → Option ChatMessage → Db → Bool × Db
ack_over user_id clock none db = (false, db)
ack_over user_id clock (some row) db = ack_family user_id (root_of row) clock db

unfoldable pub ack_chat_message : ℕ → ℕ → ℕ → Db → Bool × Db
ack_chat_message user_id message_id clock db =
    ack_over user_id clock
      (fetchone
        (select (λ m. m.id == message_id && is_own_message user_id m && is_alert m.role) db.chat))
      db

unfoldable pub ack_all_chat_alerts : ℕ → ℕ → Db → ℕ × Db
ack_all_chat_alerts user_id clock db =
    let reached =
      λ (m : ChatMessage). is_own_message user_id m && is_alert m.role && is_none m.acked_at in
    (
      count_where reached db.chat,
      record db { chat = update_where reached (acknowledged clock) db.chat },
    )

abbrev pub is_due_nag : ℕ → ℕ → ChatMessage → Bool
is_due_nag user_id now m =
    is_own_message user_id m
    && is_alert m.role
    && is_none m.acked_at
    && elim m.next_nag_at [ none ↦ false | some t ↦ leb t now ]

-- The rows are in the order of their ids.
unfoldable pub due_nags : ℕ → ℕ → ℕ → Db → List ChatMessage
due_nags user_id now limit db = take limit (select (is_due_nag user_id now) db.chat)

unfoldable pub bump_nag : ℕ → ℕ → ℕ → Db → Db
bump_nag user_id message_id next_at db = record db {
  chat =
      update_where (λ m. m.id == message_id && is_own_message user_id m)
        (λ m. record m { nag_count = m.nag_count + 1; next_nag_at = some next_at }) db.chat;
}
