-- ===== src/Nags.antt =====
-- ragra/reminders/nags.py: repeating an alert in the chat until it is acknowledged.
pub mod Received
use ragra_reminder.Prelude.{ℕ, ◌+◌, ◌*◌, none, some, List, [], ◌∷◌, ◌++◌, Text, codes}
use ragra_reminder.Engine.{minute}
use ragra_reminder.Store.{Db, ChatMessage, ChatRole}
use ragra_reminder.Store.Chat.{add_chat_message, bump_nag, due_nags}

abbrev pub nag_interval : ℕ
nag_interval = 5 * minute

abbrev pub next_nag_at : ℕ → ℕ
next_nag_at now = now + nag_interval

abbrev pub nag_text : Text → Text
nag_text text = codes "Reminder - press Received to stop these.\n" ++ text

-- One repeat: a fresh message, and the alert's next repeat pushed out.
post_nag : ℕ → ℕ → ℕ → ChatMessage → Db → Db
post_nag user_id now clock message db = bump_nag user_id message.id (next_nag_at now) (
    add_chat_message user_id ChatRole.alert (nag_text message.text) message.link_path none
      (some message.id) clock db)

run_nags_from : ℕ → ℕ → ℕ → List ChatMessage → ℕ → Db → ℕ × Db
unfolding post_nag
run_nags_from user_id now clock [] posted db = (posted, db)
run_nags_from user_id now clock (m ∷ ms) posted db =
    run_nags_from user_id now clock ms (posted + 1) (post_nag user_id now clock m db)

unfoldable pub run_nags : ℕ → ℕ → ℕ → Db → ℕ × Db
unfolding run_nags_from
run_nags user_id now clock db = run_nags_from user_id now clock (due_nags user_id now 20 db) 0 db
