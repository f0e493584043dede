-- ===== src/Nags/Received.antt =====
-- `ack_chat_message` of ragra/db/repo.py, which the button "Received" of an alert calls.
use ragra_reminder.Prelude.{
  ℕ, ◌≡◌, refl, subst, sym, Bool, true, false, ◌&&◌, Option, some, none, inl, inr, ◌⊎◌, ◌<◌, List,
  [], ◌∷◌, arith, ◌==◌, is_none, select, fetchone, update_where, All, Bool-cases, take, zero, suc,
  if◌then◌else◌,
}
use ragra_reminder.Store.{Db, ChatMessage, is_alert}
use ragra_reminder.Store.Chat.{
  is_own_message, in_family, acknowledged, root_of, ack_over, ack_chat_message, is_due_nag,
  due_nags,
}

abbrev reached : ℕ → ℕ → ChatMessage → Bool
reached u root m = is_own_message u m && in_family root m && is_none m.acked_at

abbrev pub alert_row : ℕ → ℕ → List ChatMessage → Option ChatMessage
alert_row u message_id l =
    fetchone (select (λ m. m.id == message_id && is_own_message u m && is_alert m.role) l)

-- A message is the alert `original`, or a repeat of it.
abbrev pub IsAlertOrRepeat : ℕ → ChatMessage → Type 0
IsAlertOrRepeat original m =
    ((m.id ≡ original) × (m.repeat_of ≡ none)) ⊎ (m.repeat_of ≡ some original)

root_of-original :
    (original : ℕ) (row : ChatMessage)
    → 0 < original
    → IsAlertOrRepeat original row
    → root_of row ≡ original
root_of-original original row h (inl alert) = rw alert.1 alert.0
root_of-original original row h (inr again) = rw again (ground arith)

-- A message of the alert's family asks for no repeat.
abbrev IsSilent : ℕ → ℕ → ℕ → ChatMessage → Type 0
IsSilent u original now m = IsAlertOrRepeat original m → is_due_nag u now m ≡ false

acked_row :
    (u root now clock : ℕ) (m : ChatMessage) (b : Bool)
    → reached u root m ≡ b
    → IsSilent u root now (if b then acknowledged clock m else m)
acked_row u root now clock m true h k = ground arith
acked_row u root now clock m false h (inl alert) = ground (arith, h, alert.0)
acked_row u root now clock m false h (inr again) = ground (arith, h, again)

acked_rows :
    (u root now clock : ℕ) (l : List ChatMessage)
    → All (IsSilent u root now) (update_where (reached u root) (acknowledged clock) l)
acked_rows u root now clock [] = tt
acked_rows u root now clock (m ∷ ms) =
    (acked_row u root now clock m (reached u root m) refl, acked_rows u root now clock ms)

none_due :
    (u original now : ℕ) (l : List ChatMessage)
    → All (IsSilent u original now) l
    → All (λ m. ¬ IsAlertOrRepeat original m) (select (is_due_nag u now) l)
none_due u original now [] h = tt
none_due u original now (m ∷ ms) h = elim (Bool-cases (is_due_nag u now m)) [
  | inl due ↦ rw due (λ k. absurd (ground (arith, due, h.0 k)), none_due u original now ms h.1)
  | inr quiet ↦ rw quiet (none_due u original now ms h.1)
]

All-take : (P : ChatMessage → Type 0) (n : ℕ) (l : List ChatMessage) → All P l → All P (take n l)
All-take P zero l h = tt
All-take P (suc n) [] h = tt
All-take P (suc n) (m ∷ ms) h = (h.0, All-take P n ms h.1)

-- Once the user has acknowledged an alert or one of its repeats, neither the alert nor any repeat of it
-- is among the messages due for a repeat, at any moment. (Ids begin at 1.)
pub ack_chat_message_quiet :
    (u message_id clock original now limit : ℕ) (row : ChatMessage) (db : Db)
    → 0 < original
    → alert_row u message_id db.chat ≡ some row
    → IsAlertOrRepeat original row
    → All
        (λ m. ¬ IsAlertOrRepeat original m)
        (due_nags u now limit (ack_chat_message u message_id clock db).1)
unfolding ack_chat_message due_nags
ack_chat_message_quiet u message_id clock original now limit row db positive found family =
    let Silent : List ChatMessage → Type 0 = All (IsSilent u original now) in
    let silent =
      subst (λ o. Silent (ack_over u clock o db).1.chat) (sym found)
        (subst (λ r. Silent (update_where (reached u r) (acknowledged clock) db.chat))
          (sym (root_of-original original row positive family))
          (acked_rows u original now clock db.chat)) in
    All-take (λ m. ¬ IsAlertOrRepeat original m) limit _
      (none_due u original now (ack_chat_message u message_id clock db).1.chat silent)
