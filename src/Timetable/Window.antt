-- ===== src/Timetable/Window.antt =====
-- The occurrences that the expansion of ragra/timetable/schedule.py returns, and its window.
use ragra_reminder.Prelude.{
  ℕ, zero, suc, ◌≡◌, ◌≤◌, ◌+◌, Option, none, some, List, [], ◌∷◌, Text, arith, true, All,
  All-append, All-sort_with, sort_with, subst, Bool-cases, inl, inr, ltb,
}
use ragra_reminder.Zones.{Zone, local_day}
use ragra_reminder.Timetable.{
  WeeklyClass, ClassOccurrence, expanded, meets, occurrence, days_from, class_days, also,
  all_classes, starts_before, sorted, expand_occurrences, parse_hhmm, days_left,
}

module _ (int : Text → Option ℕ) (zone : Zone) (window_start window_end : ℕ) where
  abbrev pub IsInWindow : ClassOccurrence → Type 0
  IsInWindow o = (window_start ≤ o.starts_at_utc) × (o.starts_at_utc ≤ window_end)

  days_from-All :
      (P : ClassOccurrence → Type 0) (c : WeeklyClass) (s e left on : ℕ)
      → ((d : ℕ) → meets zone window_start window_end c s d ≡ true → P (occurrence zone c s e d))
      → All P (days_from zone window_start window_end c s e left on)
  unfolding days_from
  days_from-All P c s e zero on f = tt
  days_from-All P c s e (suc left) on f =
      elim (Bool-cases (meets zone window_start window_end c s on)) [
        | inl hit ↦ rw hit (f on hit, days_from-All P c s e left (on + 1) f)
        | inr miss ↦ rw miss (days_from-All P c s e left (on + 1) f)
      ]

  abbrev AllFound : (ClassOccurrence → Type 0) → Option (List ClassOccurrence) → Type 0
  AllFound P none = Unit
  AllFound P (some l) = All P l

  also-AllFound :
      (P : ClassOccurrence → Type 0) (a b : Option (List ClassOccurrence))
      → AllFound P a
      → AllFound P b
      → AllFound P (also a b)
  also-AllFound P none b h k = tt
  also-AllFound P (some x) none h k = tt
  also-AllFound P (some x) (some y) h k = All-append P x y h k

  -- What each class of the list passes on to its occurrences in the window.
  abbrev pub Passes : (WeeklyClass → Type 0) → (ClassOccurrence → Type 0) → Type 0
  Passes Q P =
      (c : WeeklyClass) (s e d : ℕ)
      → Q c
      → meets zone window_start window_end c s d ≡ true
      → P (occurrence zone c s e d)

  class_days-All :
      (Q : WeeklyClass → Type 0) (P : ClassOccurrence → Type 0) (c : WeeklyClass) (s e : Option ℕ)
      → Passes Q P
      → Q c
      → AllFound P (class_days zone window_start window_end c s e)
  class_days-All Q P c none e f q = tt
  class_days-All Q P c (some s) none f q = tt
  class_days-All Q P c (some s) (some e) f q =
      days_from-All P c s e (days_left zone window_start window_end) (local_day zone window_start)
        (λ d m. f c s e d q m)

  all_classes-All :
      (Q : WeeklyClass → Type 0) (P : ClassOccurrence → Type 0) (cs : List WeeklyClass)
      → Passes Q P
      → All Q cs
      → AllFound P (all_classes zone window_start window_end int cs)
  unfolding all_classes
  all_classes-All Q P [] f q = tt
  all_classes-All Q P (c ∷ cs) f q =
      also-AllFound P
        (class_days zone window_start window_end c (parse_hhmm int c.start_time)
          (parse_hhmm int c.end_time))
        (all_classes zone window_start window_end int cs)
        (class_days-All Q P c (parse_hhmm int c.start_time) (parse_hhmm int c.end_time) f q.0)
        (all_classes-All Q P cs f q.1)

  sorted-All :
      (P : ClassOccurrence → Type 0) (o : Option (List ClassOccurrence)) (l : List ClassOccurrence)
      → AllFound P o
      → sorted o ≡ expanded l
      → All P l
  sorted-All P none l h e = ground arith
  sorted-All P (some x) l h e =
      let same : sort_with starts_before x ≡ l = ground arith in
      subst (λ k. All P k) same (All-sort_with starts_before P x h)

  pub expand_occurrences-All :
      (Q : WeeklyClass → Type 0) (P : ClassOccurrence → Type 0) (classes : List WeeklyClass)
      (l : List ClassOccurrence)
      → Passes Q P
      → All Q classes
      → expand_occurrences int zone classes window_start window_end ≡ expanded l
      → All P l
  unfolding expand_occurrences
  expand_occurrences-All Q P classes l f q e = elim (Bool-cases (ltb window_end window_start)) [
    | inl reversed ↦ ground arith
    | inr ordered ↦
        sorted-All P (all_classes zone window_start window_end int classes) l
          (all_classes-All Q P classes f q) (ground arith)
  ]

  occurrence-IsInWindow :
      (c : WeeklyClass) (s e d : ℕ)
      → meets zone window_start window_end c s d ≡ true
      → IsInWindow (occurrence zone c s e d)
  unfolding occurrence
  occurrence-IsInWindow c s e d m = (ground arith, ground arith)

  -- Every occurrence of an expansion starts inside the window, its ends included.
  pub expand_occurrences-IsInWindow :
      (classes : List WeeklyClass) (l : List ClassOccurrence)
      → expand_occurrences int zone classes window_start window_end ≡ expanded l
      → All IsInWindow l
  expand_occurrences-IsInWindow classes l e =
      expand_occurrences-All (λ c. Unit) IsInWindow classes l
        (λ c s e d q m. occurrence-IsInWindow c s e d m) (trivially classes) e
    where
      trivially : (cs : List WeeklyClass) → All (λ c. Unit {0}) cs
      trivially [] = tt
      trivially (c ∷ cs) = (tt, trivially cs)
