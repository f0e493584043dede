-- ===== src/Timetable/Complete.antt =====
-- Which classes the expansion of ragra/timetable/schedule.py returns.
use ragra_reminder.Prelude.{
  ℕ, zero, suc, ◌≡◌, refl, sym, ap, ap₂, ◌==◌, ◌%◌, if◌then◌else◌, ◌∙◌, ◌≤◌, ◌<◌, ◌+◌, Bool, true,
  false, Option, none, some, List, [], ◌∷◌, ◌++◌, Text, arith, Some, Some-append_left,
  Some-append_right, Some-sort_with, sort_with, subst, Bool-cases, inl, inr, ltb,
}
use ragra_reminder.Engine.{day}
use ragra_reminder.Store.Strip.{strip}
use ragra_reminder.Zones.{Zone, local_day}
use ragra_reminder.Timetable.{
  WeeklyClass, ClassOccurrence, expanded, meets, occurrence, days_from, class_days, also,
  all_classes, starts_before, sorted, expand_occurrences, parse_hhmm, time_of, time_of_parts,
  split_pair, days_left, starts_utc,
}

-- A zone in which no day of the wall clock comes back after the next has begun (the clock itself may be
-- set back, as at 24:00 to 23:00), and a reading belongs to the day that it names.
pub record IsRegular (zone : Zone) : Type 0 where
  pub forward : (a b : ℕ) → a ≤ b → local_day zone a ≤ local_day zone b
  pub same_day : (on t : ℕ) → t < day → local_day zone (starts_utc zone on t) ≡ on

time_of_bound : (h m : Option ℕ) (t : ℕ) → time_of h m ≡ some t → t < day
time_of_bound none m t e = ground arith
time_of_bound (some h) none t e = ground arith
time_of_bound (some h) (some m) t e = ground arith

parse_hhmm_bound :
    (int : Text → Option ℕ) (value : Text) (t : ℕ) → parse_hhmm int value ≡ some t → t < day
unfolding parse_hhmm
parse_hhmm_bound int value t e = parts int (split_pair 58 (strip value)) t e
  where
    parts :
        (int : Text → Option ℕ) (p : Option (Text × Text)) (t : ℕ)
        → time_of_parts int p ≡ some t
        → t < day
    parts int none t e = ground arith
    parts int (some p) t e = time_of_bound (int p.0) (int p.1) t e

module _ (int : Text → Option ℕ) (zone : Zone) (window_start window_end : ℕ) where
  days_from_complete :
      (c : WeeklyClass) (s e left on d : ℕ)
      → on ≤ d
      → d < on + left
      → meets zone window_start window_end c s d ≡ true
      → Some
          (λ o. o ≡ occurrence zone c s e d)
          (days_from zone window_start window_end c s e left on)
  unfolding days_from
  days_from_complete c s e zero on d h k m = ground arith
  days_from_complete c s e (suc left) on d h k m = elim (Bool-cases (on == d)) [
    | inl same ↦
        let is_on : d ≡ on = ground arith in
        let hit = subst (λ x. meets zone window_start window_end c s x ≡ true) is_on m in
        rw hit (inl (ap (λ x. occurrence zone c s e x) (sym is_on)))
    | inr other ↦
        later (λ x. x ≡ occurrence zone c s e d) (meets zone window_start window_end c s on)
          (occurrence zone c s e on) (days_from zone window_start window_end c s e left (on + 1))
          (days_from_complete c s e left (on + 1) d (ground arith) (ground arith) m)
  ]
    where
      later :
          (P : ClassOccurrence → Type 0) (b : Bool) (o : ClassOccurrence) (l : List ClassOccurrence)
          → Some P l
          → Some P (if b then o ∷ l else l)
      later P true o l h = inr h
      later P false o l h = h

  also_first :
      (P : ClassOccurrence → Type 0) (a : List ClassOccurrence) (b : Option (List ClassOccurrence))
      (l : List ClassOccurrence)
      → Some P a
      → also (some a) b ≡ some l
      → Some P l
  also_first P a none l h e = ground arith
  also_first P a (some b) l h e =
      let same : a ++ b ≡ l = ground arith in subst (λ k. Some P k) same (Some-append_left P a b h)

  also_rest :
      (P : ClassOccurrence → Type 0) (a b : Option (List ClassOccurrence))
      (l : List ClassOccurrence)
      → ((k : List ClassOccurrence) → b ≡ some k → Some P k)
      → also a b ≡ some l
      → Some P l
  also_rest P none b l h e = ground arith
  also_rest P (some a) none l h e = ground arith
  also_rest P (some a) (some b) l h e =
      let same : a ++ b ≡ l = ground arith in
      subst (λ k. Some P k) same (Some-append_right P a b (h b refl))

  all_classes_complete :
      (cs : List WeeklyClass) (c : WeeklyClass) (s e d : ℕ) (l : List ClassOccurrence)
      → Some (λ x. x ≡ c) cs
      → parse_hhmm int c.start_time ≡ some s
      → parse_hhmm int c.end_time ≡ some e
      → local_day zone window_start ≤ d
      → d ≤ local_day zone window_end
      → meets zone window_start window_end c s d ≡ true
      → all_classes zone window_start window_end int cs ≡ some l
      → Some (λ o. o ≡ occurrence zone c s e d) l
  unfolding all_classes
  all_classes_complete [] c s e d l h ps pe lo hi m r = elim h [ ]
  all_classes_complete (x ∷ xs) c s e d l (inl is_c) ps pe lo hi m r =
      let found =
        days_from_complete c s e (days_left zone window_start window_end)
          (local_day zone window_start) d lo (ground arith) m in
      let starts : parse_hhmm int x.start_time ≡ some s =
        ap (λ y. parse_hhmm int y.start_time) is_c ∙ ps in
      let ends : parse_hhmm int x.end_time ≡ some e =
        ap (λ y. parse_hhmm int y.end_time) is_c ∙ pe in
      let days = ap (λ y. class_days zone window_start window_end y (some s) (some e)) is_c in
      let first : class_days zone window_start window_end x (parse_hhmm int x.start_time)
            (parse_hhmm int x.end_time)
          ≡ some (
              days_from zone window_start window_end c s e (days_left zone window_start window_end)
                (local_day zone window_start)) =
        ap₂ (λ a b. class_days zone window_start window_end x a b) starts ends ∙ days in
      also_first (λ o. o ≡ occurrence zone c s e d) _
        (all_classes zone window_start window_end int xs) l found
        (ap (λ f. also f (all_classes zone window_start window_end int xs)) (sym first) ∙ r)
  all_classes_complete (x ∷ xs) c s e d l (inr there) ps pe lo hi m r =
      also_rest (λ o. o ≡ occurrence zone c s e d)
        (class_days zone window_start window_end x (parse_hhmm int x.start_time)
          (parse_hhmm int x.end_time))
        (all_classes zone window_start window_end int xs) l
        (λ k is_k. all_classes_complete xs c s e d k there ps pe lo hi m is_k) r

  sorted_complete :
      (P : ClassOccurrence → Type 0) (o : Option (List ClassOccurrence)) (l : List ClassOccurrence)
      → ((k : List ClassOccurrence) → o ≡ some k → Some P k)
      → sorted o ≡ expanded l
      → Some P l
  sorted_complete P none l h e = ground arith
  sorted_complete P (some k) l h e =
      let same : sort_with starts_before k ≡ l = ground arith in
      subst (λ x. Some P x) same (Some-sort_with starts_before P k (h k refl))

  -- If in the zone no day comes back after the next has begun, and a reading belongs to the day that it
  -- names, then a class of the list whose day of the week falls on a day, and which starts on that day
  -- inside the window, is in the expansion.
  pub expand_occurrences_complete :
      (classes : List WeeklyClass) (c : WeeklyClass) (s e d : ℕ) (l : List ClassOccurrence)
      → IsRegular zone
      → Some (λ x. x ≡ c) classes
      → parse_hhmm int c.start_time ≡ some s
      → parse_hhmm int c.end_time ≡ some e
      → d % 7 ≡ c.day_of_week
      → window_start ≤ starts_utc zone d s
      → starts_utc zone d s ≤ window_end
      → expand_occurrences int zone classes window_start window_end ≡ expanded l
      → Some (λ o. o ≡ occurrence zone c s e d) l
  unfolding expand_occurrences
  expand_occurrences_complete classes c s e d l regular there ps pe on lo hi r =
      let ordered : ltb window_end window_start ≡ false = ground arith in
      let result : sorted (all_classes zone window_start window_end int classes) ≡ expanded l =
        ground arith in
      let home = regular.same_day d s (parse_hhmm_bound int c.start_time s ps) in
      let first = regular.forward window_start (starts_utc zone d s) lo in
      let last = regular.forward (starts_utc zone d s) window_end hi in
      sorted_complete (λ o. o ≡ occurrence zone c s e d)
        (all_classes zone window_start window_end int classes) l
        (λ k is_k.
          all_classes_complete classes c s e d k there ps pe (omega arith) (omega arith)
            (ground arith) is_k)
        result
