-- ===== src/Academic/Fallback.antt =====
-- Accounts without a stored profile, in ragra/relevance/profile.py.
use ragra_reminder.Prelude.{
  ℕ, ◌≡◌, refl, sym, ap, ◌∙◌, subst, false, Option, none, some, List, [], ◌∷◌, Text, arith, select,
  fetchone, exists_row, fetch_inserted, ==_refl,
}
use ragra_reminder.Sync.Types.{Decision}
use ragra_reminder.Relevance.{Strings, is_relevant, find_course_key}
use ragra_reminder.Relevance.Evidence.{is_relevant_evidence}
use ragra_reminder.Academic.{
  Legacy, Today, ProfileRow, is_profile_of, is_unlinked, profile_of_row, legacy_profile,
  empty_profile, build, load_profile, save_profile, adopt_legacy_profile, labels_of,
}

nothing_stored :
    (u : ℕ) (rows : List ProfileRow)
    → exists_row (is_profile_of u) rows ≡ false
    → fetchone (select (is_profile_of u) rows) ≡ none
nothing_stored u [] h = refl
nothing_stored u (x ∷ xs) h = ground (arith, nothing_stored u xs (ground arith))

module _ (legacy : Legacy) (u now : ℕ) (today : Today) (rows : List ProfileRow)
    (unstored : exists_row (is_profile_of u) rows ≡ false) where
  adopted :
      (unlinked : Option ℕ)
      → load_profile legacy unlinked u today (adopt_legacy_profile legacy u now rows)
        ≡ legacy_profile legacy today
  unfolding load_profile adopt_legacy_profile save_profile
  adopted unlinked = rw unstored (
      ap (profile_of_row legacy unlinked u today)
        (fetch_inserted (is_profile_of u) rows _ (nothing_stored u rows unstored) (==_refl u)))

  first_owner : load_profile legacy (some u) u today rows ≡ legacy_profile legacy today
  unfolding load_profile
  first_owner =
      ap (profile_of_row legacy (some u) u today) (nothing_stored u rows unstored) ∙ rw ==_refl refl

  -- An owner without a stored profile loads the same profile after it was adopted, linked or not, as
  -- before.
  pub load_profile-adopt_legacy_profile :
      (unlinked : Option ℕ)
      → load_profile legacy unlinked u today (adopt_legacy_profile legacy u now rows)
        ≡ load_profile legacy (some u) u today rows
  load_profile-adopt_legacy_profile unlinked = adopted unlinked ∙ sym first_owner

-- For an account without a stored profile, which is not the unlinked one, no item is put aside as another
-- section's.
pub unconfigured_sees_all :
    (legacy : Legacy) (unlinked : Option ℕ) (u : ℕ) (today : Today) (rows : List ProfileRow)
    (strings : Strings) (title description course_name : Text)
    → exists_row (is_profile_of u) rows ≡ false
    → is_unlinked unlinked u ≡ false
    → ¬ (
        is_relevant strings title description course_name
          (labels_of (load_profile legacy unlinked u today rows))
        ≡ Decision.other_section)
unfolding load_profile find_course_key build
unconfigured_sees_all legacy unlinked u today rows strings title description course_name unstored
      linked =
    λ h.
      let is_empty_profile : load_profile legacy unlinked u today rows ≡ empty_profile today =
        ap (profile_of_row legacy unlinked u today) (nothing_stored u rows unstored)
        ∙ rw linked refl in
      let aside =
        subst
          (λ p.
            is_relevant strings title description course_name (labels_of p)
            ≡ Decision.other_section)
          is_empty_profile h in
      let evidence =
        is_relevant_evidence strings title description course_name (labels_of (empty_profile today))
          aside in
      ground (arith, evidence.1)
