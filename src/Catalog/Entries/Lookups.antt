-- ===== src/Catalog/Entries/Lookups.antt =====
-- What `validate_history` of crates/stm32wb-catalog/src/lib.rs checks of the ranges of an entry.
use stm32wb_hci.Prelude.{
  ◌≡◌, ◌≢◌, ◌⊎◌, inl, inr, refl, true, false, Bool-cases, Option, none, some, List, [], ◌∷◌, map,
  if◌then◌else◌,
}
use stm32wb_hci.Catalog.Release.{Version, ReleaseRange}
use stm32wb_hci.Catalog.Target.{Platform}
use stm32wb_hci.Catalog.Entries.{
  Named, Availability, Definition, HistoryError, any_overlap, covered_versions, covered,
  same_versions, any_empty_name, check_availability, check_entries, check_covered, validate_history,
}

abbrev pub named_ranges : List Named → List ReleaseRange
named_ranges names = map (λ named. named.releases) names

abbrev pub available_ranges : List Availability → List ReleaseRange
available_ranges availability = map (λ entry. entry.releases) availability

abbrev pub defined_ranges : {D : Type 0} → List (Definition D) → List ReleaseRange
defined_ranges definitions = map (λ definition. definition.releases) definitions

pub no_error : (e : HistoryError) → some e ≢ none
no_error e q = cc

covered-cases :
    (ranges : List ReleaseRange) (versions : List Version)
    → ((any_overlap ranges ≡ false)
        × (covered ranges versions ≡ some (covered_versions ranges versions)))
      ⊎ (covered ranges versions ≡ none)
unfolding covered
covered-cases ranges versions = elim (Bool-cases (any_overlap ranges)) [
  | inl overlap ↦ inr (rw overlap refl)
  | inr apart ↦ inl (apart, rw apart refl)
]

abbrev pub IsCovered : List ReleaseRange → List ReleaseRange → List Version → Type 0
IsCovered ranges defined versions =
    (any_overlap ranges ≡ false)
    × (same_versions (covered_versions ranges versions) (covered_versions defined versions) ≡ true)

check_covered-IsCovered :
    (ranges defined : List ReleaseRange) (versions : List Version) (e : HistoryError)
    (others : Option HistoryError)
    → check_covered (covered ranges versions) (covered_versions defined versions) e others ≡ none
    → IsCovered ranges defined versions × (others ≡ none)
check_covered-IsCovered ranges defined versions e others h = elim (covered-cases ranges versions) [
  | inr overlap ↦ absurd (no_error _ (rw overlap at h))
  | inl (apart, found) ↦
      compared apart
        (Bool-cases
          (same_versions (covered_versions ranges versions) (covered_versions defined versions)))
        (rw found at h)
]
  where
    compared :
        any_overlap ranges ≡ false
        → (same_versions (covered_versions ranges versions) (covered_versions defined versions)
            ≡ true)
          ⊎ (same_versions (covered_versions ranges versions) (covered_versions defined versions)
              ≡ false)
        → (if same_versions (covered_versions ranges versions) (covered_versions defined versions)
            then others
            else some e)
          ≡ none
        → IsCovered ranges defined versions × (others ≡ none)
    compared apart (inl same) q = ((apart, same), rw same at q)
    compared apart (inr differ) q = absurd (no_error e (rw differ at q))

module _ (own : Platform) (versions : List Version) (names : List Named)
    (availability : List Availability) where
  abbrev pub IsHistory : List ReleaseRange → Type 0
  IsHistory ranges =
      (any_overlap ranges ≡ false)
      × IsCovered (named_ranges names) ranges versions
      × IsCovered (available_ranges availability) ranges versions
      × (any_empty_name names ≡ false)
      × (check_availability own availability ≡ none)

  checked_entries :
      check_entries own names availability ≡ none
      → (any_empty_name names ≡ false) × (check_availability own availability ≡ none)
  checked_entries h = elim (Bool-cases (any_empty_name names)) [
    | inl empty ↦ absurd (no_error _ (rw empty at h))
    | inr none_empty ↦ (none_empty, rw none_empty at h)
  ]

  pub validate_history-IsHistory :
      (ranges : List ReleaseRange)
      → validate_history own versions ranges names availability ≡ none
      → IsHistory ranges
  unfolding validate_history
  validate_history-IsHistory [] h = absurd (no_error _ h)
  validate_history-IsHistory (range ∷ ranges) h = elim (covered-cases (range ∷ ranges) versions) [
    | inr overlap ↦ absurd (no_error _ (rw overlap at h))
    | inl (apart, found) ↦
        let (named, available_left) =
          check_covered-IsCovered (named_ranges names) (range ∷ ranges) versions _ _
            (rw found at h) in
        let (available, entries_left) =
          check_covered-IsCovered (available_ranges availability) (range ∷ ranges) versions _ _
            available_left in
        let (none_empty, checked) = checked_entries entries_left in
        (apart, named, available, none_empty, checked)
  ]
