-- ===== src/Catalog/Entries/Examples.antt =====
-- Runs of the lookups and checks of entries, and the theorems there.
use stm32wb_hci.Prelude.{ℕ, ◌≡◌, ◌⊎◌, inl, inr, refl, true, false, none, some, List, [], ◌∷◌}
use stm32wb_hci.Prelude.Text.{codes}
use stm32wb_hci.Catalog.Release.{Version, version_le, ReleaseRange, contains, overlaps}
use stm32wb_hci.Catalog.Target.{stm32wb, full_extended, full, platform}
use stm32wb_hci.Catalog.Domain.Items.{sort, insert}
use stm32wb_hci.Catalog.Entries.{
  latest, latest_name, overlaps_any, any_overlap, any_contains, covered_versions, covered,
  same_versions, any_empty_name, any_other_platform, dedup, same_profiles, check_availability,
  validate_history, overlapping, names_differ,
}
use stm32wb_hci.Catalog.Entries.View.{Target, Entry, Active, seen, fields, unresolved, resolve}
use stm32wb_hci.Catalog.Entries.Lookups.{defined_ranges}
use stm32wb_hci.Catalog.Entries.Agreement.{IsAbsent, IsPresent, lookups_agree}
use stm32wb_hci.Catalog.Entries.Seen.{supports, Shows, seen_lem}

abbrev release : ℕ → Version
release minor = record { major = 1; minor = minor; patch = 0 }

abbrev from : ℕ → ℕ → ReleaseRange
from first last = record { first = release first; last = release last }

abbrev versions : List Version
versions = release 15 ∷ release 16 ∷ release 17 ∷ release 18 ∷ []

-- A command that is renamed in 1.17.0 and redefined in 1.16.0, and that 1.18.0 lacks.
abbrev command : Entry ℕ
command = record {
  names =
      record { releases = from 15 16; name = codes "hci_old" }
      ∷ record { releases = from 17 17; name = codes "hci_new" }
      ∷ [];
  availability = record { releases = from 15 17; profiles = full_extended ∷ full ∷ [] } ∷ [];
  definitions =
      record { releases = from 15 15; facts = 0 }
      ∷ record { releases = from 16 17; facts = 1 }
      ∷ [];
}

abbrev ranges : List ReleaseRange
ranges = defined_ranges command.definitions

accepted : validate_history stm32wb versions ranges command.names command.availability ≡ none
unfolding validate_history covered any_overlap overlaps_any overlaps version_le covered_versions
    any_contains contains same_versions any_empty_name check_availability any_other_platform
    platform sort insert dedup same_profiles
accepted = refl

unnamed :
    validate_history stm32wb versions ranges
      (record { releases = from 15 16; name = codes "a" } ∷ [])
      command.availability
    ≡ some names_differ
unfolding validate_history covered any_overlap overlaps_any overlaps version_le covered_versions
    any_contains contains same_versions
unnamed = refl

twice_defined :
    validate_history stm32wb versions
      (from 15 16 ∷ from 16 17 ∷ [])
      command.names
      command.availability
    ≡ some overlapping
unfolding validate_history covered any_overlap overlaps_any overlaps version_le
twice_defined = refl

newest : latest_name command.names ≡ codes "hci_new"
unfolding latest_name latest version_le
newest = refl

abbrev target : Target
target = record { release = release 16; profile = full }

annotated :
    resolve {F = ℕ} {R = ℕ} {S = ℕ} {A = ℕ} (λ a. a) (some (7, 8)) (unresolved 0) 1
    ≡ record { layout = fields 8; structs = 7; annotation = some 7 }
unfolding resolve
annotated = refl

lookups_agree_example : IsAbsent command (release 16) ⊎ IsPresent stm32wb command (release 16)
lookups_agree_example =
    lookups_agree stm32wb versions command (release 16) accepted (inr (inl refl))

seen_lem_example :
    ((supports command target ≡ true) × ((found : Active ℕ) × Shows target command found))
    ⊎ ((supports command target ≡ false) × (seen target command ≡ none))
seen_lem_example = seen_lem stm32wb versions command target accepted (inr (inl refl))
