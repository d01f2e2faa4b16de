-- ===== src/Catalog/Queries/Examples.antt =====
-- Runs of the lookups of a catalog, and the theorems there.
use stm32wb_hci.Prelude.{ℕ, ◌≡◌, ◌↔◌, inl, inr, refl, some, List, [], ◌∷◌, ◌==◌, ==_iff, map}
use stm32wb_hci.Prelude.Text.{codes, same_text}
use stm32wb_hci.Catalog.Release.{Version, version_le, ReleaseRange, contains}
use stm32wb_hci.Catalog.Target.{Profile, stm32wb, stm32wba, wba_full, wba_basic_plus, profiles}
use stm32wb_hci.Catalog.Domain.Items.{sort, insert}
use stm32wb_hci.Catalog.Domain.Items.Results.{Listed}
use stm32wb_hci.Catalog.Domain.Labels.{lists_profile}
use stm32wb_hci.Catalog.Entries.{profiles_at, find_at}
use stm32wb_hci.Catalog.Entries.View.{Target, Entry, Active, name_at, active, seen, entries}
use stm32wb_hci.Catalog.Queries.{
  Catalog, find_release, statuses_in, any_named, find_named, targets_of, has_release, same_list,
  has_element, versions, profiles_in, targets_in, targets, statuses_at, command_named, view,
  interface, representatives, distinct_targets,
}
use stm32wb_hci.Catalog.Queries.Targets.{Describes}
use stm32wb_hci.Catalog.Queries.Listing.{IsTarget}
use stm32wb_hci.Catalog.Queries.Order.{target_lt, AllSorted, targets_lem}
use stm32wb_hci.Catalog.Merge.Lookups.{version_lt}
use stm32wb_hci.Catalog.Domain.Items.Sorting.{Ascending}
use stm32wb_hci.Catalog.Queries.Representatives.{
  first_with, Distinct, interface_of, same_interface, distinct_targets_lem,
}

abbrev release : ℕ → Version
release minor = record { major = 1; minor = minor; patch = 0 }

abbrev from : ℕ → ℕ → ReleaseRange
from first last = record { first = release first; last = release last }

-- A command that 1.16.0 brings to one profile.
abbrev command : Entry ℕ
command = record {
  names = record { releases = from 16 17; name = codes "aci_gap_init" } ∷ [];
  availability = record { releases = from 16 17; profiles = wba_full ∷ [] } ∷ [];
  definitions = record { releases = from 16 17; facts = 5 } ∷ [];
}

abbrev catalog : Catalog ℕ ℕ
catalog = record {
  platform = stm32wba;
  releases =
      record { version = release 15; profiles = wba_full ∷ wba_basic_plus ∷ [] }
      ∷ record { version = release 16; profiles = wba_full ∷ wba_basic_plus ∷ [] }
      ∷ record { version = release 17; profiles = wba_full ∷ [] }
      ∷ [];
  commands = command ∷ [];
  events = [];
  statuses =
      record { releases = from 15 17; name = codes "BLE_STATUS_FAILED"; value = 0x91 }
      ∷ record { releases = from 16 17; name = codes "BLE_STATUS_BUSY"; value = 0x83 }
      ∷ [];
}

abbrev target : ℕ → Profile → Target
target minor profile = record { release = release minor; profile = profile }

abbrev key : Version → Active ℕ → ℕ
key version found = found.definition.facts

five_targets :
    targets catalog
    ≡ target 15 wba_full
      ∷ target 15 wba_basic_plus
      ∷ target 16 wba_full
      ∷ target 16 wba_basic_plus
      ∷ target 17 wba_full
      ∷ []
unfolding targets targets_in targets_of profiles_in find_release
five_targets = refl

-- Every target has the command or lacks it.
two_interfaces :
    distinct_targets ◌==◌ key key catalog ≡ some (target 15 wba_full ∷ target 16 wba_full ∷ [])
unfolding distinct_targets representatives view has_release interface entries seen profiles_at
    find_at contains version_le lists_profile active name_at targets targets_in targets_of
    profiles_in find_release has_element same_list
two_interfaces = refl

sorted_statuses : map (λ s. s.value) (statuses_at catalog (release 16)) ≡ 0x83 ∷ 0x91 ∷ []
unfolding statuses_at statuses_in sort insert contains version_le
sorted_statuses = refl

by_name : command_named catalog (codes "aci_gap_init") ≡ some command
unfolding find_named any_named same_text
by_name = refl

described : Describes catalog (target 17 wba_full) (versions catalog)
unfolding profiles_in find_release
described = (inr (inr (inl refl)), inl refl)

ascending : Ascending version_lt (versions catalog)
unfolding version_le
ascending = ((refl, (refl, tt)), ((refl, tt), (tt, tt)))

sorted_profiles : AllSorted catalog.releases
sorted_profiles = (((refl, tt), (tt, tt)), (((refl, tt), (tt, tt)), ((tt, tt), tt)))

targets_lem_example :
    Ascending target_lt (targets catalog)
    × (Listed (target 17 wba_full) (targets catalog) ↔ IsTarget catalog (target 17 wba_full))
targets_lem_example = targets_lem catalog sorted_profiles (target 17 wba_full) ascending

-- A release that lists no profiles has those of the platform.
every_profile :
    profiles_in
      (record catalog {
        platform = stm32wb;
        releases = record { version = release 15; profiles = [] } ∷ [];
      })
      (release 15)
    ≡ profiles stm32wb
unfolding profiles_in find_release
every_profile = refl

distinct_targets_lem_example :
    (chosen : List Target) × (distinct_targets ◌==◌ key key catalog ≡ some chosen)
    × Distinct (same_interface ◌==◌ key key catalog) (interface_of ◌==◌ key key catalog) chosen
    × (first : Target) × Listed first chosen
    × (interface ◌==◌ key key catalog first ≡ interface ◌==◌ key key catalog (target 17 wba_full))
    × (first_with
          (same_interface ◌==◌ key key catalog)
          (interface_of ◌==◌ key key catalog)
          (interface ◌==◌ key key catalog (target 17 wba_full))
          (targets catalog)
        ≡ some first)
distinct_targets_lem_example =
    distinct_targets_lem ◌==◌ key key catalog (target 17 wba_full) ==_iff described
