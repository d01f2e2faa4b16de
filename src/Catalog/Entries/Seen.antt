-- ===== src/Catalog/Entries/Seen.antt =====
-- What `TargetView` of crates/stm32wb-catalog/src/view.rs gives of an entry that the catalog accepts.
use stm32wb_hci.Prelude.{
  ◌≡◌, ◌⊎◌, inl, inr, refl, Bool, true, false, Bool-cases, Option, none, some, List,
}
use stm32wb_hci.Catalog.Release.{Version}
use stm32wb_hci.Catalog.Target.{Platform, Profile}
use stm32wb_hci.Catalog.Domain.Items.Results.{Listed}
use stm32wb_hci.Catalog.Domain.Labels.{lists_profile}
use stm32wb_hci.Catalog.Entries.{profiles_at, is_empty_text, validate_history}
use stm32wb_hci.Catalog.Entries.Checks.{IsOnly}
use stm32wb_hci.Catalog.Entries.Lookups.{defined_ranges}
use stm32wb_hci.Catalog.Entries.Agreement.{lookups_agree}
use stm32wb_hci.Catalog.Entries.View.{Target, name_at, Entry, Active, active, seen}

abbrev pub lists : Profile → Option (List Profile) → Bool
lists profile none = false
lists profile (some profiles) = lists_profile profile profiles

-- The documents list the target's profile for the entry in the target's release.
abbrev pub supports : {D : Type 0} → Entry D → Target → Bool
supports entry target = lists target.profile (profiles_at entry.availability target.release)

-- The entry as the target sees it: by a name, with the only definition of its release.
abbrev pub Shows : {D : Type 0} → Target → Entry D → Active D → Type 0
Shows target entry found =
    (seen target entry ≡ some found)
    × (is_empty_text found.name ≡ false)
    × IsOnly (λ d. d.releases) target.release found.definition entry.definitions

-- A target of a catalog that accepts an entry sees it exactly where the documents list the target's
-- profile, with a name that is not empty and the only definition of the release.
pub seen_lem :
    {D : Type 0} (own : Platform) (versions : List Version) (entry : Entry D) (target : Target)
    → validate_history own versions
        (defined_ranges entry.definitions)
        entry.names
        entry.availability
      ≡ none
    → Listed target.release versions
    → ((supports entry target ≡ true) × ((found : Active D) × Shows target entry found))
      ⊎ ((supports entry target ≡ false) × (seen target entry ≡ none))
unfolding seen active name_at
seen_lem own versions entry target h listed =
    elim (lookups_agree own versions entry target.release h listed) [
      | inl (no_definition, no_name, no_profiles) ↦ inr (rw no_profiles refl, rw no_profiles refl)
      | inr (definition, named, profiles, d, only, n, named_so, p, own_profiles) ↦
          elim (Bool-cases (lists_profile target.profile profiles)) [
            | inr unlisted ↦ inr (rw (p, unlisted) refl, rw (p, unlisted) refl)
            | inl supported ↦ inl (
              rw (p, supported) refl,
              (
                record { entry = entry; name = named.name; definition = definition },
                (rw (p, supported, d, n) refl, named_so, only),
              ),
            )
          ]
    ]
