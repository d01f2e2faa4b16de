-- ===== src/Catalog/Entries.antt =====
-- crates/stm32wb-catalog/src/lib.rs and view.rs: the names, the availability and the definitions of a command
-- or an event over the releases, how the catalog checks them, and what a target sees of them.
pub mod View
pub mod Checks
pub mod Lookups
pub mod Agreement
pub mod Seen
mod Examples
use stm32wb_hci.Prelude.{
  ℕ, Bool, true, false, not, ◌&&◌, ◌||◌, Option, none, some, List, [], ◌∷◌, map, ltb, ◌==◌,
  if◌then◌else◌,
}
use stm32wb_hci.Prelude.Text.{Text}
use stm32wb_hci.Catalog.Release.{Version, version_le, ReleaseRange, contains, overlaps}
use stm32wb_hci.Catalog.Release.Texts.{same_version}
use stm32wb_hci.Catalog.Target.{Platform, Profile, platform}
use stm32wb_hci.Catalog.Domain.Items.{sort}
use stm32wb_hci.Catalog.Domain.Labels.{same_platform, profile_index}

pub record Named : Type 0 where
  pub releases : ReleaseRange
  pub name : Text

pub record Availability : Type 0 where
  pub releases : ReleaseRange
  pub profiles : List Profile

-- A `CommandDefinition` or an `EventDefinition`; `D` is what it says besides its releases.
pub record Definition (D : Type 0) : Type 0 where
  pub releases : ReleaseRange
  pub facts : D

-- `iter().find(|entry| entry.releases.contains(release))`, given the releases of an entry.
unfoldable pub find_at {ℓ} : {A : Type ℓ} → (A → ReleaseRange) → Version → List A → Option A
find_at releases release [] = none
find_at releases release (entry ∷ entries) =
    let others = find_at releases release entries in
    if contains (releases entry) release then some entry else others

abbrev pub definition_at : {D : Type 0} → List (Definition D) → Version → Option (Definition D)
definition_at definitions release = find_at (λ d. d.releases) release definitions

abbrev pub profiles_of : Option Availability → Option (List Profile)
profiles_of none = none
profiles_of (some entry) = some entry.profiles

unfoldable pub profiles_at : List Availability → Version → Option (List Profile)
profiles_at availability release =
    profiles_of (find_at (λ entry. entry.releases) release availability)

-- `max_by_key`, which gives the last of several greatest.
abbrev pub later : Named → Option Named → Named
later named none = named
later named (some other) =
    if version_le named.releases.last other.releases.last then other else named

unfoldable pub latest : List Named → Option Named
latest [] = none
latest (named ∷ names) = some (later named (latest names))

abbrev pub name_of : Option Named → Text
name_of none = []
name_of (some named) = named.name

unfoldable pub latest_name : List Named → Text
latest_name names = name_of (latest names)

pub data HistoryError : Type 0 where
  no_definitions overlapping names_differ availability_differs empty_name no_profile other_platform
        profiles_unsorted :
      HistoryError

unfoldable pub overlaps_any : ReleaseRange → List ReleaseRange → Bool
overlaps_any range [] = false
overlaps_any range (other ∷ ranges) = overlaps range other || overlaps_any range ranges

unfoldable pub any_overlap : List ReleaseRange → Bool
any_overlap [] = false
any_overlap (range ∷ ranges) = overlaps_any range ranges || any_overlap ranges

unfoldable pub any_contains : Version → List ReleaseRange → Bool
any_contains version [] = false
any_contains version (range ∷ ranges) = contains range version || any_contains version ranges

-- The versions that some range contains.
unfoldable pub covered_versions : List ReleaseRange → List Version → List Version
covered_versions ranges [] = []
covered_versions ranges (version ∷ versions) =
    let others = covered_versions ranges versions in
    if any_contains version ranges then version ∷ others else others

-- The closure `covered`; `none` is the error of ranges that overlap.
unfoldable pub covered : List ReleaseRange → List Version → Option (List Version)
covered ranges versions =
    if any_overlap ranges then none else some (covered_versions ranges versions)

unfoldable pub same_versions : List Version → List Version → Bool
same_versions [] [] = true
same_versions [] (w ∷ ws) = false
same_versions (v ∷ vs) [] = false
same_versions (v ∷ vs) (w ∷ ws) = same_version v w && same_versions vs ws

abbrev pub is_empty_text : Text → Bool
is_empty_text [] = true
is_empty_text (c ∷ text) = false

unfoldable pub any_empty_name : List Named → Bool
any_empty_name [] = false
any_empty_name (named ∷ names) = is_empty_text named.name || any_empty_name names

unfoldable pub any_other_platform : Platform → List Profile → Bool
any_other_platform own [] = false
any_other_platform own (profile ∷ profiles) =
    not (same_platform (platform profile) own) || any_other_platform own profiles

-- `sort` and `dedup` of profiles, which are compared by the order of their constructors.
abbrev pub profile_lt : Profile → Profile → Bool
profile_lt a b = ltb (profile_index a) (profile_index b)

abbrev pub dedup_after : Profile → List Profile → List Profile
dedup_after profile [] = profile ∷ []
dedup_after profile (next ∷ profiles) =
    if profile_index profile == profile_index next
    then next ∷ profiles
    else profile ∷ next ∷ profiles

unfoldable pub dedup : List Profile → List Profile
dedup [] = []
dedup (profile ∷ profiles) = dedup_after profile (dedup profiles)

unfoldable pub same_profiles : List Profile → List Profile → Bool
same_profiles [] [] = true
same_profiles [] (q ∷ qs) = false
same_profiles (p ∷ ps) [] = false
same_profiles (p ∷ ps) (q ∷ qs) = (profile_index p == profile_index q) && same_profiles ps qs

abbrev pub no_profiles : List Profile → Bool
no_profiles [] = true
no_profiles (profile ∷ profiles) = false

-- The loop over the availability; `none` is success.
unfoldable pub check_availability : Platform → List Availability → Option HistoryError
check_availability own [] = none
check_availability own (entry ∷ entries) =
    let others = check_availability own entries in
    if no_profiles entry.profiles
    then some no_profile
    else if any_other_platform own entry.profiles
    then some other_platform
    else if not (same_profiles (dedup (sort profile_lt entry.profiles)) entry.profiles)
    then some profiles_unsorted
    else others

abbrev pub check_entries : Platform → List Named → List Availability → Option HistoryError
check_entries own names availability =
    if any_empty_name names then some empty_name else check_availability own availability

abbrev pub check_covered :
    Option (List Version) → List Version → HistoryError → Option HistoryError → Option HistoryError
check_covered none defined error others = some overlapping
check_covered (some found) defined error others =
    if same_versions found defined then others else some error

abbrev pub check_defined :
    Option (List Version)
    → Option (List Version)
    → Option (List Version)
    → Option HistoryError
    → Option HistoryError
check_defined none named available others = some overlapping
check_defined (some defined) named available others =
    check_covered named defined names_differ
      (check_covered available defined availability_differs others)

-- `validate_history`; `none` is success.
unfoldable pub validate_history :
    Platform
    → List Version
    → List ReleaseRange
    → List Named
    → List Availability
    → Option HistoryError
validate_history own versions [] names availability = some no_definitions
validate_history own versions (range ∷ ranges) names availability =
    check_defined (covered (range ∷ ranges) versions)
      (covered (map (λ named. named.releases) names) versions)
      (covered (map (λ entry. entry.releases) availability) versions)
      (check_entries own names availability)
