-- ===== src/Catalog/Queries.antt =====
-- The lookups of a whole catalog in crates/stm32wb-catalog/src/lib.rs, and `distinct_targets` of view.rs. The
-- addresses that `ptr` gives are of a type `K`.
pub mod Targets
pub mod Listing
pub mod Order
pub mod Representatives
mod Examples
use stm32wb_hci.Prelude.{
  ℕ, Bool, true, false, ◌&&◌, ◌||◌, Option, none, some, List, [], ◌∷◌, ◌++◌, map, ltb,
  if◌then◌else◌,
}
use stm32wb_hci.Prelude.Text.{Text, same_text}
use stm32wb_hci.Catalog.Release.{Version, ReleaseRange, contains}
use stm32wb_hci.Catalog.Release.Texts.{same_version}
use stm32wb_hci.Catalog.Target.{Platform, Profile, profiles}
use stm32wb_hci.Catalog.Domain.Items.{sort}
use stm32wb_hci.Catalog.Entries.{Named, no_profiles}
use stm32wb_hci.Catalog.Entries.View.{Target, Entry, Active, entries}

-- The tag and the commit are texts that no lookup reads.
pub record ReleaseSource : Type 0 where
  pub version : Version
  pub profiles : List Profile

pub record StatusCode : Type 0 where
  pub releases : ReleaseRange
  pub name : Text
  pub value : ℕ

-- What the lookups read of a catalog.
pub record Catalog (C E : Type 0) : Type 0 where
  pub platform : Platform
  pub releases : List ReleaseSource
  pub commands : List (Entry C)
  pub events : List (Entry E)
  pub statuses : List StatusCode

unfoldable pub find_release : Version → List ReleaseSource → Option ReleaseSource
find_release release [] = none
find_release release (source ∷ sources) =
    let others = find_release release sources in
    if same_version source.version release then some source else others

abbrev pub source_profiles : Platform → Option ReleaseSource → List Profile
source_profiles own none = []
source_profiles own (some source) =
    if no_profiles source.profiles then profiles own else source.profiles

unfoldable pub statuses_in : Version → List StatusCode → List StatusCode
statuses_in release [] = []
statuses_in release (status ∷ statuses) =
    let others = statuses_in release statuses in
    if contains status.releases release then status ∷ others else others

abbrev pub value_lt : StatusCode → StatusCode → Bool
value_lt a b = ltb a.value b.value

unfoldable pub any_named : Text → List Named → Bool
any_named name [] = false
any_named name (named ∷ names) = same_text named.name name || any_named name names

unfoldable pub find_named : {D : Type 0} → Text → List (Entry D) → Option (Entry D)
find_named name [] = none
find_named name (entry ∷ others) =
    let found = find_named name others in if any_named name entry.names then some entry else found

unfoldable pub targets_of : Version → List Profile → List Target
targets_of release [] = []
targets_of release (profile ∷ others) =
    record { release = release; profile = profile } ∷ targets_of release others

unfoldable pub has_release : Version → List Version → Bool
has_release release [] = false
has_release release (version ∷ versions) =
    same_version version release || has_release release versions

unfoldable pub same_list : {A : Type 0} → (A → A → Bool) → List A → List A → Bool
same_list same [] [] = true
same_list same [] (b ∷ ys) = false
same_list same (a ∷ xs) [] = false
same_list same (a ∷ xs) (b ∷ ys) = same a b && same_list same xs ys

-- Whether a set has the element.
unfoldable pub has_element : {A : Type 0} → (A → A → Bool) → A → List A → Bool
has_element same a [] = false
has_element same a (b ∷ set) = same b a || has_element same a set

module _ {C E : Type 0} where
  abbrev pub versions : Catalog C E → List Version
  versions self = map (λ source. source.version) self.releases

  unfoldable pub profiles_in : Catalog C E → Version → List Profile
  profiles_in self release = source_profiles self.platform (find_release release self.releases)

  unfoldable pub targets_in : Catalog C E → List Version → List Target
  targets_in self [] = []
  targets_in self (release ∷ others) =
      targets_of release (profiles_in self release) ++ targets_in self others

  unfoldable pub targets : Catalog C E → List Target
  targets self = targets_in self (versions self)

  unfoldable pub statuses_at : Catalog C E → Version → List StatusCode
  statuses_at self release = sort value_lt (statuses_in release self.statuses)

  abbrev pub command_named : Catalog C E → Text → Option (Entry C)
  command_named self name = find_named name self.commands

  abbrev pub event_named : Catalog C E → Text → Option (Entry E)
  event_named self name = find_named name self.events

  -- `Bundled::view`; `none` is the error of a release that the catalog does not describe.
  unfoldable pub view : Catalog C E → Target → Option Target
  view self target = if has_release target.release (versions self) then some target else none

  -- The four addresses of a command and of an event, with the annotations of the release, are those that
  -- `command_key` and `event_key` give.
  module _ {K : Type 0} (same_key : K → K → Bool) (command_key : Version → Active C → K)
      (event_key : Version → Active E → K) where
    unfoldable pub interface : Catalog C E → Target → List K
    interface self target =
        map (command_key target.release) (entries target self.commands)
        ++ map (event_key target.release) (entries target self.events)

    abbrev pub cons_target : Target → Option (List Target) → Option (List Target)
    cons_target target none = none
    cons_target target (some others) = some (target ∷ others)

    -- The loop, with the interfaces that it has seen; `none` is the panic of `expect`.
    unfoldable pub representatives :
        Catalog C E → List Target → List (List K) → Option (List Target)
    representatives self [] seen = some []
    representatives self (target ∷ others) seen = elim (view self target) [
      | none ↦ none
      | some target ↦
          let found = interface self target in
          let known = representatives self others seen in
          let inserted = representatives self others (found ∷ seen) in
          if has_element (same_list same_key) found seen then known else cons_target target inserted
    ]

    unfoldable pub distinct_targets : Catalog C E → Option (List Target)
    distinct_targets self = representatives self (targets self) []
