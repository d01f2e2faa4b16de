-- ===== src/Catalog/Merge/Gather.antt =====
-- `merge_snapshots` of crates/stm32wb-catalog/src/merge.rs: the entries of each key over the snapshots, and what
-- it makes of them. A `BTreeMap` is a list of keys and values in the order of the keys. `gather` is the loop of
-- the binaries, the commands, the events and the domains of structures: that of the status codes, which
-- refuses no duplicate, is not modelled.
pub mod Indices
use stm32wb_hci.Prelude.{
  ℕ, suc, Bool, true, false, Option, none, some, List, [], ◌∷◌, ◌++◌, ◌==◌, if◌then◌else◌,
}
use stm32wb_hci.Prelude.Text.{Text}
use stm32wb_hci.Catalog.Release.{Version, ReleaseRange}
use stm32wb_hci.Catalog.Target.{Profile}
use stm32wb_hci.Catalog.Domain.Items.{sort}
use stm32wb_hci.Catalog.Entries.{Named, Availability, Definition, profile_lt, dedup}
use stm32wb_hci.Catalog.Entries.View.{Entry}
use stm32wb_hci.Catalog.Merge.{Span, Coalesce, project, runs, map_runs, named, available}

abbrev pub Map : Type 0 → Type 0 → Type 0
Map K V = List (K × List V)

-- `map.entry(key).or_default().push(value)`
unfoldable pub push : {K V : Type 0} → (K → K → Bool) → K → V → Map K V → Map K V
push lt key value [] = (key, value ∷ []) ∷ []
push lt key value ((other, values) ∷ map) =
    let rest = push lt key value map in
    if lt other key
    then (other, values) ∷ rest
    else if lt key other
    then (key, value ∷ []) ∷ (other, values) ∷ map
    else (other, values ++ (value ∷ [])) ∷ map

-- `entries.last().is_some_and(|(last, _)| *last == index)`
unfoldable pub ends_at : {T : Type 0} → ℕ → List (ℕ × T) → Bool
ends_at index [] = false
ends_at index ((last, item) ∷ []) = last == index
ends_at index (entry ∷ next ∷ entries) = ends_at index (next ∷ entries)

abbrev pub cons_entries : {K V : Type 0} → K × List V → Option (Map K V) → Option (Map K V)
cons_entries entries none = none
cons_entries entries (some map) = some (entries ∷ map)

module _ {K T : Type 0} (lt : K → K → Bool) where
  -- As `push`; `none` is the error of a key that the snapshot has twice.
  unfoldable pub push_once : K → ℕ → T → Map K (ℕ × T) → Option (Map K (ℕ × T))
  push_once key index item [] = some ((key, (index, item) ∷ []) ∷ [])
  push_once key index item ((other, entries) ∷ map) =
      let rest = push_once key index item map in
      if lt other key
      then cons_entries (other, entries) rest
      else if lt key other
      then some ((key, (index, item) ∷ []) ∷ (other, entries) ∷ map)
      else if ends_at index entries
      then none
      else some ((other, entries ++ ((index, item) ∷ [])) ∷ map)

  -- The loop over the items of a snapshot, and the loop over the snapshots. `stored` is what is kept of an item: a
  -- command or an event with normal profiles, or the item itself.
  unfoldable pub gather_items :
      (T → K) → (T → T) → ℕ → List T → Map K (ℕ × T) → Option (Map K (ℕ × T))
  gather_items key stored index [] map = some map
  gather_items key stored index (item ∷ items) map =
      elim (push_once (key item) index (stored item) map) [
        | none ↦ none
        | some map ↦ gather_items key stored index items map
      ]

  unfoldable pub gather :
      (T → K) → (T → T) → ℕ → List (List T) → Map K (ℕ × T) → Option (Map K (ℕ × T))
  gather key stored index [] map = some map
  gather key stored index (items ∷ snapshots) map = elim (gather_items key stored index items map) [
    | none ↦ none
    | some map ↦ gather key stored (suc index) snapshots map
  ]

-- `profiles.sort(); profiles.dedup()`
unfoldable pub normal : List Profile → List Profile
normal profiles = dedup (sort profile_lt profiles)

abbrev pub definitions_of : {D : Type 0} → List (ReleaseRange × D) → List (Definition D)
definitions_of [] = []
definitions_of ((releases, facts) ∷ others) =
    record { releases = releases; facts = facts } ∷ definitions_of others

abbrev pub entry_of :
    {D : Type 0}
    → Option (List Named)
    → Option (List Availability)
    → Option (List (Definition D))
    → Option (Entry D)
entry_of none availability definitions = none
entry_of (some names) none definitions = none
entry_of (some names) (some availability) none = none
entry_of (some names) (some availability) (some definitions) =
    some (record { names = names; availability = availability; definitions = definitions })

-- The command or the event of one key: its names, its availability and its definitions. `E` is a
-- `SnapshotCommand` or a `SnapshotEvent`, and `D` what a definition says.
unfoldable pub entry :
    {E D : Type 0}
    → Coalesce (Span Text)
    → Coalesce (Span (List Profile))
    → Coalesce (Span D)
    → (Text → Text → Bool)
    → (List Profile → List Profile → Bool)
    → (D → D → Bool)
    → (E → Text)
    → (E → List Profile)
    → (E → D)
    → List (ℕ × E)
    → List Version
    → Option (Entry D)
entry coalesce_names coalesce_profiles coalesce_facts same_name same_profiles same_facts name
      profiles facts entries versions =
    entry_of (named same_name coalesce_names entries versions name)
      (available same_profiles coalesce_profiles entries versions profiles)
      (map_runs definitions_of (runs same_facts coalesce_facts (project facts entries) versions))
