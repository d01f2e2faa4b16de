-- ===== src/Catalog/Entries/View.antt =====
-- crates/stm32wb-catalog/src/view.rs: what a target sees of the catalog. Annotations are those that the
-- lookup of crates/stm32wb-catalog/src/annotations.rs gives.
use stm32wb_hci.Prelude.{Option, none, some, List, [], ◌∷◌, if◌then◌else◌}
use stm32wb_hci.Prelude.Text.{Text}
use stm32wb_hci.Catalog.Release.{Version}
use stm32wb_hci.Catalog.Target.{Profile}
use stm32wb_hci.Catalog.Domain.Labels.{lists_profile}
use stm32wb_hci.Catalog.Entries.{
  Named, Availability, Definition, definition_at, profiles_at, find_at, name_of,
}

pub record Target : Type 0 where
  pub release : Version
  pub profile : Profile

unfoldable pub name_at : List Named → Version → Text
name_at names release = name_of (find_at (λ named. named.releases) release names)

-- A command or an event.
pub record Entry (D : Type 0) : Type 0 where
  pub names : List Named
  pub availability : List Availability
  pub definitions : List (Definition D)

-- `ActiveCommand` or `ActiveEvent`, but for the layouts that `resolve` gives.
pub record Active (D : Type 0) : Type 0 where
  pub entry : Entry D
  pub name : Text
  pub definition : Definition D

module _ {D : Type 0} where
  abbrev pub active_of : Entry D → Version → Option (Definition D) → Option (Active D)
  active_of entry release none = none
  active_of entry release (some definition) =
      some (record { entry = entry; name = name_at entry.names release; definition = definition })

  -- `active_command` and `active_event`
  unfoldable pub active : Entry D → Version → Option (Active D)
  active entry release = active_of entry release (definition_at entry.definitions release)

  abbrev pub if_listed : Entry D → Target → Option (List Profile) → Option (Active D)
  if_listed entry target none = none
  if_listed entry target (some profiles) =
      if lists_profile target.profile profiles then active entry target.release else none

  -- The closure of `TargetView::commands` and `TargetView::events`.
  unfoldable pub seen : Target → Entry D → Option (Active D)
  seen target entry = if_listed entry target (profiles_at entry.availability target.release)

  -- `TargetView::commands` and `TargetView::events`
  unfoldable pub entries : Target → List (Entry D) → List (Active D)
  entries target [] = []
  entries target (entry ∷ others) = elim (seen target entry) [
    | none ↦ entries target others
    | some found ↦ found ∷ entries target others
  ]

-- `Layout` with a reason of type `R`, `Provenance` with annotations of type `A`, and `ResolvedLayout`.
pub data Extracted (F R : Type 0) : Type 0 where
  fields : F → Extracted F R
  unresolved : R → Extracted F R

pub record ResolvedLayout (F R S A : Type 0) : Type 0 where
  pub layout : Extracted F R
  pub structs : S
  pub annotation : Option A

-- `resolve`, given the annotation of the layout and its fields, and the structures of each.
unfoldable pub resolve :
    {F R S A : Type 0} → (A → S) → Option (A × F) → Extracted F R → S → ResolvedLayout F R S A
resolve structs_of (some (annotation, list)) extracted structs = record {
  layout = fields list;
  structs = structs_of annotation;
  annotation = some annotation;
}
resolve structs_of none extracted structs = record {
  layout = extracted;
  structs = structs;
  annotation = none;
}
