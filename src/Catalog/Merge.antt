-- ===== src/Catalog/Merge.antt =====
-- crates/stm32wb-catalog/src/merge.rs: the facts of consecutive releases become ranges of releases. `coalesce`
-- is that of the crate itertools.
pub mod Spans
pub mod Lookups
pub mod Ranges
pub mod Gather
mod Examples
use stm32wb_hci.Prelude.{
  ℕ, suc, ◌+◌, Bool, true, false, ◌&&◌, Option, none, some, List, [], ◌∷◌, ◌++◌, map, ◌≡◌, ◌==◌,
  get_elem?, if◌then◌else◌,
}
use stm32wb_hci.Prelude.Text.{Text}
use stm32wb_hci.Catalog.Release.{Version, ReleaseRange}
use stm32wb_hci.Catalog.Target.{Profile}
use stm32wb_hci.Catalog.Entries.{Named, Availability}

-- The indices of the first and the last release of a run, and the value.
pub record Span (T : Type 0) : Type 0 where
  pub first : ℕ
  pub last : ℕ
  pub value : T

-- What the closure of `coalesce` gives: one element, or the two that it was given.
pub data Joined (A : Type 0) : Type 0 where
  joined : A → Joined A
  apart : A → A → Joined A

abbrev pub Coalesce : Type 0 → Type 0
Coalesce A = (A → A → Joined A) → List A → List A

abbrev pub coalesce_step :
    {A : Type 0} → Coalesce A → (A → A → Joined A) → Joined A → List A → List A
coalesce_step coalesce f (joined c) l = coalesce f (c ∷ l)
coalesce_step coalesce f (apart a b) l = a ∷ coalesce f (b ∷ l)

-- `coalesce` of itertools, as it is documented: the closure merges the element so far and the next one, or
-- gives both back, of which the first is done.
pub record IsCoalesce {A : Type 0} (coalesce : Coalesce A) : Type 0 where
  pub empty : (f : A → A → Joined A) → coalesce f [] ≡ []
  pub one : (f : A → A → Joined A) (a : A) → coalesce f (a ∷ []) ≡ a ∷ []
  pub next :
      (f : A → A → Joined A) (a b : A) (l : List A)
      → coalesce f (a ∷ b ∷ l) ≡ coalesce_step coalesce f (f a b) l

-- `project`
unfoldable pub project : {T U : Type 0} → (T → U) → List (ℕ × T) → List (ℕ × U)
project value [] = []
project value ((index, entry) ∷ entries) = (index, value entry) ∷ project value entries

unfoldable pub single_spans : {T : Type 0} → List (ℕ × T) → List (Span T)
single_spans [] = []
single_spans ((index, value) ∷ entries) =
    record { first = index; last = index; value = value } ∷ single_spans entries

module _ {T : Type 0} (same : T → T → Bool) where
  -- The closure: the next entry extends the run before it, or starts another.
  unfoldable pub join : Span T → Span T → Joined (Span T)
  join run next =
      if (run.last + 1 == next.first) && same run.value next.value
      then joined (record run { last = next.first })
      else apart run (record next { last = next.first })

  unfoldable pub spans : Coalesce (Span T) → List (ℕ × T) → List (Span T)
  spans coalesce entries = coalesce join (single_spans entries)

  abbrev pub range_at : Option Version → Option Version → T → Option (ReleaseRange × T)
  range_at none last value = none
  range_at (some first) none value = none
  range_at (some first) (some last) value = some (record { first = first; last = last }, value)

  abbrev pub cons_run :
      Option (ReleaseRange × T)
      → Option (List (ReleaseRange × T))
      → Option (List (ReleaseRange × T))
  cons_run none others = none
  cons_run (some run) none = none
  cons_run (some run) (some others) = some (run ∷ others)

  -- `versions[first]` and `versions[last]`; `none` is the panic of an index out of bounds.
  unfoldable pub ranges_of : List Version → List (Span T) → Option (List (ReleaseRange × T))
  ranges_of versions [] = some []
  ranges_of versions (span ∷ others) =
      cons_run (range_at (get_elem? versions span.first) (get_elem? versions span.last) span.value)
        (ranges_of versions others)

  unfoldable pub runs :
      Coalesce (Span T) → List (ℕ × T) → List Version → Option (List (ReleaseRange × T))
  runs coalesce entries versions = ranges_of versions (spans coalesce entries)

abbrev pub named_of : List (ReleaseRange × Text) → List Named
named_of [] = []
named_of ((releases, name) ∷ others) = record { releases = releases; name = name } ∷ named_of others

abbrev pub map_runs :
    {T U : Type 0}
    → (List (ReleaseRange × T) → List U)
    → Option (List (ReleaseRange × T))
    → Option (List U)
map_runs f none = none
map_runs f (some found) = some (f found)

abbrev pub available_of : List (ReleaseRange × List Profile) → List Availability
available_of [] = []
available_of ((releases, profiles) ∷ others) =
    record { releases = releases; profiles = profiles } ∷ available_of others

module _ {E : Type 0} where
  unfoldable pub named :
      (Text → Text → Bool)
      → Coalesce (Span Text)
      → List (ℕ × E)
      → List Version
      → (E → Text)
      → Option (List Named)
  named same coalesce entries versions name =
      map_runs named_of (runs same coalesce (project name entries) versions)

  unfoldable pub available :
      (List Profile → List Profile → Bool)
      → Coalesce (Span (List Profile))
      → List (ℕ × E)
      → List Version
      → (E → List Profile)
      → Option (List Availability)
  available same coalesce entries versions profiles =
      map_runs available_of (runs same coalesce (project profiles entries) versions)
