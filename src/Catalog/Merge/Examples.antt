-- ===== src/Catalog/Merge/Examples.antt =====
-- A `coalesce` that is as documented, runs of crates/stm32wb-catalog/src/merge.rs, and the theorems there.
use stm32wb_hci.Prelude.{ℕ, ◌≡◌, refl, none, some, List, [], ◌∷◌, arith, ◌==◌, ==_iff, length, ltb}
use stm32wb_hci.Prelude.Bytes.{All}
use stm32wb_hci.Prelude.Text.{codes, same_text}
use stm32wb_hci.Catalog.Release.{Version, version_le, ReleaseRange}
use stm32wb_hci.Catalog.Target.{Profile, full, light}
use stm32wb_hci.Catalog.Domain.Items.{sort, insert}
use stm32wb_hci.Catalog.Domain.Items.Sorting.{Ascending}
use stm32wb_hci.Catalog.Entries.{dedup, same_profiles}
use stm32wb_hci.Catalog.Merge.{
  Joined, joined, apart, Coalesce, coalesce_step, IsCoalesce, project, single_spans, join, spans,
  ranges_of, runs, named, available,
}
use stm32wb_hci.Catalog.Merge.Lookups.{version_lt, value_at, lookup}
use stm32wb_hci.Catalog.Merge.Ranges.{IsIndex, lookup-runs}
use stm32wb_hci.Catalog.Merge.Gather.{Map, ends_at, push_once, gather_items, gather, normal, entry}
use stm32wb_hci.Catalog.Merge.Gather.Indices.{Gathered, gather_indices}

unfoldable merge_from : {A : Type 0} → (A → A → Joined A) → A → List A → List A
merge_from f a [] = a ∷ []
merge_from f a (b ∷ l) = elim (f a b) [
  | joined c ↦ merge_from f c l
  | apart x y ↦ x ∷ merge_from f y l
]

unfoldable coalesce : {A : Type 0} → Coalesce A
unfolding merge_from
coalesce f [] = []
coalesce f (a ∷ l) = merge_from f a l

coalesce-IsCoalesce : {A : Type 0} → IsCoalesce (coalesce {A = A})
unfolding coalesce
coalesce-IsCoalesce {A = A} = record {
  empty = λ f. refl;
  one = λ f a. refl;
  next = λ f a b l. next_step f l (f a b);
}
  where
    next_step :
        (f : A → A → Joined A) (l : List A) (result : Joined A)
        → (elim result [ joined c ↦ merge_from f c l | apart x y ↦ x ∷ merge_from f y l ])
          ≡ coalesce_step coalesce f result l
    next_step f l (joined c) = refl
    next_step f l (apart x y) = refl

abbrev release : ℕ → Version
release minor = record { major = 1; minor = minor; patch = 0 }

abbrev versions : List Version
versions = release 15 ∷ release 16 ∷ release 17 ∷ release 18 ∷ release 19 ∷ []

abbrev facts : List (ℕ × ℕ)
facts = (0, 7) ∷ (1, 7) ∷ (2, 8) ∷ (4, 8) ∷ []

abbrev range : ℕ → ℕ → ReleaseRange
range first last = record { first = release first; last = release last }

three_runs :
    runs ◌==◌ coalesce facts versions
    ≡ some ((range 15 16, 7) ∷ (range 17 17, 8) ∷ (range 19 19, 8) ∷ [])
unfolding runs ranges_of spans single_spans join coalesce
three_runs = refl

one_name :
    named {E = ℕ} same_text coalesce ((0, 3) ∷ (1, 4) ∷ []) versions (λ n. codes "hci_reset")
    ≡ some (record { releases = range 15 16; name = codes "hci_reset" } ∷ [])
unfolding named runs ranges_of spans single_spans join coalesce project same_text
one_name = refl

out_of_bounds : runs ◌==◌ coalesce ((5, 7) ∷ []) versions ≡ none
unfolding runs ranges_of spans single_spans join coalesce
out_of_bounds = refl

ascending : Ascending version_lt versions
unfolding version_le
ascending = (
  (refl, (refl, (refl, (refl, tt)))),
  ((refl, (refl, (refl, tt))), ((refl, (refl, tt)), ((refl, tt), (tt, tt)))),
)

indices : All (IsIndex (length versions)) facts
indices = (omega arith, (omega arith, (omega arith, (omega arith, tt))))

lookup-runs_example :
    (found : List (ReleaseRange × ℕ)) × (runs ◌==◌ coalesce facts versions ≡ some found)
    × (lookup (release 17) found ≡ value_at 2 facts)
lookup-runs_example =
    lookup-runs ◌==◌ coalesce facts versions 2 (release 17) (λ a b. (==_iff a b).0)
      coalesce-IsCoalesce ascending indices refl

-- The commands of three snapshots, each an opcode and its profiles.
abbrev commands : List (List (ℕ × List Profile))
commands =
    ((0x2001, full ∷ []) ∷ (0x0C03, full ∷ []) ∷ [])
    ∷ ((0x0C03, full ∷ []) ∷ [])
    ∷ ((0x0C03, full ∷ full ∷ []) ∷ (0x2001, light ∷ []) ∷ [])
    ∷ []

abbrev opcode : ℕ × List Profile → ℕ
opcode command = command.0

abbrev sorted_profiles : ℕ × List Profile → ℕ × List Profile
sorted_profiles command = (command.0, normal command.1)

abbrev collected : Map ℕ (ℕ × (ℕ × List Profile))
collected =
    (0x0C03, (0, (0x0C03, full ∷ [])) ∷ (1, (0x0C03, full ∷ [])) ∷ (2, (0x0C03, full ∷ [])) ∷ [])
    ∷ (0x2001, (0, (0x2001, full ∷ [])) ∷ (2, (0x2001, light ∷ [])) ∷ [])
    ∷ []

three_snapshots : gather ltb opcode sorted_profiles 0 commands [] ≡ some collected
unfolding gather gather_items push_once ends_at normal sort insert dedup
three_snapshots = refl

listed_twice :
    gather ltb opcode sorted_profiles 0 (((7, full ∷ []) ∷ (7, light ∷ []) ∷ []) ∷ []) [] ≡ none
unfolding gather gather_items push_once ends_at normal sort insert dedup
listed_twice = refl

sorted_once : normal (light ∷ full ∷ light ∷ []) ≡ full ∷ light ∷ []
unfolding normal sort insert dedup
sorted_once = refl

-- The second command is not in the second snapshot.
one_entry :
    entry {E = ℕ × List Profile} coalesce coalesce coalesce same_text same_profiles ◌==◌
      (λ c. codes "aci_reset")
      (λ c. c.1)
      (λ c. c.0)
      ((0, (0x2001, full ∷ [])) ∷ (2, (0x2001, light ∷ [])) ∷ [])
      versions
    ≡ some (record {
      names =
          record { releases = range 15 15; name = codes "aci_reset" }
          ∷ record { releases = range 17 17; name = codes "aci_reset" }
          ∷ [];
      availability =
          record { releases = range 15 15; profiles = full ∷ [] }
          ∷ record { releases = range 17 17; profiles = light ∷ [] }
          ∷ [];
      definitions =
          record { releases = range 15 15; facts = 0x2001 }
          ∷ record { releases = range 17 17; facts = 0x2001 }
          ∷ [];
    })
unfolding entry named available runs ranges_of spans single_spans join coalesce project same_text
    same_profiles
one_entry = refl

gather_indices_example : Gathered 3 collected
gather_indices_example =
    gather_indices ltb opcode sorted_profiles commands collected three_snapshots
