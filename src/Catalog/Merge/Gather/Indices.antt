-- ===== src/Catalog/Merge/Gather/Indices.antt =====
-- The entries that crates/stm32wb-catalog/src/merge.rs collects stand in the order of the releases, once for each.
use stm32wb_hci.Prelude.{
  ℕ, suc, ◌+◌, ◌≤◌, ◌≡◌, refl, Bool, false, Bool-cases, Option-cases, inl, inr, Option, none, some,
  List, [], ◌∷◌, ◌++◌, arith, length,
}
use stm32wb_hci.Prelude.Bytes.{All}
use stm32wb_hci.Catalog.Merge.Ranges.{IsIndex}
use stm32wb_hci.Catalog.Merge.Gather.{Map, ends_at, cons_entries, push_once, gather_items, gather}

-- The indices ascend, from a least one.
abbrev pub Rising : {T : Type 0} → ℕ → List (ℕ × T) → Type 0
Rising low [] = Unit
Rising low (entry ∷ entries) = (low ≤ entry.0) × Rising (suc entry.0) entries

-- The entries of every key ascend, and are of the first `count` snapshots.
abbrev pub Gathered : {K T : Type 0} → ℕ → Map K (ℕ × T) → Type 0
Gathered count [] = Unit
Gathered count (entries ∷ map) =
    (Rising 0 entries.1 × All (IsIndex count) entries.1) × Gathered count map

module _ {T : Type 0} (index : ℕ) (item : T) where
  Rising-snoc :
      (low : ℕ) (entries : List (ℕ × T))
      → low ≤ index
      → Rising low entries
      → All (IsIndex (suc index)) entries
      → ends_at index entries ≡ false
      → Rising low (entries ++ ((index, item) ∷ []))
  unfolding ends_at
  Rising-snoc low [] h rising below other = (h, tt)
  Rising-snoc low ((last, value) ∷ []) h rising below other =
      (rising.0, (ground (arith, below.0, other), tt))
  Rising-snoc low (entry ∷ next ∷ entries) h rising below other = (
    rising.0,
    Rising-snoc (suc entry.0) (next ∷ entries) (omega (arith, rising.1.0, below.1.0)) rising.1
        below.1 other,
  )

  All-snoc :
      (entries : List (ℕ × T))
      → All (IsIndex (suc index)) entries
      → All (IsIndex (suc index)) (entries ++ ((index, item) ∷ []))
  All-snoc [] h = (omega arith, tt)
  All-snoc (entry ∷ entries) h = (h.0, All-snoc entries h.1)

  Gathered-cons :
      {K : Type 0} (count : ℕ) (entries : K × List (ℕ × T)) (rest : Option (Map K (ℕ × T)))
      (result : Map K (ℕ × T))
      → Rising 0 entries.1
      → All (IsIndex count) entries.1
      → ((map : Map K (ℕ × T)) → rest ≡ some map → Gathered count map)
      → cons_entries entries rest ≡ some result
      → Gathered count result
  Gathered-cons count entries none result rising below h p = cc
  Gathered-cons count entries (some map) result rising below h p =
      let same : entries ∷ map ≡ result = cc in rw (← same) ((rising, below), h map refl)

  push_once-Gathered :
      {K : Type 0} (lt : K → K → Bool) (key : K) (map result : Map K (ℕ × T))
      → Gathered (suc index) map
      → push_once lt key index item map ≡ some result
      → Gathered (suc index) result
  unfolding push_once
  push_once-Gathered lt key [] result h p =
      let same : (key, (index, item) ∷ []) ∷ [] ≡ result = cc in
      rw (← same) (((omega arith, tt), (omega arith, tt)), tt)
  push_once-Gathered lt key ((other, entries) ∷ map) result h p = elim (Bool-cases (lt other key)) [
    | inl before ↦
        Gathered-cons (suc index) (other, entries) (push_once lt key index item map) result h.0.0
          h.0.1 (λ found q. push_once-Gathered lt key map found h.1 q) (rw before at p)
    | inr not_before ↦ elim (Bool-cases (lt key other)) [
      | inl after ↦
          let found : some ((key, (index, item) ∷ []) ∷ (other, entries) ∷ map) ≡ some result =
            rw (not_before, after) at p in
          let same : (key, (index, item) ∷ []) ∷ (other, entries) ∷ map ≡ result = cc in
          rw (← same) (((omega arith, tt), (omega arith, tt)), h)
      | inr not_after ↦ elim (Bool-cases (ends_at index entries)) [
        | inl twice ↦ let absurd : none ≡ some result = rw (not_before, not_after, twice) at p in cc
        | inr once ↦
            let found : some ((other, entries ++ ((index, item) ∷ [])) ∷ map) ≡ some result =
              rw (not_before, not_after, once) at p in
            let same : (other, entries ++ ((index, item) ∷ [])) ∷ map ≡ result = cc in
            rw (← same)
              ((Rising-snoc 0 entries (omega arith) h.0.0 h.0.1 once, All-snoc entries h.0.1), h.1)
      ]
    ]
  ]

All-later :
    {T : Type 0} (count : ℕ) (entries : List (ℕ × T))
    → All (IsIndex count) entries
    → All (IsIndex (suc count)) entries
All-later count [] h = tt
All-later count (entry ∷ entries) h = (omega (arith, h.0), All-later count entries h.1)

Gathered-later :
    {K T : Type 0} (count : ℕ) (map : Map K (ℕ × T)) → Gathered count map → Gathered (suc count) map
Gathered-later count [] h = tt
Gathered-later count (entries ∷ map) h =
    ((h.0.0, All-later count entries.1 h.0.1), Gathered-later count map h.1)

module _ {K T : Type 0} (lt : K → K → Bool) (key : T → K) (stored : T → T) where
  gather_items-Gathered :
      (index : ℕ) (items : List T) (map result : Map K (ℕ × T))
      → Gathered (suc index) map
      → gather_items lt key stored index items map ≡ some result
      → Gathered (suc index) result
  unfolding gather_items
  gather_items-Gathered index [] map result h p = let same : map ≡ result = cc in rw (← same) h
  gather_items-Gathered index (item ∷ items) map result h p =
      elim (Option-cases (push_once lt (key item) index (stored item) map)) [
        | inl twice ↦ let absurd : none ≡ some result = rw (gather_items, twice) at p in cc
        | inr (found, once) ↦
            gather_items-Gathered index items found result
              (push_once-Gathered index (stored item) lt (key item) map found h once)
              (rw (gather_items, once) at p)
      ]

  gather-Gathered :
      (index : ℕ) (snapshots : List (List T)) (map result : Map K (ℕ × T))
      → Gathered index map
      → gather lt key stored index snapshots map ≡ some result
      → Gathered (index + length snapshots) result
  unfolding gather
  gather-Gathered index [] map result h p =
      let same : map ≡ result = cc in
      let count : index + 0 ≡ index = omega arith in rw (← same, count) h
  gather-Gathered index (items ∷ snapshots) map result h p =
      elim (Option-cases (gather_items lt key stored index items map)) [
        | inl twice ↦ let absurd : none ≡ some result = rw (gather, twice) at p in cc
        | inr (found, once) ↦
            let count : suc index + length snapshots ≡ index + suc (length snapshots) =
              omega arith in
            rw (← count) (
              gather-Gathered (suc index) snapshots found result
                (gather_items-Gathered index items map found (Gathered-later index map h) once)
                (rw (gather, once) at p))
      ]

-- When the snapshots are collected without an error, the entries of every key have ascending indices, none of
-- them twice, and each index is that of a snapshot.
pub gather_indices :
    {K T : Type 0} (lt : K → K → Bool) (key : T → K) (stored : T → T) (snapshots : List (List T))
    (result : Map K (ℕ × T))
    → gather lt key stored 0 snapshots [] ≡ some result
    → Gathered (length snapshots) result
gather_indices lt key stored snapshots result p =
    let count : 0 + length snapshots ≡ length snapshots = omega arith in
    rw (← count) (gather-Gathered lt key stored 0 snapshots [] result tt p)
