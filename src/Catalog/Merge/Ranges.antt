-- ===== src/Catalog/Merge/Ranges.antt =====
-- `runs` of crates/stm32wb-catalog/src/merge.rs gives ranges of releases in which each release has its value.
use stm32wb_hci.Prelude.{
  ℕ, zero, suc, ◌+◌, ◌-◌, ◌≤◌, ◌<◌, ◌≡◌, refl, ap, sym, ◌∙◌, Bool, true, ◌&&◌, some, List, [], ◌∷◌,
  ◌++◌, arith, length, get_elem?, leb,
}
use stm32wb_hci.Prelude.Bytes.{All}
use stm32wb_hci.Catalog.Release.{Version, ReleaseRange, contains}
use stm32wb_hci.Catalog.Domain.Items.Sorting.{Ascending}
use stm32wb_hci.Catalog.Merge.{Span, Coalesce, IsCoalesce, spans, ranges_of, runs}
use stm32wb_hci.Catalog.Merge.Spans.{repeat, expand, expand_all, Ordered, spans_lem}
use stm32wb_hci.Catalog.Merge.Lookups.{
  version_lt, value_at, lookup, get_below, get-version_le, lookup_span, value_at-lookup_span,
}

-- The index of an entry is that of a release.
abbrev pub IsIndex : {T : Type 0} → ℕ → ℕ × T → Type 0
IsIndex count entry = entry.0 < count

module _ {T : Type 0} (count : ℕ) where
  last_of_repeat :
      (first k : ℕ) (value : T)
      → All (IsIndex count) (repeat first (suc k) value)
      → first + k < count
  unfolding repeat
  last_of_repeat first zero value h = omega (arith, h.0)
  last_of_repeat first (suc k) value h = omega (arith, last_of_repeat (first + 1) k value h.1)

  first_of_repeat :
      (first k : ℕ) (value : T) → All (IsIndex count) (repeat first (suc k) value) → first < count
  unfolding repeat
  first_of_repeat first k value h = h.0

  span_bounds :
      (span : Span T)
      → span.first ≤ span.last
      → All (IsIndex count) (expand span)
      → (span.first < count) × (span.last < count)
  span_bounds span h all =
      let size : span.last + 1 - span.first ≡ suc (span.last - span.first) = omega (arith, h) in
      let repeated : All (IsIndex count)
          (repeat span.first (suc (span.last - span.first)) span.value) =
        rw (← size) all in
      (
        first_of_repeat span.first (span.last - span.first) span.value repeated,
        omega (arith, h, last_of_repeat span.first (span.last - span.first) span.value repeated),
      )

  All-split :
      (xs ys : List (ℕ × T))
      → All (IsIndex count) (xs ++ ys)
      → All (IsIndex count) xs × All (IsIndex count) ys
  All-split [] ys h = (tt, h)
  All-split (x ∷ xs) ys h = let (left, right) = All-split xs ys h.1 in ((h.0, left), right)

module _ {T : Type 0} (same : T → T → Bool) (versions : List Version)
    (up : Ascending version_lt versions) (i : ℕ) (release : Version)
    (at : get_elem? versions i ≡ some release) where
  -- The ranges of the runs, in which the release has the value of its run.
  abbrev Gives : List (Span T) → Type 0
  Gives list =
      (found : List (ReleaseRange × T)) × (ranges_of same versions list ≡ some found)
      × (lookup release found ≡ lookup_span i list)

  contains-indices :
      (a b : ℕ) (first last : Version)
      → get_elem? versions a ≡ some first
      → get_elem? versions b ≡ some last
      → contains (record { first = first; last = last }) release ≡ (leb a i && leb i b)
  unfolding contains
  contains-indices a b first last p q =
      rw
        (
          get-version_le versions a i first release up p at,
          get-version_le versions i b release last up at q,
        )
        refl

  ranges_of-Gives :
      (list : List (Span T))
      → Ordered same list
      → All (IsIndex (length versions)) (expand_all list)
      → Gives list
  unfolding ranges_of expand_all lookup lookup_span
  ranges_of-Gives [] h all = ([], refl, refl)
  ranges_of-Gives (span ∷ others) h all =
      let (own, rest) = All-split (length versions) (expand span) (expand_all others) all in
      let (low, high) = span_bounds (length versions) span h.0 own in
      let (first, p) = get_below versions span.first low in
      let (last, q) = get_below versions span.last high in
      let (found, made, agree) = ranges_of-Gives others h.1 rest in
      (
        (record { first = first; last = last }, span.value) ∷ found,
        rw (p, q, made) refl,
        rw (contains-indices span.first span.last first last p q, agree) refl,
      )

-- For entries whose indices are those of ascending releases, `runs` does not panic: it gives ranges in which
-- every release has the value of its entry, and in which a release without an entry is not.
pub lookup-runs :
    {T : Type 0} (same : T → T → Bool) (coalesce : Coalesce (Span T)) (entries : List (ℕ × T))
    (versions : List Version) (i : ℕ) (release : Version)
    → ((a b : T) → same a b ≡ true → a ≡ b)
    → IsCoalesce coalesce
    → Ascending version_lt versions
    → All (IsIndex (length versions)) entries
    → get_elem? versions i ≡ some release
    → (found : List (ReleaseRange × T)) × (runs same coalesce entries versions ≡ some found)
      × (lookup release found ≡ value_at i entries)
unfolding runs
lookup-runs same coalesce entries versions i release same_sound documented up indices at =
    let (holds, ordered, maximal) = spans_lem same same_sound coalesce documented entries in
    let (found, made, agree) =
      ranges_of-Gives same versions up i release at (spans same coalesce entries) ordered
        (rw (← holds) at indices) in
    (
      found,
      made,
      agree
          ∙ sym (value_at-lookup_span i same (spans same coalesce entries) ordered)
          ∙ ap (value_at i) holds,
    )
