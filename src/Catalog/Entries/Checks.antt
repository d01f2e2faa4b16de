-- ===== src/Catalog/Entries/Checks.antt =====
-- What the checks of `validate_history` in crates/stm32wb-catalog/src/lib.rs say of one release.
use stm32wb_hci.Prelude.{
  ◌≡◌, ◌⊎◌, inl, inr, refl, ap, true, false, Bool-cases, false_ne_true, Bool-ext, some, List, [],
  ◌∷◌, ◌++◌, map, arith, is_some,
}
use stm32wb_hci.Prelude.Bytes.{All}
use stm32wb_hci.Catalog.Release.{Version, version_le, ReleaseRange, contains, overlaps}
use stm32wb_hci.Catalog.Release.Overlaps.{version_le_trans, and-true, both-true}
use stm32wb_hci.Catalog.Domain.Items.Results.{Listed}
use stm32wb_hci.Catalog.Entries.{
  find_at, overlaps_any, any_overlap, any_contains, covered_versions, same_versions,
}

-- The entry is the only one whose releases contain the release.
abbrev pub IsOnly {ℓ} : {A : Type ℓ} → (A → ReleaseRange) → Version → A → List A → Type ℓ
IsOnly {A = A} releases release entry entries =
    (before : List A) × (behind : List A) × (entries ≡ before ++ (entry ∷ behind))
    × (contains (releases entry) release ≡ true)
    × All (λ e. contains (releases e) release ≡ false) before
    × All (λ e. contains (releases e) release ≡ false) behind

module _ {ℓ} {A : Type ℓ} (releases : A → ReleaseRange) (release : Version) where
  pub is_some-find_at :
      (entries : List A)
      → is_some (find_at releases release entries) ≡ any_contains release (map releases entries)
  unfolding find_at any_contains
  is_some-find_at [] = refl
  is_some-find_at (entry ∷ entries) = elim (Bool-cases (contains (releases entry) release)) [
    | inl holds ↦ rw holds refl
    | inr misses ↦ rw misses (is_some-find_at entries)
  ]

  contains_both :
      (a b : ReleaseRange)
      → contains a release ≡ true
      → contains b release ≡ true
      → overlaps a b ≡ true
  unfolding contains overlaps
  contains_both a b h k =
      let (a_first, a_last) =
        both-true (version_le a.first release) (version_le release a.last) h in
      let (b_first, b_last) =
        both-true (version_le b.first release) (version_le release b.last) k in
      and-true (version_le_trans a.first release b.last a_first b_last)
        (version_le_trans b.first release a.last b_first a_last)

  others_miss :
      (range : ReleaseRange) (entries : List A)
      → contains range release ≡ true
      → overlaps_any range (map releases entries) ≡ false
      → All (λ e. contains (releases e) release ≡ false) entries
  unfolding overlaps_any
  others_miss range [] h k = tt
  others_miss range (entry ∷ entries) h k = elim (Bool-cases (contains (releases entry) release)) [
    | inr misses ↦ (misses, others_miss range entries h (ground (arith, k)))
    | inl holds ↦
        let both : overlaps range (releases entry) ≡ true =
          contains_both range (releases entry) h holds in
        absurd (false_ne_true (ground (arith, k, both)))
  ]

  pub find_at-IsOnly :
      (entries : List A) (found : A)
      → any_overlap (map releases entries) ≡ false
      → find_at releases release entries ≡ some found
      → IsOnly releases release found entries
  unfolding find_at any_overlap
  find_at-IsOnly [] found o h = cc
  find_at-IsOnly (entry ∷ entries) found o h =
      elim (Bool-cases (contains (releases entry) release)) [
        | inl holds ↦ here holds (rw holds at h)
        | inr misses ↦
            there misses (find_at-IsOnly entries found (ground (arith, o)) (rw misses at h))
      ]
    where
      here :
          contains (releases entry) release ≡ true
          → some entry ≡ some found
          → IsOnly releases release found (entry ∷ entries)
      here holds q =
          let same : entry ≡ found = cc in
          rw (← same) (
            [],
            entries,
            refl,
            holds,
            tt,
            others_miss (releases entry) entries holds (ground (arith, o)),
          )

      there :
          contains (releases entry) release ≡ false
          → IsOnly releases release found entries
          → IsOnly releases release found (entry ∷ entries)
      there misses (before, behind, place, holds, none_before, none_behind) = (
        entry ∷ before,
        behind,
        ap (λ l. entry ∷ l) place,
        holds,
        (misses, none_before),
        none_behind,
      )

same_versions-eq : (vs ws : List Version) → same_versions vs ws ≡ true → vs ≡ ws
unfolding same_versions
same_versions-eq [] [] h = refl
same_versions-eq [] (w ∷ ws) h = absurd (false_ne_true h)
same_versions-eq (v ∷ vs) [] h = absurd (false_ne_true h)
same_versions-eq (v ∷ vs) (w ∷ ws) h =
    let head : v ≡ w = ground (arith, h) in
    let tail : vs ≡ ws = same_versions-eq vs ws (ground (arith, h)) in cc

module _ (release : Version) (ranges : List ReleaseRange) where
  covered_versions-contains :
      (versions : List Version)
      → Listed release (covered_versions ranges versions)
      → any_contains release ranges ≡ true
  unfolding covered_versions
  covered_versions-contains [] h = elim h [ ]
  covered_versions-contains (v ∷ versions) h = elim (Bool-cases (any_contains v ranges)) [
    | inr misses ↦ covered_versions-contains versions (rw misses at h)
    | inl holds ↦ listed holds (rw holds at h) (covered_versions-contains versions)
  ]
    where
      listed :
          any_contains v ranges ≡ true
          → (release ≡ v) ⊎ Listed release (covered_versions ranges versions)
          → (Listed release (covered_versions ranges versions) → any_contains release ranges ≡ true)
          → any_contains release ranges ≡ true
      listed holds (inl same) ih = rw same holds
      listed holds (inr rest) ih = ih rest

  covered_versions-Listed :
      (versions : List Version)
      → Listed release versions
      → any_contains release ranges ≡ true
      → Listed release (covered_versions ranges versions)
  unfolding covered_versions
  covered_versions-Listed [] h k = elim h [ ]
  covered_versions-Listed (v ∷ versions) (inl same) k =
      let holds : any_contains v ranges ≡ true = rw (← same) k in rw holds (inl same)
  covered_versions-Listed (v ∷ versions) (inr rest) k = elim (Bool-cases (any_contains v ranges)) [
    | inl holds ↦ rw holds (inr (covered_versions-Listed versions rest k))
    | inr misses ↦ rw misses (covered_versions-Listed versions rest k)
  ]

-- Ranges that cover the same versions contain the same releases among them.
pub same_cover :
    (a b : List ReleaseRange) (versions : List Version) (release : Version)
    → same_versions (covered_versions a versions) (covered_versions b versions) ≡ true
    → Listed release versions
    → any_contains release a ≡ any_contains release b
same_cover a b versions release h listed =
    let same : covered_versions a versions ≡ covered_versions b versions =
      same_versions-eq (covered_versions a versions) (covered_versions b versions) h in
    Bool-ext (any_contains release a) (any_contains release b) (
      λ k.
          covered_versions-contains release b versions
            (rw (← same) (covered_versions-Listed release a versions listed k)),
      λ k.
          covered_versions-contains release a versions
            (rw same (covered_versions-Listed release b versions listed k)),
    )
