-- ===== src/Catalog/Entries/Agreement.antt =====
-- In a catalog that is accepted, the lookups of crates/stm32wb-catalog/src/lib.rs and view.rs agree: an entry has
-- a name and profiles in exactly the releases that define it.
use stm32wb_hci.Prelude.{
  ◌≡◌, ◌⊎◌, inl, inr, refl, ap, sym, ◌∙◌, true, false, Bool-cases, false_ne_true, Option, none,
  some, List, [], ◌∷◌, arith, is_some,
}
use stm32wb_hci.Catalog.Release.{Version, contains}
use stm32wb_hci.Catalog.Target.{Platform, Profile}
use stm32wb_hci.Catalog.Domain.Items.Results.{Listed}
use stm32wb_hci.Catalog.Domain.Items.{sort}
use stm32wb_hci.Catalog.Entries.{
  Named, Availability, Definition, find_at, definition_at, profiles_of, profiles_at, is_empty_text,
  any_empty_name, any_other_platform, profile_lt, dedup, same_profiles, no_profiles,
  check_availability, validate_history,
}
use stm32wb_hci.Catalog.Entries.Checks.{IsOnly, is_some-find_at, find_at-IsOnly, same_cover}
use stm32wb_hci.Catalog.Entries.View.{Entry}
use stm32wb_hci.Catalog.Entries.Lookups.{
  no_error, named_ranges, available_ranges, defined_ranges, validate_history-IsHistory,
}

find_at-named :
    (names : List Named) (release : Version) (found : Named)
    → any_empty_name names ≡ false
    → find_at (λ named. named.releases) release names ≡ some found
    → is_empty_text found.name ≡ false
unfolding find_at any_empty_name
find_at-named [] release found h q = cc
find_at-named (named ∷ names) release found h q =
    elim (Bool-cases (contains named.releases release)) [
      | inr misses ↦ find_at-named names release found (ground (arith, h)) (rw misses at q)
      | inl holds ↦ here (rw holds at q)
    ]
  where
    here : some named ≡ some found → is_empty_text found.name ≡ false
    here e = let same : named ≡ found = cc in rw (← same) (ground (arith, h))

-- Profiles of one platform, at least one.
abbrev pub AreProfiles : Platform → List Profile → Type 0
AreProfiles own profiles =
    (no_profiles profiles ≡ false) × (any_other_platform own profiles ≡ false)

checked_head :
    (own : Platform) (entry : Availability) (entries : List Availability)
    → check_availability own (entry ∷ entries) ≡ none
    → AreProfiles own entry.profiles × (check_availability own entries ≡ none)
unfolding check_availability
checked_head own entry entries h = elim (Bool-cases (no_profiles entry.profiles)) [
  | inl empty ↦ absurd (no_error _ (rw empty at h))
  | inr listed ↦ elim (Bool-cases (any_other_platform own entry.profiles)) [
    | inl other ↦ absurd (no_error _ (rw (listed, other) at h))
    | inr owned ↦
        elim (Bool-cases (same_profiles (dedup (sort profile_lt entry.profiles)) entry.profiles)) [
          | inr unsorted ↦ absurd (no_error _ (rw (listed, owned, unsorted) at h))
          | inl sorted ↦ ((listed, owned), rw (listed, owned, sorted) at h)
        ]
  ]
]

find_at-AreProfiles :
    (own : Platform) (entries : List Availability) (release : Version) (found : Availability)
    → check_availability own entries ≡ none
    → find_at (λ entry. entry.releases) release entries ≡ some found
    → AreProfiles own found.profiles
unfolding find_at
find_at-AreProfiles own [] release found h q = cc
find_at-AreProfiles own (entry ∷ entries) release found h q =
    let (listed, others) = checked_head own entry entries h in
    elim (Bool-cases (contains entry.releases release)) [
      | inr misses ↦ find_at-AreProfiles own entries release found others (rw misses at q)
      | inl holds ↦ here listed (rw holds at q)
    ]
  where
    here : AreProfiles own entry.profiles → some entry ≡ some found → AreProfiles own found.profiles
    here listed e = let same : entry ≡ found = cc in rw (← same) listed

-- A release that the entry is not in.
abbrev pub IsAbsent : {D : Type 0} → Entry D → Version → Type 0
IsAbsent entry release =
    (definition_at entry.definitions release ≡ none)
    × (find_at (λ named. named.releases) release entry.names ≡ none)
    × (profiles_at entry.availability release ≡ none)

-- A release that one definition of the entry and one name hold, with profiles of the platform.
abbrev pub IsPresent : {D : Type 0} → Platform → Entry D → Version → Type 0
IsPresent {D = D} own entry release =
    (definition : Definition D) × (named : Named) × (profiles : List Profile) × (definition_at
        entry.definitions release
      ≡ some definition)
    × IsOnly (λ d. d.releases) release definition entry.definitions
    × (find_at (λ n. n.releases) release entry.names ≡ some named)
    × (is_empty_text named.name ≡ false)
    × (profiles_at entry.availability release ≡ some profiles)
    × AreProfiles own profiles

some_of {ℓ} : {A : Type ℓ} (o : Option A) → is_some o ≡ true → (a : A) × (o ≡ some a)
some_of none h = absurd (false_ne_true h)
some_of (some a) h = (a, refl)

none_of {ℓ} : {A : Type ℓ} (o : Option A) → is_some o ≡ false → o ≡ none
none_of none h = refl
none_of (some a) h = absurd (false_ne_true (sym h))

module _ {D : Type 0} (own : Platform) (versions : List Version) (entry : Entry D)
    (release : Version) where
  abbrev IsAccepted : Type 0
  IsAccepted =
      validate_history own versions (defined_ranges entry.definitions) entry.names
        entry.availability
      ≡ none

  -- In every release of a catalog that accepts an entry, the entry is absent for all lookups, or it has
  -- exactly one definition, a name that is not empty, and profiles of the catalog's platform.
  pub lookups_agree :
      validate_history own versions
          (defined_ranges entry.definitions)
          entry.names
          entry.availability
        ≡ none
      → Listed release versions
      → IsAbsent entry release ⊎ IsPresent own entry release
  unfolding profiles_at
  lookups_agree h listed =
      let (apart, named, available, none_empty, checked) =
        validate_history-IsHistory own versions entry.names entry.availability
          (defined_ranges entry.definitions) h in
      let names_found : is_some (find_at (λ n. n.releases) release entry.names)
          ≡ is_some (definition_at entry.definitions release) =
        is_some-find_at (λ n. n.releases) release entry.names
        ∙ same_cover (named_ranges entry.names) (defined_ranges entry.definitions) versions release
            named.1 listed
        ∙ sym (is_some-find_at (λ d. d.releases) release entry.definitions) in
      let profiles_found : is_some (find_at (λ e. e.releases) release entry.availability)
          ≡ is_some (definition_at entry.definitions release) =
        is_some-find_at (λ e. e.releases) release entry.availability
        ∙ same_cover (available_ranges entry.availability) (defined_ranges entry.definitions)
            versions release available.1 listed
        ∙ sym (is_some-find_at (λ d. d.releases) release entry.definitions) in
      elim (Bool-cases (is_some (definition_at entry.definitions release))) [
        | inr absent ↦ inl (
          none_of (definition_at entry.definitions release) absent,
          none_of (find_at (λ n. n.releases) release entry.names) (names_found ∙ absent),
          ap profiles_of (
              none_of (find_at (λ e. e.releases) release entry.availability)
                (profiles_found ∙ absent)),
        )
        | inl present ↦
            let (definition, d) = some_of (definition_at entry.definitions release) present in
            let (name, n) =
              some_of (find_at (λ n. n.releases) release entry.names) (names_found ∙ present) in
            let (found, p) =
              some_of (find_at (λ e. e.releases) release entry.availability)
                (profiles_found ∙ present) in
            inr (
              definition,
              name,
              found.profiles,
              d,
              find_at-IsOnly (λ e. e.releases) release entry.definitions definition apart d,
              n,
              find_at-named entry.names release name none_empty n,
              ap profiles_of p,
              find_at-AreProfiles own entry.availability release found checked p,
            )
      ]
