-- ===== src/Catalog/Queries/Order.antt =====
-- The targets of a catalog of crates/stm32wb-catalog/src/lib.rs ascend.
use stm32wb_hci.Prelude.{
  ◌≡◌, inl, inr, ◌↔◌, refl, Bool, true, ◌&&◌, ◌||◌, Bool-cases, arith, some, List, [], ◌∷◌, ◌++◌,
}
use stm32wb_hci.Prelude.Bytes.{All}
use stm32wb_hci.Catalog.Release.{Version}
use stm32wb_hci.Catalog.Release.Texts.{same_version}
use stm32wb_hci.Catalog.Target.{Platform, stm32wb, stm32wba, Profile, profiles}
use stm32wb_hci.Catalog.Domain.Items.Results.{Listed}
use stm32wb_hci.Catalog.Domain.Items.Sorting.{Ascending}
use stm32wb_hci.Catalog.Entries.{profile_lt}
use stm32wb_hci.Catalog.Entries.View.{Target}
use stm32wb_hci.Catalog.Merge.Lookups.{version_lt}
use stm32wb_hci.Catalog.Queries.{
  Catalog, ReleaseSource, find_release, source_profiles, targets_of, targets_in, targets, versions,
  profiles_in,
}
use stm32wb_hci.Catalog.Queries.Targets.{All-Listed, of_release, targets_in-Describes}
use stm32wb_hci.Catalog.Queries.Listing.{IsTarget, All-at, same_version_refl, Listed-IsTarget}

-- By release, then by profile.
abbrev pub target_lt : Target → Target → Bool
target_lt a b =
    version_lt a.release b.release
    || (same_version a.release b.release && profile_lt a.profile b.profile)

-- The profiles of every source ascend.
abbrev pub AllSorted : List ReleaseSource → Type 0
AllSorted sources = All (λ source. Ascending profile_lt source.profiles) sources

All-append {ℓ κ} :
    {A : Type ℓ} (P : A → Type κ) (xs ys : List A) → All P xs → All P ys → All P (xs ++ ys)
All-append P [] ys h k = k
All-append P (x ∷ xs) ys h k = (h.0, All-append P xs ys h.1 k)

Ascending-append {ℓ} :
    {A : Type ℓ} (lt : A → A → Bool) (xs ys : List A)
    → Ascending lt xs
    → Ascending lt ys
    → All (λ x. All (λ y. lt x y ≡ true) ys) xs
    → Ascending lt (xs ++ ys)
Ascending-append lt [] ys h k across = k
Ascending-append lt (x ∷ xs) ys h k across =
    (All-append (λ y. lt x y ≡ true) xs ys h.0 across.0, Ascending-append lt xs ys h.1 k across.1)

of_one_release :
    (release : Version) (list : List Profile)
    → Ascending profile_lt list
    → Ascending target_lt (targets_of release list)
unfolding targets_of
of_one_release release [] h = tt
of_one_release release (profile ∷ list) h = (behind list h.0, of_one_release release list h.1)
  where
    behind :
        (list : List Profile)
        → All (λ q. profile_lt profile q ≡ true) list
        → All
            (λ t. target_lt (record { release = release; profile = profile }) t ≡ true)
            (targets_of release list)
    behind [] h = tt
    behind (q ∷ list) h =
        let itself = same_version_refl release in
        let below = h.0 in (ground (arith, itself, below), behind list h.1)

sorted_platform : (own : Platform) → Ascending profile_lt (profiles own)
unfolding profiles
sorted_platform stm32wb = (
  (refl, (refl, (refl, (refl, (refl, tt))))),
  (
    (refl, (refl, (refl, (refl, tt)))),
    ((refl, (refl, (refl, tt))), ((refl, (refl, tt)), ((refl, tt), (tt, tt)))),
  ),
)
sorted_platform stm32wba = (
  (refl, (refl, (refl, (refl, (refl, tt))))),
  (
    (refl, (refl, (refl, (refl, tt)))),
    ((refl, (refl, (refl, tt))), ((refl, (refl, tt)), ((refl, tt), (tt, tt)))),
  ),
)

sorted_found :
    (own : Platform) (release : Version) (sources : List ReleaseSource)
    → AllSorted sources
    → Ascending profile_lt (source_profiles own (find_release release sources))
unfolding find_release
sorted_found own release [] h = tt
sorted_found own release (source ∷ sources) h =
    elim (Bool-cases (same_version source.version release)) [
      | inl here ↦ rw here (of_list source.profiles h.0)
      | inr there ↦ rw there (sorted_found own release sources h.1)
    ]
  where
    of_list :
        (list : List Profile)
        → Ascending profile_lt list
        → Ascending profile_lt (source_profiles own (some (record source { profiles = list })))
    of_list [] k = sorted_platform own
    of_list (head ∷ list) k = k

module _ {C E : Type 0} (self : Catalog C E) (sorted : AllSorted self.releases) where
  targets_in-Ascending :
      (list : List Version) → Ascending version_lt list → Ascending target_lt (targets_in self list)
  unfolding targets_in profiles_in
  targets_in-Ascending [] h = tt
  targets_in-Ascending (release ∷ others) h =
      Ascending-append target_lt (targets_of release (profiles_in self release))
        (targets_in self others)
        (of_one_release release (profiles_in self release)
          (sorted_found self.platform release self.releases sorted))
        (targets_in-Ascending others h.1)
        (All-Listed (λ x. All (λ y. target_lt x y ≡ true) (targets_in self others))
          (targets_of release (profiles_in self release))
          (λ x of_x.
            All-Listed (λ y. target_lt x y ≡ true) (targets_in self others)
              (λ y of_y. across x y of_x of_y)))
    where
      across :
          (x y : Target)
          → Listed x (targets_of release (profiles_in self release))
          → Listed y (targets_in self others)
          → target_lt x y ≡ true
      across x y of_x of_y =
          let own : x.release ≡ release =
            (of_release x release (profiles_in self release) of_x).0 in
          let below : version_lt release y.release ≡ true =
            All-at (λ v. version_lt release v ≡ true) others y.release h.0
              (targets_in-Describes self y others of_y).0 in
          let earlier : version_lt x.release y.release ≡ true = rw own below in rw earlier refl

  -- In a catalog whose releases ascend, as do the profiles that each lists, the targets ascend, by release and
  -- then by profile, and are the releases of its sources, each with the profiles that its source lists or, if
  -- it lists none, with those of the catalog's platform.
  pub targets_lem :
      (target : Target)
      → Ascending version_lt (versions self)
      → Ascending target_lt (targets self) × (Listed target (targets self) ↔ IsTarget self target)
  unfolding targets
  targets_lem target up = (targets_in-Ascending (versions self) up, Listed-IsTarget self target)
