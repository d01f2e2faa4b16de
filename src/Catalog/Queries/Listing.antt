-- ===== src/Catalog/Queries/Listing.antt =====
-- Which targets a catalog of crates/stm32wb-catalog/src/lib.rs has, and in which order.
use stm32wb_hci.Prelude.{
  ◌≡◌, ◌≢◌, ◌⊎◌, inl, inr, ◌↔◌, refl, ap, sym, ◌∙◌, true, Bool-cases, Option-cases, false_ne_true,
  arith, some, List, [], ◌∷◌, ◌++◌, map,
}
use mathlib.Core.Path.{subst}
use stm32wb_hci.Prelude.Bytes.{All}
use stm32wb_hci.Catalog.Release.{Version}
use stm32wb_hci.Catalog.Release.Texts.{same_version}
use stm32wb_hci.Catalog.Release.Texts.Ranges.{same_version-eq}
use stm32wb_hci.Catalog.Target.{
  Platform, stm32wb, stm32wba, Profile, full_extended, full, light, hci_layer_extended, hci_layer,
  hci_adv_scan, wba_full, wba_basic_plus, wba_basic_features, wba_peripheral_only,
  wba_link_layer_only, wba_link_layer_only_basic, platform, profiles,
}
use stm32wb_hci.Catalog.Domain.Items.Results.{Listed}
use stm32wb_hci.Catalog.Entries.View.{Target}
use stm32wb_hci.Catalog.Queries.{
  Catalog, ReleaseSource, find_release, source_profiles, targets, versions, profiles_in,
}
use stm32wb_hci.Catalog.Queries.Targets.{Describes, Describes_iff}

-- The first source of the release.
abbrev pub IsSource : Version → ReleaseSource → List ReleaseSource → Type 0
IsSource release source sources =
    (before : List ReleaseSource) × (behind : List ReleaseSource) × (sources
      ≡ before ++ (source ∷ behind))
    × All (λ s. s.version ≢ release) before
    × (source.version ≡ release)

-- The source lists the profile, or lists none and the profile is one of the platform.
abbrev pub Has : Platform → ReleaseSource → Profile → Type 0
Has own source profile =
    Listed profile source.profiles ⊎ ((source.profiles ≡ []) × (platform profile ≡ own))

abbrev pub IsTarget : {C E : Type 0} → Catalog C E → Target → Type 0
IsTarget self target =
    (source : ReleaseSource) × IsSource target.release source self.releases
    × Has self.platform source target.profile

pub same_version_refl : (release : Version) → same_version release release ≡ true
same_version_refl release = ground arith

pub All-at {ℓ} : {A : Type 0} (P : A → Type ℓ) (xs : List A) (a : A) → All P xs → Listed a xs → P a
All-at P [] a h listed = elim listed [ ]
All-at P (x ∷ xs) a h listed = elim listed [
  | inl same ↦ subst P (sym same) h.0
  | inr later ↦ All-at P xs a h.1 later
]

find_release-IsSource :
    (release : Version) (sources : List ReleaseSource) (source : ReleaseSource)
    → find_release release sources ≡ some source
    → IsSource release source sources
unfolding find_release
find_release-IsSource release [] source h = cc
find_release-IsSource release (head ∷ sources) source h =
    elim (Bool-cases (same_version head.version release)) [
      | inl here ↦
          let found : some head ≡ some source = rw (find_release, here) at h in
          let same : head ≡ source = cc in
          let version : head.version ≡ release = same_version-eq head.version release here in
          ([], sources, ap (λ s. s ∷ sources) same, tt, rw (← same) version)
      | inr there ↦
          let (before, behind, place, others, version) =
            find_release-IsSource release sources source (rw (find_release, there) at h) in
          (
            head ∷ before,
            behind,
            ap (λ l. head ∷ l) place,
            (
              λ e.
                  false_ne_true
                    (sym there ∙ ap (λ v. same_version v release) e ∙ same_version_refl release),
              others,
            ),
            version,
          )
    ]

find_release-first :
    (release : Version) (before behind : List ReleaseSource) (source : ReleaseSource)
    → All (λ s. s.version ≢ release) before
    → source.version ≡ release
    → find_release release (before ++ (source ∷ behind)) ≡ some source
unfolding find_release
find_release-first release [] behind source h version =
    let here : same_version source.version release ≡ true =
      ap (λ v. same_version v release) version ∙ same_version_refl release in
    rw here refl
find_release-first release (head ∷ before) behind source h version =
    elim (Bool-cases (same_version head.version release)) [
      | inl here ↦ absurd (h.0 (same_version-eq head.version release here))
      | inr there ↦ rw there (find_release-first release before behind source h.1 version)
    ]

Listed-version :
    (before behind : List ReleaseSource) (source : ReleaseSource)
    → Listed source.version (map (λ s. s.version) (before ++ (source ∷ behind)))
Listed-version [] behind source = inl refl
Listed-version (head ∷ before) behind source = inr (Listed-version before behind source)

of_platform : (own : Platform) → All (λ profile. platform profile ≡ own) (profiles own)
unfolding platform profiles
of_platform stm32wb = (refl, (refl, (refl, (refl, (refl, (refl, tt))))))
of_platform stm32wba = (refl, (refl, (refl, (refl, (refl, (refl, tt))))))

on_platform : (profile : Profile) → Listed profile (profiles (platform profile))
unfolding platform profiles
on_platform full_extended = inl refl
on_platform full = inr (inl refl)
on_platform light = inr (inr (inl refl))
on_platform hci_layer_extended = inr (inr (inr (inl refl)))
on_platform hci_layer = inr (inr (inr (inr (inl refl))))
on_platform hci_adv_scan = inr (inr (inr (inr (inr (inl refl)))))
on_platform wba_full = inl refl
on_platform wba_basic_plus = inr (inl refl)
on_platform wba_basic_features = inr (inr (inl refl))
on_platform wba_peripheral_only = inr (inr (inr (inl refl)))
on_platform wba_link_layer_only = inr (inr (inr (inr (inl refl))))
on_platform wba_link_layer_only_basic = inr (inr (inr (inr (inr (inl refl)))))

source_profiles_iff :
    (own : Platform) (source : ReleaseSource) (profile : Profile)
    → Listed profile (source_profiles own (some source)) ↔ Has own source profile
source_profiles_iff own source profile = of_list source.profiles
  where
    of_list :
        (list : List Profile)
        → Listed profile (source_profiles own (some (record source { profiles = list })))
          ↔ (Listed profile list ⊎ ((list ≡ []) × (platform profile ≡ own)))
    of_list [] = (
      λ h. inr (refl, All-at (λ p. platform p ≡ own) (profiles own) profile (of_platform own) h),
      λ h. elim h [
        | inl listed ↦ elim listed [ ]
        | inr own_platform ↦
            subst (λ p. Listed profile (profiles p)) own_platform.1 (on_platform profile)
      ],
    )
    of_list (head ∷ list) =
        (λ h. inl h, λ h. elim h [ inl listed ↦ listed | inr empty ↦ let e = empty.0 in cc ])

module _ {C E : Type 0} (self : Catalog C E) (target : Target) where
  Describes-IsTarget : Describes self target (versions self) → IsTarget self target
  unfolding profiles_in
  Describes-IsTarget h =
      let listed = h.1 in
      elim (Option-cases (find_release target.release self.releases)) [
        | inl missing ↦
            let impossible : Listed target.profile [] = rw (profiles_in, missing) at listed in
            elim impossible [ ]
        | inr (source, found) ↦
            let of_source : Listed target.profile (source_profiles self.platform (some source)) =
              rw (profiles_in, found) at listed in
            (
              source,
              find_release-IsSource target.release self.releases source found,
              (source_profiles_iff self.platform source target.profile).0 of_source,
            )
      ]

  IsTarget-Describes : IsTarget self target → Describes self target (versions self)
  unfolding profiles_in
  IsTarget-Describes (source, is_source, has) =
      let (before, behind, place, others, version) = is_source in
      let found : find_release target.release self.releases ≡ some source =
        rw place (find_release-first target.release before behind source others version) in
      let of_source : Listed target.profile (source_profiles self.platform (some source)) =
        (source_profiles_iff self.platform source target.profile).1 has in
      (
        subst (λ l. Listed target.release (map (λ s. s.version) l)) (sym place)
            (subst (λ v. Listed v (map (λ s. s.version) (before ++ (source ∷ behind)))) version
              (Listed-version before behind source)),
        rw found of_source,
      )

  pub Listed-IsTarget : Listed target (targets self) ↔ IsTarget self target
  Listed-IsTarget =
      let described = Describes_iff self target in
      (λ h. Describes-IsTarget (described.0 h), λ h. described.1 (IsTarget-Describes h))
