-- ===== src/Catalog/Target/Names.antt =====
-- The names, Cargo features and documentation columns of crates/stm32wb-catalog/src/target.rs are read back.
use stm32wb_hci.Prelude.{
  ◌≡◌, ◌≢◌, ◌↔◌, inl, inr, refl, ap, ◌∙◌, Bool-cases, Option, none, some, List, [], ◌∷◌, ◌++◌, ◌⊎◌,
}
use stm32wb_hci.Prelude.Text.{
  Text, codes, same_text, same_text_iff, strip_prefix, strip_prefix-append, strip_prefix_sound,
}
use stm32wb_hci.Catalog.Release.{Version}
use stm32wb_hci.Catalog.Release.Texts.{feature_name, from_feature_name, IsVersion}
use stm32wb_hci.Catalog.Release.Texts.Roundtrips.{from_feature_name-feature_name}
use stm32wb_hci.Catalog.Target.{
  Platform, stm32wb, stm32wba, Profile, full_extended, full, light, hci_layer_extended, hci_layer,
  hci_adv_scan, wba_full, wba_basic_plus, wba_basic_features, wba_peripheral_only,
  wba_link_layer_only, wba_link_layer_only_basic, all_profiles, profile_name, platform,
  profile_feature_name, find_name, profile_from_str, of_name, profile_from_feature_name,
  documentation_column, release_feature_prefix, release_feature, release_from_feature, profiles,
  complete_profile, find_column, profile_for_column,
}

profile_from_str-name : (profile : Profile) → profile_from_str (profile_name profile) ≡ some profile
unfolding profile_from_str profile_name find_name same_text
profile_from_str-name full_extended = refl
profile_from_str-name full = refl
profile_from_str-name light = refl
profile_from_str-name hci_layer_extended = refl
profile_from_str-name hci_layer = refl
profile_from_str-name hci_adv_scan = refl
profile_from_str-name wba_full = refl
profile_from_str-name wba_basic_plus = refl
profile_from_str-name wba_basic_features = refl
profile_from_str-name wba_peripheral_only = refl
profile_from_str-name wba_link_layer_only = refl
profile_from_str-name wba_link_layer_only_basic = refl

find_name_sound :
    (value : Text) (list : List Profile) (profile : Profile)
    → find_name value list ≡ some profile
    → value ≡ profile_name profile
unfolding find_name
find_name_sound value [] profile h = cc
find_name_sound value (other ∷ list) profile h =
    elim (Bool-cases (same_text (profile_name other) value)) [
      | inl same ↦
          let e : some other ≡ some profile = rw same at h in
          let name : profile_name other ≡ value =
            (same_text_iff (profile_name other) value).0 same in
          let p : other ≡ profile = cc in cc
      | inr different ↦ find_name_sound value list profile (rw different at h)
    ]

of_name_sound :
    (feature : Text) (profile : Profile) (rest : Option Text)
    → strip_prefix (codes "stack-") feature ≡ rest
    → of_name rest ≡ some profile
    → feature ≡ profile_feature_name profile
unfolding profile_feature_name profile_from_str
of_name_sound feature profile none s h = cc
of_name_sound feature profile (some value) s h =
    let name : value ≡ profile_name profile = find_name_sound value all_profiles profile h in
    strip_prefix_sound (codes "stack-") feature value s ∙ ap (λ t. codes "stack-" ++ t) name

profile_from_feature_name-feature_name :
    (profile : Profile) → profile_from_feature_name (profile_feature_name profile) ≡ some profile
unfolding profile_from_feature_name profile_feature_name
profile_from_feature_name-feature_name profile =
    rw (strip_prefix-append (codes "stack-") (profile_name profile)) (profile_from_str-name profile)

-- A Cargo feature selects a profile exactly when it is the feature of the profile.
pub profile_from_feature_name_iff :
    (feature : Text) (profile : Profile)
    → (profile_from_feature_name feature ≡ some profile) ↔ (feature ≡ profile_feature_name profile)
unfolding profile_from_feature_name
profile_from_feature_name_iff feature profile = (
  λ h. of_name_sound feature profile (strip_prefix (codes "stack-") feature) refl h,
  λ e. rw e (profile_from_feature_name-feature_name profile),
)

-- A documentation column names one profile of the platform, and the profile without a column is the
-- complete one.
pub documentation_column_lem :
    (profile : Profile)
    → ((column : Text) × (documentation_column profile ≡ some column)
        × (profile_for_column (platform profile) column ≡ some profile))
      ⊎ ((documentation_column profile ≡ none) × (complete_profile (platform profile) ≡ profile))
unfolding documentation_column profile_for_column find_column platform profiles complete_profile
    same_text
documentation_column_lem full_extended = inr (refl, refl)
documentation_column_lem full = inl (_, refl, refl)
documentation_column_lem light = inl (_, refl, refl)
documentation_column_lem hci_layer_extended = inl (_, refl, refl)
documentation_column_lem hci_layer = inl (_, refl, refl)
documentation_column_lem hci_adv_scan = inl (_, refl, refl)
documentation_column_lem wba_full = inr (refl, refl)
documentation_column_lem wba_basic_plus = inl (_, refl, refl)
documentation_column_lem wba_basic_features = inl (_, refl, refl)
documentation_column_lem wba_peripheral_only = inl (_, refl, refl)
documentation_column_lem wba_link_layer_only = inl (_, refl, refl)
documentation_column_lem wba_link_layer_only_basic = inl (_, refl, refl)

-- The Cargo feature of a release selects that release on its own platform, and none on the other.
pub release_from_feature-release_feature :
    (self other : Platform) (release : Version)
    → IsVersion release
    → ((self ≡ other) × (release_from_feature other (release_feature self release) ≡ some release))
      ⊎ ((self ≢ other) × (release_from_feature other (release_feature self release) ≡ none))
unfolding release_from_feature release_feature release_feature_prefix
release_from_feature-release_feature stm32wb stm32wb release h =
    inl (refl, from_feature_name-feature_name (codes "fw_") release h)
release_from_feature-release_feature stm32wba stm32wba release h =
    inl (refl, from_feature_name-feature_name (codes "wba_") release h)
release_from_feature-release_feature stm32wb stm32wba release h =
    inr ((λ q. cc), unfold from_feature_name feature_name strip_prefix in refl)
release_from_feature-release_feature stm32wba stm32wb release h =
    inr ((λ q. cc), unfold from_feature_name feature_name strip_prefix in refl)
