-- ===== src/Catalog/Target.antt =====
-- crates/stm32wb-catalog/src/target.rs: platforms, stack profiles and MCU families, with their names.
pub mod Names
mod Examples
use stm32wb_hci.Prelude.{
  ℕ, Bool, true, false, ◌&&◌, Option, none, some, List, [], ◌∷◌, ◌++◌, map, if◌then◌else◌, take,
  drop,
}
use stm32wb_hci.Prelude.Text.{Text, codes, same_text, strip_prefix}
use stm32wb_hci.Catalog.Release.{Version}
use stm32wb_hci.Catalog.Release.Texts.{feature_name, from_feature_name}

pub data Platform : Type 0 where
  stm32wb stm32wba : Platform

pub data Profile : Type 0 where
  full_extended full light hci_layer_extended hci_layer hci_adv_scan wba_full wba_basic_plus
        wba_basic_features wba_peripheral_only wba_link_layer_only wba_link_layer_only_basic :
      Profile

abbrev pub all_profiles : List Profile
all_profiles =
    full_extended ∷ full ∷ light ∷ hci_layer_extended ∷ hci_layer ∷ hci_adv_scan ∷ wba_full
    ∷ wba_basic_plus ∷ wba_basic_features ∷ wba_peripheral_only ∷ wba_link_layer_only
    ∷ wba_link_layer_only_basic ∷ []

unfoldable pub profile_name : Profile → Text
profile_name full_extended = codes "full-extended"
profile_name full = codes "full"
profile_name light = codes "light"
profile_name hci_layer_extended = codes "hci-layer-extended"
profile_name hci_layer = codes "hci-layer"
profile_name hci_adv_scan = codes "hci-adv-scan"
profile_name wba_full = codes "wba-full"
profile_name wba_basic_plus = codes "wba-basic-plus"
profile_name wba_basic_features = codes "wba-basic-features"
profile_name wba_peripheral_only = codes "wba-peripheral-only"
profile_name wba_link_layer_only = codes "wba-link-layer-only"
profile_name wba_link_layer_only_basic = codes "wba-link-layer-only-basic"

unfoldable pub platform : Profile → Platform
platform full_extended = stm32wb
platform full = stm32wb
platform light = stm32wb
platform hci_layer_extended = stm32wb
platform hci_layer = stm32wb
platform hci_adv_scan = stm32wb
platform wba_full = stm32wba
platform wba_basic_plus = stm32wba
platform wba_basic_features = stm32wba
platform wba_peripheral_only = stm32wba
platform wba_link_layer_only = stm32wba
platform wba_link_layer_only_basic = stm32wba

unfoldable pub profile_feature_name : Profile → Text
unfolding profile_name
profile_feature_name self = codes "stack-" ++ profile_name self

-- The loop of `Profile::from_str`; `none` is its error.
unfoldable pub find_name : Text → List Profile → Option Profile
find_name value [] = none
find_name value (profile ∷ profiles) =
    let others = find_name value profiles in
    if same_text (profile_name profile) value then some profile else others

unfoldable pub profile_from_str : Text → Option Profile
profile_from_str value = find_name value all_profiles

abbrev pub of_name : Option Text → Option Profile
of_name none = none
of_name (some value) = profile_from_str value

unfoldable pub profile_from_feature_name : Text → Option Profile
profile_from_feature_name feature = of_name (strip_prefix (codes "stack-") feature)

unfoldable pub documentation_column : Profile → Option Text
documentation_column full_extended = none
documentation_column full = some (codes "BF")
documentation_column light = some (codes "PO")
documentation_column hci_layer_extended = some (codes "LO")
documentation_column hci_layer = some (codes "LB")
documentation_column hci_adv_scan = some (codes "BO")
documentation_column wba_full = none
documentation_column wba_basic_plus = some (codes "BP")
documentation_column wba_basic_features = some (codes "BF")
documentation_column wba_peripheral_only = some (codes "PO")
documentation_column wba_link_layer_only = some (codes "LO")
documentation_column wba_link_layer_only_basic = some (codes "LB")

unfoldable pub binary_stem : Profile → Option Text
binary_stem full_extended = some (codes "BLE_Stack_full_extended")
binary_stem full = some (codes "BLE_Stack_full")
binary_stem light = some (codes "BLE_Stack_light")
binary_stem hci_layer_extended = some (codes "BLE_HCILayer_extended")
binary_stem hci_layer = some (codes "BLE_HCILayer")
binary_stem hci_adv_scan = some (codes "BLE_HCI_AdvScan")
binary_stem wba_full = none
binary_stem wba_basic_plus = none
binary_stem wba_basic_features = none
binary_stem wba_peripheral_only = none
binary_stem wba_link_layer_only = none
binary_stem wba_link_layer_only_basic = none

abbrev pub all_platforms : List Platform
all_platforms = stm32wb ∷ stm32wba ∷ []

unfoldable pub platform_feature : Platform → Text
platform_feature stm32wb = codes "_stm32wb"
platform_feature stm32wba = codes "_stm32wba"

unfoldable pub package_name : Platform → Text
package_name stm32wb = codes "STM32CubeWB"
package_name stm32wba = codes "STM32CubeWBA"

unfoldable pub release_feature_prefix : Platform → Text
release_feature_prefix stm32wb = codes "fw_"
release_feature_prefix stm32wba = codes "wba_"

unfoldable pub release_feature : Platform → Version → Text
release_feature self release = feature_name release (release_feature_prefix self)

unfoldable pub release_from_feature : Platform → Text → Option Version
release_from_feature self feature = from_feature_name feature (release_feature_prefix self)

unfoldable pub profiles : Platform → List Profile
profiles stm32wb = take 6 all_profiles
profiles stm32wba = drop 6 all_profiles

-- `self.profiles()[0]`
abbrev pub first_profile : List Profile → Profile
first_profile [] = full_extended
first_profile (profile ∷ others) = profile

unfoldable pub complete_profile : Platform → Profile
unfolding profiles
complete_profile self = first_profile (profiles self)

abbrev pub is_column : Text → Option Text → Bool
is_column column none = false
is_column column (some name) = same_text name column

unfoldable pub find_column : Text → List Profile → Option Profile
find_column column [] = none
find_column column (profile ∷ others) =
    let found = find_column column others in
    if is_column column (documentation_column profile) then some profile else found

unfoldable pub profile_for_column : Platform → Text → Option Profile
profile_for_column self column = find_column column (profiles self)

pub data Family : Type 0 where
  wb1x wb3x wb5x : Family

abbrev pub all_families : List Family
all_families = wb1x ∷ wb3x ∷ wb5x ∷ []

unfoldable pub family_name : Family → Text
family_name wb1x = codes "wb1x"
family_name wb3x = codes "wb3x"
family_name wb5x = codes "wb5x"

unfoldable pub directory : Family → Text
directory wb1x = codes "STM32WB1x"
directory wb3x = codes "STM32WB3x"
directory wb5x = codes "STM32WB5x"

unfoldable pub file_prefix : Family → Text
file_prefix wb1x = codes "stm32wb1x"
file_prefix wb3x = codes "stm32wb3x"
file_prefix wb5x = codes "stm32wb5x"

abbrev pub binary_file_of : Family → Option Text → Option Text
binary_file_of self none = none
binary_file_of self (some stem) =
    some (file_prefix self ++ (codes "_" ++ (stem ++ codes "_fw.bin")))

unfoldable pub binary_file_name : Family → Profile → Option Text
binary_file_name self profile = binary_file_of self (binary_stem profile)

unfoldable pub find_family : Text → List Family → Option Family
find_family value [] = none
find_family value (family ∷ families) =
    let others = find_family value families in
    if same_text (family_name family) value then some family else others

-- `Family::from_str`; `none` is its error.
unfoldable pub family_from_str : Text → Option Family
family_from_str value = find_family value all_families
