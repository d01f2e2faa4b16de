-- ===== src/Catalog/Target/Examples.antt =====
-- Runs of crates/stm32wb-catalog/src/target.rs, and the theorems there.
use stm32wb_hci.Prelude.{◌≡◌, ◌≢◌, ◌⊎◌, refl, none, some, arith}
use stm32wb_hci.Prelude.Text.{codes, same_text}
use stm32wb_hci.Catalog.Release.{Version}
use stm32wb_hci.Catalog.Target.{
  stm32wb, stm32wba, full_extended, documentation_column, profile_for_column, release_feature,
  release_from_feature, binary_file_name, binary_stem, file_prefix, wb5x, family_from_str,
  find_family, family_name, find_column, profiles,
}
use stm32wb_hci.Catalog.Target.Names.{release_from_feature-release_feature}

file_name :
    binary_file_name wb5x full_extended ≡ some (codes "stm32wb5x_BLE_Stack_full_extended_fw.bin")
unfolding binary_file_name binary_stem file_prefix
file_name = refl

family : family_from_str (codes "wb5x") ≡ some wb5x
unfolding family_from_str find_family family_name same_text
family = refl

no_column : profile_for_column stm32wb (codes "BP") ≡ none
unfolding profile_for_column find_column profiles documentation_column same_text
no_column = refl

abbrev wba_release : Version
wba_release = record { major = 1; minor = 10; patch = 0 }

release_from_feature-release_feature_example :
    ((stm32wb ≡ stm32wba)
      × (release_from_feature stm32wba (release_feature stm32wb wba_release) ≡ some wba_release))
    ⊎ ((stm32wb ≢ stm32wba)
        × (release_from_feature stm32wba (release_feature stm32wb wba_release) ≡ none))
release_from_feature-release_feature_example =
    release_from_feature-release_feature stm32wb stm32wba wba_release
      (omega arith, omega arith, omega arith)
