-- ===== src/Catalog/Domain/Labels.antt =====
-- crates/stm32wb-catalog/src/domain.rs: the conditions that labels state, and what `Domain::items` does with
-- an item of a label.
use stm32wb_hci.Prelude.{
  ℕ, Bool, true, false, not, ◌&&◌, ◌||◌, Option, none, some, List, [], ◌∷◌, ltb, ◌==◌,
  if◌then◌else◌,
}
use stm32wb_hci.Prelude.Text.{
  Text, codes, same_text, strip_prefix, ends_with, behind, contains_text, split,
}
use stm32wb_hci.Catalog.Target.{
  Platform, stm32wb, stm32wba, Profile, full_extended, full, light, hci_layer_extended, hci_layer,
  hci_adv_scan, wba_full, wba_basic_plus, wba_basic_features, wba_peripheral_only,
  wba_link_layer_only, wba_link_layer_only_basic, platform,
}
use stm32wb_hci.Catalog.Domain.{DomainItem}

-- What stands behind the name of a platform: nothing, or neither a letter, a digit nor a space.
unfoldable pub is_alphanumeric : ℕ → Bool
is_alphanumeric c =
    (not (ltb c 48) && ltb c 58) || ((not (ltb c 65) && ltb c 91) || (not (ltb c 97) && ltb c 123))

abbrev pub ends_name : Text → Bool
ends_name [] = true
ends_name (next ∷ rest) = not (is_alphanumeric next) && not (next == 32)

abbrev pub named_platform : Option Text → Option Text → Option Platform
named_platform none rest = none
named_platform (some rest) (some wba) = if ends_name wba then some stm32wba else none
named_platform (some rest) none = if ends_name rest then some stm32wb else none

abbrev pub then_prefix : Text → Option Text → Option Text
then_prefix prefix none = none
then_prefix prefix (some rest) = strip_prefix prefix rest

-- The name "STM32WB", and what stands behind it without an "A".
unfoldable pub platform_after : Text → Text → Option Platform
platform_after label phrase =
    let rest = then_prefix (codes " STM32WB") (behind phrase label) in
    named_platform rest (then_prefix (codes "A") rest)

unfoldable pub profiles_named : Text → Option (List Profile)
profiles_named label =
    if contains_text (codes "only for full stack") label
      || contains_text (codes "only for STM32WB full stack") label
    then some (full_extended ∷ full ∷ [])
    else if contains_text (codes "for BO variant") label
    then some (hci_adv_scan ∷ [])
    else none

-- `split_once([')', ']'])`: what stands before the first of them.
unfoldable pub before_close : Text → Option Text
before_close [] = none
before_close (c ∷ text) =
    let found = before_close text in
    if (c == 41) || (c == 93)
    then some []
    else elim found [ none ↦ none | some qualifier ↦ some (c ∷ qualifier) ]

unfoldable pub qualifiers_of : List Text → List Text
qualifiers_of [] = []
qualifiers_of (rest ∷ pieces) = elim (before_close rest) [
  | none ↦ qualifiers_of pieces
  | some qualifier ↦ qualifier ∷ qualifiers_of pieces
]

abbrev pub skip_one : List Text → List Text
skip_one [] = []
skip_one (piece ∷ pieces) = pieces

unfoldable pub qualifiers : Text → List Text
unfolding qualifiers_of
qualifiers label = qualifiers_of (skip_one (split (λ c. (c == 40) || (c == 91)) label))

abbrev pub notes : List Text
notes = codes "Host only" ∷ []

unfoldable pub lists_text : Text → List Text → Bool
lists_text text [] = false
lists_text text (other ∷ others) = same_text other text || lists_text text others

-- A qualifier that states a condition.
unfoldable pub is_condition : Text → Bool
unfolding lists_text
is_condition qualifier =
    not (lists_text qualifier notes)
    && (contains_text (codes "only") qualifier || contains_text (codes "supported") qualifier)

unfoldable pub any_condition : List Text → Bool
any_condition [] = false
any_condition (qualifier ∷ others) = is_condition qualifier || any_condition others

abbrev pub tagged : Option Platform → Bool → Option (Platform × Bool) → Option (Platform × Bool)
tagged none only others = others
tagged (some platform) only others = some (platform, only)

-- The platform that a label names, and whether only that one accepts the item.
unfoldable pub platform_named : Text → Option (Platform × Bool)
platform_named label = tagged (platform_after label (codes "not supported on")) false (
    tagged (platform_after label (codes "only for")) true (
      tagged (platform_after label (codes "with")) true (
        if same_text label (codes "STM32WB")
        then some (stm32wb, true)
        else if same_text label (codes "STM32WBA")
        then some (stm32wba, true)
        else none)))

abbrev pub same_platform : Platform → Platform → Bool
same_platform stm32wb stm32wb = true
same_platform stm32wb stm32wba = false
same_platform stm32wba stm32wb = false
same_platform stm32wba stm32wba = true

abbrev pub same_bool : Bool → Bool → Bool
same_bool true b = b
same_bool false b = not b

-- The derived order of the constructors, by which profiles are compared.
abbrev pub profile_index : Profile → ℕ
profile_index full_extended = 0
profile_index full = 1
profile_index light = 2
profile_index hci_layer_extended = 3
profile_index hci_layer = 4
profile_index hci_adv_scan = 5
profile_index wba_full = 6
profile_index wba_basic_plus = 7
profile_index wba_basic_features = 8
profile_index wba_peripheral_only = 9
profile_index wba_link_layer_only = 10
profile_index wba_link_layer_only_basic = 11

unfoldable pub lists_profile : Profile → List Profile → Bool
lists_profile profile [] = false
lists_profile profile (other ∷ others) =
    (profile_index other == profile_index profile) || lists_profile profile others

-- What `Domain::items` does with an item: it accepts or rejects it; it accepts it and notes that an item
-- restricted to some profiles applies; it sets it aside as `otherwise`; or it fails.
pub data Verdict : Type 0 where
  accepts rejects restricted otherwise unknown : Verdict

abbrev pub unconditional : Text → Verdict
unconditional label =
    if same_text label (codes "otherwise")
    then otherwise
    else if ends_with (codes "(not supported)") label || ends_with (codes "[not supported]") label
    then rejects
    else if contains_text (codes "STM32WB") label
        || (contains_text (codes "variant") label || any_condition (qualifiers label))
    then unknown
    else accepts

abbrev pub by_profiles : Profile → Text → Option (List Profile) → Verdict
by_profiles profile label (some profiles) =
    if lists_profile profile profiles then restricted else rejects
by_profiles profile label none = unconditional label

abbrev pub by_platform : Profile → Text → Option (Platform × Bool) → Verdict
by_platform profile label (some (named, only)) =
    if same_bool (same_platform named (platform profile)) only then accepts else rejects
by_platform profile label none = by_profiles profile label (profiles_named label)

abbrev pub label_text : Option Text → Text
label_text none = []
label_text (some label) = label

unfoldable pub verdict : Profile → DomainItem → Verdict
verdict profile item =
    by_platform profile (label_text item.label) (platform_named (label_text item.label))
