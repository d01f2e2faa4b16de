-- ===== src/Wire/Events.antt =====
-- Events: the decoding traits of crates/stm32wb-hci/src/wire.rs, the enums that
-- crates/stm32wb-hci-macros/src/dispatch.rs writes over them, and `BleEvent` of
-- crates/stm32wb-hci/src/event.rs. `from_hci_bytes_complete`, `EventKind` and `Event` are bt-hci's.
pub mod Dispatch
pub mod Widths
mod Examples
use stm32wb_hci.Prelude.{
  ℕ, zero, suc, ◌+◌, ◌-◌, Bool, true, false, not, ◌&&◌, ◌||◌, Option, none, some, List, [], ◌∷◌,
  ltb, ◌==◌, if◌then◌else◌, replicate,
}
use stm32wb_hci.Prelude.Bytes.{from_le_bytes}
use stm32wb_hci.Wire.Decoding.{Result, ok, err}

-- `Result::map` and `Option::map` of it.
abbrev pub map_ok {ℓ κ} : {A : Type ℓ} {B : Type κ} → (A → B) → Result A → Result B
map_ok f (ok a) = ok (f a)
map_ok f (err e) = err e

abbrev pub map_event {ℓ κ} :
    {A : Type ℓ} {B : Type κ} → (A → B) → Option (Result A) → Option (Result B)
map_event f none = none
map_event f (some r) = some (map_ok f r)

-- `split_first_chunk::<2>`, the chunk read as a u16.
unfoldable pub split_code : List ℕ → Option (ℕ × List ℕ)
split_code [] = none
split_code (low ∷ []) = none
split_code (low ∷ high ∷ payload) = some (from_le_bytes (low ∷ high ∷ []), payload)

-- The code of an event, and bt-hci's `from_hci_bytes_complete` of its type.
pub record VendorEvent {ℓ} (A : Type ℓ) : Type ℓ where
  pub code : ℕ
  pub from_hci_bytes_complete : List ℕ → Result A

-- `(code == CODE).then(|| Self::from_hci_bytes_complete(payload))`
abbrev pub of_code {ℓ} : {A : Type ℓ} → VendorEvent A → Option (ℕ × List ℕ) → Option (Result A)
of_code event none = none
of_code event (some (code, payload)) =
    if code == event.code then some (event.from_hci_bytes_complete payload) else none

-- `from_vendor_params`, and `from_system_params`, which has the same body.
unfoldable pub from_vendor_params {ℓ} : {A : Type ℓ} → VendorEvent A → List ℕ → Option (Result A)
from_vendor_params event params = of_code event (split_code params)

unfoldable pub from_system_params {ℓ} : {A : Type ℓ} → VendorEvent A → List ℕ → Option (Result A)
from_system_params event params = of_code event (split_code params)

-- A variant of an enum over events: the event's type, and the constructor of the variant.
pub record Variant {ℓ} (A : Type ℓ) : Type (ℓ ⊔ 1) where
  pub Params : Type 0
  pub event : VendorEvent Params
  pub variant : Params → A

module _ {ℓ} {A : Type ℓ} where
  -- The tests `if code == CODE { return ... }` of the written decoder, in order.
  unfoldable pub decode_code : List (Variant A) → ℕ → List ℕ → Option (Result A)
  decode_code [] code payload = none
  decode_code (v ∷ variants) code payload =
      let others = decode_code variants code payload in
      if code == v.event.code
      then some (map_ok v.variant (v.event.from_hci_bytes_complete payload))
      else others

  abbrev pub decode_params : List (Variant A) → Option (ℕ × List ℕ) → Option (Result A)
  decode_params variants none = none
  decode_params variants (some (code, payload)) = decode_code variants code payload

  -- `from_vendor_params` of the enum `AciEvent`, and `from_system_params` of `ShciEvent`.
  unfoldable pub enum_from_params : List (Variant A) → List ℕ → Option (Result A)
  enum_from_params variants params = decode_params variants (split_code params)

-- `bt_hci::event::EventPacket`: the kind is the event code, and `bytes` its `data`.
pub record EventPacket : Type 0 where
  pub kind : ℕ
  pub bytes : List ℕ

pub record StandardEvent {ℓ} (A : Type ℓ) : Type ℓ where
  pub code : ℕ
  pub le_meta : Bool
  pub from_hci_bytes_complete : List ℕ → Result A

-- The payload of a packet of this event. `le` is bt-hci's `EventKind::Le`.
abbrev pub meta_payload : Bool → ℕ → List ℕ → Option (List ℕ)
meta_payload is_le code [] = none
meta_payload is_le code (subevent ∷ payload) =
    if is_le && (subevent == code) then some payload else none

abbrev pub standard_payload : ℕ → Bool → ℕ → EventPacket → Option (List ℕ)
standard_payload le true code packet = meta_payload (packet.kind == le) code packet.bytes
standard_payload le false code packet = if packet.kind == code then some packet.bytes else none

abbrev pub complete {ℓ} : {A : Type ℓ} → (List ℕ → Result A) → Option (List ℕ) → Option (Result A)
complete decode none = none
complete decode (some payload) = some (decode payload)

unfoldable pub from_packet {ℓ} :
    {A : Type ℓ} → ℕ → StandardEvent A → EventPacket → Option (Result A)
from_packet le event packet =
    complete event.from_hci_bytes_complete (standard_payload le event.le_meta event.code packet)

-- A variant of the enum over the events that `standard_event!` declares, and its decoder.
pub record StandardVariant {ℓ} (A : Type ℓ) : Type (ℓ ⊔ 1) where
  pub Params : Type 0
  pub event : StandardEvent Params
  pub variant : Params → A

abbrev pub or_event {ℓ} : {A : Type ℓ} → Option (Result A) → Option (Result A) → Option (Result A)
or_event none others = others
or_event (some result) others = some result

unfoldable pub enum_from_packet {ℓ} :
    {A : Type ℓ} → ℕ → List (StandardVariant A) → EventPacket → Option (Result A)
enum_from_packet le [] packet = none
enum_from_packet le (v ∷ variants) packet =
    let others = enum_from_packet le variants packet in
    or_event (map_event v.variant (from_packet le v.event packet)) others

-- `BleEvent`: `core` holds bt-hci's `Event`, `vendor` an `AciEvent`.
pub data BleEvent {ℓ} (Event Aci : Type ℓ) : Type ℓ where
  core : Event → BleEvent Event Aci
  vendor : Aci → BleEvent Event Aci

abbrev pub or_core {ℓ} :
    {Event Aci : Type ℓ} → Option (Result Aci) → Result Event → Result (BleEvent Event Aci)
or_core none event = map_ok core event
or_core (some event) _ = map_ok vendor event

-- `BleEvent::from_packet`, for bt-hci's `EventKind::Vendor` and `Event::try_from`.
unfoldable pub ble_event {ℓ} :
    {Event Aci : Type ℓ}
    → ℕ
    → (EventPacket → Result Event)
    → List (Variant Aci)
    → EventPacket
    → Result (BleEvent Event Aci)
ble_event vendor_kind try_from variants packet =
    or_core (if packet.kind == vendor_kind then enum_from_params variants packet.bytes else none)
      (try_from packet)

abbrev pub is_ok {ℓ} : {A : Type ℓ} → Result A → Bool
is_ok (ok a) = true
is_ok (err e) = false

-- Whether `assert_event_width` passes. A slice of its 256 bytes that is longer panics, and it takes one
-- of `width + 1`.
module _ {ℓ} {A : Type ℓ} (from_hci_bytes_complete : List ℕ → Result A) where
  unfoldable pub decodes : ℕ → ℕ → Bool
  decodes fill width = is_ok (from_hci_bytes_complete (replicate width fill))

  abbrev pub only_width : ℕ → ℕ → Bool
  only_width fill width =
      not (decodes fill (width + 1)) && ((width == 0) || not (decodes fill (width - 1)))

  unfoldable pub assert_event_width : ℕ → Bool
  assert_event_width width =
      ltb width 256
      && ((decodes 0 width || decodes 1 width) && (only_width 0 width && only_width 1 width))
