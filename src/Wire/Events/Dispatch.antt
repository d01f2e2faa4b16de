-- ===== src/Wire/Events/Dispatch.antt =====
-- The enums over events decode as the events do, and `BleEvent` takes each packet to one decoder.
use stm32wb_hci.Prelude.{
  ℕ, ◌≡◌, ◌≢◌, ◌⊎◌, inl, inr, refl, ap, Bool-cases, Option, none, some, List, [], ◌∷◌, ◌++◌, arith,
  ◌==◌, Option-cases,
}
use stm32wb_hci.Prelude.Bytes.{All}
use stm32wb_hci.Wire.Decoding.{Result}
use stm32wb_hci.Wire.Events.{
  map_ok, map_event, split_code, of_code, from_vendor_params, Variant, decode_code, decode_params,
  enum_from_params, EventPacket, or_event, core, vendor, ble_event,
}

-- The specification: the events' own decoders, tried in order.
unfoldable pub first_event {ℓ} : {A : Type ℓ} → List (Variant A) → List ℕ → Option (Result A)
first_event [] params = none
first_event (v ∷ variants) params =
    or_event (map_event v.variant (from_vendor_params v.event params)) (first_event variants params)

module _ {ℓ} {A : Type ℓ} where
  decode_params-or :
      (v : Variant A) (variants : List (Variant A)) (split : Option (ℕ × List ℕ))
      → decode_params (v ∷ variants) split
        ≡ or_event (map_event v.variant (of_code v.event split)) (decode_params variants split)
  unfolding decode_code
  decode_params-or v variants none = refl
  decode_params-or v variants (some (code, payload)) = elim (Bool-cases (code == v.event.code)) [
    | inl same ↦ rw same refl
    | inr other ↦ rw other refl
  ]

  decode_params-nil : (split : Option (ℕ × List ℕ)) → decode_params {A = A} [] split ≡ none
  unfolding decode_code
  decode_params-nil none = refl
  decode_params-nil (some (code, payload)) = refl

  -- An enum over vendor events decodes parameters as its events do by their own `from_vendor_params`,
  -- tried in the order of the variants: its one read of the code changes nothing.
  pub enum_from_params-first_event :
      (variants : List (Variant A)) (params : List ℕ)
      → enum_from_params variants params ≡ first_event variants params
  unfolding enum_from_params first_event from_vendor_params
  enum_from_params-first_event [] params = decode_params-nil (split_code params)
  enum_from_params-first_event (v ∷ variants) params =
      rw
        (
          decode_params-or v variants (split_code params),
          enum_from_params-first_event variants params,
        )
        refl

-- A variant of the enum whose own decoder takes the parameters and gives `result`; no variant before
-- it takes them.
abbrev pub Takes {ℓ} : {A : Type ℓ} → List (Variant A) → List ℕ → Result A → Type (ℓ ⊔ 1)
Takes {A = A} variants params result =
    (before : List (Variant A)) × (v : Variant A) × (behind : List (Variant A)) × (own : Result
      v.Params)
    × (variants ≡ before ++ (v ∷ behind))
    × All (λ w. from_vendor_params w.event params ≡ none) before
    × (from_vendor_params v.event params ≡ some own)
    × (result ≡ map_ok v.variant own)

module _ {ℓ} {A : Type ℓ} (params : List ℕ) where
  first_event-cases :
      (variants : List (Variant A))
      → ((result : Result A) × (first_event variants params ≡ some result)
          × Takes variants params result)
        ⊎ ((first_event variants params ≡ none)
            × All (λ w. from_vendor_params w.event params ≡ none) variants)
  unfolding first_event
  first_event-cases [] = inr (refl, tt)
  first_event-cases (v ∷ variants) = elim (Option-cases (from_vendor_params v.event params)) [
    | inr (own, taken) ↦
        inl (map_ok v.variant own, rw taken refl, ([], v, variants, own, refl, tt, taken, refl))
    | inl passed ↦ elim (first_event-cases variants) [
      | inr (nothing, others) ↦ inr (rw (passed, nothing) refl, (passed, others))
      | inl (result, found, (before, w, behind, own, place, none_before, taken, same)) ↦ inl (
        result,
        rw (passed, found) refl,
        (v ∷ before, w, behind, own, ap (λ l. v ∷ l) place, (passed, none_before), taken, same),
      )
    ]
  ]

-- `BleEvent::from_packet` takes every packet to one decoder. A vendor packet that a variant of the enum
-- takes is that variant, or its error; any other packet is what bt-hci makes of it, or bt-hci's error.
pub ble_event_lem {ℓ} :
    {Event Aci : Type ℓ} (vendor_kind : ℕ) (try_from : EventPacket → Result Event)
    (variants : List (Variant Aci)) (packet : EventPacket)
    → ((packet.kind ≡ vendor_kind)
        × ((result : Result Aci) × Takes variants packet.bytes result
            × (ble_event vendor_kind try_from variants packet ≡ map_ok vendor result)))
      ⊎ (((packet.kind ≢ vendor_kind)
            ⊎ All (λ w. from_vendor_params w.event packet.bytes ≡ none) variants)
          × (ble_event vendor_kind try_from variants packet ≡ map_ok core (try_from packet)))
unfolding ble_event
ble_event_lem vendor_kind try_from variants packet =
    elim (Bool-cases (packet.kind == vendor_kind)) [
      | inr other ↦ inr (inl (ground (arith, other)), rw other refl)
      | inl same ↦ elim (first_event-cases packet.bytes variants) [
        | inl (result, found, takes) ↦ inl (
          ground (arith, same),
          (
            result,
            takes,
            rw (same, enum_from_params-first_event variants packet.bytes, found) refl,
          ),
        )
        | inr (nothing, others) ↦ inr (
          inr others,
          rw (same, enum_from_params-first_event variants packet.bytes, nothing) refl,
        )
      ]
    ]
