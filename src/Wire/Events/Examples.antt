-- ===== src/Wire/Events/Examples.antt =====
-- Runs of the decoders of events, and the theorems there.
use stm32wb_hci.Prelude.{
  ℕ, ◌≡◌, ◌≢◌, ◌⊎◌, ◌↔◌, refl, true, ◌||◌, none, some, List, [], ◌∷◌, arith, length,
  length-replicate, replicate, ◌≤◌, ◌<◌, leb, ◌&&◌, ◌==◌, if◌then◌else◌,
}
use stm32wb_hci.Prelude.Bytes.{All, from_le_bytes}
use stm32wb_hci.Wire.Decoding.{Result, ok, err, invalid_size}
use stm32wb_hci.Wire.Events.{
  from_vendor_params, Variant, decode_code, enum_from_params, EventPacket, vendor, core, map_ok,
  StandardVariant, from_packet, enum_from_packet, ble_event, decodes, assert_event_width,
  split_code,
}
use stm32wb_hci.Wire.Events.Dispatch.{
  first_event, enum_from_params-first_event, Takes, ble_event_lem,
}
use stm32wb_hci.Wire.Events.Widths.{assert_event_width_iff}

-- A decoder of `size` bytes, and of no other count.
abbrev of_size : ℕ → List ℕ → Result (List ℕ)
of_size size payload = if length payload == size then ok payload else err invalid_size

abbrev variant_of : ℕ → ℕ → Variant (ℕ × List ℕ)
variant_of code size = record {
  Params = List ℕ;
  event = record { code = code; from_hci_bytes_complete = of_size size };
  variant = λ payload. (code, payload);
}

abbrev two_variants : List (Variant (ℕ × List ℕ))
two_variants = variant_of 0x0006 2 ∷ variant_of 0x0004 1 ∷ []

second_variant : enum_from_params two_variants (4 ∷ 0 ∷ 9 ∷ []) ≡ some (ok (4, 9 ∷ []))
unfolding enum_from_params decode_code split_code from_le_bytes
second_variant = refl

too_short : enum_from_params two_variants (6 ∷ 0 ∷ 9 ∷ []) ≡ some (err invalid_size)
unfolding enum_from_params decode_code split_code from_le_bytes
too_short = refl

no_code : enum_from_params two_variants (6 ∷ []) ≡ none
unfolding enum_from_params decode_code split_code from_le_bytes
no_code = refl

enum_from_params-first_event_example :
    enum_from_params two_variants (4 ∷ 0 ∷ 9 ∷ []) ≡ first_event two_variants (4 ∷ 0 ∷ 9 ∷ [])
enum_from_params-first_event_example = enum_from_params-first_event two_variants (4 ∷ 0 ∷ 9 ∷ [])

-- A Bluetooth Core event that bt-hci decodes to its data.
abbrev core_event : EventPacket → Result (ℕ × List ℕ)
core_event packet = ok (packet.kind, packet.bytes)

abbrev short_packet : EventPacket
short_packet = record { kind = 0xff; bytes = 6 ∷ 0 ∷ 9 ∷ [] }

known_event_error : ble_event 0xff core_event two_variants short_packet ≡ err invalid_size
unfolding ble_event enum_from_params decode_code split_code from_le_bytes
known_event_error = refl

ble_event_lem_example :
    ((short_packet.kind ≡ 0xff)
      × ((result : Result (ℕ × List ℕ)) × Takes two_variants short_packet.bytes result
          × (ble_event 0xff core_event two_variants short_packet ≡ map_ok vendor result)))
    ⊎ (((short_packet.kind ≢ 0xff)
          ⊎ All (λ w. from_vendor_params w.event short_packet.bytes ≡ none) two_variants)
        × (ble_event 0xff core_event two_variants short_packet
            ≡ map_ok core (core_event short_packet)))
ble_event_lem_example = ble_event_lem 0xff core_event two_variants short_packet

abbrev meta_event : StandardVariant (List ℕ)
meta_event = record {
  Params = List ℕ;
  event = record { code = 0x1e; le_meta = true; from_hci_bytes_complete = of_size 1 };
  variant = λ payload. payload;
}

meta_packet :
    enum_from_packet 0x3e (meta_event ∷ []) (record { kind = 0x3e; bytes = 0x1e ∷ 5 ∷ [] })
    ≡ some (ok (5 ∷ []))
unfolding enum_from_packet from_packet
meta_packet = refl

other_kind :
    enum_from_packet 0x3e (meta_event ∷ []) (record { kind = 0x1e; bytes = 0x1e ∷ 5 ∷ [] }) ≡ none
unfolding enum_from_packet from_packet
other_kind = refl

-- A decoder of two to four bytes.
abbrev of_sizes : List ℕ → Result (List ℕ)
of_sizes payload =
    if leb 2 (length payload) && leb (length payload) 4 then ok payload else err invalid_size

of_sizes-accepts :
    (w : ℕ) → ((decodes of_sizes 0 w || decodes of_sizes 1 w) ≡ true) ↔ ((2 ≤ w) × (w ≤ 4))
unfolding decodes
of_sizes-accepts w =
    let zeros : length (replicate {A = ℕ} w 0) ≡ w = length-replicate {A = ℕ} w 0 in
    let ones : length (replicate {A = ℕ} w 1) ≡ w = length-replicate {A = ℕ} w 1 in
    rw (zeros, ones) ((λ h. ground (arith, h)), (λ h. ground (arith, h)))

one_width : assert_event_width (of_size 3) 3 ≡ true
unfolding assert_event_width decodes
one_width = refl

abbrev three : ℕ
three = 3

assert_event_width_iff_example :
    (assert_event_width of_sizes three ≡ true) ↔ ((three < 256) × (2 ≡ three) × (4 ≡ three))
assert_event_width_iff_example = assert_event_width_iff of_sizes 2 4 three of_sizes-accepts
