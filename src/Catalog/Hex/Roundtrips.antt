-- ===== src/Catalog/Hex/Roundtrips.antt =====
-- Codes are read back from their text in crates/stm32wb-catalog/src/hex.rs.
use stm32wb_hci.Prelude.{ℕ, ◌^◌, ◌<◌, ◌≡◌, refl, some, arith}
use stm32wb_hci.Prelude.Text.{codes, strip_prefix-append}
use stm32wb_hci.Prelude.Digits.{hexadecimal}
use stm32wb_hci.Prelude.Digits.Lengths.{length-hexadecimal}
use stm32wb_hci.Prelude.Digits.Reading.{from_str_radix-hexadecimal}
use stm32wb_hci.Catalog.Hex.{serialize_byte, deserialize_byte, serialize, deserialize}

pub deserialize-serialize :
    (value : ℕ) → value < 2 ^ 16 → deserialize (serialize value) ≡ some value
unfolding deserialize serialize
deserialize-serialize value h =
    rw
      (
        strip_prefix-append (codes "0x") (hexadecimal 4 value),
        from_str_radix-hexadecimal (2 ^ 16) 4 value h,
      )
      refl

-- A status code and an opcode or event code are read back from their text.
pub codes_roundtrip :
    (status code : ℕ)
    → status < 2 ^ 8
    → code < 2 ^ 16
    → (deserialize_byte (serialize_byte status) ≡ some status)
      × (deserialize (serialize code) ≡ some code)
unfolding deserialize_byte serialize_byte
codes_roundtrip status code h k = (
  rw
      (
        strip_prefix-append (codes "0x") (hexadecimal 2 status),
        length-hexadecimal 1 status (omega (arith, h)),
        from_str_radix-hexadecimal (2 ^ 8) 2 status h,
      )
      refl,
  deserialize-serialize code k,
)
