-- ===== src/Wire/Decoding.antt =====
-- The results of bt-hci's `FromHciBytes` that crates/stm32wb-hci/src/wire.rs passes on, and what that
-- file relies on in the decoders of integers, which bt-hci implements.
pub mod Sample
use stm32wb_hci.Prelude.{ℕ, ◌^◌, ◌<◌, ◌≡◌, List, ◌++◌, length}
use stm32wb_hci.Prelude.Bytes.{to_le_bytes}

-- `bt_hci::FromHciBytesError`
pub data HciError : Type 0 where
  invalid_size invalid_value : HciError

pub data Result {ℓ} (A : Type ℓ) : Type ℓ where
  ok : A → Result A
  err : HciError → Result A

infixl 5 ◌>>=◌
abbrev pub ◌>>=◌ {ℓ κ} : {A : Type ℓ} {B : Type κ} → Result A → (A → Result B) → Result B
ok a >>= f = f a
err e >>= f = err e

-- `from_hci_bytes` of a type: a value and the bytes behind it.
abbrev pub Decoder {ℓ} : Type ℓ → Type ℓ
Decoder A = List ℕ → Result (A × List ℕ)

-- bt-hci's decoder of an unsigned integer of `width` bytes: little-endian, and it refuses less data.
pub record IsLittleEndian (width : ℕ) (decode : Decoder ℕ) : Type 0 where
  pub reads :
      (x : ℕ) (rest : List ℕ)
      → x < 256 ^ width
      → decode (to_le_bytes width x ++ rest) ≡ ok (x, rest)
  pub refuses : (input : List ℕ) → length input < width → decode input ≡ err invalid_size
