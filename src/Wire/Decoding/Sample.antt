-- ===== src/Wire/Decoding/Sample.antt =====
-- A decoder of integers that meets what crates/stm32wb-hci/src/wire.rs relies on, for the examples.
use stm32wb_hci.Prelude.{
  ℕ, ◌≡◌, refl, List, [], ◌∷◌, ◌++◌, length, length-append, take, drop, arith, ltb, lt→ltb,
  if◌then◌else◌,
}
use stm32wb_hci.Prelude.Bytes.{
  to_le_bytes, from_le_bytes, length-to_le_bytes, from_le_bytes-to_le_bytes,
}
use stm32wb_hci.Wire.Decoding.{ok, err, invalid_size, Decoder, IsLittleEndian}

unfoldable pub decode_le : ℕ → Decoder ℕ
unfolding from_le_bytes
decode_le width input =
    if ltb (length input) width
    then err invalid_size
    else ok (from_le_bytes (take width input), drop width input)

take-append : (xs ys : List ℕ) → take (length xs) (xs ++ ys) ≡ xs
take-append [] ys = refl
take-append (x ∷ xs) ys = rw (take-append xs ys)

drop-append : (xs ys : List ℕ) → drop (length xs) (xs ++ ys) ≡ ys
drop-append [] ys = refl
drop-append (x ∷ xs) ys = drop-append xs ys

decode_le-append :
    (width x : ℕ) (bytes rest : List ℕ)
    → length bytes ≡ width
    → from_le_bytes bytes ≡ x
    → decode_le width (bytes ++ rest) ≡ ok (x, rest)
unfolding decode_le
decode_le-append width x bytes rest e v =
    rw (← e)
      (ground (arith, length-append bytes rest, take-append bytes rest, drop-append bytes rest, v))

pub decode_le-IsLittleEndian : (width : ℕ) → IsLittleEndian width (decode_le width)
unfolding decode_le
decode_le-IsLittleEndian width = record {
  reads = λ x rest h.
      decode_le-append width x (to_le_bytes width x) rest (length-to_le_bytes width x)
        (from_le_bytes-to_le_bytes width x h);
  refuses = λ input h. rw (lt→ltb _ _ h);
}
