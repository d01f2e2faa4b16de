-- ===== src/Prelude/Digits.antt =====
-- Numbers as text: the standard library's `from_str_radix`, `parse` and `Display` of unsigned integers.
pub mod Lengths
pub mod Reading
use Prim.Native.Nat.{ℕ, zero, suc, ◌+◌, ◌-◌, ◌*◌, ◌/◌, ◌%◌, ◌^◌, ◌≤◌, ◌<◌}
use mathlib.Core.Path.{◌≡◌, refl, ap, ◌∙◌}
use mathlib.Core.Bool.{true, false, ◌&&◌}
use mathlib.Core.Option.{Option, none, some}
use mathlib.Core.List.{[], ◌∷◌, ◌++◌}
use native.Mathlib.Omega.{arith}
use native.Mathlib.Nat.{mod-lt, div-add-mod, div-le_self, div-lt_self}
use stm32wb_hci.Prelude.Tests.{ltb, leb, ◌==◌, if◌then◌else◌, Bool-cases, lt→ltb}
use mathlib.Core.Logic.{◌⊎◌, inl, inr}
use native.Mathlib.Nat.{pow-suc}
use stm32wb_hci.Prelude.Lists.{length, replicate, length-append, length-replicate}
use stm32wb_hci.Prelude.Bytes.{All}
use stm32wb_hci.Prelude.Text.{Text, All-append}

-- `char::to_digit`
unfoldable pub digit_value : ℕ → ℕ → Option ℕ
digit_value radix c =
    if leb 48 c && ltb c (48 + radix) && leb c 57
    then some (c - 48)
    else if leb 65 c && ltb c (55 + radix)
    then some (c - 55)
    else if leb 97 c && ltb c (87 + radix)
    then some (c - 87)
    else none

abbrev pub next_digit : ℕ → ℕ → Option ℕ → Option ℕ
next_digit radix acc none = none
next_digit radix acc (some d) = some (radix * acc + d)

unfoldable pub parse_digits : ℕ → Text → Option ℕ → Option ℕ
parse_digits radix [] acc = acc
parse_digits radix (c ∷ text) none = none
parse_digits radix (c ∷ text) (some acc) =
    parse_digits radix text (next_digit radix acc (digit_value radix c))

abbrev pub in_bound : ℕ → Option ℕ → Option ℕ
in_bound bound none = none
in_bound bound (some n) = if ltb n bound then some n else none

-- `from_str_radix` of an unsigned integer below `bound`; `parse` is that of radix 10. A text may begin
-- with a plus sign. The sum only grows, so one comparison at the end is enough.
unfoldable pub from_str_radix : ℕ → ℕ → Text → Option ℕ
from_str_radix bound radix [] = none
from_str_radix bound radix (c ∷ []) =
    if c == 43 then none else in_bound bound (parse_digits radix (c ∷ []) (some 0))
from_str_radix bound radix (c ∷ d ∷ text) =
    in_bound bound (parse_digits radix (if c == 43 then d ∷ text else c ∷ d ∷ text) (some 0))

abbrev pub parse_u16 : Text → Option ℕ
parse_u16 text = from_str_radix (2 ^ 16) 10 text

-- Digits in upper case. With more fuel than the number, all of them.
unfoldable pub digit_char : ℕ → ℕ
digit_char d = if ltb d 10 then 48 + d else 55 + d

unfoldable pub digits_loop : ℕ → ℕ → ℕ → Text
digits_loop radix zero n = []
digits_loop radix (suc fuel) n =
    let more = digits_loop radix fuel (n / radix) in
    if n / radix == 0 then digit_char (n % radix) ∷ [] else more ++ (digit_char (n % radix) ∷ [])

-- `{}` of an unsigned integer, and `{:0wX}`, filled with zeros to a width.
unfoldable pub decimal : ℕ → Text
decimal n = digits_loop 10 (suc n) n

unfoldable pub hexadecimal : ℕ → ℕ → Text
hexadecimal digits n =
    let written = digits_loop 16 (suc n) n in replicate (digits - length written) 48 ++ written
