-- ===== src/AdvData/Write.antt =====
-- Writes at the end of what an `AdvData` holds.
use mathlib.Core.List.{append_assoc, append-nil, flatten}
use stm32wb_hci.Prelude.{
  ℕ, zero, suc, ◌+◌, ◌≤◌, ◌≡◌, refl, ◌∙◌, ap, List, [], ◌∷◌, ◌++◌, length, take, drop, arith,
  le→leb, length-append, length-take, length-drop,
}
use stm32wb_hci.AdvData.{ok, write_slice, write_parts, parts_len}

-- `bytes'` is `bytes` with `part` behind its first `at` bytes, and as long.
pub record Extends (bytes : List ℕ) (at : ℕ) (part bytes' : List ℕ) : Type 0 where
  pub same_length : length bytes' ≡ length bytes
  pub front : take (at + length part) bytes' ≡ take at bytes ++ part

pub take-all : (xs ys : List ℕ) (n : ℕ) → n ≡ length xs → take n (xs ++ ys) ≡ xs
take-all [] ys n h = rw h
take-all (x ∷ xs) ys zero h = absurd (omega (arith, h))
take-all (x ∷ xs) ys (suc n) h = rw (take-all xs ys n (omega (arith, h)))

-- A write at a position within bounds succeeds, and keeps what stands before it.
pub write_slice-Extends :
    (bytes part : List ℕ) (at : ℕ)
    → at + length part ≤ length bytes
    → (bytes' : List ℕ) × (write_slice bytes at part ≡ ok bytes') × Extends bytes at part bytes'
unfolding write_slice
write_slice-Extends bytes part at h =
    let tail : List ℕ = drop (at + length part) bytes in
    let before : length (take at bytes) ≡ at = omega (arith, length-take at bytes) in
    let total : length (take at bytes ++ (part ++ tail)) ≡ length bytes = omega (
      arith,
      length-append (take at bytes) (part ++ tail),
      length-append part tail,
      length-drop (at + length part) bytes,
      before,
    ) in
    let front : take (at + length part) ((take at bytes ++ part) ++ tail) ≡ take at bytes ++ part =
      take-all (take at bytes ++ part) tail (at + length part)
        (omega (arith, length-append (take at bytes) part, before)) in
    (
      take at bytes ++ (part ++ tail),
      rw (le→leb _ _ h),
      record { same_length = total; front = rw append_assoc at front },
    )

pub length-flatten : (parts : List (List ℕ)) → length (flatten parts) ≡ parts_len parts
unfolding parts_len flatten
length-flatten [] = refl
length-flatten (part ∷ parts) =
    omega (arith, length-append part (flatten parts), length-flatten parts)

pub Extends-refl : (bytes : List ℕ) (at : ℕ) → Extends bytes at [] bytes
Extends-refl bytes at =
    let here : at + 0 ≡ at = omega arith in
    record { same_length = refl; front = rw (here, append-nil) }

-- Two writes, the second behind the first, are one.
pub Extends-trans :
    (a b c : List ℕ) (at : ℕ) (p q : List ℕ)
    → Extends a at p b
    → Extends b (at + length p) q c
    → Extends a at (p ++ q) c
Extends-trans a b c at p q e f =
    let end : at + length (p ++ q) ≡ at + length p + length q = omega (arith, length-append p q) in
    record {
      same_length = f.same_length ∙ e.same_length;
      front =
          rw end
            (f.front ∙ ap (λ (front : List ℕ). front ++ q) e.front ∙ append_assoc (take at a) p q);
    }

pub write_parts-Extends :
    (parts : List (List ℕ)) (bytes : List ℕ) (at : ℕ)
    → at + parts_len parts ≤ length bytes
    → (bytes' : List ℕ) × (write_parts bytes at parts ≡ ok (bytes', at + parts_len parts))
      × Extends bytes at (flatten parts) bytes'
unfolding write_parts parts_len flatten
write_parts-Extends [] bytes at h =
    let here : at + 0 ≡ at = omega arith in (bytes, rw here, Extends-refl bytes at)
write_parts-Extends (part ∷ parts) bytes at h =
    let (bytes₁, e₁, x₁) = write_slice-Extends bytes part at (omega (arith, h)) in
    let (bytes₂, e₂, x₂) =
      write_parts-Extends parts bytes₁ (at + length part) (omega (arith, h, x₁.same_length)) in
    let end : at + (length part + parts_len parts) ≡ at + length part + parts_len parts =
      omega arith in
    (bytes₂, rw (e₁, end, e₂), Extends-trans bytes bytes₁ bytes₂ at part (flatten parts) x₁ x₂)
