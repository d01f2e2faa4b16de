-- ===== src/AdvData/Append.antt =====
-- What `structure` and `uuid16_list` do on every branch: they append one AD structure, or refuse.
use mathlib.Core.List.{flatten}
use stm32wb_hci.Prelude.{
  ℕ, ◌+◌, ◌%◌, ◌≤◌, ◌<◌, ◌≡◌, refl, ◌⊎◌, ◌∙◌, false, ◌||◌, List, [], ◌∷◌, ◌++◌, length, arith, ltb,
}
use stm32wb_hci.AdvData.{
  AdvData, ok, err, parts_len, advertising_data, too_long, structure, as_bytes,
}
use stm32wb_hci.AdvData.Write.{
  Extends, length-flatten, write_slice-Extends, Extends-trans, write_parts-Extends,
}

-- The array has its `n` bytes, and the structures fit in it.
pub record IsWellFormed (n : ℕ) (self : AdvData) : Type 0 where
  pub capacity : length self.bytes ≡ n
  pub within : self.len ≤ n

-- `self'` holds what `self` holds and `part` behind it.
pub record Appends (n : ℕ) (self : AdvData) (part : List ℕ) (self' : AdvData) : Type 0 where
  pub well_formed : IsWellFormed n self'
  pub content : as_bytes n self' ≡ as_bytes n self ++ part

-- The bytes of one AD structure: the length of what follows, the type, and the data.
abbrev pub ad_structure : ℕ → List ℕ → List ℕ
ad_structure ad_type content = (length content + 1) ∷ ad_type ∷ content

-- The writes of one structure, taken together.
extended :
    (n : ℕ) (self : AdvData) (ad_type : ℕ) (content : List ℕ) (size : ℕ) (bytes : List ℕ) (end : ℕ)
    → IsWellFormed n self
    → Extends self.bytes self.len (size ∷ ad_type ∷ content) bytes
    → size ≡ length content + 1
    → self.len + 2 + length content ≡ end
    → end ≤ n
    → Appends n self (ad_structure ad_type content) (record { bytes = bytes; len = end })
unfolding as_bytes
extended n self ad_type content size bytes end wf x s e fits =
    let here : self.len + length (size ∷ ad_type ∷ content) ≡ end = omega (arith, e) in
    record {
      well_formed = record { capacity = x.same_length ∙ wf.capacity; within = fits };
      content = rw (here, s) at x.front;
    }

module _ (n : ℕ) (self : AdvData) (ad_type : ℕ) (parts : List (List ℕ)) where
  -- Data that fits is appended as one structure.
  pub structure-Appends :
      IsWellFormed n self
      → self.len + 2 + parts_len parts ≤ n
      → parts_len parts ≤ 254
      → (self' : AdvData) × (structure n self ad_type parts ≡ ok self')
        × (self'.len ≡ self.len + 2 + parts_len parts)
        × Appends n self (ad_structure ad_type (flatten parts)) self'
  unfolding structure as_bytes
  structure-Appends wf fits short =
      let (b₁, e₁, x₁) =
        write_slice-Extends self.bytes (((parts_len parts + 1) % 256) ∷ []) self.len
          (omega (arith, wf.capacity)) in
      let (b₂, e₂, x₂) =
        write_slice-Extends b₁ (ad_type ∷ []) (self.len + 1)
          (omega (arith, wf.capacity, x₁.same_length)) in
      let (b₃, e₃, x₃) =
        write_parts-Extends parts b₂ (self.len + 2)
          (omega (arith, wf.capacity, x₁.same_length, x₂.same_length)) in
      let head : List ℕ = ((parts_len parts + 1) % 256) ∷ ad_type ∷ [] in
      let x =
        Extends-trans self.bytes b₂ b₃ self.len head (flatten parts)
          (Extends-trans self.bytes b₁ b₂ self.len (((parts_len parts + 1) % 256) ∷ [])
            (ad_type ∷ []) x₁ x₂)
          x₃ in
      let room : (ltb n (self.len + 2 + parts_len parts) || ltb 254 (parts_len parts)) ≡ false =
        ground arith in
      (
        record { bytes = b₃; len = self.len + 2 + parts_len parts },
        rw (room, e₁, e₂, e₃),
        refl,
        extended n self ad_type (flatten parts) ((parts_len parts + 1) % 256) b₃
            (self.len + 2 + parts_len parts) wf x (omega (arith, length-flatten parts))
            (omega (arith, length-flatten parts)) fits,
      )

  -- Data that does not fit, or is longer than a structure can be, is refused with its size.
  pub structure-too_long :
      (n < self.len + 2 + parts_len parts) ⊎ (254 < parts_len parts)
      → structure n self ad_type parts
        ≡ err (too_long n advertising_data (self.len + 2 + parts_len parts))
  unfolding structure
  structure-too_long h = ground arith
