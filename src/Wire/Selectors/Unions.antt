-- ===== src/Wire/Selectors/Unions.antt =====
-- What `union_matches` of crates/stm32wb-hci/src/wire.rs checks, and what it gives for a `Uuid`.
use stm32wb_hci.Prelude.{
  ℕ, ◌*◌, ◌/◌, ◌^◌, ◌<◌, ◌≡◌, ◌≢◌, ◌⊎◌, inl, inr, refl, ap, true, false, not, ◌&&◌, Bool-cases,
  Option, none, some, List, [], ◌∷◌, ◌++◌, arith, length, ltb, ◌==◌,
}
use stm32wb_hci.Prelude.Bytes.{All, length-to_le_bytes}
use stm32wb_hci.Wire.Selectors.{
  catalog_width, is_width, variants_match, union_matches, Uuid, uuid16, uuid128, uuid_variants,
  selector, size, write_hci,
}

-- The catalog encodes this selector with this width: its last alternative of the selector has the width,
-- or it lists none and the width is the default.
abbrev pub Encodes : List (ℕ × ℕ) → Option ℕ → ℕ → ℕ → Type 0
Encodes explicit default selector width =
    ((before : List (ℕ × ℕ)) × (behind : List (ℕ × ℕ)) × (explicit
        ≡ before ++ ((selector, width) ∷ behind))
      × All (λ e. e.0 ≢ selector) behind)
    ⊎ (All (λ e. e.0 ≢ selector) explicit × (default ≡ some width))

-- The selector fits the bytes of its member.
abbrev pub FitsMember : ℕ → ℕ → Type 0
FitsMember selector_width selector = selector_width < 8 → selector / 2 ^ (8 * selector_width) ≡ 0

catalog_width-Encodes :
    (explicit : List (ℕ × ℕ)) (default : Option ℕ) (selector width : ℕ)
    → catalog_width selector explicit default ≡ some width
    → Encodes explicit default selector width
unfolding catalog_width
catalog_width-Encodes [] default selector width h = inr (tt, h)
catalog_width-Encodes ((e, x) ∷ explicit) default selector width h =
    elim (Bool-cases (e == selector)) [
      | inl same ↦
          here (ground (arith, same))
            (catalog_width-Encodes explicit (some x) selector width (rw same at h))
      | inr other ↦
          there (ground (arith, other))
            (catalog_width-Encodes explicit default selector width (rw other at h))
    ]
  where
    here :
        e ≡ selector
        → Encodes explicit (some x) selector width
        → Encodes ((e, x) ∷ explicit) default selector width
    here same (inl (before, behind, q, absent)) =
        inl ((e, x) ∷ before, behind, ap (λ l. (e, x) ∷ l) q, absent)
    here same (inr (absent, q)) =
        let w : x ≡ width = cc in inl ([], explicit, rw (same, w) refl, absent)

    there :
        e ≢ selector
        → Encodes explicit default selector width
        → Encodes ((e, x) ∷ explicit) default selector width
    there ne (inl (before, behind, q, absent)) =
        inl ((e, x) ∷ before, behind, ap (λ l. (e, x) ∷ l) q, absent)
    there ne (inr (absent, q)) = inr ((ne, absent), q)

is_width-eq : (o : Option ℕ) (width : ℕ) → is_width o width ≡ true → o ≡ some width
is_width-eq none width h = cc
is_width-eq (some w) width h = let e : w ≡ width = ground (arith, h) in rw e refl

variants_match-All :
    (explicit : List (ℕ × ℕ)) (default : Option ℕ) (selector_width : ℕ) (variants : List (ℕ × ℕ))
    → variants_match explicit default selector_width variants ≡ true
    → All (λ v. FitsMember selector_width v.0 × Encodes explicit default v.0 v.1) variants
unfolding variants_match
variants_match-All explicit default sw [] h = tt
variants_match-All explicit default sw ((s, w) ∷ variants) h =
    elim (Bool-cases (ltb sw 8 && not (s / 2 ^ (8 * sw) == 0))) [
      | inl over ↦ absurd (no_match (rw over at h))
      | inr fits ↦ elim (Bool-cases (is_width (catalog_width s explicit default) w)) [
        | inr other ↦ absurd (no_match (rw (fits, other) at h))
        | inl same ↦ (
          (
            λ small. ground (arith, fits, small),
            catalog_width-Encodes explicit default s w
                (is_width-eq (catalog_width s explicit default) w same),
          ),
          variants_match-All explicit default sw variants (rw (fits, same) at h),
        )
      ]
    ]
  where
    no_match : false ≡ true → ⊥
    no_match q = cc

-- A declared union that `union_matches` accepts is encoded as the catalog says: every selector fits its
-- member, and the catalog gives every alternative of the type its width.
pub union_matches_sound :
    (variants explicit : List (ℕ × ℕ)) (default : Option ℕ) (selector_width : ℕ)
    → union_matches variants explicit default selector_width ≡ true
    → All (λ v. FitsMember selector_width v.0 × Encodes explicit default v.0 v.1) variants
unfolding union_matches
union_matches_sound variants explicit default sw h =
    elim (Bool-cases (variants_match explicit default sw variants)) [
      | inl matches ↦ variants_match-All explicit default sw variants matches
      | inr other ↦ absurd (no_match (rw other at h))
    ]
  where
    no_match : false ≡ true → ⊥
    no_match q = cc

abbrev pub IsUuid : Uuid → Type 0
IsUuid uuid = elim uuid [ uuid16 x ↦ x < 65536 | uuid128 bytes ↦ length bytes ≡ 16 ]

-- Where `union_matches` accepts `Uuid`, `write_hci` of a UUID writes `size` bytes, and as many as the
-- catalog gives to the UUID's selector.
pub uuid_width :
    (explicit : List (ℕ × ℕ)) (default : Option ℕ) (selector_width : ℕ) (uuid : Uuid)
    → union_matches uuid_variants explicit default selector_width ≡ true
    → IsUuid uuid
    → (length (write_hci uuid) ≡ size uuid)
      × Encodes explicit default (selector uuid) (length (write_hci uuid))
unfolding write_hci size selector
uuid_width explicit default sw (uuid16 x) h u =
    let (one, two) = union_matches_sound uuid_variants explicit default sw h in
    (length-to_le_bytes 2 x, rw (length-to_le_bytes 2 x) one.1)
uuid_width explicit default sw (uuid128 bytes) h u =
    let (one, two) = union_matches_sound uuid_variants explicit default sw h in (u, rw u two.0.1)
