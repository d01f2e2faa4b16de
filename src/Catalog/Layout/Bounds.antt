-- ===== src/Catalog/Layout/Bounds.antt =====
-- The envelope of a layout of crates/stm32wb-catalog/src/layout.rs bounds the size of every encoding.
use native.Mathlib.Nat.{mul-le-mul_left}
use stm32wb_hci.Prelude.{
  ℕ, ◌+◌, ◌*◌, ◌≤◌, ◌≡◌, refl, sym, Bool, true, false, ◌||◌, List, [], ◌∷◌, arith, if◌then◌else◌,
}
use stm32wb_hci.Catalog.Layout.{
  width, FieldType, scalar, struct, array, counted, union, optional, Field, Structs, find, Outcome,
  ok, err, ◌>>=◌, not_optional, struct_width, element_width, require_scalar_reference, union_bounds,
  field_bounds, is_optional, insert, envelope_loop, envelope,
}
use stm32wb_hci.Catalog.Layout.Variants.{IsWidthOf, bind_gives, union_bounds-within}

module _ (structs : Structs) (fuel : ℕ) where
  -- The sizes of a field that is sent.
  abbrev pub FieldSize : FieldType → ℕ → Type 0
  FieldSize (scalar s) x = x ≡ width s
  FieldSize (struct name) x = struct_width structs fuel name ≡ ok x
  FieldSize (array element len) x =
      (w : ℕ) × (element_width structs fuel element ≡ ok w) × (x ≡ w * len)
  FieldSize (counted element count capacity) x =
      (w : ℕ) × (n : ℕ) × (n ≤ capacity) × (element_width structs fuel element ≡ ok w) × (x ≡ w * n)
  FieldSize (union selector variants) x = IsWidthOf x variants
  FieldSize (optional s) x = x ≡ width s

  -- The sizes of a layout: the fields one behind the other, up to an optional one that is left out with
  -- all behind it.
  pub data Size : List Field → ℕ → Type 0 where
    empty : Size [] 0
    sent :
        {field : Field} {fields : List Field} (x y : ℕ)
        → FieldSize field.ty x
        → Size fields y
        → Size (field ∷ fields) (x + y)
    omitted :
        {field : Field} {fields : List Field}
        → is_optional structs fuel field.ty ≡ true
        → Size (field ∷ fields) 0

  -- Two results of one computation.
  same_result : {A : Type 0} {r : Outcome A} {a b : A} → r ≡ ok a → r ≡ ok b → a ≡ b
  same_result h k = cc

  field_bounds-within :
      (earlier : List (ℕ × FieldType)) (ty : FieldType) (lo hi x : ℕ)
      → field_bounds structs fuel earlier ty ≡ ok (lo, hi)
      → FieldSize ty x
      → (lo ≤ x) × (x ≤ hi)
  unfolding field_bounds
  field_bounds-within earlier (scalar s) lo hi x e h =
      let l : width s ≡ lo = cc in
      let m : width s ≡ hi = cc in (omega (arith, l, h), omega (arith, m, h))
  field_bounds-within earlier (struct name) lo hi x e h =
      let (size, p, q) = bind_gives (λ size. ok (size, size)) (struct_width structs fuel name) e in
      let l : size ≡ lo = cc in
      let m : size ≡ hi = cc in
      let s = same_result p h in (omega (arith, l, s), omega (arith, m, s))
  field_bounds-within earlier (array element len) lo hi x e (w, r, y) =
      let (size, p, q) =
        bind_gives (λ size. ok (size * len, size * len)) (element_width structs fuel element) e in
      let l : size * len ≡ lo = cc in
      let m : size * len ≡ hi = cc in
      let s : x ≡ size * len = rw (same_result p r) y in (omega (arith, l, s), omega (arith, m, s))
  field_bounds-within earlier (counted element count capacity) lo hi x e (w, n, most, r, y) =
      let (one, p, q) =
        bind_gives (λ one. element_width structs fuel element >>= λ size. ok (0, size * capacity))
          (require_scalar_reference structs fuel earlier count) e in
      let (size, p', q') =
        bind_gives (λ size. ok (0, size * capacity)) (element_width structs fuel element) q in
      let l : 0 ≡ lo = cc in
      let m : size * capacity ≡ hi = cc in
      let s : x ≡ size * n = rw (same_result p' r) y in
      (omega (arith, l), omega (arith, m, s, mul-le-mul_left size most))
  field_bounds-within earlier (union selector variants) lo hi x e h =
      let (one, p, q) =
        bind_gives (λ one. union_bounds structs fuel variants)
          (require_scalar_reference structs fuel earlier selector) e in
      union_bounds-within structs fuel variants lo hi x q h
  field_bounds-within earlier (optional s) lo hi x e h =
      let l : 0 ≡ lo = cc in let m : width s ≡ hi = cc in (omega (arith, l), omega (arith, m, h))

  -- A turn of the loop that goes on.
  Turn : Field → List Field → ℕ → ℕ → List (ℕ × FieldType) → Bool → ℕ → ℕ → Type 0
  Turn field fields min max earlier seen lo hi =
      (field_min : ℕ) × (field_max : ℕ) × (earlier' : List (ℕ × FieldType)) × (field_bounds structs
          fuel earlier field.ty
        ≡ ok (field_min, field_max))
      × (envelope_loop structs fuel fields (min + field_min) (max + field_max) earlier'
            (seen || is_optional structs fuel field.ty)
          ≡ ok (lo, hi))
      × (seen ≡ true → is_optional structs fuel field.ty ≡ true)

  loop_turn :
      (field : Field) (fields : List Field) (min max : ℕ) (earlier : List (ℕ × FieldType))
      (seen : Bool) (lo hi : ℕ)
      → envelope_loop structs fuel (field ∷ fields) min max earlier seen ≡ ok (lo, hi)
      → Turn field fields min max earlier seen lo hi
  unfolding envelope_loop Turn
  loop_turn field fields min max earlier seen lo hi h =
      let (checked, p, h₁) =
        bind_gives _
          (if seen
            then (if is_optional structs fuel field.ty then ok tt else err not_optional)
            else ok (tt {0}))
          h in
      let (bounds, q, h₂) = bind_gives _ (field_bounds structs fuel earlier field.ty) h₁ in
      let (earlier', r, h₃) =
        bind_gives _ (insert structs fuel earlier field (find field.name earlier)) h₂ in
      (
        bounds.0,
        bounds.1,
        earlier',
        q,
        h₃,
        λ yes_seen. only_optional seen (is_optional structs fuel field.ty) yes_seen p,
      )
    where
      only_optional :
          (seen opt : Bool)
          → seen ≡ true
          → (if seen then (if opt then ok tt else err not_optional) else ok (tt {0})) ≡ ok tt
          → opt ≡ true
      only_optional true true s p = refl
      only_optional true false s p = cc
      only_optional false opt s p = cc

  optional_min :
      (earlier : List (ℕ × FieldType)) (ty : FieldType) (lo hi : ℕ)
      → is_optional structs fuel ty ≡ true
      → field_bounds structs fuel earlier ty ≡ ok (lo, hi)
      → lo ≡ 0
  unfolding field_bounds
  optional_min earlier (scalar s) lo hi o h = cc
  optional_min earlier (struct name) lo hi o h = cc
  optional_min earlier (array element len) lo hi o h = cc
  optional_min earlier (counted element count capacity) lo hi o h = cc
  optional_min earlier (union selector variants) lo hi o h = cc
  optional_min earlier (optional s) lo hi o h = cc

  at_end :
      (min max : ℕ) (earlier : List (ℕ × FieldType)) (seen : Bool) (lo hi : ℕ)
      → envelope_loop structs fuel [] min max earlier seen ≡ ok (lo, hi)
      → (min ≡ lo) × (max ≡ hi)
  unfolding envelope_loop
  at_end min max earlier seen lo hi h = (cc, cc)

  -- The maximum only grows, and behind an optional field the minimum stays.
  loop_ends :
      (fields : List Field) (min max : ℕ) (earlier : List (ℕ × FieldType)) (seen : Bool) (lo hi : ℕ)
      → envelope_loop structs fuel fields min max earlier seen ≡ ok (lo, hi)
      → (max ≤ hi) × (seen ≡ true → lo ≡ min)
  unfolding Turn
  loop_ends [] min max earlier seen lo hi h =
      let (l, m) = at_end min max earlier seen lo hi h in (omega (arith, m), λ s. sym l)
  loop_ends (field ∷ fields) min max earlier seen lo hi h =
      let (field_min, field_max, earlier', b, next, only) =
        loop_turn field fields min max earlier seen lo hi h in
      let (grows, stays) =
        loop_ends fields (min + field_min) (max + field_max) earlier'
          (seen || is_optional structs fuel field.ty) lo hi next in
      (
        omega (arith, grows),
        λ s.
            let still : (seen || is_optional structs fuel field.ty) ≡ true = rw s refl in
            omega
              (arith, stays still, optional_min earlier field.ty field_min field_max (only s) b),
      )

  or-true : (a : Bool) {b : Bool} → b ≡ true → (a || b) ≡ true
  or-true true h = refl
  or-true false h = h

  loop_within :
      (fields : List Field) (min max : ℕ) (earlier : List (ℕ × FieldType)) (seen : Bool)
      (lo hi x : ℕ)
      → envelope_loop structs fuel fields min max earlier seen ≡ ok (lo, hi)
      → Size fields x
      → (lo ≤ min + x) × (max + x ≤ hi)
  unfolding Turn
  loop_within [] min max earlier seen lo hi x h empty =
      let (l, m) = at_end min max earlier seen lo hi h in (omega (arith, l), omega (arith, m))
  loop_within (field ∷ fields) min max earlier seen lo hi x h (sent a b size others) =
      let (field_min, field_max, earlier', e, next, only) =
        loop_turn field fields min max earlier seen lo hi h in
      let (low, high) = field_bounds-within earlier field.ty field_min field_max a e size in
      let (l, m) =
        loop_within fields (min + field_min) (max + field_max) earlier'
          (seen || is_optional structs fuel field.ty) lo hi b next others in
      (omega (arith, low, l), omega (arith, high, m))
  loop_within (field ∷ fields) min max earlier seen lo hi x h (omitted o) =
      let (field_min, field_max, earlier', e, next, only) =
        loop_turn field fields min max earlier seen lo hi h in
      let (grows, stays) =
        loop_ends fields (min + field_min) (max + field_max) earlier'
          (seen || is_optional structs fuel field.ty) lo hi next in
      let still : (seen || is_optional structs fuel field.ty) ≡ true = or-true seen o in
      (
        omega (arith, stays still, optional_min earlier field.ty field_min field_max o e),
        omega (arith, (loop_ends (field ∷ fields) min max earlier seen lo hi h).0),
      )

  -- The size of every encoding of a layout, whose trailing optional fields may be left out, is within the
  -- envelope that `envelope` computes.
  pub envelope_within :
      (fields : List Field) (lo hi x : ℕ)
      → envelope structs fuel fields ≡ ok (lo, hi)
      → Size fields x
      → (lo ≤ x) × (x ≤ hi)
  unfolding envelope
  envelope_within fields lo hi x h size =
      let (l, m) = loop_within fields 0 0 [] false lo hi x h size in
      (omega (arith, l), omega (arith, m))
