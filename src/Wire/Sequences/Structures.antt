-- ===== src/Wire/Sequences/Structures.antt =====
-- `Elements` of crates/stm32wb-hci/src/wire.rs: the elements of a decoded list can all be read.
use native.Mathlib.Decide.{dec_lt}
use native.Mathlib.Nat.{suc-mul, mul-div_cancel, mul-le-mul_right, mul-le-mul_left}
use stm32wb_hci.Prelude.{
  ℕ, zero, suc, ◌+◌, ◌*◌, ◌^◌, ◌≤◌, ◌<◌, ◌≡◌, ◌⊎◌, inl, inr, refl, sym, ◌∙◌, ap, false, Bool-cases,
  none, some, List, [], ◌∷◌, ◌++◌, arith, length, take, drop, length-take, length-drop,
  take-append-drop, ltb, ltb→lt, lt→ltb, le→leb, leb,
}
use stm32wb_hci.Wire.Decoding.{invalid_size, Result, ok, err}
use stm32wb_hci.Wire.Sequences.{
  returns, checked, chunks_exact, check_chunks, decode, element, element_at, get, get_start,
  get_end, element_count, unchecked, split_at, decode_len,
}

drop-drop : (a b : ℕ) (xs : List ℕ) → drop a (drop b xs) ≡ drop (b + a) xs
drop-drop a zero xs = let e : 0 + a ≡ a = omega arith in rw e refl
drop-drop a (suc b) [] = let e : suc b + a ≡ suc (b + a) = omega arith in rw e (drop-none a)
  where
    drop-none : (a : ℕ) → drop {A = ℕ} a [] ≡ []
    drop-none zero = refl
    drop-none (suc a) = refl
drop-drop a (suc b) (x ∷ xs) =
    let e : suc b + a ≡ suc (b + a) = omega arith in rw e (drop-drop a b xs)

checked-small : (bits n : ℕ) → n < 2 ^ bits → checked bits n ≡ some n
unfolding checked
checked-small bits n h = rw (lt→ltb _ _ h) refl

checked-cases :
    (bits n : ℕ) → ((n < 2 ^ bits) × (checked bits n ≡ some n)) ⊎ (checked bits n ≡ none)
unfolding checked
checked-cases bits n = elim (Bool-cases (ltb n (2 ^ bits))) [
  | inl small ↦ inl (ltb→lt _ _ small, rw small refl)
  | inr over ↦ inr (rw over refl)
]

mul-le_of : {width : ℕ} → 0 < width → (count : ℕ) → count ≤ count * width
mul-le_of wide count = omega (arith, mul-le-mul_left {m = 1} count wide)

module _ {T : Type 0} (bits width : ℕ) (decode_complete : List ℕ → Result T) where
  first_ok :
      (chunk : List ℕ) (chunks : List (List ℕ))
      → check_chunks bits width decode_complete (chunk ∷ chunks) ≡ ok tt
      → ((x : T) × (decode_complete chunk ≡ ok x))
        × (check_chunks bits width decode_complete chunks ≡ ok tt)
  unfolding check_chunks
  first_ok chunk chunks h = first (decode_complete chunk) refl h
    where
      first :
          (r : Result T)
          → decode_complete chunk ≡ r
          → elim r [ ok element ↦ check_chunks bits width decode_complete chunks | err e ↦ err e ]
            ≡ ok tt
          → ((x : T) × (decode_complete chunk ≡ ok x))
            × (check_chunks bits width decode_complete chunks ≡ ok tt)
      first (ok x) e h = ((x, e), h)
      first (err failure) e h = cc

  -- Every chunk that was checked decodes.
  chunk_ok :
      (index fuel : ℕ) (bytes : List ℕ)
      → index < fuel
      → index * width + width ≤ length bytes
      → check_chunks bits width decode_complete (chunks_exact fuel width bytes) ≡ ok tt
      → (x : T) × (decode_complete (take width (drop (index * width) bytes)) ≡ ok x)
  unfolding chunks_exact
  chunk_ok index zero bytes fuel_left size h = absurd (omega (arith, fuel_left))
  chunk_ok zero (suc fuel) bytes fuel_left size h =
      let whole : ltb (length bytes) width ≡ false = ground (arith, size) in
      let (here, others) =
        first_ok (take width bytes) (chunks_exact fuel width (drop width bytes)) (rw whole at h) in
      let none_before : 0 * width ≡ 0 = omega arith in rw none_before here
  chunk_ok (suc index) (suc fuel) bytes fuel_left size h =
      let step : suc index * width ≡ width + index * width = omega (arith, suc-mul index width) in
      let whole : ltb (length bytes) width ≡ false = ground (arith, size, step) in
      let (here, others) =
        first_ok (take width bytes) (chunks_exact fuel width (drop width bytes)) (rw whole at h) in
      rw (step, ← drop-drop (index * width) width bytes)
        (chunk_ok index fuel (drop width bytes) (omega (arith, fuel_left))
          (omega (arith, length-drop width bytes, size, step)) others)

  split_at_inv :
      (input : List ℕ) (size : ℕ) (r : Result (Unit {0})) (bytes rest : List ℕ)
      → split_at bits width decode_complete input size r ≡ ok (bytes, rest)
      → (take size input ≡ bytes) × (drop size input ≡ rest) × (r ≡ ok tt)
  split_at_inv input size (err e) bytes rest h = cc
  split_at_inv input size (ok all) bytes rest h = (cc, cc, refl)

  -- What a successful `decode` says.
  decode_inv :
      (input : List ℕ) (count : ℕ) (bytes rest : List ℕ)
      → decode bits width decode_complete input count ≡ ok (bytes, rest)
      → (count * width < 2 ^ bits)
        × (count * width ≤ length input)
        × (take (count * width) input ≡ bytes)
        × (drop (count * width) input ≡ rest)
        × (check_chunks bits width decode_complete
              (chunks_exact (length input) width (take (count * width) input))
            ≡ ok tt)
  unfolding decode
  decode_inv input count bytes rest h = elim (checked-cases bits (count * width)) [
    | inr over ↦ absurd (no_error (ap (decode_len bits width decode_complete input) (sym over) ∙ h))
    | inl (small, e) ↦ fitting small (ap (decode_len bits width decode_complete input) (sym e) ∙ h)
  ]
    where
      no_error : {A : Type 0} {a : A} → err invalid_size ≡ ok a → ⊥
      no_error q = cc

      fitting :
          count * width < 2 ^ bits
          → decode_len bits width decode_complete input (some (count * width)) ≡ ok (bytes, rest)
          → (count * width < 2 ^ bits)
            × (count * width ≤ length input)
            × (take (count * width) input ≡ bytes)
            × (drop (count * width) input ≡ rest)
            × (check_chunks bits width decode_complete
                  (chunks_exact (length input) width (take (count * width) input))
                ≡ ok tt)
      fitting small q = elim (Bool-cases (ltb (length input) (count * width))) [
        | inl short ↦ absurd (no_error (rw short at q))
        | inr enough ↦
            let all =
              check_chunks bits width decode_complete
                (chunks_exact (length input) width (take (count * width) input)) in
            let (front, behind, checks) =
              split_at_inv input (count * width) all bytes rest (rw enough at q) in
            (small, ground (arith, enough), front, behind, checks)
      ]

  element_at-inside :
      (bytes : List ℕ) (start : ℕ) (x : T)
      → start + width ≤ length bytes
      → decode_complete (take width (drop start bytes)) ≡ ok x
      → element_at bits width decode_complete bytes start (start + width) ≡ some (returns x)
  unfolding element_at element
  element_at-inside bytes start x fits e =
      let room = le→leb _ _ fits in
      rw room (ap (λ r. some (unchecked bits width decode_complete r)) e)

  element_at-outside :
      (bytes : List ℕ) (start : ℕ)
      → length bytes < start + width
      → element_at bits width decode_complete bytes start (start + width) ≡ none
  unfolding element_at
  element_at-outside bytes start past =
      let room : leb (start + width) (length bytes) ≡ false = ground (arith, past) in rw room refl

  get_inside :
      (index : ℕ) (bytes : List ℕ) (count fuel : ℕ)
      → index < count
      → length bytes ≡ count * width
      → count * width < 2 ^ bits
      → index < fuel
      → check_chunks bits width decode_complete (chunks_exact fuel width bytes) ≡ ok tt
      → (x : T) × (get bits width decode_complete bytes index ≡ some (returns x))
        × (decode_complete (take width (drop (index * width) bytes)) ≡ ok x)
  unfolding get
  get_inside index bytes count fuel inside size small enough checks =
      let end : index * width + width ≤ count * width =
        omega
          (arith, suc-mul index width, mul-le-mul_right {m = suc index} {n = count} width inside) in
      let (x, e) = chunk_ok index fuel bytes enough (omega (arith, size, end)) checks in
      (
        x,
        ap (get_start bits width decode_complete bytes)
              (checked-small bits (index * width) (omega (arith, end, small)))
            ∙ ap (get_end bits width decode_complete bytes (index * width))
                (checked-small bits (index * width + width) (omega (arith, end, small)))
            ∙ element_at-inside bytes (index * width) x (omega (arith, size, end)) e,
        e,
      )

  get_outside :
      (index : ℕ) (bytes : List ℕ) (count : ℕ)
      → count ≤ index
      → length bytes ≡ count * width
      → 0 < width
      → get bits width decode_complete bytes index ≡ none
  unfolding get
  get_outside index bytes count past size wide =
      let far : length bytes < index * width + width =
        omega (arith, size, wide, mul-le-mul_right width past) in
      elim (checked-cases bits (index * width)) [
        | inr over ↦ ap (get_start bits width decode_complete bytes) over
        | inl (small, e) ↦
            ap (get_start bits width decode_complete bytes) e
            ∙ (elim (checked-cases bits (index * width + width)) [
              | inr over ↦ ap (get_end bits width decode_complete bytes (index * width)) over
              | inl (small', e') ↦
                  ap (get_end bits width decode_complete bytes (index * width)) e'
                  ∙ element_at-outside bytes (index * width) far
            ])
      ]

  -- Whatever `decode` makes of `count` elements, the bytes are split in two, and `get` reads every one of
  -- the `count` elements, without a panic, and nothing past them; the width is that of some bytes.
  pub decode-get :
      (input : List ℕ) (count : ℕ) (bytes rest : List ℕ) (index : ℕ)
      → 0 < width
      → decode bits width decode_complete input count ≡ ok (bytes, rest)
      → (bytes ++ rest ≡ input)
        × (element_count bits width decode_complete bytes ≡ count)
        × (((index < count)
              × ((x : T) × (get bits width decode_complete bytes index ≡ some (returns x))
                  × (decode_complete (take width (drop (index * width) bytes)) ≡ ok x)))
            ⊎ ((count ≤ index) × (get bits width decode_complete bytes index ≡ none)))
  unfolding element_count
  decode-get input count bytes rest index wide h =
      let (small, enough, front, behind, checks) = decode_inv input count bytes rest h in
      let size : length bytes ≡ count * width =
        ap length (sym front) ∙ length-take (count * width) input ∙ omega (arith, enough) in
      (
        rw (← front, ← behind) (take-append-drop (count * width) input),
        rw size (mul-div_cancel count wide),
        elim (dec_lt index count) [
          | yes inside ↦ inl (
            inside,
            get_inside index bytes count (length input) inside size small
                (omega (arith, enough, mul-le_of wide count, inside)) (rw front at checks),
          )
          | no outside ↦
              let past : count ≤ index = omega arith in
              inr (past, get_outside index bytes count past size wide)
        ],
      )
