-- ===== src/Wire/Types/Enums.antt =====
-- The enums that `wire_values!` declares: each variant is read back, and nothing else is accepted.
use stm32wb_hci.Prelude.{
  ℕ, suc, ◌+◌, ◌^◌, ◌<◌, ◌≡◌, ◌≢◌, ◌⊎◌, ap, refl, sym, true, false, Option, none, some, List, [],
  ◌∷◌, ◌++◌, arith, inl, inr, ◌==◌, ltb, length, set, replicate, Bool-cases, ==_iff, ◌∙◌,
  length-append,
}
use mathlib.Core.List.{append_assoc}
use stm32wb_hci.Prelude.Bytes.{to_le_bytes}
use stm32wb_hci.Wire.Decoding.{Result, ok, err, invalid_value, Decoder, IsLittleEndian}
use stm32wb_hci.Wire.Types.{
  IsLawful, In, ok?, enum_try_from, enum_value, enum_write, enum_decode, present_count,
  present_loop, present,
}

ok?-some : {A : Type 0} (r : Result A) (a : A) → ok? r ≡ some a → r ≡ ok a
ok?-some (ok b) a h = cc
ok?-some (err e) a h = cc

module _ {V : Type 0} (as_repr : V → ℕ) where
  enum_try_from-ok :
      (all : List V) (raw : ℕ) (v : V)
      → enum_try_from as_repr all raw ≡ ok v
      → (as_repr v ≡ raw) × In v all
  unfolding enum_try_from
  enum_try_from-ok [] raw v h = cc
  enum_try_from-ok (x ∷ all) raw v h = elim (Bool-cases (raw == as_repr x)) [
    | inl here ↦
        let same : v ≡ x = cc (rw here at h) in (rw same (sym ((==_iff _ _).0 here)), inl same)
    | inr there ↦ let (e, m) = enum_try_from-ok all raw v (rw there at h) in (e, inr m)
  ]

  enum_try_from-err :
      (all : List V) (raw : ℕ)
      → ((v : V) → In v all → as_repr v ≢ raw)
      → enum_try_from as_repr all raw ≡ err invalid_value
  unfolding enum_try_from
  enum_try_from-err [] raw none_of = refl
  enum_try_from-err (x ∷ all) raw none_of =
      let differs : (raw == as_repr x) ≡ false = ground (arith, none_of x (inl refl)) in
      rw differs (enum_try_from-err all raw (λ v m. none_of v (inr m)))

  enum_try_from-In :
      (all : List V) (v : V)
      → ((x y : V) → as_repr x ≡ as_repr y → x ≡ y)
      → In v all
      → enum_try_from as_repr all (as_repr v) ≡ ok v
  unfolding enum_try_from
  enum_try_from-In [] v distinct m = elim m [ ]
  enum_try_from-In (x ∷ all) v distinct m = elim (Bool-cases (as_repr v == as_repr x)) [
    | inl here ↦ rw here (let e : v ≡ x = distinct v x ((==_iff _ _).0 here) in rw e)
    | inr there ↦ rw there (enum_try_from-In all v distinct (later m there))
  ]
    where
      later : (v ≡ x) ⊎ In v all → (as_repr v == as_repr x) ≡ false → In v all
      later (inl e) no_match = absurd (ground (arith, ap as_repr e))
      later (inr m) no_match = m

  -- An integer that is no discriminant of the target is an invalid value.
  pub enum_decode_invalid :
      (all : List V) (width : ℕ) (decode_raw : Decoder ℕ)
      → IsLittleEndian width decode_raw
      → (raw : ℕ) (rest : List ℕ) → raw < 256 ^ width
      → ((v : V) → In v all → as_repr v ≢ raw)
      → enum_decode as_repr all decode_raw (to_le_bytes width raw ++ rest) ≡ err invalid_value
  unfolding enum_decode
  enum_decode_invalid all width decode_raw le raw rest fits none_of =
      rw (le.reads raw rest fits, enum_try_from-err all raw none_of)

  module _ (all : List V) (distinct : (x y : V) → as_repr x ≡ as_repr y → x ≡ y) where
    -- An enum whose discriminants differ decodes each variant of the target from its discriminant,
    -- and anything that it decodes is a variant of the target with that discriminant.
    pub enum_value-IsLawful : IsLawful (λ v. In v all) (enum_value as_repr all)
    enum_value-IsLawful = record {
      reads = λ v m. rw (enum_try_from-In all v distinct m);
      keeps = λ raw v e. (enum_try_from-ok all raw v (ok?-some _ v e)).0;
      valid = λ raw v e. (enum_try_from-ok all raw v (ok?-some _ v e)).1;
    }

    -- A variant of the target that is written is read back, and what follows it is left.
    pub enum_decode-enum_write :
        (width : ℕ) (decode_raw : Decoder ℕ)
        → IsLittleEndian width decode_raw
        → (v : V) (rest : List ℕ) → In v all
        → as_repr v < 256 ^ width
        → enum_decode as_repr all decode_raw (enum_write as_repr all width v ++ rest) ≡ ok (v, rest)
    unfolding enum_decode enum_write
    enum_decode-enum_write width decode_raw le v rest m fits =
        rw (le.reads (as_repr v) rest fits, enum_try_from-In all v distinct m)

module _ {A : Type 0} where
  -- The present items, in order.
  unfoldable pub present_items : List (Option A) → List A
  present_items [] = []
  present_items (none ∷ all) = present_items all
  present_items (some item ∷ all) = item ∷ present_items all

  present_items-none : (all : List (Option A)) → present_count all ≡ 0 → present_items all ≡ []
  unfolding present_count present_items
  present_items-none [] h = refl
  present_items-none (none ∷ all) h = present_items-none all (omega (arith, h))
  present_items-none (some item ∷ all) h = absurd (omega (arith, h))

  set-append :
      (xs ys : List A) (a b : A) → set (xs ++ (a ∷ ys)) (length xs) b ≡ (xs ++ (b ∷ [])) ++ ys
  set-append [] ys a b = refl
  set-append (x ∷ xs) ys a b = rw (set-append xs ys a b)

  present_loop-fills :
      (all : List (Option A)) (filled : List A) (n count : ℕ) (z : A)
      → count ≡ length filled
      → n ≡ count + present_count all
      → present_loop n all count (filled ++ replicate (present_count all) z)
        ≡ filled ++ present_items all
  unfolding present_loop present_count present_items
  present_loop-fills [] filled n count z hc hn = refl
  present_loop-fills (none ∷ all) filled n count z hc hn =
      let count_none : 0 + present_count all ≡ present_count all = omega arith in
      elim (Bool-cases (ltb count n)) [
        | inl room ↦
            rw (room, count_none) (present_loop-fills all filled n count z hc (omega (arith, hn)))
        | inr full ↦
            let rest : present_count all ≡ 0 = ground (arith, hn) in
            rw (full, count_none, rest, present_items-none all rest)
      ]
  present_loop-fills (some item ∷ all) filled n count z hc hn =
      let count_some : 1 + present_count all ≡ suc (present_count all) = omega arith in
      let room : ltb count n ≡ true = ground (arith, hn) in
      let filled' : List A = filled ++ (item ∷ []) in
      let write : set (filled ++ (z ∷ replicate (present_count all) z)) count item
          ≡ filled' ++ replicate (present_count all) z =
        rw hc (set-append filled (replicate (present_count all) z) z item) in
      rw (room, count_some, write)
        (present_loop-fills all filled' n (count + 1) z
            (omega (arith, hc, length-append filled (item ∷ []))) (omega (arith, hn))
          ∙ append_assoc filled (item ∷ []) (present_items all))

  -- With as many places as there are present items, `present` lists them in order.
  pub present-present_items :
      (all : List (Option A)) (z : A) → present all (present_count all) z ≡ present_items all
  unfolding present
  present-present_items all z = present_loop-fills all [] (present_count all) 0 z refl (omega arith)
