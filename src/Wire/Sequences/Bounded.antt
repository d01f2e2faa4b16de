-- ===== src/Wire/Sequences/Bounded.antt =====
-- `BoundedArray` of crates/stm32wb-hci/src/wire.rs is a list of at most `max_len` elements.
use stm32wb_hci.Prelude.{
  ℕ, zero, suc, ◌+◌, ◌≤◌, ◌<◌, ◌≡◌, ◌⊎◌, inl, inr, refl, ◌∙◌, ap, false, true, Option, none, some,
  List, [], ◌∷◌, ◌++◌, arith, length, set, take, drop, replicate, length-append, length-drop,
  length-replicate, length-set, ltb, ◌==◌,
}
use native.Mathlib.Decide.{dec_lt, dec_le}
use stm32wb_hci.Wire.Decoding.{invalid_size, ok, err}
use stm32wb_hci.Wire.Sequences.{BoundedArray, default, filled, new, get_or_insert, push, as_slice}

-- An array that is there has `max_len` slots, of which `len` are used; none is used before it is there.
abbrev pub Fits : {T : Type 0} → ℕ → Option (List T) → ℕ → Type 0
Fits max_len none len = len ≡ 0
Fits max_len (some elements) len = (length elements ≡ max_len) × (len ≤ max_len)

-- The value stands for this list.
pub record Holds {T : Type 0} (max_len : ℕ) (self : BoundedArray T) (xs : List T) : Type 0 where
  pub fits : Fits max_len self.elements self.len
  pub content : as_slice self ≡ xs

module _ {T : Type 0} where
  take-append : (xs ys : List T) → take (length xs) (xs ++ ys) ≡ xs
  take-append [] ys = refl
  take-append (x ∷ xs) ys = rw (take-append xs ys)

  take-set :
      (xs : List T) (n : ℕ) (x : T)
      → n < length xs
      → take (suc n) (set xs n x) ≡ take n xs ++ (x ∷ [])
  take-set [] n x h = absurd (omega (arith, h))
  take-set (y ∷ xs) zero x h = refl
  take-set (y ∷ xs) (suc n) x h = ap (λ l. y ∷ l) (take-set xs n x (omega (arith, h)))

  one_more : (xs : List T) (n : ℕ) → take (n + 1) xs ≡ take (suc n) xs
  one_more xs n = let e : n + 1 ≡ suc n = omega arith in rw e refl

  length-take_le : (n : ℕ) (xs : List T) → n ≤ length xs → length (take n xs) ≡ n
  length-take_le zero xs h = refl
  length-take_le (suc n) [] h = absurd (omega (arith, h))
  length-take_le (suc n) (x ∷ xs) h = omega (arith, length-take_le n xs (omega (arith, h)))

module _ {T : Type 0} (max_len : ℕ) where
  -- `default` holds no element.
  default-Holds : Holds {T = T} max_len default []
  unfolding default as_slice
  default-Holds = record { fits = refl; content = refl }

  filled-Holds : (xs : List T) → length xs ≤ max_len → Holds max_len (filled max_len xs) xs
  unfolding as_slice
  filled-Holds [] h = default-Holds
  filled-Holds (x ∷ xs) h = record {
    fits = (
      omega (
        arith,
        h,
        length-append (x ∷ xs) (drop (suc (length xs)) (replicate max_len x)),
        length-drop (suc (length xs)) (replicate max_len x),
        length-replicate max_len x,
      ),
      h,
    );
    content = take-append (x ∷ xs) (drop (suc (length xs)) (replicate max_len x));
  }

  -- `new` takes a list of at most `max_len` elements, and refuses a longer one.
  pub new_lem :
      (xs : List T)
      → ((length xs ≤ max_len)
          × ((self : BoundedArray T) × (new max_len xs ≡ ok self) × Holds max_len self xs))
        ⊎ ((max_len < length xs) × (new max_len xs ≡ err invalid_size))
  unfolding new
  new_lem xs = elim (dec_le (length xs) max_len) [
    | yes fits ↦
        (let room : ltb max_len (length xs) ≡ false = ground arith in
          inl (fits, (filled max_len xs, rw room refl, filled-Holds xs fits)))
    | no over ↦
        (let over' : max_len < length xs = omega arith in
          let full : ltb max_len (length xs) ≡ true = ground (arith, over') in
          inr (over', rw full refl))
  ]

  Fits-len :
      (elements : Option (List T)) (len : ℕ) (xs : List T)
      → Fits max_len elements len
      → as_slice (record { elements = elements; len = len }) ≡ xs
      → (len ≡ length xs) × (len ≤ max_len)
  unfolding as_slice
  Fits-len none len xs h c =
      let e : length {A = T} [] ≡ length xs = ap length c in (omega (arith, h, e), omega (arith, h))
  Fits-len (some slots) len xs h c =
      let e : length (take len slots) ≡ length xs = ap length c in
      (omega (arith, e, length-take_le len slots (omega (arith, h.0, h.1))), h.1)

  pushed-Holds :
      (elements : Option (List T)) (len : ℕ) (xs : List T) (x : T)
      → Fits max_len elements len
      → as_slice (record { elements = elements; len = len }) ≡ xs
      → len < max_len
      → Holds max_len
          (record {
            elements = some (set (get_or_insert elements (replicate max_len x)) len x);
            len = len + 1;
          })
          (xs ++ (x ∷ []))
  unfolding as_slice
  pushed-Holds none len xs x h c room =
      let size = length-replicate max_len x in
      record {
        fits = (length-set (replicate max_len x) len x ∙ size, omega (arith, room));
        content =
            one_more (set (replicate max_len x) len x) len
            ∙ take-set (replicate max_len x) len x (omega (arith, size, room))
            ∙ ap (λ ys. ys ++ (x ∷ [])) (ap (λ n. take n (replicate max_len x)) h ∙ c);
      }
  pushed-Holds (some slots) len xs x h c room = record {
    fits = (length-set slots len x ∙ h.0, omega (arith, room));
    content =
        one_more (set slots len x) len
        ∙ take-set slots len x (omega (arith, h.0, room))
        ∙ ap (λ ys. ys ++ (x ∷ [])) c;
  }

  -- `push` appends to a list of fewer than `max_len` elements, and refuses once there are as many.
  pub push_lem :
      (self : BoundedArray T) (xs : List T) (x : T)
      → Holds max_len self xs
      → ((length xs < max_len)
          × ((self' : BoundedArray T) × (push max_len self x ≡ ok self')
              × Holds max_len self' (xs ++ (x ∷ []))))
        ⊎ ((length xs ≡ max_len) × (push max_len self x ≡ err invalid_size))
  unfolding push
  push_lem self xs x h =
      let (size, most) = Fits-len self.elements self.len xs h.fits h.content in
      elim (dec_lt self.len max_len) [
        | yes fits ↦
            (let room : (self.len == max_len) ≡ false = ground (arith, fits) in
              inl (
                omega (arith, size, fits),
                (_, rw room refl, pushed-Holds self.elements self.len xs x h.fits h.content fits),
              ))
        | no over ↦
            (let same : self.len ≡ max_len = omega (arith, most) in
              let full : (self.len == max_len) ≡ true = ground (arith, same) in
              inr (omega (arith, size, same), rw full refl))
      ]
