-- ===== src/AdvData/Uuids.antt =====
-- What `uuid16_list` does on every branch: it appends the structure of the UUIDs' bytes, or refuses.
use mathlib.Core.List.{append_assoc, flatten}
use stm32wb_hci.Prelude.{
  ℕ, suc, ◌+◌, ◌-◌, ◌*◌, ◌%◌, ◌≤◌, ◌≡◌, refl, sym, ◌∙◌, ap, true, false, ◌||◌, List, [], ◌∷◌, ◌++◌,
  map, length, take, drop, arith, le→leb, leb, ltb, length-append, length-take, take-append-drop,
  get_or,
}
use stm32wb_hci.Prelude.Bytes.{to_le_bytes, length-to_le_bytes}
use stm32wb_hci.AdvData.{
  AdvData, ok, write_slice, parts_len, as_bytes, uuid16_list, add_to_length, write_uuids,
}
use stm32wb_hci.AdvData.Write.{Extends, Extends-refl, take-all, write_slice-Extends, Extends-trans}
use stm32wb_hci.AdvData.Append.{IsWellFormed, Appends, ad_structure, structure-Appends}

two_bytes : (uuid : ℕ) → length (to_le_bytes 2 uuid) ≡ 2
two_bytes uuid = length-to_le_bytes 2 uuid

abbrev pub uuid_bytes : List ℕ → List ℕ
uuid_bytes uuids = flatten (map (to_le_bytes 2) uuids)

length-uuid_bytes : (uuids : List ℕ) → length (uuid_bytes uuids) ≡ 2 * length uuids
unfolding flatten
length-uuid_bytes [] = refl
length-uuid_bytes (uuid ∷ uuids) = omega (
  arith,
  length-append (to_le_bytes 2 uuid) (uuid_bytes uuids),
  two_bytes uuid,
  length-uuid_bytes uuids,
)

write_uuids-Extends :
    (n : ℕ) (uuids : List ℕ) (this : AdvData)
    → this.len + 2 * length uuids ≤ length this.bytes
    → (this' : AdvData) × (write_uuids n this uuids ≡ ok this')
      × (this'.len ≡ this.len + 2 * length uuids)
      × Extends this.bytes this.len (uuid_bytes uuids) this'.bytes
unfolding write_uuids flatten
write_uuids-Extends n [] this h = (this, refl, omega arith, Extends-refl this.bytes this.len)
write_uuids-Extends n (uuid ∷ uuids) this h =
    let (b, e, x) =
      write_slice-Extends this.bytes (to_le_bytes 2 uuid) this.len
        (omega (arith, two_bytes uuid)) in
    let (this', e', l', x') =
      write_uuids-Extends n uuids (record { bytes = b; len = this.len + 2 })
        (omega (arith, x.same_length)) in
    (
      this',
      rw (e, e'),
      omega (arith, l'),
      Extends-trans this.bytes b this'.bytes this.len (to_le_bytes 2 uuid) (uuid_bytes uuids) x
          (rw (two_bytes uuid) x'),
    )

module _ (a c : ℕ) (rest : List ℕ) where
  abbrev framed : List ℕ → ℕ → List ℕ
  framed xs b = (xs ++ (b ∷ c ∷ [])) ++ rest

  get_or-framed : (xs : List ℕ) → get_or (framed xs a) (length xs) 0 ≡ a
  get_or-framed [] = refl
  get_or-framed (x ∷ xs) = get_or-framed xs

  drop-framed : (xs : List ℕ) → drop (suc (length xs)) (framed xs a) ≡ c ∷ rest
  drop-framed [] = refl
  drop-framed (x ∷ xs) = drop-framed xs

  take-framed : (xs : List ℕ) → take (length xs) (framed xs a) ≡ xs
  take-framed [] = refl
  take-framed (x ∷ xs) = rw (take-framed xs)

  write_slice-framed :
      (xs : List ℕ) (b : ℕ) → write_slice (framed xs a) (length xs) (b ∷ []) ≡ ok (framed xs b)
  unfolding write_slice
  write_slice-framed xs b =
      let room : leb (length xs + 1) (length (framed xs a)) ≡ true =
        le→leb _ _
          (omega (arith, length-append (xs ++ (a ∷ c ∷ [])) rest, length-append xs (a ∷ c ∷ []))) in
      let next : length xs + 1 ≡ suc (length xs) = omega arith in
      rw (room, next, take-framed xs, drop-framed xs)
        (ap ok (sym (append_assoc xs (b ∷ c ∷ []) rest)))

add_to_length-framed :
    (n : ℕ) (this : AdvData) (ad_type : ℕ) (rest old : List ℕ) (count : ℕ)
    → this.bytes ≡ framed 1 ad_type rest old 1
    → this.len - 2 ≡ length old
    → count ≤ 127
    → add_to_length n this count
      ≡ ok (record { bytes = framed 1 ad_type rest old (2 * count + 1); len = this.len })
unfolding add_to_length
add_to_length-framed n this ad_type rest old count whole position few =
    let size : (1 + 2 * (count % 256) % 256) % 256 ≡ 2 * count + 1 = omega arith in
    rw (position, whole, get_or-framed, size, write_slice-framed)

module _ (n : ℕ) (self : AdvData) (ad_type : ℕ) (uuids : List ℕ) (wf : IsWellFormed n self) where
  length-as_bytes : length (as_bytes n self) ≡ self.len
  unfolding as_bytes
  length-as_bytes = omega (arith, length-take self.len self.bytes, wf.capacity, wf.within)

  -- The empty structure, with its length set to that of the UUIDs to come.
  add_to_length-opens :
      (this : AdvData)
      → length uuids ≤ 127
      → this.len ≡ self.len + 2
      → Appends n self (1 ∷ ad_type ∷ []) this
      → (this' : AdvData) × (add_to_length n this (length uuids) ≡ ok this')
        × (this'.len ≡ self.len + 2)
        × (length this'.bytes ≡ n)
        × (take (self.len + 2) this'.bytes
            ≡ as_bytes n self ++ ((2 * length uuids + 1) ∷ ad_type ∷ []))
  unfolding as_bytes
  add_to_length-opens this few l x =
      let old = as_bytes n self in
      let rest = drop (self.len + 2) this.bytes in
      let opened : take (self.len + 2) this.bytes ≡ old ++ (1 ∷ ad_type ∷ []) = rw l at x.content in
      let whole : this.bytes ≡ framed 1 ad_type rest old 1 =
        sym (take-append-drop (self.len + 2) this.bytes)
        ∙ ap (λ (front : List ℕ). front ++ rest) opened in
      let size = length-append old ((2 * length uuids + 1) ∷ ad_type ∷ []) in
      (
        record { bytes = framed 1 ad_type rest old (2 * length uuids + 1); len = this.len },
        add_to_length-framed n this ad_type rest old (length uuids) whole
            (omega (arith, l, length-as_bytes)) few,
        l,
        omega (
          arith,
          ap (λ (b : List ℕ). length b) whole,
          x.well_formed.capacity,
          size,
          length-append old (1 ∷ ad_type ∷ []),
          length-append (old ++ (1 ∷ ad_type ∷ [])) rest,
          length-append (old ++ ((2 * length uuids + 1) ∷ ad_type ∷ [])) rest,
        ),
        take-all (old ++ ((2 * length uuids + 1) ∷ ad_type ∷ [])) rest (self.len + 2)
            (omega (arith, size, length-as_bytes)),
      )

  no_parts : parts_len [] ≡ 0
  unfolding parts_len
  no_parts = refl

  nothing : flatten {A = ℕ} [] ≡ []
  unfolding flatten
  nothing = refl

  finished :
      (self' : AdvData) (bytes : List ℕ) (len : ℕ)
      → len ≡ self.len + 2
      → self'.len ≡ len + 2 * length uuids
      → length bytes ≡ n
      → take (self.len + 2) bytes ≡ as_bytes n self ++ ((2 * length uuids + 1) ∷ ad_type ∷ [])
      → Extends bytes len (uuid_bytes uuids) self'.bytes
      → self.len + 2 + 2 * length uuids ≤ n
      → Appends n self (ad_structure ad_type (uuid_bytes uuids)) self'
  unfolding as_bytes
  finished self' bytes len l l' c t x fits =
      let end : len + length (uuid_bytes uuids) ≡ self'.len =
        omega (arith, l', length-uuid_bytes uuids) in
      let size : length (uuid_bytes uuids) + 1 ≡ 2 * length uuids + 1 =
        omega (arith, length-uuid_bytes uuids) in
      record {
        well_formed = record { capacity = x.same_length ∙ c; within = omega (arith, l, l') };
        content = rw size (
            (rw end at x.front)
            ∙ ap (λ (front : List ℕ). front ++ uuid_bytes uuids) (rw (← l) at t)
            ∙ append_assoc (as_bytes n self) ((2 * length uuids + 1) ∷ ad_type ∷ [])
                (uuid_bytes uuids));
      }

  -- UUIDs that fit are appended as one structure of their little-endian bytes.
  pub uuid16_list-Appends :
      self.len + 2 + 2 * length uuids ≤ n
      → length uuids ≤ 127
      → (self' : AdvData) × (uuid16_list n self ad_type uuids ≡ ok self')
        × Appends n self (ad_structure ad_type (uuid_bytes uuids)) self'
  unfolding uuid16_list
  uuid16_list-Appends fits few =
      let (this, e, l, x) =
        structure-Appends n self ad_type [] wf (omega (arith, no_parts))
          (omega (arith, no_parts)) in
      let (opened, e', l', c', t) =
        add_to_length-opens this few (omega (arith, l, no_parts)) (rw nothing at x) in
      let (self', e'', l'', x'') = write_uuids-Extends n uuids opened (omega (arith, l', c')) in
      let room : (ltb n (self.len + 2 + 2 * length uuids) || ltb 127 (length uuids)) ≡ false =
        ground arith in
      (
        self',
        rw (room, e, e', e''),
        finished self' opened.bytes opened.len l' (l'') (c') t x'' fits,
      )
