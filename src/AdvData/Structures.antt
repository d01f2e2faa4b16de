-- ===== src/AdvData/Structures.antt =====
-- Advertising data as a list of AD structures: a reader of the format of the Core Specification
-- Supplement, and what the builder's methods do to what it reads.
use mathlib.Core.List.{append_assoc, flatten}
use native.Mathlib.Decide.{dec_le}
use stm32wb_hci.Prelude.{
  ◌≢◌, ℕ, zero, suc, ◌+◌, ◌-◌, ◌*◌, ◌≡◌, inl, inr, refl, ◌∙◌, false, Option, none, some, List, [],
  ◌∷◌, ◌++◌, length, arith, ◌==◌, if◌then◌else◌,
}
use stm32wb_hci.AdvData.{AdvData, ok, panic, parts_len, structure, as_bytes, uuid16_list}
use stm32wb_hci.AdvData.Append.{
  IsWellFormed, Appends, ad_structure, structure-Appends, structure-too_long,
}
use stm32wb_hci.AdvData.Uuids.{uuid_bytes, uuid16_list-Appends}

abbrev pub Structure : Type 0
Structure = ℕ × List ℕ

-- Where a reader is: before a length, before a type with that many bytes of data to come, or in the
-- data of a type with one more byte to come than the number says.
data Mode : Type 0 where
  start : Mode
  kind : ℕ → Mode
  body : ℕ → ℕ → List ℕ → Mode

abbrev add_structure : Structure → Option (List Structure) → Option (List Structure)
add_structure s none = none
add_structure s (some rest) = some (s ∷ rest)

read : Mode → List ℕ → Option (List Structure)
read start [] = some []
read (kind n) [] = none
read (body t n content) [] = none
read start (size ∷ bytes) = if size == 0 then none else read (kind (size - 1)) bytes
read (kind zero) (t ∷ bytes) = add_structure (t, []) (read start bytes)
read (kind (suc n)) (t ∷ bytes) = read (body t n []) bytes
read (body t zero content) (b ∷ bytes) = add_structure (t, content ++ (b ∷ [])) (read start bytes)
read (body t (suc n) content) (b ∷ bytes) = read (body t n (content ++ (b ∷ []))) bytes

pub read_structures : List ℕ → Option (List Structure)
read_structures bytes = read start bytes

pub read_structures-nil : read_structures [] ≡ some []
unfolding read_structures read
read_structures-nil = refl

add_structure-append :
    (s : Structure) (o o' : Option (List Structure)) (xs ys : List Structure)
    → add_structure s o ≡ some xs
    → ((zs : List Structure) → o ≡ some zs → o' ≡ some (zs ++ ys))
    → add_structure s o' ≡ some (xs ++ ys)
add_structure-append s none o' xs ys h k = cc
add_structure-append s (some zs) o' xs ys h k = let e : (s ∷ zs) ≡ xs = cc in rw (k zs refl, ← e)

read-append :
    (m : Mode) (bs cs : List ℕ) (xs ys : List Structure)
    → read m bs ≡ some xs
    → read start cs ≡ some ys
    → read m (bs ++ cs) ≡ some (xs ++ ys)
unfolding read
read-append start [] cs xs ys h k = ground (arith, h, k)
read-append (kind n) [] cs xs ys h k = cc
read-append (body t n content) [] cs xs ys h k = cc
read-append start (size ∷ bs) cs xs ys h k =
    ground (arith, read-append (kind (size - 1)) bs cs xs ys)
read-append (kind zero) (t ∷ bs) cs xs ys h k =
    add_structure-append (t, []) (read start bs) (read start (bs ++ cs)) xs ys h
      (λ zs q. read-append start bs cs zs ys q k)
read-append (kind (suc n)) (t ∷ bs) cs xs ys h k = read-append (body t n []) bs cs xs ys h k
read-append (body t zero content) (b ∷ bs) cs xs ys h k =
    add_structure-append (t, content ++ (b ∷ [])) (read start bs) (read start (bs ++ cs)) xs ys h
      (λ zs q. read-append start bs cs zs ys q k)
read-append (body t (suc n) content) (b ∷ bs) cs xs ys h k =
    read-append (body t n (content ++ (b ∷ []))) bs cs xs ys h k

read-body :
    (t n : ℕ) (seen content : List ℕ)
    → length content ≡ suc n
    → read (body t n seen) content ≡ some ((t, seen ++ content) ∷ [])
unfolding read
read-body t n seen [] h = absurd (omega (arith, h))
read-body t zero seen (b ∷ []) h = refl
read-body t zero seen (b ∷ c ∷ content) h = absurd (omega (arith, h))
read-body t (suc n) seen (b ∷ content) h =
    read-body t n (seen ++ (b ∷ [])) content (omega (arith, h)) ∙ rw append_assoc

read-ad_structure :
    (t : ℕ) (content : List ℕ) → read start (ad_structure t content) ≡ some ((t, content) ∷ [])
unfolding read
read-ad_structure t [] = refl
read-ad_structure t (b ∷ content) =
    let size : (suc (length content) + 1 == 0) ≡ false = ground arith in
    let rest : suc (length content) + 1 - 1 ≡ suc (length content) = omega arith in
    rw (size, rest) (read-body t (length content) [] (b ∷ content) refl)

-- What appending one structure does to what is read.
read_structures-Appends :
    (n t : ℕ) (content : List ℕ) (self self' : AdvData) (xs : List Structure)
    → read_structures (as_bytes n self) ≡ some xs
    → Appends n self (ad_structure t content) self'
    → read_structures (as_bytes n self') ≡ some (xs ++ ((t, content) ∷ []))
unfolding read_structures
read_structures-Appends n t content self self' xs h x = rw x.content (
    read-append start (as_bytes n self) (ad_structure t content) xs _ h
      (read-ad_structure t content))

-- When `structure` succeeds, a reader of the result finds the structures of before, and then one of that
-- type whose data is the concatenation of the parts; the result is well formed again.
pub structure_reads :
    (n : ℕ) (self self' : AdvData) (t : ℕ) (parts : List (List ℕ)) (xs : List Structure)
    → IsWellFormed n self
    → read_structures (as_bytes n self) ≡ some xs
    → structure n self t parts ≡ ok self'
    → IsWellFormed n self'
      × (read_structures (as_bytes n self') ≡ some (xs ++ ((t, flatten parts) ∷ [])))
structure_reads n self self' t parts xs wf h e = elim (dec_le (self.len + 2 + parts_len parts) n) [
  | yes fits ↦ elim (dec_le (parts_len parts) 254) [
    | yes short ↦
        let (made, e', l, x) = structure-Appends n self t parts wf fits short in
        let same : made ≡ self' = cc in
        rw (← same) (x.well_formed, read_structures-Appends n t (flatten parts) self made xs h x)
    | no long ↦ cc (structure-too_long n self t parts (inr (omega arith)), e)
  ]
  | no full ↦ cc (structure-too_long n self t parts (inl (omega arith)), e)
]

-- When `uuid16_list` succeeds, the same holds of one structure of the UUIDs' little-endian bytes, as
-- `structure` would append it.
pub uuid16_list_reads :
    (n : ℕ) (self self' : AdvData) (t : ℕ) (uuids : List ℕ) (xs : List Structure)
    → IsWellFormed n self
    → read_structures (as_bytes n self) ≡ some xs
    → uuid16_list n self t uuids ≡ ok self'
    → IsWellFormed n self'
      × (read_structures (as_bytes n self') ≡ some (xs ++ ((t, uuid_bytes uuids) ∷ [])))
unfolding uuid16_list
uuid16_list_reads n self self' t uuids xs wf h e =
    elim (dec_le (self.len + 2 + 2 * length uuids) n) [
      | yes fits ↦ elim (dec_le (length uuids) 127) [
        | yes few ↦
            let (made, e', x) = uuid16_list-Appends n self t uuids wf fits few in
            let same : made ≡ self' = cc in
            rw (← same)
              (x.well_formed, read_structures-Appends n t (uuid_bytes uuids) self made xs h x)
        | no many ↦ absurd (ground (arith, e))
      ]
      | no full ↦ absurd (ground (arith, e))
    ]

-- No method panics: `structure` and `uuid16_list` succeed or refuse on every well-formed value.
pub builder_returns :
    (n : ℕ) (self : AdvData) (t : ℕ) (parts : List (List ℕ)) (uuids : List ℕ)
    → IsWellFormed n self
    → (structure n self t parts ≢ panic) × (uuid16_list n self t uuids ≢ panic)
unfolding uuid16_list
builder_returns n self t parts uuids wf = (
  elim (dec_le (self.len + 2 + parts_len parts) n) [
    | yes fits ↦ elim (dec_le (parts_len parts) 254) [
      | yes short ↦
          let (made, e, l, x) = structure-Appends n self t parts wf fits short in rw e (λ bad. cc)
      | no long ↦ rw (structure-too_long n self t parts (inr (omega arith))) (λ bad. cc)
    ]
    | no full ↦ rw (structure-too_long n self t parts (inl (omega arith))) (λ bad. cc)
  ],
  elim (dec_le (self.len + 2 + 2 * length uuids) n) [
    | yes fits ↦ elim (dec_le (length uuids) 127) [
      | yes few ↦
          let (made, e, x) = uuid16_list-Appends n self t uuids wf fits few in λ bad. cc (bad, e)
      | no many ↦ λ bad. ground (arith, bad)
    ]
    | no full ↦ λ bad. ground (arith, bad)
  ],
)
