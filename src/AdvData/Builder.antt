-- ===== src/AdvData/Builder.antt =====
-- A chain of the builder's methods, as the example in the header of crates/stm32wb-hci/src/adv_data.rs
-- makes one, and the local name structure.
use mathlib.Core.List.{append_assoc, append-nil, flatten}
use stm32wb_hci.Prelude.{
  ℕ, suc, ◌+◌, ◌≤◌, ◌<◌, ◌≡◌, ◌⊎◌, inl, inr, refl, Bool, false, some, List, [], ◌∷◌, ◌++◌, map,
  length, replicate, arith, ltb, if◌then◌else◌, lt→ltb, length-replicate,
}
use native.Mathlib.Decide.{dec_le}
use stm32wb_hci.Prelude.Bytes.{to_le_bytes}
use stm32wb_hci.AdvData.{
  AdvData, Outcome, ok, err, panic, ◌>>=◌, local_name, too_long, structure, as_bytes, empty,
  uuid16_list,
}
use stm32wb_hci.AdvData.Methods
use stm32wb_hci.AdvData.Methods.{local_name_structure}
use stm32wb_hci.AdvData.Write.{write_slice-Extends, Extends-trans}
use stm32wb_hci.AdvData.Append.{IsWellFormed}
use stm32wb_hci.AdvData.Uuids.{uuid_bytes}
use stm32wb_hci.AdvData.Structures.{
  Structure, read_structures, read_structures-nil, structure_reads, uuid16_list_reads,
}

-- One call of a method, with its arguments.
pub data Call : Type 0 where
  structure_of : ℕ → List (List ℕ) → Call
  flags appearance tx_power_level : ℕ → Call
  complete_local_name shortened_local_name : List ℕ → Call
  complete_uuid16_list incomplete_uuid16_list : List ℕ → Call
  complete_uuid128_list incomplete_uuid128_list : List (List ℕ) → Call
  peripheral_conn_interval_range : ℕ → ℕ → Call
  service_data_uuid16 manufacturer_specific_data : ℕ → List ℕ → Call

module _ (n : ℕ) where
  unfoldable pub run : AdvData → Call → Outcome AdvData
  run self (structure_of t parts) = structure n self t parts
  run self (flags bits) = Methods.flags n self bits
  run self (appearance value) = Methods.appearance n self value
  run self (tx_power_level dbm) = Methods.tx_power_level n self dbm
  run self (complete_local_name name) = Methods.complete_local_name n self name
  run self (shortened_local_name name) = Methods.shortened_local_name n self name
  run self (complete_uuid16_list uuids) = Methods.complete_uuid16_list n self uuids
  run self (incomplete_uuid16_list uuids) = Methods.incomplete_uuid16_list n self uuids
  run self (complete_uuid128_list uuids) = Methods.complete_uuid128_list n self uuids
  run self (incomplete_uuid128_list uuids) = Methods.incomplete_uuid128_list n self uuids
  run self (peripheral_conn_interval_range min max) =
      Methods.peripheral_conn_interval_range n self min max
  run self (service_data_uuid16 uuid content) = Methods.service_data_uuid16 n self uuid content
  run self (manufacturer_specific_data company content) =
      Methods.manufacturer_specific_data n self company content

  unfoldable pub run_all : AdvData → List Call → Outcome AdvData
  run_all self [] = ok self
  run_all self (call ∷ calls) = do self ← run self call; run_all self calls

-- The AD structure that the Core Specification Supplement gives to a call.
unfoldable pub described : Call → Structure
described (structure_of t parts) = (t, flatten parts)
described (flags bits) = (0x01, bits ∷ [])
described (appearance value) = (0x19, to_le_bytes 2 value)
described (tx_power_level dbm) = (0x0a, to_le_bytes 1 dbm)
described (complete_local_name name) = (0x09, name)
described (shortened_local_name name) = (0x08, name)
described (complete_uuid16_list uuids) = (0x03, uuid_bytes uuids)
described (incomplete_uuid16_list uuids) = (0x02, uuid_bytes uuids)
described (complete_uuid128_list uuids) = (0x07, flatten uuids)
described (incomplete_uuid128_list uuids) = (0x06, flatten uuids)
described (peripheral_conn_interval_range min max) = (0x12, to_le_bytes 2 min ++ to_le_bytes 2 max)
described (service_data_uuid16 uuid content) = (0x16, to_le_bytes 2 uuid ++ content)
described (manufacturer_specific_data company content) = (0xff, to_le_bytes 2 company ++ content)

-- What the steps of the chain keep: the value is well formed, and holds these structures.
pub record Holds (n : ℕ) (self : AdvData) (xs : List Structure) : Type 0 where
  pub well_formed : IsWellFormed n self
  pub reads : read_structures (as_bytes n self) ≡ some xs

-- A chain that succeeds succeeds in its first call, and then in the others.
first_succeeds :
    {A B : Type 0} {made : B} (others : A → Outcome B) (first : Outcome A)
    → (first >>= others) ≡ ok made
    → (between : A) × (first ≡ ok between) × (others between ≡ ok made)
first_succeeds others (ok between) ran = (between, refl, ran)
first_succeeds others (err e) ran = cc
first_succeeds others panic ran = cc

module _ (n : ℕ) (self self' : AdvData) (xs : List Structure) (h : Holds n self xs) where
  step_structure :
      (t : ℕ) (parts : List (List ℕ)) (content : List ℕ)
      → flatten parts ≡ content
      → structure n self t parts ≡ ok self'
      → Holds n self' (xs ++ ((t, content) ∷ []))
  step_structure t parts content c e =
      let (wf, r) = structure_reads n self self' t parts xs h.well_formed h.reads e in
      record { well_formed = wf; reads = rw (← c) r }

  step_uuids :
      (t : ℕ) (uuids : List ℕ)
      → uuid16_list n self t uuids ≡ ok self'
      → Holds n self' (xs ++ ((t, uuid_bytes uuids) ∷ []))
  step_uuids t uuids e =
      let (wf, r) = uuid16_list_reads n self self' t uuids xs h.well_formed h.reads e in
      record { well_formed = wf; reads = r }

  run-Holds :
      (call : Call) → run n self call ≡ ok self' → Holds n self' (xs ++ (described call ∷ []))
  unfolding run described flatten Methods.flags Methods.appearance Methods.tx_power_level
      Methods.complete_local_name Methods.shortened_local_name Methods.complete_uuid16_list
      Methods.incomplete_uuid16_list Methods.complete_uuid128_list Methods.incomplete_uuid128_list
      Methods.peripheral_conn_interval_range Methods.service_data_uuid16
      Methods.manufacturer_specific_data
  run-Holds (structure_of t parts) e = step_structure t parts (flatten parts) refl e
  run-Holds (flags bits) e = step_structure 0x01 ((bits ∷ []) ∷ []) (bits ∷ []) refl e
  run-Holds (appearance value) e = step_structure 0x19 _ _ (append-nil (to_le_bytes 2 value)) e
  run-Holds (tx_power_level dbm) e = step_structure 0x0a _ _ (append-nil (to_le_bytes 1 dbm)) e
  run-Holds (complete_local_name name) e = step_structure 0x09 _ _ (append-nil name) e
  run-Holds (shortened_local_name name) e = step_structure 0x08 _ _ (append-nil name) e
  run-Holds (complete_uuid16_list uuids) e = step_uuids 0x03 uuids e
  run-Holds (incomplete_uuid16_list uuids) e = step_uuids 0x02 uuids e
  run-Holds (complete_uuid128_list uuids) e = step_structure 0x07 _ _ (append-nil (flatten uuids)) e
  run-Holds (incomplete_uuid128_list uuids) e =
      step_structure 0x06 _ _ (append-nil (flatten uuids)) e
  run-Holds (peripheral_conn_interval_range min max) e =
      step_structure 0x12 _ _ (rw (append-nil (to_le_bytes 2 max))) e
  run-Holds (service_data_uuid16 uuid content) e =
      step_structure 0x16 _ _ (rw (append-nil content)) e
  run-Holds (manufacturer_specific_data company content) e =
      step_structure 0xff _ _ (rw (append-nil content)) e

run_all-Holds :
    (n : ℕ) (calls : List Call) (self self' : AdvData) (xs : List Structure)
    → Holds n self xs
    → run_all n self calls ≡ ok self'
    → Holds n self' (xs ++ map described calls)
unfolding run_all
run_all-Holds n [] self self' xs h e = let same : self ≡ self' = cc in rw (append-nil xs, ← same) h
run_all-Holds n (call ∷ calls) self self' xs h e =
    let (next, e₁, e₂) = first_succeeds (λ self. run_all n self calls) (run n self call) e in
    rw append_assoc at (
      run_all-Holds n calls next self' (xs ++ (described call ∷ []))
        (run-Holds n self next xs h call e₁) e₂)

empty-Holds : (n : ℕ) → Holds n (empty n) []
unfolding empty as_bytes
empty-Holds n = record {
  well_formed = record { capacity = length-replicate n 0; within = omega arith };
  reads = read_structures-nil;
}

-- Whatever chain of the builder's methods succeeds on new data of capacity `n`, a reader of the result
-- finds the structures that the Supplement gives to the calls, in order, and the data fits the capacity.
pub run_all_reads :
    (n : ℕ) (calls : List Call) (self : AdvData)
    → run_all n (empty n) calls ≡ ok self
    → (read_structures (as_bytes n self) ≡ some (map described calls)) × (self.len ≤ n)
run_all_reads n calls self e =
    let h = run_all-Holds n calls (empty n) self [] (empty-Holds n) e in
    (h.reads, h.well_formed.within)

-- Either the name fits, and `local_name_structure` makes the name's type and the name, or it does not,
-- and it is refused with its size.
pub local_name_structure_lem :
    (n : ℕ) (name : List ℕ) (complete : Bool)
    → ((1 + length name ≤ n)
        × ((self : AdvData) × (local_name_structure n name complete ≡ ok self)
            × (as_bytes n self ≡ (if complete then 0x09 else 0x08) ∷ name)))
      ⊎ ((n < 1 + length name)
          × (local_name_structure n name complete ≡ err (too_long n local_name (1 + length name))))
unfolding local_name_structure as_bytes
local_name_structure_lem n name complete = elim (dec_le (1 + length name) n) [
  | yes fits ↦
      let t : ℕ = if complete then 0x09 else 0x08 in
      let (b₁, e₁, x₁) =
        write_slice-Extends (replicate n 0) (t ∷ []) 0
          (omega (arith, length-replicate {A = ℕ} n 0)) in
      let (b₂, e₂, x₂) =
        write_slice-Extends b₁ name 1
          (omega (arith, x₁.same_length, length-replicate {A = ℕ} n 0)) in
      let x = Extends-trans (replicate n 0) b₁ b₂ 0 (t ∷ []) name x₁ x₂ in
      let room : ltb n (1 + length name) ≡ false = ground arith in
      let size : 1 + length name ≡ 0 + suc (length name) = omega arith in
      inl (fits, (record { bytes = b₂; len = 1 + length name }, rw (room, e₁, e₂), rw size x.front))
  | no over ↦ let full : n < 1 + length name = omega arith in inr (full, rw (lt→ltb _ _ full))
]
