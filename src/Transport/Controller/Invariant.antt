-- ===== src/Transport/Controller/Invariant.antt =====
-- What the fields of the adapter mean at every await, and what its operations keep.
use mathlib.Core.List.{append_assoc, append-nil}
use stm32wb_hci.Prelude.{
  ℕ, ◌≡◌, refl, Bool, true, false, Option, none, some, List, [], ◌∷◌, ◌++◌, if◌then◌else◌, arith,
  Bool-cases, inl, inr,
}
use stm32wb_hci.Wire.Decoding.{ok}
use stm32wb_hci.Transport.Controller.Api.{
  BtHci, BtHciLaws, CommandComplete, CommandStatus, command_complete_event, command_status_event,
  SignalApi,
}
use stm32wb_hci.Transport.Controller.{
  EvtBox, Controller, is_managed, drop_evt, drop_option, drop_signalled, drop_guard, set_signal,
  begin_turn, replace_pending,
}

-- The packet completes a command of this opcode.
pub data Completes (bt : BtHci) (evt : EvtBox) (opcode : ℕ) : Type 0 where
  by_complete :
      (params : List ℕ) (e : CommandComplete)
      → bt.parse_packet evt.serial ≡ ok (command_complete_event params)
      → bt.parse_complete params ≡ ok e
      → e.cmd_opcode ≡ opcode
      → Completes bt evt opcode
  by_status :
      (params : List ℕ) (e : CommandStatus)
      → bt.parse_packet evt.serial ≡ ok (command_status_event params)
      → bt.parse_status params ≡ ok e
      → e.cmd_opcode ≡ opcode
      → Completes bt evt opcode

-- The signal holds a value only while the slot is taken, and a packet only of the slot's opcode.
abbrev pub Signalled : BtHci → Option ℕ → Option (Option EvtBox) → Type 0
Signalled bt slot none = Unit
Signalled bt none (some value) = ⊥
Signalled bt (some opcode) (some none) = Unit
Signalled bt (some opcode) (some (some evt)) = Completes bt evt opcode

-- While an event without status blocks the commands, it is pending.
abbrev pub Blocks : Bool → Option EvtBox → Type 0
Blocks false pending = Unit
Blocks true none = ⊥
Blocks true (some evt) = Unit

-- The packets of the memory manager among these.
abbrev pub managed_one : EvtBox → List EvtBox
managed_one evt = if is_managed evt then evt ∷ [] else []

abbrev pub managed_pending : Option EvtBox → List EvtBox
managed_pending none = []
managed_pending (some evt) = managed_one evt

unfoldable pub managed : List EvtBox → List EvtBox
managed [] = []
managed (evt ∷ evts) = managed_one evt ++ managed evts

pub managed-append : (xs ys : List EvtBox) → managed (xs ++ ys) ≡ managed xs ++ managed ys
unfolding managed
managed-append [] ys = refl
managed-append (x ∷ xs) ys = rw (managed-append xs ys, append_assoc)

pub managed-one : (evt : EvtBox) → managed (evt ∷ []) ≡ managed_one evt
unfolding managed
managed-one evt = append-nil (managed_one evt)

module _ {S : Type 0} where
  -- The packets that the memory manager has been given, and the pending one if it is to get it.
  abbrev pub accounted : Controller S → List EvtBox
  accounted self = self.released ++ managed_pending self.pending_evt

  pub drop_evt-eq :
      (api : SignalApi S (Option EvtBox)) (self : Controller S) (evt : EvtBox)
      → drop_evt api self evt ≡ record self { released = self.released ++ managed_one evt }
  unfolding drop_evt
  drop_evt-eq api self evt = elim (Bool-cases (is_managed evt)) [
    | inl kept ↦ rw kept refl
    | inr none_kept ↦ rw (none_kept, append-nil self.released) refl
  ]

module _ (bt : BtHci) (laws : BtHciLaws bt) (evt : EvtBox) (opcode : ℕ) where
  -- A packet that completes a command is no packet of the memory manager.
  pub Completes-managed : Completes bt evt opcode → is_managed evt ≡ false
  unfolding is_managed
  Completes-managed (by_complete params e p q r) =
      let code = laws.complete_code evt.serial params p in ground (arith, code)
  Completes-managed (by_status params e p q r) =
      let code = laws.status_code evt.serial params p in ground (arith, code)

module _ {S : Type 0} (api : SignalApi S (Option EvtBox)) (bt : BtHci) (laws : BtHciLaws bt)
    (self : Controller S) where
  pub drop_unmanaged :
      (evt : EvtBox) (opcode : ℕ) → Completes bt evt opcode → drop_evt api self evt ≡ self
  unfolding drop_evt
  drop_unmanaged evt opcode c = rw (Completes-managed bt laws evt opcode c) refl

  pub drop_signalled-eq :
      (slot : Option ℕ) (o : Option (Option EvtBox))
      → Signalled bt slot o
      → drop_signalled api self o ≡ self
  drop_signalled-eq slot none h = refl
  drop_signalled-eq slot (some none) h = refl
  drop_signalled-eq none (some (some evt)) h = elim h [ ]
  drop_signalled-eq (some opcode) (some (some evt)) h = drop_unmanaged evt opcode h

  pub drop_guard-eq :
      Signalled bt self.slot (api.holds self.signal)
      → drop_guard api self ≡ record self { slot = none; signal = api.reset self.signal }
  unfolding drop_guard
  drop_guard-eq h = rw (drop_signalled-eq self.slot (api.holds self.signal) h) refl

  pub set_signal-eq :
      (value : Option EvtBox)
      → Signalled bt self.slot (api.holds self.signal)
      → set_signal api self value ≡ record self { signal = api.signal value self.signal }
  unfolding set_signal
  set_signal-eq value h = rw (drop_signalled-eq self.slot (api.holds self.signal) h) refl

module _ {S : Type 0} (api : SignalApi S (Option EvtBox)) (self : Controller S) where
  drop_option-eq :
      (o : Option EvtBox)
      → drop_option api self o ≡ record self { released = self.released ++ managed_pending o }
  drop_option-eq none = rw (append-nil self.released) refl
  drop_option-eq (some evt) = drop_evt-eq api self evt

  pub begin_turn-eq :
      begin_turn api self
      ≡ record self { pending_evt = none; cc_no_status = false; released = accounted self }
  unfolding begin_turn
  begin_turn-eq = rw (drop_option-eq self.pending_evt) refl

  pub replace_pending-eq :
      (evt : EvtBox)
      → self.pending_evt ≡ none
      → replace_pending api self evt ≡ record self { pending_evt = some evt }
  unfolding replace_pending
  replace_pending-eq evt h = rw h refl
