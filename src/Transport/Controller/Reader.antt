-- ===== src/Transport/Controller/Reader.antt =====
-- What a turn of `read` of examples/embassy/src/transport.rs keeps, on each of its branches.
use mathlib.Core.List.{append-nil}
use stm32wb_hci.Prelude.{
  ℕ, ◌≡◌, refl, sym, Bool, true, false, Option, none, some, List, ◌++◌, ◌==◌, arith, Bool-cases,
  inl, inr,
}
use stm32wb_hci.Wire.Decoding.{Result, ok, err}
use stm32wb_hci.Transport.Controller.Api.{
  BtHci, BtHciLaws, CommandComplete, CommandStatus, Packet, command_complete_event,
  command_status_event, other_event, other_packet, SignalApi, SignalLaws,
}
use stm32wb_hci.Transport.Controller.{
  EvtBox, Controller, drop_evt, set_signal, signal_slot, signal_cmd, replace_pending, read_complete,
  read_status, read_packet, read_turn,
}
use stm32wb_hci.Transport.Controller.Invariant.{
  Completes, by_complete, by_status, Signalled, Blocks, managed_one, accounted, drop_evt-eq,
  Completes-managed, drop_unmanaged, set_signal-eq, replace_pending-eq,
}

-- What a turn keeps of the adapter, and the packets of the memory manager that it accounts for.
pub record Keeps {S : Type 0} (api : SignalApi S (Option EvtBox)) (bt : BtHci)
    (self self' : Controller S) (evts : List EvtBox) : Type 0 where
  pub same_slot : self'.slot ≡ self.slot
  pub signalled : Signalled bt self'.slot (api.holds self'.signal)
  pub blocks : Blocks self'.cc_no_status self'.pending_evt
  pub adds : accounted self' ≡ accounted self ++ evts

Blocks-some : (cc : Bool) (evt : EvtBox) → Blocks cc (some evt)
Blocks-some false evt = tt
Blocks-some true evt = tt

module _ {S : Type 0} (api : SignalApi S (Option EvtBox)) (bt : BtHci) (laws : BtHciLaws bt)
    (signal_laws : SignalLaws api) where
  module _ (self : Controller S) (evt : EvtBox) (idle : self.pending_evt ≡ none)
      (signalled : Signalled bt self.slot (api.holds self.signal))
      (blocks : Blocks self.cc_no_status self.pending_evt) where
    drop-Keeps : Keeps api bt self (drop_evt api self evt) (managed_one evt)
    drop-Keeps = rw (drop_evt-eq api self evt) (record {
      same_slot = refl;
      signalled = signalled;
      blocks = blocks;
      adds = rw (idle, append-nil, append-nil) refl;
    })

    replace-Keeps :
        (cc : Bool)
        → Keeps api bt self
            (replace_pending api (record self { cc_no_status = cc }) evt)
            (managed_one evt)
    replace-Keeps cc =
        rw (replace_pending-eq api (record self { cc_no_status = cc }) evt idle) (record {
          same_slot = refl;
          signalled = signalled;
          blocks = Blocks-some cc evt;
          adds = rw (idle, append-nil) refl;
        })

    signal-Keeps :
        (value : Option EvtBox) (opcode : ℕ)
        → Completes bt evt opcode
        → Signalled bt self.slot (some value)
        → Keeps api bt self (set_signal api self value) (managed_one evt)
    signal-Keeps value opcode c s =
        rw (set_signal-eq api bt laws self value signalled, Completes-managed bt laws evt opcode c)
          (record {
            same_slot = refl;
            signalled = rw (signal_laws.holds-signal value self.signal) s;
            blocks = blocks;
            adds = sym (append-nil _);
          })

    -- A packet that is neither signalled nor pending, and is not the memory manager's.
    ignore-Keeps : (opcode : ℕ) → Completes bt evt opcode → Keeps api bt self self (managed_one evt)
    ignore-Keeps opcode c = rw (Completes-managed bt laws evt opcode c) (record {
      same_slot = refl;
      signalled = signalled;
      blocks = blocks;
      adds = sym (append-nil _);
    })

    signal_at-Keeps :
        (opcode : ℕ) (slot : Option ℕ)
        → Completes bt evt opcode
        → self.slot ≡ slot
        → Keeps api bt self (signal_slot api bt self opcode evt slot) (managed_one evt)
    signal_at-Keeps opcode none c e =
        rw (drop_unmanaged api bt laws self evt opcode c) (ignore-Keeps opcode c)
    signal_at-Keeps opcode (some waiting) c e = elim (Bool-cases (waiting == opcode)) [
      | inl same ↦
          let same' : waiting ≡ opcode = ground (arith, same) in
          rw same (signal-Keeps (some evt) opcode c (rw (e, same') c))
      | inr other ↦ elim (Bool-cases (opcode == bt.reset_opcode)) [
        | inl reset ↦
            rw (other, reset, drop_unmanaged api bt laws (set_signal api self none) evt opcode c)
              (signal-Keeps none opcode c (rw e tt))
        | inr neither ↦
            rw (other, neither, drop_unmanaged api bt laws self evt opcode c)
              (ignore-Keeps opcode c)
      ]
    ]

    signal_cmd-Keeps :
        (opcode : ℕ)
        → Completes bt evt opcode
        → Keeps api bt self (signal_cmd api bt self opcode evt) (managed_one evt)
    unfolding signal_cmd
    signal_cmd-Keeps opcode c = signal_at-Keeps opcode self.slot c refl

    complete-Keeps :
        (pkt : Packet) (params : List ℕ) (r : Result CommandComplete)
        → bt.parse_packet evt.serial ≡ ok (command_complete_event params)
        → bt.parse_complete params ≡ r
        → Keeps api bt self (read_complete api bt self evt pkt r).0 (managed_one evt)
    complete-Keeps pkt params (err e) p q = drop-Keeps
    complete-Keeps pkt params (ok e) p q = elim (Bool-cases (bt.has_status e)) [
      | inl has ↦ rw has (signal_cmd-Keeps e.cmd_opcode (by_complete params e p q refl))
      | inr lacks ↦ rw lacks (replace-Keeps true)
    ]

    status-Keeps :
        (params : List ℕ) (r : Result CommandStatus)
        → bt.parse_packet evt.serial ≡ ok (command_status_event params)
        → bt.parse_status params ≡ r
        → Keeps api bt self (read_status api bt self evt r).0 (managed_one evt)
    status-Keeps params (err e) p q = drop-Keeps
    status-Keeps params (ok e) p q = signal_cmd-Keeps e.cmd_opcode (by_status params e p q refl)

    packet-Keeps :
        (r : Result Packet)
        → bt.parse_packet evt.serial ≡ r
        → Keeps api bt self (read_packet api bt self evt r).0 (managed_one evt)
    packet-Keeps (err e) p = drop-Keeps
    packet-Keeps (ok (command_complete_event params)) p =
        complete-Keeps (command_complete_event params) params (bt.parse_complete params) p refl
    packet-Keeps (ok (command_status_event params)) p =
        status-Keeps params (bt.parse_status params) p refl
    packet-Keeps (ok (other_event code params)) p = replace-Keeps self.cc_no_status
    packet-Keeps (ok (other_packet bytes)) p = replace-Keeps self.cc_no_status

    -- A turn of `read` leaves the slot as it was, signals a command only its own packet, blocks commands
    -- only with a pending event, and accounts for the packet it received.
    pub read_turn-Keeps : Keeps api bt self (read_turn api bt self evt).0 (managed_one evt)
    unfolding read_turn
    read_turn-Keeps = packet-Keeps (bt.parse_packet evt.serial) refl
