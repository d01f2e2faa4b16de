-- ===== src/Transport/Controller/Safety.antt =====
-- Safety of the commands and of the packet buffers in examples/embassy/src/transport.rs, for every
-- interleaving of the reader's turns and the commands.
use mathlib.Core.Path.{subst}
use stm32wb_hci.Prelude.{ℕ, ◌≡◌, refl, sym, ◌∙◌, ap, Option, none, some, List, [], ◌∷◌, ◌++◌}
use stm32wb_hci.Wire.Decoding.{Result, ok, err}
use stm32wb_hci.Transport.Controller.Api.{
  BtHci, BtHciLaws, CommandCompleteWithStatus, SignalApi, SignalLaws,
}
use stm32wb_hci.Transport.Controller.{EvtBox, Controller, new}
use stm32wb_hci.Transport.Controller.Invariant.{
  Completes, by_complete, by_status, Signalled, Blocks, managed, accounted, drop_unmanaged,
}
use stm32wb_hci.Transport.Controller.Commands.{
  Answer, completed, refused, converted, complete_answer, status_answer, packet_answer,
  make_cc_with_cs, waiting, answered, Command, take_signal, with_answer, finish_exec, System,
  initial, after_answer, Step, grants, writes, takes, drops, begins, receives, stops, Reachable,
  start, next,
}
use stm32wb_hci.Transport.Controller.System.{
  Exclusive, Idle, IsInvariant, only_command, guard-IsInvariant, grants-IsInvariant,
  writes-IsInvariant, drops-IsInvariant, begins-IsInvariant, stops-IsInvariant,
  receives-IsInvariant,
}

module _ (bt : BtHci) (laws : BtHciLaws bt) (evt : EvtBox) (opcode : ℕ) where
  -- The packet that completes a command gives an answer of its opcode.
  make_cc_with_cs-own :
      (r : CommandCompleteWithStatus)
      → Completes bt evt opcode
      → make_cc_with_cs bt evt.serial ≡ completed r
      → r.cmd_opcode ≡ opcode
  unfolding make_cc_with_cs
  make_cc_with_cs-own r (by_complete params e p q o) a =
      own (bt.with_status e) refl (sym (ap (packet_answer bt) p ∙ ap (complete_answer bt) q) ∙ a)
    where
      own :
          (c : Result CommandCompleteWithStatus)
          → bt.with_status e ≡ c
          → converted c ≡ completed r
          → r.cmd_opcode ≡ opcode
      own (ok r') w h = let same : r' ≡ r = cc in rw (← same) (laws.keeps_opcode e r' w ∙ o)
      own (err e') w h = cc
  make_cc_with_cs-own r (by_status params e p q o) a =
      let same = sym (ap (packet_answer bt) p ∙ ap status_answer q) ∙ a in
      let c : CommandCompleteWithStatus = record {
        num_hci_cmd_pkts = 0;
        cmd_opcode = e.cmd_opcode;
        status = e.status;
        return_param_bytes = [];
      } in
      let made : c ≡ r = cc in rw (← made) o

module _ {S : Type 0} (api : SignalApi S (Option EvtBox)) (bt : BtHci) (laws : BtHciLaws bt)
    (signal_laws : SignalLaws api) where
  module _ (s : System api bt) (inv : IsInvariant api bt s) where
    -- The answer of the one command, whose packet is its own.
    answer_of-IsInvariant :
        (opcode : ℕ) (self : Controller S) (answer : Answer)
        → self.slot ≡ some opcode
        → api.holds self.signal ≡ none
        → ((r : CommandCompleteWithStatus) → answer ≡ completed r → r.cmd_opcode ≡ opcode)
        → Blocks self.cc_no_status self.pending_evt
        → Idle s.is_reading self.pending_evt
        → accounted self ≡ managed s.received
        → IsInvariant api bt (record s {
          controller = (with_answer api bt self answer).0;
          commands = after_answer api bt [] opcode (with_answer api bt self answer).1 [];
        })
    answer_of-IsInvariant opcode self (completed r) slot empty own blocks idle buffers = record {
      exclusive =
          subst (λ o. Exclusive o (record { opcode = opcode; progress = answered r } ∷ []))
            (sym slot) (refl, own r refl);
      signalled = rw empty tt;
      blocks = blocks;
      idle = idle;
      buffers = buffers;
    }
    answer_of-IsInvariant opcode self (refused e) slot empty own blocks idle buffers =
        guard-IsInvariant api bt laws signal_laws s inv self (rw empty tt) blocks idle buffers

    takes-IsInvariant :
        (before : List Command) (opcode : ℕ) (behind : List Command) (value : Option EvtBox)
        → s.commands ≡ before ++ (record { opcode = opcode; progress = waiting } ∷ behind)
        → api.holds s.controller.signal ≡ some value
        → IsInvariant api bt (record s {
          controller = (finish_exec api bt (take_signal api bt s.controller) value).0;
          commands =
              after_answer api bt before opcode
                (finish_exec api bt (take_signal api bt s.controller) value).1
                behind;
        })
    unfolding finish_exec take_signal
    takes-IsInvariant before opcode behind value e h =
        let (taken, own, b, a) =
          only_command s.controller.slot before _ behind s.commands e inv.exclusive in
        let held : Signalled bt (some opcode) (some value) =
          subst (λ o. Signalled bt o (some value)) taken
            (subst (λ o. Signalled bt s.controller.slot o) h inv.signalled) in
        let empty = signal_laws.holds-take s.controller.signal in
        rw (b, a) (taken_value value taken empty held)
      where
        taken_value :
            (value : Option EvtBox)
            → s.controller.slot ≡ some opcode
            → api.holds (api.take s.controller.signal) ≡ none
            → Signalled bt (some opcode) (some value)
            → IsInvariant api bt (record s {
              controller = (finish_exec api bt (take_signal api bt s.controller) value).0;
              commands =
                  after_answer api bt [] opcode
                    (finish_exec api bt (take_signal api bt s.controller) value).1
                    [];
            })
        taken_value none slot empty held =
            guard-IsInvariant api bt laws signal_laws s inv (take_signal api bt s.controller)
              (rw empty tt) inv.blocks inv.idle inv.buffers
        taken_value (some evt) slot empty held =
            rw (drop_unmanaged api bt laws (take_signal api bt s.controller) evt opcode held) (
              answer_of-IsInvariant opcode (take_signal api bt s.controller)
                (make_cc_with_cs bt evt.serial) slot empty
                (λ r q. make_cc_with_cs-own bt laws evt opcode r held q) inv.blocks inv.idle
                inv.buffers)

    Step-IsInvariant : {t : System api bt} → Step api bt s t → IsInvariant api bt t
    Step-IsInvariant (grants opcode self e) =
        grants-IsInvariant api bt laws signal_laws s inv opcode self e
    Step-IsInvariant (writes before opcode behind e) =
        writes-IsInvariant api bt laws signal_laws s inv before opcode behind e
    Step-IsInvariant (takes before opcode behind value e h) =
        takes-IsInvariant before opcode behind value e h
    Step-IsInvariant (drops before command behind e) =
        drops-IsInvariant api bt laws signal_laws s inv before command behind e
    Step-IsInvariant (begins e) = begins-IsInvariant api bt laws signal_laws s inv e
    Step-IsInvariant (receives evt e) = receives-IsInvariant api bt laws signal_laws s inv evt e
    Step-IsInvariant (stops e) = stops-IsInvariant api bt laws signal_laws s inv

  initial-IsInvariant : IsInvariant api bt (initial api bt)
  unfolding new managed
  initial-IsInvariant = record {
    exclusive = tt;
    signalled = rw signal_laws.holds-new tt;
    blocks = tt;
    idle = tt;
    buffers = refl;
  }

  pub Reachable-IsInvariant : {s : System api bt} → Reachable api bt s → IsInvariant api bt s
  Reachable-IsInvariant start = initial-IsInvariant
  Reachable-IsInvariant (next r step) = Step-IsInvariant _ (Reachable-IsInvariant r) step
