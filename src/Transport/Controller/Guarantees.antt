-- ===== src/Transport/Controller/Guarantees.antt =====
-- What examples/embassy/src/transport.rs guarantees of the commands and of the packet buffers, in every
-- state that some interleaving of the reader's turns and the commands reaches.
use mathlib.Core.Path.{subst}
use stm32wb_hci.Prelude.{
  ℕ, ◌≡◌, refl, ◌∙◌, ap, sym, Bool, true, false, not, ◌||◌, Option, none, some, List, [], ◌∷◌, ◌++◌,
  ◌==◌, get_elem?, get_or, if◌then◌else◌, arith,
}
use stm32wb_hci.Transport.Controller.Api.{
  BtHci, BtHciLaws, CommandCompleteWithStatus, SignalApi, SignalLaws,
}
use stm32wb_hci.Transport.Controller.{
  EvtBox, Controller, is_managed, grant_slot, grab_slot, begin_turn,
}
use stm32wb_hci.Transport.Controller.Invariant.{
  Signalled, Blocks, managed, managed-one, managed_pending, begin_turn-eq,
}
use stm32wb_hci.Transport.Controller.Commands.{answered, Command, System, Reachable}
use stm32wb_hci.Transport.Controller.System.{Exclusive, IsInvariant, only_command, Signalled-none}
use stm32wb_hci.Transport.Controller.Safety.{Reachable-IsInvariant}

-- The code that an event packet has in its second byte is that of Command Complete or Command Status.
abbrev pub answer_code : Option ℕ → Bool
answer_code none = false
answer_code (some code) = (code == 0x0e) || (code == 0x0f)

-- The other packets, in order.
abbrev pub others_of : List EvtBox → List EvtBox
others_of [] = []
others_of (evt ∷ evts) =
    let others = others_of evts in
    if answer_code (get_elem? evt.serial 1) then others else evt ∷ others

abbrev pub pending_list : Option EvtBox → List EvtBox
pending_list none = []
pending_list (some evt) = evt ∷ []

is_managed-answer_code :
    (evt : EvtBox) → is_managed evt ≡ not (answer_code (get_elem? evt.serial 1))
unfolding is_managed
is_managed-answer_code evt = of_serial evt.serial
  where
    of_serial :
        (serial : List ℕ)
        → (if get_or serial 1 0 == 0x0e || get_or serial 1 0 == 0x0f then false else true)
          ≡ not (answer_code (get_elem? serial 1))
    of_serial [] = refl
    of_serial (kind ∷ []) = refl
    of_serial (kind ∷ code ∷ serial) = ground arith

managed-others_of : (evts : List EvtBox) → managed evts ≡ others_of evts
unfolding managed
managed-others_of [] = refl
managed-others_of (evt ∷ evts) =
    rw (is_managed-answer_code evt, managed-others_of evts)
      (of_code (answer_code (get_elem? evt.serial 1)))
  where
    of_code :
        (answers : Bool)
        → (if not answers then evt ∷ [] else []) ++ others_of evts
          ≡ (if answers then others_of evts else evt ∷ others_of evts)
    of_code true = refl
    of_code false = refl

managed_pending-others_of :
    (pending : Option EvtBox) → managed_pending pending ≡ others_of (pending_list pending)
unfolding managed
managed_pending-others_of none = refl
managed_pending-others_of (some evt) = sym (managed-one evt) ∙ managed-others_of (evt ∷ [])

module _ {S : Type 0} (api : SignalApi S (Option EvtBox)) (bt : BtHci) (laws : BtHciLaws bt)
    (signal_laws : SignalLaws api) where
  module _ (s : System api bt) (reached : Reachable api bt s) where
    inv : IsInvariant api bt s
    inv = Reachable-IsInvariant api bt laws signal_laws reached

    -- In every state that the adapter reaches, with bt-hci's parsers and the signal as documented, a
    -- command that holds a guard is the only one, and the slot holds its opcode.
    pub command_exclusive :
        (before : List Command) (command : Command) (behind : List Command)
        → s.commands ≡ before ++ (command ∷ behind)
        → (s.controller.slot ≡ some command.opcode) × (before ≡ []) × (behind ≡ [])
    command_exclusive before command behind e =
        let (slot, own, b, a) =
          only_command s.controller.slot before command behind s.commands e inv.exclusive in
        (slot, b, a)

    -- In every state that the adapter reaches, with bt-hci's parsers and the signal as documented,
    -- the answer that `exec_cmd` returns to a command has the command's own opcode.
    pub answer_own :
        (before : List Command) (opcode : ℕ) (r : CommandCompleteWithStatus) (behind : List Command)
        → s.commands ≡ before ++ (record { opcode = opcode; progress = answered r } ∷ behind)
        → r.cmd_opcode ≡ opcode
    answer_own before opcode r behind e =
        let (slot, own, b, a) =
          only_command s.controller.slot before _ behind s.commands e inv.exclusive in
        own

    -- In every state that the adapter reaches, with bt-hci's parsers and the signal as documented,
    -- the packets that the memory manager has been given, and behind them the pending one if its second
    -- byte is neither 0x0E nor 0x0F, are the received packets whose second byte is neither, each once and
    -- in order. These bytes are the codes of Command Complete and Command Status in an event, but any
    -- packet with one of them, an event or not, is left out.
    pub buffers_released :
        s.controller.released ++ others_of (pending_list s.controller.pending_evt)
        ≡ others_of s.received
    buffers_released =
        ap (λ l. s.controller.released ++ l)
          (sym (managed_pending-others_of s.controller.pending_evt))
        ∙ inv.buffers
        ∙ managed-others_of s.received

    -- In every state that the adapter reaches, with bt-hci's parsers and the signal as documented, if
    -- no command holds a guard, the adapter grants the slot to any command as soon as the next turn
    -- of `read` begins, with an empty signal.
    pub slot_free :
        (opcode : ℕ)
        → s.commands ≡ []
        → (self : Controller S) × (grab_slot api (begin_turn api s.controller) opcode ≡ some self)
          × (self.slot ≡ some opcode)
          × (api.holds self.signal ≡ none)
    unfolding grab_slot
    slot_free opcode e =
        let free : s.controller.slot ≡ none =
          no_command s.controller.slot
            (subst (λ c. Exclusive s.controller.slot c) e inv.exclusive) in
        let empty : api.holds s.controller.signal ≡ none =
          Signalled-none bt (api.holds s.controller.signal)
            (subst (λ o. Signalled bt o (api.holds s.controller.signal)) free inv.signalled) in
        let turn = begin_turn-eq api s.controller in
        let slot : (begin_turn api s.controller).slot ≡ none =
          ap (λ (c : Controller S). c.slot) turn ∙ free in
        let cc_off : (begin_turn api s.controller).cc_no_status ≡ false =
          ap (λ (c : Controller S). c.cc_no_status) turn in
        (
          record (begin_turn api s.controller) { slot = some opcode },
          ap (grant_slot api (begin_turn api s.controller) opcode) slot ∙ rw cc_off refl,
          refl,
          ap (λ (c : Controller S). api.holds c.signal) turn ∙ empty,
        )
      where
        no_command : (slot : Option ℕ) → Exclusive slot [] → slot ≡ none
        no_command none h = refl
        no_command (some op) h = elim h [ ]

    -- In every state that the adapter reaches, with bt-hci's parsers and the signal as documented,
    -- while an event without status keeps commands from the slot, that event is pending: the reader
    -- has returned it and has not read on.
    pub blocked_pending :
        s.controller.cc_no_status ≡ true → (evt : EvtBox) × (s.controller.pending_evt ≡ some evt)
    blocked_pending e =
        held s.controller.pending_evt (subst (λ b. Blocks b s.controller.pending_evt) e inv.blocks)
      where
        held :
            (pending : Option EvtBox) → Blocks true pending → (evt : EvtBox) × (pending ≡ some evt)
        held none h = elim h [ ]
        held (some evt) h = (evt, refl)
