-- ===== src/Transport/Controller.antt =====
-- examples/embassy/src/transport.rs: `ControllerAdapter`, its reader and its commands. What bt-hci
-- parses, and embassy's `Signal`, are parameters.
pub mod Api
pub mod Invariant
pub mod Reader
pub mod Commands
pub mod System
pub mod Safety
pub mod Guarantees
mod Examples
use stm32wb_hci.Prelude.{
  ℕ, ◌≡◌, Bool, true, false, ◌||◌, Option, none, some, List, [], ◌∷◌, ◌++◌, ◌==◌, get_or,
  if◌then◌else◌,
}
use stm32wb_hci.Wire.Decoding.{HciError, invalid_size, invalid_value, Result, ok, err}
use stm32wb_hci.Transport.Controller.Api.{
  BtHci, CommandComplete, CommandStatus, Packet, command_complete_event, command_status_event,
  other_packet, other_event, SignalApi,
}

-- `EvtBox`: the packet's address, and the bytes that `serial` reads there, which are those that were received:
-- the coprocessor does not write to a packet before it is given back.
pub record EvtBox : Type 0 where
  pub ptr : ℕ
  pub serial : List ℕ

-- `embedded_io::ErrorKind`, as far as the file names it.
pub data ErrorKind : Type 0 where
  invalid_input invalid_data : ErrorKind

unfoldable pub to_err : HciError → ErrorKind
to_err invalid_size = invalid_input
to_err invalid_value = invalid_data

-- `Ble::drop_event_packet` gives the packet to the memory manager unless its event code is that of
-- Command Complete or Command Status.
unfoldable pub is_managed : EvtBox → Bool
is_managed evt =
    let code = get_or evt.serial 1 0 in if code == 0x0e || code == 0x0f then false else true

-- The adapter's shared fields, and the packets that the memory manager has been given, in order.
pub record Controller (S : Type 0) : Type 0 where
  pub slot : Option ℕ
  pub signal : S
  pub pending_evt : Option EvtBox
  pub cc_no_status : Bool
  pub released : List EvtBox

-- What one turn of the loop of `read` comes to.
pub data Turn : Type 0 where
  returned : Packet → Turn
  failed : ErrorKind → Turn
  continues : Turn

module _ {S : Type 0} (api : SignalApi S (Option EvtBox)) where
  unfoldable pub new : Controller S
  new = record {
    slot = none;
    signal = api.new;
    pending_evt = none;
    cc_no_status = false;
    released = [];
  }

  unfoldable pub drop_evt : Controller S → EvtBox → Controller S
  drop_evt self evt =
      if is_managed evt then record self { released = self.released ++ (evt ∷ []) } else self

  abbrev pub drop_option : Controller S → Option EvtBox → Controller S
  drop_option self none = self
  drop_option self (some evt) = drop_evt self evt

  abbrev pub drop_signalled : Controller S → Option (Option EvtBox) → Controller S
  drop_signalled self none = self
  drop_signalled self (some o) = drop_option self o

  -- The drop of a `SlotGuard`.
  unfoldable pub drop_guard : Controller S → Controller S
  drop_guard self =
      let self = drop_signalled self (api.holds self.signal) in
      record self { slot = none; signal = api.reset self.signal }

  -- `signal.signal(value)`, which drops the value that was not taken.
  unfoldable pub set_signal : Controller S → Option EvtBox → Controller S
  set_signal self value =
      let self = drop_signalled self (api.holds self.signal) in
      record self { signal = api.signal value self.signal }

  -- `grab_slot` on the slot's content.
  abbrev pub grant_slot : Controller S → ℕ → Option ℕ → Option (Controller S)
  grant_slot self opcode (some waiting) = none
  grant_slot self opcode none =
      if self.cc_no_status then none else some (record self { slot = some opcode })

  -- The poll of `grab_slot`; `none` is `Poll::Pending`.
  unfoldable pub grab_slot : Controller S → ℕ → Option (Controller S)
  grab_slot self opcode = grant_slot self opcode self.slot

  -- The head of the loop of `read`.
  unfoldable pub begin_turn : Controller S → Controller S
  begin_turn self =
      let self = drop_option self self.pending_evt in
      record self { pending_evt = none; cc_no_status = false }

  -- `pending_evt.replace(evt)`, which drops the packet that was there.
  unfoldable pub replace_pending : Controller S → EvtBox → Controller S
  replace_pending self evt =
      let self = drop_option self self.pending_evt in record self { pending_evt = some evt }

  module _ (bt : BtHci) where
    -- `signal_cmd` on the slot's content.
    abbrev pub signal_slot : Controller S → ℕ → EvtBox → Option ℕ → Controller S
    signal_slot self opcode evt none = drop_evt self evt
    signal_slot self opcode evt (some waiting) =
        if waiting == opcode
        then set_signal self (some evt)
        else if opcode == bt.reset_opcode
        then drop_evt (set_signal self none) evt
        else drop_evt self evt

    unfoldable pub signal_cmd : Controller S → ℕ → EvtBox → Controller S
    signal_cmd self opcode evt = signal_slot self opcode evt self.slot

    abbrev pub read_complete :
        Controller S → EvtBox → Packet → Result CommandComplete → Controller S × Turn
    read_complete self evt pkt (err e) = (drop_evt self evt, failed (to_err e))
    read_complete self evt pkt (ok e) =
        if bt.has_status e
        then (signal_cmd self e.cmd_opcode evt, continues)
        else (replace_pending (record self { cc_no_status = true }) evt, returned pkt)

    abbrev pub read_status : Controller S → EvtBox → Result CommandStatus → Controller S × Turn
    read_status self evt (err e) = (drop_evt self evt, failed (to_err e))
    read_status self evt (ok e) = (signal_cmd self e.cmd_opcode evt, continues)

    abbrev pub read_packet : Controller S → EvtBox → Result Packet → Controller S × Turn
    read_packet self evt (err e) = (drop_evt self evt, failed (to_err e))
    read_packet self evt (ok (command_complete_event params)) =
        read_complete self evt (command_complete_event params) (bt.parse_complete params)
    read_packet self evt (ok (command_status_event params)) =
        read_status self evt (bt.parse_status params)
    read_packet self evt (ok (other_event code params)) =
        (replace_pending self evt, returned (other_event code params))
    read_packet self evt (ok (other_packet bytes)) =
        (replace_pending self evt, returned (other_packet bytes))

    -- A turn of the loop of `read` once `read_pkt` has received a packet.
    unfoldable pub read_turn : Controller S → EvtBox → Controller S × Turn
    read_turn self evt = read_packet self evt (bt.parse_packet evt.serial)
