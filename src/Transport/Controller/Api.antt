-- ===== src/Transport/Controller/Api.antt =====
-- What examples/embassy/src/transport.rs uses of bt-hci and of embassy-sync.
use stm32wb_hci.Prelude.{ℕ, ◌≡◌, Bool, Option, none, some, List, get_or}
use stm32wb_hci.Wire.Decoding.{Result, ok}

-- `bt_hci::ControllerToHostPacket`, as far as the transport tells packets apart: the two events with
-- their parameters, another event, and a packet that is no event.
pub data Packet : Type 0 where
  command_complete_event command_status_event : List ℕ → Packet
  other_event : ℕ → List ℕ → Packet
  other_packet : List ℕ → Packet

pub record CommandComplete : Type 0 where
  pub num_hci_cmd_pkts : ℕ
  pub cmd_opcode : ℕ
  pub bytes : List ℕ

pub record CommandStatus : Type 0 where
  pub status : ℕ
  pub num_hci_cmd_pkts : ℕ
  pub cmd_opcode : ℕ

pub record CommandCompleteWithStatus : Type 0 where
  pub num_hci_cmd_pkts : ℕ
  pub cmd_opcode : ℕ
  pub status : ℕ
  pub return_param_bytes : List ℕ

-- bt-hci's parsers, `CommandComplete::has_status` and `try_into`, and `Reset::OPCODE`.
pub record BtHci : Type 0 where
  pub parse_packet : List ℕ → Result Packet
  pub parse_complete : List ℕ → Result CommandComplete
  pub parse_status : List ℕ → Result CommandStatus
  pub has_status : CommandComplete → Bool
  pub with_status : CommandComplete → Result CommandCompleteWithStatus
  pub reset_opcode : ℕ

-- What the transport relies on: the event code, the second byte of an event packet, says which event
-- it is, and the conversion keeps the opcode.
pub record BtHciLaws (bt : BtHci) : Type 0 where
  pub complete_code :
      (bytes params : List ℕ)
      → bt.parse_packet bytes ≡ ok (command_complete_event params)
      → get_or bytes 1 0 ≡ 0x0e
  pub status_code :
      (bytes params : List ℕ)
      → bt.parse_packet bytes ≡ ok (command_status_event params)
      → get_or bytes 1 0 ≡ 0x0f
  pub keeps_opcode :
      (e : CommandComplete) (r : CommandCompleteWithStatus)
      → bt.with_status e ≡ ok r
      → r.cmd_opcode ≡ e.cmd_opcode

-- embassy-sync's `Signal`: it holds the last value signalled, until it is taken or reset.
pub record SignalApi (S A : Type 0) : Type 0 where
  pub new : S
  pub signal : A → S → S
  pub reset : S → S
  -- What `wait` leaves when it returns the value.
  pub take : S → S
  pub holds : S → Option A

pub record SignalLaws {S A : Type 0} (api : SignalApi S A) : Type 0 where
  pub holds-new : api.holds api.new ≡ none
  pub holds-signal : (a : A) (s : S) → api.holds (api.signal a s) ≡ some a
  pub holds-reset : (s : S) → api.holds (api.reset s) ≡ none
  pub holds-take : (s : S) → api.holds (api.take s) ≡ none
