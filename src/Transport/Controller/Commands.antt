-- ===== src/Transport/Controller/Commands.antt =====
-- examples/embassy/src/transport.rs: `exec_cmd` behind `grab_slot`, and the steps of the commands and
-- of the reader, which awaits interleave.
use stm32wb_hci.Prelude.{ℕ, ◌≡◌, Bool, true, false, Option, none, some, List, [], ◌∷◌, ◌++◌}
use stm32wb_hci.Wire.Decoding.{Result, ok, err}
use stm32wb_hci.Transport.Controller.Api.{
  BtHci, CommandComplete, CommandStatus, CommandCompleteWithStatus, Packet, command_complete_event,
  command_status_event, other_event, other_packet, SignalApi,
}
use stm32wb_hci.Transport.Controller.{
  EvtBox, ErrorKind, invalid_data, to_err, Controller, Turn, returned, failed, continues, new,
  drop_evt, drop_guard, grab_slot, begin_turn, read_turn,
}

-- `bt_hci::cmd::Error`; the only error of a parameter that `exec_cmd` gives itself is
-- OPERATION_CANCELLED_BY_HOST.
pub data CmdError : Type 0 where
  io : ErrorKind → CmdError
  cancelled_by_host : CmdError

pub data Answer : Type 0 where
  completed : CommandCompleteWithStatus → Answer
  refused : CmdError → Answer

abbrev pub converted : Result CommandCompleteWithStatus → Answer
converted (err e) = refused (io (to_err e))
converted (ok r) = completed r

abbrev pub complete_answer : BtHci → Result CommandComplete → Answer
complete_answer bt (err e) = refused (io (to_err e))
complete_answer bt (ok e) = converted (bt.with_status e)

abbrev pub status_answer : Result CommandStatus → Answer
status_answer (err e) = refused (io (to_err e))
status_answer (ok e) = completed (record {
  num_hci_cmd_pkts = 0;
  cmd_opcode = e.cmd_opcode;
  status = e.status;
  return_param_bytes = [];
})

abbrev pub packet_answer : BtHci → Result Packet → Answer
packet_answer bt (err e) = refused (io (to_err e))
packet_answer bt (ok (command_complete_event params)) =
    complete_answer bt (bt.parse_complete params)
packet_answer bt (ok (command_status_event params)) = status_answer (bt.parse_status params)
packet_answer bt (ok (other_event code params)) = refused (io invalid_data)
packet_answer bt (ok (other_packet bytes)) = refused (io invalid_data)

unfoldable pub make_cc_with_cs : BtHci → List ℕ → Answer
make_cc_with_cs bt buf = packet_answer bt (bt.parse_packet buf)

-- A command between the grant of the slot and the drop of its guard: before the write, waiting for the
-- signal, and with its answer in hand.
pub data Progress : Type 0 where
  granted waiting : Progress
  answered : CommandCompleteWithStatus → Progress

pub record Command : Type 0 where
  pub opcode : ℕ
  pub progress : Progress

module _ {S : Type 0} (api : SignalApi S (Option EvtBox)) (bt : BtHci) where
  -- What `signal.wait()` leaves: the signal is empty again, and its value is the command's.
  unfoldable pub take_signal : Controller S → Controller S
  take_signal self = record self { signal = api.take self.signal }

  -- `exec_cmd` from the value it waited for: the packet is dropped, and where it returns an error, so is
  -- the guard.
  abbrev pub with_answer : Controller S → Answer → Controller S × Answer
  with_answer self (completed r) = (self, completed r)
  with_answer self (refused e) = (drop_guard api self, refused e)

  unfoldable pub finish_exec : Controller S → Option EvtBox → Controller S × Answer
  finish_exec self none = (drop_guard api self, refused cancelled_by_host)
  finish_exec self (some evt) = with_answer (drop_evt api self evt) (make_cc_with_cs bt evt.serial)

  -- The commands that hold a guard, whether `read` runs, and the packets received so far.
  pub record System : Type 0 where
    pub controller : Controller S
    pub commands : List Command
    pub is_reading : Bool
    pub received : List EvtBox

  abbrev pub initial : System
  initial = record { controller = new api; commands = []; is_reading = false; received = [] }

  -- The commands after an answer: one that failed holds no guard.
  abbrev pub after_answer : List Command → ℕ → Answer → List Command → List Command
  after_answer before opcode (completed r) behind =
      before ++ (record { opcode = opcode; progress = answered r } ∷ behind)
  after_answer before opcode (refused e) behind = before ++ behind

  -- The reader's next turn begins at once where the loop continues.
  abbrev pub after_turn : Controller S → Turn → List Command → List EvtBox → System
  after_turn self (returned pkt) commands received = record {
    controller = self;
    commands = commands;
    is_reading = false;
    received = received;
  }
  after_turn self (failed e) commands received = record {
    controller = self;
    commands = commands;
    is_reading = false;
    received = received;
  }
  after_turn self continues commands received = record {
    controller = begin_turn api self;
    commands = commands;
    is_reading = true;
    received = received;
  }

  pub data Step (s : System) : System → Type 0 where
    grants :
        (opcode : ℕ) (self : Controller S)
        → grab_slot api s.controller opcode ≡ some self
        → Step s (record s {
          controller = self;
          commands = s.commands ++ (record { opcode = opcode; progress = granted } ∷ []);
        })
    writes :
        (before : List Command) (opcode : ℕ) (behind : List Command)
        → s.commands ≡ before ++ (record { opcode = opcode; progress = granted } ∷ behind)
        → Step s (record s {
          commands = before ++ (record { opcode = opcode; progress = waiting } ∷ behind);
        })
    takes :
        (before : List Command) (opcode : ℕ) (behind : List Command) (value : Option EvtBox)
        → s.commands ≡ before ++ (record { opcode = opcode; progress = waiting } ∷ behind)
        → api.holds s.controller.signal ≡ some value
        → Step s (record s {
          controller = (finish_exec (take_signal s.controller) value).0;
          commands =
              after_answer before opcode (finish_exec (take_signal s.controller) value).1 behind;
        })
    -- The write failed, the caller has its answer, or the caller dropped the future.
    drops :
        (before : List Command) (command : Command) (behind : List Command)
        → s.commands ≡ before ++ (command ∷ behind)
        → Step s
            (record s { controller = drop_guard api s.controller; commands = before ++ behind })
    begins :
        s.is_reading ≡ false
        → Step s (record s { controller = begin_turn api s.controller; is_reading = true })
    receives :
        (evt : EvtBox)
        → s.is_reading ≡ true
        → Step s (
            after_turn
              (read_turn api bt s.controller evt).0
              (read_turn api bt s.controller evt).1
              s.commands
              (s.received ++ (evt ∷ [])))
    stops : s.is_reading ≡ true → Step s (record s { is_reading = false })

  pub data Reachable : System → Type 0 where
    start : Reachable initial
    next : {s t : System} → Reachable s → Step s t → Reachable t
