-- ===== src/Transport/Controller/Examples.antt =====
-- A run of the adapter of examples/embassy/src/transport.rs: a command that is answered while an
-- advertising report is pending, with a small parser and a signal of one cell.
use stm32wb_hci.Prelude.{
  ℕ, ◌+◌, ◌*◌, ◌≡◌, refl, Bool, true, false, Option, none, some, List, [], ◌∷◌, ◌++◌, ◌==◌, get_or,
  if◌then◌else◌, arith,
}
use stm32wb_hci.Wire.Decoding.{invalid_size, Result, ok, err}
use stm32wb_hci.Transport.Controller.Api.{
  BtHci, BtHciLaws, CommandComplete, CommandCompleteWithStatus, Packet, command_complete_event,
  command_status_event, other_event, SignalApi, SignalLaws,
}
use stm32wb_hci.Transport.Controller.{
  EvtBox, Controller, new, is_managed, drop_evt, drop_guard, set_signal, grab_slot, begin_turn,
  replace_pending, signal_cmd, read_turn,
}
use stm32wb_hci.Transport.Controller.Commands.{
  make_cc_with_cs, waiting, answered, Command, take_signal, finish_exec, System, grants, writes,
  takes, drops, begins, receives, Reachable, start, next,
}
use stm32wb_hci.Transport.Controller.Guarantees.{
  others_of, pending_list, command_exclusive, answer_own, buffers_released, slot_free,
}

parse_event : ℕ → List ℕ → Result Packet
parse_event code params =
    if code == 0x0e
    then ok (command_complete_event params)
    else if code == 0x0f
    then ok (command_status_event params)
    else ok (other_event code params)

parse : List ℕ → Result Packet
parse [] = err invalid_size
parse (kind ∷ []) = err invalid_size
parse (kind ∷ code ∷ []) = err invalid_size
parse (kind ∷ code ∷ size ∷ params) = parse_event code params

parse_complete : List ℕ → Result CommandComplete
parse_complete [] = err invalid_size
parse_complete (n ∷ []) = err invalid_size
parse_complete (n ∷ low ∷ []) = err invalid_size
parse_complete (n ∷ low ∷ high ∷ bytes) =
    ok (record { num_hci_cmd_pkts = n; cmd_opcode = low + 256 * high; bytes = bytes })

has_status : CommandComplete → Bool
has_status e = elim e.bytes [ [] ↦ false | ◌∷◌ b bs ↦ true ]

status_of : CommandComplete → List ℕ → Result CommandCompleteWithStatus
status_of e [] = err invalid_size
status_of e (b ∷ bs) = ok (record {
  num_hci_cmd_pkts = e.num_hci_cmd_pkts;
  cmd_opcode = e.cmd_opcode;
  status = b;
  return_param_bytes = bs;
})

with_status : CommandComplete → Result CommandCompleteWithStatus
with_status e = status_of e e.bytes

abbrev bt : BtHci
bt = record {
  parse_packet = parse;
  parse_complete = parse_complete;
  parse_status = λ bytes. err invalid_size;
  has_status = has_status;
  with_status = with_status;
  reset_opcode = 0x0c03;
}

abbrev cell : SignalApi (Option (Option EvtBox)) (Option EvtBox)
cell = record {
  new = none;
  signal = λ a s. some a;
  reset = λ s. none;
  take = λ s. none;
  holds = λ s. s;
}

cell-Laws : SignalLaws cell
cell-Laws = record {
  holds-new = refl;
  holds-signal = λ a s. refl;
  holds-reset = λ s. refl;
  holds-take = λ s. refl;
}

parse_code_complete :
    (bytes params : List ℕ)
    → parse bytes ≡ ok (command_complete_event params)
    → get_or bytes 1 0 ≡ 0x0e
unfolding parse parse_event
parse_code_complete [] params h = cc
parse_code_complete (kind ∷ []) params h = cc
parse_code_complete (kind ∷ code ∷ []) params h = cc
parse_code_complete (kind ∷ code ∷ size ∷ rest) params h = ground (arith, h)

parse_code_status :
    (bytes params : List ℕ)
    → parse bytes ≡ ok (command_status_event params)
    → get_or bytes 1 0 ≡ 0x0f
unfolding parse parse_event
parse_code_status [] params h = cc
parse_code_status (kind ∷ []) params h = cc
parse_code_status (kind ∷ code ∷ []) params h = cc
parse_code_status (kind ∷ code ∷ size ∷ rest) params h = ground (arith, h)

status_of-opcode :
    (e : CommandComplete) (bytes : List ℕ) (r : CommandCompleteWithStatus)
    → status_of e bytes ≡ ok r
    → r.cmd_opcode ≡ e.cmd_opcode
unfolding status_of
status_of-opcode e [] r h = cc
status_of-opcode e (b ∷ bs) r h =
    let made : CommandCompleteWithStatus = record {
      num_hci_cmd_pkts = e.num_hci_cmd_pkts;
      cmd_opcode = e.cmd_opcode;
      status = b;
      return_param_bytes = bs;
    } in
    let same : made ≡ r = cc in rw (← same) refl

with_status-opcode :
    (e : CommandComplete) (r : CommandCompleteWithStatus)
    → with_status e ≡ ok r
    → r.cmd_opcode ≡ e.cmd_opcode
unfolding with_status
with_status-opcode e r h = status_of-opcode e e.bytes r h

bt-Laws : BtHciLaws bt
bt-Laws = record {
  complete_code = parse_code_complete;
  status_code = parse_code_status;
  keeps_opcode = with_status-opcode;
}

abbrev report : EvtBox
report = record { ptr = 0x100; serial = 4 ∷ 0x3e ∷ 1 ∷ 2 ∷ [] }

abbrev complete : EvtBox
complete = record { ptr = 0x200; serial = 4 ∷ 0x0e ∷ 4 ∷ 1 ∷ 0x09 ∷ 0x10 ∷ 0 ∷ [] }

abbrev answer : CommandCompleteWithStatus
answer = record { num_hci_cmd_pkts = 1; cmd_opcode = 0x1009; status = 0; return_param_bytes = [] }

abbrev reported : System cell bt
reported = record {
  controller = record {
    slot = some 0x1009;
    signal = none;
    pending_evt = some report;
    cc_no_status = false;
    released = [];
  };
  commands = record { opcode = 0x1009; progress = waiting } ∷ [];
  is_reading = false;
  received = report ∷ [];
}

abbrev done : System cell bt
done = record {
  controller = record {
    slot = some 0x1009;
    signal = none;
    pending_evt = none;
    cc_no_status = false;
    released = report ∷ [];
  };
  commands = record { opcode = 0x1009; progress = answered answer } ∷ [];
  is_reading = true;
  received = report ∷ complete ∷ [];
}

reported-Reachable : Reachable cell bt reported
unfolding new grab_slot begin_turn read_turn parse parse_event replace_pending
reported-Reachable =
    next (next (next (next start (grants 0x1009 _ refl)) (writes [] 0x1009 [] refl)) (begins refl))
      (receives report refl)

done-Reachable : Reachable cell bt done
unfolding new grab_slot begin_turn read_turn parse parse_event parse_complete has_status with_status
    status_of replace_pending signal_cmd set_signal is_managed drop_evt finish_exec take_signal
    make_cc_with_cs
done-Reachable =
    next (next (next reported-Reachable (begins refl)) (receives complete refl))
      (takes [] 0x1009 [] (some complete) refl refl)

abbrev finished : System cell bt
finished = record {
  controller = record {
    slot = none;
    signal = none;
    pending_evt = none;
    cc_no_status = false;
    released = report ∷ [];
  };
  commands = [];
  is_reading = true;
  received = report ∷ complete ∷ [];
}

finished-Reachable : Reachable cell bt finished
unfolding drop_guard
finished-Reachable = next done-Reachable (drops [] _ [] refl)

-- A Command Complete event without status, which returns from `read`.
abbrev credits : EvtBox
credits = record { ptr = 0x200; serial = 4 ∷ 0x0e ∷ 3 ∷ 2 ∷ 0 ∷ 0 ∷ [] }

abbrev blocked : System cell bt
blocked = record {
  controller = record {
    slot = none;
    signal = none;
    pending_evt = some credits;
    cc_no_status = true;
    released = [];
  };
  commands = [];
  is_reading = false;
  received = credits ∷ [];
}

blocked-Reachable : Reachable cell bt blocked
unfolding new begin_turn read_turn parse parse_event parse_complete has_status replace_pending
blocked-Reachable = next (next start (begins refl)) (receives credits refl)

abbrev no_commands : List Command
no_commands = []

command_exclusive_example :
    (done.controller.slot ≡ some 0x1009) × (no_commands ≡ []) × (no_commands ≡ [])
command_exclusive_example =
    command_exclusive cell bt bt-Laws cell-Laws done done-Reachable []
      (record { opcode = 0x1009; progress = answered answer }) [] refl

answer_own_example : answer.cmd_opcode ≡ 0x1009
answer_own_example =
    answer_own cell bt bt-Laws cell-Laws done done-Reachable [] 0x1009 answer [] refl

buffers_released_example :
    done.controller.released ++ others_of (pending_list done.controller.pending_evt)
    ≡ others_of done.received
buffers_released_example = buffers_released cell bt bt-Laws cell-Laws done done-Reachable

slot_free_example :
    (self : Controller (Option (Option EvtBox))) × (grab_slot cell
        (begin_turn cell finished.controller)
        0x0c03
      ≡ some self)
    × (self.slot ≡ some 0x0c03)
    × (cell.holds self.signal ≡ none)
slot_free_example = slot_free cell bt bt-Laws cell-Laws finished finished-Reachable 0x0c03 refl
