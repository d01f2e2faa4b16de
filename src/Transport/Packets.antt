-- ===== src/Transport/Packets.antt =====
-- examples/embassy/src/transport.rs: the packet buffers in shared memory, as bytes at addresses, the
-- writer that fills them, and the status codes that are read from them.
pub mod Memory
pub mod Writer
pub mod Status
mod Examples
use stm32wb_hci.Prelude.{
  ℕ, zero, suc, ◌+◌, ◌-◌, ◌*◌, ◌%◌, ◌^◌, ◌≡◌, Bool, true, false, ◌&&◌, Option, none, some, List, [],
  ◌∷◌, ◌++◌, length, take, drop, leb, ltb, ◌==◌, if◌then◌else◌,
}
use stm32wb_hci.Prelude.Bytes.{to_le_bytes}

-- The bytes of the memory, by address.
abbrev pub Bytes : Type 0
Bytes = ℕ → ℕ

-- `ptr::copy_nonoverlapping`, of bytes that the memory does not hold.
unfoldable pub copy : Bytes → ℕ → List ℕ → Bytes
copy memory at [] = memory
copy memory at (b ∷ bytes) = copy (λ x. if x == at then b else memory x) (at + 1) bytes

-- `embedded_io::ErrorKind::WriteZero`
pub data WriteError : Type 0 where
  write_zero : WriteError

pub data Written : Type 0 where
  written : ℕ → Written
  failed : WriteError → Written

pub record VolatileWriter : Type 0 where
  pub start : ℕ
  pub len : ℕ

-- `size_of::<LinkedListNode>()`: two pointers of four bytes.
abbrev pub list_header : ℕ
list_header = 8

-- `CmdPacket::writer` and `AclDataPacket::writer`.
unfoldable pub command_writer : ℕ → VolatileWriter
command_writer cmd_buf = record { start = cmd_buf + list_header; len = 255 }

unfoldable pub acl_writer : ℕ → VolatileWriter
acl_writer buf = record { start = buf + list_header; len = 5 + 251 }

abbrev pub min : ℕ → ℕ → ℕ
min a b = if leb a b then a else b

-- `VolatileWriter::write`: the memory and the writer that it leaves, and its result.
unfoldable pub write : Bytes → VolatileWriter → List ℕ → Bytes × VolatileWriter × Written
write memory self buf =
    if self.len == 0
    then (memory, self, failed write_zero)
    else (let count = min self.len (length buf) in
        (
          copy memory self.start (take count buf),
          record { start = self.start + count; len = self.len - count },
          written count,
        ))

-- `CmdPacket::write_into`: the stub and the payload behind it. The packet's type is SysCmd, 0x10.
unfoldable pub write_into : Bytes → ℕ → ℕ → ℕ → List ℕ → Bytes
write_into memory buf packet_type cmd_code payload =
    let p_cmd_serial = buf + list_header in
    let memory₁ =
      copy memory p_cmd_serial
        (packet_type ∷ to_le_bytes 2 cmd_code ++ ((length payload % 2 ^ 8) ∷ [])) in
    copy memory₁ (p_cmd_serial + 4) payload

-- The packet of an event: its header, kind, event code, payload length and payload.
unfoldable pub read_bytes : Bytes → ℕ → ℕ → List ℕ
read_bytes memory at zero = []
read_bytes memory at (suc n) = memory at ∷ read_bytes memory (at + 1) n

-- `EvtBox::payload` and `EvtBox::serial`.
unfoldable pub payload : Bytes → ℕ → List ℕ
payload memory ptr = read_bytes memory (ptr + list_header + 3) (memory (ptr + list_header + 2))

unfoldable pub serial : Bytes → ℕ → List ℕ
serial memory ptr = read_bytes memory (ptr + list_header) (memory (ptr + list_header + 2) + 3)

pub data SysEventReady : Type 0 where
  wireless_fw_running fus_fw_running nvm_backup_running nvm_restore_running : SysEventReady

-- The discriminants of `SysEventReady`.
unfoldable pub ready_code : SysEventReady → ℕ
ready_code wireless_fw_running = 0x00
ready_code fus_fw_running = 0x01
ready_code nvm_backup_running = 0x10
ready_code nvm_restore_running = 0x11

-- `TryFrom<u8>`
unfoldable pub ready_try_from : ℕ → Option SysEventReady
ready_try_from v =
    if v == 0x00
    then some wireless_fw_running
    else if v == 0x01
    then some fus_fw_running
    else if v == 0x10
    then some nvm_backup_running
    else if v == 0x11
    then some nvm_restore_running
    else none

pub data SysCommandStatus : Type 0 where
  success unknown_command memory_capacity_exceeded unsupported_feature invalid_hci_command_params
        invalid_params invalid_params_v2 fus_command_not_supported :
      SysCommandStatus

unfoldable pub status_code : SysCommandStatus → ℕ
status_code success = 0x00
status_code unknown_command = 0x01
status_code memory_capacity_exceeded = 0x07
status_code unsupported_feature = 0x11
status_code invalid_hci_command_params = 0x12
status_code invalid_params = 0x42
status_code invalid_params_v2 = 0x92
status_code fus_command_not_supported = 0xff

unfoldable pub status_try_from : ℕ → Option SysCommandStatus
status_try_from v =
    if v == 0x00
    then some success
    else if v == 0x01
    then some unknown_command
    else if v == 0x07
    then some memory_capacity_exceeded
    else if v == 0x11
    then some unsupported_feature
    else if v == 0x12
    then some invalid_hci_command_params
    else if v == 0x42
    then some invalid_params
    else if v == 0x92
    then some invalid_params_v2
    else if v == 0xff
    then some fus_command_not_supported
    else none

-- `SysCommandStatus::from_cmd_buffer`: the response's event lies over the command; the first byte of the
-- payload of its `CcEvt` follows the stub of three bytes, a count and an opcode.
unfoldable pub from_cmd_buffer : Bytes → ℕ → Option SysCommandStatus
from_cmd_buffer memory cmd_buf = status_try_from (memory (cmd_buf + list_header + 3 + 3))
