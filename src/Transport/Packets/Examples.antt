-- ===== src/Transport/Packets/Examples.antt =====
-- Runs of the packet buffers of examples/embassy/src/transport.rs, and the theorems there.
use mathlib.Core.List.{flatten}
use stm32wb_hci.Prelude.{ℕ, ◌≡◌, inr, refl, some, List, [], ◌∷◌, arith, length}
use stm32wb_hci.Transport.Packets.{
  Bytes, copy, VolatileWriter, read_bytes, payload, serial, invalid_params_v2, status_try_from,
  from_cmd_buffer,
}
use stm32wb_hci.Transport.Packets.Writer.{write_each, write_each_bounded, write_each_reads}

abbrev zeros : Bytes
zeros = λ x. 0

-- An event of code 0x3e with two bytes of payload at the address 100.
abbrev event_at : Bytes
event_at = copy zeros 108 (4 ∷ 0x3e ∷ 2 ∷ 7 ∷ 9 ∷ [])

event_serial : serial event_at 100 ≡ 4 ∷ 0x3e ∷ 2 ∷ 7 ∷ 9 ∷ []
unfolding serial copy read_bytes
event_serial = refl

event_payload : payload event_at 100 ≡ 7 ∷ 9 ∷ []
unfolding payload copy read_bytes
event_payload = refl

status_of_buffer :
    from_cmd_buffer (copy zeros 108 (0x12 ∷ 0x0e ∷ 4 ∷ 1 ∷ 0x66 ∷ 0xfc ∷ 0x92 ∷ [])) 100
    ≡ some invalid_params_v2
unfolding from_cmd_buffer copy status_try_from
status_of_buffer = refl

abbrev parts : List (List ℕ)
parts = (1 ∷ []) ∷ (3 ∷ 12 ∷ []) ∷ (0 ∷ []) ∷ []

abbrev fresh : VolatileWriter
fresh = record { start = 108; len = 255 }

write_each_bounded_example : write_each zeros fresh parts 363 ≡ 0
write_each_bounded_example = write_each_bounded parts zeros fresh 363 (inr (omega arith))

write_each_reads_example :
    read_bytes (write_each zeros fresh parts) 108 (length (flatten parts)) ≡ flatten parts
write_each_reads_example = write_each_reads parts zeros fresh (unfold flatten in omega arith)
