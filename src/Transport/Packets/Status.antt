-- ===== src/Transport/Packets/Status.antt =====
-- The codes of `SysEventReady` and `SysCommandStatus` of examples/embassy/src/transport.rs.
use stm32wb_hci.Prelude.{ℕ, ◌≡◌, ◌↔◌, some, arith}
use stm32wb_hci.Transport.Packets.{
  SysEventReady, ready_code, ready_try_from, SysCommandStatus, status_code, status_try_from,
}

-- `try_from` gives a ready event exactly for the event's own code, and so it does a command's status.
pub try_from_iff :
    (v : ℕ) (event : SysEventReady) (status : SysCommandStatus)
    → ((ready_try_from v ≡ some event) ↔ (v ≡ ready_code event))
      × ((status_try_from v ≡ some status) ↔ (v ≡ status_code status))
unfolding ready_try_from ready_code status_try_from status_code
try_from_iff v event status = (
  (λ h. ground (arith, h), λ h. ready-code event v h),
  (λ h. ground (arith, h), λ h. status-code status v h),
)
  where
    ready-code :
        (event : SysEventReady) (v : ℕ) → v ≡ ready_code event → ready_try_from v ≡ some event
    ready-code event v h = ground (arith, h)

    status-code :
        (status : SysCommandStatus) (v : ℕ)
        → v ≡ status_code status
        → status_try_from v ≡ some status
    status-code status v h = ground (arith, h)
