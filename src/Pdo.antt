-- ===== src/Pdo.antt =====
-- winvhci/pdo.c: the radio's PDO, a shim that forwards to the FDO and reports power and lifetime.
pub mod Create
use windows_vhci_driver.Context.{FdoContext, nothing, complete, Effect}
use windows_vhci_driver.Kernel.{Request, Status, nt_success}
use windows_vhci_driver.Prelude.{ℕ, true, [], ◌∷◌, ◌==◌, if◌then◌else◌, inc32, dec32}
use windows_vhci_driver.User.Backlogs.{radio_stack_down}

module _ {Queue : Type 0} where
  -- WinVhciPdoEvtD0Entry of the PDO with this RadioId.
  unfoldable pub evt_d0_entry : ℕ → FdoContext Queue → FdoContext Queue
  evt_d0_entry radio_id ctx =
      if radio_id == ctx.current_radio_id then record ctx { radio_started = true } else ctx

  -- WinVhciPdoEvtD0Exit
  unfoldable pub evt_d0_exit : ℕ → FdoContext Queue → FdoContext Queue
  evt_d0_exit radio_id ctx = radio_stack_down radio_id ctx

  -- WinVhciPdoEvtCleanup: InterlockedDecrement of RadiosAlive.
  unfoldable pub pdo_evt_cleanup : FdoContext Queue → FdoContext Queue
  pdo_evt_cleanup ctx = record ctx { radios_alive = dec32 ctx.radios_alive }

  -- WinVhciPdoForwardToParent: the answer is the status of the forward to the FDO's queue, and
  -- the request is completed here only if it was refused.
  unfoldable pub pdo_forward_to_parent : Status → FdoContext Queue → Request → Effect Queue
  pdo_forward_to_parent status ctx r = (
    record ctx { pdo_request_count = inc32 ctx.pdo_request_count },
    (if nt_success status then [] else complete r status 0 nothing ∷ []),
  )
