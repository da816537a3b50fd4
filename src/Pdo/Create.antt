-- ===== src/Pdo/Create.antt =====
-- winvhci/pdo.c: WinVhciEvtChildListCreateDevice.
use windows_vhci_driver.Context.{FdoContext}
use windows_vhci_driver.Kernel.{Status, nt_success}
use windows_vhci_driver.Prelude.{if◌then◌else◌, inc32}
use windows_vhci_driver.Result.{Result, returned, refused, ◌>>◌, check}

-- What the framework answers to the calls of one creation.
pub record PdoCalls : Type 0 where
  pub assign_device_id : Status
  pub add_hardware_id : Status
  pub add_compatible_id : Status
  pub assign_instance_id : Status
  pub add_device_text : Status
  pub device_create : Status
  pub io_queue_create : Status

-- The calls before the PDO exists.
unfoldable pub create_pdo : PdoCalls → Result (Unit {0})
create_pdo c = do
  check c.assign_device_id
  check c.add_hardware_id
  check c.add_compatible_id
  check c.assign_instance_id
  check c.add_device_text
  check c.device_create

module _ {Queue : Type 0} where
  -- RadiosAlive counts the PDO once it exists, before its queue is created.
  unfoldable pub evt_child_list_create_device :
      PdoCalls → FdoContext Queue → Status × FdoContext Queue
  unfolding create_pdo
  evt_child_list_create_device c ctx = elim (create_pdo c) [
    | refused s ↦ (s, ctx)
    | returned _ ↦ (
      if nt_success c.io_queue_create then Status.success else c.io_queue_create,
      record ctx { radios_alive = inc32 ctx.radios_alive },
    )
  ]
