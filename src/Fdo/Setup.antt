-- ===== src/Fdo/Setup.antt =====
-- winvhci/fdo.c: WinVhciEvtSelfManagedIoCleanup. The two queues exist on a device whose setup
-- succeeded.
use windows_vhci_driver.Context.{FdoContext, events, acl}
use windows_vhci_driver.Kernel.{Wdf}
use windows_vhci_driver.User.Backlogs.{purge_backlogs}
use windows_vhci_driver.User.Handle.{purge_reads}

module _ {Queue : Type 0} (w : Wdf Queue) where
  unfoldable pub evt_self_managed_io_cleanup : FdoContext Queue → FdoContext Queue
  evt_self_managed_io_cleanup ctx = purge_backlogs (purge_reads w acl (purge_reads w events ctx))
