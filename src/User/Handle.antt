-- ===== src/User/Handle.antt =====
-- winvhci/user.c: the handle's lifetime, WinVhciEvtDeviceFileCreate and WinVhciEvtFileClose.
use windows_vhci_driver.Context.{
  FdoContext, nothing, complete, Effect, Channel, events, acl, read_queue, set_read_queue,
}
use windows_vhci_driver.Kernel.{Wdf, Request, Status}
use windows_vhci_driver.Prelude.{ℕ, Bool, false, none, some, [], ◌∷◌}
use windows_vhci_driver.User.Backlogs.{purge_backlogs}

module _ {Queue : Type 0} where
  unfoldable pub evt_device_file_create : FdoContext Queue → Request → ℕ → Effect Queue
  evt_device_file_create ctx r file =
      (record ctx { owner = some file }, complete r Status.success 0 nothing ∷ [])

  -- The locked region of the close.
  unfoldable pub release_owner : FdoContext Queue → Bool × FdoContext Queue
  release_owner ctx = (ctx.radio_present, record ctx { radio_present = false; owner = none })

module _ {Queue : Type 0} (w : Wdf Queue) where
  abbrev pub purge_reads : Channel → FdoContext Queue → FdoContext Queue
  purge_reads ch ctx = set_read_queue ch (w.purge (read_queue ch ctx)) ctx

  abbrev pub start_reads : Channel → FdoContext Queue → FdoContext Queue
  start_reads ch ctx = set_read_queue ch (w.start (read_queue ch ctx)) ctx

  -- The two queues of BTHX reads are purged, then both started again.
  unfoldable pub purge_read_queues : FdoContext Queue → FdoContext Queue
  purge_read_queues ctx =
      start_reads acl (start_reads events (purge_reads acl (purge_reads events ctx)))

  -- The Boolean says whether WinVhciRemoveRadios is called, which marks every radio missing.
  unfoldable pub evt_file_close : FdoContext Queue → Bool × FdoContext Queue
  unfolding release_owner purge_read_queues
  evt_file_close ctx =
      let (had_radio, ctx') = release_owner ctx in
      (had_radio, purge_backlogs (purge_read_queues ctx'))
