-- ===== src/Calls.antt =====
-- The entry points of a device that has been set up, as one type of calls: the callbacks of its
-- queues, its handle, its PDOs and its teardown, and the framework's cancellations. A sequence of
-- calls runs one after another; System has their regions interleaved.
use windows_vhci_driver.Context.{FdoContext, Effect, Channel, read_queue, set_read_queue}
use windows_vhci_driver.Fdo.Dispatch.{bthx_dispatch}
use windows_vhci_driver.Fdo.Setup.{evt_self_managed_io_cleanup}
use windows_vhci_driver.Kernel.{Wdf, Kernel, Request, IoControlCode, Status}
use windows_vhci_driver.Pdo.{evt_d0_entry, evt_d0_exit, pdo_evt_cleanup, pdo_forward_to_parent}
use windows_vhci_driver.Pdo.Create.{PdoCalls, evt_child_list_create_device}
use windows_vhci_driver.Prelude.{ℕ, List, [], ◌∷◌, ◌++◌}
use windows_vhci_driver.User.Handle.{evt_device_file_create, evt_file_close}
use windows_vhci_driver.User.Stats.{evt_io_device_control}
use windows_vhci_driver.User.ToUser.{evt_io_read}
use windows_vhci_driver.User.Write.{dispatch_write}

pub data Call : Type 0 where
  writes : Kernel → Request → Call
  reads : Kernel → Request → Call
  ioctls : Kernel → Request → ℕ → ℕ → IoControlCode → Call
  opens : Request → ℕ → Call
  closes : Call
  enters_d0 : ℕ → Call
  exits_d0 : ℕ → Call
  cancels_user_read : ℕ → Call
  cancels_stack_read : Channel → ℕ → Call
  asks_stats : Kernel → Request → ℕ → ℕ → Call
  forwards_up : Status → Request → Call
  adds_pdo : PdoCalls → Call
  removes_pdo : Call
  tears_down : Call

module _ {Queue : Type 0} (w : Wdf Queue) where
  unfoldable pub perform : FdoContext Queue → Call → Effect Queue
  perform ctx (writes k r) = dispatch_write w k ctx r
  perform ctx (reads k r) = evt_io_read w k ctx r
  perform ctx (ioctls k r out_length in_length code) =
      bthx_dispatch w k ctx r out_length in_length code
  perform ctx (opens r file) = evt_device_file_create ctx r file
  perform ctx closes = ((evt_file_close w ctx).1, [])
  perform ctx (enters_d0 radio_id) = (evt_d0_entry radio_id ctx, [])
  perform ctx (exits_d0 radio_id) = (evt_d0_exit radio_id ctx, [])
  perform ctx (cancels_user_read i) =
      (record ctx { user_read_queue = w.cancel i ctx.user_read_queue }, [])
  perform ctx (cancels_stack_read ch i) =
      (set_read_queue ch (w.cancel i (read_queue ch ctx)) ctx, [])
  perform ctx (asks_stats k r output_buffer_length code) =
      evt_io_device_control k ctx r output_buffer_length code
  perform ctx (forwards_up status r) = pdo_forward_to_parent status ctx r
  perform ctx (adds_pdo c) = ((evt_child_list_create_device c ctx).1, [])
  perform ctx removes_pdo = (pdo_evt_cleanup ctx, [])
  perform ctx tears_down = (evt_self_managed_io_cleanup w ctx, [])

  unfoldable pub run : FdoContext Queue → List Call → Effect Queue
  unfolding perform
  run ctx [] = (ctx, [])
  run ctx (c ∷ cs) =
      let (ctx', done) = perform ctx c in let (ctx'', later) = run ctx' cs in (ctx'', done ++ later)
