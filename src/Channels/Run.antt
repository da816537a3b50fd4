-- ===== src/Channels/Run.antt =====
-- The separation of the channels over any sequence of calls.
use windows_vhci_driver.Calls.{
  Call, writes, reads, ioctls, opens, closes, enters_d0, exits_d0, cancels_user_read,
  cancels_stack_read, asks_stats, forwards_up, adds_pdo, removes_pdo, tears_down, perform, run,
}
use windows_vhci_driver.Channels.{IsFor, IsAnswered, IsSeparated, Separates}
use windows_vhci_driver.Channels.Calls.{evt_io_read-Separates}
use windows_vhci_driver.Channels.Entry.{
  stays-Separates, dispatch_write-Separates, bthx_dispatch-Separates,
}
use windows_vhci_driver.Context.{FdoContext, Channel, events, acl, read_queue, set_read_queue}
use windows_vhci_driver.Fdo.Setup.{evt_self_managed_io_cleanup}
use windows_vhci_driver.Kernel.{Wdf, IsFifo}
use windows_vhci_driver.Pdo.{evt_d0_entry, evt_d0_exit, pdo_evt_cleanup, pdo_forward_to_parent}
use windows_vhci_driver.Pdo.Create.{evt_child_list_create_device}
use windows_vhci_driver.Prelude.{ℕ, List, [], ◌∷◌, arith, All-append, All-remove_at}
use windows_vhci_driver.User.Backlogs.{radio_stack_down, purge_backlogs}
use windows_vhci_driver.User.Handle.{evt_device_file_create, evt_file_close}
use windows_vhci_driver.User.Stats.{evt_io_device_control}

module _ {Queue : Type 0} (w : Wdf Queue) (fifo : IsFifo w) where
  close-IsSeparated : (ctx : FdoContext Queue) → IsSeparated w (evt_file_close w ctx).1
  unfolding evt_file_close purge_backlogs
  close-IsSeparated ctx = record {
    event_reads =
        rw (fifo.starts (w.purge ctx.read_event_queue), fifo.purges ctx.read_event_queue) tt;
    data_reads = rw (fifo.starts (w.purge ctx.read_data_queue), fifo.purges ctx.read_data_queue) tt;
    event_packets = tt;
    data_packets = tt;
  }

  teardown-IsSeparated :
      (ctx : FdoContext Queue) → IsSeparated w (evt_self_managed_io_cleanup w ctx)
  unfolding evt_self_managed_io_cleanup purge_backlogs
  teardown-IsSeparated ctx = record {
    event_reads = rw (fifo.purges ctx.read_event_queue) tt;
    data_reads = rw (fifo.purges ctx.read_data_queue) tt;
    event_packets = tt;
    data_packets = tt;
  }

  cancel-Separates :
      (ch : Channel) (ctx : FdoContext Queue) (i : ℕ)
      → IsSeparated w ctx
      → Separates w (set_read_queue ch (w.cancel i (read_queue ch ctx)) ctx, [])
  cancel-Separates events ctx i s = ground (
    arith,
    fifo.cancels i ctx.read_event_queue,
    All-remove_at (IsFor events) i (w.waiting ctx.read_event_queue),
  )
  cancel-Separates acl ctx i s = ground (
    arith,
    fifo.cancels i ctx.read_data_queue,
    All-remove_at (IsFor acl) i (w.waiting ctx.read_data_queue),
  )

  perform-Separates :
      (ctx : FdoContext Queue) (c : Call) → IsSeparated w ctx → Separates w (perform w ctx c)
  unfolding perform evt_device_file_create evt_d0_entry evt_d0_exit radio_stack_down
      evt_io_device_control pdo_forward_to_parent evt_child_list_create_device pdo_evt_cleanup
  perform-Separates ctx (writes k r) s = dispatch_write-Separates w fifo k ctx r s
  perform-Separates ctx (reads k r) s = evt_io_read-Separates w k ctx r s
  perform-Separates ctx (ioctls k r out_length in_length code) s =
      bthx_dispatch-Separates w fifo k ctx r out_length in_length code s
  perform-Separates ctx (opens r file) s = ground arith
  perform-Separates ctx closes s = stays-Separates w _ (close-IsSeparated ctx)
  perform-Separates ctx (enters_d0 radio_id) s = ground arith
  perform-Separates ctx (exits_d0 radio_id) s = ground arith
  perform-Separates ctx (cancels_user_read i) s = ground arith
  perform-Separates ctx (cancels_stack_read ch i) s = cancel-Separates ch ctx i s
  perform-Separates ctx (asks_stats k r len code) s = ground arith
  perform-Separates ctx (forwards_up status r) s = ground arith
  perform-Separates ctx (adds_pdo p) s = ground arith
  perform-Separates ctx removes_pdo s = ground arith
  perform-Separates ctx tears_down s = stays-Separates w _ (teardown-IsSeparated ctx)

  -- Whatever is called, in any order: a READ_HCI that is completed with a packet is a kernel-mode
  -- request whose output buffer lies right behind its packet type, and receives an event if it
  -- asked for events and ACL data if it asked for ACL data; and at the end the event channel holds
  -- only events and the data channel only ACL data, and only such reads wait, none for the other
  -- channel's type, if that is so at the start.
  pub run-Separates :
      (ctx : FdoContext Queue) (cs : List Call) → IsSeparated w ctx → Separates w (run w ctx cs)
  unfolding run
  run-Separates ctx [] s = stays-Separates w ctx s
  run-Separates ctx (c ∷ cs) s =
      let first = perform-Separates ctx c s in
      let (ctx', done) = perform w ctx c in
      let later = run-Separates ctx' cs first.keeps in
      record {
        keeps = later.keeps;
        answered = All-append IsAnswered done (run w ctx' cs).1 first.answered later.answered;
      }
