-- ===== src/Client/Run.antt =====
-- The client's stream over any sequence of calls that does not close the handle.
-- What a call puts into the client's stream, by what its caller and the drop counters show.
use windows_vhci_driver.Calls.{
  Call, writes, reads, ioctls, opens, closes, enters_d0, exits_d0, cancels_user_read,
  cancels_stack_read, asks_stats, forwards_up, adds_pdo, removes_pdo, tears_down, perform, run,
}
use windows_vhci_driver.Client.{
  received, received-append, queued_bytes, HoldsLargest, IsServing, Serves, Spares, Spares-Serves,
}
use windows_vhci_driver.Client.Frame.{reply_to, unless_lost}
use windows_vhci_driver.Client.Ioctl.{sent_by, bthx_dispatch-Serves}
use windows_vhci_driver.Client.Queue.{evt_io_read-Serves}
use windows_vhci_driver.Client.Write.{dispatch_write-Serves}
use windows_vhci_driver.Context.{
  FdoContext, Effect, Channel, events, acl, read_queue, set_read_queue,
}
use windows_vhci_driver.Kernel.{Wdf, Kernel, IsFifo, IsBuffered, Request, Status, nt_success}
use windows_vhci_driver.Pdo.{evt_d0_entry, evt_d0_exit, pdo_evt_cleanup, pdo_forward_to_parent}
use windows_vhci_driver.Pdo.Create.{PdoCalls, evt_child_list_create_device}
use windows_vhci_driver.Prelude.{
  ℕ, ◌≡◌, refl, sym, List, [], ◌∷◌, ◌++◌, append-nil, arith, All, All-remove_at, append-splice,
  if◌then◌else◌,
}
use windows_vhci_driver.Rendezvous.{IsConsistent}
use windows_vhci_driver.Stream.Calls.{last_status}
use windows_vhci_driver.System.Consistent.{Reach-IsConsistent}
use windows_vhci_driver.System.Handlers.{perform-Reach}
use windows_vhci_driver.User.Backlogs.{radio_stack_down}
use windows_vhci_driver.User.Handle.{evt_device_file_create}
use windows_vhci_driver.User.Stats.{evt_io_device_control}

module _ {Queue : Type 0} where
  abbrev pub sent : FdoContext Queue → Call → Effect Queue → List (List ℕ)
  sent ctx (writes k r) (ctx', done) =
      if nt_success (last_status done)
      then unless_lost ctx ctx' (reply_to ctx.next_radio_id (k.input_buffer r 2).1)
      else []
  sent ctx (ioctls k r out_length in_length code) (ctx', done) =
      sent_by code ctx ctx' r (last_status done)
  sent ctx _ _ = []

-- Any call but a close and the teardown, with buffers as long as the request says.
abbrev pub IsOpen : Call → Type 0
IsOpen (writes k r) = IsBuffered k
IsOpen (reads k r) = IsBuffered k
IsOpen (ioctls k r out_length in_length code) = IsBuffered k
IsOpen closes = ⊥
IsOpen tears_down = ⊥
IsOpen _ = Unit

module _ {Queue : Type 0} (w : Wdf Queue) where
  abbrev pub all_sent : FdoContext Queue → List Call → List (List ℕ)
  all_sent ctx [] = []
  all_sent ctx (c ∷ cs) = sent ctx c (perform w ctx c) ++ all_sent (perform w ctx c).0 cs

  module _ (fifo : IsFifo w) where
    others-Spares :
        (ctx : FdoContext Queue)
        → ((r : Request) (file : ℕ) → Spares w ctx (evt_device_file_create ctx r file))
          × ((radio_id : ℕ) → Spares w ctx (evt_d0_entry radio_id ctx, []))
          × ((radio_id : ℕ) → Spares w ctx (evt_d0_exit radio_id ctx, []))
          × ((ch : Channel) (i : ℕ)
              → Spares w ctx (set_read_queue ch (w.cancel i (read_queue ch ctx)) ctx, []))
    unfolding evt_device_file_create evt_d0_entry evt_d0_exit radio_stack_down
    others-Spares ctx = (
      λ r file. record { queue = refl; list = refl; silent = refl },
      λ radio_id. ground arith,
      λ radio_id. ground arith,
      λ ch i. cancelled ch i,
    )
      where
        cancelled :
            (ch : Channel) (i : ℕ)
            → Spares w ctx (set_read_queue ch (w.cancel i (read_queue ch ctx)) ctx, [])
        cancelled events i = record { queue = refl; list = refl; silent = refl }
        cancelled acl i = record { queue = refl; list = refl; silent = refl }

    -- The calls of PnP, and the one that reads the statistics.
    beside-Spares :
        (ctx : FdoContext Queue)
        → ((k : Kernel) (r : Request) (n code : ℕ)
            → Spares w ctx (evt_io_device_control k ctx r n code))
          × ((status : Status) (r : Request) → Spares w ctx (pdo_forward_to_parent status ctx r))
          × ((p : PdoCalls) → Spares w ctx ((evt_child_list_create_device p ctx).1, []))
          × Spares w ctx (pdo_evt_cleanup ctx, [])
    unfolding evt_io_device_control pdo_forward_to_parent evt_child_list_create_device
        pdo_evt_cleanup
    beside-Spares ctx =
        (λ k r n code. ground arith, λ status r. ground arith, λ p. ground arith, ground arith)

    cancel-Serves :
        (ctx : FdoContext Queue) (i : ℕ)
        → IsServing w ctx
        → Serves w ctx [] (record ctx { user_read_queue = w.cancel i ctx.user_read_queue }, [])
    cancel-Serves ctx i v = ground (
      arith,
      append-nil (queued_bytes ctx.host_to_ctrl_list),
      fifo.cancels i ctx.user_read_queue,
      All-remove_at HoldsLargest i (w.waiting ctx.user_read_queue),
    )

    perform-Serves :
        (ctx : FdoContext Queue) (c : Call)
        → IsConsistent w ctx
        → IsServing w ctx
        → IsOpen c
        → Serves w ctx (sent ctx c (perform w ctx c)) (perform w ctx c)
    unfolding perform
    perform-Serves ctx (writes k r) c v s = dispatch_write-Serves w fifo k ctx r s c v
    perform-Serves ctx (reads k r) c v s = evt_io_read-Serves w fifo k ctx r s v
    perform-Serves ctx (ioctls k r out_length in_length code) c v s =
        bthx_dispatch-Serves w fifo k ctx r out_length in_length code s c v
    perform-Serves ctx (opens r file) c v s = Spares-Serves w ctx _ ((others-Spares ctx).0 r file) v
    perform-Serves ctx closes c v s = absurd s
    perform-Serves ctx (enters_d0 radio_id) c v s =
        Spares-Serves w ctx _ ((others-Spares ctx).1 radio_id) v
    perform-Serves ctx (exits_d0 radio_id) c v s =
        Spares-Serves w ctx _ ((others-Spares ctx).2 radio_id) v
    perform-Serves ctx (cancels_user_read i) c v s = cancel-Serves ctx i v
    perform-Serves ctx (cancels_stack_read ch i) c v s =
        Spares-Serves w ctx _ ((others-Spares ctx).3 ch i) v
    perform-Serves ctx (asks_stats k r len code) c v s =
        Spares-Serves w ctx _ ((beside-Spares ctx).0 k r len code) v
    perform-Serves ctx (forwards_up status r) c v s =
        Spares-Serves w ctx _ ((beside-Spares ctx).1 status r) v
    perform-Serves ctx (adds_pdo p) c v s = Spares-Serves w ctx _ ((beside-Spares ctx).2 p) v
    perform-Serves ctx removes_pdo c v s = Spares-Serves w ctx _ (beside-Spares ctx).3 v
    perform-Serves ctx tears_down c v s = absurd s

    -- No packet for the client is lost without being counted, made up, duplicated, cut or
    -- reordered: the bytes that its reads return over a sequence of calls, followed by the H4
    -- packets left on its backlog, are the backlog at the start followed by the packets of the
    -- WRITE_HCI requests and the replies of the control packets that succeeded, in their order,
    -- less those during which a drop counter moved. The sequence holds no close and no teardown, its output
    -- buffers are as long as the requests say, and the start satisfies the rendezvous, holds only
    -- packets of the driver's size and only reads with room for any of them.
    pub run_client :
        (ctx : FdoContext Queue) (cs : List Call)
        → IsConsistent w ctx
        → IsServing w ctx
        → All IsOpen cs
        → received (run w ctx cs).1 ++ queued_bytes (run w ctx cs).0.host_to_ctrl_list
          ≡ queued_bytes ctx.host_to_ctrl_list ++ all_sent ctx cs
    unfolding run
    run_client ctx [] c v s = sym (append-nil (queued_bytes ctx.host_to_ctrl_list))
    run_client ctx (call ∷ cs) c v s =
        let first = perform-Serves ctx call c v s.0 in
        let ctx' = (perform w ctx call).0 in
        let later =
          run_client ctx' cs (Reach-IsConsistent w fifo c (perform-Reach w ctx call)) first.keeps
            s.1 in
        rw (received-append (perform w ctx call).1 (run w ctx' cs).1) (
          append-splice (received (perform w ctx call).1) (received (run w ctx' cs).1)
            (queued_bytes ctx.host_to_ctrl_list) (queued_bytes ctx'.host_to_ctrl_list)
            (queued_bytes (run w ctx' cs).0.host_to_ctrl_list) (sent ctx call (perform w ctx call))
            (all_sent ctx' cs) first.stream later)
