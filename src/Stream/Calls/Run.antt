-- ===== src/Stream/Calls/Run.antt =====
-- The stream of a channel over any sequence of calls that does not reset it.
use windows_vhci_driver.Calls.{
  Call, writes, reads, ioctls, opens, closes, enters_d0, exits_d0, cancels_user_read,
  cancels_stack_read, asks_stats, forwards_up, adds_pdo, removes_pdo, tears_down, perform, run,
}
use windows_vhci_driver.Context.{
  Packet, FdoContext, Channel, events, acl, read_queue, pending_list, set_read_queue,
}
use windows_vhci_driver.Kernel.{Wdf, Kernel, IsFifo, Request, Status}
use windows_vhci_driver.Pdo.{evt_d0_entry, pdo_evt_cleanup, pdo_forward_to_parent}
use windows_vhci_driver.Pdo.Create.{PdoCalls, evt_child_list_create_device}
use windows_vhci_driver.Prelude.{
  ℕ, ◌≡◌, refl, sym, List, [], ◌∷◌, ◌++◌, append-nil, arith, All, All-remove_at, append-splice,
}
use windows_vhci_driver.Rendezvous.{IsConsistent}
use windows_vhci_driver.Stream.{
  delivered, delivered-append, IsRoomy, IsDeliverable, Advances, Ignores, Ignores-Advances,
}
use windows_vhci_driver.Stream.Calls.{admitted, PostsRoomy}
use windows_vhci_driver.Stream.Calls.Ioctl.{bthx_dispatch-Advances}
use windows_vhci_driver.Stream.Calls.Write.{dispatch_write-Advances}
use windows_vhci_driver.Stream.Frame.{evt_io_read-Ignores}
use windows_vhci_driver.System.Consistent.{Reach-IsConsistent}
use windows_vhci_driver.System.Handlers.{perform-Reach}
use windows_vhci_driver.User.Handle.{evt_device_file_create}
use windows_vhci_driver.User.Stats.{evt_io_device_control}

-- Neither a close, a D0 exit nor the teardown, which drop the backlogs on purpose, nor a read without room.
abbrev pub IsSteady : Call → Type 0
IsSteady (ioctls k r out_length in_length code) = PostsRoomy r out_length code
IsSteady closes = ⊥
IsSteady (exits_d0 radio_id) = ⊥
IsSteady tears_down = ⊥
IsSteady _ = Unit

module _ {Queue : Type 0} (w : Wdf Queue) where
  -- The packets of the channel whose writes succeeded, in the order of the writes.
  abbrev pub accepted : Channel → FdoContext Queue → List Call → List Packet
  accepted ch ctx [] = []
  accepted ch ctx (c ∷ cs) = admitted ch c (perform w ctx c).1 ++ accepted ch (perform w ctx c).0 cs

  pub record IsReady (ctx : FdoContext Queue) : Type 0 where
    pub consistent : IsConsistent w ctx
    pub events_ready : IsDeliverable w events ctx
    pub acl_ready : IsDeliverable w acl ctx

  module _ (fifo : IsFifo w) where
    either : {ctx : FdoContext Queue} → IsReady ctx → (ch : Channel) → IsDeliverable w ch ctx
    either v events = v.events_ready
    either v acl = v.acl_ready

    cancel-Advances :
        (ch ch' : Channel) (ctx : FdoContext Queue) (i : ℕ)
        → IsDeliverable w ch ctx
        → Advances w ch ctx [] (set_read_queue ch' (w.cancel i (read_queue ch' ctx)) ctx, [])
    cancel-Advances events events ctx i d = ground (
      arith,
      append-nil ctx.pending_event_list,
      fifo.cancels i ctx.read_event_queue,
      All-remove_at (IsRoomy events) i (w.waiting ctx.read_event_queue),
    )
    cancel-Advances acl acl ctx i d = ground (
      arith,
      append-nil ctx.pending_data_list,
      fifo.cancels i ctx.read_data_queue,
      All-remove_at (IsRoomy acl) i (w.waiting ctx.read_data_queue),
    )
    cancel-Advances events acl ctx i d =
        Ignores-Advances w events ctx _ (record { queue = refl; list = refl; silent = refl }) d
    cancel-Advances acl events ctx i d =
        Ignores-Advances w acl ctx _ (record { queue = refl; list = refl; silent = refl }) d

    others-Ignores :
        (ch : Channel) (ctx : FdoContext Queue)
        → ((r : Request) (file : ℕ) → Ignores w ch ctx (evt_device_file_create ctx r file))
          × ((radio_id : ℕ) → Ignores w ch ctx (evt_d0_entry radio_id ctx, []))
          × ((i : ℕ)
              → Ignores w ch ctx
                  (record ctx { user_read_queue = w.cancel i ctx.user_read_queue }, []))
    unfolding evt_device_file_create evt_d0_entry
    others-Ignores events ctx =
        (λ r file. ground arith, λ radio_id. ground arith, λ i. ground arith)
    others-Ignores acl ctx = (λ r file. ground arith, λ radio_id. ground arith, λ i. ground arith)

    -- The calls of PnP, and the one that reads the statistics.
    beside-Ignores :
        (ch : Channel) (ctx : FdoContext Queue)
        → ((k : Kernel) (r : Request) (n code : ℕ)
            → Ignores w ch ctx (evt_io_device_control k ctx r n code))
          × ((status : Status) (r : Request)
              → Ignores w ch ctx (pdo_forward_to_parent status ctx r))
          × ((p : PdoCalls) → Ignores w ch ctx ((evt_child_list_create_device p ctx).1, []))
          × Ignores w ch ctx (pdo_evt_cleanup ctx, [])
    unfolding evt_io_device_control pdo_forward_to_parent evt_child_list_create_device
        pdo_evt_cleanup
    beside-Ignores events ctx =
        (λ k r n code. ground arith, λ status r. ground arith, λ p. ground arith, ground arith)
    beside-Ignores acl ctx =
        (λ k r n code. ground arith, λ status r. ground arith, λ p. ground arith, ground arith)

    perform-Advances :
        (ch : Channel) (ctx : FdoContext Queue) (c : Call)
        → IsReady ctx
        → IsSteady c
        → Advances w ch ctx (admitted ch c (perform w ctx c).1) (perform w ctx c)
    unfolding perform
    perform-Advances ch ctx (writes k r) v s =
        dispatch_write-Advances w fifo ch k ctx r v.consistent (either v ch)
    perform-Advances ch ctx (reads k r) v s =
        Ignores-Advances w ch ctx _ (evt_io_read-Ignores w ch k ctx r) (either v ch)
    perform-Advances ch ctx (ioctls k r out_length in_length code) v s =
        bthx_dispatch-Advances w fifo ch k ctx r out_length in_length code (either v) s
    perform-Advances ch ctx (opens r file) v s =
        Ignores-Advances w ch ctx _ ((others-Ignores ch ctx).0 r file) (either v ch)
    perform-Advances ch ctx closes v s = absurd s
    perform-Advances ch ctx (enters_d0 radio_id) v s =
        Ignores-Advances w ch ctx _ ((others-Ignores ch ctx).1 radio_id) (either v ch)
    perform-Advances ch ctx (exits_d0 radio_id) v s = absurd s
    perform-Advances ch ctx (cancels_user_read i) v s =
        Ignores-Advances w ch ctx _ ((others-Ignores ch ctx).2 i) (either v ch)
    perform-Advances ch ctx (cancels_stack_read ch' i) v s =
        cancel-Advances ch ch' ctx i (either v ch)
    perform-Advances ch ctx (asks_stats k r len code) v s =
        Ignores-Advances w ch ctx _ ((beside-Ignores ch ctx).0 k r len code) (either v ch)
    perform-Advances ch ctx (forwards_up status r) v s =
        Ignores-Advances w ch ctx _ ((beside-Ignores ch ctx).1 status r) (either v ch)
    perform-Advances ch ctx (adds_pdo p) v s =
        Ignores-Advances w ch ctx _ ((beside-Ignores ch ctx).2 p) (either v ch)
    perform-Advances ch ctx removes_pdo v s =
        Ignores-Advances w ch ctx _ (beside-Ignores ch ctx).3 (either v ch)
    perform-Advances ch ctx tears_down v s = absurd s

    perform-IsReady :
        (ctx : FdoContext Queue) (c : Call) → IsReady ctx → IsSteady c → IsReady (perform w ctx c).0
    perform-IsReady ctx c v s = record {
      consistent = Reach-IsConsistent w fifo v.consistent (perform-Reach w ctx c);
      events_ready = (perform-Advances events ctx c v s).keeps;
      acl_ready = (perform-Advances acl ctx c v s).keeps;
    }

    -- No packet is lost, made up, duplicated or reordered on its way to the stack: what the reads
    -- of a channel deliver over a sequence of calls, followed by what is left on its backlog, is
    -- the backlog at the start followed by the packets whose writes succeeded, in their order. The
    -- sequence holds neither a close, a D0 exit nor the teardown, and its reads have room for the channel's
    -- packets; the start satisfies the rendezvous, and its waiting reads and packets are of the
    -- driver's sizes.
    pub run_stream :
        (ch : Channel) (ctx : FdoContext Queue) (cs : List Call)
        → IsReady ctx
        → All IsSteady cs
        → delivered ch (run w ctx cs).1 ++ pending_list ch (run w ctx cs).0
          ≡ pending_list ch ctx ++ accepted ch ctx cs
    unfolding run
    run_stream ch ctx [] v s = sym (append-nil (pending_list ch ctx))
    run_stream ch ctx (c ∷ cs) v s =
        let later = run_stream ch (perform w ctx c).0 cs (perform-IsReady ctx c v s.0) s.1 in
        rw (delivered-append ch (perform w ctx c).1 (run w (perform w ctx c).0 cs).1) (
          append-splice (delivered ch (perform w ctx c).1)
            (delivered ch (run w (perform w ctx c).0 cs).1) (pending_list ch ctx)
            (pending_list ch (perform w ctx c).0) (pending_list ch (run w (perform w ctx c).0 cs).0)
            (admitted ch c (perform w ctx c).1) (accepted ch (perform w ctx c).0 cs)
            (perform-Advances ch ctx c v s.0).stream later)
