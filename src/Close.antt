-- ===== src/Close.antt =====
-- What a close leaves behind (WinVhciEvtFileClose of winvhci/user.c): the Bluetooth stack goes on
-- issuing requests for seconds after the client is gone.
use windows_vhci_driver.Calls.{
  Call, writes, reads, ioctls, opens, closes, enters_d0, exits_d0, cancels_user_read,
  cancels_stack_read, asks_stats, forwards_up, adds_pdo, removes_pdo, tears_down, perform, run,
}
use windows_vhci_driver.Context.{hci_context_header_size, FdoContext, Channel, events, acl}
use windows_vhci_driver.Fdo.Dispatch.{
  read_channel, set_version_case, count_write_hci, count_ioctl, write_hci_case, take_or_park,
  read_hci_case, bthx_case, bthx_dispatch,
}
use windows_vhci_driver.Fdo.Setup.{evt_self_managed_io_cleanup}
use windows_vhci_driver.Kernel.{Wdf, Kernel, Request, IoControlCode, write_hci, read_hci}
use windows_vhci_driver.Pdo.{evt_d0_entry, evt_d0_exit, pdo_evt_cleanup, pdo_forward_to_parent}
use windows_vhci_driver.Pdo.Create.{evt_child_list_create_device}
use windows_vhci_driver.Prelude.{ℕ, ◌-◌, ◌≡◌, false, none, List, [], ◌∷◌, arith, take, All}
use windows_vhci_driver.User.Backlogs.{radio_stack_down, purge_backlogs}
use windows_vhci_driver.User.Handle.{evt_file_close}
use windows_vhci_driver.User.Stats.{evt_io_device_control}
use windows_vhci_driver.User.ToStack.{take_or_park_for_stack}
use windows_vhci_driver.User.ToUser.{queue_to_user}

-- The calls that can come without a handle: all but the reads and writes of a client and an open.
abbrev pub NeedsNoHandle : Call → Type 0
NeedsNoHandle (writes k r) = ⊥
NeedsNoHandle (reads k r) = ⊥
NeedsNoHandle (opens r file) = ⊥
NeedsNoHandle _ = Unit

module _ {Queue : Type 0} where
  -- No client, no radio asked for, and no packet held.
  pub record IsClosed (ctx : FdoContext Queue) : Type 0 where
    pub owner : ctx.owner ≡ none
    pub present : ctx.radio_present ≡ false
    pub host_to_ctrl : ctx.host_to_ctrl_list ≡ []
    pub pending_event : ctx.pending_event_list ≡ []
    pub pending_data : ctx.pending_data_list ≡ []
    pub depths :
        (ctx.host_to_ctrl_count ≡ 0) × (ctx.pending_event_count ≡ 0) × (ctx.pending_data_count ≡ 0)

module _ {Queue : Type 0} (w : Wdf Queue) where
  evt_file_close-IsClosed : (ctx : FdoContext Queue) → IsClosed (evt_file_close w ctx).1
  unfolding evt_file_close purge_backlogs
  evt_file_close-IsClosed ctx = ground arith

  queue_to_user-IsClosed :
      (k : Kernel) (ctx : FdoContext Queue) (type : ℕ) (body : List ℕ)
      → IsClosed ctx
      → IsClosed (queue_to_user w k ctx type body).0
  unfolding queue_to_user
  queue_to_user-IsClosed k ctx type body c = ground arith

  take_or_park-IsClosed :
      (ctx : FdoContext Queue) (r : Request) (ch : Channel)
      → IsClosed ctx
      → IsClosed (take_or_park w ctx r ch).0
  unfolding take_or_park take_or_park_for_stack
  take_or_park-IsClosed ctx r events c = ground arith
  take_or_park-IsClosed ctx r acl c = ground arith

  bthx_case-IsClosed :
      (k : Kernel) (ctx : FdoContext Queue) (r : Request) (out_length in_length : ℕ)
      (code : IoControlCode)
      → IsClosed ctx
      → IsClosed (bthx_case w k ctx r out_length in_length code).0
  unfolding bthx_case set_version_case write_hci_case read_hci_case
  bthx_case-IsClosed k ctx r out_length in_length write_hci c = ground (
    arith,
    queue_to_user-IsClosed k (count_write_hci ctx) r.input.type
        (take r.input.data_len r.input.bytes),
  )
  bthx_case-IsClosed k ctx r out_length in_length read_hci c = ground (
    arith,
    take_or_park-IsClosed ctx r
        (read_channel r.input.data_len (out_length - hci_context_header_size)) c,
  )
  bthx_case-IsClosed k ctx r out_length in_length code c = ground arith

  bthx_dispatch-IsClosed :
      (k : Kernel) (ctx : FdoContext Queue) (r : Request) (out_length in_length : ℕ)
      (code : IoControlCode)
      → IsClosed ctx
      → IsClosed (bthx_dispatch w k ctx r out_length in_length code).0
  unfolding bthx_dispatch
  bthx_dispatch-IsClosed k ctx r out_length in_length code c =
      ground (arith, bthx_case-IsClosed k (count_ioctl ctx) r out_length in_length code)

  perform-IsClosed :
      (ctx : FdoContext Queue) (c : Call)
      → NeedsNoHandle c
      → IsClosed ctx
      → IsClosed (perform w ctx c).0
  unfolding perform evt_d0_entry evt_d0_exit radio_stack_down evt_io_device_control
      pdo_forward_to_parent evt_child_list_create_device pdo_evt_cleanup evt_self_managed_io_cleanup
      purge_backlogs
  perform-IsClosed ctx (writes k r) n c = absurd n
  perform-IsClosed ctx (reads k r) n c = absurd n
  perform-IsClosed ctx (ioctls k r out_length in_length code) n c =
      bthx_dispatch-IsClosed k ctx r out_length in_length code c
  perform-IsClosed ctx (opens r file) n c = absurd n
  perform-IsClosed ctx closes n c = evt_file_close-IsClosed ctx
  perform-IsClosed ctx (enters_d0 radio_id) n c = ground arith
  perform-IsClosed ctx (exits_d0 radio_id) n c = ground arith
  perform-IsClosed ctx (cancels_user_read i) n c = ground arith
  perform-IsClosed ctx (cancels_stack_read events i) n c = ground arith
  perform-IsClosed ctx (cancels_stack_read acl i) n c = ground arith
  perform-IsClosed ctx (asks_stats k r len code) n c = ground arith
  perform-IsClosed ctx (forwards_up status r) n c = ground arith
  perform-IsClosed ctx (adds_pdo p) n c = ground arith
  perform-IsClosed ctx removes_pdo n c = ground arith
  perform-IsClosed ctx tears_down n c = ground arith

  run-IsClosed :
      (ctx : FdoContext Queue) (cs : List Call)
      → All NeedsNoHandle cs
      → IsClosed ctx
      → IsClosed (run w ctx cs).0
  unfolding run
  run-IsClosed ctx [] n c = c
  run-IsClosed ctx (d ∷ ds) n c =
      run-IsClosed (perform w ctx d).0 ds n.1 (perform-IsClosed ctx d n.0 c)

  -- After a close, and until the next open, whatever requests, power events and cancellations
  -- come: there is no owner and no radio, all three lists hold no packet, and their depths are 0.
  pub close_run-IsClosed :
      (ctx : FdoContext Queue) (cs : List Call)
      → All NeedsNoHandle cs
      → IsClosed (run w (evt_file_close w ctx).1 cs).0
  close_run-IsClosed ctx cs n =
      run-IsClosed (evt_file_close w ctx).1 cs n (evt_file_close-IsClosed ctx)
