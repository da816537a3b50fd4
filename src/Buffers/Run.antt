-- ===== src/Buffers/Run.antt =====
-- The buffers over any sequence of calls.
-- Output buffers of the reads are as long as the requests say.
use windows_vhci_driver.Buffers.{
  IsContained, queue_to_user-IsContained, evt_io_read-IsContained, take_or_park-IsContained,
  dispatch_write-IsContained,
}
use windows_vhci_driver.Calls.{
  Call, writes, reads, ioctls, opens, closes, enters_d0, exits_d0, cancels_user_read,
  cancels_stack_read, asks_stats, forwards_up, adds_pdo, removes_pdo, tears_down, perform, run,
}
use windows_vhci_driver.Context.{hci_context_header_size, FdoContext}
use windows_vhci_driver.Fdo.Dispatch.{
  get_version_case, query_capabilities_case, read_channel, set_version_case, count_write_hci,
  count_ioctl, write_hci_case, read_hci_case, settle, bthx_case, bthx_dispatch,
}
use windows_vhci_driver.Kernel.{
  Wdf, Kernel, IsBuffered, Request, IoControlCode, get_version, set_version, query_capabilities,
  write_hci, read_hci, unknown,
}
use windows_vhci_driver.Pdo.{pdo_forward_to_parent}
use windows_vhci_driver.Prelude.{ℕ, ◌-◌, List, [], ◌∷◌, arith, take, All, All-append}
use windows_vhci_driver.User.Handle.{evt_device_file_create}
use windows_vhci_driver.User.Stats.{evt_io_device_control}

abbrev pub HasBuffers : Call → Type 0
HasBuffers (writes k r) = IsBuffered k
HasBuffers (reads k r) = IsBuffered k
HasBuffers (ioctls k r out_length in_length code) = IsBuffered k
HasBuffers _ = Unit

module _ {Queue : Type 0} (w : Wdf Queue) where
  bthx_case-IsContained :
      (k : Kernel) (ctx : FdoContext Queue) (r : Request) (out_length in_length : ℕ)
      (code : IoControlCode)
      → IsBuffered k
      → let (ctx', done, v) = bthx_case w k ctx r out_length in_length code in
        All IsContained done × All IsContained (settle r v)
  unfolding bthx_case get_version_case set_version_case query_capabilities_case write_hci_case
      read_hci_case
  bthx_case-IsContained k ctx r out_length in_length get_version b = ground arith
  bthx_case-IsContained k ctx r out_length in_length set_version b = ground arith
  bthx_case-IsContained k ctx r out_length in_length query_capabilities b = ground arith
  bthx_case-IsContained k ctx r out_length in_length write_hci b = ground (
    arith,
    queue_to_user-IsContained w k (count_write_hci ctx) r.input.type
        (take r.input.data_len r.input.bytes) b,
  )
  bthx_case-IsContained k ctx r out_length in_length read_hci b = ground (
    arith,
    take_or_park-IsContained w ctx r
        (read_channel r.input.data_len (out_length - hci_context_header_size)),
  )
  bthx_case-IsContained k ctx r out_length in_length (unknown n) b = ground arith

  bthx_dispatch-IsContained :
      (k : Kernel) (ctx : FdoContext Queue) (r : Request) (out_length in_length : ℕ)
      (code : IoControlCode)
      → IsBuffered k
      → All IsContained (bthx_dispatch w k ctx r out_length in_length code).1
  unfolding bthx_dispatch
  bthx_dispatch-IsContained k ctx r out_length in_length code b =
      let (ctx', done, v) = bthx_case w k (count_ioctl ctx) r out_length in_length code in
      let (served, own) = bthx_case-IsContained k (count_ioctl ctx) r out_length in_length code b in
      ground (arith, All-append IsContained done (settle r v) served own)

  perform-IsContained :
      (ctx : FdoContext Queue) (c : Call) → HasBuffers c → All IsContained (perform w ctx c).1
  unfolding perform evt_device_file_create evt_io_device_control pdo_forward_to_parent
  perform-IsContained ctx (writes k r) b = dispatch_write-IsContained w k ctx r b
  perform-IsContained ctx (reads k r) b = evt_io_read-IsContained w k ctx r b
  perform-IsContained ctx (ioctls k r out_length in_length code) b =
      bthx_dispatch-IsContained k ctx r out_length in_length code b
  perform-IsContained ctx (opens r file) b = (tt, tt)
  perform-IsContained ctx closes b = tt
  perform-IsContained ctx (enters_d0 radio_id) b = tt
  perform-IsContained ctx (exits_d0 radio_id) b = tt
  perform-IsContained ctx (cancels_user_read i) b = tt
  perform-IsContained ctx (cancels_stack_read ch i) b = tt
  perform-IsContained ctx (asks_stats k r len code) b = ground arith
  perform-IsContained ctx (forwards_up status r) b = ground arith
  perform-IsContained ctx (adds_pdo p) b = tt
  perform-IsContained ctx removes_pdo b = tt
  perform-IsContained ctx tears_down b = tt

  -- Over any sequence of calls whose read buffers are as long as the requests say, no completion
  -- of a ReadFile or a READ_HCI carries more bytes than the request's buffer holds, the HCI
  -- header included; its Information is the number of bytes written, the DataLen of an HCI packet
  -- is its length, and no HCI packet goes to a NULL buffer.
  pub run-IsContained :
      (ctx : FdoContext Queue) (cs : List Call)
      → All HasBuffers cs
      → All IsContained (run w ctx cs).1
  unfolding run
  run-IsContained ctx [] b = tt
  run-IsContained ctx (c ∷ cs) b =
      let (ctx', done) = perform w ctx c in
      All-append IsContained done (run w ctx' cs).1 (perform-IsContained ctx c b.0)
        (run-IsContained ctx' cs b.1)
