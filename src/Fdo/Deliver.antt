-- ===== src/Fdo/Deliver.antt =====
-- winvhci/fdo.c: WinVhciCompleteRead and WinVhciDeliverToStack.
use windows_vhci_driver.Context.{
  hci_context_header_size, Packet, FdoContext, nothing, hci_context, Completion, complete, Channel,
  channel_of, read_queue, pending_list, pending_count, pending_peak, set_read_queue, set_pending,
  set_pending_peak, test_fail_alloc, alloc_packet, take_parked,
}
use windows_vhci_driver.Kernel.{Wdf, Kernel, Request, Status}
use windows_vhci_driver.Prelude.{
  ℕ, ◌+◌, ◌-◌, ◌||◌, Option, none, some, List, [], ◌∷◌, ◌++◌, length, ltb, ◌==◌, if◌then◌else◌,
  inc32,
}

-- The status is both the function's result and the one that the read is completed with.
unfoldable pub complete_read : Request → ℕ → List ℕ → Status × Completion
complete_read r type body =
    if r.user_buffer == 0 || ltb r.output_buffer_length hci_context_header_size
    then (Status.invalid_parameter, complete r Status.invalid_parameter 0 nothing)
    else if ltb (r.output_buffer_length - hci_context_header_size) (length body)
    then (Status.buffer_too_small, complete r Status.buffer_too_small 0 nothing)
    else (
      Status.success,
      complete r Status.success (hci_context_header_size + length body)
          (hci_context (record { data_len = length body; type = type; bytes = body })),
    )

module _ {Queue : Type 0} where
  abbrev pub raise_peak : Channel → FdoContext Queue → FdoContext Queue
  raise_peak ch ctx =
      if ltb (pending_peak ch ctx) (pending_count ch ctx)
      then set_pending_peak ch (pending_count ch ctx) ctx
      else ctx

  abbrev pub count_write : FdoContext Queue → FdoContext Queue
  count_write ctx = record ctx { writes_total = inc32 ctx.writes_total }

  -- The packet joins the backlog of its channel, or could not be allocated.
  unfoldable pub append_pending :
      Channel → Option Packet → FdoContext Queue → Status × FdoContext Queue
  append_pending ch none ctx = (
    Status.insufficient_resources,
    record ctx { drops_alloc_failed = inc32 ctx.drops_alloc_failed },
  )
  append_pending ch (some p) ctx = (
    Status.success,
    raise_peak ch (
        count_write
          (set_pending ch (pending_list ch ctx ++ (p ∷ [])) (inc32 (pending_count ch ctx)) ctx)),
  )

  unfoldable pub park_for_read :
      Kernel → Channel → FdoContext Queue → ℕ → List ℕ → Status × FdoContext Queue
  unfolding test_fail_alloc alloc_packet append_pending
  park_for_read k ch ctx type body =
      let (fail, ctx') = test_fail_alloc ctx in
      append_pending ch (if fail then none else alloc_packet k type body) ctx'

module _ {Queue : Type 0} (w : Wdf Queue) where
  -- On the queue, list and count that the type selects.
  unfoldable pub deliver_on :
      Kernel → Channel → FdoContext Queue → ℕ → List ℕ → Status × FdoContext Queue × List Completion
  deliver_on k ch ctx type body = elim (take_parked w (read_queue ch ctx) (pending_count ch ctx)) [
    | some (r, q) ↦
        let (status, done) = complete_read r type body in
        (status, count_write (set_read_queue ch q ctx), done ∷ [])
    | none ↦ let (status, ctx') = park_for_read k ch ctx type body in (status, ctx', [])
  ]

  unfoldable pub deliver_to_stack :
      Kernel → FdoContext Queue → ℕ → List ℕ → Status × FdoContext Queue × List Completion
  unfolding deliver_on
  deliver_to_stack k ctx type body = deliver_on k (channel_of type) ctx type body
