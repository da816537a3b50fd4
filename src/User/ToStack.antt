-- ===== src/User/ToStack.antt =====
-- winvhci/user.c: WinVhciTakeOrParkForStack, the read half of the rendezvous with the stack.
use windows_vhci_driver.Context.{
  Packet, FdoContext, Channel, events, acl, read_queue, pending_list, pending_count, set_read_queue,
  set_pending,
}
use windows_vhci_driver.Kernel.{Wdf, Request, Status, nt_success}
use windows_vhci_driver.Prelude.{Option, none, some, [], ◌∷◌, if◌then◌else◌, inc32, dec32}

module _ {Queue : Type 0} where
  -- PendedDataReads or PendedEventReads
  unfoldable pub count_parked : Channel → FdoContext Queue → FdoContext Queue
  count_parked events ctx = record ctx { pended_event_reads = inc32 ctx.pended_event_reads }
  count_parked acl ctx = record ctx { pended_data_reads = inc32 ctx.pended_data_reads }

module _ {Queue : Type 0} (w : Wdf Queue) where
  unfoldable pub park_for_stack :
      FdoContext Queue → Channel → Request → Status × Option Packet × FdoContext Queue
  unfolding count_parked
  park_for_stack ctx ch r =
      let (status, q) = w.forward r (read_queue ch ctx) in
      let ctx' = set_read_queue ch q ctx in
      (status, none, (if nt_success status then count_parked ch ctx' else ctx'))

  -- The channel is that of the type and of the queue, which the one caller keeps together.
  unfoldable pub take_or_park_for_stack :
      FdoContext Queue → Channel → Request → Status × Option Packet × FdoContext Queue
  unfolding park_for_stack
  take_or_park_for_stack ctx ch r = elim (pending_list ch ctx) [
    | [] ↦ park_for_stack ctx ch r
    | p ∷ rest ↦ (Status.success, some p, set_pending ch rest (dec32 (pending_count ch ctx)) ctx)
  ]
