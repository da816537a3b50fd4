-- ===== src/User/ToUser.antt =====
-- winvhci/user.c, stack -> userspace: WinVhciQueueToUser and WinVhciEvtIoRead.
use windows_vhci_driver.Context.{
  max_h4_packet, Packet, FdoContext, nothing, h4, Completion, complete, Effect, test_fail_alloc,
  alloc_packet, take_parked,
}
use windows_vhci_driver.Kernel.{Wdf, Kernel, Request, Status, nt_success}
use windows_vhci_driver.Prelude.{
  ℕ, ◌+◌, not, ◌&&◌, ◌||◌, Option, none, some, List, [], ◌∷◌, ◌++◌, length, ltb, leb, if◌then◌else◌,
  inc32, dec32,
}

-- The client's buffer is filled with the H4 packet, type byte first.
abbrev pub h4_bytes : ℕ → List ℕ → List ℕ
h4_bytes type body = type ∷ body

-- The completion of a reader that was waiting: what WinVhciQueueToUser does outside the lock.
unfoldable pub hand_to_reader : Kernel → Request → ℕ → List ℕ → Completion
hand_to_reader k r type body =
    let (status, buffer_length) = k.output_buffer r 1 in
    if not (nt_success status) || ltb buffer_length (length body + 1)
    then complete r Status.buffer_too_small 0 nothing
    else complete r Status.success (length body + 1) (h4 (h4_bytes type body))

-- The completion of a read that took `p` from the backlog: the end of WinVhciEvtIoRead.
unfoldable pub hand_from_backlog : Kernel → Request → Packet → Completion
hand_from_backlog k r p =
    let (status, buffer_length) = k.output_buffer r 1 in
    if nt_success status && leb (length p.body + 1) buffer_length
    then complete r Status.success (length p.body + 1) (h4 (h4_bytes p.type p.body))
    else complete r (if nt_success status then Status.buffer_too_small else status) 0 nothing

module _ {Queue : Type 0} where
  -- InsertTailList with its counters, or the loss of a packet that could not be allocated.
  unfoldable pub append_to_user : Option Packet → FdoContext Queue → FdoContext Queue
  append_to_user none ctx = record ctx { drops_alloc_failed = inc32 ctx.drops_alloc_failed }
  append_to_user (some p) ctx =
      let count = inc32 ctx.host_to_ctrl_count in
      record ctx {
        host_to_ctrl_list = ctx.host_to_ctrl_list ++ (p ∷ []);
        host_to_ctrl_count = count;
        queued_to_user_total = inc32 ctx.queued_to_user_total;
        host_to_ctrl_peak =
            if ltb ctx.host_to_ctrl_peak count then count else ctx.host_to_ctrl_peak;
      }

  unfoldable pub park_for_user : Kernel → FdoContext Queue → ℕ → List ℕ → FdoContext Queue
  unfolding test_fail_alloc alloc_packet append_to_user
  park_for_user k ctx type body =
      let (fail, ctx') = test_fail_alloc ctx in
      append_to_user (if fail then none else alloc_packet k type body) ctx'

module _ {Queue : Type 0} (w : Wdf Queue) where
  unfoldable pub queue_to_user : Kernel → FdoContext Queue → ℕ → List ℕ → Effect Queue
  queue_to_user k ctx type body = elim ctx.owner [
    | none ↦ (record ctx { drops_no_client = inc32 ctx.drops_no_client }, [])
    | some file ↦ (elim (take_parked w ctx.user_read_queue ctx.host_to_ctrl_count) [
      | some (r, q) ↦ (record ctx { user_read_queue = q }, hand_to_reader k r type body ∷ [])
      | none ↦ (park_for_user k ctx type body, [])
    ])
  ]

  -- The read parks, unless its forward fails.
  unfoldable pub park_reader : FdoContext Queue → Request → Effect Queue
  park_reader ctx r =
      let (status, q) = w.forward r ctx.user_read_queue in
      (
        record ctx { user_read_queue = q },
        (if nt_success status then [] else complete r status 0 nothing ∷ []),
      )

  unfoldable pub evt_io_read : Kernel → FdoContext Queue → Request → Effect Queue
  unfolding park_reader
  evt_io_read k ctx r =
      if ltb r.length max_h4_packet
      then (ctx, complete r Status.buffer_too_small 0 nothing ∷ [])
      else (elim ctx.host_to_ctrl_list [
        | [] ↦ park_reader ctx r
        | p ∷ rest ↦ (
          record ctx {
            host_to_ctrl_list = rest;
            host_to_ctrl_count = dec32 ctx.host_to_ctrl_count;
          },
          hand_from_backlog k r p ∷ [],
        )
      ])
