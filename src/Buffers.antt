-- ===== src/Buffers.antt =====
-- What the driver writes into the buffers of the requests that it completes.
pub mod Run
use windows_vhci_driver.Context.{
  h4_vendor, hci_context_header_size, Packet, FdoContext, Output, nothing, h4, hci_context,
  Completion, complete, Channel, channel_of, read_queue, pending_count, take_parked,
}
use windows_vhci_driver.Fdo.Deliver.{complete_read, deliver_on, deliver_to_stack}
use windows_vhci_driver.Fdo.Dispatch.{take_or_park, settle}
use windows_vhci_driver.Kernel.{Wdf, Kernel, IsBuffered, Request, nt_success}
use windows_vhci_driver.Prelude.{
  ℕ, ◌+◌, ◌≤◌, ◌≡◌, refl, ◌≢◌, inl, inr, true, List, [], ◌∷◌, arith, length, All, All-append,
  if◌then◌else◌, Option-cases, inc32,
}
use windows_vhci_driver.User.Control.{reply_body, create_radio, control_opcode, handle_control}
use windows_vhci_driver.User.ToStack.{take_or_park_for_stack}
use windows_vhci_driver.User.ToUser.{
  hand_to_reader, hand_from_backlog, queue_to_user, park_reader, evt_io_read,
}
use windows_vhci_driver.User.Write.{write_data, write_packet, write_buffer, dispatch_write}

-- The output fits into the request's buffer, and the completion reports its length.
abbrev pub FitsBuffer : Request → ℕ → Output → Type 0
FitsBuffer r n (h4 bytes) = (length bytes ≤ r.length) × (n ≡ length bytes)
FitsBuffer r n (hci_context x) =
    (r.user_buffer ≢ 0)
    × (hci_context_header_size + length x.bytes ≤ r.output_buffer_length)
    × (x.data_len ≡ length x.bytes)
    × (n ≡ hci_context_header_size + x.data_len)
FitsBuffer r n _ = Unit

abbrev pub IsContained : Completion → Type 0
IsContained c = FitsBuffer c.request c.information c.output

hand_to_reader-IsContained :
    (k : Kernel) (r : Request) (type : ℕ) (body : List ℕ)
    → IsBuffered k
    → IsContained (hand_to_reader k r type body)
unfolding hand_to_reader
hand_to_reader-IsContained k r type body b = ground (arith, b.output r, b.refuses r)

hand_from_backlog-IsContained :
    (k : Kernel) (r : Request) (p : Packet) → IsBuffered k → IsContained (hand_from_backlog k r p)
unfolding hand_from_backlog
hand_from_backlog-IsContained k r p b = ground (arith, b.output r, b.refuses r)

pub complete_read-IsContained :
    (r : Request) (type : ℕ) (body : List ℕ) → IsContained (complete_read r type body).1
unfolding complete_read
complete_read-IsContained r type body = ground arith

module _ {Queue : Type 0} (w : Wdf Queue) where
  pub queue_to_user-IsContained :
      (k : Kernel) (ctx : FdoContext Queue) (type : ℕ) (body : List ℕ)
      → IsBuffered k
      → All IsContained (queue_to_user w k ctx type body).1
  unfolding queue_to_user
  queue_to_user-IsContained k ctx type body b =
      elim (Option-cases (take_parked w ctx.user_read_queue ctx.host_to_ctrl_count)) [
        | inl e ↦ ground arith
        | inr (found, e) ↦ ground (arith, hand_to_reader-IsContained k found.0 type body b)
      ]

  evt_io_read-IsContained_at :
      (k : Kernel) (ctx : FdoContext Queue) (ps : List Packet) (r : Request)
      → IsBuffered k
      → ctx.host_to_ctrl_list ≡ ps
      → All IsContained (evt_io_read w k ctx r).1
  unfolding evt_io_read park_reader
  evt_io_read-IsContained_at k ctx [] r b e = ground arith
  evt_io_read-IsContained_at k ctx (p ∷ rest) r b e =
      ground (arith, hand_from_backlog-IsContained k r p b)

  pub evt_io_read-IsContained :
      (k : Kernel) (ctx : FdoContext Queue) (r : Request)
      → IsBuffered k
      → All IsContained (evt_io_read w k ctx r).1
  evt_io_read-IsContained k ctx r b = evt_io_read-IsContained_at k ctx _ r b refl

  pub deliver_on-IsContained :
      (k : Kernel) (ch : Channel) (ctx : FdoContext Queue) (type : ℕ) (body : List ℕ)
      → All IsContained (deliver_on w k ch ctx type body).2
  unfolding deliver_on
  deliver_on-IsContained k ch ctx type body =
      elim (Option-cases (take_parked w (read_queue ch ctx) (pending_count ch ctx))) [
        | inl e ↦ ground arith
        | inr (found, e) ↦ ground (arith, complete_read-IsContained found.0 type body)
      ]

  pub take_or_park-IsContained :
      (ctx : FdoContext Queue) (r : Request) (ch : Channel)
      → All IsContained (settle r (take_or_park w ctx r ch).1)
  unfolding take_or_park
  take_or_park-IsContained ctx r ch = elim (Option-cases (take_or_park_for_stack w ctx ch r).1) [
    | inl e ↦ ground arith
    | inr (p, e) ↦ ground (arith, complete_read-IsContained r p.type p.body)
  ]

  handle_control-IsContained :
      (k : Kernel) (ctx : FdoContext Queue) (body : List ℕ)
      → IsBuffered k
      → All IsContained (handle_control w k ctx body).2
  unfolding handle_control control_opcode create_radio
  handle_control-IsContained k ctx [] b = tt
  handle_control-IsContained k ctx (opcode ∷ []) b =
      let claimed : FdoContext Queue = record ctx {
        next_radio_id = inc32 ctx.next_radio_id;
        radio_present = true;
        current_radio_id = ctx.next_radio_id;
      } in
      ground (
        arith,
        queue_to_user-IsContained k claimed h4_vendor (reply_body opcode ctx.next_radio_id) b,
      )
  handle_control-IsContained k ctx (o ∷ p ∷ rest) b = tt

  write_buffer-IsContained :
      (k : Kernel) (ctx : FdoContext Queue) (buffer : List ℕ)
      → IsBuffered k
      → All IsContained (write_buffer w k ctx buffer).2
  unfolding write_packet write_data deliver_to_stack
  write_buffer-IsContained k ctx [] b = tt
  write_buffer-IsContained k ctx (type ∷ body) b = ground (
    arith,
    handle_control-IsContained k ctx body b,
    deliver_on-IsContained k (channel_of type) ctx type body,
  )

  pub dispatch_write-IsContained :
      (k : Kernel) (ctx : FdoContext Queue) (r : Request)
      → IsBuffered k
      → All IsContained (dispatch_write w k ctx r).1
  unfolding dispatch_write
  dispatch_write-IsContained k ctx r b =
      let (status, ctx', done) = write_buffer w k ctx (k.input_buffer r 2).1 in
      let last : Completion =
        complete r status (if nt_success status then r.length else 0) nothing in
      ground (
        arith,
        All-append IsContained done (last ∷ [])
            (write_buffer-IsContained k ctx (k.input_buffer r 2).1 b) (tt, tt),
      )
