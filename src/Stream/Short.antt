-- ===== src/Stream/Short.antt =====
-- A READ_HCI without room for the packet that waits for it (winvhci/fdo.c, the end of the READ_HCI
-- case).
-- A READ_HCI that passes the checks of its buffers and its layout.
use windows_vhci_driver.Context.{
  hci_context_header_size, read_type_word_size, Packet, FdoContext, nothing, complete, Channel,
  events, acl, pending_list, pending_count,
}
use windows_vhci_driver.Fdo.Deliver.{complete_read}
use windows_vhci_driver.Fdo.Dispatch.{
  read_channel, count_ioctl, take_or_park, read_hci_case, settle, bthx_case, bthx_dispatch,
}
use windows_vhci_driver.Kernel.{Wdf, Kernel, Request, read_hci, Status}
use windows_vhci_driver.Prelude.{
  ℕ, ◌+◌, ◌-◌, ◌≤◌, ◌<◌, ◌≡◌, ◌∙◌, ◌≢◌, true, List, [], ◌∷◌, arith, length, dec32,
}
use windows_vhci_driver.Stream.{pending_list-count_ioctl}
use windows_vhci_driver.User.ToStack.{take_or_park_for_stack}

pub record IsAdmitted (r : Request) (out_length in_length : ℕ) : Type 0 where
  pub from_kernel : r.kernel_mode ≡ true
  pub has_input : r.type3_input_buffer ≢ 0
  pub has_type : read_type_word_size ≤ in_length
  pub laid_out : r.user_buffer ≡ r.type3_input_buffer + read_type_word_size
  pub has_header : hci_context_header_size ≤ out_length
  pub same_length : r.output_buffer_length ≡ out_length

short_read :
    (r : Request) (p : Packet)
    → r.user_buffer ≢ 0
    → hci_context_header_size ≤ r.output_buffer_length
    → r.output_buffer_length < hci_context_header_size + length p.body
    → (complete_read r p.type p.body).1 ≡ complete r Status.buffer_too_small 0 nothing
unfolding complete_read
short_read r p u h s = ground arith

module _ {Queue : Type 0} where
  -- The oldest packet of the channel is gone from its backlog, and no loss is counted.
  pub record Loses (ch : Channel) (rest : List Packet) (ctx ctx' : FdoContext Queue) : Type 0 where
    pub left :
        (pending_list ch ctx' ≡ rest) × (pending_count ch ctx' ≡ dec32 (pending_count ch ctx))
    pub uncounted :
        (ctx'.drops_no_client ≡ ctx.drops_no_client)
        × (ctx'.drops_alloc_failed ≡ ctx.drops_alloc_failed)

module _ {Queue : Type 0} (w : Wdf Queue) where
  take_or_park-Loses :
      (ch : Channel) (ctx : FdoContext Queue) (r : Request) (p : Packet) (rest : List Packet)
      → pending_list ch ctx ≡ p ∷ rest
      → (complete_read r p.type p.body).1 ≡ complete r Status.buffer_too_small 0 nothing
      → let (ctx', v) = take_or_park w ctx r ch in
        Loses ch rest ctx ctx' × (settle r v ≡ complete r Status.buffer_too_small 0 nothing ∷ [])
  unfolding take_or_park take_or_park_for_stack
  take_or_park-Loses events ctx r p rest e s = ground arith
  take_or_park-Loses acl ctx r p rest e s = ground arith

  -- A READ_HCI that passes every check but has less room than the oldest packet of its channel
  -- takes that packet from the backlog, with one off its depth, is completed as too small without
  -- any data, and leaves both drop counters as they were: the packet is lost and in no count.
  pub short_read-Loses :
      (ch : Channel) (k : Kernel) (ctx : FdoContext Queue) (r : Request) (out_length in_length : ℕ)
      (p : Packet) (rest : List Packet)
      → IsAdmitted r out_length in_length
      → read_channel r.input.data_len (out_length - hci_context_header_size) ≡ ch
      → pending_list ch ctx ≡ p ∷ rest
      → out_length < hci_context_header_size + length p.body
      → Loses ch rest ctx (bthx_dispatch w k ctx r out_length in_length read_hci).0
        × ((bthx_dispatch w k ctx r out_length in_length read_hci).1
            ≡ complete r Status.buffer_too_small 0 nothing ∷ [])
  unfolding bthx_dispatch bthx_case read_hci_case
  short_read-Loses ch k ctx r out_length in_length p rest a c e s =
      let too_small =
        short_read r p (ground (arith, a)) (ground (arith, a)) (ground (arith, a, s)) in
      let lost =
        take_or_park-Loses ch (count_ioctl ctx) r p rest (pending_list-count_ioctl ch ctx ∙ e)
          too_small in
      ground (arith, a, c, lost)
