-- ===== src/Channels/Entry.antt =====
-- The entry points that are given a request: WriteFile and the BTHX requests.
use windows_vhci_driver.Channels.{IsOf, IsAnswered, read_channel-IsFor, IsSeparated, Separates}
use windows_vhci_driver.Channels.Calls.{
  queue_to_user-Separates, deliver_on-Separates, take_or_park-Separates,
}
use windows_vhci_driver.Context.{
  h4_acl, h4_event, h4_vendor, hci_context_header_size, read_type_word_size, FdoContext, nothing,
  Completion, complete, channel_of,
}
use windows_vhci_driver.Fdo.Deliver.{deliver_to_stack}
use windows_vhci_driver.Fdo.Dispatch.{
  get_version_case, query_capabilities_case, read_channel, set_version_case, count_write_hci,
  count_ioctl, write_hci_case, read_hci_case, settle, bthx_case, bthx_dispatch,
}
use windows_vhci_driver.Kernel.{
  Wdf, Kernel, IsFifo, Request, IoControlCode, get_version, set_version, query_capabilities,
  write_hci, read_hci, unknown, Status, nt_success,
}
use windows_vhci_driver.Prelude.{
  ℕ, ◌+◌, ◌-◌, ◌≡◌, true, ◌||◌, List, [], ◌∷◌, ◌++◌, arith, take, All, All-append, ◌==◌,
  if◌then◌else◌, inc32,
}
use windows_vhci_driver.User.Control.{reply_body, create_radio, control_opcode, handle_control}
use windows_vhci_driver.User.ToUser.{queue_to_user}
use windows_vhci_driver.User.Write.{write_data, write_packet, write_buffer, dispatch_write}

module _ {Queue : Type 0} (w : Wdf Queue) where
  pub stays-Separates : (ctx : FdoContext Queue) → IsSeparated w ctx → Separates w (ctx, [])
  stays-Separates ctx s = record { keeps = s; answered = tt }

  -- A completion that carries no HCI packet.
  Separates-completed :
      (ctx' : FdoContext Queue) (done more : List Completion)
      → Separates w (ctx', done)
      → All IsAnswered more
      → Separates w (ctx', done ++ more)
  Separates-completed ctx' done more s a = record {
    keeps = s.keeps;
    answered = All-append IsAnswered done more s.answered a;
  }

  module _ (fifo : IsFifo w) where
    handle_control-Separates :
        (k : Kernel) (ctx : FdoContext Queue) (body : List ℕ)
        → IsSeparated w ctx
        → let (status, ctx', done) = handle_control w k ctx body in Separates w (ctx', done)
    unfolding handle_control control_opcode create_radio
    handle_control-Separates k ctx [] s = stays-Separates ctx s
    handle_control-Separates k ctx (opcode ∷ []) s =
        let claimed : FdoContext Queue = record ctx {
          next_radio_id = inc32 ctx.next_radio_id;
          radio_present = true;
          current_radio_id = ctx.next_radio_id;
        } in
        let stays = stays-Separates ctx s in
        ground (
          arith,
          stays,
          queue_to_user-Separates w k claimed h4_vendor (reply_body opcode ctx.next_radio_id),
        )
    handle_control-Separates k ctx (o ∷ p ∷ rest) s = stays-Separates ctx s

    -- A type byte that is an event's or ACL data's selects its own channel.
    channel_of-IsOf :
        (type : ℕ) → (type == h4_event || type == h4_acl) ≡ true → IsOf (channel_of type) type
    channel_of-IsOf type e = ground arith

    write_packet-Separates :
        (k : Kernel) (ctx : FdoContext Queue) (type : ℕ) (body : List ℕ)
        → IsSeparated w ctx
        → let (status, ctx', done) = write_packet w k ctx type body in Separates w (ctx', done)
    unfolding write_packet write_data deliver_to_stack
    write_packet-Separates k ctx type body s =
        let stays = stays-Separates ctx s in
        let delivered_own = λ (e : (type == h4_event || type == h4_acl) ≡ true).
          deliver_on-Separates w fifo (channel_of type) k ctx type body (channel_of-IsOf type e)
            s in
        ground (arith, stays, handle_control-Separates k ctx body s, delivered_own)

    write_buffer-Separates :
        (k : Kernel) (ctx : FdoContext Queue) (buffer : List ℕ)
        → IsSeparated w ctx
        → let (status, ctx', done) = write_buffer w k ctx buffer in Separates w (ctx', done)
    write_buffer-Separates k ctx [] s = stays-Separates ctx s
    write_buffer-Separates k ctx (type ∷ body) s = write_packet-Separates k ctx type body s

    pub dispatch_write-Separates :
        (k : Kernel) (ctx : FdoContext Queue) (r : Request)
        → IsSeparated w ctx
        → Separates w (dispatch_write w k ctx r)
    unfolding dispatch_write
    dispatch_write-Separates k ctx r s =
        let (status, ctx', done) = write_buffer w k ctx (k.input_buffer r 2).1 in
        let last : Completion =
          complete r status (if nt_success status then r.length else 0) nothing in
        let written_out =
          Separates-completed ctx' done (last ∷ [])
            (write_buffer-Separates k ctx (k.input_buffer r 2).1 s) (tt, tt) in
        ground (arith, written_out)

    bthx_case-Separates :
        (k : Kernel) (ctx : FdoContext Queue) (r : Request) (out_length in_length : ℕ)
        (code : IoControlCode)
        → r.kernel_mode ≡ true
        → IsSeparated w ctx
        → let (ctx', done, v) = bthx_case w k ctx r out_length in_length code in
          Separates w (ctx', done ++ settle r v)
    unfolding bthx_case get_version_case set_version_case query_capabilities_case read_hci_case
        write_hci_case
    bthx_case-Separates k ctx r out_length in_length get_version m s = ground arith
    bthx_case-Separates k ctx r out_length in_length set_version m s = ground arith
    bthx_case-Separates k ctx r out_length in_length query_capabilities m s = ground arith
    bthx_case-Separates k ctx r out_length in_length write_hci m s =
        let body = take r.input.data_len r.input.bytes in
        let out = queue_to_user w k (count_write_hci ctx) r.input.type body in
        let queued_to =
          Separates-completed out.0 out.1 (complete r Status.success r.input.data_len nothing ∷ [])
            (queue_to_user-Separates w k (count_write_hci ctx) r.input.type body (record {
              event_reads = s.event_reads;
              data_reads = s.data_reads;
              event_packets = s.event_packets;
              data_packets = s.data_packets;
            }))
            (tt, tt) in
        ground (arith, queued_to)
    bthx_case-Separates k ctx r out_length in_length read_hci m s =
        let capacity = out_length - hci_context_header_size in
        let trusted = λ (e : r.user_buffer ≡ r.type3_input_buffer + read_type_word_size).
          take_or_park-Separates w fifo (read_channel r.input.data_len capacity) ctx r
            (read_channel-IsFor r capacity (m, e)) s in
        ground (arith, trusted)
    bthx_case-Separates k ctx r out_length in_length (unknown n) m s = ground arith

    pub bthx_dispatch-Separates :
        (k : Kernel) (ctx : FdoContext Queue) (r : Request) (out_length in_length : ℕ)
        (code : IoControlCode)
        → IsSeparated w ctx
        → Separates w (bthx_dispatch w k ctx r out_length in_length code)
    unfolding bthx_dispatch
    bthx_dispatch-Separates k ctx r out_length in_length code s =
        ground (arith, bthx_case-Separates k (count_ioctl ctx) r out_length in_length code)
