-- ===== src/Requests/Entry.antt =====
-- The entry points that are given a request: WriteFile and the BTHX requests.
use windows_vhci_driver.Context.{
  h4_vendor, hci_context_header_size, FdoContext, Output, nothing, Completion, complete, channel_of,
}
use windows_vhci_driver.Fdo.Deliver.{deliver_to_stack}
use windows_vhci_driver.Fdo.Dispatch.{
  finish, get_version_case, query_capabilities_case, read_channel, set_version_case,
  count_write_hci, count_ioctl, write_hci_case, read_hci_case, settle, bthx_case, bthx_dispatch,
}
use windows_vhci_driver.Kernel.{
  Wdf, Kernel, IsFifo, Request, IoControlCode, get_version, set_version, query_capabilities,
  write_hci, read_hci, unknown, Status, nt_success,
}
use windows_vhci_driver.Prelude.{
  ℕ, ◌-◌, ◌≡◌, true, List, [], ◌∷◌, ◌++◌, arith, take, if◌then◌else◌, inc32,
}
use windows_vhci_driver.Requests.{is_request, finished, finished-append, Accounts}
use windows_vhci_driver.Requests.Serve.{
  queue_to_user-Accounts, deliver_on-Accounts, take_or_park-Accounts,
}
use windows_vhci_driver.User.Control.{reply_body, create_radio, control_opcode, handle_control}
use windows_vhci_driver.User.ToUser.{queue_to_user}
use windows_vhci_driver.User.Write.{write_data, write_packet, write_buffer, dispatch_write}

module _ {Queue : Type 0} (w : Wdf Queue) where
  pub stays-Accounts : (i : ℕ) (ctx : FdoContext Queue) → Accounts w i ctx 0 (ctx, [])
  stays-Accounts i ctx = record { total = omega arith }

  -- The request itself is completed after those that it served.
  pub Accounts-completed :
      (i : ℕ) (ctx ctx' : FdoContext Queue) (done : List Completion) (c : Completion)
      → Accounts w i ctx 0 (ctx', done)
      → Accounts w i ctx (is_request i c.request) (ctx', done ++ (c ∷ []))
  Accounts-completed i ctx ctx' done c a = record {
    total = omega (arith, a.total, finished-append i done (c ∷ []));
  }

module _ {Queue : Type 0} (w : Wdf Queue) (fifo : IsFifo w) where
  create_radio-Accounts :
      (i : ℕ) (k : Kernel) (ctx : FdoContext Queue) (opcode : ℕ)
      → let (status, ctx', done) = create_radio w k ctx opcode in Accounts w i ctx 0 (ctx', done)
  unfolding create_radio
  create_radio-Accounts i k ctx opcode =
      let claimed : FdoContext Queue = record ctx {
        next_radio_id = inc32 ctx.next_radio_id;
        radio_present = true;
        current_radio_id = ctx.next_radio_id;
      } in
      let stays = stays-Accounts w i ctx in
      ground (
        arith,
        stays,
        queue_to_user-Accounts w fifo i k claimed h4_vendor (reply_body opcode ctx.next_radio_id),
      )

  handle_control-Accounts :
      (i : ℕ) (k : Kernel) (ctx : FdoContext Queue) (body : List ℕ)
      → let (status, ctx', done) = handle_control w k ctx body in Accounts w i ctx 0 (ctx', done)
  unfolding handle_control control_opcode
  handle_control-Accounts i k ctx [] = stays-Accounts w i ctx
  handle_control-Accounts i k ctx (opcode ∷ []) =
      let stays = stays-Accounts w i ctx in
      ground (arith, stays, create_radio-Accounts i k ctx opcode)
  handle_control-Accounts i k ctx (o ∷ p ∷ rest) = stays-Accounts w i ctx

  write_packet-Accounts :
      (i : ℕ) (k : Kernel) (ctx : FdoContext Queue) (type : ℕ) (body : List ℕ)
      → let (status, ctx', done) = write_packet w k ctx type body in Accounts w i ctx 0 (ctx', done)
  unfolding write_packet write_data deliver_to_stack
  write_packet-Accounts i k ctx type body =
      let stays = stays-Accounts w i ctx in
      ground (
        arith,
        stays,
        handle_control-Accounts i k ctx body,
        deliver_on-Accounts w fifo i k (channel_of type) ctx type body,
      )

  write_buffer-Accounts :
      (i : ℕ) (k : Kernel) (ctx : FdoContext Queue) (buffer : List ℕ)
      → let (status, ctx', done) = write_buffer w k ctx buffer in Accounts w i ctx 0 (ctx', done)
  write_buffer-Accounts i k ctx [] = stays-Accounts w i ctx
  write_buffer-Accounts i k ctx (type ∷ body) = write_packet-Accounts i k ctx type body

  pub dispatch_write-Accounts :
      (i : ℕ) (k : Kernel) (ctx : FdoContext Queue) (r : Request)
      → Accounts w i ctx (is_request i r) (dispatch_write w k ctx r)
  unfolding dispatch_write
  dispatch_write-Accounts i k ctx r =
      let (status, ctx', done) = write_buffer w k ctx (k.input_buffer r 2).1 in
      let stays = stays-Accounts w i ctx in
      let bad =
        Accounts-completed w i ctx ctx [] (complete r Status.invalid_parameter 0 nothing) stays in
      let none_got =
        Accounts-completed w i ctx ctx [] (complete r (k.input_buffer r 2).0 0 nothing) stays in
      let good =
        Accounts-completed w i ctx ctx' done
          (complete r status (if nt_success status then r.length else 0) nothing)
          (write_buffer-Accounts i k ctx (k.input_buffer r 2).1) in
      ground (arith, bad, none_got, good)

  write_hci_case-Accounts :
      (i : ℕ) (k : Kernel) (ctx : FdoContext Queue) (r : Request) (in_length : ℕ)
      → let (ctx', done, v) = write_hci_case w k ctx r in_length in
        Accounts w i ctx (is_request i r) (ctx', done ++ settle r v)
  unfolding write_hci_case
  write_hci_case-Accounts i k ctx r in_length =
      let body = take r.input.data_len r.input.bytes in
      let out = queue_to_user w k (count_write_hci ctx) r.input.type body in
      let stays = stays-Accounts w i ctx in
      let bad =
        Accounts-completed w i ctx ctx [] (complete r Status.invalid_parameter 0 nothing) stays in
      let queued_to =
        Accounts-completed w i (count_write_hci ctx) out.0 out.1
          (complete r Status.success r.input.data_len nothing)
          (queue_to_user-Accounts w fifo i k (count_write_hci ctx) r.input.type body) in
      ground (arith, bad, queued_to)

  finished-settle :
      (i : ℕ) (r : Request) (s : Status) (n : ℕ) (o : Output)
      → finished i (settle r (finish s n o)) ≡ is_request i r
  finished-settle i r s n o = omega arith

  bthx_case-Accounts :
      (i : ℕ) (k : Kernel) (ctx : FdoContext Queue) (r : Request) (out_length in_length : ℕ)
      (code : IoControlCode)
      → let (ctx', done, v) = bthx_case w k ctx r out_length in_length code in
        Accounts w i ctx (is_request i r) (ctx', done ++ settle r v)
  unfolding bthx_case get_version_case set_version_case query_capabilities_case read_hci_case
  bthx_case-Accounts i k ctx r out_length in_length get_version = ground arith
  bthx_case-Accounts i k ctx r out_length in_length set_version = ground arith
  bthx_case-Accounts i k ctx r out_length in_length query_capabilities = ground arith
  bthx_case-Accounts i k ctx r out_length in_length write_hci =
      write_hci_case-Accounts i k ctx r in_length
  bthx_case-Accounts i k ctx r out_length in_length read_hci = ground (
    arith,
    take_or_park-Accounts w fifo i ctx r
        (read_channel r.input.data_len (out_length - hci_context_header_size)),
  )
  bthx_case-Accounts i k ctx r out_length in_length (unknown n) = ground arith

  pub bthx_dispatch-Accounts :
      (i : ℕ) (k : Kernel) (ctx : FdoContext Queue) (r : Request) (out_length in_length : ℕ)
      (code : IoControlCode)
      → Accounts w i ctx (is_request i r) (bthx_dispatch w k ctx r out_length in_length code)
  unfolding bthx_dispatch
  bthx_dispatch-Accounts i k ctx r out_length in_length code =
      ground (arith, bthx_case-Accounts i k (count_ioctl ctx) r out_length in_length code)
