-- ===== src/Radio/Keeps.antt =====
-- The calls that leave the fields of the radio alone, given that one is present.
use windows_vhci_driver.Context.{
  hci_context_header_size, FdoContext, Channel, events, acl, channel_of, read_queue, set_read_queue,
}
use windows_vhci_driver.Fdo.Deliver.{park_for_read, deliver_on, deliver_to_stack}
use windows_vhci_driver.Fdo.Dispatch.{
  read_channel, set_version_case, count_write_hci, count_ioctl, write_hci_case, take_or_park,
  read_hci_case, bthx_case, bthx_dispatch,
}
use windows_vhci_driver.Kernel.{Wdf, Kernel, Request, IoControlCode, write_hci, read_hci}
use windows_vhci_driver.Prelude.{ℕ, ◌-◌, ◌≡◌, refl, true, List, [], ◌∷◌, arith, take}
use windows_vhci_driver.User.Control.{create_radio, handle_control}
use windows_vhci_driver.User.ToStack.{take_or_park_for_stack}
use windows_vhci_driver.User.ToUser.{park_for_user, queue_to_user, evt_io_read}
use windows_vhci_driver.User.Write.{write_data, write_packet, write_buffer, dispatch_write}

module _ {Queue : Type 0} (w : Wdf Queue) where
  -- The fields that the radio's life turns on.
  pub record KeepsRadio (s t : FdoContext Queue) : Type 0 where
    pub present : t.radio_present ≡ s.radio_present
    pub started : t.radio_started ≡ s.radio_started
    pub current : t.current_radio_id ≡ s.current_radio_id
    pub following : t.next_radio_id ≡ s.next_radio_id

  pub stays-KeepsRadio : (s : FdoContext Queue) → KeepsRadio s s
  stays-KeepsRadio s = record { present = refl; started = refl; current = refl; following = refl }

  pub queue_to_user-KeepsRadio :
      (k : Kernel) (ctx : FdoContext Queue) (type : ℕ) (body : List ℕ)
      → KeepsRadio ctx (queue_to_user w k ctx type body).0
  unfolding queue_to_user park_for_user
  queue_to_user-KeepsRadio k ctx type body = ground arith

  pub evt_io_read-KeepsRadio :
      (k : Kernel) (ctx : FdoContext Queue) (r : Request) → KeepsRadio ctx (evt_io_read w k ctx r).0
  unfolding evt_io_read
  evt_io_read-KeepsRadio k ctx r = ground arith

  pub deliver_on-KeepsRadio :
      (k : Kernel) (ch : Channel) (ctx : FdoContext Queue) (type : ℕ) (body : List ℕ)
      → KeepsRadio ctx (deliver_on w k ch ctx type body).1
  unfolding deliver_on park_for_read
  deliver_on-KeepsRadio k events ctx type body = ground arith
  deliver_on-KeepsRadio k acl ctx type body = ground arith

  pub handle_control-KeepsRadio :
      (k : Kernel) (ctx : FdoContext Queue) (body : List ℕ)
      → ctx.radio_present ≡ true
      → KeepsRadio ctx (handle_control w k ctx body).1
  unfolding handle_control create_radio
  handle_control-KeepsRadio k ctx [] e = stays-KeepsRadio ctx
  handle_control-KeepsRadio k ctx (o ∷ []) e = ground arith
  handle_control-KeepsRadio k ctx (o ∷ x ∷ xs) e = stays-KeepsRadio ctx

  pub write_buffer-KeepsRadio :
      (k : Kernel) (ctx : FdoContext Queue) (buffer : List ℕ)
      → ctx.radio_present ≡ true
      → KeepsRadio ctx (write_buffer w k ctx buffer).1
  unfolding write_packet write_data deliver_to_stack
  write_buffer-KeepsRadio k ctx [] e = stays-KeepsRadio ctx
  write_buffer-KeepsRadio k ctx (type ∷ body) e = ground (
    arith,
    handle_control-KeepsRadio k ctx body e,
    deliver_on-KeepsRadio k (channel_of type) ctx type body,
  )

  pub dispatch_write-KeepsRadio :
      (k : Kernel) (ctx : FdoContext Queue) (r : Request)
      → ctx.radio_present ≡ true
      → KeepsRadio ctx (dispatch_write w k ctx r).0
  unfolding dispatch_write
  dispatch_write-KeepsRadio k ctx r e =
      ground (arith, write_buffer-KeepsRadio k ctx (k.input_buffer r 2).1 e)

  pub take_or_park-KeepsRadio :
      (ctx : FdoContext Queue) (r : Request) (ch : Channel)
      → KeepsRadio ctx (take_or_park w ctx r ch).0
  unfolding take_or_park take_or_park_for_stack
  take_or_park-KeepsRadio ctx r events = ground arith
  take_or_park-KeepsRadio ctx r acl = ground arith

  pub write_hci_case-KeepsRadio :
      (k : Kernel) (ctx : FdoContext Queue) (r : Request) (in_length : ℕ)
      → KeepsRadio ctx (write_hci_case w k ctx r in_length).0
  unfolding write_hci_case
  write_hci_case-KeepsRadio k ctx r in_length = ground (
    arith,
    queue_to_user-KeepsRadio k (count_write_hci ctx) r.input.type
        (take r.input.data_len r.input.bytes),
  )

  pub read_hci_case-KeepsRadio :
      (ctx : FdoContext Queue) (r : Request) (out_length in_length : ℕ)
      → KeepsRadio ctx (read_hci_case w ctx r out_length in_length).0
  unfolding read_hci_case
  read_hci_case-KeepsRadio ctx r out_length in_length = ground (
    arith,
    take_or_park-KeepsRadio ctx r
        (read_channel r.input.data_len (out_length - hci_context_header_size)),
  )

  pub bthx_case-KeepsRadio :
      (k : Kernel) (ctx : FdoContext Queue) (r : Request) (out_length in_length : ℕ)
      (code : IoControlCode)
      → KeepsRadio ctx (bthx_case w k ctx r out_length in_length code).0
  unfolding bthx_case set_version_case
  bthx_case-KeepsRadio k ctx r out_length in_length write_hci =
      write_hci_case-KeepsRadio k ctx r in_length
  bthx_case-KeepsRadio k ctx r out_length in_length read_hci =
      read_hci_case-KeepsRadio ctx r out_length in_length
  bthx_case-KeepsRadio k ctx r out_length in_length code = ground arith

  pub bthx_dispatch-KeepsRadio :
      (k : Kernel) (ctx : FdoContext Queue) (r : Request) (out_length in_length : ℕ)
      (code : IoControlCode)
      → KeepsRadio ctx (bthx_dispatch w k ctx r out_length in_length code).0
  unfolding bthx_dispatch
  bthx_dispatch-KeepsRadio k ctx r out_length in_length code =
      ground (arith, bthx_case-KeepsRadio k (count_ioctl ctx) r out_length in_length code)

  pub cancel-KeepsRadio :
      (ctx : FdoContext Queue) (ch : Channel) (i : ℕ)
      → KeepsRadio ctx (set_read_queue ch (w.cancel i (read_queue ch ctx)) ctx)
  cancel-KeepsRadio ctx events i = ground arith
  cancel-KeepsRadio ctx acl i = ground arith
