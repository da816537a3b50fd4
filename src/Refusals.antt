-- ===== src/Refusals.antt =====
-- What a WriteFile that fails leaves behind (winvhci/user.c, WinVhciDispatchWrite).
use windows_vhci_driver.Context.{
  FdoContext, nothing, Completion, complete, Channel, events, acl, channel_of,
}
use windows_vhci_driver.Fdo.Deliver.{park_for_read, deliver_on, deliver_to_stack}
use windows_vhci_driver.Kernel.{Wdf, Kernel, Request, nt_success}
use windows_vhci_driver.Prelude.{ℕ, ◌≡◌, false, List, [], ◌∷◌, arith, if◌then◌else◌}
use windows_vhci_driver.Stream.Calls.{last_status, last_status-append}
use windows_vhci_driver.User.Control.{create_radio, control_opcode, handle_control}
use windows_vhci_driver.User.Write.{write_data, write_packet, write_buffer, dispatch_write}

module _ {Queue : Type 0} where
  -- The same packets wait, for the same client and the same radio.
  pub record IsUntouched (ctx ctx' : FdoContext Queue) : Type 0 where
    pub host_to_ctrl :
        (ctx'.host_to_ctrl_list ≡ ctx.host_to_ctrl_list)
        × (ctx'.host_to_ctrl_count ≡ ctx.host_to_ctrl_count)
    pub pending_event :
        (ctx'.pending_event_list ≡ ctx.pending_event_list)
        × (ctx'.pending_event_count ≡ ctx.pending_event_count)
    pub pending_data :
        (ctx'.pending_data_list ≡ ctx.pending_data_list)
        × (ctx'.pending_data_count ≡ ctx.pending_data_count)
    pub client : (ctx'.owner ≡ ctx.owner) × (ctx'.user_read_queue ≡ ctx.user_read_queue)
    pub radio : (ctx'.radio_present ≡ ctx.radio_present) × (ctx'.radio_started ≡ ctx.radio_started)
    pub totals :
        (ctx'.queued_to_user_total ≡ ctx.queued_to_user_total)
        × (ctx'.radios_alive ≡ ctx.radios_alive)

  stays-IsUntouched : (ctx : FdoContext Queue) → IsUntouched ctx ctx
  stays-IsUntouched ctx = ground arith

module _ {Queue : Type 0} (w : Wdf Queue) where
  deliver_on-refused :
      (k : Kernel) (ch : Channel) (ctx : FdoContext Queue) (type : ℕ) (body : List ℕ)
      → let (status, ctx', done) = deliver_on w k ch ctx type body in
        nt_success status ≡ false → IsUntouched ctx ctx'
  unfolding deliver_on park_for_read
  deliver_on-refused k events ctx type body e = ground arith
  deliver_on-refused k acl ctx type body e = ground arith

  create_radio-refused :
      (k : Kernel) (ctx : FdoContext Queue) (opcode : ℕ)
      → let (status, ctx', done) = create_radio w k ctx opcode in
        nt_success status ≡ false → IsUntouched ctx ctx'
  unfolding create_radio
  create_radio-refused k ctx opcode e = ground arith

  write_buffer-refused :
      (k : Kernel) (ctx : FdoContext Queue) (buffer : List ℕ)
      → let (status, ctx', done) = write_buffer w k ctx buffer in
        nt_success status ≡ false → IsUntouched ctx ctx'
  unfolding write_packet write_data deliver_to_stack handle_control control_opcode
  write_buffer-refused k ctx [] e = stays-IsUntouched ctx
  write_buffer-refused k ctx (type ∷ []) e =
      ground (arith, stays-IsUntouched ctx, deliver_on-refused k (channel_of type) ctx type [])
  write_buffer-refused k ctx (type ∷ opcode ∷ []) e = ground (
    arith,
    stays-IsUntouched ctx,
    create_radio-refused k ctx opcode,
    deliver_on-refused k (channel_of type) ctx type (opcode ∷ []),
  )
  write_buffer-refused k ctx (type ∷ o ∷ p ∷ rest) e =
      ground (
        arith,
        stays-IsUntouched ctx,
        deliver_on-refused k (channel_of type) ctx type (o ∷ p ∷ rest),
      )

  -- A WriteFile that fails, in whatever way, changes no queued packet and no depth, neither the
  -- client nor its parked reads, and whether a radio is present and started.
  pub dispatch_write-refused :
      (k : Kernel) (ctx : FdoContext Queue) (r : Request)
      → nt_success (last_status (dispatch_write w k ctx r).1) ≡ false
      → IsUntouched ctx (dispatch_write w k ctx r).0
  unfolding dispatch_write
  dispatch_write-refused k ctx r e =
      let (status, ctx', done) = write_buffer w k ctx (k.input_buffer r 2).1 in
      let last : Completion =
        complete r status (if nt_success status then r.length else 0) nothing in
      ground (
        arith,
        stays-IsUntouched ctx,
        last_status-append done last,
        write_buffer-refused k ctx (k.input_buffer r 2).1,
      )
