-- ===== src/User/Write.antt =====
-- winvhci/user.c: WinVhciDispatchWrite, which WinVhciEvtIoWrite calls for every WriteFile.
use windows_vhci_driver.Context.{
  h4_command, h4_acl, h4_sco, h4_event, h4_iso, h4_vendor, max_acl_transfer_in, max_event_size,
  max_h4_packet, FdoContext, nothing, Completion, complete, Effect,
}
use windows_vhci_driver.Fdo.Deliver.{deliver_to_stack}
use windows_vhci_driver.Kernel.{Wdf, Kernel, Request, Status, nt_success}
use windows_vhci_driver.Prelude.{
  ℕ, Bool, true, false, ◌&&◌, ◌||◌, List, [], ◌∷◌, ◌++◌, length, ltb, ◌==◌, if◌then◌else◌, inc32,
}
use windows_vhci_driver.User.Control.{handle_control}

-- The room in the stack's read buffers.
abbrev pub body_limit : ℕ → ℕ
body_limit type = if type == h4_acl then max_acl_transfer_in else max_event_size

module _ {Queue : Type 0} where
  -- The locked region of the admission check.
  unfoldable pub admit : FdoContext Queue → Bool × FdoContext Queue
  admit ctx =
      if ctx.radio_present && ctx.radio_started
      then (true, ctx)
      else (false, record ctx { writes_no_radio = inc32 ctx.writes_no_radio })

module _ {Queue : Type 0} (w : Wdf Queue) where
  -- The case of an event or of ACL data.
  unfoldable pub write_data :
      Kernel → FdoContext Queue → ℕ → List ℕ → Status × FdoContext Queue × List Completion
  unfolding admit
  write_data k ctx type body =
      if ltb (body_limit type) (length body)
      then (Status.invalid_parameter, ctx, [])
      else (let (ready, ctx') = admit ctx in
          if ready
          then deliver_to_stack w k ctx' type body
          else (Status.device_not_ready, ctx', []))

  -- The switch on the type byte.
  unfoldable pub write_packet :
      Kernel → FdoContext Queue → ℕ → List ℕ → Status × FdoContext Queue × List Completion
  unfolding write_data
  write_packet k ctx type body =
      if type == h4_vendor
      then handle_control w k ctx body
      else if type == h4_event || type == h4_acl
      then write_data k ctx type body
      else if type == h4_command
      then (Status.invalid_parameter, ctx, [])
      else if type == h4_sco || type == h4_iso
      then (Status.not_supported, ctx, [])
      else (Status.invalid_parameter, ctx, [])

  abbrev pub write_buffer :
      Kernel → FdoContext Queue → List ℕ → Status × FdoContext Queue × List Completion
  write_buffer k ctx [] = (Status.invalid_parameter, ctx, [])
  write_buffer k ctx (type ∷ body) = write_packet k ctx type body

  -- A successful write reports the whole transfer. The requests that it served come first.
  unfoldable pub dispatch_write : Kernel → FdoContext Queue → Request → Effect Queue
  dispatch_write k ctx r =
      if ltb r.length 2 || ltb max_h4_packet r.length
      then (ctx, complete r Status.invalid_parameter 0 nothing ∷ [])
      else (let (got, buffer) = k.input_buffer r 2 in
          if nt_success got
          then (let (status, ctx', done) = write_buffer k ctx buffer in
              (
                ctx',
                done
                    ++ (complete r status (if nt_success status then r.length else 0) nothing ∷ []),
              ))
          else (ctx, complete r got 0 nothing ∷ []))
