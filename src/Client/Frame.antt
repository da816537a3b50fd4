-- ===== src/Client/Frame.antt =====
-- The stack's side of the driver, which spares the client's reads, and the control packet, whose
-- reply joins the client's queue.
use windows_vhci_driver.Client.{
  received, received-append, counted_loss, IsServing, Serves, Spares, Spares-Serves,
}
use windows_vhci_driver.Client.Queue.{queue_to_user-Serves}
use windows_vhci_driver.Context.{
  h4_vendor, FdoContext, Completion, Effect, Channel, events, acl, channel_of,
}
use windows_vhci_driver.Fdo.Deliver.{complete_read, park_for_read, deliver_on, deliver_to_stack}
use windows_vhci_driver.Fdo.Dispatch.{take_or_park, settle}
use windows_vhci_driver.Kernel.{Wdf, Kernel, IsFifo, IsBuffered, Request, nt_success}
use windows_vhci_driver.Prelude.{
  ℕ, ◌≡◌, refl, sym, true, List, [], ◌∷◌, ◌++◌, append-nil, arith, ◌==◌, if◌then◌else◌, inc32,
}
use windows_vhci_driver.Rendezvous.{IsConsistent}
use windows_vhci_driver.User.Control.{reply_body, create_radio, control_opcode, handle_control}
use windows_vhci_driver.User.ToStack.{take_or_park_for_stack}
use windows_vhci_driver.User.ToUser.{h4_bytes}
use windows_vhci_driver.User.Write.{write_data}

module _ {Queue : Type 0} (w : Wdf Queue) where
  pub deliver_on-Spares :
      (k : Kernel) (ch : Channel) (ctx : FdoContext Queue) (type : ℕ) (body : List ℕ)
      → let (status, ctx', done) = deliver_on w k ch ctx type body in Spares w ctx (ctx', done)
  unfolding deliver_on complete_read park_for_read
  deliver_on-Spares k events ctx type body = ground arith
  deliver_on-Spares k acl ctx type body = ground arith

  pub write_data-Spares :
      (k : Kernel) (ctx : FdoContext Queue) (type : ℕ) (body : List ℕ)
      → let (status, ctx', done) = write_data w k ctx type body in Spares w ctx (ctx', done)
  unfolding write_data deliver_to_stack
  write_data-Spares k ctx type body =
      ground (arith, deliver_on-Spares k (channel_of type) ctx type body)

  pub take_or_park-Spares :
      (ctx : FdoContext Queue) (r : Request) (ch : Channel)
      → let (ctx', v) = take_or_park w ctx r ch in Spares w ctx (ctx', settle r v)
  unfolding take_or_park take_or_park_for_stack complete_read
  take_or_park-Spares ctx r events = ground arith
  take_or_park-Spares ctx r acl = ground arith

  pub stays-Serves : (ctx : FdoContext Queue) → IsServing w ctx → Serves w ctx [] (ctx, [])
  stays-Serves ctx v = Spares-Serves w ctx _ (record { queue = refl; list = refl; silent = refl }) v

  -- A counter that moved before does not matter.
  pub Serves-from :
      (ctx before : FdoContext Queue) (added : List (List ℕ)) (out : Effect Queue)
      → before.host_to_ctrl_list ≡ ctx.host_to_ctrl_list
      → Serves w before added out
      → Serves w ctx added out
  Serves-from ctx before added out e a = record { stream = rw (sym e) a.stream; keeps = a.keeps }

  -- A completion that carries no packet to the client.
  pub Serves-settle :
      (ctx ctx' : FdoContext Queue) (added : List (List ℕ)) (done more : List Completion)
      → received more ≡ []
      → Serves w ctx added (ctx', done)
      → Serves w ctx added (ctx', done ++ more)
  Serves-settle ctx ctx' added done more e a = record {
    stream = rw (received-append done more, e, append-nil (received done)) a.stream;
    keeps = a.keeps;
  }

-- The reply to a control packet with the given body.
abbrev pub control_reply : ℕ → List ℕ → List (List ℕ)
control_reply radio_id (opcode ∷ []) = h4_bytes h4_vendor (reply_body opcode radio_id) ∷ []
control_reply radio_id _ = []

-- What a write that succeeds sends back to the client.
abbrev pub reply_to : ℕ → List ℕ → List (List ℕ)
reply_to radio_id [] = []
reply_to radio_id (type ∷ body) = if type == h4_vendor then control_reply radio_id body else []

module _ {Queue : Type 0} where
  abbrev pub unless_lost : FdoContext Queue → FdoContext Queue → List (List ℕ) → List (List ℕ)
  unless_lost s t bytes = if counted_loss s t then [] else bytes

  pub unless_lost-nil : (s t : FdoContext Queue) → unless_lost s t [] ≡ []
  unless_lost-nil s t = ground arith

module _ {Queue : Type 0} (w : Wdf Queue) (fifo : IsFifo w) where
  create_radio-Serves :
      (k : Kernel) (ctx : FdoContext Queue) (opcode : ℕ)
      → IsBuffered k
      → IsConsistent w ctx
      → IsServing w ctx
      → let (status, ctx', done) = create_radio w k ctx opcode in
        Serves w ctx
          (if nt_success status
            then unless_lost ctx ctx' (control_reply ctx.next_radio_id (opcode ∷ []))
            else [])
          (ctx', done)
  unfolding create_radio
  create_radio-Serves k ctx opcode b c v =
      let claimed : FdoContext Queue = record ctx {
        next_radio_id = inc32 ctx.next_radio_id;
        radio_present = true;
        current_radio_id = ctx.next_radio_id;
      } in
      let stays = stays-Serves w ctx v in
      let replies =
        queue_to_user-Serves w fifo k claimed h4_vendor (reply_body opcode ctx.next_radio_id) b
          (record { user = c.user; event = c.event; acl = c.acl })
          (record { readers = v.readers; fitting = v.fitting }) (omega arith) in
      ground (arith, stays, replies)

  control_opcode-Serves :
      (k : Kernel) (ctx : FdoContext Queue) (opcode : ℕ)
      → IsBuffered k
      → IsConsistent w ctx
      → IsServing w ctx
      → let (status, ctx', done) = control_opcode w k ctx opcode in
        Serves w ctx
          (if nt_success status
            then unless_lost ctx ctx' (control_reply ctx.next_radio_id (opcode ∷ []))
            else [])
          (ctx', done)
  unfolding control_opcode
  control_opcode-Serves k ctx opcode b c v =
      let stays = stays-Serves w ctx v in
      ground (arith, stays, create_radio-Serves k ctx opcode b c v)

  pub handle_control-Serves :
      (k : Kernel) (ctx : FdoContext Queue) (body : List ℕ)
      → IsBuffered k
      → IsConsistent w ctx
      → IsServing w ctx
      → let (status, ctx', done) = handle_control w k ctx body in
        Serves w ctx
          (if nt_success status
            then unless_lost ctx ctx' (control_reply ctx.next_radio_id body)
            else [])
          (ctx', done)
  unfolding handle_control
  handle_control-Serves k ctx [] b c v = stays-Serves w ctx v
  handle_control-Serves k ctx (opcode ∷ []) b c v = control_opcode-Serves k ctx opcode b c v
  handle_control-Serves k ctx (o ∷ p ∷ rest) b c v = stays-Serves w ctx v
