-- ===== src/Stream/Frame.antt =====
-- The calls that leave a channel alone: all of the user's side, and the other channel's.
use windows_vhci_driver.Context.{
  h4_vendor, FdoContext, Channel, events, acl, channel_of, read_queue, pending_list,
}
use windows_vhci_driver.Fdo.Deliver.{complete_read, park_for_read, deliver_on}
use windows_vhci_driver.Kernel.{Wdf, Kernel, Request}
use windows_vhci_driver.Prelude.{ℕ, ◌≡◌, true, false, some, List, [], ◌∷◌, arith, inc32}
use windows_vhci_driver.Stream.{same, Ignores}
use windows_vhci_driver.User.Control.{reply_body, claim_radio, create_radio, handle_control}
use windows_vhci_driver.User.ToUser.{
  hand_to_reader, hand_from_backlog, park_for_user, queue_to_user, evt_io_read,
}

module _ {Queue : Type 0} (w : Wdf Queue) where
  pub queue_to_user-Ignores :
      (ch : Channel) (k : Kernel) (ctx : FdoContext Queue) (type : ℕ) (body : List ℕ)
      → Ignores w ch ctx (queue_to_user w k ctx type body)
  unfolding queue_to_user hand_to_reader park_for_user
  queue_to_user-Ignores events k ctx type body = ground arith
  queue_to_user-Ignores acl k ctx type body = ground arith

  pub evt_io_read-Ignores :
      (ch : Channel) (k : Kernel) (ctx : FdoContext Queue) (r : Request)
      → Ignores w ch ctx (evt_io_read w k ctx r)
  unfolding evt_io_read hand_from_backlog
  evt_io_read-Ignores events k ctx r = ground arith
  evt_io_read-Ignores acl k ctx r = ground arith

  pub claim_radio-Ignores :
      (ch : Channel) (ctx ctx' : FdoContext Queue) (radio_id : ℕ)
      → claim_radio ctx ≡ some (radio_id, ctx')
      → (read_queue ch ctx' ≡ read_queue ch ctx) × (pending_list ch ctx' ≡ pending_list ch ctx)
  unfolding claim_radio
  claim_radio-Ignores events ctx ctx' radio_id e = ground arith
  claim_radio-Ignores acl ctx ctx' radio_id e = ground arith

  pub handle_control-Ignores :
      (ch : Channel) (k : Kernel) (ctx : FdoContext Queue) (body : List ℕ)
      → let (status, ctx', done) = handle_control w k ctx body in Ignores w ch ctx (ctx', done)
  unfolding handle_control create_radio
  handle_control-Ignores events k ctx [] = ground arith
  handle_control-Ignores acl k ctx [] = ground arith
  handle_control-Ignores events k ctx (o ∷ []) = ground (
    arith,
    queue_to_user-Ignores events k
        (record ctx {
          next_radio_id = inc32 ctx.next_radio_id;
          radio_present = true;
          current_radio_id = ctx.next_radio_id;
        })
        h4_vendor (reply_body o ctx.next_radio_id),
  )
  handle_control-Ignores acl k ctx (o ∷ []) = ground (
    arith,
    queue_to_user-Ignores acl k
        (record ctx {
          next_radio_id = inc32 ctx.next_radio_id;
          radio_present = true;
          current_radio_id = ctx.next_radio_id;
        })
        h4_vendor (reply_body o ctx.next_radio_id),
  )
  handle_control-Ignores events k ctx (o ∷ x ∷ xs) = ground arith
  handle_control-Ignores acl k ctx (o ∷ x ∷ xs) = ground arith

  -- A packet of the other channel.
  pub deliver_on-Ignores :
      (ch ch' : Channel) (k : Kernel) (ctx : FdoContext Queue) (type : ℕ) (body : List ℕ)
      → same ch ch' ≡ false
      → channel_of type ≡ ch'
      → let (status, ctx', done) = deliver_on w k ch' ctx type body in Ignores w ch ctx (ctx', done)
  unfolding deliver_on complete_read park_for_read
  deliver_on-Ignores events events k ctx type body n e = cc
  deliver_on-Ignores events acl k ctx type body n e = ground arith
  deliver_on-Ignores acl events k ctx type body n e = ground arith
  deliver_on-Ignores acl acl k ctx type body n e = cc
