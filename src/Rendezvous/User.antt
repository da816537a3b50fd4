-- ===== src/Rendezvous/User.antt =====
-- The operations on the user's side keep the context consistent.
use windows_vhci_driver.Context.{Packet, FdoContext, take_parked}
use windows_vhci_driver.Kernel.{Wdf, Kernel, IsFifo, Request}
use windows_vhci_driver.Prelude.{ℕ, ◌≡◌, refl, inl, inr, List, [], ◌∷◌, arith, Option-cases}
use windows_vhci_driver.Rendezvous.{IsConsistent}
use windows_vhci_driver.Rendezvous.Backlog.{
  IsBacklog-append, IsBacklog-take, IsBacklog-park, take_parked-none, take_parked-some,
}
use windows_vhci_driver.User.ToUser.{park_for_user, queue_to_user, evt_io_read}

module _ {Queue : Type 0} (w : Wdf Queue) (fifo : IsFifo w) (k : Kernel) where
  -- A packet that is parked, at a moment when no reader waits.
  park_for_user-IsConsistent :
      (ctx : FdoContext Queue) (type : ℕ) (body : List ℕ)
      → IsConsistent w ctx
      → w.waiting ctx.user_read_queue ≡ []
      → IsConsistent w (park_for_user k ctx type body)
  unfolding park_for_user
  park_for_user-IsConsistent ctx type body c e =
      let grown =
        IsBacklog-append w ctx.user_read_queue ctx.host_to_ctrl_list
          (record { type = type; body = body }) ctx.host_to_ctrl_count ctx.host_to_ctrl_peak c.user
          e in
      ground (arith, grown)

  pub queue_to_user-IsConsistent :
      (ctx : FdoContext Queue) (type : ℕ) (body : List ℕ)
      → IsConsistent w ctx
      → IsConsistent w (queue_to_user w k ctx type body).0
  unfolding queue_to_user
  queue_to_user-IsConsistent ctx type body c =
      elim (Option-cases (take_parked w ctx.user_read_queue ctx.host_to_ctrl_count)) [
        | inl e ↦ ground (
          arith,
          park_for_user-IsConsistent ctx type body c (take_parked-none w fifo _ _ _ _ c.user e),
        )
        | inr (found, e) ↦ ground (arith, take_parked-some w fifo _ found.1 found.0 _ _ _ c.user e)
      ]

  evt_io_read-IsConsistent_at :
      (ctx : FdoContext Queue) (ps : List Packet) (r : Request)
      → ctx.host_to_ctrl_list ≡ ps
      → IsConsistent w ctx
      → IsConsistent w (evt_io_read w k ctx r).0
  unfolding evt_io_read
  evt_io_read-IsConsistent_at ctx [] r e c = ground (
    arith,
    IsBacklog-park w ctx.user_read_queue (w.forward r ctx.user_read_queue).1 ctx.host_to_ctrl_count
        ctx.host_to_ctrl_peak,
  )
  evt_io_read-IsConsistent_at ctx (p ∷ rest) r e c = ground (
    arith,
    IsBacklog-take w ctx.user_read_queue rest p ctx.host_to_ctrl_count ctx.host_to_ctrl_peak,
  )

  pub evt_io_read-IsConsistent :
      (ctx : FdoContext Queue) (r : Request)
      → IsConsistent w ctx
      → IsConsistent w (evt_io_read w k ctx r).0
  evt_io_read-IsConsistent ctx r c = evt_io_read-IsConsistent_at ctx ctx.host_to_ctrl_list r refl c
