-- ===== src/Client/Queue.antt =====
-- One packet into the client's queue, and one read out of it.
use windows_vhci_driver.Client.{
  received, queued_bytes, queued_bytes-append, HoldsLargest, FitsLargest, counted_loss, IsServing,
  Serves,
}
use windows_vhci_driver.Context.{Packet, FdoContext, take_parked}
use windows_vhci_driver.Kernel.{Wdf, Kernel, IsFifo, IsBuffered, Request}
use windows_vhci_driver.Prelude.{
  ℕ, ◌≡◌, refl, subst, inl, inr, List, [], ◌∷◌, append-nil, arith, All, All-append, if◌then◌else◌,
  Option-cases,
}
use windows_vhci_driver.Rendezvous.{IsConsistent}
use windows_vhci_driver.Rendezvous.Backlog.{take_parked-some}
use windows_vhci_driver.User.ToUser.{
  h4_bytes, hand_to_reader, hand_from_backlog, park_for_user, queue_to_user, evt_io_read,
}

hand_to_reader-received :
    (k : Kernel) (r : Request) (type : ℕ) (body : List ℕ)
    → IsBuffered k
    → HoldsLargest r
    → FitsLargest (record { type = type; body = body })
    → received (hand_to_reader k r type body ∷ []) ≡ h4_bytes type body ∷ []
unfolding hand_to_reader
hand_to_reader-received k r type body b room fit = ground (arith, b.output r (omega (arith, room)))

hand_from_backlog-received :
    (k : Kernel) (r : Request) (p : Packet)
    → IsBuffered k
    → HoldsLargest r
    → FitsLargest p
    → received (hand_from_backlog k r p ∷ []) ≡ h4_bytes p.type p.body ∷ []
unfolding hand_from_backlog
hand_from_backlog-received k r p b room fit = ground (arith, b.output r (omega (arith, room)))

module _ {Queue : Type 0} (w : Wdf Queue) (fifo : IsFifo w) where
  park_for_user-Serves :
      (k : Kernel) (ctx : FdoContext Queue) (type : ℕ) (body : List ℕ)
      → IsServing w ctx
      → FitsLargest (record { type = type; body = body })
      → let ctx' = park_for_user k ctx type body in
        Serves w ctx (if counted_loss ctx ctx' then [] else h4_bytes type body ∷ []) (ctx', [])
  unfolding park_for_user
  park_for_user-Serves k ctx type body v fit =
      let p : Packet = record { type = type; body = body } in
      ground (
        arith,
        append-nil (queued_bytes ctx.host_to_ctrl_list),
        queued_bytes-append ctx.host_to_ctrl_list (p ∷ []),
        All-append FitsLargest ctx.host_to_ctrl_list (p ∷ []) v.fitting (fit, tt),
      )

  handed-Serves :
      (k : Kernel) (ctx : FdoContext Queue) (r : Request) (q : Queue) (type : ℕ) (body : List ℕ)
      → IsBuffered k
      → w.waiting ctx.user_read_queue ≡ r ∷ w.waiting q
      → ctx.host_to_ctrl_list ≡ []
      → IsServing w ctx
      → FitsLargest (record { type = type; body = body })
      → Serves w ctx
          (h4_bytes type body ∷ [])
          (record ctx { user_read_queue = q }, hand_to_reader k r type body ∷ [])
  handed-Serves k ctx r q type body b waits e v fit =
      let (room, rooms) = subst (All HoldsLargest) waits v.readers in
      ground (arith, hand_to_reader-received k r type body b room fit, rooms)

  pub queue_to_user-Serves :
      (k : Kernel) (ctx : FdoContext Queue) (type : ℕ) (body : List ℕ)
      → IsBuffered k
      → IsConsistent w ctx
      → IsServing w ctx
      → FitsLargest (record { type = type; body = body })
      → let out = queue_to_user w k ctx type body in
        Serves w ctx (if counted_loss ctx out.0 then [] else h4_bytes type body ∷ []) out
  unfolding queue_to_user
  queue_to_user-Serves k ctx type body b c v fit =
      elim (Option-cases (take_parked w ctx.user_read_queue ctx.host_to_ctrl_count)) [
        | inl e ↦ ground (
          arith,
          append-nil (queued_bytes ctx.host_to_ctrl_list),
          park_for_user-Serves k ctx type body v fit,
        )
        | inr (found, e) ↦
            let (waits, none_ahead, _) = take_parked-some w fifo _ found.1 found.0 _ _ _ c.user e in
            ground (
              arith,
              append-nil (queued_bytes ctx.host_to_ctrl_list),
              handed-Serves k ctx found.0 found.1 type body b waits none_ahead v fit,
            )
      ]

  evt_io_read-Serves_at :
      (k : Kernel) (ctx : FdoContext Queue) (ps : List Packet) (r : Request)
      → IsBuffered k
      → ctx.host_to_ctrl_list ≡ ps
      → IsServing w ctx
      → Serves w ctx [] (evt_io_read w k ctx r)
  unfolding evt_io_read
  evt_io_read-Serves_at k ctx [] r b e v = ground (
    arith,
    fifo.forwards r ctx.user_read_queue,
    All-append HoldsLargest (w.waiting ctx.user_read_queue) (r ∷ []) v.readers,
  )
  evt_io_read-Serves_at k ctx (p ∷ rest) r b e v =
      let (fit, fits) = subst (All FitsLargest) e v.fitting in
      ground (
        arith,
        fits,
        append-nil (queued_bytes rest),
        append-nil (queued_bytes ctx.host_to_ctrl_list),
        hand_from_backlog-received k r p b,
      )

  pub evt_io_read-Serves :
      (k : Kernel) (ctx : FdoContext Queue) (r : Request)
      → IsBuffered k
      → IsServing w ctx
      → Serves w ctx [] (evt_io_read w k ctx r)
  evt_io_read-Serves k ctx r b v = evt_io_read-Serves_at k ctx _ r b refl v
