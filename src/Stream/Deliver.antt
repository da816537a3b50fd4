-- ===== src/Stream/Deliver.antt =====
-- One packet into a channel, and one read out of it.
use windows_vhci_driver.Context.{
  Packet, FdoContext, Completion, Channel, events, acl, read_queue, pending_list, pending_count,
  set_read_queue, take_parked,
}
use windows_vhci_driver.Fdo.Deliver.{complete_read, count_write, park_for_read, deliver_on}
use windows_vhci_driver.Kernel.{Wdf, Kernel, IsFifo, Request, Status, nt_success}
use windows_vhci_driver.Prelude.{
  ℕ, ◌≡◌, subst, inl, inr, List, [], ◌∷◌, ◌++◌, append-nil, arith, All, All-append, if◌then◌else◌,
  Option-cases,
}
use windows_vhci_driver.Rendezvous.{IsConsistent}
use windows_vhci_driver.Rendezvous.Backlog.{take_parked-some}
use windows_vhci_driver.Rendezvous.Stack.{channel_of_IsConsistent}
use windows_vhci_driver.Stream.{packet, delivered, IsRoomy, FitsIn, IsDeliverable}

-- A roomy read completes with the packet.
complete_read-carried :
    (ch : Channel) (r : Request) (type : ℕ) (body : List ℕ)
    → IsRoomy ch r
    → FitsIn ch (packet type body)
    → (complete_read r type body).0 ≡ Status.success
unfolding complete_read
complete_read-carried ch r type body room fit = ground arith

pub complete_read-delivered :
    (ch : Channel) (r : Request) (type : ℕ) (body : List ℕ)
    → IsRoomy ch r
    → FitsIn ch (packet type body)
    → delivered ch ((complete_read r type body).1 ∷ []) ≡ packet type body ∷ []
unfolding complete_read
complete_read-delivered ch r type body room fit = ground arith

module _ {Queue : Type 0} (w : Wdf Queue) (fifo : IsFifo w) where
  -- What a delivery does to its channel: a success puts the packet behind those before it, a
  -- failure puts nothing.
  pub record Delivers (ch : Channel) (ctx : FdoContext Queue) (p : Packet)
      (out : Status × FdoContext Queue × List Completion) : Type 0 where
    pub stream :
        delivered ch out.2 ++ pending_list ch out.1
        ≡ pending_list ch ctx ++ (if nt_success out.0 then p ∷ [] else [])
    pub keeps : IsDeliverable w ch out.1

  park_for_read-Delivers :
      (k : Kernel) (ch : Channel) (ctx : FdoContext Queue) (type : ℕ) (body : List ℕ)
      → IsDeliverable w ch ctx
      → FitsIn ch (packet type body)
      → let (status, ctx') = park_for_read k ch ctx type body in
        Delivers ch ctx (packet type body) (status, ctx', [])
  unfolding park_for_read
  park_for_read-Delivers k events ctx type body d fit = ground (
    arith,
    append-nil ctx.pending_event_list,
    All-append (FitsIn events) ctx.pending_event_list (packet type body ∷ []) d.fitting (fit, tt),
  )
  park_for_read-Delivers k acl ctx type body d fit = ground (
    arith,
    append-nil ctx.pending_data_list,
    All-append (FitsIn acl) ctx.pending_data_list (packet type body ∷ []) d.fitting (fit, tt),
  )

  served-Delivers :
      (ch : Channel) (ctx : FdoContext Queue) (r : Request) (q : Queue) (type : ℕ) (body : List ℕ)
      → w.waiting (read_queue ch ctx) ≡ r ∷ w.waiting q
      → pending_list ch ctx ≡ []
      → IsDeliverable w ch ctx
      → FitsIn ch (packet type body)
      → let (status, done) = complete_read r type body in
        Delivers ch ctx
          (packet type body)
          (status, count_write (set_read_queue ch q ctx), done ∷ [])
  served-Delivers events ctx r q type body waits e d fit =
      let (room, rooms) = subst (All (IsRoomy events)) waits d.roomy in
      ground (
        arith,
        complete_read-carried events r type body room fit,
        complete_read-delivered events r type body room fit,
        rooms,
      )
  served-Delivers acl ctx r q type body waits e d fit =
      let (room, rooms) = subst (All (IsRoomy acl)) waits d.roomy in
      ground (
        arith,
        complete_read-carried acl r type body room fit,
        complete_read-delivered acl r type body room fit,
        rooms,
      )

  pub deliver_on-Delivers :
      (k : Kernel) (ch : Channel) (ctx : FdoContext Queue) (type : ℕ) (body : List ℕ)
      → IsConsistent w ctx
      → IsDeliverable w ch ctx
      → FitsIn ch (packet type body)
      → Delivers ch ctx (packet type body) (deliver_on w k ch ctx type body)
  unfolding deliver_on
  deliver_on-Delivers k ch ctx type body c d fit =
      elim (Option-cases (take_parked w (read_queue ch ctx) (pending_count ch ctx))) [
        | inl e ↦ rw (e, deliver_on) (park_for_read-Delivers k ch ctx type body d fit)
        | inr (found, e) ↦
            let (waits, none_ahead, _) =
              take_parked-some w fifo _ found.1 found.0 _ _ _
                (channel_of_IsConsistent w fifo ch ctx c) e in
            rw (e, deliver_on)
              (served-Delivers ch ctx found.0 found.1 type body waits none_ahead d fit)
      ]
