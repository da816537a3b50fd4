-- ===== src/Rendezvous/Stack.antt =====
-- The operations on the stack's side, and those on the whole context, keep it consistent.
use windows_vhci_driver.Context.{
  Packet, FdoContext, Channel, events, acl, read_queue, pending_list, pending_count, pending_peak,
  take_parked,
}
use windows_vhci_driver.Fdo.Deliver.{park_for_read, deliver_on}
use windows_vhci_driver.Kernel.{Wdf, Kernel, IsFifo, Request}
use windows_vhci_driver.Prelude.{ℕ, ◌≡◌, refl, inl, inr, List, [], ◌∷◌, arith, Option-cases}
use windows_vhci_driver.Rendezvous.{IsConsistent}
use windows_vhci_driver.Rendezvous.Backlog.{
  IsBacklog, IsBacklog-append, IsBacklog-take, IsBacklog-free, IsBacklog-park, IsBacklog-empty,
  IsBacklog-same, take_parked-none, take_parked-some,
}
use windows_vhci_driver.User.Backlogs.{radio_stack_down, purge_backlogs}
use windows_vhci_driver.User.Handle.{purge_reads, start_reads}
use windows_vhci_driver.User.ToStack.{take_or_park_for_stack}

module _ {Queue : Type 0} (w : Wdf Queue) (fifo : IsFifo w) where
  abbrev IsChannel : Channel → FdoContext Queue → Type 0
  IsChannel ch ctx =
      IsBacklog w (read_queue ch ctx) (pending_list ch ctx) (pending_count ch ctx)
        (pending_peak ch ctx)

  pub channel_of_IsConsistent :
      (ch : Channel) (ctx : FdoContext Queue) → IsConsistent w ctx → IsChannel ch ctx
  channel_of_IsConsistent events ctx c = c.event
  channel_of_IsConsistent acl ctx c = c.acl

  park_for_read-IsConsistent :
      (k : Kernel) (ch : Channel) (ctx : FdoContext Queue) (type : ℕ) (body : List ℕ)
      → IsConsistent w ctx
      → w.waiting (read_queue ch ctx) ≡ []
      → IsConsistent w (park_for_read k ch ctx type body).1
  unfolding park_for_read
  park_for_read-IsConsistent k events ctx type body c e =
      let grown =
        IsBacklog-append w ctx.read_event_queue ctx.pending_event_list
          (record { type = type; body = body }) ctx.pending_event_count ctx.pending_event_peak
          c.event e in
      ground (arith, grown)
  park_for_read-IsConsistent k acl ctx type body c e =
      let grown =
        IsBacklog-append w ctx.read_data_queue ctx.pending_data_list
          (record { type = type; body = body }) ctx.pending_data_count ctx.pending_data_peak c.acl
          e in
      ground (arith, grown)

  pub deliver_on-IsConsistent :
      (k : Kernel) (ch : Channel) (ctx : FdoContext Queue) (type : ℕ) (body : List ℕ)
      → IsConsistent w ctx
      → IsConsistent w (deliver_on w k ch ctx type body).1
  unfolding deliver_on
  deliver_on-IsConsistent k ch ctx type body c =
      elim (Option-cases (take_parked w (read_queue ch ctx) (pending_count ch ctx))) [
        | inl e ↦
            rw (e, deliver_on)
              (park_for_read-IsConsistent k ch ctx type body c
                (take_parked-none w fifo _ _ _ _ (channel_of_IsConsistent ch ctx c) e))
        | inr (found, e) ↦ ground (
          arith,
          e,
          channel_of_IsConsistent ch ctx c,
          take_parked-some w fifo _ found.1 found.0 _ _ _ (channel_of_IsConsistent ch ctx c) e,
        )
      ]

  take_or_park-IsConsistent_at :
      (ctx : FdoContext Queue) (ch : Channel) (ps : List Packet) (r : Request)
      → pending_list ch ctx ≡ ps
      → IsConsistent w ctx
      → IsConsistent w (take_or_park_for_stack w ctx ch r).2
  unfolding take_or_park_for_stack
  take_or_park-IsConsistent_at ctx events [] r e c = ground (
    arith,
    IsBacklog-park w ctx.read_event_queue (w.forward r ctx.read_event_queue).1
        ctx.pending_event_count ctx.pending_event_peak,
  )
  take_or_park-IsConsistent_at ctx events (p ∷ rest) r e c = ground (
    arith,
    IsBacklog-take w ctx.read_event_queue rest p ctx.pending_event_count ctx.pending_event_peak,
  )
  take_or_park-IsConsistent_at ctx acl [] r e c = ground (
    arith,
    IsBacklog-park w ctx.read_data_queue (w.forward r ctx.read_data_queue).1 ctx.pending_data_count
        ctx.pending_data_peak,
  )
  take_or_park-IsConsistent_at ctx acl (p ∷ rest) r e c = ground (
    arith,
    IsBacklog-take w ctx.read_data_queue rest p ctx.pending_data_count ctx.pending_data_peak,
  )

  pub take_or_park-IsConsistent :
      (ctx : FdoContext Queue) (ch : Channel) (r : Request)
      → IsConsistent w ctx
      → IsConsistent w (take_or_park_for_stack w ctx ch r).2
  take_or_park-IsConsistent ctx ch r c =
      take_or_park-IsConsistent_at ctx ch (pending_list ch ctx) r refl c

  pub radio_stack_down-IsConsistent :
      (radio_id : ℕ) (ctx : FdoContext Queue)
      → IsConsistent w ctx
      → IsConsistent w (radio_stack_down radio_id ctx)
  unfolding radio_stack_down
  radio_stack_down-IsConsistent radio_id ctx c =
      ground (arith, IsBacklog-free w _ _ _ _ c.event, IsBacklog-free w _ _ _ _ c.acl)

  pub purge_backlogs-IsConsistent :
      (ctx : FdoContext Queue) → IsConsistent w ctx → IsConsistent w (purge_backlogs ctx)
  unfolding purge_backlogs
  purge_backlogs-IsConsistent ctx c = record {
    user = IsBacklog-free w _ _ _ _ c.user;
    event = IsBacklog-free w _ _ _ _ c.event;
    acl = IsBacklog-free w _ _ _ _ c.acl;
  }

  pub purge_reads-IsConsistent :
      (ch : Channel) (ctx : FdoContext Queue)
      → IsConsistent w ctx
      → IsConsistent w (purge_reads w ch ctx)
  purge_reads-IsConsistent events ctx c = record {
    user = c.user;
    event = IsBacklog-empty w _ _ _ _ _ (fifo.purges _) c.event;
    acl = c.acl;
  }
  purge_reads-IsConsistent acl ctx c = record {
    user = c.user;
    event = c.event;
    acl = IsBacklog-empty w _ _ _ _ _ (fifo.purges _) c.acl;
  }

  pub start_reads-IsConsistent :
      (ch : Channel) (ctx : FdoContext Queue)
      → IsConsistent w ctx
      → IsConsistent w (start_reads w ch ctx)
  start_reads-IsConsistent events ctx c = record {
    user = c.user;
    event = IsBacklog-same w _ _ _ _ _ (fifo.starts _) c.event;
    acl = c.acl;
  }
  start_reads-IsConsistent acl ctx c = record {
    user = c.user;
    event = c.event;
    acl = IsBacklog-same w _ _ _ _ _ (fifo.starts _) c.acl;
  }
