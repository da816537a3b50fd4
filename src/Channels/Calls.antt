-- ===== src/Channels/Calls.antt =====
-- The functions that touch a channel, or leave both alone.
use windows_vhci_driver.Channels.{
  IsOf, PacketIsOf, IsFor, complete_read-IsAnswered, IsSeparated, Separates,
}
use windows_vhci_driver.Context.{
  Packet, FdoContext, Channel, events, acl, pending_list, take_parked,
}
use windows_vhci_driver.Fdo.Deliver.{park_for_read, deliver_on}
use windows_vhci_driver.Fdo.Dispatch.{take_or_park, settle}
use windows_vhci_driver.Kernel.{Wdf, Kernel, IsFifo, Request}
use windows_vhci_driver.Prelude.{
  ℕ, ◌≡◌, refl, subst, inl, inr, List, [], ◌∷◌, arith, All, All-append, Option-cases,
}
use windows_vhci_driver.Rendezvous.Backlog.{take_parked-oldest}
use windows_vhci_driver.User.ToStack.{park_for_stack, take_or_park_for_stack}
use windows_vhci_driver.User.ToUser.{
  hand_to_reader, hand_from_backlog, park_for_user, queue_to_user, park_reader, evt_io_read,
}

module _ {Queue : Type 0} (w : Wdf Queue) where
  -- A call of the client's side.
  pub queue_to_user-Separates :
      (k : Kernel) (ctx : FdoContext Queue) (type : ℕ) (body : List ℕ)
      → IsSeparated w ctx
      → Separates w (queue_to_user w k ctx type body)
  unfolding queue_to_user hand_to_reader park_for_user
  queue_to_user-Separates k ctx type body s = ground arith

  pub evt_io_read-Separates :
      (k : Kernel) (ctx : FdoContext Queue) (r : Request)
      → IsSeparated w ctx
      → Separates w (evt_io_read w k ctx r)
  unfolding evt_io_read hand_from_backlog park_reader
  evt_io_read-Separates k ctx r s = ground arith

  module _ (fifo : IsFifo w) where
    pub deliver_on-Separates :
        (ch : Channel) (k : Kernel) (ctx : FdoContext Queue) (type : ℕ) (body : List ℕ)
        → IsOf ch type
        → IsSeparated w ctx
        → let (status, ctx', done) = deliver_on w k ch ctx type body in Separates w (ctx', done)
    unfolding deliver_on park_for_read
    deliver_on-Separates events k ctx type body o s =
        let p : Packet = record { type = type; body = body } in
        elim (Option-cases (take_parked w ctx.read_event_queue ctx.pending_event_count)) [
          | inl e ↦ ground (
            arith,
            All-append (PacketIsOf events) ctx.pending_event_list (p ∷ []) s.event_packets (o, tt),
          )
          | inr (found, e) ↦
              let (f, fs) =
                subst (All (IsFor events)) (take_parked-oldest w fifo _ found.1 found.0 _ e)
                  s.event_reads in
              ground (arith, fs, complete_read-IsAnswered events found.0 type body f o)
        ]
    deliver_on-Separates acl k ctx type body o s =
        let p : Packet = record { type = type; body = body } in
        elim (Option-cases (take_parked w ctx.read_data_queue ctx.pending_data_count)) [
          | inl e ↦ ground (
            arith,
            All-append (PacketIsOf acl) ctx.pending_data_list (p ∷ []) s.data_packets (o, tt),
          )
          | inr (found, e) ↦
              let (f, fs) =
                subst (All (IsFor acl)) (take_parked-oldest w fifo _ found.1 found.0 _ e)
                  s.data_reads in
              ground (arith, fs, complete_read-IsAnswered acl found.0 type body f o)
        ]

    take_or_park-Separates_at :
        (ch : Channel) (ctx : FdoContext Queue) (r : Request) (ps : List Packet)
        → pending_list ch ctx ≡ ps
        → IsFor ch r
        → IsSeparated w ctx
        → let (ctx', v) = take_or_park w ctx r ch in Separates w (ctx', settle r v)
    unfolding take_or_park take_or_park_for_stack park_for_stack
    take_or_park-Separates_at events ctx r [] e f s = ground (
      arith,
      fifo.forwards r ctx.read_event_queue,
      All-append (IsFor events) (w.waiting ctx.read_event_queue) (r ∷ []) s.event_reads (f, tt),
    )
    take_or_park-Separates_at acl ctx r [] e f s = ground (
      arith,
      fifo.forwards r ctx.read_data_queue,
      All-append (IsFor acl) (w.waiting ctx.read_data_queue) (r ∷ []) s.data_reads (f, tt),
    )
    take_or_park-Separates_at events ctx r (p ∷ rest) e f s =
        let (o, os) = subst (All (PacketIsOf events)) e s.event_packets in
        ground (arith, os, complete_read-IsAnswered events r p.type p.body f o)
    take_or_park-Separates_at acl ctx r (p ∷ rest) e f s =
        let (o, os) = subst (All (PacketIsOf acl)) e s.data_packets in
        ground (arith, os, complete_read-IsAnswered acl r p.type p.body f o)

    pub take_or_park-Separates :
        (ch : Channel) (ctx : FdoContext Queue) (r : Request)
        → IsFor ch r
        → IsSeparated w ctx
        → let (ctx', v) = take_or_park w ctx r ch in Separates w (ctx', settle r v)
    take_or_park-Separates ch ctx r f s = take_or_park-Separates_at ch ctx r _ refl f s
