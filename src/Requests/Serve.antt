-- ===== src/Requests/Serve.antt =====
-- The functions that serve a parked request or park one.
use windows_vhci_driver.Context.{
  Packet, FdoContext, Channel, events, acl, pending_list, take_parked,
}
use windows_vhci_driver.Fdo.Deliver.{complete_read, park_for_read, deliver_on}
use windows_vhci_driver.Fdo.Dispatch.{take_or_park, settle}
use windows_vhci_driver.Kernel.{Wdf, Kernel, IsFifo, Request}
use windows_vhci_driver.Prelude.{ℕ, ◌≡◌, refl, inl, inr, List, [], ◌∷◌, arith, Option-cases}
use windows_vhci_driver.Requests.{is_request, Accounts, parked-forward, parked-take}
use windows_vhci_driver.User.ToStack.{park_for_stack, take_or_park_for_stack}
use windows_vhci_driver.User.ToUser.{
  hand_to_reader, hand_from_backlog, park_for_user, queue_to_user, park_reader, evt_io_read,
}

hand_to_reader-request :
    (k : Kernel) (r : Request) (type : ℕ) (body : List ℕ)
    → (hand_to_reader k r type body).request ≡ r
unfolding hand_to_reader
hand_to_reader-request k r type body = ground arith

hand_from_backlog-request :
    (k : Kernel) (r : Request) (p : Packet) → (hand_from_backlog k r p).request ≡ r
unfolding hand_from_backlog
hand_from_backlog-request k r p = ground arith

complete_read-request :
    (r : Request) (type : ℕ) (body : List ℕ) → (complete_read r type body).1.request ≡ r
unfolding complete_read
complete_read-request r type body = ground arith

module _ {Queue : Type 0} (w : Wdf Queue) (fifo : IsFifo w) where
  pub queue_to_user-Accounts :
      (i : ℕ) (k : Kernel) (ctx : FdoContext Queue) (type : ℕ) (body : List ℕ)
      → Accounts w i ctx 0 (queue_to_user w k ctx type body)
  unfolding queue_to_user park_for_user
  queue_to_user-Accounts i k ctx type body =
      elim (Option-cases (take_parked w ctx.user_read_queue ctx.host_to_ctrl_count)) [
        | inl e ↦ ground arith
        | inr (found, e) ↦ ground (
          arith,
          hand_to_reader-request k found.0 type body,
          parked-take w fifo i ctx.user_read_queue found.1 found.0 ctx.host_to_ctrl_count e,
        )
      ]

  evt_io_read-Accounts_at :
      (i : ℕ) (k : Kernel) (ctx : FdoContext Queue) (ps : List Packet) (r : Request)
      → ctx.host_to_ctrl_list ≡ ps
      → Accounts w i ctx (is_request i r) (evt_io_read w k ctx r)
  unfolding evt_io_read park_reader
  evt_io_read-Accounts_at i k ctx [] r e =
      ground (arith, parked-forward w fifo i r ctx.user_read_queue)
  evt_io_read-Accounts_at i k ctx (p ∷ rest) r e = ground (arith, hand_from_backlog-request k r p)

  pub evt_io_read-Accounts :
      (i : ℕ) (k : Kernel) (ctx : FdoContext Queue) (r : Request)
      → Accounts w i ctx (is_request i r) (evt_io_read w k ctx r)
  evt_io_read-Accounts i k ctx r = evt_io_read-Accounts_at i k ctx _ r refl

  pub deliver_on-Accounts :
      (i : ℕ) (k : Kernel) (ch : Channel) (ctx : FdoContext Queue) (type : ℕ) (body : List ℕ)
      → let (status, ctx', done) = deliver_on w k ch ctx type body in
        Accounts w i ctx 0 (ctx', done)
  unfolding deliver_on park_for_read
  deliver_on-Accounts i k events ctx type body =
      elim (Option-cases (take_parked w ctx.read_event_queue ctx.pending_event_count)) [
        | inl e ↦ ground arith
        | inr (found, e) ↦ ground (
          arith,
          complete_read-request found.0 type body,
          parked-take w fifo i ctx.read_event_queue found.1 found.0 ctx.pending_event_count e,
        )
      ]
  deliver_on-Accounts i k acl ctx type body =
      elim (Option-cases (take_parked w ctx.read_data_queue ctx.pending_data_count)) [
        | inl e ↦ ground arith
        | inr (found, e) ↦ ground (
          arith,
          complete_read-request found.0 type body,
          parked-take w fifo i ctx.read_data_queue found.1 found.0 ctx.pending_data_count e,
        )
      ]

  take_or_park-Accounts_at :
      (i : ℕ) (ctx : FdoContext Queue) (r : Request) (ch : Channel) (ps : List Packet)
      → pending_list ch ctx ≡ ps
      → let (ctx', v) = take_or_park w ctx r ch in
        Accounts w i ctx (is_request i r) (ctx', settle r v)
  unfolding take_or_park take_or_park_for_stack park_for_stack
  take_or_park-Accounts_at i ctx r events [] e =
      ground (arith, parked-forward w fifo i r ctx.read_event_queue)
  take_or_park-Accounts_at i ctx r acl [] e =
      ground (arith, parked-forward w fifo i r ctx.read_data_queue)
  take_or_park-Accounts_at i ctx r events (p ∷ rest) e =
      ground (arith, complete_read-request r p.type p.body)
  take_or_park-Accounts_at i ctx r acl (p ∷ rest) e =
      ground (arith, complete_read-request r p.type p.body)

  pub take_or_park-Accounts :
      (i : ℕ) (ctx : FdoContext Queue) (r : Request) (ch : Channel)
      → let (ctx', v) = take_or_park w ctx r ch in
        Accounts w i ctx (is_request i r) (ctx', settle r v)
  take_or_park-Accounts i ctx r ch = take_or_park-Accounts_at i ctx r ch _ refl
