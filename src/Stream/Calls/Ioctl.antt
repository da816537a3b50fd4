-- ===== src/Stream/Calls/Ioctl.antt =====
-- The BTHX requests, as one channel sees them.
use windows_vhci_driver.Context.{
  hci_context_header_size, Packet, FdoContext, nothing, Completion, complete, Channel, events, acl,
  pending_list,
}
use windows_vhci_driver.Fdo.Deliver.{complete_read}
use windows_vhci_driver.Fdo.Dispatch.{
  get_version_case, query_capabilities_case, read_channel, set_version_case, count_write_hci,
  count_ioctl, write_hci_case, take_or_park, read_hci_case, settle, bthx_case, bthx_dispatch,
}
use windows_vhci_driver.Kernel.{
  Wdf, Kernel, IsFifo, Request, IoControlCode, get_version, set_version, query_capabilities,
  write_hci, read_hci, unknown, Status,
}
use windows_vhci_driver.Prelude.{
  ℕ, ◌-◌, ◌≡◌, refl, subst, false, List, [], ◌∷◌, ◌++◌, append-nil, arith, take, All, All-append,
}
use windows_vhci_driver.Stream.{
  same, delivered, delivered-append, IsRoomy, FitsIn, IsDeliverable, Advances, Ignores,
  Ignores-Advances, pending_list-count_ioctl,
}
use windows_vhci_driver.Stream.Calls.{PostsRoomy}
use windows_vhci_driver.Stream.Calls.Write.{stays-Advances, Advances-settle}
use windows_vhci_driver.Stream.Deliver.{complete_read-delivered}
use windows_vhci_driver.Stream.Frame.{queue_to_user-Ignores}
use windows_vhci_driver.User.ToStack.{take_or_park_for_stack}

module _ {Queue : Type 0} (w : Wdf Queue) (fifo : IsFifo w) where
  take_or_park_at :
      (ch : Channel) (ctx : FdoContext Queue) (ps : List Packet) (r : Request)
      → pending_list ch ctx ≡ ps
      → IsDeliverable w ch ctx
      → IsRoomy ch r
      → let (ctx', v) = take_or_park w ctx r ch in Advances w ch ctx [] (ctx', settle r v)
  unfolding take_or_park take_or_park_for_stack
  take_or_park_at events ctx [] r e d room = ground (
    arith,
    fifo.forwards r ctx.read_event_queue,
    All-append (IsRoomy events) (w.waiting ctx.read_event_queue) (r ∷ []) d.roomy (room, tt),
  )
  take_or_park_at acl ctx [] r e d room = ground (
    arith,
    fifo.forwards r ctx.read_data_queue,
    All-append (IsRoomy acl) (w.waiting ctx.read_data_queue) (r ∷ []) d.roomy (room, tt),
  )
  take_or_park_at events ctx (p ∷ rest) r e d room =
      let (fit, fits) = subst (All (FitsIn events)) e d.fitting in
      ground (arith, complete_read-delivered events r p.type p.body room fit, fits, append-nil rest)
  take_or_park_at acl ctx (p ∷ rest) r e d room =
      let (fit, fits) = subst (All (FitsIn acl)) e d.fitting in
      ground (arith, complete_read-delivered acl r p.type p.body room fit, fits, append-nil rest)

  -- A read of the other channel.
  take_or_park_other :
      (ch ch' : Channel) (ctx : FdoContext Queue) (ps : List Packet) (r : Request)
      → same ch ch' ≡ false
      → pending_list ch' ctx ≡ ps
      → IsDeliverable w ch' ctx
      → let (ctx', v) = take_or_park w ctx r ch' in Ignores w ch ctx (ctx', settle r v)
  unfolding take_or_park take_or_park_for_stack complete_read
  take_or_park_other events events ctx ps r n e d = cc
  take_or_park_other acl acl ctx ps r n e d = cc
  take_or_park_other events acl ctx [] r n e d = ground arith
  take_or_park_other acl events ctx [] r n e d = ground arith
  take_or_park_other events acl ctx (p ∷ rest) r n e d =
      let (fit, _) = subst (All (FitsIn acl)) e d.fitting in ground (arith, fit)
  take_or_park_other acl events ctx (p ∷ rest) r n e d =
      let (fit, _) = subst (All (FitsIn events)) e d.fitting in ground (arith, fit)

  take_or_park-Advances :
      (ch ch' : Channel) (ctx : FdoContext Queue) (r : Request)
      → ((c : Channel) → IsDeliverable w c ctx)
      → IsRoomy ch' r
      → let (ctx', v) = take_or_park w ctx r ch' in Advances w ch ctx [] (ctx', settle r v)
  take_or_park-Advances events events ctx r d room =
      take_or_park_at events ctx _ r refl (d events) room
  take_or_park-Advances acl acl ctx r d room = take_or_park_at acl ctx _ r refl (d acl) room
  take_or_park-Advances events acl ctx r d room =
      Ignores-Advances w events ctx _ (take_or_park_other events acl ctx _ r refl refl (d acl))
        (d events)
  take_or_park-Advances acl events ctx r d room =
      Ignores-Advances w acl ctx _ (take_or_park_other acl events ctx _ r refl refl (d events))
        (d acl)

  read_hci_case-Advances :
      (ch : Channel) (ctx : FdoContext Queue) (r : Request) (out_length in_length : ℕ)
      → ((c : Channel) → IsDeliverable w c ctx)
      → IsRoomy (read_channel r.input.data_len (out_length - hci_context_header_size)) r
      → let (ctx', v) = read_hci_case w ctx r out_length in_length in
        Advances w ch ctx [] (ctx', settle r v)
  unfolding read_hci_case
  read_hci_case-Advances ch ctx r out_length in_length d room =
      let refused_with = λ (s : Status).
        Advances-settle w ch ctx ctx [] [] (complete r s 0 nothing) refl
          (stays-Advances w ch ctx (d ch)) in
      let bad_buffers = refused_with Status.invalid_parameter in
      let bad_layout = refused_with Status.invalid_device_request in
      let at = read_channel r.input.data_len (out_length - hci_context_header_size) in
      ground (arith, bad_buffers, bad_layout, take_or_park-Advances ch at ctx r d room)

  -- The counters do not touch a channel.
  count_ioctl-IsDeliverable :
      (ch : Channel) (ctx : FdoContext Queue)
      → IsDeliverable w ch ctx
      → IsDeliverable w ch (count_ioctl ctx)
  count_ioctl-IsDeliverable events ctx d = ground arith
  count_ioctl-IsDeliverable acl ctx d = ground arith

  write_hci_case-Ignores :
      (ch : Channel) (k : Kernel) (ctx : FdoContext Queue) (r : Request) (in_length : ℕ)
      → let (ctx', done, v) = write_hci_case w k ctx r in_length in
        Ignores w ch ctx (ctx', done) × (delivered ch (settle r v) ≡ [])
  unfolding write_hci_case
  write_hci_case-Ignores events k ctx r in_length = ground (
    arith,
    queue_to_user-Ignores w events k (count_write_hci ctx) r.input.type
        (take r.input.data_len r.input.bytes),
  )
  write_hci_case-Ignores acl k ctx r in_length = ground (
    arith,
    queue_to_user-Ignores w acl k (count_write_hci ctx) r.input.type
        (take r.input.data_len r.input.bytes),
  )

  append-silent :
      (ch : Channel) (ctx ctx' : FdoContext Queue) (done more : List Completion)
      → Ignores w ch ctx (ctx', done)
      → delivered ch more ≡ []
      → Ignores w ch ctx (ctx', done ++ more)
  append-silent ch ctx ctx' done more i e = record {
    queue = i.queue;
    list = i.list;
    silent = rw (delivered-append ch done more, i.silent, e);
  }

  set_version_case-Ignores :
      (ch : Channel) (k : Kernel) (ctx : FdoContext Queue) (r : Request) (in_length : ℕ)
      → let (ctx', v) = set_version_case k ctx r in_length in Ignores w ch ctx (ctx', settle r v)
  unfolding set_version_case
  set_version_case-Ignores events k ctx r in_length = ground arith
  set_version_case-Ignores acl k ctx r in_length = ground arith

  get_version_case-silent :
      (ch : Channel) (k : Kernel) (r : Request) (out_length : ℕ)
      → delivered ch (settle r (get_version_case k r out_length)) ≡ []
  unfolding get_version_case
  get_version_case-silent ch k r out_length = ground arith

  query_capabilities_case-silent :
      (ch : Channel) (k : Kernel) (r : Request) (out_length : ℕ)
      → delivered ch (settle r (query_capabilities_case k r out_length)) ≡ []
  unfolding query_capabilities_case
  query_capabilities_case-silent ch k r out_length = ground arith

  bthx_case-Advances :
      (ch : Channel) (k : Kernel) (ctx : FdoContext Queue) (r : Request) (out_length in_length : ℕ)
      (code : IoControlCode)
      → ((c : Channel) → IsDeliverable w c ctx)
      → PostsRoomy r out_length code
      → let (ctx', done, v) = bthx_case w k ctx r out_length in_length code in
        Advances w ch ctx [] (ctx', done ++ settle r v)
  unfolding bthx_case
  bthx_case-Advances ch k ctx r out_length in_length get_version d room =
      Ignores-Advances w ch ctx _
        (record { queue = refl; list = refl; silent = get_version_case-silent ch k r out_length })
        (d ch)
  bthx_case-Advances ch k ctx r out_length in_length set_version d room =
      Ignores-Advances w ch ctx _ (set_version_case-Ignores ch k ctx r in_length) (d ch)
  bthx_case-Advances ch k ctx r out_length in_length query_capabilities d room =
      Ignores-Advances w ch ctx _
        (record {
          queue = refl;
          list = refl;
          silent = query_capabilities_case-silent ch k r out_length;
        })
        (d ch)
  bthx_case-Advances ch k ctx r out_length in_length write_hci d room =
      let (i, e) = write_hci_case-Ignores ch k ctx r in_length in
      Ignores-Advances w ch ctx _ (append-silent ch ctx _ _ _ i e) (d ch)
  bthx_case-Advances ch k ctx r out_length in_length read_hci d room =
      read_hci_case-Advances ch ctx r out_length in_length d room
  bthx_case-Advances ch k ctx r out_length in_length (unknown n) d room =
      Ignores-Advances w ch ctx _ (record { queue = refl; list = refl; silent = refl }) (d ch)

  pub bthx_dispatch-Advances :
      (ch : Channel) (k : Kernel) (ctx : FdoContext Queue) (r : Request) (out_length in_length : ℕ)
      (code : IoControlCode)
      → ((c : Channel) → IsDeliverable w c ctx)
      → PostsRoomy r out_length code
      → Advances w ch ctx [] (bthx_dispatch w k ctx r out_length in_length code)
  unfolding bthx_dispatch
  bthx_dispatch-Advances ch k ctx r out_length in_length code d room =
      let denied =
        Advances-settle w ch ctx ctx [] [] (complete r Status.access_denied 0 nothing) refl
          (stays-Advances w ch ctx (d ch)) in
      let counted =
        bthx_case-Advances ch k (count_ioctl ctx) r out_length in_length code
          (λ c. count_ioctl-IsDeliverable c ctx (d c)) room in
      ground (arith, denied, counted, pending_list-count_ioctl ch ctx)
