-- ===== src/Client/Ioctl.antt =====
-- The BTHX requests, as the client's queue sees them: a WRITE_HCI adds a packet to it.
-- The packet of a WRITE_HCI that was completed with success.
use windows_vhci_driver.Client.{received, IsServing, Serves, Spares, Spares-Serves}
use windows_vhci_driver.Client.Frame.{
  take_or_park-Spares, stays-Serves, Serves-from, Serves-settle, unless_lost,
}
use windows_vhci_driver.Client.Queue.{queue_to_user-Serves}
use windows_vhci_driver.Context.{max_body, hci_context_header_size, FdoContext, nothing, complete}
use windows_vhci_driver.Fdo.Dispatch.{
  get_version_case, query_capabilities_case, read_channel, set_version_case, count_write_hci,
  count_ioctl, write_hci_case, read_hci_case, settle, bthx_case, bthx_dispatch,
}
use windows_vhci_driver.Kernel.{
  Wdf, Kernel, IsFifo, IsBuffered, Request, IoControlCode, get_version, set_version,
  query_capabilities, write_hci, read_hci, unknown, Status, nt_success,
}
use windows_vhci_driver.Prelude.{
  ℕ, ◌-◌, ◌≤◌, ◌≡◌, refl, List, [], ◌∷◌, ◌++◌, arith, length, take, length-take, if◌then◌else◌,
}
use windows_vhci_driver.Rendezvous.{IsConsistent}
use windows_vhci_driver.Stream.Calls.{last_status, last_status-append}
use windows_vhci_driver.User.ToUser.{h4_bytes, queue_to_user}

abbrev pub packet_from : Request → List (List ℕ)
packet_from r = h4_bytes r.input.type (take r.input.data_len r.input.bytes) ∷ []

module _ {Queue : Type 0} where
  abbrev pub sent_by :
      IoControlCode → FdoContext Queue → FdoContext Queue → Request → Status → List (List ℕ)
  sent_by write_hci s t r status = if nt_success status then unless_lost s t (packet_from r) else []
  sent_by _ s t r status = []

module _ {Queue : Type 0} (w : Wdf Queue) (fifo : IsFifo w) where
  count_ioctl-IsConsistent :
      (ctx : FdoContext Queue) → IsConsistent w ctx → IsConsistent w (count_ioctl ctx)
  count_ioctl-IsConsistent ctx c = record { user = c.user; event = c.event; acl = c.acl }

  write_hci_case-Serves :
      (k : Kernel) (ctx : FdoContext Queue) (r : Request) (in_length : ℕ)
      → IsBuffered k
      → IsConsistent w ctx
      → IsServing w ctx
      → let (ctx', done, v) = write_hci_case w k ctx r in_length in
        let settled = settle r v in
        Serves w ctx
          (if nt_success (last_status (done ++ settled))
            then unless_lost ctx ctx' (packet_from r)
            else [])
          (ctx', done ++ settled)
  unfolding write_hci_case
  write_hci_case-Serves k ctx r in_length b c v =
      let stays = stays-Serves w ctx v in
      let bad_input =
        Serves-settle w ctx ctx [] [] (complete r Status.invalid_parameter 0 nothing ∷ []) refl
          stays in
      let counted = count_write_hci ctx in
      let body = take r.input.data_len r.input.bytes in
      let out = queue_to_user w k counted r.input.type body in
      let done = complete r Status.success r.input.data_len nothing ∷ [] in
      let answered = λ (fit : length body ≤ max_body).
        Serves-from w ctx counted _ (out.0, out.1 ++ done) refl
          (Serves-settle w counted out.0 _ out.1 done refl (
            queue_to_user-Serves w fifo k counted r.input.type body b
              (record { user = c.user; event = c.event; acl = c.acl })
              (record { readers = v.readers; fitting = v.fitting }) fit)) in
      ground (
        arith,
        bad_input,
        length-take r.input.data_len r.input.bytes,
        last_status-append out.1 (complete r Status.success r.input.data_len nothing),
        answered,
      )

  read_hci_case-Spares :
      (ctx : FdoContext Queue) (r : Request) (out_length in_length : ℕ)
      → let (ctx', v) = read_hci_case w ctx r out_length in_length in
        Spares w ctx (ctx', settle r v)
  unfolding read_hci_case
  read_hci_case-Spares ctx r out_length in_length =
      let at = read_channel r.input.data_len (out_length - hci_context_header_size) in
      ground (arith, take_or_park-Spares w ctx r at)

  set_version_case-Spares :
      (k : Kernel) (ctx : FdoContext Queue) (r : Request) (in_length : ℕ)
      → let (ctx', v) = set_version_case k ctx r in_length in Spares w ctx (ctx', settle r v)
  unfolding set_version_case
  set_version_case-Spares k ctx r in_length = ground arith

  get_version_case-silent :
      (k : Kernel) (r : Request) (out_length : ℕ)
      → received (settle r (get_version_case k r out_length)) ≡ []
  unfolding get_version_case
  get_version_case-silent k r out_length = ground arith

  query_capabilities_case-silent :
      (k : Kernel) (r : Request) (out_length : ℕ)
      → received (settle r (query_capabilities_case k r out_length)) ≡ []
  unfolding query_capabilities_case
  query_capabilities_case-silent k r out_length = ground arith

  bthx_case-Serves :
      (k : Kernel) (ctx : FdoContext Queue) (r : Request) (out_length in_length : ℕ)
      (code : IoControlCode)
      → IsBuffered k
      → IsConsistent w ctx
      → IsServing w ctx
      → let (ctx', done, v) = bthx_case w k ctx r out_length in_length code in
        let settled = settle r v in
        Serves w ctx
          (sent_by code ctx ctx' r (last_status (done ++ settled)))
          (ctx', done ++ settled)
  unfolding bthx_case
  bthx_case-Serves k ctx r out_length in_length get_version b c v =
      Spares-Serves w ctx _
        (record { queue = refl; list = refl; silent = get_version_case-silent k r out_length }) v
  bthx_case-Serves k ctx r out_length in_length set_version b c v =
      Spares-Serves w ctx _ (set_version_case-Spares k ctx r in_length) v
  bthx_case-Serves k ctx r out_length in_length query_capabilities b c v =
      Spares-Serves w ctx _
        (record {
          queue = refl;
          list = refl;
          silent = query_capabilities_case-silent k r out_length;
        })
        v
  bthx_case-Serves k ctx r out_length in_length write_hci b c v =
      write_hci_case-Serves k ctx r in_length b c v
  bthx_case-Serves k ctx r out_length in_length read_hci b c v =
      Spares-Serves w ctx _ (read_hci_case-Spares ctx r out_length in_length) v
  bthx_case-Serves k ctx r out_length in_length (unknown n) b c v =
      Spares-Serves w ctx _ (record { queue = refl; list = refl; silent = refl }) v

  pub bthx_dispatch-Serves :
      (k : Kernel) (ctx : FdoContext Queue) (r : Request) (out_length in_length : ℕ)
      (code : IoControlCode)
      → IsBuffered k
      → IsConsistent w ctx
      → IsServing w ctx
      → let (ctx', done) = bthx_dispatch w k ctx r out_length in_length code in
        Serves w ctx (sent_by code ctx ctx' r (last_status done)) (ctx', done)
  unfolding bthx_dispatch
  bthx_dispatch-Serves k ctx r out_length in_length code b c v =
      let counted =
        bthx_case-Serves k (count_ioctl ctx) r out_length in_length code b
          (count_ioctl-IsConsistent ctx c) (record { readers = v.readers; fitting = v.fitting }) in
      let denied =
        Serves-settle w ctx ctx [] [] (complete r Status.access_denied 0 nothing ∷ []) refl
          (stays-Serves w ctx v) in
      ground (arith, denied, counted)
