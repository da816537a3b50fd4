-- ===== src/System/Handlers.antt =====
-- A whole call is a run of the regions of its handler, so a sequence of calls is an interleaving.
use windows_vhci_driver.Calls.{
  Call, writes, reads, ioctls, opens, closes, enters_d0, exits_d0, cancels_user_read,
  cancels_stack_read, asks_stats, forwards_up, adds_pdo, removes_pdo, tears_down, perform, run,
}
use windows_vhci_driver.Context.{
  h4_vendor, hci_context_header_size, FdoContext, Channel, events, acl,
}
use windows_vhci_driver.Fdo.Dispatch.{
  read_channel, count_write_hci, count_ioctl, write_hci_case, take_or_park, read_hci_case,
  bthx_case, bthx_dispatch,
}
use windows_vhci_driver.Fdo.Setup.{evt_self_managed_io_cleanup}
use windows_vhci_driver.Kernel.{
  Wdf, Kernel, Request, IoControlCode, get_version, set_version, query_capabilities, write_hci,
  read_hci, unknown, nt_success,
}
use windows_vhci_driver.Prelude.{
  ℕ, ◌-◌, refl, inl, inr, ◌&&◌, List, [], ◌∷◌, arith, length, take, ltb, ◌==◌, Bool-cases,
  Option-cases,
}
use windows_vhci_driver.System.{Step, Reach, here, next}
use windows_vhci_driver.User.Control.{
  reserved_bits, quirk_bits, reply_body, claim_radio, add_radio, create_radio, handle_control,
}
use windows_vhci_driver.User.Handle.{release_owner, purge_reads, evt_file_close}
use windows_vhci_driver.User.Stats.{evt_io_device_control}
use windows_vhci_driver.User.ToStack.{take_or_park_for_stack}
use windows_vhci_driver.User.ToUser.{queue_to_user}
use windows_vhci_driver.User.Write.{
  body_limit, admit, write_data, write_packet, write_buffer, dispatch_write,
}

module _ {Queue : Type 0} (w : Wdf Queue) where
  pub Reach-trans : {s t u : FdoContext Queue} → Reach w s t → Reach w t u → Reach w s u
  Reach-trans r here = r
  Reach-trans r (next r' st) = next (Reach-trans r r') st

  one : {s t : FdoContext Queue} → Step w s t → Reach w s t
  one st = next here st

  create_radio-Reach :
      (k : Kernel) (ctx : FdoContext Queue) (opcode : ℕ)
      → Reach w ctx (create_radio w k ctx opcode).1
  unfolding create_radio
  create_radio-Reach k ctx opcode = elim (Option-cases (claim_radio ctx)) [
    | inl e ↦ rw (e, create_radio) here
    | inr (got, e) ↦ elim (Bool-cases (nt_success (add_radio k got.0))) [
      | inl added ↦
          rw (e, added, create_radio)
            (next (one (Step.claims_radio got.0 e))
              (Step.queues_to_user k h4_vendor (reply_body opcode got.0) refl))
      | inr not_added ↦
          rw (e, not_added, create_radio)
            (next (one (Step.claims_radio got.0 e)) (Step.unclaims_radio refl))
    ]
  ]

  handle_control-Reach :
      (k : Kernel) (ctx : FdoContext Queue) (body : List ℕ)
      → Reach w ctx (handle_control w k ctx body).1
  unfolding handle_control
  handle_control-Reach k ctx [] = here
  handle_control-Reach k ctx (o ∷ []) = elim (Bool-cases (reserved_bits o == 0)) [
    | inl a ↦ elim (Bool-cases (quirk_bits o == 0)) [
      | inl b ↦ rw (a, b) (create_radio-Reach k ctx o)
      | inr b ↦ rw (a, b) here
    ]
    | inr a ↦ rw a here
  ]
  handle_control-Reach k ctx (o ∷ x ∷ xs) = here

  write_data-Reach :
      (k : Kernel) (ctx : FdoContext Queue) (type : ℕ) (body : List ℕ)
      → Reach w ctx (write_data w k ctx type body).1
  unfolding write_data
  write_data-Reach k ctx type body = elim (Bool-cases (ltb (body_limit type) (length body))) [
    | inl a ↦ rw a here
    | inr a ↦ elim (Bool-cases (ctx.radio_present && ctx.radio_started)) [
      | inl b ↦ rw (a, b) (one (Step.delivers_to_stack k type body refl))
      | inr b ↦ rw (a, b) (one (Step.admits (rw (b, admit))))
    ]
  ]

  write_packet-Reach :
      (k : Kernel) (ctx : FdoContext Queue) (type : ℕ) (body : List ℕ)
      → Reach w ctx (write_packet w k ctx type body).1
  unfolding write_packet
  write_packet-Reach k ctx type body =
      let stay : Reach w ctx ctx = here in
      ground (arith, handle_control-Reach k ctx body, write_data-Reach k ctx type body, stay)

  write_buffer-Reach :
      (k : Kernel) (ctx : FdoContext Queue) (buffer : List ℕ)
      → Reach w ctx (write_buffer w k ctx buffer).1
  write_buffer-Reach k ctx [] = here
  write_buffer-Reach k ctx (type ∷ body) = write_packet-Reach k ctx type body

  dispatch_write-Reach :
      (k : Kernel) (ctx : FdoContext Queue) (r : Request) → Reach w ctx (dispatch_write w k ctx r).0
  unfolding dispatch_write
  dispatch_write-Reach k ctx r =
      let stay : Reach w ctx ctx = here in
      ground (arith, write_buffer-Reach k ctx (k.input_buffer r 2).1, stay)

  write_hci_case-Reach :
      (k : Kernel) (ctx : FdoContext Queue) (r : Request) (in_length : ℕ)
      → Reach w ctx (write_hci_case w k ctx r in_length).0
  unfolding write_hci_case
  write_hci_case-Reach k ctx r in_length =
      let stay : Reach w ctx ctx = here in
      let body = take r.input.data_len r.input.bytes in
      let goes : Reach w ctx (queue_to_user w k (count_write_hci ctx) r.input.type body).0 =
        next (one (Step.counts_write_hci refl)) (Step.queues_to_user k r.input.type body refl) in
      ground (arith, stay, goes)

  take_or_park-Reach :
      (ctx : FdoContext Queue) (r : Request) (ch : Channel)
      → Reach w ctx (take_or_park w ctx r ch).0
  unfolding take_or_park
  take_or_park-Reach ctx r ch =
      let goes : Reach w ctx (take_or_park_for_stack w ctx ch r).2 =
        one (Step.takes_or_parks ch r refl) in
      ground (arith, goes)

  read_hci_case-Reach :
      (ctx : FdoContext Queue) (r : Request) (out_length in_length : ℕ)
      → Reach w ctx (read_hci_case w ctx r out_length in_length).0
  unfolding read_hci_case
  read_hci_case-Reach ctx r out_length in_length =
      let stay : Reach w ctx ctx = here in
      ground (
        arith,
        stay,
        take_or_park-Reach ctx r
            (read_channel r.input.data_len (out_length - hci_context_header_size)),
      )

  bthx_case-Reach :
      (k : Kernel) (ctx : FdoContext Queue) (r : Request) (out_length in_length : ℕ)
      (code : IoControlCode)
      → Reach w ctx (bthx_case w k ctx r out_length in_length code).0
  unfolding bthx_case
  bthx_case-Reach k ctx r out_length in_length get_version = here
  bthx_case-Reach k ctx r out_length in_length set_version =
      one (Step.sets_version k r in_length refl)
  bthx_case-Reach k ctx r out_length in_length query_capabilities = here
  bthx_case-Reach k ctx r out_length in_length write_hci = write_hci_case-Reach k ctx r in_length
  bthx_case-Reach k ctx r out_length in_length read_hci =
      read_hci_case-Reach ctx r out_length in_length
  bthx_case-Reach k ctx r out_length in_length (unknown n) = here

  bthx_dispatch-Reach :
      (k : Kernel) (ctx : FdoContext Queue) (r : Request) (out_length in_length : ℕ)
      (code : IoControlCode)
      → Reach w ctx (bthx_dispatch w k ctx r out_length in_length code).0
  unfolding bthx_dispatch
  bthx_dispatch-Reach k ctx r out_length in_length code =
      let stay : Reach w ctx ctx = here in
      let goes : Reach w ctx (bthx_case w k (count_ioctl ctx) r out_length in_length code).0 =
        Reach-trans (one (Step.counts_ioctl refl))
          (bthx_case-Reach k (count_ioctl ctx) r out_length in_length code) in
      ground (arith, stay, goes)

  purge_reads-Reach :
      (ctx : FdoContext Queue) → Reach w ctx (purge_reads w acl (purge_reads w events ctx))
  purge_reads-Reach ctx = next (one (Step.purges_reads events refl)) (Step.purges_reads acl refl)

  pub evt_file_close-Reach : (ctx : FdoContext Queue) → Reach w ctx (evt_file_close w ctx).1
  unfolding evt_file_close
  evt_file_close-Reach ctx =
      let released = (release_owner ctx).1 in
      let purged = Reach-trans (one (Step.releases_owner refl)) (purge_reads-Reach released) in
      next (next (next purged (Step.starts_reads events refl)) (Step.starts_reads acl refl))
        (Step.purges_backlogs refl)

  evt_self_managed_io_cleanup-Reach :
      (ctx : FdoContext Queue) → Reach w ctx (evt_self_managed_io_cleanup w ctx)
  unfolding evt_self_managed_io_cleanup
  evt_self_managed_io_cleanup-Reach ctx = next (purge_reads-Reach ctx) (Step.purges_backlogs refl)

  evt_io_device_control-Reach :
      (k : Kernel) (ctx : FdoContext Queue) (r : Request) (output_buffer_length code : ℕ)
      → Reach w ctx (evt_io_device_control k ctx r output_buffer_length code).0
  unfolding evt_io_device_control
  evt_io_device_control-Reach k ctx r output_buffer_length code =
      let stay : Reach w ctx ctx = here in ground (arith, stay)

  pub perform-Reach : (ctx : FdoContext Queue) (c : Call) → Reach w ctx (perform w ctx c).0
  unfolding perform
  perform-Reach ctx (writes k r) = dispatch_write-Reach k ctx r
  perform-Reach ctx (reads k r) = one (Step.reads_as_user k r refl)
  perform-Reach ctx (ioctls k r out_length in_length code) =
      bthx_dispatch-Reach k ctx r out_length in_length code
  perform-Reach ctx (opens r file) = one (Step.opens_handle r file refl)
  perform-Reach ctx closes = evt_file_close-Reach ctx
  perform-Reach ctx (enters_d0 radio_id) = one (Step.starts_radio radio_id refl)
  perform-Reach ctx (exits_d0 radio_id) = one (Step.stops_radio radio_id refl)
  perform-Reach ctx (cancels_user_read i) = one (Step.drops_user_read i refl)
  perform-Reach ctx (cancels_stack_read ch i) = one (Step.drops_stack_read i ch refl)
  perform-Reach ctx (asks_stats k r output_buffer_length code) =
      evt_io_device_control-Reach k ctx r output_buffer_length code
  perform-Reach ctx (forwards_up status r) = one (Step.counts_pdo_request status r refl)
  perform-Reach ctx (adds_pdo c) = one (Step.creates_pdo c refl)
  perform-Reach ctx removes_pdo = one (Step.cleans_up_pdo refl)
  perform-Reach ctx tears_down = evt_self_managed_io_cleanup-Reach ctx

  -- A sequence of whole calls is one of the interleavings.
  pub run-Reach : (ctx : FdoContext Queue) (cs : List Call) → Reach w ctx (run w ctx cs).0
  unfolding run
  run-Reach ctx [] = here
  run-Reach ctx (c ∷ cs) = Reach-trans (perform-Reach ctx c) (run-Reach (perform w ctx c).0 cs)
