-- ===== src/Fdo/Dispatch.antt =====
-- winvhci/fdo.c: WinVhciBthxDispatch, its five IOCTLs, and WinVhciReadUlong.
use windows_vhci_driver.Context.{
  h4_acl, h4_event, max_acl_transfer_in, max_body, hci_context_header_size, read_type_word_size,
  FdoContext, Output, nothing, version, capabilities, Completion, complete, Effect, Channel, events,
  acl,
}
use windows_vhci_driver.Fdo.Deliver.{complete_read}
use windows_vhci_driver.Kernel.{
  Wdf, Knob, Kernel, Request, IoControlCode, get_version, set_version, query_capabilities,
  write_hci, read_hci, unknown, Status, nt_success,
}
use windows_vhci_driver.Prelude.{
  ℕ, ◌+◌, ◌-◌, false, not, ◌||◌, Option, none, some, List, [], ◌∷◌, ◌++◌, take, ltb, leb, ◌==◌,
  if◌then◌else◌, inc32,
}
use windows_vhci_driver.User.ToStack.{take_or_park_for_stack}
use windows_vhci_driver.User.ToUser.{queue_to_user}

-- WinVhciReadUlong: the value of a registry knob, if it can be read.
unfoldable pub read_ulong : Kernel → Knob → Option ℕ
read_ulong k knob =
    if not k.passive_level
    then none
    else if not (nt_success k.open_key)
    then none
    else (let (status, v) = k.query_ulong knob in if nt_success status then some v else none)

-- A knob is read over its default.
abbrev pub or_default : Option ℕ → ℕ → ℕ
or_default none d = d
or_default (some v) d = v

-- What a case of the switch leaves to the common end of the function: the final status and
-- information with what was written, or nothing, when the request has been dealt with.
pub data Verdict : Type 0 where
  finish : Status → ℕ → Output → Verdict
  handled : List Completion → Verdict

abbrev pub refuse : Status → Verdict
refuse s = finish s 0 nothing

unfoldable pub get_version_case : Kernel → Request → ℕ → Verdict
get_version_case k r out_length =
    if r.user_buffer == 0 || ltb out_length k.version_size
    then refuse Status.buffer_too_small
    else finish Status.success k.version_size (version k.ddi_version)

unfoldable pub query_capabilities_case : Kernel → Request → ℕ → Verdict
unfolding read_ulong
query_capabilities_case k r out_length =
    if r.user_buffer == 0 || ltb out_length k.capabilities_size
    then refuse Status.buffer_too_small
    else finish Status.success k.capabilities_size (
        capabilities (record {
          max_acl_transfer_in_size = max_acl_transfer_in;
          sco_support = or_default (read_ulong k Knob.sco_support) 2;
          max_sco_channels = or_default (read_ulong k Knob.max_sco_channels) 1;
          is_device_idle_capable = false;
          is_device_wake_capable = false;
        }))

-- The queue of a READ_HCI: by the requested type, and by the capacity for an unknown type.
abbrev pub read_channel : ℕ → ℕ → Channel
read_channel requested capacity =
    if requested == h4_event
    then events
    else if requested == h4_acl
    then acl
    else if leb max_acl_transfer_in capacity
    then acl
    else events

module _ {Queue : Type 0} where
  unfoldable pub set_version_case :
      Kernel → FdoContext Queue → Request → ℕ → FdoContext Queue × Verdict
  set_version_case k ctx r in_length =
      if r.type3_input_buffer == 0 || ltb in_length k.version_size
      then (ctx, refuse Status.invalid_parameter)
      else (record ctx { bthx_version = r.input.data_len }, finish Status.success 0 nothing)

  abbrev pub count_write_hci : FdoContext Queue → FdoContext Queue
  count_write_hci ctx = record ctx { write_hci_count = inc32 ctx.write_hci_count }

  abbrev pub count_ioctl : FdoContext Queue → FdoContext Queue
  count_ioctl ctx = record ctx { ioctl_count = inc32 ctx.ioctl_count }

module _ {Queue : Type 0} (w : Wdf Queue) where
  -- The requests that a WRITE_HCI serves are completed before it is.
  unfoldable pub write_hci_case :
      Kernel → FdoContext Queue → Request → ℕ → FdoContext Queue × List Completion × Verdict
  write_hci_case k ctx r in_length =
      if r.type3_input_buffer == 0 || ltb in_length hci_context_header_size
      then (ctx, [], refuse Status.invalid_parameter)
      else if ltb (in_length - hci_context_header_size) r.input.data_len
          || ltb max_body r.input.data_len
      then (ctx, [], refuse Status.invalid_parameter)
      else (let (ctx', done) =
            queue_to_user w k (count_write_hci ctx) r.input.type
              (take r.input.data_len r.input.bytes) in
          (ctx', done, finish Status.success r.input.data_len nothing))

  -- A read that took a packet is completed here; one that parked is not completed at all.
  unfoldable pub take_or_park : FdoContext Queue → Request → Channel → FdoContext Queue × Verdict
  take_or_park ctx r ch =
      let (status, queued, ctx') = take_or_park_for_stack w ctx ch r in
      elim queued [
        | some p ↦ (ctx', handled ((complete_read r p.type p.body).1 ∷ []))
        | none ↦ (ctx', (if nt_success status then handled [] else refuse status))
      ]

  unfoldable pub read_hci_case : FdoContext Queue → Request → ℕ → ℕ → FdoContext Queue × Verdict
  read_hci_case ctx r out_length in_length =
      if (r.type3_input_buffer == 0 || ltb in_length 4)
        || (r.user_buffer == 0 || ltb out_length hci_context_header_size)
      then (ctx, refuse Status.invalid_parameter)
      else if not (r.user_buffer == r.type3_input_buffer + read_type_word_size)
      then (ctx, refuse Status.invalid_device_request)
      else take_or_park ctx r (read_channel r.input.data_len (out_length - hci_context_header_size))

-- WdfRequestCompleteWithInformation at the end of the function.
abbrev pub settle : Request → Verdict → List Completion
settle r (finish s n o) = complete r s n o ∷ []
settle r (handled done) = done

module _ {Queue : Type 0} (w : Wdf Queue) where
  -- The switch on the code.
  unfoldable pub bthx_case :
      Kernel
      → FdoContext Queue
      → Request
      → ℕ
      → ℕ
      → IoControlCode
      → FdoContext Queue × List Completion × Verdict
  bthx_case k ctx r out_length in_length get_version = (ctx, [], get_version_case k r out_length)
  bthx_case k ctx r out_length in_length set_version =
      let (ctx', v) = set_version_case k ctx r in_length in (ctx', [], v)
  bthx_case k ctx r out_length in_length query_capabilities =
      (ctx, [], query_capabilities_case k r out_length)
  bthx_case k ctx r out_length in_length write_hci = write_hci_case w k ctx r in_length
  bthx_case k ctx r out_length in_length read_hci =
      let (ctx', v) = read_hci_case w ctx r out_length in_length in (ctx', [], v)
  bthx_case k ctx r out_length in_length (unknown n) =
      (ctx, [], refuse Status.invalid_device_request)

  unfoldable pub bthx_dispatch :
      Kernel → FdoContext Queue → Request → ℕ → ℕ → IoControlCode → Effect Queue
  bthx_dispatch k ctx r out_length in_length code =
      if not r.kernel_mode
      then (ctx, complete r Status.access_denied 0 nothing ∷ [])
      else (let (ctx', done, v) = bthx_case k (count_ioctl ctx) r out_length in_length code in
          (ctx', done ++ settle r v))
