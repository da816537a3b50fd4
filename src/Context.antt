-- ===== src/Context.antt =====
-- winvhci/winvhci.h: the packet, the FDO context and its two read channels, the bounds of the wire
-- format, and WinVhciTestFailAlloc; with WinVhciAllocPacket of winvhci/user.c.
use windows_vhci_driver.Kernel.{Wdf, Kernel, HciContext, Capabilities, Request, Status}
use windows_vhci_driver.Prelude.{
  ℕ, ◌+◌, ◌%◌, Bool, false, Option, none, some, List, length, ◌==◌, if◌then◌else◌, inc32,
}

-- WINVHCI_H4_*
abbrev pub h4_command : ℕ
h4_command = 0x01

abbrev pub h4_acl : ℕ
h4_acl = 0x02

abbrev pub h4_sco : ℕ
h4_sco = 0x03

abbrev pub h4_event : ℕ
h4_event = 0x04

abbrev pub h4_iso : ℕ
h4_iso = 0x05

abbrev pub h4_vendor : ℕ
h4_vendor = 0xFF

-- WINVHCI_MAX_ACL_TRANSFER_IN, WINVHCI_MAX_EVENT_SIZE
abbrev pub max_acl_transfer_in : ℕ
max_acl_transfer_in = 1021

abbrev pub max_event_size : ℕ
max_event_size = 257

-- WINVHCI_MAX_BODY, WINVHCI_MAX_H4_PACKET
abbrev pub max_body : ℕ
max_body = 4 + max_acl_transfer_in

abbrev pub max_h4_packet : ℕ
max_h4_packet = 1 + max_body

-- WINVHCI_HCI_CONTEXT_HEADER_SIZE, WINVHCI_READ_TYPE_WORD_SIZE
abbrev pub hci_context_header_size : ℕ
hci_context_header_size = 5

abbrev pub read_type_word_size : ℕ
read_type_word_size = 4

-- FIELD_OFFSET(WINVHCI_PACKET, Data) on a 64-bit target.
abbrev pub packet_header_size : ℕ
packet_header_size = 24

-- WINVHCI_PACKET. Its Length is the length of `body`; its Link is its place in a list.
pub record Packet : Type 0 where
  pub type : ℕ
  pub body : List ℕ

-- WINVHCI_FDO_CONTEXT without its handles Device, BthxIoQueue and Lock. A list with its LIST_ENTRY
-- head is a `List`, `none` is the NULL of Owner.
pub record FdoContext (Queue : Type 0) : Type 0 where
  pub read_event_queue : Queue
  pub read_data_queue : Queue
  pub user_read_queue : Queue
  pub owner : Option ℕ
  pub host_to_ctrl_list : List Packet
  pub pending_event_list : List Packet
  pub pending_data_list : List Packet
  pub host_to_ctrl_count : ℕ
  pub pending_event_count : ℕ
  pub pending_data_count : ℕ
  pub host_to_ctrl_peak : ℕ
  pub pending_event_peak : ℕ
  pub pending_data_peak : ℕ
  pub drops_no_client : ℕ
  pub drops_alloc_failed : ℕ
  pub writes_total : ℕ
  pub queued_to_user_total : ℕ
  pub writes_no_radio : ℕ
  pub radios_alive : ℕ
  pub radio_present : Bool
  pub radio_started : Bool
  pub current_radio_id : ℕ
  pub next_radio_id : ℕ
  pub bthx_version : ℕ
  pub fail_alloc_one_in : ℕ
  pub alloc_seq : ℕ
  pub pdo_request_count : ℕ
  pub ioctl_count : ℕ
  pub write_hci_count : ℕ
  pub pended_event_reads : ℕ
  pub pended_data_reads : ℕ

-- WINVHCI_STATS
pub record Stats : Type 0 where
  pub size : ℕ
  pub drops_no_client : ℕ
  pub drops_alloc_failed : ℕ
  pub host_to_ctrl_count : ℕ
  pub host_to_ctrl_peak : ℕ
  pub pending_event_count : ℕ
  pub pending_event_peak : ℕ
  pub pending_data_count : ℕ
  pub pending_data_peak : ℕ
  pub writes_total : ℕ
  pub queued_to_user_total : ℕ
  pub writes_no_radio : ℕ
  pub radios_alive : ℕ

-- What the driver writes into the buffer of a request that it completes.
pub data Output : Type 0 where
  nothing : Output
  h4 : List ℕ → Output
  hci_context : HciContext → Output
  version : ℕ → Output
  capabilities : Capabilities → Output
  statistics : Stats → Output

-- WdfRequestComplete and WdfRequestCompleteWithInformation
pub record Completion : Type 0 where
  pub request : Request
  pub status : Status
  pub information : ℕ
  pub output : Output

abbrev pub complete : Request → Status → ℕ → Output → Completion
complete r s n o = record { request = r; status = s; information = n; output = o }

-- The context after a call, and the requests that the call completed, in order.
abbrev pub Effect : Type 0 → Type 0
Effect Queue = FdoContext Queue × List Completion

-- The pointers that the code selects by `Type == WINVHCI_H4_ACL`.
pub data Channel : Type 0 where
  events acl : Channel

abbrev pub channel_of : ℕ → Channel
channel_of type = if type == h4_acl then acl else events

module _ {Queue : Type 0} where
  abbrev pub read_queue : Channel → FdoContext Queue → Queue
  read_queue events ctx = ctx.read_event_queue
  read_queue acl ctx = ctx.read_data_queue

  abbrev pub pending_list : Channel → FdoContext Queue → List Packet
  pending_list events ctx = ctx.pending_event_list
  pending_list acl ctx = ctx.pending_data_list

  abbrev pub pending_count : Channel → FdoContext Queue → ℕ
  pending_count events ctx = ctx.pending_event_count
  pending_count acl ctx = ctx.pending_data_count

  abbrev pub pending_peak : Channel → FdoContext Queue → ℕ
  pending_peak events ctx = ctx.pending_event_peak
  pending_peak acl ctx = ctx.pending_data_peak

  abbrev pub set_read_queue : Channel → Queue → FdoContext Queue → FdoContext Queue
  set_read_queue events q ctx = record ctx { read_event_queue = q }
  set_read_queue acl q ctx = record ctx { read_data_queue = q }

  abbrev pub set_pending : Channel → List Packet → ℕ → FdoContext Queue → FdoContext Queue
  set_pending events ps n ctx = record ctx { pending_event_list = ps; pending_event_count = n }
  set_pending acl ps n ctx = record ctx { pending_data_list = ps; pending_data_count = n }

  abbrev pub set_pending_peak : Channel → ℕ → FdoContext Queue → FdoContext Queue
  set_pending_peak events n ctx = record ctx { pending_event_peak = n }
  set_pending_peak acl n ctx = record ctx { pending_data_peak = n }

  -- WinVhciTestFailAlloc
  unfoldable pub test_fail_alloc : FdoContext Queue → Bool × FdoContext Queue
  test_fail_alloc ctx = if ctx.fail_alloc_one_in == 0 then (false, ctx) else (
    inc32 ctx.alloc_seq % ctx.fail_alloc_one_in == 0,
    record ctx { alloc_seq = inc32 ctx.alloc_seq },
  )

-- WinVhciAllocPacket
unfoldable pub alloc_packet : Kernel → ℕ → List ℕ → Option Packet
alloc_packet k type body =
    if k.allocate (packet_header_size + length body)
    then some (record { type = type; body = body })
    else none

-- The first step of both senders, which take a parked request only when nothing is queued ahead
-- of the packet: `none` where the code has request == NULL.
abbrev pub take_parked : {Queue : Type 0} → Wdf Queue → Queue → ℕ → Option (Request × Queue)
take_parked w q count = if count == 0 then w.retrieve_next q else none
