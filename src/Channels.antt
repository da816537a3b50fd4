-- ===== src/Channels.antt =====
-- The separation of the two read channels: what each holds, and what its reads may receive.
pub mod Calls
pub mod Entry
pub mod Run
use windows_vhci_driver.Context.{
  h4_acl, h4_event, read_type_word_size, Packet, FdoContext, Output, hci_context, Completion,
  Effect, Channel, events, acl,
}
use windows_vhci_driver.Fdo.Deliver.{complete_read}
use windows_vhci_driver.Fdo.Dispatch.{read_channel}
use windows_vhci_driver.Kernel.{Wdf, Request}
use windows_vhci_driver.Prelude.{ℕ, ◌+◌, ◌≡◌, ◌≢◌, true, List, arith, All}

-- A packet of the channel.
abbrev pub IsOf : Channel → ℕ → Type 0
IsOf events type = type ≡ h4_event
IsOf acl type = type ≡ h4_acl

abbrev pub PacketIsOf : Channel → Packet → Type 0
PacketIsOf ch p = IsOf ch p.type

-- A kernel-mode request whose output buffer lies behind its packet type, as the stack lays it out.
abbrev pub IsTrusted : Request → Type 0
IsTrusted r = (r.kernel_mode ≡ true) × (r.user_buffer ≡ r.type3_input_buffer + read_type_word_size)

-- Such a read that did not ask for the other channel's type.
abbrev pub IsFor : Channel → Request → Type 0
IsFor events r = IsTrusted r × (r.input.data_len ≢ h4_acl)
IsFor acl r = IsTrusted r × (r.input.data_len ≢ h4_event)

-- Only a trusted read receives a packet, and one that asked for a type receives that type.
abbrev pub Answers : Request → Output → Type 0
Answers r (hci_context x) =
    IsTrusted r
    × (r.input.data_len ≡ h4_event → x.type ≡ h4_event)
    × (r.input.data_len ≡ h4_acl → x.type ≡ h4_acl)
Answers r _ = Unit

abbrev pub IsAnswered : Completion → Type 0
IsAnswered c = Answers c.request c.output

pub complete_read-IsAnswered :
    (ch : Channel) (r : Request) (type : ℕ) (body : List ℕ)
    → IsFor ch r
    → IsOf ch type
    → IsAnswered (complete_read r type body).1
unfolding complete_read
complete_read-IsAnswered events r type body f o = ground arith
complete_read-IsAnswered acl r type body f o = ground arith

pub read_channel-IsFor :
    (r : Request) (capacity : ℕ) → IsTrusted r → IsFor (read_channel r.input.data_len capacity) r
read_channel-IsFor r capacity t = ground arith

module _ {Queue : Type 0} (w : Wdf Queue) where
  pub record IsSeparated (ctx : FdoContext Queue) : Type 0 where
    pub event_reads : All (IsFor events) (w.waiting ctx.read_event_queue)
    pub data_reads : All (IsFor acl) (w.waiting ctx.read_data_queue)
    pub event_packets : All (PacketIsOf events) ctx.pending_event_list
    pub data_packets : All (PacketIsOf acl) ctx.pending_data_list

  pub record Separates (out : Effect Queue) : Type 0 where
    pub keeps : IsSeparated out.0
    pub answered : All IsAnswered out.1
