-- ===== src/Stream/Calls.antt =====
-- Whole calls, and sequences of them, as one channel sees them.
pub mod Write
pub mod Ioctl
pub mod Run
use windows_vhci_driver.Calls.{Call, writes}
use windows_vhci_driver.Context.{
  h4_acl, h4_event, hci_context_header_size, Packet, FdoContext, Completion, Channel, events, acl,
  channel_of,
}
use windows_vhci_driver.Fdo.Deliver.{deliver_on}
use windows_vhci_driver.Fdo.Dispatch.{read_channel}
use windows_vhci_driver.Kernel.{
  Wdf, Kernel, IsFifo, Request, IoControlCode, read_hci, Status, nt_success,
}
use windows_vhci_driver.Prelude.{
  ℕ, ◌-◌, ◌≤◌, ◌≡◌, refl, ◌&&◌, ◌||◌, List, [], ◌∷◌, ◌++◌, arith, length, ◌==◌, if◌then◌else◌,
}
use windows_vhci_driver.Rendezvous.{IsConsistent}
use windows_vhci_driver.Stream.{
  same, packet, limit_of, IsRoomy, IsDeliverable, Advances, Ignores-Advances,
}
use windows_vhci_driver.Stream.Deliver.{deliver_on-Delivers}
use windows_vhci_driver.Stream.Frame.{deliver_on-Ignores}

-- The packet of a successful write, if it is one of the channel.
abbrev pub written : Channel → List ℕ → List Packet
written ch [] = []
written ch (type ∷ body) =
    if (type == h4_event || type == h4_acl) && same ch (channel_of type)
    then packet type body ∷ []
    else []

-- A write's own completion comes last.
abbrev pub last_status : List Completion → Status
last_status [] = Status.invalid_device_state
last_status (c ∷ []) = c.status
last_status (c ∷ d ∷ cs) = last_status (d ∷ cs)

pub last_status-append :
    (cs : List Completion) (c : Completion) → last_status (cs ++ (c ∷ [])) ≡ c.status
last_status-append [] c = refl
last_status-append (x ∷ []) c = refl
last_status-append (x ∷ y ∷ cs) c = last_status-append (y ∷ cs) c

-- What a call adds to the channel's stream, by what its caller sees of it.
abbrev pub admitted : Channel → Call → List Completion → List Packet
admitted ch (writes k r) done =
    if nt_success (last_status done) then written ch (k.input_buffer r 2).1 else []
admitted ch _ done = []

-- The reads among the requests have room for any packet of their channel.
abbrev pub PostsRoomy : Request → ℕ → IoControlCode → Type 0
PostsRoomy r out_length read_hci =
    IsRoomy (read_channel r.input.data_len (out_length - hci_context_header_size)) r
PostsRoomy r out_length _ = Unit

module _ {Queue : Type 0} (w : Wdf Queue) (fifo : IsFifo w) where
  pub deliver_on-Advances :
      (ch ch' : Channel) (k : Kernel) (ctx : FdoContext Queue) (type : ℕ) (body : List ℕ)
      → IsConsistent w ctx
      → IsDeliverable w ch ctx
      → channel_of type ≡ ch'
      → length body ≤ limit_of ch'
      → let (status, ctx', done) = deliver_on w k ch' ctx type body in
        Advances w ch ctx
          (if nt_success status && same ch ch' then packet type body ∷ [] else [])
          (ctx', done)
  deliver_on-Advances events events k ctx type body c d e fit =
      let one = deliver_on-Delivers w fifo k events ctx type body c d (ground arith) in
      ground (arith, one)
  deliver_on-Advances acl acl k ctx type body c d e fit =
      let one = deliver_on-Delivers w fifo k acl ctx type body c d (ground arith) in
      ground (arith, one)
  deliver_on-Advances events acl k ctx type body c d e fit =
      let none_added =
        Ignores-Advances w events ctx _ (deliver_on-Ignores w events acl k ctx type body refl e)
          d in
      ground (arith, none_added)
  deliver_on-Advances acl events k ctx type body c d e fit =
      let none_added =
        Ignores-Advances w acl ctx _ (deliver_on-Ignores w acl events k ctx type body refl e) d in
      ground (arith, none_added)
