-- ===== src/Stream.antt =====
-- The controller-to-host stream of one channel, seen from outside: the packets whose writes
-- succeeded, against the packets that completed reads carry to the stack.
pub mod Deliver
pub mod Frame
pub mod Calls
pub mod Short
use windows_vhci_driver.Context.{
  max_acl_transfer_in, max_event_size, hci_context_header_size, Packet, FdoContext, Output,
  hci_context, Completion, Effect, Channel, events, acl, channel_of, read_queue, pending_list,
}
use windows_vhci_driver.Fdo.Dispatch.{count_ioctl}
use windows_vhci_driver.Kernel.{Wdf, Request}
use windows_vhci_driver.Prelude.{
  ℕ, ◌+◌, ◌≤◌, ◌≡◌, refl, sym, ap, ◌∙◌, Bool, true, false, List, [], ◌∷◌, ◌++◌, append-nil,
  append_assoc, length, All, ◌==◌, if◌then◌else◌,
}

abbrev pub same : Channel → Channel → Bool
same events events = true
same acl acl = true
same _ _ = false

abbrev pub packet : ℕ → List ℕ → Packet
packet type body = record { type = type; body = body }

-- The packet in a READ_HCI buffer, if it is one of the channel.
abbrev pub carried : Channel → Output → List Packet
carried ch (hci_context c) = if same ch (channel_of c.type) then packet c.type c.bytes ∷ [] else []
carried ch _ = []

abbrev pub delivered : Channel → List Completion → List Packet
delivered ch [] = []
delivered ch (c ∷ cs) = carried ch c.output ++ delivered ch cs

pub delivered-append :
    (ch : Channel) (xs ys : List Completion)
    → delivered ch (xs ++ ys) ≡ delivered ch xs ++ delivered ch ys
delivered-append ch [] ys = refl
delivered-append ch (x ∷ xs) ys =
    ap (λ l. carried ch x.output ++ l) (delivered-append ch xs ys)
    ∙ sym (append_assoc (carried ch x.output) (delivered ch xs) (delivered ch ys))

-- The room that the stack's reads of the channel have.
abbrev pub limit_of : Channel → ℕ
limit_of events = max_event_size
limit_of acl = max_acl_transfer_in

abbrev pub IsRoomy : Channel → Request → Type 0
IsRoomy ch r =
    ((r.user_buffer == 0) ≡ false)
    × (limit_of ch + hci_context_header_size ≤ r.output_buffer_length)

abbrev pub FitsIn : Channel → Packet → Type 0
FitsIn ch p = (same ch (channel_of p.type) ≡ true) × (length p.body ≤ limit_of ch)

module _ {Queue : Type 0} (w : Wdf Queue) where
  -- The waiting reads of a channel have room for the packets that wait for a read.
  pub record IsDeliverable (ch : Channel) (ctx : FdoContext Queue) : Type 0 where
    pub roomy : All (IsRoomy ch) (w.waiting (read_queue ch ctx))
    pub fitting : All (FitsIn ch) (pending_list ch ctx)

  -- Seen at one channel, a call completes reads with the packets at the head of the backlog, and
  -- leaves the others there, in front of the added ones.
  pub record Advances (ch : Channel) (ctx : FdoContext Queue) (added : List Packet)
      (out : Effect Queue) : Type 0 where
    pub stream : delivered ch out.1 ++ pending_list ch out.0 ≡ pending_list ch ctx ++ added
    pub keeps : IsDeliverable ch out.0

  -- A call that has nothing to do with the channel.
  pub record Ignores (ch : Channel) (ctx : FdoContext Queue) (out : Effect Queue) : Type 0 where
    pub queue : read_queue ch out.0 ≡ read_queue ch ctx
    pub list : pending_list ch out.0 ≡ pending_list ch ctx
    pub silent : delivered ch out.1 ≡ []

  pub Ignores-Advances :
      (ch : Channel) (ctx : FdoContext Queue) (out : Effect Queue)
      → Ignores ch ctx out
      → IsDeliverable ch ctx
      → Advances ch ctx [] out
  Ignores-Advances ch ctx out i d = record {
    stream = rw (i.silent, i.list) (sym (append-nil (pending_list ch ctx)));
    keeps = record { roomy = rw i.queue d.roomy; fitting = rw i.list d.fitting };
  }

pub pending_list-count_ioctl :
    {Queue : Type 0} (ch : Channel) (ctx : FdoContext Queue)
    → pending_list ch (count_ioctl ctx) ≡ pending_list ch ctx
pending_list-count_ioctl events ctx = refl
pending_list-count_ioctl acl ctx = refl
