-- ===== src/Client.antt =====
-- The host-to-controller stream, seen from the client: the packets that the Bluetooth stack and the
-- control replies put into it, against what completed reads hold.
pub mod Queue
pub mod Frame
pub mod Write
pub mod Ioctl
pub mod Run
use windows_vhci_driver.Context.{
  max_body, max_h4_packet, Packet, FdoContext, Output, h4, Completion, Effect,
}
use windows_vhci_driver.Kernel.{Wdf, Request}
use windows_vhci_driver.Prelude.{
  ℕ, ◌≤◌, ◌≡◌, refl, sym, ap, ◌∙◌, Bool, not, ◌&&◌, List, [], ◌∷◌, ◌++◌, append-nil, append_assoc,
  length, All, ◌==◌,
}
use windows_vhci_driver.User.ToUser.{h4_bytes}

-- The bytes that a ReadFile returns.
abbrev pub returned_bytes : Output → List (List ℕ)
returned_bytes (h4 bytes) = bytes ∷ []
returned_bytes _ = []

abbrev pub received : List Completion → List (List ℕ)
received [] = []
received (c ∷ cs) = returned_bytes c.output ++ received cs

pub received-append : (xs ys : List Completion) → received (xs ++ ys) ≡ received xs ++ received ys
received-append [] ys = refl
received-append (x ∷ xs) ys =
    ap (λ l. returned_bytes x.output ++ l) (received-append xs ys)
    ∙ sym (append_assoc (returned_bytes x.output) (received xs) (received ys))

abbrev pub queued_bytes : List Packet → List (List ℕ)
queued_bytes [] = []
queued_bytes (p ∷ ps) = h4_bytes p.type p.body ∷ queued_bytes ps

pub queued_bytes-append :
    (xs ys : List Packet) → queued_bytes (xs ++ ys) ≡ queued_bytes xs ++ queued_bytes ys
queued_bytes-append [] ys = refl
queued_bytes-append (x ∷ xs) ys = ap (λ l. h4_bytes x.type x.body ∷ l) (queued_bytes-append xs ys)

abbrev pub HoldsLargest : Request → Type 0
HoldsLargest r = max_h4_packet ≤ r.length

abbrev pub FitsLargest : Packet → Type 0
FitsLargest p = length p.body ≤ max_body

module _ {Queue : Type 0} where
  -- Whether a drop counter moved between two states.
  abbrev pub counted_loss : FdoContext Queue → FdoContext Queue → Bool
  counted_loss s t =
      not (s.drops_no_client == t.drops_no_client && s.drops_alloc_failed == t.drops_alloc_failed)

module _ {Queue : Type 0} (w : Wdf Queue) where
  pub record IsServing (ctx : FdoContext Queue) : Type 0 where
    pub readers : All HoldsLargest (w.waiting ctx.user_read_queue)
    pub fitting : All FitsLargest ctx.host_to_ctrl_list

  pub record Serves (ctx : FdoContext Queue) (added : List (List ℕ)) (out : Effect Queue)
      : Type 0 where
    pub stream :
        received out.1 ++ queued_bytes out.0.host_to_ctrl_list
        ≡ queued_bytes ctx.host_to_ctrl_list ++ added
    pub keeps : IsServing out.0

  -- A call that has nothing to do with the client's reads.
  pub record Spares (ctx : FdoContext Queue) (out : Effect Queue) : Type 0 where
    pub queue : out.0.user_read_queue ≡ ctx.user_read_queue
    pub list : out.0.host_to_ctrl_list ≡ ctx.host_to_ctrl_list
    pub silent : received out.1 ≡ []

  pub Spares-Serves :
      (ctx : FdoContext Queue) (out : Effect Queue)
      → Spares ctx out
      → IsServing ctx
      → Serves ctx [] out
  Spares-Serves ctx out s v = record {
    stream = rw (s.silent, s.list) (sym (append-nil (queued_bytes ctx.host_to_ctrl_list)));
    keeps = record { readers = rw s.queue v.readers; fitting = rw s.list v.fitting };
  }
