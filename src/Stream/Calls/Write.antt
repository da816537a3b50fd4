-- ===== src/Stream/Calls/Write.antt =====
-- WriteFile, as one channel sees it.
use windows_vhci_driver.Calls.{writes}
use windows_vhci_driver.Context.{
  h4_acl, h4_event, max_h4_packet, Packet, FdoContext, nothing, Completion, complete, Channel,
  events, acl, channel_of,
}
use windows_vhci_driver.Fdo.Deliver.{deliver_to_stack}
use windows_vhci_driver.Kernel.{Wdf, Kernel, IsFifo, Request, Status, nt_success}
use windows_vhci_driver.Prelude.{
  ℕ, ◌≡◌, refl, inl, inr, true, false, ◌||◌, List, [], ◌∷◌, ◌++◌, append-nil, arith, ltb, ◌==◌,
  if◌then◌else◌, Bool-cases, inc32,
}
use windows_vhci_driver.Rendezvous.{IsConsistent}
use windows_vhci_driver.Stream.{
  carried, delivered, delivered-append, IsDeliverable, Advances, Ignores-Advances,
}
use windows_vhci_driver.Stream.Calls.{written, last_status-append, admitted, deliver_on-Advances}
use windows_vhci_driver.Stream.Frame.{handle_control-Ignores}
use windows_vhci_driver.User.Write.{write_data, write_packet, write_buffer, dispatch_write}

module _ {Queue : Type 0} (w : Wdf Queue) where
  pub stays-Advances :
      (ch : Channel) (ctx : FdoContext Queue)
      → IsDeliverable w ch ctx
      → Advances w ch ctx [] (ctx, [])
  stays-Advances ch ctx d =
      Ignores-Advances w ch ctx _ (record { queue = refl; list = refl; silent = refl }) d

  refused-Advances :
      (ch : Channel) (ctx : FdoContext Queue) (n : ℕ)
      → IsDeliverable w ch ctx
      → Advances w ch ctx [] (record ctx { writes_no_radio = n }, [])
  refused-Advances events ctx n d =
      Ignores-Advances w events ctx _ (record { queue = refl; list = refl; silent = refl }) d
  refused-Advances acl ctx n d =
      Ignores-Advances w acl ctx _ (record { queue = refl; list = refl; silent = refl }) d

  module _ (fifo : IsFifo w) where
    write_data-Advances :
        (ch : Channel) (k : Kernel) (ctx : FdoContext Queue) (type : ℕ) (body : List ℕ)
        → IsConsistent w ctx
        → IsDeliverable w ch ctx
        → (type == h4_event || type == h4_acl) ≡ true
        → let (status, ctx', done) = write_data w k ctx type body in
          Advances w ch ctx
            (if nt_success status then written ch (type ∷ body) else [])
            (ctx', done)
    unfolding write_data deliver_to_stack
    write_data-Advances ch k ctx type body c d data_type =
        let same_as = stays-Advances ch ctx d in
        let not_ready = refused-Advances ch ctx (inc32 ctx.writes_no_radio) d in
        ground (
          arith,
          same_as,
          not_ready,
          deliver_on-Advances w fifo ch (channel_of type) k ctx type body c d refl,
        )

    write_packet-Advances :
        (ch : Channel) (k : Kernel) (ctx : FdoContext Queue) (type : ℕ) (body : List ℕ)
        → IsConsistent w ctx
        → IsDeliverable w ch ctx
        → let (status, ctx', done) = write_packet w k ctx type body in
          Advances w ch ctx
            (if nt_success status then written ch (type ∷ body) else [])
            (ctx', done)
    unfolding write_packet
    write_packet-Advances ch k ctx type body c d =
        let same_as = stays-Advances ch ctx d in
        let control = Ignores-Advances w ch ctx _ (handle_control-Ignores w ch k ctx body) d in
        ground (arith, same_as, control, write_data-Advances ch k ctx type body c d)

    write_buffer-Advances :
        (ch : Channel) (k : Kernel) (ctx : FdoContext Queue) (buffer : List ℕ)
        → IsConsistent w ctx
        → IsDeliverable w ch ctx
        → let (status, ctx', done) = write_buffer w k ctx buffer in
          Advances w ch ctx (if nt_success status then written ch buffer else []) (ctx', done)
    write_buffer-Advances ch k ctx [] c d = stays-Advances ch ctx d
    write_buffer-Advances ch k ctx (type ∷ body) c d = write_packet-Advances ch k ctx type body c d

  -- A completion that carries no packet to the stack.
  pub Advances-settle :
      (ch : Channel) (ctx ctx' : FdoContext Queue) (added : List Packet) (done : List Completion)
      (c : Completion)
      → carried ch c.output ≡ []
      → Advances w ch ctx added (ctx', done)
      → Advances w ch ctx added (ctx', done ++ (c ∷ []))
  Advances-settle ch ctx ctx' added done c e a = record {
    stream = rw (delivered-append ch done (c ∷ []), e, append-nil (delivered ch done)) a.stream;
    keeps = a.keeps;
  }

  module _ (fifo : IsFifo w) where
    pub dispatch_write-Advances :
        (ch : Channel) (k : Kernel) (ctx : FdoContext Queue) (r : Request)
        → IsConsistent w ctx
        → IsDeliverable w ch ctx
        → let out = dispatch_write w k ctx r in
          Advances w ch ctx (admitted ch (writes k r) out.1) out
    unfolding dispatch_write
    dispatch_write-Advances ch k ctx r c d =
        elim (Bool-cases (ltb r.length 2 || ltb max_h4_packet r.length)) [
          | inl bad ↦ rw bad (settled Status.invalid_parameter 0)
          | inr good ↦ elim (Bool-cases (nt_success (k.input_buffer r 2).0)) [
            | inr none_got ↦ rw (good, none_got) (refused_by (k.input_buffer r 2).0 none_got)
            | inl got ↦
                let done = (write_buffer w k ctx (k.input_buffer r 2).1).2 in
                rw (good, got, last_status-append done)
                  (Advances-settle ch ctx _ _ done _ refl
                    (write_buffer-Advances fifo ch k ctx (k.input_buffer r 2).1 c d))
          ]
        ]
      where
        settled : (s : Status) (n : ℕ) → Advances w ch ctx [] (ctx, complete r s n nothing ∷ [])
        settled s n =
            Advances-settle ch ctx ctx [] [] (complete r s n nothing) refl (stays-Advances ch ctx d)

        refused_by :
            (s : Status)
            → nt_success s ≡ false
            → Advances w ch ctx
                (if nt_success s then written ch (k.input_buffer r 2).1 else [])
                (ctx, complete r s 0 nothing ∷ [])
        refused_by s e = rw e (settled s 0)
