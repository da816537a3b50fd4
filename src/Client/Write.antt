-- ===== src/Client/Write.antt =====
-- WriteFile, as the client's queue sees it: only a control packet sends something back.
use windows_vhci_driver.Client.{IsServing, Serves, Spares-Serves}
use windows_vhci_driver.Client.Frame.{
  write_data-Spares, stays-Serves, Serves-settle, reply_to, unless_lost, unless_lost-nil,
  handle_control-Serves,
}
use windows_vhci_driver.Context.{max_h4_packet, FdoContext, nothing, complete}
use windows_vhci_driver.Kernel.{Wdf, Kernel, IsFifo, IsBuffered, Request, Status, nt_success}
use windows_vhci_driver.Prelude.{
  ℕ, ◌≡◌, refl, inl, inr, false, ◌||◌, List, [], ◌∷◌, arith, ltb, if◌then◌else◌, Bool-cases,
}
use windows_vhci_driver.Rendezvous.{IsConsistent}
use windows_vhci_driver.Stream.Calls.{last_status, last_status-append}
use windows_vhci_driver.User.Write.{write_data, write_packet, write_buffer, dispatch_write}

module _ {Queue : Type 0} (w : Wdf Queue) (fifo : IsFifo w) where
  write_packet-Serves :
      (k : Kernel) (ctx : FdoContext Queue) (type : ℕ) (body : List ℕ)
      → IsBuffered k
      → IsConsistent w ctx
      → IsServing w ctx
      → let (status, ctx', done) = write_packet w k ctx type body in
        Serves w ctx
          (if nt_success status
            then unless_lost ctx ctx' (reply_to ctx.next_radio_id (type ∷ body))
            else [])
          (ctx', done)
  unfolding write_packet
  write_packet-Serves k ctx type body b c v =
      let (status, ctx', done) = write_data w k ctx type body in
      let stays = stays-Serves w ctx v in
      let carried_on = Spares-Serves w ctx (ctx', done) (write_data-Spares w k ctx type body) v in
      ground (
        arith,
        stays,
        carried_on,
        unless_lost-nil ctx ctx',
        handle_control-Serves w fifo k ctx body b c v,
      )

  write_buffer-Serves :
      (k : Kernel) (ctx : FdoContext Queue) (buffer : List ℕ)
      → IsBuffered k
      → IsConsistent w ctx
      → IsServing w ctx
      → let (status, ctx', done) = write_buffer w k ctx buffer in
        Serves w ctx
          (if nt_success status
            then unless_lost ctx ctx' (reply_to ctx.next_radio_id buffer)
            else [])
          (ctx', done)
  write_buffer-Serves k ctx [] b c v = stays-Serves w ctx v
  write_buffer-Serves k ctx (type ∷ body) b c v = write_packet-Serves k ctx type body b c v

  pub dispatch_write-Serves :
      (k : Kernel) (ctx : FdoContext Queue) (r : Request)
      → IsBuffered k
      → IsConsistent w ctx
      → IsServing w ctx
      → let (ctx', done) = dispatch_write w k ctx r in
        Serves w ctx
          (if nt_success (last_status done)
            then unless_lost ctx ctx' (reply_to ctx.next_radio_id (k.input_buffer r 2).1)
            else [])
          (ctx', done)
  unfolding dispatch_write
  dispatch_write-Serves k ctx r b c v =
      elim (Bool-cases (ltb r.length 2 || ltb max_h4_packet r.length)) [
        | inl bad ↦ rw bad (settled Status.invalid_parameter)
        | inr good ↦ elim (Bool-cases (nt_success (k.input_buffer r 2).0)) [
          | inr none_got ↦ rw (good, none_got) (refused_by (k.input_buffer r 2).0 _ none_got)
          | inl got ↦
              let done = (write_buffer w k ctx (k.input_buffer r 2).1).2 in
              rw (good, got, last_status-append done)
                (Serves-settle w ctx _ _ done _ refl
                  (write_buffer-Serves k ctx (k.input_buffer r 2).1 b c v))
        ]
      ]
    where
      settled : (s : Status) → Serves w ctx [] (ctx, complete r s 0 nothing ∷ [])
      settled s = Serves-settle w ctx ctx [] [] _ refl (stays-Serves w ctx v)

      refused_by :
          (s : Status) (bytes : List (List ℕ))
          → nt_success s ≡ false
          → Serves w ctx (if nt_success s then bytes else []) (ctx, complete r s 0 nothing ∷ [])
      refused_by s bytes e = rw e (settled s)
