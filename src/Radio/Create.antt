-- ===== src/Radio/Create.antt =====
-- The creation of a radio, in WinVhciHandleControl (winvhci/user.c).
use windows_vhci_driver.Context.{h4_vendor, FdoContext}
use windows_vhci_driver.Kernel.{Wdf, Kernel, Status, nt_success}
use windows_vhci_driver.Prelude.{
  ℕ, ◌+◌, ◌*◌, ◌%◌, ◌^◌, ◌<◌, ◌≡◌, refl, true, false, [], ◌∷◌, arith, inc32, low_byte, second_byte,
}
use windows_vhci_driver.User.Control.{reply_body, create_radio}
use windows_vhci_driver.User.ToUser.{park_for_user, queue_to_user}

-- The client reads the id of its radio, modulo 2^16, out of the reply.
pub reply_body-id :
    (opcode radio_id : ℕ)
    → (id_lo : ℕ) × (id_hi : ℕ) × (reply_body opcode radio_id
        ≡ h4_vendor ∷ opcode ∷ id_lo ∷ id_hi ∷ [])
      × (id_lo < 256)
      × (id_hi < 256)
      × (id_lo + 256 * id_hi ≡ radio_id % 2 ^ 16)
reply_body-id opcode radio_id =
    (low_byte radio_id, second_byte radio_id, refl, omega arith, omega arith, omega arith)

module _ {Queue : Type 0} (w : Wdf Queue) where
  -- What a creation leaves of the radio's fields. It succeeds exactly when no radio is present and
  -- the child is added; it is refused, with nothing changed, when one is present; a child that is
  -- not added costs an id and leaves no radio.
  pub create_radio-fields :
      (k : Kernel) (ctx : FdoContext Queue) (opcode : ℕ)
      → let (status, ctx', done) = create_radio w k ctx opcode in
        (ctx.radio_present ≡ true
          → (status ≡ Status.invalid_device_state) × (ctx' ≡ ctx) × (done ≡ []))
        × (ctx.radio_present ≡ false
            → (nt_success status ≡ nt_success (k.add_child ctx.next_radio_id))
              × (ctx'.radio_present ≡ nt_success (k.add_child ctx.next_radio_id))
              × (ctx'.current_radio_id ≡ ctx.next_radio_id)
              × (ctx'.next_radio_id ≡ inc32 ctx.next_radio_id)
              × (ctx'.radio_started ≡ ctx.radio_started)
              × (ctx'.owner ≡ ctx.owner))
  unfolding create_radio queue_to_user park_for_user
  create_radio-fields k ctx opcode = (λ present. ground arith, λ absent. ground arith)
