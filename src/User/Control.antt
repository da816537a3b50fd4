-- ===== src/User/Control.antt =====
-- winvhci/user.c: WinVhciHandleControl, the control packet FF <opcode> that creates the radio.
use windows_vhci_driver.Context.{h4_vendor, FdoContext, Completion}
use windows_vhci_driver.Kernel.{Wdf, Kernel, Status, nt_success}
use windows_vhci_driver.Prelude.{
  ℕ, bit_and, true, false, not, Option, none, some, List, [], ◌∷◌, ◌==◌, if◌then◌else◌, inc32,
  low_byte, second_byte,
}
use windows_vhci_driver.User.ToUser.{queue_to_user}

-- The reserved bits 2 to 5, and the two quirk bits.
abbrev pub reserved_bits : ℕ → ℕ
reserved_bits opcode = bit_and opcode 0x3C

abbrev pub quirk_bits : ℕ → ℕ
quirk_bits opcode = bit_and opcode 0xC0

-- The body of the reply FF FF <opcode> <id_lo> <id_hi>, behind its type byte.
abbrev pub reply_body : ℕ → ℕ → List ℕ
reply_body opcode radio_id = h4_vendor ∷ opcode ∷ low_byte radio_id ∷ second_byte radio_id ∷ []

module _ {Queue : Type 0} where
  -- The first locked region: the id of the new radio, unless one is present.
  unfoldable pub claim_radio : FdoContext Queue → Option (ℕ × FdoContext Queue)
  claim_radio ctx =
      if ctx.radio_present
      then none
      else some (
        ctx.next_radio_id,
        record ctx {
          next_radio_id = inc32 ctx.next_radio_id;
          radio_present = true;
          current_radio_id = ctx.next_radio_id;
        },
      )

  -- The second locked region, when the child could not be added.
  abbrev pub unclaim_radio : FdoContext Queue → FdoContext Queue
  unclaim_radio ctx = record ctx { radio_present = false }

-- WinVhciAddRadio of winvhci/pdo.c: the description holds the radio's id, and its status is the
-- framework's answer.
abbrev pub add_radio : Kernel → ℕ → Status
add_radio k radio_id = k.add_child radio_id

module _ {Queue : Type 0} (w : Wdf Queue) where
  unfoldable pub create_radio :
      Kernel → FdoContext Queue → ℕ → Status × FdoContext Queue × List Completion
  unfolding claim_radio
  create_radio k ctx opcode = elim (claim_radio ctx) [
    | none ↦ (Status.invalid_device_state, ctx, [])
    | some (radio_id, ctx') ↦
        if nt_success (add_radio k radio_id)
        then (let (ctx'', done) = queue_to_user w k ctx' h4_vendor (reply_body opcode radio_id) in
            (Status.success, ctx'', done))
        else (add_radio k radio_id, unclaim_radio ctx', [])
  ]

  unfoldable pub control_opcode :
      Kernel → FdoContext Queue → ℕ → Status × FdoContext Queue × List Completion
  control_opcode k ctx opcode =
      if not (reserved_bits opcode == 0)
      then (Status.invalid_parameter, ctx, [])
      else if not (quirk_bits opcode == 0)
      then (Status.not_supported, ctx, [])
      else create_radio k ctx opcode

  unfoldable pub handle_control :
      Kernel → FdoContext Queue → List ℕ → Status × FdoContext Queue × List Completion
  unfolding control_opcode
  handle_control k ctx (opcode ∷ []) = control_opcode k ctx opcode
  handle_control k ctx _ = (Status.invalid_parameter, ctx, [])
