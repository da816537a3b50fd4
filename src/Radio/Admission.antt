-- ===== src/Radio/Admission.antt =====
-- The admission check of WinVhciDispatchWrite (winvhci/user.c).
use windows_vhci_driver.Context.{FdoContext}
use windows_vhci_driver.Fdo.Deliver.{complete_read, park_for_read, deliver_to_stack}
use windows_vhci_driver.Kernel.{Wdf, Kernel, Status}
use windows_vhci_driver.Prelude.{
  ℕ, ◌≤◌, ◌<◌, ◌≡◌, ◌≢◌, ◌↔◌, ◌⊎◌, false, ◌&&◌, List, [], arith, length, inc32,
}
use windows_vhci_driver.User.Write.{write_data}

-- The documented room: 1021 bytes of ACL data, 257 bytes of an event.
abbrev pub HasRoom : ℕ → List ℕ → Type 0
HasRoom type body = (type ≡ 0x02 → length body ≤ 1021) × (type ≢ 0x02 → length body ≤ 257)

abbrev pub IsOverlong : ℕ → List ℕ → Type 0
IsOverlong type body =
    ((type ≡ 0x02) × (1021 < length body)) ⊎ ((type ≢ 0x02) × (257 < length body))

module _ {Queue : Type 0} (w : Wdf Queue) where
  deliver_to_stack-ne-not_ready :
      (k : Kernel) (ctx : FdoContext Queue) (type : ℕ) (body : List ℕ)
      → (deliver_to_stack w k ctx type body).0 ≢ Status.device_not_ready
  unfolding deliver_to_stack complete_read park_for_read
  deliver_to_stack-ne-not_ready k ctx type body = ground arith

  -- An event or ACL write is refused as not ready exactly when it has room, 1021 bytes for ACL
  -- data and 257 for an event, and no radio is both present and started, so also while a radio is
  -- present but its stack is not up. Such a refusal changes the count of refused writes and
  -- nothing else. A body beyond its limit is refused as an invalid parameter whatever the radio
  -- does, and changes nothing.
  pub write_data-admission :
      (k : Kernel) (ctx : FdoContext Queue) (type : ℕ) (body : List ℕ)
      → let out = write_data w k ctx type body in
        ((out.0 ≡ Status.device_not_ready)
          ↔ (HasRoom type body × ((ctx.radio_present && ctx.radio_started) ≡ false)))
        × (out.0 ≡ Status.device_not_ready
            → (out.1 ≡ record ctx { writes_no_radio = inc32 ctx.writes_no_radio }) × (out.2 ≡ []))
        × (IsOverlong type body → out ≡ (Status.invalid_parameter, ctx, []))
  unfolding write_data
  write_data-admission k ctx type body =
      let never = deliver_to_stack-ne-not_ready k ctx type body in
      (
        (λ e. ground (arith, never), λ h. ground (arith, never)),
        λ e. ground (arith, never),
        λ h. ground arith,
      )
