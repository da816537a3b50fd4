-- ===== src/Radio/Power.antt =====
-- RadioStarted against the power events of the PDOs (winvhci/pdo.c). Each PDO reports under its
-- own RadioId, at any time.
use windows_vhci_driver.Calls.{
  Call, writes, reads, ioctls, opens, closes, enters_d0, exits_d0, cancels_user_read,
  cancels_stack_read, asks_stats, forwards_up, adds_pdo, removes_pdo, tears_down, perform, run,
}
use windows_vhci_driver.Context.{FdoContext}
use windows_vhci_driver.Fdo.Setup.{evt_self_managed_io_cleanup}
use windows_vhci_driver.Kernel.{Wdf}
use windows_vhci_driver.Pdo.{evt_d0_entry, evt_d0_exit, pdo_evt_cleanup, pdo_forward_to_parent}
use windows_vhci_driver.Pdo.Create.{evt_child_list_create_device}
use windows_vhci_driver.Prelude.{
  ℕ, ◌≡◌, refl, sym, ap₂, ◌∙◌, Bool, true, false, List, [], ◌∷◌, arith, All, ◌==◌, if◌then◌else◌,
}
use windows_vhci_driver.Radio.Keeps.{
  evt_io_read-KeepsRadio, dispatch_write-KeepsRadio, bthx_dispatch-KeepsRadio, cancel-KeepsRadio,
}
use windows_vhci_driver.User.Backlogs.{radio_stack_down, purge_backlogs}
use windows_vhci_driver.User.Handle.{evt_device_file_create}
use windows_vhci_driver.User.Stats.{evt_io_device_control}

-- What the last power event of the radio says, and what was known before if there is none.
abbrev pub power_of : ℕ → List Call → Bool → Bool
power_of radio_id [] b = b
power_of radio_id (enters_d0 i ∷ cs) b = power_of radio_id cs (if i == radio_id then true else b)
power_of radio_id (exits_d0 i ∷ cs) b = power_of radio_id cs (if i == radio_id then false else b)
power_of radio_id (c ∷ cs) b = power_of radio_id cs b

abbrev pub IsNotClose : Call → Type 0
IsNotClose closes = ⊥
IsNotClose _ = Unit

module _ {Queue : Type 0} (w : Wdf Queue) where
  -- One call other than a close, while a radio is present.
  pub perform-power :
      (ctx : FdoContext Queue) (c : Call)
      → ctx.radio_present ≡ true
      → IsNotClose c
      → let t = (perform w ctx c).0 in
        (t.radio_present ≡ true)
        × (t.current_radio_id ≡ ctx.current_radio_id)
        × (t.next_radio_id ≡ ctx.next_radio_id)
        × (t.radio_started ≡ power_of ctx.current_radio_id (c ∷ []) ctx.radio_started)
  unfolding perform evt_device_file_create evt_d0_entry evt_d0_exit radio_stack_down
      evt_io_device_control pdo_forward_to_parent evt_child_list_create_device pdo_evt_cleanup
      evt_self_managed_io_cleanup purge_backlogs
  perform-power ctx (writes k r) e n = ground (arith, dispatch_write-KeepsRadio w k ctx r e)
  perform-power ctx (reads k r) e n = ground (arith, evt_io_read-KeepsRadio w k ctx r)
  perform-power ctx (ioctls k r out_length in_length code) e n =
      ground (arith, bthx_dispatch-KeepsRadio w k ctx r out_length in_length code)
  perform-power ctx (opens r file) e n = ground arith
  perform-power ctx closes e n = absurd n
  perform-power ctx (enters_d0 radio_id) e n = ground arith
  perform-power ctx (exits_d0 radio_id) e n = ground arith
  perform-power ctx (cancels_user_read i) e n = ground arith
  perform-power ctx (cancels_stack_read ch i) e n = ground (arith, cancel-KeepsRadio w ctx ch i)
  perform-power ctx (asks_stats k r l code) e n = ground arith
  perform-power ctx (forwards_up status r) e n = ground arith
  perform-power ctx (adds_pdo p) e n = ground arith
  perform-power ctx removes_pdo e n = ground arith
  perform-power ctx tears_down e n = ground arith

  power_of-cons :
      (i : ℕ) (c : Call) (cs : List Call) (b : Bool)
      → power_of i (c ∷ cs) b ≡ power_of i cs (power_of i (c ∷ []) b)
  power_of-cons i (enters_d0 j) cs b = refl
  power_of-cons i (exits_d0 j) cs b = refl
  power_of-cons i c cs b = refl

  -- While a radio is present and until the close, whatever else is called: the radio stays the
  -- current one, no other can be created, and RadioStarted follows the power events of its own PDO
  -- alone. The D0 entries and exits of earlier radios, however late, change nothing of it.
  pub run-power :
      (ctx : FdoContext Queue) (cs : List Call)
      → ctx.radio_present ≡ true
      → All IsNotClose cs
      → let t = (run w ctx cs).0 in
        (t.radio_present ≡ true)
        × (t.current_radio_id ≡ ctx.current_radio_id)
        × (t.next_radio_id ≡ ctx.next_radio_id)
        × (t.radio_started ≡ power_of ctx.current_radio_id cs ctx.radio_started)
  unfolding run
  run-power ctx [] e n = (e, refl, refl, refl)
  run-power ctx (c ∷ cs) e n =
      let now = perform-power ctx c e n.0 in
      let later = run-power (perform w ctx c).0 cs now.0 n.1 in
      (
        later.0,
        later.1 ∙ now.1,
        later.2 ∙ now.2,
        later.3
            ∙ ap₂ (λ i b. power_of i cs b) now.1 now.3
            ∙ sym (power_of-cons ctx.current_radio_id c cs ctx.radio_started),
      )
