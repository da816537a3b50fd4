-- ===== src/Radio/Stale.antt =====
-- A radio that is replaced before its PDO has left D0. WinVhciEvtFileClose clears RadioPresent and
-- leaves RadioStarted to the old PDO's D0 exit; a client that reopens sooner claims a new radio
-- with RadioStarted still set, and that exit is then ignored as stale.
use windows_vhci_driver.Context.{FdoContext}
use windows_vhci_driver.Kernel.{Wdf, Kernel, Request, nt_success}
use windows_vhci_driver.Pdo.{evt_d0_exit}
use windows_vhci_driver.Prelude.{ℕ, ◌<◌, ◌≡◌, refl, ◌≢◌, true, [], ◌∷◌, arith}
use windows_vhci_driver.Radio.Create.{create_radio-fields}
use windows_vhci_driver.Radio.Opcode.{handle_control-opcode}
use windows_vhci_driver.Tests.{started}
use windows_vhci_driver.User.Backlogs.{radio_stack_down, purge_backlogs}
use windows_vhci_driver.User.Control.{handle_control}
use windows_vhci_driver.User.Handle.{evt_device_file_create, evt_file_close}
use windows_vhci_driver.User.Write.{admit}

module _ {Queue : Type 0} (w : Wdf Queue) where
  -- Close, reopen, ask for a radio with this control opcode.
  abbrev pub replaced : Kernel → FdoContext Queue → Request → ℕ → ℕ → FdoContext Queue
  replaced k ctx r file opcode =
      let reopened = (evt_device_file_create (evt_file_close w ctx).1 r file).0 in
      (handle_control w k reopened (opcode ∷ [])).1

  -- Of a radio in D0 that is replaced so: the new radio counts as started under its own id before
  -- any D0 entry of it, so the admission check passes, and the old radio's D0 exit, if its id
  -- differs from the new one, leaves it so.
  pub replaced_admits :
      (k : Kernel) (ctx : FdoContext Queue) (r : Request) (file opcode : ℕ)
      → ctx.radio_started ≡ true
      → opcode < 4
      → nt_success (k.add_child ctx.next_radio_id) ≡ true
      → ctx.current_radio_id ≢ ctx.next_radio_id
      → let ctx' = replaced k ctx r file opcode in
        (ctx'.current_radio_id ≡ ctx.next_radio_id)
        × ((admit ctx').0 ≡ true)
        × ((admit (evt_d0_exit ctx.current_radio_id ctx')).0 ≡ true)
  unfolding admit evt_d0_exit radio_stack_down evt_device_file_create evt_file_close purge_backlogs
  replaced_admits k ctx r file opcode started low added fresh =
      let reopened = (evt_device_file_create (evt_file_close w ctx).1 r file).0 in
      let control = (handle_control-opcode w k reopened opcode (omega arith)).0 low in
      let fields = (create_radio-fields w k reopened opcode).1 refl in
      ground (arith, control, fields)
